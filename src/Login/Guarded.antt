-- ===== src/Login/Guarded.antt =====
-- Whom the guards of api/auth.py let through.
use googlecloudhack.Prelude.{
  String, is_empty, any, elem, eq_refl, [], ◌∷◌, not, ◌≡◌, refl, ◌⊎◌, inl, inr, true, false, Option,
  none, some, List, Result, ok, http_exception, >>=-ok, raise_if-ok, of_not, Bool-cases, arith,
}
use googlecloudhack.Value.{Value, str, Fields, is_str, is_str_iff}
use googlecloudhack.Sessions.Tokens.{
  TokenLibrary, SessionIdentity, decode_jwt, identity_of, read_session_token,
}
use googlecloudhack.Sessions.Signed.{IsSigned, decode_jwt_iff}
use googlecloudhack.Login.{
  after_space, session_secret, or_unauthorized, lacks_bearer, read_token,
  identity_from_authorization, allowed_roles, require_one_of, require_role, require_dbre, is_unset,
  optional_dbre_identity, role_dbre,
}

module _ {Bytes Time : Type 0} (tokens : TokenLibrary Bytes Time) (environ : String → Option String)
    (now : Time) (lower strip : String → String) where
  -- The bearer of a token that the server signed with its secret and that is not over, and the identity
  -- in that token.
  pub record IsAuthenticated (authorization : Option String) (identity : SessionIdentity)
      : Type 0 where
    pub text : String
    pub given : authorization ≡ some text
    pub bearer : String
    pub found : after_space text ≡ some bearer
    pub secret : String
    pub configured : environ "SESSION_SECRET" ≡ some secret
    pub secret_given : is_empty secret ≡ false
    pub claims : Fields
    pub signed : IsSigned tokens now secret (strip bearer) claims
    pub claimed : identity_of claims ≡ ok identity

  or_unauthorized-ok :
      (r : Result SessionIdentity) (identity : SessionIdentity)
      → or_unauthorized r ≡ ok identity
      → r ≡ ok identity
  or_unauthorized-ok r identity h = ground arith

  session_secret-ok :
      (secret : String)
      → session_secret environ ≡ ok secret
      → (environ "SESSION_SECRET" ≡ some secret) × (is_empty secret ≡ false)
  unfolding session_secret
  session_secret-ok secret h = ground arith

  read_token-ok :
      (text : String) (o : Option String) (identity : SessionIdentity)
      → after_space text ≡ o
      → read_token tokens environ now lower strip o ≡ ok identity
      → IsAuthenticated (some text) identity
  unfolding read_session_token
  read_token-ok text none identity e h = cc
  read_token-ok text (some bearer) identity e h =
      let (secret, have, read) =
        (>>=-ok (session_secret environ) (read_session_token tokens now (strip bearer)) identity).0
          (or_unauthorized-ok _ identity h) in
      let (claims, decoded, claimed) =
        (>>=-ok (decode_jwt tokens now (strip bearer) secret) identity_of identity).0 read in
      let (set, nonempty) = session_secret-ok secret have in
      record {
        text = text;
        given = refl;
        bearer = bearer;
        found = e;
        secret = secret;
        configured = set;
        secret_given = nonempty;
        claims = claims;
        signed = (decode_jwt_iff tokens now (strip bearer) secret claims).0 decoded;
        claimed = claimed;
      }

  identity_from_authorization-IsAuthenticated :
      (authorization : Option String) (identity : SessionIdentity)
      → identity_from_authorization tokens environ now lower strip authorization ≡ ok identity
      → IsAuthenticated authorization identity
  unfolding identity_from_authorization
  identity_from_authorization-IsAuthenticated none identity h = cc
  identity_from_authorization-IsAuthenticated (some text) identity h =
      read_token-ok text (after_space text) identity refl
        ((raise_if-ok (lacks_bearer tokens environ now lower strip text)
            (http_exception 401 "missing bearer token")
            (read_token tokens environ now lower strip (after_space text)) identity).0
          h).1

-- a role that a route lets through: one of those it names, or, where it names none, a valid one
abbrev pub IsAllowed : (roles : List String) → (role : String) → Type 0
IsAllowed roles role =
    (elem role roles ≡ true) ⊎ ((roles ≡ []) × ((role ≡ "user") ⊎ (role ≡ "dbre")))

any-elem :
    (v : Value) (roles : List String)
    → any (is_str v) roles ≡ true
    → (role : String) × (v ≡ str role) × (elem role roles ≡ true)
any-elem v [] h = cc
any-elem v (role ∷ roles) h = elim (Bool-cases (is_str v role)) [
  | inl e ↦ (role, (is_str_iff v role).0 e, rw (eq_refl role) refl)
  | inr e ↦ let (other, same, later) = any-elem v roles (rw e at h) in (other, same, ground arith)
]

allowed_roles-IsAllowed :
    (v : Value) (roles : List String)
    → any (is_str v) (allowed_roles roles) ≡ true
    → (role : String) × (v ≡ str role) × IsAllowed roles role
allowed_roles-IsAllowed v (role ∷ roles) h =
    let (found, same, e) = any-elem v (role ∷ roles) h in (found, same, inl e)
allowed_roles-IsAllowed v [] h = elim (Bool-cases (is_str v "user")) [
  | inl e ↦ ("user", (is_str_iff v "user").0 e, inr (refl, inl refl))
  | inr e ↦
      let last : is_str v "dbre" ≡ true = ground arith in
      ("dbre", (is_str_iff v "dbre").0 last, inr (refl, inr refl))
]

-- A route that requires a role lets through only the bearer of a token that the server signed and whose
-- end, where it has one, the clock is not past; its role is one of those the route names or, where the
-- route names none, user or dbre.
pub require_role-IsAuthenticated :
    {Bytes Time : Type 0} (tokens : TokenLibrary Bytes Time) (environ : String → Option String)
    (now : Time) (lower strip : String → String) (roles : List String)
    (authorization : Option String) (identity : SessionIdentity)
    → require_role tokens environ now lower strip roles authorization ≡ ok identity
    → IsAuthenticated tokens environ now lower strip authorization identity
      × ((role : String) × (identity.role ≡ str role) × IsAllowed roles role)
unfolding require_role
require_role-IsAuthenticated tokens environ now lower strip roles authorization identity h =
    let (found, read, checked) =
      (>>=-ok (identity_from_authorization tokens environ now lower strip authorization)
          (require_one_of (allowed_roles roles)) identity).0
        h in
    let (allowed, same) =
      (raise_if-ok (not (any (is_str found.role) (allowed_roles roles)))
          (http_exception 403 "insufficient role") (ok found) identity).0
        checked in
    let e : found ≡ identity = cc in
    (
      identity_from_authorization-IsAuthenticated tokens environ now lower strip authorization
          identity (rw (← e) read),
      rw (← e) (allowed_roles-IsAllowed found.role roles (of_not allowed)),
    )

-- The guard of the decisions lets a request through in one of two cases: no session secret is set, and
-- nobody is named; or its bearer has a token that the server signed, whose end, where it has one, the
-- clock is not past, for the role dbre.
pub optional_dbre_identity-IsAuthenticated :
    {Bytes Time : Type 0} (tokens : TokenLibrary Bytes Time) (environ : String → Option String)
    (now : Time) (lower strip : String → String) (authorization : Option String)
    (result : Option SessionIdentity)
    → optional_dbre_identity tokens environ now lower strip authorization ≡ ok result
    → ((is_unset (environ "SESSION_SECRET") ≡ true) × (result ≡ none))
      ⊎ ((identity : SessionIdentity) × (result ≡ some identity)
          × IsAuthenticated tokens environ now lower strip authorization identity
          × (identity.role ≡ str "dbre"))
unfolding optional_dbre_identity
optional_dbre_identity-IsAuthenticated tokens environ now lower strip authorization result h =
    elim (Bool-cases (is_unset (environ "SESSION_SECRET"))) [
      | inl unset ↦ inl (unset, ground arith)
      | inr set ↦
          let (found, read, checked) =
            (>>=-ok (identity_from_authorization tokens environ now lower strip authorization)
                require_dbre result).0
              (rw set at h) in
          let (allowed, same) =
            (raise_if-ok (not (is_str found.role role_dbre))
                (http_exception 403 "DBRE role required") (ok (some found)) result).0
              checked in
          inr (
            found,
            cc,
            identity_from_authorization-IsAuthenticated tokens environ now lower strip authorization
                found read,
            (is_str_iff found.role "dbre").0 (of_not allowed),
          )
    ]
