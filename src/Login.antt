-- ===== src/Login.antt =====
-- api/auth.py: the login route and the guards by role. The environment, the store of users and the
-- clock are parameters.
pub mod Guarded
use Prim.Native.String.{◌++◌ as append}
use googlecloudhack.Prelude.{
  ℕ, ◌*◌, String, code, nat_eq, is_empty, elem, ◌==◌, Bool, true, false, not, any, ◌||◌, Option,
  none, some, List, [], ◌∷◌, is_nil, take_chars, Error, Result, ok, err, raised, token_error,
  http_exception, raise_if, ◌>>=◌, ◌>>◌, if◌then◌else◌,
}
use googlecloudhack.Externals.{Externals}
use googlecloudhack.Value.{Value, is_str}
use googlecloudhack.Api.{Identity}
use googlecloudhack.Sessions.Tokens.{
  TokenLibrary, SessionIdentity, make_session_token, read_session_token,
}
use googlecloudhack.Sessions.Passwords.{PasswordLibrary, verify_password}

abbrev pub role_user : String
role_user = "user"

abbrev pub role_dbre : String
role_dbre = "dbre"

abbrev pub valid_roles : List String
valid_roles = role_user ∷ role_dbre ∷ []

-- `_DEFAULT_TTL_SECONDS` of controller/auth.py
abbrev pub default_ttl_seconds : ℕ
default_ttl_seconds = 12 * 3600

pub record UserRecord : Type 0 where
  pub username : String
  pub display_name : String
  pub role : String
  pub password_hash : String

pub record LoginRequest : Type 0 where
  pub username : String
  pub password : String

pub record LoginResponse : Type 0 where
  pub token : String
  pub role : String
  pub username : String
  pub display_name : String

-- `s.split(" ", 1)[1]`; none where it raises an IndexError
unfoldable pub after_space : String → Option String
after_space String.[] = none
after_space (String.◌∷◌ c s) =
    let rest = after_space s in if nat_eq (code c) b' ' then some s else rest

unfoldable pub session_secret : (environ : String → Option String) → Result String
session_secret environ = elim (environ "SESSION_SECRET") [
  | none ↦ err (http_exception 503 "SESSION_SECRET is not configured")
  | some secret ↦
      if is_empty secret
      then err (http_exception 503 "SESSION_SECRET is not configured")
      else ok secret
]

abbrev pub is_unset : Option String → Bool
is_unset none = true
is_unset (some s) = is_empty s

abbrev pub allowed_roles : List String → List String
allowed_roles [] = valid_roles
allowed_roles (role ∷ roles) = role ∷ roles

abbrev pub require_one_of : List String → SessionIdentity → Result SessionIdentity
require_one_of roles identity =
    raise_if (not (any (is_str identity.role) roles)) (http_exception 403 "insufficient role")
    >> ok identity

abbrev pub require_dbre : SessionIdentity → Result (Option SessionIdentity)
require_dbre identity =
    raise_if (not (is_str identity.role role_dbre)) (http_exception 403 "DBRE role required")
    >> ok (some identity)

-- `except TokenError`
abbrev pub or_unauthorized {ℓ} : {T : Type ℓ} → Result T → Result T
or_unauthorized (err (token_error m)) = err (http_exception 401 "invalid session token")
or_unauthorized r = r

module _ {Bytes Time : Type 0} (tokens : TokenLibrary Bytes Time) (environ : String → Option String)
    (now : Time) where
  abbrev login_as : UserRecord → (secret : String) → LoginResponse
  login_as user secret = record {
    token =
        make_session_token tokens
          (record { username = user.username; display_name = user.display_name; role = user.role })
          secret default_ttl_seconds now;
    role = user.role;
    username = user.username;
    display_name = user.display_name;
  }

  -- with no user, the hash of nobody is verified for the time it takes, and its answer is not used
  unfoldable pub login :
      (x : Externals)
      → PasswordLibrary Bytes
      → (get_user : String → Option UserRecord) → LoginRequest
      → Result LoginResponse
  login x passwords get_user body = elim (get_user body.username) [
    | none ↦ err (http_exception 401 "invalid credentials")
    | some user ↦
        raise_if (not (verify_password x passwords body.password user.password_hash))
          (http_exception 401 "invalid credentials")
        >> (session_secret environ >>= λ secret. ok (login_as user secret))
  ]

  module _ (lower strip : String → String) where
    -- `not authorization or not authorization.lower().startswith("bearer ")`
    abbrev pub lacks_bearer : String → Bool
    lacks_bearer authorization =
        is_empty authorization || not (take_chars 7 (lower authorization) == "bearer ")

    abbrev pub read_token : Option String → Result SessionIdentity
    read_token none = err (raised "IndexError: list index out of range")
    read_token (some s) =
        or_unauthorized (session_secret environ >>= read_session_token tokens now (strip s))

    unfoldable pub identity_from_authorization : Option String → Result SessionIdentity
    identity_from_authorization none = err (http_exception 401 "missing bearer token")
    identity_from_authorization (some authorization) =
        raise_if (lacks_bearer authorization) (http_exception 401 "missing bearer token")
        >> read_token (after_space authorization)

    unfoldable pub require_role : (roles : List String) → Option String → Result SessionIdentity
    require_role roles authorization =
        identity_from_authorization authorization >>= require_one_of (allowed_roles roles)

    unfoldable pub optional_dbre_identity : Option String → Result (Option SessionIdentity)
    optional_dbre_identity authorization =
        if is_unset (environ "SESSION_SECRET")
        then ok none
        else identity_from_authorization authorization >>= require_dbre
