-- ===== src/Sessions/Signed.antt =====
-- Which session tokens of controller/auth.py are accepted.
use googlecloudhack.Prelude.{
  String, ◌≡◌, refl, Bool, true, false, not, ◌↔◌, Option, Option-cases, inl, inr, none, some, List,
  [], ◌∷◌, Error, ok, value_error, token_error, raise_if, ◌>>=◌, ◌>>◌, >>-ok, >>=-ok, raise_if-ok,
  of_not,
}
use googlecloudhack.Value.{
  Value, null, boolean, int, float, str, list, tuple, dict, Fields, get, is_str, is_str_iff,
}
use googlecloudhack.Sessions.Encoding.{b64d, split_on}
use googlecloudhack.Sessions.Tokens.{
  TokenLibrary, signing_input, is_ascii, has_alg, or_token_error, mapping, json_object, require_alg,
  segment_json, check_header, compare_signature, check_signature, check_expiry, is_expired,
  decode_segments, decode_parts, decode_jwt,
}

-- The end that a token gives: none, or one that this time is not after.
pub data IsCurrent {Bytes Time : Type 0} (lib : TokenLibrary Bytes Time) (now : Time)
    : Option Value → Type 0 where
  no_end : IsCurrent lib now none
  null_end : IsCurrent lib now (some null)
  later :
      {exp : Value} {t : Time}
      → lib.float_of exp ≡ ok t
      → lib.is_after now t ≡ false
      → IsCurrent lib now (some exp)

module _ {Bytes Time : Type 0} (lib : TokenLibrary Bytes Time) (now : Time) (secret token : String)
    (claims : Fields) where
  -- A token that was signed with this secret and is not over: three segments, a header that names HS256,
  -- a signature that is the HMAC of the other two, and claims that say no earlier end.
  pub record IsSigned : Type 0 where
    pub header_b64 : String
    pub payload_b64 : String
    pub signature_b64 : String
    pub segments : split_on b'.' token ≡ header_b64 ∷ payload_b64 ∷ signature_b64 ∷ []
    pub ascii : is_ascii (signing_input header_b64 payload_b64) ≡ true
    pub fields : Fields
    pub header : segment_json lib header_b64 ≡ some (dict fields)
    pub algorithm : get "alg" fields ≡ some (str "HS256")
    pub provided : Bytes
    pub signature : b64d lib.base64 signature_b64 ≡ some provided
    pub authentic :
        lib.compare_digest (lib.hmac_sha256 secret (signing_input header_b64 payload_b64)) provided
        ≡ true
    pub payload : segment_json lib payload_b64 ≡ some (dict claims)
    pub unexpired : IsCurrent lib now (get "exp" claims)

or_token_error-ok {ℓ} :
    {T : Type ℓ} (m : String) (o : Option T) (t : T) → (or_token_error m o ≡ ok t) ↔ (o ≡ some t)
or_token_error-ok m none t = (λ h. cc, λ h. cc)
or_token_error-ok m (some s) t = (λ h. cc, λ h. cc)

mapping-ok : (v : Value) (fs : Fields) → (mapping v ≡ ok fs) ↔ (v ≡ dict fs)
mapping-ok (dict gs) fs = (λ h. cc, λ h. cc)
mapping-ok null fs = (λ h. cc, λ h. cc)
mapping-ok (boolean b) fs = (λ h. cc, λ h. cc)
mapping-ok (int n) fs = (λ h. cc, λ h. cc)
mapping-ok (float r) fs = (λ h. cc, λ h. cc)
mapping-ok (str s) fs = (λ h. cc, λ h. cc)
mapping-ok (list vs) fs = (λ h. cc, λ h. cc)
mapping-ok (tuple vs) fs = (λ h. cc, λ h. cc)

-- a JSON object in a segment
json_object-ok :
    (m : String) (o : Option Value) (fs : Fields) → (json_object m o ≡ ok fs) ↔ (o ≡ some (dict fs))
json_object-ok m o fs = (
  λ h.
      let (v, found, same) = (>>=-ok (or_token_error m o) mapping fs).0 h in
      let e = (mapping-ok v fs).0 same in let k = (or_token_error-ok m o v).0 found in cc,
  λ h. rw h refl,
)

-- a guard that is not raised
raise_if-not : (b : Bool) (exc : Error) → (raise_if (not b) exc ≡ ok tt) ↔ (b ≡ true)
raise_if-not true exc = (λ h. refl, λ h. refl)
raise_if-not false exc = (λ h. cc, λ h. cc)

-- the algorithm that a header names
pub has_alg_iff :
    (fields : Fields) → (has_alg fields ≡ true) ↔ (get "alg" fields ≡ some (str "HS256"))
has_alg_iff fields = (
  λ h. elim (Option-cases (get "alg" fields)) [
    | inl e ↦ let lacks : has_alg fields ≡ false = rw (has_alg, e) refl in cc
    | inr (v, e) ↦
        let named : is_str v "HS256" ≡ true = rw (has_alg, e) at h in
        let same = (is_str_iff v "HS256").0 named in cc
  ],
  λ h. rw (has_alg, h) refl,
)

module _ {Bytes Time : Type 0} (lib : TokenLibrary Bytes Time) (now : Time) where
  is_expired-IsCurrent : (o : Option Value) → is_expired lib now o ≡ ok false → IsCurrent lib now o
  is_expired-IsCurrent none h = no_end
  is_expired-IsCurrent (some null) h = null_end
  is_expired-IsCurrent (some exp) h =
      let (t, e, a) = (>>=-ok (lib.float_of exp) (λ t. ok (lib.is_after now t)) false).0 h in
      later e cc

  IsCurrent-is_expired : (o : Option Value) → IsCurrent lib now o → is_expired lib now o ≡ ok false
  IsCurrent-is_expired none c = refl
  IsCurrent-is_expired (some null) c = refl
  IsCurrent-is_expired (some exp) (later e a) = rw (e, a) refl

  pub check_expiry-ok :
      (fs claims : Fields)
      → (check_expiry lib now fs ≡ ok claims) ↔ ((fs ≡ claims) × IsCurrent lib now (get "exp" fs))
  unfolding check_expiry
  check_expiry-ok fs claims = (
    λ h.
        let (expired, e, rest) = (>>=-ok (is_expired lib now (get "exp" fs)) _ claims).0 h in
        let (not_over, same) =
          (raise_if-ok expired (token_error "token expired") (ok fs) claims).0 rest in
        (cc, is_expired-IsCurrent (get "exp" fs) (cc)),
    λ (same, c). rw (IsCurrent-is_expired (get "exp" fs) c, same) refl,
  )

module _ {Bytes Time : Type 0} (lib : TokenLibrary Bytes Time) (now : Time) (secret : String) where
  check_header-ok :
      (header_b64 : String)
      → (check_header lib header_b64 ≡ ok tt) ↔ (
          (fields : Fields) × (segment_json lib header_b64 ≡ some (dict fields))
          × (get "alg" fields ≡ some (str "HS256")))
  unfolding check_header
  check_header-ok header_b64 =
      let (apart, together) =
        >>=-ok (json_object "bad header" (segment_json lib header_b64)) require_alg tt in
      (
        λ h.
            let (fields, found, named) = apart h in
            (
              fields,
              (json_object-ok "bad header" (segment_json lib header_b64) fields).0 found,
              (has_alg_iff fields).0
                  ((raise_if-not (has_alg fields) (token_error "unsupported algorithm")).0 named),
            ),
        λ (fields, found, named). together (
          fields,
          (json_object-ok "bad header" (segment_json lib header_b64) fields).1 found,
          (raise_if-not (has_alg fields) (token_error "unsupported algorithm")).1
              ((has_alg_iff fields).1 named),
        ),
      )

  check_signature-ok :
      (header_b64 payload_b64 signature_b64 : String)
      → (check_signature lib secret header_b64 payload_b64 signature_b64 ≡ ok tt) ↔ (
          (is_ascii (signing_input header_b64 payload_b64) ≡ true)
          × ((provided : Bytes) × (b64d lib.base64 signature_b64 ≡ some provided)
              × (lib.compare_digest
                    (lib.hmac_sha256 secret (signing_input header_b64 payload_b64))
                    provided
                  ≡ true)))
  unfolding check_signature
  check_signature-ok header_b64 payload_b64 signature_b64 =
      let text = signing_input header_b64 payload_b64 in
      let given = or_token_error "bad signature encoding" (b64d lib.base64 signature_b64) in
      let bad = value_error "'ascii' codec can't encode the token" in
      let (apart, together) =
        raise_if-ok (not (is_ascii text)) bad (given >>= compare_signature lib secret text) tt in
      let (within, back) = >>=-ok given (compare_signature lib secret text) tt in
      (
        λ h.
            let (ascii, rest) = apart h in
            let (provided, found, same) = within rest in
            (
              of_not ascii,
              (
                provided,
                (or_token_error-ok "bad signature encoding" (b64d lib.base64 signature_b64)
                      provided).0
                    found,
                (raise_if-not (lib.compare_digest (lib.hmac_sha256 secret text) provided)
                      (token_error "bad signature")).0
                    same,
              ),
            ),
        λ (ascii, (provided, found, same)). together (
          rw ascii refl,
          back (
            provided,
            (or_token_error-ok "bad signature encoding" (b64d lib.base64 signature_b64) provided).1
                found,
            (raise_if-not (lib.compare_digest (lib.hmac_sha256 secret text) provided)
                  (token_error "bad signature")).1
                same,
          ),
        ),
      )

  decode_segments-ok :
      (header_b64 payload_b64 signature_b64 : String) (claims : Fields)
      → (decode_segments lib now secret header_b64 payload_b64 signature_b64 ≡ ok claims) ↔ (
          (check_header lib header_b64 ≡ ok tt)
          × (check_signature lib secret header_b64 payload_b64 signature_b64 ≡ ok tt)
          × (segment_json lib payload_b64 ≡ some (dict claims))
          × IsCurrent lib now (get "exp" claims))
  unfolding decode_segments
  decode_segments-ok header_b64 payload_b64 signature_b64 claims =
      let payload = json_object "bad payload" (segment_json lib payload_b64) in
      let signed = check_signature lib secret header_b64 payload_b64 signature_b64 in
      let (apart, together) =
        >>-ok (check_header lib header_b64) (signed >> (payload >>= check_expiry lib now)) claims in
      let (within, back) = >>-ok signed (payload >>= check_expiry lib now) claims in
      let (inside, out) = >>=-ok payload (check_expiry lib now) claims in
      (
        λ h.
            let (headed, rest) = apart h in
            let (right, rest') = within rest in
            let (fs, found, unexpired) = inside rest' in
            let (same, current) = (check_expiry-ok lib now fs claims).0 unexpired in
            (
              headed,
              right,
              (json_object-ok "bad payload" (segment_json lib payload_b64) claims).0
                  (rw (← same) found),
              rw (← same) current,
            ),
        λ (headed, right, found, unexpired). together (
          headed,
          back (
            right,
            out (
              claims,
              (json_object-ok "bad payload" (segment_json lib payload_b64) claims).1 found,
              (check_expiry-ok lib now claims claims).1 (refl, unexpired),
            ),
          ),
        ),
      )

  parts_of :
      (parts : List String) (claims : Fields)
      → decode_parts lib now secret parts ≡ ok claims
      → (header_b64 : String) × (payload_b64 : String) × (signature_b64 : String) × (parts
          ≡ header_b64 ∷ payload_b64 ∷ signature_b64 ∷ [])
        × (decode_segments lib now secret header_b64 payload_b64 signature_b64 ≡ ok claims)
  unfolding decode_parts
  parts_of (h ∷ p ∷ s ∷ []) claims e = (h, p, s, refl, e)
  parts_of [] claims e = cc
  parts_of (h ∷ []) claims e = cc
  parts_of (h ∷ p ∷ []) claims e = cc
  parts_of (h ∷ p ∷ s ∷ t ∷ ts) claims e = cc

-- A token is accepted, with its claims, exactly when it was signed with the secret and is not over.
pub decode_jwt_iff :
    {Bytes Time : Type 0} (lib : TokenLibrary Bytes Time) (now : Time) (token secret : String)
    (claims : Fields)
    → (decode_jwt lib now token secret ≡ ok claims) ↔ IsSigned lib now secret token claims
unfolding decode_jwt
decode_jwt_iff lib now token secret claims = (
  λ h.
      let (header_b64, payload_b64, signature_b64, segments, decoded) =
        parts_of lib now secret (split_on b'.' token) claims h in
      let (headed, right, found, unexpired) =
        (decode_segments-ok lib now secret header_b64 payload_b64 signature_b64 claims).0 decoded in
      let (fields, header, named) = (check_header-ok lib now secret header_b64).0 headed in
      let (ascii, (provided, given, same)) =
        (check_signature-ok lib now secret header_b64 payload_b64 signature_b64).0 right in
      record {
        header_b64 = header_b64;
        payload_b64 = payload_b64;
        signature_b64 = signature_b64;
        segments = segments;
        ascii = ascii;
        fields = fields;
        header = header;
        algorithm = named;
        provided = provided;
        signature = given;
        authentic = same;
        payload = found;
        unexpired = unexpired;
      },
  λ t.
      unfold decode_parts in
      rw t.segments (
        (decode_segments-ok lib now secret t.header_b64 t.payload_b64 t.signature_b64 claims).1 (
          (check_header-ok lib now secret t.header_b64).1 (t.fields, t.header, t.algorithm),
          (check_signature-ok lib now secret t.header_b64 t.payload_b64 t.signature_b64).1
              (t.ascii, (t.provided, t.signature, t.authentic)),
          t.payload,
          t.unexpired,
        )),
)
