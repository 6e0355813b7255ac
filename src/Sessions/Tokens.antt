-- ===== src/Sessions/Tokens.antt =====
-- The session tokens of controller/auth.py. JSON, the HMAC, the clock and the floats are parameters.
use googlecloudhack.Prelude.{
  ℕ, ℤ, ltb, String, Bool, false, not, Option, none, some, List, [], ◌∷◌, concat, join, Result, ok,
  err, raised, value_error, token_error, ◌>>=◌, ◌>>◌, raise_if,
}
use googlecloudhack.Value.{Value, null, str, int, dict, Fields, of_items, get, is_str}
use googlecloudhack.Api.{Identity}
use googlecloudhack.Sessions.Encoding.{Base64, b64e, b64d, split_on, all_codes}

-- What the tokens need of the Python libraries, on a type of bytes and a type of floats.
pub record TokenLibrary (Bytes Time : Type 0) : Type 0 where
  pub base64 : Base64 Bytes
  -- `json.dumps(v, separators=(",", ":"), sort_keys=True).encode("utf-8")`
  pub json_bytes : Value → Bytes
  -- `json.loads(b)`; none where it raises a ValueError
  pub json_loads : Bytes → Option Value
  -- `hmac.new(secret.encode("utf-8"), text.encode("ascii"), hashlib.sha256).digest()`
  pub hmac_sha256 : (secret text : String) → Bytes
  -- `hmac.compare_digest`
  pub compare_digest : Bytes → Bytes → Bool
  -- `float(v)`, or the exception that it raises
  pub float_of : Value → Result Time
  -- `a > b`
  pub is_after : Time → Time → Bool
  -- `int(t)` and `t + seconds`
  pub int_of_time : Time → ℤ
  pub add_seconds : Time → ℕ → Time

-- the `Identity` that a token gives: the claims are those of the JSON, whatever they are
pub record SessionIdentity : Type 0 where
  pub username : Value
  pub display_name : Value
  pub role : Value

abbrev pub header : Value
header = dict (of_items (("alg", str "HS256") ∷ ("typ", str "JWT") ∷ []))

-- `f"{header_b64}.{payload_b64}"`
abbrev pub signing_input : String → String → String
signing_input header_b64 payload_b64 = concat (header_b64 ∷ "." ∷ payload_b64 ∷ [])

-- whether `.encode("ascii")` succeeds
abbrev pub is_ascii : String → Bool
is_ascii s = all_codes (λ c. ltb c 128) s

abbrev pub or_token_error {ℓ} : {T : Type ℓ} → String → Option T → Result T
or_token_error m none = err (token_error m)
or_token_error m (some t) = ok t

-- a JSON value that has a `get`
abbrev pub mapping : Value → Result Fields
mapping (dict fs) = ok fs
mapping _ = err (raised "object has no attribute 'get'")

-- the object of a segment that was read
abbrev pub json_object : String → Option Value → Result Fields
json_object m o = or_token_error m o >>= mapping

-- `payload[key]`
abbrev pub claim : String → Fields → Result Value
claim key fs = or_token_error (concat ("missing claim: '" ∷ key ∷ "'" ∷ [])) (get key fs)

abbrev pub has_alg : Fields → Bool
has_alg fs = elim (get "alg" fs) [ none ↦ false | some v ↦ is_str v "HS256" ]

-- `if header.get("alg") != "HS256": raise ...`
abbrev pub require_alg : Fields → Result (Unit {0})
require_alg fields = raise_if (not (has_alg fields)) (token_error "unsupported algorithm")

-- `payload.get(key, default)`
abbrev pub or_value : Option Value → Value → Value
or_value none default = default
or_value (some v) default = v

unfoldable pub identity_of : Fields → Result SessionIdentity
identity_of payload = do
  username ← claim "sub" payload
  role ← claim "role" payload
  ok (record {
    username = username;
    display_name = or_value (get "name" payload) username;
    role = role;
  })

module _ {Bytes Time : Type 0} (lib : TokenLibrary Bytes Time) where
  unfoldable pub encode_jwt : (payload : Value) → (secret : String) → String
  encode_jwt payload secret =
      let header_b64 = b64e lib.base64 (lib.json_bytes header) in
      let payload_b64 = b64e lib.base64 (lib.json_bytes payload) in
      join "." (
        header_b64
        ∷ payload_b64
        ∷ b64e lib.base64 (lib.hmac_sha256 secret (signing_input header_b64 payload_b64))
        ∷ [])

  abbrev loads_segment : Option Bytes → Option Value
  loads_segment none = none
  loads_segment (some raw) = lib.json_loads raw

  -- `json.loads(_b64d(segment))`
  unfoldable pub segment_json : String → Option Value
  segment_json segment = loads_segment (b64d lib.base64 segment)

  -- `exp is not None and time.time() > float(exp)`
  abbrev pub is_expired : Time → Option Value → Result Bool
  is_expired now none = ok false
  is_expired now (some null) = ok false
  is_expired now (some exp) = lib.float_of exp >>= λ t. ok (lib.is_after now t)

  unfoldable pub check_expiry : Time → Fields → Result Fields
  check_expiry now claims = do
    expired ← is_expired now (get "exp" claims)
    raise_if expired (token_error "token expired")
    ok claims

  unfoldable pub check_header : String → Result (Unit {0})
  check_header header_b64 = json_object "bad header" (segment_json header_b64) >>= require_alg

  -- `hmac.compare_digest(expected, provided)`
  abbrev pub compare_signature : (secret text : String) → Bytes → Result (Unit {0})
  compare_signature secret text provided =
      raise_if (not (lib.compare_digest (lib.hmac_sha256 secret text) provided))
        (token_error "bad signature")

  unfoldable pub check_signature :
      (secret header_b64 payload_b64 signature_b64 : String) → Result (Unit {0})
  check_signature secret header_b64 payload_b64 signature_b64 =
      raise_if (not (is_ascii (signing_input header_b64 payload_b64)))
        (value_error "'ascii' codec can't encode the token")
      >> (or_token_error "bad signature encoding" (b64d lib.base64 signature_b64)
          >>= compare_signature secret (signing_input header_b64 payload_b64))

  unfoldable pub decode_segments :
      (now : Time) → (secret header_b64 payload_b64 signature_b64 : String) → Result Fields
  decode_segments now secret header_b64 payload_b64 signature_b64 =
      check_header header_b64
      >> (check_signature secret header_b64 payload_b64 signature_b64
          >> (json_object "bad payload" (segment_json payload_b64) >>= check_expiry now))

  -- `if len(parts) != 3`
  unfoldable pub decode_parts : (now : Time) → (secret : String) → List String → Result Fields
  decode_parts now secret (header_b64 ∷ payload_b64 ∷ signature_b64 ∷ []) =
      decode_segments now secret header_b64 payload_b64 signature_b64
  decode_parts now secret _ = err (token_error "malformed token")

  unfoldable pub decode_jwt : (now : Time) → (token secret : String) → Result Fields
  decode_jwt now token secret = decode_parts now secret (split_on b'.' token)

  -- the payload of a session
  unfoldable pub session_claims : Identity → (ttl_seconds : ℕ) → (issued : Time) → Fields
  session_claims identity ttl_seconds issued = of_items (
      ("sub", str identity.username)
      ∷ ("name", str identity.display_name)
      ∷ ("role", str identity.role)
      ∷ ("iat", int (lib.int_of_time issued))
      ∷ ("exp", int (lib.int_of_time (lib.add_seconds issued ttl_seconds)))
      ∷ [])

  unfoldable pub make_session_token :
      Identity → (secret : String) → (ttl_seconds : ℕ) → (issued : Time) → String
  make_session_token identity secret ttl_seconds issued =
      encode_jwt (dict (session_claims identity ttl_seconds issued)) secret

  unfoldable pub read_session_token :
      (now : Time) → (token secret : String) → Result SessionIdentity
  read_session_token now token secret = do
    payload ← decode_jwt now token secret
    identity_of payload
