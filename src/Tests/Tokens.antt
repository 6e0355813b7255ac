-- ===== src/Tests/Tokens.antt =====
-- The theorems on passwords, session tokens and the guards at a sample user.
use Prim.Native.String.{◌++◌ as append}
use googlecloudhack.Prelude.{
  ℕ, ◌+◌, ◌%◌, ◌<◌, arith, take_chars, ltb, pos, String, ◌==◌, ◌≡◌, refl, ◌↔◌, ◌⊎◌, Bool, true,
  false, Option, none, some, [], ◌∷◌, Result, ok, err, type_error, if◌then◌else◌,
}
use googlecloudhack.Externals.{Externals}
use googlecloudhack.Value.{Value, int, str, dict, Fields, of_items, get, has_key}
use googlecloudhack.Json.{int_text}
use googlecloudhack.Api.{Identity}
use googlecloudhack.Sessions.Encoding.{
  Base64, IsBase64, b64e, b64d, padding, rstrip_padding, size, split_on, all_codes, is_b64,
}
use googlecloudhack.Sessions.Tokens.{
  TokenLibrary, SessionIdentity, header, segment_json, session_claims, make_session_token,
  read_session_token, decode_jwt, decode_parts, decode_segments, check_header, check_signature,
  check_expiry, identity_of,
}
use googlecloudhack.Sessions.Signed.{IsSigned, decode_jwt_iff}
use googlecloudhack.Sessions.Returning.{read_session_token-make_session_token}
use googlecloudhack.Sessions.Passwords.{
  PasswordLibrary, hash_password, verify_password, verify_password-hash_password,
}
use googlecloudhack.Login.{
  require_role, optional_dbre_identity, is_unset, identity_from_authorization, session_secret,
  after_space,
}
use googlecloudhack.Login.Guarded.{
  IsAuthenticated, IsAllowed, require_role-IsAuthenticated, optional_dbre_identity-IsAuthenticated,
}
use googlecloudhack.Tests.Samples.{sample_externals}

-- three byte strings, in the place of all
data Raw : Type 0 where
  header_raw payload_raw digest_raw : Raw

abbrev sample_encode : Raw → String
sample_encode Raw.header_raw = "AA=="
sample_encode Raw.payload_raw = "BBB="
sample_encode Raw.digest_raw = "CCCC"

abbrev sample_base64 : Base64 Raw
sample_base64 = record {
  urlsafe_b64encode = sample_encode;
  urlsafe_b64decode = λ s.
      if s == "AA=="
      then some Raw.header_raw
      else if s == "BBB="
      then some Raw.payload_raw
      else if s == "CCCC"
      then some Raw.digest_raw
      else none;
}

sample_encoded :
    (raw : Raw)
    → (stem : String) × (n : ℕ) × (sample_encode raw ≡ append stem (padding n))
      × (all_codes is_b64 stem ≡ true)
      × (n < 4)
      × ((size stem + n) % 4 ≡ 0)
unfolding padding all_codes size
sample_encoded Raw.header_raw = ("AA", 2, refl, refl, omega arith, refl)
sample_encoded Raw.payload_raw = ("BBB", 1, refl, refl, omega arith, refl)
sample_encoded Raw.digest_raw = ("CCCC", 0, refl, refl, omega arith, refl)

sample_decoded : (raw : Raw) → sample_base64.urlsafe_b64decode (sample_encode raw) ≡ some raw
sample_decoded Raw.header_raw = refl
sample_decoded Raw.payload_raw = refl
sample_decoded Raw.digest_raw = refl

sample_base64-IsBase64 : IsBase64 sample_base64
sample_base64-IsBase64 = record { encoded = sample_encoded; decoded = sample_decoded }

abbrev sample_identity : Identity
sample_identity = record { username = "dev"; display_name = "Dev"; role = "dbre" }

abbrev sample_claims : Fields
sample_claims = of_items (
    ("sub", str "dev")
    ∷ ("name", str "Dev")
    ∷ ("role", str "dbre")
    ∷ ("iat", int (pos 1000))
    ∷ ("exp", int (pos 44200))
    ∷ [])

abbrev sample_float : Value → Result ℕ
sample_float (int (pos n)) = ok n
sample_float _ = err (type_error "float")

abbrev sample_json_bytes : Value → Raw
sample_json_bytes (dict fs) = if has_key "alg" fs then Raw.header_raw else Raw.payload_raw
sample_json_bytes _ = Raw.digest_raw

abbrev sample_json_loads : Raw → Option Value
sample_json_loads Raw.header_raw = some header
sample_json_loads Raw.payload_raw = some (dict sample_claims)
sample_json_loads Raw.digest_raw = none

abbrev same_raw : Raw → Raw → Bool
same_raw Raw.header_raw Raw.header_raw = true
same_raw Raw.payload_raw Raw.payload_raw = true
same_raw Raw.digest_raw Raw.digest_raw = true
same_raw _ _ = false

same_raw_refl : (raw : Raw) → same_raw raw raw ≡ true
same_raw_refl Raw.header_raw = refl
same_raw_refl Raw.payload_raw = refl
same_raw_refl Raw.digest_raw = refl

abbrev sample_tokens : TokenLibrary Raw ℕ
sample_tokens = record {
  base64 = sample_base64;
  json_bytes = sample_json_bytes;
  json_loads = sample_json_loads;
  hmac_sha256 = λ secret text. Raw.digest_raw;
  compare_digest = same_raw;
  float_of = sample_float;
  is_after = λ a b. ltb b a;
  int_of_time = λ t. pos t;
  add_seconds = λ t n. t + n;
}

sample_claims-eq :
    (key : String)
    → get key sample_claims ≡ get key (session_claims sample_tokens sample_identity 43200 1000)
unfolding session_claims
sample_claims-eq key = refl

sample_loaded :
    sample_tokens.json_loads
      (sample_tokens.json_bytes (dict (session_claims sample_tokens sample_identity 43200 1000)))
    ≡ some (dict sample_claims)
unfolding session_claims
sample_loaded = refl

read_session_token-make_session_token_example :
    read_session_token sample_tokens 5000
      (make_session_token sample_tokens sample_identity "secret" 43200 1000)
      "secret"
    ≡ ok (record { username = str "dev"; display_name = str "Dev"; role = str "dbre" })
read_session_token-make_session_token_example =
    read_session_token-make_session_token sample_tokens sample_identity "secret" 43200 1000 5000
      44200 (of_items (("alg", str "HS256") ∷ ("typ", str "JWT") ∷ [])) sample_claims
      sample_base64-IsBase64 same_raw_refl refl refl sample_loaded sample_claims-eq refl refl

decode_jwt_iff_example :
    (decode_jwt sample_tokens 5000 "AA.BBB.CCCC" "secret" ≡ ok sample_claims)
    ↔ IsSigned sample_tokens 5000 "secret" "AA.BBB.CCCC" sample_claims
decode_jwt_iff_example = decode_jwt_iff sample_tokens 5000 "AA.BBB.CCCC" "secret" sample_claims

abbrev session_environ : String → Option String
session_environ name = if name == "SESSION_SECRET" then some "secret" else none

abbrev sample_session : SessionIdentity
sample_session = record { username = str "dev"; display_name = str "Dev"; role = str "dbre" }

bearer_allowed :
    require_role sample_tokens session_environ 5000
      (λ s. "bearer aa.bbb.cccc")
      (λ s. s)
      []
      (some "Bearer AA.BBB.CCCC")
    ≡ ok sample_session
unfolding require_role identity_from_authorization session_secret after_space read_session_token
    decode_jwt decode_parts decode_segments check_header check_signature check_expiry segment_json
    identity_of split_on all_codes b64d padding size take_chars
bearer_allowed = refl

require_role-IsAuthenticated_example :
    IsAuthenticated sample_tokens session_environ 5000
      (λ s. "bearer aa.bbb.cccc")
      (λ s. s)
      (some "Bearer AA.BBB.CCCC")
      sample_session
    × ((role : String) × (sample_session.role ≡ str role) × IsAllowed [] role)
require_role-IsAuthenticated_example =
    require_role-IsAuthenticated sample_tokens session_environ 5000 (λ s. "bearer aa.bbb.cccc")
      (λ s. s) [] (some "Bearer AA.BBB.CCCC") sample_session bearer_allowed

bearer_is_dbre :
    optional_dbre_identity sample_tokens session_environ 5000
      (λ s. "bearer aa.bbb.cccc")
      (λ s. s)
      (some "Bearer AA.BBB.CCCC")
    ≡ ok (some sample_session)
unfolding optional_dbre_identity identity_from_authorization session_secret after_space
    read_session_token decode_jwt decode_parts decode_segments check_header check_signature
    check_expiry segment_json identity_of split_on all_codes b64d padding size take_chars
bearer_is_dbre = refl

optional_dbre_identity-IsAuthenticated_example :
    ((is_unset (session_environ "SESSION_SECRET") ≡ true) × (some sample_session ≡ none))
    ⊎ ((identity : SessionIdentity) × (some sample_session ≡ some identity)
        × IsAuthenticated sample_tokens session_environ 5000
            (λ s. "bearer aa.bbb.cccc")
            (λ s. s)
            (some "Bearer AA.BBB.CCCC")
            identity
        × (identity.role ≡ str "dbre"))
optional_dbre_identity-IsAuthenticated_example =
    optional_dbre_identity-IsAuthenticated sample_tokens session_environ 5000
      (λ s. "bearer aa.bbb.cccc") (λ s. s) (some "Bearer AA.BBB.CCCC") (some sample_session)
      bearer_is_dbre

abbrev reading_externals : Externals
reading_externals = record sample_externals {
  int_of_str = λ s.
      if s == "16384"
      then some (pos 16384)
      else if s == "8"
      then some (pos 8)
      else if s == "1"
      then some (pos 1)
      else none;
}

abbrev sample_passwords : PasswordLibrary Raw
sample_passwords = record {
  base64 = sample_base64;
  scrypt = λ password salt n r p dklen. some Raw.digest_raw;
  byte_count = λ raw. 32;
  compare_digest = same_raw;
}

hashed_sample :
    hash_password reading_externals sample_passwords "swordfish" Raw.header_raw
    ≡ ok "scrypt$16384$8$1$AA$CCCC"
unfolding hash_password b64e rstrip_padding int_text
hashed_sample = refl

verify_password-hash_password_example :
    verify_password reading_externals sample_passwords "swordfish" "scrypt$16384$8$1$AA$CCCC" ≡ true
unfolding int_text
verify_password-hash_password_example =
    verify_password-hash_password reading_externals sample_passwords "swordfish"
      "scrypt$16384$8$1$AA$CCCC" Raw.header_raw sample_base64-IsBase64 refl refl refl
      (λ derived e. refl) same_raw_refl hashed_sample
