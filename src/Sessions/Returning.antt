-- ===== src/Sessions/Returning.antt =====
-- A session token of controller/auth.py gives back the identity that it was made for.
use Prim.Native.String.{◌++◌ as append}
use Prim.Native.String.append as append_clauses
use googlecloudhack.Prelude.{ℕ, String, ltb, ◌≡◌, refl, Bool, true, false, some, [], ◌∷◌, ok, arith}
use googlecloudhack.Value.{str, int, dict, Fields, get}
use googlecloudhack.Api.{Identity}
use googlecloudhack.Sessions.Encoding.{
  IsBase64, b64e, is_b64, all_codes, all_codes-weaken, split_on-join, b64e-alphabet, b64e-segment,
  b64d-b64e,
}
use googlecloudhack.Sessions.Tokens.{
  TokenLibrary, header, signing_input, is_ascii, segment_json, encode_jwt, session_claims,
  make_session_token, identity_of, read_session_token,
}
use googlecloudhack.Sessions.Signed.{IsCurrent, later, IsSigned, decode_jwt_iff}

all_codes-append :
    (p : ℕ → Bool) (s t : String)
    → all_codes p s ≡ true
    → all_codes p t ≡ true
    → all_codes p (append s t) ≡ true
unfolding all_codes
all_codes-append p String.[] t h k = rw (append_clauses.nil t) k
all_codes-append p (String.◌∷◌ c s) t h k =
    rw (append_clauses.cons c s t) (ground (arith, all_codes-append p s t))

module _ {Bytes Time : Type 0} (lib : TokenLibrary Bytes Time) (lawful : IsBase64 lib.base64) where
  signing_input-is_ascii :
      (a b : Bytes) → is_ascii (signing_input (b64e lib.base64 a) (b64e lib.base64 b)) ≡ true
  unfolding all_codes
  signing_input-is_ascii a b =
      all_codes-append (λ c. ltb c 128) (b64e lib.base64 a)
        (append "." (append (b64e lib.base64 b) "")) (encoded a)
        (all_codes-append (λ c. ltb c 128) "." (append (b64e lib.base64 b) "") dot
          (all_codes-append (λ c. ltb c 128) (b64e lib.base64 b) "" (encoded b) blank))
    where
      dot : is_ascii "." ≡ true
      dot = refl

      blank : is_ascii "" ≡ true
      blank = refl

      encoded : (raw : Bytes) → is_ascii (b64e lib.base64 raw) ≡ true
      encoded raw =
          all_codes-weaken is_b64 (λ c. ltb c 128) (λ c k. ground arith) (b64e lib.base64 raw)
            (b64e-alphabet lib.base64 lawful raw)

  -- the token of an object is signed, for a clock that is not past its end
  encode_jwt-IsSigned :
      (now : Time) (secret : String) (fs : Fields) (read_header : Fields) (claims : Fields)
      → ((raw : Bytes) → lib.compare_digest raw raw ≡ true)
      → lib.json_loads (lib.json_bytes header) ≡ some (dict read_header)
      → get "alg" read_header ≡ some (str "HS256")
      → lib.json_loads (lib.json_bytes (dict fs)) ≡ some (dict claims)
      → IsCurrent lib now (get "exp" claims)
      → IsSigned lib now secret (encode_jwt lib (dict fs) secret) claims
  unfolding encode_jwt segment_json
  encode_jwt-IsSigned now secret fs read_header claims equal named alg loaded unexpired = record {
    header_b64 = b64e lib.base64 (lib.json_bytes header);
    payload_b64 = b64e lib.base64 (lib.json_bytes (dict fs));
    signature_b64 = b64e lib.base64 (
        lib.hmac_sha256 secret (
          signing_input (b64e lib.base64 (lib.json_bytes header))
            (b64e lib.base64 (lib.json_bytes (dict fs)))));
    segments = split_on-join b'.' "." refl _ (_ ∷ _ ∷ []) (
      b64e-segment lib.base64 lawful b'.' refl _,
      (
        b64e-segment lib.base64 lawful b'.' refl _,
        (b64e-segment lib.base64 lawful b'.' refl _, tt),
      ),
    );
    ascii = signing_input-is_ascii (lib.json_bytes header) (lib.json_bytes (dict fs));
    fields = read_header;
    header = rw (b64d-b64e lib.base64 lawful (lib.json_bytes header)) named;
    algorithm = alg;
    provided = lib.hmac_sha256 secret (
        signing_input (b64e lib.base64 (lib.json_bytes header))
          (b64e lib.base64 (lib.json_bytes (dict fs))));
    signature = b64d-b64e lib.base64 lawful _;
    authentic = equal _;
    payload = rw (b64d-b64e lib.base64 lawful (lib.json_bytes (dict fs))) loaded;
    unexpired = unexpired;
  }

-- A session token is read back to the username, the name and the role that it was made for, with the
-- same secret, at any time that is not after its end: for a base64 and a JSON that are read as they were
-- written, and a comparison of bytes that finds equal ones equal.
pub read_session_token-make_session_token :
    {Bytes Time : Type 0} (lib : TokenLibrary Bytes Time) (identity : Identity) (secret : String)
    (ttl_seconds : ℕ) (issued now end : Time) (read_header claims : Fields)
    → IsBase64 lib.base64
    → ((raw : Bytes) → lib.compare_digest raw raw ≡ true)
    → lib.json_loads (lib.json_bytes header) ≡ some (dict read_header)
    → get "alg" read_header ≡ some (str "HS256")
    → lib.json_loads (lib.json_bytes (dict (session_claims lib identity ttl_seconds issued)))
      ≡ some (dict claims)
    → ((key : String) → get key claims ≡ get key (session_claims lib identity ttl_seconds issued))
    → lib.float_of (int (lib.int_of_time (lib.add_seconds issued ttl_seconds))) ≡ ok end
    → lib.is_after now end ≡ false
    → read_session_token lib now (make_session_token lib identity secret ttl_seconds issued) secret
      ≡ ok (record {
        username = str identity.username;
        display_name = str identity.display_name;
        role = str identity.role;
      })
unfolding read_session_token make_session_token identity_of session_claims
read_session_token-make_session_token lib identity secret ttl_seconds issued now end read_header
      claims lawful equal named alg loaded same finished early =
    rw
      (
        (decode_jwt_iff lib now
              (encode_jwt lib (dict (session_claims lib identity ttl_seconds issued)) secret) secret
              claims).1
            (encode_jwt-IsSigned lib lawful now secret
              (session_claims lib identity ttl_seconds issued) read_header claims equal named alg
              loaded (unfold session_claims in rw (same "exp") (later finished early))),
        same "sub",
        same "name",
        same "role",
      )
      refl
