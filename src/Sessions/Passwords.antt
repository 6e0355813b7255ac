-- ===== src/Sessions/Passwords.antt =====
-- The passwords of controller/auth.py. scrypt, the random salt and base64 are parameters.
use googlecloudhack.Prelude.{
  ℕ, ℤ, pos, String, is_empty, ◌==◌, Bool, true, false, Option, none, some, List, [], ◌∷◌, join,
  Result, ok, err, value_error, raise_if, ◌>>=◌, ◌>>◌, ◌≡◌, refl, >>=-ok, raise_if-ok, arith,
  if◌then◌else◌,
}
use googlecloudhack.Externals.{Externals}
use googlecloudhack.Json.{int_text}
use googlecloudhack.Sessions.Encoding.{
  Base64, IsBase64, b64e, b64d, b64d-b64e, b64e-segment, split_on, split_on-join, all_codes,
}

abbrev pub scrypt_n : ℕ
scrypt_n = 16384

abbrev pub scrypt_r : ℕ
scrypt_r = 8

abbrev pub scrypt_p : ℕ
scrypt_p = 1

abbrev pub scrypt_dklen : ℕ
scrypt_dklen = 32

pub record PasswordLibrary (Bytes : Type 0) : Type 0 where
  pub base64 : Base64 Bytes
  -- `hashlib.scrypt(password, salt, n, r, p, dklen)` with the memory of the file; none where it raises
  -- a ValueError
  pub scrypt : String → Bytes → (n r p : ℤ) → (dklen : ℕ) → Option Bytes
  -- `len(b)`
  pub byte_count : Bytes → ℕ
  -- `hmac.compare_digest`
  pub compare_digest : Bytes → Bytes → Bool

module _ (x : Externals) {Bytes : Type 0} (lib : PasswordLibrary Bytes) where
  abbrev stored_text : Bytes → Bytes → String
  stored_text salt derived = join "$" (
      "scrypt"
      ∷ int_text (pos scrypt_n)
      ∷ int_text (pos scrypt_r)
      ∷ int_text (pos scrypt_p)
      ∷ b64e lib.base64 salt
      ∷ b64e lib.base64 derived
      ∷ [])

  abbrev derive : String → Bytes → Result Bytes
  derive password salt =
      elim (lib.scrypt password salt (pos scrypt_n) (pos scrypt_r) (pos scrypt_p) scrypt_dklen) [
        | none ↦ err (value_error "scrypt")
        | some derived ↦ ok derived
      ]

  unfoldable pub hash_password : (password : String) → (salt : Bytes) → Result String
  hash_password password salt =
      raise_if (is_empty password) (value_error "password must be non-empty")
      >> (derive password salt >>= λ derived. ok (stored_text salt derived))

  abbrev same_derived : Bytes → Option Bytes → Bool
  same_derived expected none = false
  same_derived expected (some derived) = lib.compare_digest derived expected

  abbrev verify_with : String → Option ℤ → Option ℤ → Option ℤ → Option Bytes → Option Bytes → Bool
  verify_with password (some n) (some r) (some p) (some salt) (some expected) =
      same_derived expected (lib.scrypt password salt n r p (lib.byte_count expected))
  verify_with password _ _ _ _ _ = false

  -- the fields of the stored text; an exception answers `False`
  abbrev verify_fields : String → List String → Bool
  verify_fields password (scheme ∷ n ∷ r ∷ p ∷ salt ∷ derived ∷ []) =
      if scheme == "scrypt"
      then verify_with password (x.int_of_str n) (x.int_of_str r) (x.int_of_str p)
          (b64d lib.base64 salt) (b64d lib.base64 derived)
      else false
  verify_fields password _ = false

  unfoldable pub verify_password : (password stored : String) → Bool
  verify_password password stored = verify_fields password (split_on b'$' stored)

  derive-ok :
      (password : String) (salt derived : Bytes)
      → derive password salt ≡ ok derived
      → lib.scrypt password salt (pos scrypt_n) (pos scrypt_r) (pos scrypt_p) scrypt_dklen
        ≡ some derived
  derive-ok password salt derived h = ground arith

  stored_text-fields :
      IsBase64 lib.base64
      → (salt derived : Bytes)
      → split_on b'$' (stored_text salt derived)
        ≡ "scrypt"
          ∷ int_text (pos scrypt_n)
          ∷ int_text (pos scrypt_r)
          ∷ int_text (pos scrypt_p)
          ∷ b64e lib.base64 salt
          ∷ b64e lib.base64 derived
          ∷ []
  unfolding all_codes int_text
  stored_text-fields lawful salt derived = split_on-join b'$' "$" refl "scrypt" _ (
    refl,
    (
      refl,
      (
        refl,
        (
          refl,
          (
            b64e-segment lib.base64 lawful b'$' refl salt,
            (b64e-segment lib.base64 lawful b'$' refl derived, tt),
          ),
        ),
      ),
    ),
  )

-- A password is accepted against the hash that was stored for it, for a base64 and an `int` that read
-- back what was written, an scrypt that gives as many bytes as it is asked for, and a comparison that finds
-- equal bytes equal.
pub verify_password-hash_password :
    (x : Externals) {Bytes : Type 0} (lib : PasswordLibrary Bytes) (password stored : String)
    (salt : Bytes)
    → IsBase64 lib.base64
    → x.int_of_str (int_text (pos scrypt_n)) ≡ some (pos scrypt_n)
    → x.int_of_str (int_text (pos scrypt_r)) ≡ some (pos scrypt_r)
    → x.int_of_str (int_text (pos scrypt_p)) ≡ some (pos scrypt_p)
    → ((derived : Bytes)
        → lib.scrypt password salt (pos scrypt_n) (pos scrypt_r) (pos scrypt_p) scrypt_dklen
          ≡ some derived
        → lib.byte_count derived ≡ scrypt_dklen)
    → ((raw : Bytes) → lib.compare_digest raw raw ≡ true)
    → hash_password x lib password salt ≡ ok stored
    → verify_password x lib password stored ≡ true
unfolding hash_password verify_password
verify_password-hash_password x lib password stored salt lawful reads_n reads_r reads_p counted
      equal hashed =
    let (some_text, rest) =
      (raise_if-ok (is_empty password) (value_error "password must be non-empty")
          (derive x lib password salt >>= λ derived. ok (stored_text x lib salt derived)) stored).0
        hashed in
    let (derived, derives, same) =
      (>>=-ok (derive x lib password salt) (λ derived. ok (stored_text x lib salt derived))
          stored).0
        rest in
    let e : stored ≡ stored_text x lib salt derived = cc in
    let d = derive-ok x lib password salt derived derives in
    rw
      (
        e,
        stored_text-fields x lib lawful salt derived,
        reads_n,
        reads_r,
        reads_p,
        b64d-b64e lib.base64 lawful salt,
        b64d-b64e lib.base64 lawful derived,
        counted derived d,
        d,
      )
      (equal derived)
