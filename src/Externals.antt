-- ===== src/Externals.antt =====
-- What the program calls and does not implement: SHA-256 (hashlib), and the texts that Python's
-- `repr` gives for a string and for a float, and
-- `int` of a string or of a float. The one thing the program relies on is that a hex
-- digest has 64 lower-case hexadecimal digits.
use googlecloudhack.Prelude.{
  ℕ, ℤ, String, Bool, Option, true, Result, ◌≡◌, ◌&&◌, ◌||◌, all, length, codes, leb, nat_eq,
}

-- `[0-9a-f]`
abbrev pub is_hex : ℕ → Bool
is_hex c = (leb b'0' c && leb c b'9') || (leb b'a' c && leb c b'f')

-- the constraint on a hash: `^[0-9a-f]{64}$` with a length of 64
unfoldable pub is_hash : String → Bool
is_hash s = nat_eq (length (codes s)) 64 && all is_hex (codes s)

pub record Externals : Type 0 where
  -- `hashlib.sha256(s.encode("utf-8")).hexdigest()`
  pub sha256_hex : String → String
  -- `repr(s)`
  pub str_repr : String → String
  -- `repr` of a float that is not negative
  pub float_repr : ℕ → String
  -- `int(s)` for a string; none where it raises ValueError
  pub int_of_str : String → Option ℤ
  -- `int(f)` for the float with this `repr`, or the exception that it raises: a ValueError for a nan and
  -- an OverflowError for an infinite float
  pub int_of_float : String → Result ℤ
  pub is_hash-sha256_hex : (s : String) → is_hash (sha256_hex s) ≡ true
