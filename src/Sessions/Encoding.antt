-- ===== src/Sessions/Encoding.antt =====
-- The texts of controller/auth.py: base64 without its padding, and segments between separators.
-- base64 itself is a parameter.
use Prim.Native.Char.{Char}
use Prim.Native.String.{◌++◌ as append}
use Prim.Native.String.append as append_clauses
use googlecloudhack.Prelude.{
  ℕ, zero, suc, ◌+◌, ◌-◌, ◌%◌, ◌<◌, String, code, nat_eq, leb, is_empty, Bool, true, false, not,
  ◌&&◌, ◌||◌, ◌≡◌, refl, Option, some, List, [], ◌∷◌, All, ap, ◌∙◌, join, arith, if◌then◌else◌,
}

-- `base64.urlsafe_b64encode(...)` and `base64.urlsafe_b64decode(...)` on a type of bytes; none where the
-- decoding raises a ValueError
pub record Base64 (Bytes : Type 0) : Type 0 where
  pub urlsafe_b64encode : Bytes → String
  pub urlsafe_b64decode : String → Option Bytes

-- `"=" * n`
unfoldable pub padding : ℕ → String
padding zero = ""
padding (suc n) = String.◌∷◌ "=" (padding n)

-- `s.rstrip("=")`
unfoldable pub rstrip_padding : String → String
rstrip_padding String.[] = ""
rstrip_padding (String.◌∷◌ c s) =
    let rest = rstrip_padding s in
    if is_empty rest && nat_eq (code c) b'=' then "" else String.◌∷◌ c rest

-- `len(s)`
unfoldable pub size : String → ℕ
size String.[] = 0
size (String.◌∷◌ c s) = suc (size s)

-- `-n % 4`
abbrev pub missing_padding : ℕ → ℕ
missing_padding n = (4 - n % 4) % 4

module _ {Bytes : Type 0} (base64 : Base64 Bytes) where
  unfoldable pub b64e : Bytes → String
  b64e raw = rstrip_padding (base64.urlsafe_b64encode raw)

  unfoldable pub b64d : String → Option Bytes
  b64d text = base64.urlsafe_b64decode (append text (padding (missing_padding (size text))))

abbrev begin_with : Char → List String → List String
begin_with c [] = String.◌∷◌ c "" ∷ []
begin_with c (s ∷ ss) = String.◌∷◌ c s ∷ ss

-- `s.split(sep)` for a separator of one character
unfoldable pub split_on : (sep : ℕ) → String → List String
split_on sep String.[] = "" ∷ []
split_on sep (String.◌∷◌ c s) =
    let rest = split_on sep s in if nat_eq (code c) sep then "" ∷ rest else begin_with c rest

-- `all(p(c) for c in s)`, on code points
unfoldable pub all_codes : (ℕ → Bool) → String → Bool
all_codes p String.[] = true
all_codes p (String.◌∷◌ c s) = p (code c) && all_codes p s

-- the alphabet of urlsafe base64
abbrev pub is_b64 : ℕ → Bool
is_b64 c =
    ((leb b'A' c && leb c b'Z') || (leb b'a' c && leb c b'z'))
    || ((leb b'0' c && leb c b'9') || (nat_eq c b'-' || nat_eq c b'_'))

-- What RFC 4648 says of base64: letters of the alphabet, then fewer than four `=`, four letters to a
-- group; and decoding undoes encoding.
pub record IsBase64 {Bytes : Type 0} (base64 : Base64 Bytes) : Type 0 where
  pub encoded :
      (raw : Bytes)
      → (stem : String) × (n : ℕ) × (base64.urlsafe_b64encode raw ≡ append stem (padding n))
        × (all_codes is_b64 stem ≡ true)
        × (n < 4)
        × ((size stem + n) % 4 ≡ 0)
  pub decoded : (raw : Bytes) → base64.urlsafe_b64decode (base64.urlsafe_b64encode raw) ≡ some raw

rstrip_padding-padding : (n : ℕ) → rstrip_padding (padding n) ≡ ""
unfolding rstrip_padding padding
rstrip_padding-padding zero = refl
rstrip_padding-padding (suc n) = simp (rstrip_padding-padding n)

rstrip_padding-append :
    (stem : String) (n : ℕ)
    → all_codes is_b64 stem ≡ true
    → rstrip_padding (append stem (padding n)) ≡ stem
unfolding rstrip_padding all_codes
rstrip_padding-append String.[] n h = rw (append_clauses.nil (padding n)) (rstrip_padding-padding n)
rstrip_padding-append (String.◌∷◌ c s) n h =
    rw (append_clauses.cons c s (padding n)) (ground (arith, rstrip_padding-append s n))

missing_padding_lem : (k n : ℕ) → n < 4 → (k + n) % 4 ≡ 0 → missing_padding k ≡ n
missing_padding_lem k n h e = omega arith

-- a text without the separator is one segment
pub split_on-one :
    (sep : ℕ) (s : String) → all_codes (λ c. not (nat_eq c sep)) s ≡ true → split_on sep s ≡ s ∷ []
unfolding split_on all_codes
split_on-one sep String.[] h = refl
split_on-one sep (String.◌∷◌ c s) h = ground (arith, split_on-one sep s)

-- a text without the separator is the first segment before it
pub split_on-append :
    (sep : ℕ) (a : String) (c : Char) (s : String)
    → code c ≡ sep
    → all_codes (λ d. not (nat_eq d sep)) a ≡ true
    → split_on sep (append a (String.◌∷◌ c s)) ≡ a ∷ split_on sep s
unfolding split_on all_codes
split_on-append sep String.[] c s e h = rw (append_clauses.nil (String.◌∷◌ c s)) (ground arith)
split_on-append sep (String.◌∷◌ d a) c s e h =
    rw (append_clauses.cons d a (String.◌∷◌ c s)) (ground (arith, split_on-append sep a c s e))

begin-append : (c : Char) (s : String) → append (String.◌∷◌ c "") s ≡ String.◌∷◌ c s
begin-append c s = append_clauses.cons c "" s ∙ ap (λ t. String.◌∷◌ c t) (append_clauses.nil s)

-- a text without the character
abbrev pub IsSegment : ℕ → String → Type 0
IsSegment sep s = all_codes (λ c. not (nat_eq c sep)) s ≡ true

-- segments that are joined are split as they were
pub split_on-join :
    (sep : ℕ) (c : Char)
    → code c ≡ sep
    → (s : String) (ss : List String) → All (IsSegment sep) (s ∷ ss)
    → split_on sep (join (String.◌∷◌ c "") (s ∷ ss)) ≡ s ∷ ss
split_on-join sep c e s [] (h, k) = split_on-one sep s h
split_on-join sep c e s (t ∷ ss) (h, k) = rw (begin-append c (join (String.◌∷◌ c "") (t ∷ ss))) (
    split_on-append sep s c (join (String.◌∷◌ c "") (t ∷ ss)) e h
    ∙ ap (λ parts. s ∷ parts) (split_on-join sep c e t ss k))

pub all_codes-weaken :
    (p q : ℕ → Bool)
    → ((c : ℕ) → p c ≡ true → q c ≡ true)
    → (s : String) → all_codes p s ≡ true
    → all_codes q s ≡ true
unfolding all_codes
all_codes-weaken p q imp String.[] h = refl
all_codes-weaken p q imp (String.◌∷◌ c s) h =
    ground (arith, imp (code c), all_codes-weaken p q imp s)

module _ {Bytes : Type 0} (base64 : Base64 Bytes) (lawful : IsBase64 base64) where
  -- an encoded text has no padding left and its letters only
  pub b64e-alphabet : (raw : Bytes) → all_codes is_b64 (b64e base64 raw) ≡ true
  unfolding b64e
  b64e-alphabet raw =
      let (stem, n, e, letters, few, whole) = lawful.encoded raw in
      rw (e, rstrip_padding-append stem n letters) letters

  -- a text that is encoded decodes to what it was
  pub b64d-b64e : (raw : Bytes) → b64d base64 (b64e base64 raw) ≡ some raw
  unfolding b64d b64e
  b64d-b64e raw =
      let (stem, n, e, letters, few, whole) = lawful.encoded raw in
      rw
        (
          e,
          rstrip_padding-append stem n letters,
          b64d,
          missing_padding_lem (size stem) n few whole,
          ← e,
        )
        (lawful.decoded raw)

  pub b64e-segment :
      (sep : ℕ)
      → is_b64 sep ≡ false
      → (raw : Bytes) → all_codes (λ c. not (nat_eq c sep)) (b64e base64 raw) ≡ true
  b64e-segment sep h raw =
      all_codes-weaken is_b64 (λ c. not (nat_eq c sep)) (λ c k. ground arith) (b64e base64 raw)
        (b64e-alphabet raw)
