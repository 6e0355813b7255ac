-- ===== src/Json/Sorting.antt =====
-- `sorted(xs, key=...)` with keys that are strings: a stable insertion sort, and the lemma that the
-- order of elements with distinct keys does not matter.

use Prim.Native.String.{String}
use text.Mathlib.TextEquality.{Char-path}
use googlecloudhack.Prelude.{
  ℕ, ◌≡◌, refl, ◌≢◌, Bool, true, false, List, [], ◌∷◌, codes, ltb, arith, if◌then◌else◌,
}

lex_le : List ℕ → List ℕ → Bool
lex_le [] ys = true
lex_le (x ∷ xs) [] = false
lex_le (x ∷ xs) (y ∷ ys) =
    let later = lex_le xs ys in if ltb x y then true else if ltb y x then false else later

-- `s <= t`: by code points
unfoldable pub str_le : String → String → Bool
unfolding lex_le
str_le s t = lex_le (codes s) (codes t)

module _ {A : Type 0} (key : A → String) where
  unfoldable pub insert_by : A → List A → List A
  insert_by a [] = a ∷ []
  insert_by a (b ∷ bs) =
      let later = insert_by a bs in if str_le (key a) (key b) then a ∷ b ∷ bs else b ∷ later

  unfoldable pub sort_by : List A → List A
  unfolding insert_by str_le
  sort_by [] = []
  sort_by (a ∷ rest) = insert_by a (sort_by rest)

lex_le_total : (xs ys : List ℕ) → lex_le xs ys ≡ false → lex_le ys xs ≡ true
unfolding lex_le
lex_le_total [] ys h = cc
lex_le_total (x ∷ xs) [] h = refl
lex_le_total (x ∷ xs) (y ∷ ys) h = ground (arith, lex_le_total xs ys)

lex_le_antisymm : (xs ys : List ℕ) → lex_le xs ys ≡ true → lex_le ys xs ≡ true → xs ≡ ys
unfolding lex_le
lex_le_antisymm [] [] h k = refl
lex_le_antisymm [] (y ∷ ys) h k = cc
lex_le_antisymm (x ∷ xs) [] h k = cc
lex_le_antisymm (x ∷ xs) (y ∷ ys) h k = ground (arith, lex_le_antisymm xs ys)

lex_le_trans : (xs ys zs : List ℕ) → lex_le xs ys ≡ true → lex_le ys zs ≡ true → lex_le xs zs ≡ true
unfolding lex_le
lex_le_trans [] ys zs h k = refl
lex_le_trans (x ∷ xs) [] zs h k = cc
lex_le_trans (x ∷ xs) (y ∷ ys) [] h k = cc
lex_le_trans (x ∷ xs) (y ∷ ys) (z ∷ zs) h k = ground (arith, lex_le_trans xs ys zs)

codes_injective : (s t : String) → codes s ≡ codes t → s ≡ t
codes_injective String.[] String.[] e = refl
codes_injective String.[] (String.◌∷◌ d t) e = cc
codes_injective (String.◌∷◌ c s) String.[] e = cc
codes_injective (String.◌∷◌ c s) (String.◌∷◌ d t) e =
    let same : c ≡ d = Char-path c d (cc) in let rest : s ≡ t = codes_injective s t (cc) in cc

pub str_le_total : (s t : String) → str_le s t ≡ false → str_le t s ≡ true
unfolding str_le
str_le_total s t = lex_le_total (codes s) (codes t)

pub str_le_antisymm : (s t : String) → str_le s t ≡ true → str_le t s ≡ true → s ≡ t
unfolding str_le
str_le_antisymm s t h k = codes_injective s t (lex_le_antisymm (codes s) (codes t) h k)

pub str_le_trans : (s t u : String) → str_le s t ≡ true → str_le t u ≡ true → str_le s u ≡ true
unfolding str_le
str_le_trans s t u = lex_le_trans (codes s) (codes t) (codes u)

module _ {A : Type 0} (key : A → String) where
  insert_by_comm :
      (a b : A) (l : List A)
      → key a ≢ key b
      → insert_by key a (insert_by key b l) ≡ insert_by key b (insert_by key a l)
  unfolding insert_by
  insert_by_comm a b [] ne =
      ground (arith, str_le_total (key a) (key b), str_le_antisymm (key a) (key b))
  insert_by_comm a b (c ∷ l) ne = ground (
    arith,
    str_le_total (key a) (key b),
    str_le_antisymm (key a) (key b),
    str_le_total (key a) (key c),
    str_le_total (key b) (key c),
    str_le_trans (key a) (key b) (key c),
    str_le_trans (key b) (key a) (key c),
    insert_by_comm a b l ne,
  )

  -- Two neighbours with distinct keys can change places before sorting.
  pub sort_by-swap :
      (a b : A) (l m : List A)
      → key a ≢ key b
      → sort_by key l ≡ sort_by key m
      → sort_by key (a ∷ b ∷ l) ≡ sort_by key (b ∷ a ∷ m)
  unfolding sort_by
  sort_by-swap a b l m ne e = rw e (insert_by_comm a b (sort_by key m) ne)

  pub sort_by-cons :
      (a : A) (l m : List A)
      → sort_by key l ≡ sort_by key m
      → sort_by key (a ∷ l) ≡ sort_by key (a ∷ m)
  unfolding sort_by
  sort_by-cons a l m e = rw e
