-- ===== src/Prelude/Text.antt =====
-- Strings: equality, membership in a tuple of strings, f-strings, code points.
use Prim.Native.Nat.{ℕ, zero, suc}
use Prim.Native.Char.{code}
use Prim.Native.String.{String, ◌++◌ as append}
use mathlib.Core.Bool.{Bool, true, false, ◌||◌}
use mathlib.Core.Option.{Option, none, some}
use mathlib.Core.List.{List, [], ◌∷◌, ◌++◌}
use text.Mathlib.Text
use Prim.Native.String.append as append_clauses
use mathlib.Core.Path.{◌≡◌, refl, ap}

infix 50 ◌==◌
abbrev pub ◌==◌ : String → String → Bool
s == t = Text.◌==◌ s t

-- `s in strings`
abbrev pub elem : String → List String → Bool
elem s [] = false
elem s (t ∷ ts) = s == t || elem s ts

-- an f-string: the concatenation of its parts
abbrev pub concat : List String → String
concat [] = ""
concat (s ∷ ss) = append s (concat ss)

-- `sep.join(strings)`
abbrev pub join : String → List String → String
join sep [] = ""
join sep (s ∷ []) = s
join sep (s ∷ t ∷ ts) = append s (append sep (join sep (t ∷ ts)))

-- the code points of a string
abbrev pub codes : String → List ℕ
codes String.[] = []
codes (String.◌∷◌ c s) = code c ∷ codes s

-- the code points of two strings, one after the other
pub codes-append : (s t : String) → codes (append s t) ≡ codes s ++ codes t
codes-append String.[] t = rw (append_clauses.nil t) refl
codes-append (String.◌∷◌ c s) t =
    rw (append_clauses.cons c s t) (ap (λ l. code c ∷ l) (codes-append s t))

-- `o == s` where `o` may be None
abbrev pub opt_is : Option String → String → Bool
opt_is none s = false
opt_is (some t) s = t == s

-- the truth value of a string
abbrev pub is_empty : String → Bool
is_empty String.[] = true
is_empty (String.◌∷◌ c s) = false

-- a text that begins with a part that is not empty is not empty
pub is_empty-concat :
    (s : String) (ss : List String) → is_empty s ≡ false → is_empty (concat (s ∷ ss)) ≡ false
is_empty-concat String.[] ss h = cc
is_empty-concat (String.◌∷◌ c s) ss h = rw (append_clauses.cons c s (concat ss)) refl

-- `s[:n]`
unfoldable pub take_chars : ℕ → String → String
take_chars zero s = ""
take_chars (suc n) String.[] = ""
take_chars (suc n) (String.◌∷◌ c s) = String.◌∷◌ c (take_chars n s)

pub is_empty-append_right : (s t : String) → is_empty t ≡ false → is_empty (append s t) ≡ false
is_empty-append_right String.[] t h = rw (append_clauses.nil t) h
is_empty-append_right (String.◌∷◌ c s) t h = rw (append_clauses.cons c s t) refl
