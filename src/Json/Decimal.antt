-- ===== src/Json/Decimal.antt =====
-- The decimal text of a number is read back as the number: the fuel of `decimal` is enough.
use googlecloudhack.Prelude.{
  ℕ, zero, suc, ◌+◌, ◌-◌, ◌*◌, ◌/◌, ◌%◌, ◌<◌, pos, ◌≡◌, refl, inl, inr, List, [], ◌∷◌, ◌++◌, concat,
  codes, codes-append, ltb, arith, Bool-cases,
}
use googlecloudhack.Json.{hex_digit, decimal, int_text}

-- the number that the digits with these code points write, after `acc`
unfoldable pub read : List ℕ → ℕ → ℕ
read [] acc = acc
read (c ∷ cs) acc = read cs (acc * 10 + (c - 48))

read-append : (xs : List ℕ) (c acc : ℕ) → read (xs ++ c ∷ []) acc ≡ read xs acc * 10 + (c - 48)
unfolding read
read-append [] c acc = refl
read-append (x ∷ xs) c acc = read-append xs c (acc * 10 + (x - 48))

codes-hex_digit : (n : ℕ) → n < 10 → codes (hex_digit n) ≡ (48 + n) ∷ []
codes-hex_digit zero h = refl
codes-hex_digit (suc zero) h = refl
codes-hex_digit (suc (suc zero)) h = refl
codes-hex_digit (suc (suc (suc zero))) h = refl
codes-hex_digit (suc (suc (suc (suc zero)))) h = refl
codes-hex_digit (suc (suc (suc (suc (suc zero))))) h = refl
codes-hex_digit (suc (suc (suc (suc (suc (suc zero)))))) h = refl
codes-hex_digit (suc (suc (suc (suc (suc (suc (suc zero))))))) h = refl
codes-hex_digit (suc (suc (suc (suc (suc (suc (suc (suc zero)))))))) h = refl
codes-hex_digit (suc (suc (suc (suc (suc (suc (suc (suc (suc zero))))))))) h = refl
codes-hex_digit (suc (suc (suc (suc (suc (suc (suc (suc (suc (suc n)))))))))) h =
    absurd (omega (arith, h))

read-decimal : (fuel n : ℕ) → n < fuel → read (codes (decimal fuel n)) 0 ≡ n
unfolding decimal read
read-decimal zero n h = omega (arith, h)
read-decimal (suc fuel) n h = elim (Bool-cases (ltb n 10)) [
  | inl e ↦ rw (e, codes-hex_digit n (ground (arith, e))) (omega arith)
  | inr e ↦
      rw
        (
          e,
          codes-append (decimal fuel (n / 10)) (concat (hex_digit (n % 10) ∷ [])),
          codes-append (hex_digit (n % 10)) "",
          codes-hex_digit (n % 10) (omega arith),
          read-append (codes (decimal fuel (n / 10))) (48 + n % 10) 0,
          read-decimal fuel (n / 10) (ground (arith, e, h)),
        )
        (omega arith)
]

-- The text of a number is read back as the number.
pub read-int_text : (n : ℕ) → read (codes (int_text (pos n))) 0 ≡ n
unfolding int_text
read-int_text n = read-decimal (suc n) n (omega arith)
