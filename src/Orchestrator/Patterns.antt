-- ===== src/Orchestrator/Patterns.antt =====
-- What a key pattern of a plan says of an index, for `_key_pattern_matches` of controller/orchestrator.py,
-- stated without the code, and the plans without an infinite float.
use mathlib.Core.Path.{subst}
use mathlib.Core.Option.{some-injective}
use googlecloudhack.Prelude.{
  ℤ, pos, negsuc, eq_ℤ, String, ◌==◌, eq_iff, ◌≡◌, ◌↔◌, refl, inl, inr, Bool, true, false, Option,
  none, some, List, [], ◌∷◌, Error, Result, ok, err, >>=-ok, >>=-err, arith, Bool-cases,
}
use googlecloudhack.Externals.{Externals}
use googlecloudhack.Value.{
  Value, boolean, int, float, str, list, tuple, dict, Items, nil, cons, Fields, end, field, get,
}
use googlecloudhack.Orchestrator.Trace.{spec_eq}
use googlecloudhack.Orchestrator.Checks.{
  int_of, observed, is_conversion_error, matches_spec, key_pattern_matches,
}

eq_ℤ_iff : (a b : ℤ) → (eq_ℤ a b ≡ true) ↔ (a ≡ b)
eq_ℤ_iff (pos a) (pos b) = ground arith
eq_ℤ_iff (negsuc a) (negsuc b) = ground arith
eq_ℤ_iff (pos a) (negsuc b) = (λ h. cc, λ h. cc)
eq_ℤ_iff (negsuc a) (pos b) = (λ h. cc, λ h. cc)

spec_eq_iff : (r s : List (String × ℤ)) → (spec_eq r s ≡ true) ↔ (r ≡ s)
unfolding spec_eq
spec_eq_iff [] [] = (λ h. refl, λ h. refl)
spec_eq_iff [] (k ∷ s) = (λ h. cc, λ h. cc)
spec_eq_iff (k ∷ r) [] = (λ h. cc, λ h. cc)
spec_eq_iff ((j, d) ∷ r) ((k, e) ∷ s) =
    let (one, back) = spec_eq_iff r s in ground (arith, eq_iff j k, eq_ℤ_iff d e)

module _ (x : Externals) where
  -- a direction that is this number, to `int`
  pub data IsInt : Value → ℤ → Type 0 where
    whole : (n : ℤ) → IsInt (int n) n
    one : IsInt (boolean true) (pos 1)
    zero : IsInt (boolean false) (pos 0)
    digits : {s : String} {n : ℤ} → x.int_of_str s ≡ some n → IsInt (str s) n
    number : {r : String} {n : ℤ} → x.int_of_float r ≡ ok n → IsInt (float r) n

  -- the fields of a key pattern in their order, each with its direction
  pub data IsPattern : Fields → List (String × ℤ) → Type 0 where
    no_more : IsPattern end []
    next :
        {k : String} {v : Value} {d : ℤ} {fs : Fields} {keys : List (String × ℤ)}
        → IsInt v d
        → IsPattern fs keys
        → IsPattern (field k v fs) ((k, d) ∷ keys)

  -- no float in a value is infinite: what `int` raises for it, if anything, is a ValueError or TypeError
  abbrev mutual
    pub IsFinite : Value → Type 0
    IsFinite (float r) = (exc : Error) → x.int_of_float r ≡ err exc → is_conversion_error exc ≡ true
    IsFinite (list vs) = FiniteItems vs
    IsFinite (tuple vs) = FiniteItems vs
    IsFinite (dict fs) = FiniteFields fs
    IsFinite _ = Unit

    pub FiniteItems : Items → Type 0
    FiniteItems nil = Unit
    FiniteItems (cons v vs) = IsFinite v × FiniteItems vs

    pub FiniteFields : Fields → Type 0
    FiniteFields end = Unit
    FiniteFields (field k v fs) = IsFinite v × FiniteFields fs

  get-IsFinite :
      (k : String) (fs : Fields) (v : Value) → FiniteFields fs → get k fs ≡ some v → IsFinite v
  get-IsFinite k end v f h = cc
  get-IsFinite k (field j w fs) v (f, fs') h = elim (Bool-cases (j == k)) [
    | inl e ↦ let same : w ≡ v = some-injective _ _ (rw e at h) in subst IsFinite same f
    | inr e ↦ get-IsFinite k fs v fs' (rw e at h)
  ]

  int_of-IsInt : (v : Value) (n : ℤ) → int_of x v ≡ ok n → IsInt v n
  unfolding int_of
  int_of-IsInt (int m) n h = let same : m ≡ n = cc in subst (IsInt (int m)) same (whole m)
  int_of-IsInt (boolean true) n h =
      let same : pos 1 ≡ n = cc in subst (IsInt (boolean true)) same one
  int_of-IsInt (boolean false) n h =
      let same : pos 0 ≡ n = cc in subst (IsInt (boolean false)) same zero
  int_of-IsInt (str s) n h = digits (ground arith)
  int_of-IsInt (float r) n h = number h
  int_of-IsInt _ n h = cc

  IsInt-int_of : {v : Value} {n : ℤ} → IsInt v n → int_of x v ≡ ok n
  unfolding int_of
  IsInt-int_of (whole n) = refl
  IsInt-int_of one = refl
  IsInt-int_of zero = refl
  IsInt-int_of (digits e) = rw e refl
  IsInt-int_of (number e) = e

  observed-IsPattern :
      (fs : Fields) (keys : List (String × ℤ)) → observed x fs ≡ ok keys → IsPattern fs keys
  unfolding observed
  observed-IsPattern end keys h = let same : [] ≡ keys = cc in subst (IsPattern end) same no_more
  observed-IsPattern (field k v fs) keys h =
      let (d, e, rest) = (>>=-ok (int_of x v) _ keys).0 h in
      let (later, e', built) = (>>=-ok (observed x fs) _ keys).0 rest in
      let same : (k, d) ∷ later ≡ keys = cc in
      subst (IsPattern (field k v fs)) same
        (next (int_of-IsInt v d e) (observed-IsPattern fs later e'))

  IsPattern-observed :
      {fs : Fields} {keys : List (String × ℤ)} → IsPattern fs keys → observed x fs ≡ ok keys
  unfolding observed
  IsPattern-observed no_more = refl
  IsPattern-observed (next i p) = rw (IsInt-int_of i, IsPattern-observed p) refl

  -- the pattern that a key pattern of a stage is
  abbrev pub Matches : Option Value → List (String × ℤ) → Type 0
  Matches o spec = (fs : Fields) × (o ≡ some (dict fs)) × IsPattern fs spec

  matched :
      (fs : Fields) (spec : List (String × ℤ)) (r : Result (List (String × ℤ)))
      → observed x fs ≡ r
      → matches_spec r spec ≡ ok true
      → IsPattern fs spec
  matched fs spec (ok keys) e h =
      let same : keys ≡ spec = (spec_eq_iff keys spec).0 cc in
      subst (IsPattern fs) same (observed-IsPattern fs keys e)
  matched fs spec (err exc) e h = ground arith

  pub key_pattern_matches-Matches :
      (o : Option Value) (spec : List (String × ℤ))
      → key_pattern_matches x o spec ≡ ok true
      → Matches o spec
  unfolding key_pattern_matches
  key_pattern_matches-Matches (some (dict fs)) spec h =
      (fs, refl, matched fs spec (observed x fs) refl h)
  key_pattern_matches-Matches none spec h = cc
  key_pattern_matches-Matches (some _) spec h = cc

  pub Matches-key_pattern_matches :
      (o : Option Value) (spec : List (String × ℤ))
      → Matches o spec
      → key_pattern_matches x o spec ≡ ok true
  unfolding key_pattern_matches
  Matches-key_pattern_matches o spec (fs, e, p) =
      rw (e, IsPattern-observed p, (spec_eq_iff spec spec).1 refl) refl

  int_of_finite :
      (v : Value) (exc : Error) → IsFinite v → int_of x v ≡ err exc → is_conversion_error exc ≡ true
  unfolding int_of
  int_of_finite (int m) exc f h = cc
  int_of_finite (boolean b) exc f h = cc
  int_of_finite (str s) exc f h = ground arith
  int_of_finite (float r) exc f h = f exc h
  int_of_finite _ exc f h = ground arith

  observed_finite :
      (fs : Fields) (exc : Error)
      → FiniteFields fs
      → observed x fs ≡ err exc
      → is_conversion_error exc ≡ true
  unfolding observed
  observed_finite end exc f h = cc
  observed_finite (field k v fs) exc (f, fs') h = elim (>>=-err (int_of x v) _ exc h) [
    | inl e ↦ int_of_finite v exc f e
    | inr (d, e, rest) ↦ elim (>>=-err (observed x fs) _ exc rest) [
      | inl e' ↦ observed_finite fs exc fs' e'
      | inr (keys, e', built) ↦ cc
    ]
  ]

  matches_total :
      (fs : Fields) (spec : List (String × ℤ)) (r : Result (List (String × ℤ)))
      → FiniteFields fs
      → observed x fs ≡ r
      → (b : Bool) × (matches_spec r spec ≡ ok b)
  matches_total fs spec (ok keys) f e = (spec_eq keys spec, refl)
  matches_total fs spec (err exc) f e = (false, rw (observed_finite fs exc f e) refl)

  compared_total :
      (fs : Fields) (spec : List (String × ℤ)) (o : Option Value)
      → FiniteFields fs
      → get "keyPattern" fs ≡ o
      → (b : Bool) × (key_pattern_matches x o spec ≡ ok b)
  unfolding key_pattern_matches
  compared_total fs spec (some (dict kp)) f e =
      matches_total kp spec (observed x kp) (get-IsFinite "keyPattern" fs (dict kp) f e) refl
  compared_total fs spec _ f e = (false, refl)

  -- without an infinite float, the comparison with a key pattern returns
  pub key_pattern_matches-total :
      (fs : Fields) (spec : List (String × ℤ))
      → FiniteFields fs
      → (b : Bool) × (key_pattern_matches x (get "keyPattern" fs) spec ≡ ok b)
  key_pattern_matches-total fs spec f = compared_total fs spec (get "keyPattern" fs) f refl
