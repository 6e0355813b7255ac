-- ===== src/Diagnosis/Esr.antt =====
-- What controller/diagnosis.py recommends: the fields of the query in the order Equality, Sort, Range.
use mathlib.Core.List.{Perm, perm_middle}
use mathlib.Core.List.Perm
use googlecloudhack.Prelude.{
  ℤ, String, ◌≡◌, refl, Bool, true, false, Option, List, [], ◌∷◌, ◌++◌, map, ok, err, All,
  Bool-cases, inl, inr, validation_error, ◌⊎◌, ◌≢◌, is_empty, is_empty-concat,
}
use googlecloudhack.Externals.{Externals}
use googlecloudhack.Value.{Value, Fields, end, field}
use googlecloudhack.Schemas.{Diagnosis, Severity}
use googlecloudhack.Diagnosis.{
  is_range, classify, ascending, esr_index, make_recommendation, rationale_end, rationale_text,
  finding_of, ordering, diagnose,
}

abbrev pub keys : Fields → List String
keys end = []
keys (field k v fs) = k ∷ keys fs

-- `fs` has an entry for `k` whose condition is a range, or is none
pub data Has (k : String) (range : Bool) : Fields → Type 0 where
  here : {v : Value} {fs : Fields} → is_range v ≡ range → Has k range (field k v fs)
  there : {j : String} {v : Value} {fs : Fields} → Has k range fs → Has k range (field j v fs)

All-there :
    (range : Bool) (j : String) (v : Value) (fs : Fields) (ks : List String)
    → All (λ k. Has k range fs) ks
    → All (λ k. Has k range (field j v fs)) ks
All-there range j v fs [] h = tt
All-there range j v fs (k ∷ ks) h = (there h.0, All-there range j v fs ks h.1)

classify_equality : (fs : Fields) → All (λ k. Has k false fs) (classify fs).0
unfolding classify
classify_equality end = tt
classify_equality (field k v fs) = elim (Bool-cases (is_range v)) [
  | inl e ↦ rw e (All-there false k v fs _ (classify_equality fs))
  | inr e ↦ rw e (here e, All-there false k v fs _ (classify_equality fs))
]

classify_range : (fs : Fields) → All (λ k. Has k true fs) (classify fs).1
unfolding classify
classify_range end = tt
classify_range (field k v fs) = elim (Bool-cases (is_range v)) [
  | inl e ↦ rw e (here e, All-there true k v fs _ (classify_range fs))
  | inr e ↦ rw e (All-there true k v fs _ (classify_range fs))
]

classify-perm : (fs : Fields) → Perm ((classify fs).0 ++ (classify fs).1) (keys fs)
unfolding classify
classify-perm end = Perm.refl []
classify-perm (field k v fs) = elim (Bool-cases (is_range v)) [
  | inl e ↦
      rw e
        (Perm.trans (perm_middle (classify fs).0 (classify fs).1) (Perm.cons k (classify-perm fs)))
  | inr e ↦ rw e (Perm.cons k (classify-perm fs))
]

rationale-ne-empty :
    (x : Externals) (blocking : Bool) (order : String)
    → is_empty (rationale_text x blocking order) ≡ false
rationale-ne-empty x true order =
    is_empty-concat "Reorder the index by the ESR rule (" (order ∷ rationale_end ∷ []) refl
rationale-ne-empty x false order =
    is_empty-concat "Index already follows the ESR rule (" (order ∷ "); no change needed." ∷ [])
      refl

make_recommendation-total :
    (spec : List (String × ℤ)) (text : String)
    → is_empty text ≡ false
    → spec ≢ []
    → make_recommendation spec text ≡ ok (record { index_spec = spec; rationale = text })
unfolding make_recommendation
make_recommendation-total [] text e ne = absurd (ne refl)
make_recommendation-total (key ∷ spec) text e ne = rw e

-- The index for a filter and a sort: the equality fields, ascending; then the sort; then the range
-- fields, ascending; where the equality and the range fields together are the filter's fields.
pub record IsEsr (fs : Fields) (sort spec : List (String × ℤ)) : Type 0 where
  pub equality : List String
  pub range_fields : List String
  pub blocks : spec ≡ map ascending equality ++ (sort ++ map ascending range_fields)
  pub equality_only : All (λ k. Has k false fs) equality
  pub range_only : All (λ k. Has k true fs) range_fields
  pub complete : Perm (equality ++ range_fields) (keys fs)

esr_index-IsEsr :
    (fs : Fields) (sort : List (String × ℤ))
    → IsEsr fs sort (esr_index (classify fs).0 sort (classify fs).1)
unfolding esr_index
esr_index-IsEsr fs sort = record {
  equality = (classify fs).0;
  range_fields = (classify fs).1;
  blocks = refl;
  equality_only = classify_equality fs;
  range_only = classify_range fs;
  complete = classify-perm fs;
}

append-cons-ne-nil {ℓ} :
    {A : Type ℓ} (xs ys : List A) (z : A) (zs : List A) → xs ++ (ys ++ (z ∷ zs)) ≢ []
append-cons-ne-nil [] [] z zs = cc
append-cons-ne-nil [] (y ∷ ys) z zs = cc
append-cons-ne-nil (x ∷ xs) ys z zs = cc

abbrev spec_of : Fields → List (String × ℤ) → List (String × ℤ)
spec_of fs sort = esr_index (classify fs).0 sort (classify fs).1

esr_index_cases :
    (fs : Fields) (sort : List (String × ℤ)) → ((fs ≡ end) × (sort ≡ [])) ⊎ (spec_of fs sort ≢ [])
unfolding classify esr_index
esr_index_cases end [] = inl (refl, refl)
esr_index_cases end (s ∷ sort) = inr cc
esr_index_cases (field k v fs) sort = elim (Bool-cases (is_range v)) [
  | inl e ↦ inr (rw e (append-cons-ne-nil (map ascending (classify fs).0) sort _ _))
  | inr e ↦ inr (rw e (cc))
]

abbrev pub severity_for : Bool → Severity
severity_for true = Severity.high
severity_for false = Severity.low

spec_of_nothing :
    (text : String)
    → make_recommendation (spec_of end []) text ≡ err (validation_error "index_spec")
unfolding make_recommendation classify esr_index
spec_of_nothing text = refl

severity_lem :
    (x : Externals) (blocking : Bool) (current : Option String)
    → (finding_of x blocking current).severity ≡ severity_for blocking
severity_lem x true current = refl
severity_lem x false current = refl

pub diagnose-IsEsr :
    (x : Externals) (fs : Fields) (sort : List (String × ℤ)) (blocking : Bool)
    (current : Option String)
    → ((fs ≡ end)
        × (sort ≡ [])
        × (diagnose x fs sort blocking current ≡ err (validation_error "index_spec")))
      ⊎ ((d : Diagnosis) × (diagnose x fs sort blocking current ≡ ok d)
          × IsEsr fs sort d.recommendation.index_spec
          × (d.finding.severity ≡ severity_for blocking))
unfolding diagnose
diagnose-IsEsr x fs sort blocking current = elim (esr_index_cases fs sort) [
  | inl (no_filter, no_sort) ↦
      inl (no_filter, no_sort, rw (no_filter, no_sort) (rw (spec_of_nothing _) refl))
  | inr some_key ↦
      let text = rationale_text x blocking (ordering x (classify fs).0 sort (classify fs).1) in
      inr (
        record {
          finding = finding_of x blocking current;
          recommendation = record { index_spec = spec_of fs sort; rationale = text };
        },
        rw (
            make_recommendation-total (spec_of fs sort) text (rationale-ne-empty x blocking _)
              some_key),
        esr_index-IsEsr fs sort,
        severity_lem x blocking current,
      )
]
