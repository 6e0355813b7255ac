-- ===== src/Workload/Distinct.antt =====
-- The index that controller/diagnosis.py recommends for a guided query names no field twice, but for
-- the query that sorts by the age and has a range of ages.
use googlecloudhack.Prelude.{ℤ, String, Bool, true, not, ◌&&◌, List, [], ◌∷◌, map, elem}
use googlecloudhack.Value.{Fields}
use googlecloudhack.Diagnosis.{classify, esr_index}

abbrev pub is_distinct : List String → Bool
is_distinct [] = true
is_distinct (k ∷ ks) = not (elem k ks) && is_distinct ks

-- the fields of the index for a query
abbrev pub index_fields : Fields → List (String × ℤ) → List String
index_fields fs s = map (λ key. key.0) (esr_index (classify fs).0 s (classify fs).1)
