-- ===== src/Workload/Safety.antt =====
-- Which queries `assert_safe_query` of controller/workload.py accepts, and that `build_query` builds
-- such queries and no others.
use googlecloudhack.Prelude.{
  ℤ, pos, negsuc, ◌≤ℤ◌, String, ◌≡◌, refl, ◌↔◌, ◌⊎◌, inl, inr, true, false, List, [], ◌∷◌, ◌==◌,
  elem, All, >>-ok, ok, Bool-cases, arith, eq_iff,
}
use googlecloudhack.Externals.{Externals}
use googlecloudhack.Value.{Value, int, str, dict, Fields, end, field}
use googlecloudhack.Workload.{
  is_direction, has_range_ops, check_bounds, check_age, check_equality, check_entry, check_filter,
  check_sort, assert_safe_query,
}

-- the conditions {$gte: n, $lte: m} on an age, each bound in [16, 75]
pub data IsRange : Fields → Type 0 where
  no_bound : IsRange end
  bound :
      {op : String} {n : ℤ} {fs : Fields}
      → (op ≡ "$gte") ⊎ (op ≡ "$lte")
      → pos 16 ≤ℤ n
      → n ≤ℤ pos 75
      → IsRange fs
      → IsRange (field op (int n) fs)

-- a filter of equalities with texts on two fields and of a range of ages: no other field and no
-- other operator
pub data IsSafe : Fields → Type 0 where
  no_entry : IsSafe end
  equality :
      {k s : String} {fs : Fields}
      → (k ≡ "storeLocation") ⊎ (k ≡ "purchaseMethod")
      → IsSafe fs
      → IsSafe (field k (str s) fs)
  range :
      {range fs : Fields}
      → IsRange range
      → IsSafe fs
      → IsSafe (field "customer.age" (dict range) fs)

-- a sort by known fields, up or down
abbrev pub IsSafeSort : List (String × ℤ) → Type 0
IsSafeSort =
    All λ (f, d). ((f ≡ "saleDate") ⊎ (f ≡ "customer.age")) × ((d ≡ pos 1) ⊎ (d ≡ negsuc 0))

pub is_direction_iff : (d : ℤ) → (is_direction d ≡ true) ↔ ((d ≡ pos 1) ⊎ (d ≡ negsuc 0))
is_direction_iff (pos n) = ground arith
is_direction_iff (negsuc n) = ground arith

pub elem_pair : (s a b : String) → (elem s (a ∷ b ∷ []) ≡ true) ↔ ((s ≡ a) ⊎ (s ≡ b))
elem_pair s a b = ground (arith, eq_iff s a, eq_iff s b)

IsRange-sound :
    (x : Externals) (fs : Fields) → has_range_ops fs ≡ true → check_bounds x fs ≡ ok tt → IsRange fs
unfolding check_bounds
IsRange-sound x end h k = no_bound
IsRange-sound x (field op (int n) fs) h k =
    bound ((elem_pair op "$gte" "$lte").0 (ground arith)) (ground arith) (ground arith)
      (IsRange-sound x fs (ground arith) (ground arith))
IsRange-sound x (field op _ fs) h k = cc

IsRange-complete :
    (x : Externals) {fs : Fields}
    → IsRange fs
    → (has_range_ops fs ≡ true) × (check_bounds x fs ≡ ok tt)
unfolding check_bounds
IsRange-complete x no_bound = (refl, refl)
IsRange-complete x (bound {op} {n} e lo hi h) =
    let (o, b) = IsRange-complete x h in
    (ground (arith, o, (elem_pair op "$gte" "$lte").1 e), ground arith)

check_age_sound :
    (x : Externals) (v : Value) → check_age x v ≡ ok tt → (fs : Fields) × (v ≡ dict fs) × IsRange fs
check_age_sound x (dict fs) h = (fs, refl, IsRange-sound x fs (ground arith) (ground arith))
check_age_sound x _ h = cc

check_age_complete : (x : Externals) {fs : Fields} → IsRange fs → check_age x (dict fs) ≡ ok tt
check_age_complete x h = let (ops, bounds) = IsRange-complete x h in ground arith

check_equality_sound :
    (k : String) (v : Value) → check_equality k v ≡ ok tt → (s : String) × (v ≡ str s)
check_equality_sound k (str s) h = (s, refl)
check_equality_sound k _ h = cc

-- the two fields of a text are not that of the age
is_text_field :
    {k : String} → (k ≡ "storeLocation") ⊎ (k ≡ "purchaseMethod") → (k == "customer.age") ≡ false
is_text_field (inl e) = rw e refl
is_text_field (inr e) = rw e refl

check_entry_sound :
    (x : Externals) (k : String) (v : Value) (fs : Fields)
    → check_entry x k v ≡ ok tt
    → IsSafe fs
    → IsSafe (field k v fs)
check_entry_sound x k v fs h safe = elim (Bool-cases (k == "customer.age")) [
  | inl e ↦
      let (r, same, ok_range) = check_age_sound x v (ground arith) in
      rw ((eq_iff k "customer.age").0 e, same) (range {range = r} ok_range safe)
  | inr e ↦
      let (s, same) = check_equality_sound k v (ground arith) in
      rw same
        (equality {s = s} ((elem_pair k "storeLocation" "purchaseMethod").0 (ground arith)) safe)
]

check_filter_sound : (x : Externals) (fs : Fields) → check_filter x fs ≡ ok tt → IsSafe fs
unfolding check_filter
check_filter_sound x end h = no_entry
check_filter_sound x (field k v fs) h =
    let (entry, rest) = (>>-ok (check_entry x k v) (check_filter x fs) tt).0 h in
    check_entry_sound x k v fs entry (check_filter_sound x fs rest)

check_filter_complete : (x : Externals) {fs : Fields} → IsSafe fs → check_filter x fs ≡ ok tt
unfolding check_filter
check_filter_complete x no_entry = refl
check_filter_complete x (equality (inl e) h) = rw (e, check_filter_complete x h) refl
check_filter_complete x (equality (inr e) h) = rw (e, check_filter_complete x h) refl
check_filter_complete x (range r h) = rw (check_age_complete x r, check_filter_complete x h) refl

check_sort_iff : (x : Externals) (s : List (String × ℤ)) → (check_sort x s ≡ ok tt) ↔ IsSafeSort s
unfolding check_sort
check_sort_iff x [] = (λ h. tt, λ h. refl)
check_sort_iff x ((f, d) ∷ rest) = (
  λ h. (
    (
      (elem_pair f "saleDate" "customer.age").0 (ground arith),
      (is_direction_iff d).0 (ground arith),
    ),
    (check_sort_iff x rest).0 (ground arith),
  ),
  λ ((field_ok, direction_ok), h).
      rw ((elem_pair f "saleDate" "customer.age").1 field_ok, (is_direction_iff d).1 direction_ok)
        ((check_sort_iff x rest).1 h),
)

-- `assert_safe_query` accepts a query exactly when its filter is of texts on the store and the
-- method and of a range of ages from 16 to 75, with no other field and no other operator, and its
-- sort is by the date or the age.
pub assert_safe_query_iff :
    (x : Externals) (fs : Fields) (s : List (String × ℤ))
    → (assert_safe_query x fs s ≡ ok tt) ↔ (IsSafe fs × IsSafeSort s)
unfolding assert_safe_query
assert_safe_query_iff x fs s = (
  λ h.
      let (a, b) = (>>-ok (check_filter x fs) (check_sort x s) tt).0 h in
      (check_filter_sound x fs a, (check_sort_iff x s).0 b),
  λ (a, b). rw (check_filter_complete x a) ((check_sort_iff x s).1 b),
)
