-- ===== src/Workload/Guided.antt =====
-- The queries that `build_query` of controller/workload.py builds: for which specs, and that they pass
-- `assert_safe_query`.
use googlecloudhack.Prelude.{
  ℤ, pos, negsuc, ◌≤ℤ◌, leb_ℤ, String, ◌≡◌, ◌&&◌, raise_if-ok, of_not, refl, ◌↔◌, ◌⊎◌, inl, inr,
  true, false, not, Option, none, some, List, elem, Error, ok, err, Result-cases, arith,
}
use googlecloudhack.Externals.{Externals}
use googlecloudhack.Value.{Fields, end}
use googlecloudhack.Workload.{
  store_locations, purchase_methods, sort_fields, QuerySpec, is_unknown, is_out_of_range,
  is_reversed, validate_spec, put_str, put_int, put_age, filter_of, sort_of, build_query,
  assert_safe_query,
}
use googlecloudhack.Workload.Safety.{
  IsRange, no_bound, bound, IsSafe, no_entry, equality, range, IsSafeSort, elem_pair,
  is_direction_iff, assert_safe_query_iff,
}

abbrev pub IsKnown : List String → Option String → Type 0
IsKnown known none = Unit
IsKnown known (some s) = elem s known ≡ true

abbrev pub IsAge : Option ℤ → Type 0
IsAge none = Unit
IsAge (some n) = (pos 16 ≤ℤ n) × (n ≤ℤ pos 75)

abbrev pub IsOrdered : Option ℤ → Option ℤ → Type 0
IsOrdered (some a) (some b) = a ≤ℤ b
IsOrdered _ _ = Unit

-- a spec of known texts, ages from 16 to 75 in order, a direction, and a limit from 1 to 200
pub record IsGuided (spec : QuerySpec) : Type 0 where
  pub store : IsKnown store_locations spec.store_location
  pub method : IsKnown purchase_methods spec.purchase_method
  pub youngest : IsAge spec.age_min
  pub oldest : IsAge spec.age_max
  pub ordered : IsOrdered spec.age_min spec.age_max
  pub sorted : IsKnown sort_fields spec.sort_field
  pub direction : (spec.sort_dir ≡ pos 1) ⊎ (spec.sort_dir ≡ negsuc 0)
  pub low : pos 1 ≤ℤ spec.limit
  pub high : spec.limit ≤ℤ pos 200

IsKnown-iff :
    (known : List String) (o : Option String) → (is_unknown o known ≡ false) ↔ IsKnown known o
IsKnown-iff known none = (λ h. tt, λ h. refl)
IsKnown-iff known (some s) = ground arith

IsAge-iff : (o : Option ℤ) → (is_out_of_range o ≡ false) ↔ IsAge o
IsAge-iff none = (λ h. tt, λ h. refl)
IsAge-iff (some n) = ground arith

IsOrdered-iff : (a b : Option ℤ) → (is_reversed a b ≡ false) ↔ IsOrdered a b
IsOrdered-iff (some a) (some b) = ground arith
IsOrdered-iff none b = (λ h. tt, λ h. refl)
IsOrdered-iff (some a) none = (λ h. tt, λ h. refl)

limit_bounds :
    (n : ℤ) → not (leb_ℤ (pos 1) n && leb_ℤ n (pos 200)) ≡ false → (pos 1 ≤ℤ n) × (n ≤ℤ pos 200)
limit_bounds n h = ground arith

bounds_complete :
    (n : ℤ) → pos 1 ≤ℤ n → n ≤ℤ pos 200 → (leb_ℤ (pos 1) n && leb_ℤ n (pos 200)) ≡ true
bounds_complete n low high = ground arith

validate_spec_sound :
    (x : Externals) (spec v : QuerySpec) → validate_spec x spec ≡ ok v → (v ≡ spec) × IsGuided spec
unfolding validate_spec
validate_spec_sound x spec v h =
    let (store, h1) = (raise_if-ok _ _ _ _).0 h in
    let (method, h2) = (raise_if-ok _ _ _ _).0 h1 in
    let (youngest, h3) = (raise_if-ok _ _ _ _).0 h2 in
    let (oldest, h4) = (raise_if-ok _ _ _ _).0 h3 in
    let (ordered, h5) = (raise_if-ok _ _ _ _).0 h4 in
    let (sorted, h6) = (raise_if-ok _ _ _ _).0 h5 in
    let (direction, h7) = (raise_if-ok _ _ _ _).0 h6 in
    let (bounds, h8) = (raise_if-ok _ _ _ _).0 h7 in
    let (low, high) = limit_bounds spec.limit bounds in
    (
      cc h8,
      record {
        store = (IsKnown-iff store_locations spec.store_location).0 store;
        method = (IsKnown-iff purchase_methods spec.purchase_method).0 method;
        youngest = (IsAge-iff spec.age_min).0 youngest;
        oldest = (IsAge-iff spec.age_max).0 oldest;
        ordered = (IsOrdered-iff spec.age_min spec.age_max).0 ordered;
        sorted = (IsKnown-iff sort_fields spec.sort_field).0 sorted;
        direction = (is_direction_iff spec.sort_dir).0 (of_not direction);
        low = low;
        high = high;
      },
    )

validate_spec_complete :
    (x : Externals) (spec : QuerySpec) → IsGuided spec → validate_spec x spec ≡ ok spec
unfolding validate_spec
validate_spec_complete x spec g =
    rw
      (
        (IsKnown-iff store_locations spec.store_location).1 g.store,
        (IsKnown-iff purchase_methods spec.purchase_method).1 g.method,
        (IsAge-iff spec.age_min).1 g.youngest,
        (IsAge-iff spec.age_max).1 g.oldest,
        (IsOrdered-iff spec.age_min spec.age_max).1 g.ordered,
        (IsKnown-iff sort_fields spec.sort_field).1 g.sorted,
        (is_direction_iff spec.sort_dir).1 g.direction,
        bounds_complete spec.limit g.low g.high,
      )
      refl

-- With nothing else in the filter, an age range is safe.
ages-IsRange :
    (lo hi : Option ℤ) → IsAge lo → IsAge hi → IsRange (put_int "$lte" hi (put_int "$gte" lo end))
ages-IsRange none none a b = no_bound
ages-IsRange (some n) none a b = bound (inl refl) a.0 a.1 no_bound
ages-IsRange none (some m) a b = bound (inr refl) b.0 b.1 no_bound
ages-IsRange (some n) (some m) a b = bound (inl refl) a.0 a.1 (bound (inr refl) b.0 b.1 no_bound)

texts-IsSafe :
    (store method : Option String)
    → IsSafe (put_str "purchaseMethod" method (put_str "storeLocation" store end))
texts-IsSafe none none = no_entry
texts-IsSafe (some s) none = equality (inl refl) no_entry
texts-IsSafe none (some m) = equality (inr refl) no_entry
texts-IsSafe (some s) (some m) = equality (inl refl) (equality (inr refl) no_entry)

put_age-IsSafe :
    {range_fields fs : Fields} → IsRange range_fields → IsSafe fs → IsSafe (put_age range_fields fs)
put_age-IsSafe no_bound safe = safe
put_age-IsSafe (bound e lo hi r) no_entry = range (bound e lo hi r) no_entry
put_age-IsSafe (bound e lo hi r) (equality (inl k) safe) =
    rw k (equality (inl refl) (put_age-IsSafe (bound e lo hi r) safe))
put_age-IsSafe (bound e lo hi r) (equality (inr k) safe) =
    rw k (equality (inr refl) (put_age-IsSafe (bound e lo hi r) safe))
put_age-IsSafe (bound e lo hi r) (range q safe) = range (bound e lo hi r) safe

sort_of-IsSafeSort :
    (f : Option String) (d : ℤ)
    → IsKnown sort_fields f
    → (d ≡ pos 1) ⊎ (d ≡ negsuc 0)
    → IsSafeSort (sort_of f d)
sort_of-IsSafeSort none d k e = tt
sort_of-IsSafeSort (some f) d k e = (((elem_pair f "saleDate" "customer.age").0 k, e), tt)

-- A spec is either guided, and then a query is built from it that `assert_safe_query` accepts, with
-- the limit of the spec; or `build_query` raises.
pub build_query-safe :
    (x : Externals) (spec : QuerySpec)
    → (IsGuided spec
        × (build_query x spec
            ≡ ok (filter_of spec, sort_of spec.sort_field spec.sort_dir, spec.limit))
        × (assert_safe_query x (filter_of spec) (sort_of spec.sort_field spec.sort_dir) ≡ ok tt))
      ⊎ (¬ IsGuided spec × (e : Error) × (build_query x spec ≡ err e))
unfolding build_query
build_query-safe x spec = elim (Result-cases (validate_spec x spec)) [
  | inl (v, h) ↦
      let (same, g) = validate_spec_sound x spec v h in
      inl (
        g,
        rw h refl,
        (assert_safe_query_iff x (filter_of spec) (sort_of spec.sort_field spec.sort_dir)).1 (
          put_age-IsSafe (ages-IsRange spec.age_min spec.age_max g.youngest g.oldest)
              (texts-IsSafe spec.store_location spec.purchase_method),
          sort_of-IsSafeSort spec.sort_field spec.sort_dir g.sorted g.direction,
        ),
      )
  | inr (e, h) ↦ inr (λ g. cc (h, validate_spec_complete x spec g), e, rw h refl)
]
