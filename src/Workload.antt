-- ===== src/Workload.antt =====
-- controller/workload.py: the guided queries of the demonstration, and the check that a stored query
-- passes again before it reaches the database.
pub mod Safety
pub mod Guided
pub mod Distinct
use googlecloudhack.Prelude.{
  ℤ, pos, negsuc, String, Bool, true, false, not, ◌&&◌, ◌||◌, Option, none, some, List, [], ◌∷◌,
  ◌==◌, elem, concat, leb_ℤ, eq_ℤ, all, if◌then◌else◌, Result, ok, err, workload_spec_error,
  raise_if, ◌>>=◌, ◌>>◌,
}
use googlecloudhack.Externals.{Externals}
use googlecloudhack.Value.{Value, int, str, dict, Fields, end, field, put}
use googlecloudhack.Json.{int_text}
use googlecloudhack.PyText.{repr}

abbrev pub store_locations : List String
store_locations = "Austin" ∷ "Denver" ∷ "London" ∷ "New York" ∷ "San Diego" ∷ "Seattle" ∷ []

abbrev pub purchase_methods : List String
purchase_methods = "In store" ∷ "Online" ∷ "Phone" ∷ []

abbrev pub sort_fields : List String
sort_fields = "saleDate" ∷ "customer.age" ∷ []

abbrev pub age_min : ℤ
age_min = pos 16

abbrev pub age_max : ℤ
age_max = pos 75

abbrev pub max_limit : ℤ
max_limit = pos 200

pub record QuerySpec : Type 0 where
  pub store_location : Option String
  pub purchase_method : Option String
  pub age_min : Option ℤ
  pub age_max : Option ℤ
  pub sort_field : Option String
  pub sort_dir : ℤ
  pub limit : ℤ

-- `o is not None and o not in known`
abbrev pub is_unknown : Option String → List String → Bool
is_unknown none known = false
is_unknown (some s) known = not (elem s known)

-- `AGE_MIN <= bound <= AGE_MAX`
abbrev pub is_age : ℤ → Bool
is_age n = leb_ℤ age_min n && leb_ℤ n age_max

abbrev pub is_out_of_range : Option ℤ → Bool
is_out_of_range none = false
is_out_of_range (some n) = not (is_age n)

-- `age_min is not None and age_max is not None and age_min > age_max`
abbrev pub is_reversed : Option ℤ → Option ℤ → Bool
is_reversed (some a) (some b) = not (leb_ℤ a b)
is_reversed _ _ = false

-- `direction in (1, -1)`
abbrev pub is_direction : ℤ → Bool
is_direction d = eq_ℤ d (pos 1) || eq_ℤ d (negsuc 0)

abbrev opt_repr : Externals → Option String → String
opt_repr x none = "None"
opt_repr x (some s) = x.str_repr s

abbrev opt_text : Option ℤ → String
opt_text none = "None"
opt_text (some n) = int_text n

abbrev age_error : Option ℤ → String
age_error bound = concat ("age out of range [16,75]: " ∷ opt_text bound ∷ [])

unfoldable pub validate_spec : Externals → QuerySpec → Result QuerySpec
validate_spec x spec = do
  raise_if (is_unknown spec.store_location store_locations) (
      workload_spec_error
        (concat ("unknown storeLocation: " ∷ opt_repr x spec.store_location ∷ [])))
  raise_if (is_unknown spec.purchase_method purchase_methods) (
      workload_spec_error
        (concat ("unknown purchaseMethod: " ∷ opt_repr x spec.purchase_method ∷ [])))
  raise_if (is_out_of_range spec.age_min) (workload_spec_error (age_error spec.age_min))
  raise_if (is_out_of_range spec.age_max) (workload_spec_error (age_error spec.age_max))
  raise_if (is_reversed spec.age_min spec.age_max)
      (workload_spec_error "age_min must be <= age_max")
  raise_if (is_unknown spec.sort_field sort_fields)
      (workload_spec_error (concat ("unsupported sort field: " ∷ opt_repr x spec.sort_field ∷ [])))
  raise_if (not (is_direction spec.sort_dir)) (workload_spec_error "sort_dir must be 1 or -1")
  raise_if (not (leb_ℤ (pos 1) spec.limit && leb_ℤ spec.limit max_limit))
      (workload_spec_error "limit must be in [1,200]")
  ok spec

-- `if o is not None: d[k] = o`
abbrev pub put_str : String → Option String → Fields → Fields
put_str k none d = d
put_str k (some s) d = put k (str s) d

abbrev pub put_int : String → Option ℤ → Fields → Fields
put_int k none d = d
put_int k (some n) d = put k (int n) d

abbrev pub age_range : QuerySpec → Fields
age_range spec = put_int "$lte" spec.age_max (put_int "$gte" spec.age_min end)

-- `if age: query_filter["customer.age"] = age`
abbrev pub put_age : Fields → Fields → Fields
put_age end d = d
put_age (field k v fs) d = put "customer.age" (dict (field k v fs)) d

abbrev pub filter_of : QuerySpec → Fields
filter_of spec = put_age (age_range spec) (
    put_str "purchaseMethod" spec.purchase_method (put_str "storeLocation" spec.store_location end))

abbrev pub sort_of : Option String → ℤ → List (String × ℤ)
sort_of none d = []
sort_of (some f) d = (f, d) ∷ []

unfoldable pub build_query : Externals → QuerySpec → Result (Fields × List (String × ℤ) × ℤ)
build_query x spec = do
  valid ← validate_spec x spec
  ok (filter_of spec, sort_of spec.sort_field spec.sort_dir, spec.limit)

abbrev pub allowed_filter_keys : List String
allowed_filter_keys = "storeLocation" ∷ "purchaseMethod" ∷ "customer.age" ∷ []

abbrev pub allowed_range_ops : List String
allowed_range_ops = "$gte" ∷ "$lte" ∷ []

-- `set(value).issubset(_ALLOWED_RANGE_OPS)`
abbrev pub has_range_ops : Fields → Bool
has_range_ops end = true
has_range_ops (field k v fs) = elem k allowed_range_ops && has_range_ops fs

-- the bounds that are no bool and an int in range
abbrev pub is_bound : Value → Bool
is_bound (int n) = is_age n
is_bound _ = false

-- the loop over the bounds
unfoldable pub check_bounds : Externals → Fields → Result (Unit {0})
check_bounds x end = ok tt
check_bounds x (field op v fs) =
    raise_if (not (is_bound v))
      (workload_spec_error (concat ("customer.age bound out of range [16,75]: " ∷ repr x v ∷ [])))
    >> check_bounds x fs

abbrev pub check_age : Externals → Value → Result (Unit {0})
check_age x (dict fs) =
    raise_if (not (has_range_ops fs))
      (workload_spec_error "customer.age must be a {$gte,$lte} range")
    >> check_bounds x fs
check_age x _ = err (workload_spec_error "customer.age must be a {$gte,$lte} range")

abbrev pub check_equality : String → Value → Result (Unit {0})
check_equality k (str s) = ok tt
check_equality k _ = err (workload_spec_error (concat (k ∷ " must be an equality value" ∷ [])))

-- the checks of one entry of the filter
abbrev pub check_entry : Externals → String → Value → Result (Unit {0})
check_entry x k v = do
  raise_if (not (elem k allowed_filter_keys))
      (workload_spec_error (concat ("disallowed filter field: " ∷ x.str_repr k ∷ [])))
  if k == "customer.age" then check_age x v else check_equality k v

unfoldable pub check_filter : Externals → Fields → Result (Unit {0})
check_filter x end = ok tt
check_filter x (field k v fs) = check_entry x k v >> check_filter x fs

unfoldable pub check_sort : Externals → List (String × ℤ) → Result (Unit {0})
check_sort x [] = ok tt
check_sort x ((f, d) ∷ rest) =
    raise_if (not (elem f sort_fields) || not (is_direction d))
      (workload_spec_error (concat ("disallowed sort: " ∷ x.str_repr f ∷ [])))
    >> check_sort x rest

unfoldable pub assert_safe_query : Externals → Fields → List (String × ℤ) → Result (Unit {0})
assert_safe_query x query_filter query_sort = check_filter x query_filter >> check_sort x query_sort
