-- ===== src/Tests/Queries.antt =====
-- The theorems of controller/workload.py at a guided spec.
use googlecloudhack.Prelude.{pos, negsuc, ◌≡◌, ◌⊎◌, ◌↔◌, none, some, [], Error, ok, err}
use googlecloudhack.Value.{str, end, field}
use googlecloudhack.Workload.{QuerySpec, build_query, assert_safe_query}
use googlecloudhack.Workload.Safety.{IsSafe, IsSafeSort, assert_safe_query_iff}
use googlecloudhack.Workload.Guided.{IsGuided, build_query-safe}
use googlecloudhack.Tests.Samples.{sample_externals, sample_filter, sample_sort}

abbrev sample_spec : QuerySpec
sample_spec = record {
  store_location = some "Denver";
  purchase_method = none;
  age_min = some (pos 30);
  age_max = some (pos 50);
  sort_field = some "saleDate";
  sort_dir = negsuc 0;
  limit = pos 20;
}

build_query-safe_example :
    (IsGuided sample_spec
      × (build_query sample_externals sample_spec ≡ ok (sample_filter, sample_sort, pos 20))
      × (assert_safe_query sample_externals sample_filter sample_sort ≡ ok tt))
    ⊎ (¬ IsGuided sample_spec × (e : Error) × (build_query sample_externals sample_spec ≡ err e))
build_query-safe_example = build_query-safe sample_externals sample_spec

assert_safe_query_iff_example :
    (assert_safe_query sample_externals (field "$where" (str "true") end) [] ≡ ok tt)
    ↔ (IsSafe (field "$where" (str "true") end) × IsSafeSort [])
assert_safe_query_iff_example =
    assert_safe_query_iff sample_externals (field "$where" (str "true") end) []
