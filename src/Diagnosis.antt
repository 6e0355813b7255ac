-- ===== src/Diagnosis.antt =====
-- controller/diagnosis.py: the index that the Equality, Sort, Range rule gives for a query.
pub mod Esr
use googlecloudhack.Prelude.{
  ℤ, pos, String, Bool, true, false, Option, none, some, List, [], ◌∷◌, ◌++◌, map, any, concat,
  join, is_empty, Result, ok, err, validation_error, ◌>>=◌, if◌then◌else◌,
}
use googlecloudhack.Externals.{Externals}
use googlecloudhack.Value.{Value, dict, Fields, end, field, has_key}
use googlecloudhack.Schemas.{Severity, Finding, Recommendation, Diagnosis}

abbrev pub range_ops : List String
range_ops = "$gt" ∷ "$gte" ∷ "$lt" ∷ "$lte" ∷ []

-- `isinstance(condition, Mapping) and any(op in condition for op in _RANGE_OPS)`
unfoldable pub is_range : Value → Bool
is_range (dict fs) = any (λ op. has_key op fs) range_ops
is_range _ = false

-- the loop over the filter: the names of the equality fields and of the range fields, in order
unfoldable pub classify : Fields → List String × List String
unfolding is_range
classify end = ([], [])
classify (field k condition fs) =
    let (equality, range_fields) = classify fs in
    if is_range condition then (equality, k ∷ range_fields) else (k ∷ equality, range_fields)

abbrev pub ascending : String → String × ℤ
ascending name = (name, pos 1)

unfoldable pub esr_index : List String → List (String × ℤ) → List String → List (String × ℤ)
esr_index equality sort_fields range_fields =
    map ascending equality ++ (sort_fields ++ map ascending range_fields)

-- `Recommendation(...)` refuses an empty `index_spec` or `rationale`
unfoldable pub make_recommendation : List (String × ℤ) → String → Result Recommendation
make_recommendation [] rationale = err (validation_error "index_spec")
make_recommendation (key ∷ keys) rationale =
    if is_empty rationale
    then err (validation_error "rationale")
    else ok (record { index_spec = key ∷ keys; rationale = rationale })

-- `(current_index or "explain",)`
abbrev pub evidence_refs : Option String → List String
evidence_refs none = "explain" ∷ []
evidence_refs (some name) = (if is_empty name then "explain" else name) ∷ []

abbrev rationale_end : String
rationale_end =
    "). With Sort placed before Range, the index yields documents already in sort order, removing the blocking SORT stage and the over-scan it causes."

module _ (x : Externals) where
  -- `str` of a list of strings
  abbrev list_repr : List String → String
  list_repr names = concat ("[" ∷ join ", " (map x.str_repr names) ∷ "]" ∷ [])

  unfoldable pub ordering : List String → List (String × ℤ) → List String → String
  ordering equality sort_fields range_fields = concat (
      "Equality"
      ∷ list_repr equality
      ∷ " -> Sort"
      ∷ list_repr (map (λ f. f.0) sort_fields)
      ∷ " -> Range"
      ∷ list_repr range_fields
      ∷ [])

  abbrev rationale_text : Bool → String → String
  rationale_text true order =
      concat ("Reorder the index by the ESR rule (" ∷ order ∷ rationale_end ∷ [])
  rationale_text false order =
      concat ("Index already follows the ESR rule (" ∷ order ∷ "); no change needed." ∷ [])

  abbrev finding_of : Bool → Option String → Finding
  finding_of true current_index = record {
    problem =
        "Query performs a blocking in-memory SORT: the serving index orders a Range field ahead of the Sort field, so the index cannot supply the requested order and every matched document is sorted in memory.";
    severity = Severity.high;
    evidence_refs = evidence_refs current_index;
  }
  finding_of false current_index = record {
    problem = "No blocking sort detected; query is served in index order.";
    severity = Severity.low;
    evidence_refs = evidence_refs current_index;
  }

  unfoldable pub diagnose :
      Fields → List (String × ℤ) → (has_blocking_sort : Bool) → Option String → Result Diagnosis
  diagnose query_filter query_sort has_blocking_sort current_index = do
    let (equality, range_fields) = classify query_filter
    recommendation ←
        make_recommendation (esr_index equality query_sort range_fields)
          (rationale_text has_blocking_sort (ordering equality query_sort range_fields))
    ok (record {
      finding = finding_of has_blocking_sort current_index;
      recommendation = recommendation;
    })
