-- ===== src/Orchestrator/Checks.antt =====
-- `_key_pattern_matches` to `_verification_summary` of controller/orchestrator.py: the strict checks
-- after an index was applied. A plan is a value of JSON, whose keys are strings.
use googlecloudhack.Prelude.{
  ℤ, pos, String, Bool, true, false, not, ◌&&◌, ◌||◌, Option, none, some, List, [], ◌∷◌, ◌++◌, map,
  ltb, concat, join, take_chars, if◌then◌else◌, Error, is_value_error, Result, ok, err, value_error,
  type_error, ◌>>=◌,
}
use googlecloudhack.Externals.{Externals}
use googlecloudhack.Value.{
  Value, boolean, int, float, str, list, tuple, dict, Items, nil, cons, Fields, end, field, get,
  is_str,
}
use googlecloudhack.Json.{int_text}
use googlecloudhack.Orchestrator.Trace.{spec_eq}
use googlecloudhack.Schemas.{Evidence, Recommendation, has_blocking_sort}

abbrev key_part : String × ℤ → String
key_part (name, direction) = concat (name ∷ int_text direction ∷ [])

-- `_recommended_index_name`
unfoldable pub recommended_index_name : Recommendation → String
recommended_index_name r =
    take_chars 120 (concat ("gcrah_rec_" ∷ join "_" (map key_part r.index_spec) ∷ []))

-- `plan.get("indexName") == index_name`
abbrev pub name_is : Option Value → String → Bool
name_is none s = false
name_is (some v) s = is_str v s

abbrev int_or_value_error : Option ℤ → Result ℤ
int_or_value_error none = err (value_error "invalid literal for int() with base 10")
int_or_value_error (some n) = ok n

-- what `except (TypeError, ValueError)` catches
abbrev pub is_conversion_error : Error → Bool
is_conversion_error (type_error m) = true
is_conversion_error exc = is_value_error exc

-- the comparison after the `try`
abbrev pub matches_spec : Result (List (String × ℤ)) → List (String × ℤ) → Result Bool
matches_spec (ok keys) spec = ok (spec_eq keys spec)
matches_spec (err exc) spec = if is_conversion_error exc then ok false else err exc

-- `a or b`, where either may raise
abbrev pub or_next : Result Bool → Result Bool → Result Bool
or_next (err exc) next = err exc
or_next (ok true) next = ok true
or_next (ok false) next = next

module _ (x : Externals) where
  -- `int(direction)`, or the exception that it raises
  unfoldable pub int_of : Value → Result ℤ
  int_of (int n) = ok n
  int_of (boolean b) = ok (pos (if b then 1 else 0))
  int_of (str s) = int_or_value_error (x.int_of_str s)
  int_of (float r) = x.int_of_float r
  int_of _ =
      err (type_error "int() argument must be a string, a bytes-like object or a real number")

  -- the entries of a key pattern
  unfoldable pub observed : Fields → Result (List (String × ℤ))
  observed end = ok []
  observed (field k v fs) = int_of v >>= λ d. observed fs >>= λ keys. ok ((k, d) ∷ keys)

  -- `_key_pattern_matches`; what `int` raises for an infinite float is not caught
  unfoldable pub key_pattern_matches : Option Value → List (String × ℤ) → Result Bool
  key_pattern_matches (some (dict fs)) spec = matches_spec (observed fs) spec
  key_pattern_matches _ spec = ok false

  module _ (spec : List (String × ℤ)) (index_name : String) where
    -- `_plan_evidences_index`
    unfoldable mutual
      pub plan_evidences_index : Value → Result Bool
      plan_evidences_index (dict fs) =
          or_next (ok (name_is (get "indexName" fs) index_name))
            (or_next (key_pattern_matches (get "keyPattern" fs) spec) (any_value fs))
      plan_evidences_index (list vs) = any_item vs
      plan_evidences_index (tuple vs) = any_item vs
      plan_evidences_index _ = ok false

      pub any_item : Items → Result Bool
      any_item nil = ok false
      any_item (cons v vs) = or_next (plan_evidences_index v) (any_item vs)

      pub any_value : Fields → Result Bool
      any_value end = ok false
      any_value (field k v fs) = or_next (plan_evidences_index v) (any_value fs)

-- `_metric_improved`
unfoldable pub metric_improved : Evidence → Evidence → Bool
metric_improved before after =
    ltb after.metrics.total_keys_examined before.metrics.total_keys_examined
    || (ltb after.metrics.docs_examined before.metrics.docs_examined
        || ltb after.metrics.millis before.metrics.millis)

-- the dict of checks
pub record Checks : Type 0 where
  pub sort_removed : Bool
  pub selected_index_used : Bool
  pub metric_improved : Bool

-- `_verification_checks`
unfoldable pub verification_checks :
    Externals → Evidence → Evidence → Recommendation → String → Result Checks
verification_checks x before after recommendation index_name =
    plan_evidences_index x recommendation.index_spec index_name (dict after.explain_plan)
    >>= λ used. ok (record {
      sort_removed = not (has_blocking_sort after.metrics);
      selected_index_used = used;
      metric_improved = metric_improved before after;
    })

-- `all(checks.values())`
abbrev pub all_hold : Checks → Bool
all_hold c = c.sort_removed && (c.selected_index_used && c.metric_improved)

abbrev pub unless : Bool → String → List String
unless true s = []
unless false s = s ∷ []

-- `_verification_summary`
unfoldable pub verification_summary : Checks → String
verification_summary c =
    if all_hold c
    then "Verified ESR fix: SORT removed, recommended index evidenced, and at least one metric improved."
    else concat (
        "Verification failed strict checks: "
        ∷ join "; " (
            unless c.sort_removed "blocking SORT remains"
            ++ (unless c.selected_index_used "recommended index not evidenced in winning plan"
                ++ unless c.metric_improved "no keys/docs/millis metric improved"))
        ∷ "."
        ∷ [])
