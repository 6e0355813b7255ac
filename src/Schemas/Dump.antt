-- ===== src/Schemas/Dump.antt =====
-- `_freeze`, `_thaw` and `model_dump` of controller/schemas.py, for the models that are hashed.
use googlecloudhack.Prelude.{ℤ, pos, String, List, [], ◌∷◌, map}
use googlecloudhack.Externals.{Externals}
use googlecloudhack.Value.{
  Value, boolean, int, float, str, list, tuple, dict, Items, nil, cons, Fields, end, field,
  of_elements, of_items,
}
use googlecloudhack.Schemas.{EvidenceMetrics, Evidence, Recommendation, has_blocking_sort}

-- A value of JSON holds no set, so the branch on sets has no counterpart.
unfoldable mutual
  pub freeze : Value → Value
  freeze (dict fs) = dict (freeze_fields fs)
  freeze (tuple vs) = tuple (freeze_items vs)
  freeze (list vs) = tuple (freeze_items vs)
  freeze v = v

  pub freeze_items : Items → Items
  freeze_items nil = nil
  freeze_items (cons v vs) = cons (freeze v) (freeze_items vs)

  pub freeze_fields : Fields → Fields
  freeze_fields end = end
  freeze_fields (field k v fs) = field k (freeze v) (freeze_fields fs)

unfoldable mutual
  pub thaw : Value → Value
  thaw (dict fs) = dict (thaw_fields fs)
  thaw (tuple vs) = list (thaw_items vs)
  thaw v = v

  pub thaw_items : Items → Items
  thaw_items nil = nil
  thaw_items (cons v vs) = cons (thaw v) (thaw_items vs)

  pub thaw_fields : Fields → Fields
  thaw_fields end = end
  thaw_fields (field k v fs) = field k (thaw v) (thaw_fields fs)

abbrev pub str_list : List String → List Value
str_list ss = map (λ s. str s) ss

abbrev pub spec_pair : String × ℤ → Value
spec_pair (name, direction) = tuple (of_elements (str name ∷ int direction ∷ []))

module _ (x : Externals) where
  -- `metrics.model_dump(mode="python")`; the computed field comes last
  unfoldable pub dump_metrics : EvidenceMetrics → Value
  dump_metrics m = dict (
      of_items (
        ("docs_examined", int (pos m.docs_examined))
        ∷ ("docs_returned", int (pos m.docs_returned))
        ∷ ("millis", float (x.float_repr m.millis))
        ∷ ("total_keys_examined", int (pos m.total_keys_examined))
        ∷ ("stages", tuple (of_elements (str_list m.stages)))
        ∷ ("has_blocking_sort", boolean (has_blocking_sort m))
        ∷ []))

  -- the serializer thaws `query` and `explain_plan`
  unfoldable pub dump_evidence : Evidence → Value
  unfolding dump_metrics
  dump_evidence e = dict (
      of_items (
        ("query", thaw e.query)
        ∷ ("explain_plan", thaw (dict e.explain_plan))
        ∷ ("metrics", dump_metrics e.metrics)
        ∷ []))

  unfoldable pub dump_recommendation : Recommendation → Value
  dump_recommendation r = dict (
      of_items (
        ("index_spec", tuple (of_elements (map spec_pair r.index_spec)))
        ∷ ("rationale", str r.rationale)
        ∷ []))
