-- ===== src/Orchestrator/Evidenced.antt =====
-- What the checks of `apply_and_verify` in controller/orchestrator.py mean, stated without the code.
use mathlib.Core.Option.{some-injective}
use googlecloudhack.Prelude.{
  ◌<◌, ℤ, String, ◌≡◌, ◌↔◌, ◌⊎◌, refl, inl, inr, Bool, true, false, not, Option, some, none, List,
  Result, ok, err, arith, elem,
}
use googlecloudhack.Externals.{Externals}
use googlecloudhack.Value.{
  Value, str, list, tuple, dict, Items, nil, cons, Fields, end, field, get, is_str_iff,
}
use googlecloudhack.Schemas.{Evidence, Recommendation, has_blocking_sort}
use googlecloudhack.Orchestrator.Patterns.{
  Matches, IsFinite, FiniteItems, FiniteFields, key_pattern_matches-Matches,
  Matches-key_pattern_matches, key_pattern_matches-total,
}
use googlecloudhack.Orchestrator.Checks.{
  Checks, or_next, name_is, key_pattern_matches, plan_evidences_index, any_item, any_value,
  metric_improved, verification_checks, all_hold,
}

module _ (x : Externals) (spec : List (String × ℤ)) (index_name : String) where
  -- The stage names the index, or its key pattern is the index's.
  abbrev pub Names : Fields → Type 0
  Names fs = (get "indexName" fs ≡ some (str index_name)) ⊎ Matches x (get "keyPattern" fs) spec

  -- Some mapping inside the plan, at any depth, names the index.
  mutual
    pub data Evidences : Value → Type 0 where
      at : {fs : Fields} → Names fs → Evidences (dict fs)
      below : {fs : Fields} → InFields fs → Evidences (dict fs)
      in_list : {vs : Items} → InItems vs → Evidences (list vs)
      in_tuple : {vs : Items} → InItems vs → Evidences (tuple vs)

    pub data InItems : Items → Type 0 where
      this_item : {v : Value} {vs : Items} → Evidences v → InItems (cons v vs)
      later_item : {v : Value} {vs : Items} → InItems vs → InItems (cons v vs)

    pub data InFields : Fields → Type 0 where
      this_entry : {k : String} {v : Value} {fs : Fields} → Evidences v → InFields (field k v fs)
      later_entry : {k : String} {v : Value} {fs : Fields} → InFields fs → InFields (field k v fs)

or_cases : (a b : Result Bool) → or_next a b ≡ ok true → (a ≡ ok true) ⊎ (b ≡ ok true)
or_cases (ok true) b h = inl refl
or_cases (ok false) b h = inr h
or_cases (err exc) b h = cc

-- a call that returns
abbrev Returns : Result Bool → Type 0
Returns r = (b : Bool) × (r ≡ ok b)

or_right : (a b : Result Bool) → Returns a → b ≡ ok true → or_next a b ≡ ok true
or_right a b (true, e) h = rw e refl
or_right a b (false, e) h = rw (e, h) refl

or_total : (a b : Result Bool) → Returns a → Returns b → Returns (or_next a b)
or_total a b (true, e) r = (true, rw e refl)
or_total a b (false, e) (c, e') = (c, rw (e, e') refl)

name_is_iff : (o : Option Value) (s : String) → (name_is o s ≡ true) ↔ (o ≡ some (str s))
name_is_iff none s = (λ h. cc, λ h. cc)
name_is_iff (some v) s =
    (λ h. rw ((is_str_iff v s).0 h) refl, λ h. (is_str_iff v s).1 (some-injective _ _ h))

module _ (x : Externals) (spec : List (String × ℤ)) (index_name : String) where
  abbrev own_name : Fields → Bool
  own_name fs = name_is (get "indexName" fs) index_name

  abbrev own_pattern : Fields → Result Bool
  own_pattern fs = key_pattern_matches x (get "keyPattern" fs) spec

  mutual
    unfolding plan_evidences_index

    Evidences-plan_evidences_index :
        (v : Value)
        → plan_evidences_index x spec index_name v ≡ ok true
        → Evidences x spec index_name v
    Evidences-plan_evidences_index (dict fs) h = elim (or_cases (ok (own_name fs)) _ h) [
      | inl e ↦ at (inl ((name_is_iff (get "indexName" fs) index_name).0 cc))
      | inr k ↦ elim (or_cases (own_pattern fs) _ k) [
        | inl e ↦ at (inr (key_pattern_matches-Matches x (get "keyPattern" fs) spec e))
        | inr e ↦ below (any_value_sound fs e)
      ]
    ]
    Evidences-plan_evidences_index (list vs) h = in_list (any_item_sound vs h)
    Evidences-plan_evidences_index (tuple vs) h = in_tuple (any_item_sound vs h)
    Evidences-plan_evidences_index _ h = cc

    any_item_sound :
        (vs : Items) → any_item x spec index_name vs ≡ ok true → InItems x spec index_name vs
    any_item_sound nil h = cc
    any_item_sound (cons v vs) h = elim (or_cases (plan_evidences_index x spec index_name v) _ h) [
      | inl e ↦ this_item (Evidences-plan_evidences_index v e)
      | inr e ↦ later_item (any_item_sound vs e)
    ]

    any_value_sound :
        (fs : Fields) → any_value x spec index_name fs ≡ ok true → InFields x spec index_name fs
    any_value_sound end h = cc
    any_value_sound (field k v fs) h =
        elim (or_cases (plan_evidences_index x spec index_name v) _ h) [
          | inl e ↦ this_entry (Evidences-plan_evidences_index v e)
          | inr e ↦ later_entry (any_value_sound fs e)
        ]

  -- without an infinite float the search returns
  mutual
    unfolding plan_evidences_index

    plan_evidences_index-total :
        (v : Value) → IsFinite x v → Returns (plan_evidences_index x spec index_name v)
    plan_evidences_index-total (dict fs) f =
        or_total (ok (own_name fs)) _ (own_name fs, refl)
          (or_total (own_pattern fs) _ (key_pattern_matches-total x fs spec f)
            (any_value_total fs f))
    plan_evidences_index-total (list vs) f = any_item_total vs f
    plan_evidences_index-total (tuple vs) f = any_item_total vs f
    plan_evidences_index-total _ f = (false, refl)

    any_item_total : (vs : Items) → FiniteItems x vs → Returns (any_item x spec index_name vs)
    any_item_total nil f = (false, refl)
    any_item_total (cons v vs) (f, fs) =
        or_total (plan_evidences_index x spec index_name v) _ (plan_evidences_index-total v f)
          (any_item_total vs fs)

    any_value_total : (fs : Fields) → FiniteFields x fs → Returns (any_value x spec index_name fs)
    any_value_total end f = (false, refl)
    any_value_total (field k v fs) (f, rest) =
        or_total (plan_evidences_index x spec index_name v) _ (plan_evidences_index-total v f)
          (any_value_total fs rest)

  mutual
    unfolding plan_evidences_index

    plan_evidences_index-Evidences :
        {v : Value}
        → IsFinite x v
        → Evidences x spec index_name v
        → plan_evidences_index x spec index_name v ≡ ok true
    plan_evidences_index-Evidences f (at {fs} (inl e)) =
        rw ((name_is_iff (get "indexName" fs) index_name).1 e) refl
    plan_evidences_index-Evidences f (at {fs} (inr e)) =
        or_right (ok (own_name fs)) _ (own_name fs, refl)
          (rw (Matches-key_pattern_matches x (get "keyPattern" fs) spec e) refl)
    plan_evidences_index-Evidences f (below {fs} h) =
        or_right (ok (own_name fs)) _ (own_name fs, refl)
          (or_right (own_pattern fs) _ (key_pattern_matches-total x fs spec f)
            (any_value_complete f h))
    plan_evidences_index-Evidences f (in_list h) = any_item_complete f h
    plan_evidences_index-Evidences f (in_tuple h) = any_item_complete f h

    any_item_complete :
        {vs : Items}
        → FiniteItems x vs
        → InItems x spec index_name vs
        → any_item x spec index_name vs ≡ ok true
    any_item_complete (f, fs) (this_item h) = rw (plan_evidences_index-Evidences f h) refl
    any_item_complete (f, fs) (later_item {v} h) =
        or_right (plan_evidences_index x spec index_name v) _ (plan_evidences_index-total v f)
          (any_item_complete fs h)

    any_value_complete :
        {fs : Fields}
        → FiniteFields x fs
        → InFields x spec index_name fs
        → any_value x spec index_name fs ≡ ok true
    any_value_complete (f, fs) (this_entry h) = rw (plan_evidences_index-Evidences f h) refl
    any_value_complete (f, fs) (later_entry {v} h) =
        or_right (plan_evidences_index x spec index_name v) _ (plan_evidences_index-total v f)
          (any_value_complete fs h)

-- The fix is shown by the evidence: no stage is a blocking sort, the plan evidences the index, and
-- the keys, the documents or the time went down.
pub record IsFixed (x : Externals) (before after : Evidence) (r : Recommendation) (name : String)
    : Type 0 where
  pub no_sort : elem "SORT" after.metrics.stages ≡ false
  pub evidenced : Evidences x r.index_spec name (dict after.explain_plan)
  pub improved :
      (after.metrics.total_keys_examined < before.metrics.total_keys_examined)
      ⊎ (after.metrics.docs_examined < before.metrics.docs_examined)
      ⊎ (after.metrics.millis < before.metrics.millis)

-- For a plan in which no float is infinite the checks return, and all of them hold exactly when the
-- evidence shows the fix: a mapping in the plan has the name of the index or its key pattern, field for
-- field and direction for direction.
pub verification_checks_iff :
    (x : Externals) (before after : Evidence) (r : Recommendation) (name : String)
    → FiniteFields x after.explain_plan
    → (checks : Checks) × (verification_checks x before after r name ≡ ok checks)
      × ((all_hold checks ≡ true) ↔ IsFixed x before after r name)
unfolding verification_checks metric_improved has_blocking_sort
verification_checks_iff x before after r name f =
    let plan = dict after.explain_plan in
    let (used, e) = plan_evidences_index-total x r.index_spec name plan f in
    let sound : used ≡ true → Evidences x r.index_spec name plan =
      λ h. Evidences-plan_evidences_index x r.index_spec name plan cc in
    let complete : Evidences x r.index_spec name plan → used ≡ true =
      λ h. let e' = plan_evidences_index-Evidences x r.index_spec name f h in cc in
    (
      record {
        sort_removed = not (has_blocking_sort after.metrics);
        selected_index_used = used;
        metric_improved = metric_improved before after;
      },
      rw e refl,
      (
        λ h. record {
          no_sort = ground arith;
          evidenced = sound (ground arith);
          improved = ground arith;
        },
        λ fixed. let u = complete fixed.evidenced in ground (arith, fixed.no_sort, fixed.improved),
      ),
    )
