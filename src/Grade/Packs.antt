-- ===== src/Grade/Packs.antt =====
-- The grades of evals/grade.py that read packs and ledger records, as JSON.
use googlecloudhack.Prelude.{
  ℕ, nat_eq, ℤ, pos, eq_ℤ, String, ◌==◌, concat, Bool, true, false, ◌&&◌, is_nil, is_some, Option,
  none, some, List, [], ◌∷◌, ◌++◌, ◌+◌, map, Result, ok, err, raised, ◌>>=◌, if◌then◌else◌,
}
use googlecloudhack.Externals.{Externals}
use googlecloudhack.Value.{
  Value, null, boolean, int, float, str, list, tuple, dict, Items, nil, cons, Fields, end, field,
  get, is_str, is_truthy,
}
use googlecloudhack.Json.{int_text}
use googlecloudhack.PyText.{bool_text, list_text, text}
use googlecloudhack.Grade.{
  Check, expected_ledger_collections, agent_sourced_ledger, difference, get_value, sorted_text,
}

-- how many fields a dict has
abbrev field_count : Fields → ℕ
field_count end = 0
field_count (field k v fs) = field_count fs + 1

-- an int against a value
abbrev same_number : ℤ → Value → Bool
same_number n (int m) = eq_ℤ n m
same_number n (boolean b) = eq_ℤ n (pos (if b then 1 else 0))
same_number n (float r) = r == concat (int_text n ∷ ".0" ∷ [])
same_number n _ = false

-- `a == b`: a bool is the number 0 or 1, a list is no tuple, the order of a dict does not count, and a
-- float is an int where its text says so
unfoldable mutual
  pub same_value : Value → Value → Bool
  same_value null null = true
  same_value (str s) (str t) = s == t
  same_value (boolean a) w = same_number (pos (if a then 1 else 0)) w
  same_value (int n) w = same_number n w
  same_value (float r) (float q) = r == q
  same_value (float r) (int n) = r == concat (int_text n ∷ ".0" ∷ [])
  same_value (float r) (boolean b) = r == (if b then "1.0" else "0.0")
  same_value (list vs) (list ws) = same_items vs ws
  same_value (tuple vs) (tuple ws) = same_items vs ws
  same_value (dict fs) (dict gs) = nat_eq (field_count fs) (field_count gs) && same_fields fs gs
  same_value _ _ = false

  same_items : Items → Items → Bool
  same_items nil nil = true
  same_items (cons v vs) (cons w ws) = same_value v w && same_items vs ws
  same_items _ _ = false

  same_fields : Fields → Fields → Bool
  same_fields end gs = true
  same_fields (field k v fs) gs = elim (get k gs) [
    | none ↦ false
    | some w ↦ same_value v w && same_fields fs gs
  ]

abbrev pub is_false : Value → Bool
is_false (boolean false) = true
is_false _ = false

abbrev pub or_no_fields : Value → Fields
or_no_fields (dict fs) = fs
or_no_fields _ = end

-- `trace[0] if trace and isinstance(trace[0], dict) else {}`
abbrev pub first_event : Value → Fields
first_event (list (cons v vs)) = or_no_fields v
first_event (tuple (cons v vs)) = or_no_fields v
first_event _ = end

unfoldable pub is_gate_first : Fields → Fields → Fields → Bool
is_gate_first first gate pack =
    is_str (get_value "actor" first) "approval_gate"
    && (is_str (get_value "stage" first) "gate"
        && (is_str (get_value "state" gate) "pending_approval"
            && (same_value (get_value "required_hash" gate) (get_value "evidence_hash" pack)
                && is_false (get_value "mutation_allowed" gate))))

-- `records.get(key)` of records that are dicts
abbrev pub record_at : String → Fields → Option Fields
record_at key records = elim (get key records) [ some (dict fs) ↦ some fs | _ ↦ none ]

abbrev pub keeps_closed : Option Fields → Bool
keeps_closed none = false
keeps_closed (some pending) = is_false (get_value "mutation_allowed" pending)

unfoldable pub grade_approval_gate_records : Fields → Check
grade_approval_gate_records records =
    let opened = record_at "gate_opened" records in
    let pending = record_at "gate_pending" records in
    record {
      name = "approval_gate_ledger_records";
      passed = is_some opened && keeps_closed pending;
      detail =
          if is_some opened && keeps_closed pending
          then "gate-opened and gate-pending ledger records exist"
          else concat (
              "gate_opened="
              ∷ bool_text (is_some opened)
              ∷ "; gate_pending="
              ∷ bool_text (is_some pending)
              ∷ []);
    }

module _ (x : Externals) where
  unfoldable pub grade_approval_gate_first : Fields → Check
  grade_approval_gate_first pack =
      let first = first_event (get_value "agent_trace" pack) in
      let gate = or_no_fields (get_value "approval_gate" pack) in
      record {
        name = "approval_gate_first";
        passed = is_gate_first first gate pack;
        detail =
            if is_gate_first first gate pack
            then "first trace event is approval_gate/gate and gate is pending on the pack hash"
            else concat (
                "first="
                ∷ text x (get_value "actor" first)
                ∷ "/"
                ∷ text x (get_value "stage" first)
                ∷ "; gate_state="
                ∷ text x (get_value "state" gate)
                ∷ "; required_hash_matches="
                ∷ bool_text
                    (same_value (get_value "required_hash" gate) (get_value "evidence_hash" pack))
                ∷ []);
      }

  -- `records.get(collection, {}).get("source")`
  abbrev source_of : Fields → String → Value
  source_of records collection = elim (record_at collection records) [
    | none ↦ null
    | some fs ↦ get_value "source" fs
  ]

  abbrev mismatch_of : Value → String → List String
  mismatch_of source collection =
      if is_str source "agent_engine_tool"
      then []
      else concat (collection ∷ ":" ∷ (if is_truthy source then text x source else "missing") ∷ [])
        ∷ []

  -- the loop over the collections that an agent fills, in the order in which they are listed
  unfoldable pub source_mismatches : Fields → List String → List String
  source_mismatches records [] = []
  source_mismatches records (collection ∷ collections) =
      mismatch_of (source_of records collection) collection ++ source_mismatches records collections

  abbrev mismatches_in : Option Fields → List String
  mismatches_in none = []
  mismatches_in (some records) = source_mismatches records agent_sourced_ledger

  unfoldable pub grade_ledger_records : List String → Option Fields → Check
  grade_ledger_records collections_present records =
      let missing = difference expected_ledger_collections collections_present in
      let mismatches = mismatches_in records in
      record {
        name = "ledger_records_exist";
        passed = is_nil missing && is_nil mismatches;
        detail =
            if is_nil missing && is_nil mismatches
            then concat (
                "all expected collections present with Agent Engine sources: "
                ∷ sorted_text x collections_present
                ∷ [])
            else concat (
                "missing="
                ∷ sorted_text x missing
                ∷ "; source_mismatches="
                ∷ (if is_nil mismatches then "none" else list_text (map x.str_repr mismatches))
                ∷ []);
      }

-- `d.get(key, {})` of a value that must be a dict
abbrev dict_under : String → Value → Result Fields
dict_under key (dict fs) = elim (get key fs) [
  | none ↦ ok end
  | some (dict inner) ↦ ok inner
  | some _ ↦ err (raised "object has no attribute 'get'")
]
dict_under key _ = err (raised "object has no attribute 'get'")

-- `isinstance(v, int | float)`
abbrev is_number : Value → Bool
is_number (int n) = true
is_number (float r) = true
is_number (boolean b) = true
is_number _ = false

module _ (x : Externals) (less : Value → Value → Bool) where
  abbrev is_verified_fix :
      (diagnosed_pack verified_pack after_metrics : Fields)
      → (before_keys after_keys : Value) → Bool
  is_verified_fix diagnosed_pack verified_pack after_metrics before_keys after_keys =
      is_str (get_value "status" diagnosed_pack) "diagnosed"
      && (is_str (get_value "status" verified_pack) "verified"
          && (same_value (get_value "evidence_hash" diagnosed_pack)
                (get_value "evidence_hash" verified_pack)
              && (is_false (get_value "has_blocking_sort" after_metrics)
                  && (is_number before_keys
                      && (is_number after_keys && less after_keys before_keys)))))

  abbrev verified_check : Fields → Fields → (before_metrics after_metrics : Fields) → Check
  verified_check diagnosed_pack verified_pack before_metrics after_metrics =
      let before_keys = get_value "total_keys_examined" before_metrics in
      let after_keys = get_value "total_keys_examined" after_metrics in
      record {
        name = "approval_verifies_esr_fix";
        passed = is_verified_fix diagnosed_pack verified_pack after_metrics before_keys after_keys;
        detail = concat (
            "diagnosed="
            ∷ text x (get_value "status" diagnosed_pack)
            ∷ "; verified="
            ∷ text x (get_value "status" verified_pack)
            ∷ "; hash_unchanged="
            ∷ bool_text (
                same_value (get_value "evidence_hash" diagnosed_pack)
                  (get_value "evidence_hash" verified_pack))
            ∷ "; keys="
            ∷ text x before_keys
            ∷ "->"
            ∷ text x after_keys
            ∷ "; sort_after="
            ∷ text x (get_value "has_blocking_sort" after_metrics)
            ∷ []);
      }

  -- `less` is `<` on two numbers
  unfoldable pub grade_approval_verified : (diagnosed_pack verified_pack : Fields) → Result Check
  grade_approval_verified diagnosed_pack verified_pack =
      dict_under "before" (dict diagnosed_pack) >>= λ before.
      dict_under "metrics" (dict before) >>= λ before_metrics.
      dict_under "after" (dict verified_pack) >>= λ after.
      dict_under "metrics" (dict after) >>= λ after_metrics.
      ok (verified_check diagnosed_pack verified_pack before_metrics after_metrics)
