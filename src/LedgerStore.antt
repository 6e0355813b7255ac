-- ===== src/LedgerStore.antt =====
-- controller/ledger_store.py: the audit records of a run. The store is `FakeLedgerStore`;
-- `MongoLedgerStore.upsert` asks the driver for the same replacement. A ledger that is None is
-- `none`, and then nothing is written.
pub mod Dicts
pub mod Writes
use googlecloudhack.Prelude.{
  ℤ, pos, String, Bool, true, false, Option, none, some, List, [], ◌∷◌, ◌==◌, map, concat, Error,
  value_error, if◌then◌else◌,
}
use googlecloudhack.Prelude.Exec.{Exec, pure, raise, modify, ◌>>=◌, ◌>>◌}
use googlecloudhack.Externals.{Externals}
use googlecloudhack.Value.{
  Value, null, boolean, int, float, str, list, tuple, dict, Fields, end, field, put, of_elements,
  of_items,
}
use googlecloudhack.Phases
use googlecloudhack.Schemas.{
  DecisionAction, PackStatus, EvidenceMetrics, Evidence, Decision, EvidencePack, has_blocking_sort,
  status_value, status_is, action_is, action_value,
}
use googlecloudhack.Schemas.Dump.{spec_pair}
use googlecloudhack.Schemas.DumpJson.{opt_str, str_array, spec_array, evidence_json, pack_json}
use Dicts.{Records, upsert}

abbrev pub slow_queries : String
slow_queries = "slow_queries"

abbrev pub candidates : String
candidates = "candidates"

abbrev pub experiments : String
experiments = "experiments"

abbrev pub decisions : String
decisions = "decisions"

abbrev pub evidence_packs : String
evidence_packs = "evidence_packs"

abbrev pub approvals : String
approvals = "approvals"

abbrev pub applications : String
applications = "applications"

abbrev pub verifications : String
verifications = "verifications"

unfoldable pub record_id : String → String → String
record_id run_id event = concat (run_id ∷ ":" ∷ event ∷ [])

-- `a | b` on dicts
abbrev pub merge : Fields → List (String × Value) → Fields
merge fs [] = fs
merge fs ((k, v) ∷ kvs) = merge (put k v fs) kvs

abbrev pub base : EvidencePack → String → String → Fields
base p phase event = of_items (
    ("run_id", str p.run_id)
    ∷ ("namespace", str p.namespace)
    ∷ ("phase", str phase)
    ∷ ("event", str event)
    ∷ ("status", str (status_value p.status))
    ∷ ("evidence_hash", str p.evidence_hash)
    ∷ ("created_at", str p.created_at)
    ∷ [])

abbrev pub Ledger : Type 0
Ledger = Option Records

-- `if ledger is None: return`
abbrev pub when_some : Ledger → Exec Ledger (Unit {0}) → Exec Ledger (Unit {0})
when_some none m s = pure tt s
when_some (some r) m s = m s

abbrev pub on_records : (Records → Records) → Ledger → Ledger
on_records f none = none
on_records f (some r) = some (f r)

-- `ledger.upsert(...)`
abbrev pub write : String → String → Fields → Exec Ledger (Unit {0})
write collection id document = modify (on_records (upsert collection id document))

unfoldable pub write_gate_opened_record : String → String → String → Exec Ledger (Unit {0})
write_gate_opened_record run_id namespace created_at =
    write approvals (record_id run_id "gate:opened") (
      of_items (
        ("run_id", str run_id)
        ∷ ("namespace", str namespace)
        ∷ ("phase", str "gate")
        ∷ ("event", str "opened")
        ∷ ("status", str "collecting_evidence")
        ∷ ("created_at", str created_at)
        ∷ ("mutation_allowed", boolean false)
        ∷ []))

unfoldable pub write_gate_pending_record : EvidencePack → Exec Ledger (Unit {0})
write_gate_pending_record p = write approvals (record_id p.run_id "gate:pending") (
    merge (base p "gate" "pending_approval")
      (("required_hash", str p.evidence_hash) ∷ ("mutation_allowed", boolean false) ∷ []))

abbrev pub query_value : Fields → List (String × ℤ) → ℤ → Value
query_value query_filter query_sort limit = dict (
    of_items (
      ("filter", dict query_filter)
      ∷ ("sort", list (of_elements (map spec_pair query_sort)))
      ∷ ("limit", int limit)
      ∷ []))

module _ (x : Externals) where
  -- `_metrics`
  abbrev pub metrics_record : Evidence → Value
  metrics_record e = dict (
      of_items (
        ("docs_examined", int (pos e.metrics.docs_examined))
        ∷ ("docs_returned", int (pos e.metrics.docs_returned))
        ∷ ("millis", float (x.float_repr e.metrics.millis))
        ∷ ("total_keys_examined", int (pos e.metrics.total_keys_examined))
        ∷ ("stages", str_array e.metrics.stages)
        ∷ ("has_blocking_sort", boolean (has_blocking_sort e.metrics))
        ∷ []))

  abbrev pub opt_metrics : Option Evidence → Value
  opt_metrics none = null
  opt_metrics (some e) = metrics_record e

  unfoldable pub write_pack_record : EvidencePack → Exec Ledger (Unit {0})
  write_pack_record p = write evidence_packs p.run_id (pack_json x p)

  -- `source` is "deterministic_esr" where the caller does not give one
  unfoldable pub write_diagnosis_records :
      EvidencePack
      → Fields
      → List (String × ℤ)
      → ℤ
      → Option String
      → (source : String) → Exec Ledger (Unit {0})
  unfolding write_gate_pending_record write_pack_record
  write_diagnosis_records p query_filter query_sort limit current_index source = do
    write slow_queries (record_id p.run_id "diagnose:slow_query") (
        merge (base p "diagnose" "slow_query") (
          ("query", query_value query_filter query_sort limit)
          ∷ ("evidence", evidence_json x p.before)
          ∷ ("source", str source)
          ∷ []))
    write candidates (record_id p.run_id "diagnose:candidate") (
        merge (base p "diagnose" "candidate") (
          ("index_spec", spec_array p.recommendation.index_spec)
          ∷ ("rationale", str p.recommendation.rationale)
          ∷ ("source", str source)
          ∷ ("selected", boolean true)
          ∷ []))
    write experiments (record_id p.run_id "diagnose:before") (
        merge (base p "diagnose" "before_explain") (
          ("hint", opt_str current_index)
          ∷ ("outcome", metrics_record p.before)
          ∷ ("blocking_sort_detected", boolean (has_blocking_sort p.before.metrics))
          ∷ ("source", str source)
          ∷ []))
    write_gate_pending_record p
    write_pack_record p

  abbrev pub decision_record : EvidencePack → Option Decision → Exec Ledger (Unit {0})
  decision_record p none = raise (value_error "decision record requires a decided pack")
  decision_record p (some d) = write decisions (record_id p.run_id "approve:decision") (
      merge (base p "approve" "decision") (
        ("action", str (action_value d.action))
        ∷ ("decision_phase", str (Phases.value d.phase))
        ∷ ("decision_evidence_hash", str d.evidence_hash)
        ∷ []))

  -- `_write_decision_record`
  unfoldable pub write_decision_record : EvidencePack → Exec Ledger (Unit {0})
  write_decision_record p = decision_record p p.decision

  abbrev pub approval_event : Decision → String
  approval_event d = if action_is d.action DecisionAction.approve then "approval" else "rejection"

  abbrev pub approval_record :
      EvidencePack → (approver note : String) → Option Decision → Exec Ledger (Unit {0})
  approval_record p approver note none =
      raise (value_error "approval record requires a decided pack")
  approval_record p approver note (some d) =
      write approvals (record_id p.run_id (concat ("approve:" ∷ approval_event d ∷ []))) (
        merge (base p "approve" (approval_event d)) (
          ("approver", str approver)
          ∷ ("note", str note)
          ∷ ("action", str (action_value d.action))
          ∷ ("decision_evidence_hash", str d.evidence_hash)
          ∷ []))

  -- `_write_approval_record`
  unfoldable pub write_approval_record :
      EvidencePack → (approver note : String) → Exec Ledger (Unit {0})
  write_approval_record p approver note = approval_record p approver note p.decision

  rejection_records : EvidencePack → (approver note : String) → Exec Ledger (Unit {0})
  unfolding write_decision_record write_approval_record write_pack_record
  rejection_records p approver note = do
    write_decision_record p
    write_approval_record p approver note
    write_pack_record p

  unfoldable pub write_rejection_records :
      EvidencePack → (approver note : String) → Exec Ledger (Unit {0})
  unfolding rejection_records
  write_rejection_records p approver note s = when_some s (rejection_records p approver note) s

  application_records : EvidencePack → (approver note index_name : String) → Exec Ledger (Unit {0})
  unfolding write_decision_record write_approval_record write_pack_record
  application_records p approver note index_name = do
    write_decision_record p
    write_approval_record p approver note
    write applications (record_id p.run_id "approve:application") (
        merge (base p "approve" "application") (
          ("index_name", str index_name)
          ∷ ("index_spec", spec_array p.recommendation.index_spec)
          ∷ ("status", str "applied")
          ∷ []))
    write verifications (record_id p.run_id "verify:verification") (
        merge (base p "verify" "verification") (
          ("outcome", str (if status_is p.status PackStatus.verified then "passed" else "failed"))
          ∷ ("before", metrics_record p.before)
          ∷ ("after", opt_metrics p.after)
          ∷ []))
    write_pack_record p

  unfoldable pub write_application_records :
      EvidencePack → (approver note index_name : String) → Exec Ledger (Unit {0})
  unfolding application_records
  write_application_records p approver note index_name s =
      when_some s (application_records p approver note index_name) s
