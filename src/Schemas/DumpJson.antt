-- ===== src/Schemas/DumpJson.antt =====
-- `model_dump(mode="json")` of the models in controller/schemas.py: an enum is its value, a tuple is
-- a list, None is null.
use googlecloudhack.Prelude.{ℤ, pos, String, Option, none, some, List, [], ◌∷◌, map}
use googlecloudhack.Externals.{Externals}
use googlecloudhack.Value.{
  Value, null, boolean, int, float, str, list, dict, Fields, of_elements, of_items,
}
use googlecloudhack.Phases
use googlecloudhack.Schemas.{
  AgentTraceStage, AgentTraceActor, AgentTraceStatus, ApprovalGateState, EvidenceMetrics, Evidence,
  Finding, Recommendation, Decision, PhaseTransition, AgentTraceEvent, ApprovalGate, EvidencePack,
  has_blocking_sort, status_value, action_value, severity_value,
}
use googlecloudhack.Schemas.Dump.{thaw}

abbrev pub opt_str : Option String → Value
opt_str none = null
opt_str (some s) = str s

abbrev pub str_array : List String → Value
str_array ss = list (of_elements (map (λ s. str s) ss))

abbrev pub stage_value : AgentTraceStage → String
stage_value AgentTraceStage.gate = "gate"
stage_value AgentTraceStage.detect = "detect"
stage_value AgentTraceStage.diagnose = "diagnose"
stage_value AgentTraceStage.candidate = "candidate"
stage_value AgentTraceStage.rationale = "rationale"
stage_value AgentTraceStage.approve = "approve"
stage_value AgentTraceStage.apply = "apply"
stage_value AgentTraceStage.verify = "verify"

abbrev pub actor_value : AgentTraceActor → String
actor_value AgentTraceActor.approval_gate = "approval_gate"
actor_value AgentTraceActor.agent_engine = "agent_engine"
actor_value AgentTraceActor.deterministic_controller = "deterministic_controller"
actor_value AgentTraceActor.human = "human"

abbrev pub trace_status_value : AgentTraceStatus → String
trace_status_value AgentTraceStatus.ok = "ok"
trace_status_value AgentTraceStatus.drift = "drift"
trace_status_value AgentTraceStatus.failed = "failed"

abbrev pub gate_state_value : ApprovalGateState → String
gate_state_value ApprovalGateState.collecting_evidence = "collecting_evidence"
gate_state_value ApprovalGateState.pending_approval = "pending_approval"
gate_state_value ApprovalGateState.approved = "approved"
gate_state_value ApprovalGateState.rejected = "rejected"
gate_state_value ApprovalGateState.verified = "verified"

abbrev pub spec_array : List (String × ℤ) → Value
spec_array spec =
    list (of_elements (map (λ (name, d). list (of_elements (str name ∷ int d ∷ []))) spec))

abbrev pub opt_phase : Option Phases.Phase → Value
opt_phase none = null
opt_phase (some p) = str (Phases.value p)

unfoldable pub transition_json : PhaseTransition → Value
transition_json t = dict (
    of_items (
      ("from_phase", opt_phase t.from_phase)
      ∷ ("to_phase", str (Phases.value t.to_phase))
      ∷ ("note", str t.note)
      ∷ []))

unfoldable pub event_json : AgentTraceEvent → Value
event_json e = dict (
    of_items (
      ("stage", str (stage_value e.stage))
      ∷ ("actor", str (actor_value e.actor))
      ∷ ("status", str (trace_status_value e.status))
      ∷ ("summary", str e.summary)
      ∷ ("component", opt_str e.component)
      ∷ ("resource", opt_str e.resource)
      ∷ ("tool", opt_str e.tool)
      ∷ ("ledger_ref", opt_str e.ledger_ref)
      ∷ []))

unfoldable pub gate_json : ApprovalGate → Value
gate_json g = dict (
    of_items (
      ("gate_id", str g.gate_id)
      ∷ ("state", str (gate_state_value g.state))
      ∷ ("required_hash", opt_str g.required_hash)
      ∷ ("approved_hash", opt_str g.approved_hash)
      ∷ ("approver", opt_str g.approver)
      ∷ ("mutation_allowed", boolean g.mutation_allowed)
      ∷ ("ledger_ref", opt_str g.ledger_ref)
      ∷ []))

unfoldable pub finding_json : Finding → Value
finding_json f = dict (
    of_items (
      ("problem", str f.problem)
      ∷ ("severity", str (severity_value f.severity))
      ∷ ("evidence_refs", str_array f.evidence_refs)
      ∷ []))

unfoldable pub recommendation_json : Recommendation → Value
recommendation_json r =
    dict (of_items (("index_spec", spec_array r.index_spec) ∷ ("rationale", str r.rationale) ∷ []))

unfoldable pub decision_json : Decision → Value
decision_json d = dict (
    of_items (
      ("action", str (action_value d.action))
      ∷ ("evidence_hash", str d.evidence_hash)
      ∷ ("phase", str (Phases.value d.phase))
      ∷ []))

abbrev pub opt_decision : Option Decision → Value
opt_decision none = null
opt_decision (some d) = decision_json d

abbrev pub opt_gate : Option ApprovalGate → Value
opt_gate none = null
opt_gate (some g) = gate_json g

module _ (x : Externals) where
  unfoldable pub metrics_json : EvidenceMetrics → Value
  metrics_json m = dict (
      of_items (
        ("docs_examined", int (pos m.docs_examined))
        ∷ ("docs_returned", int (pos m.docs_returned))
        ∷ ("millis", float (x.float_repr m.millis))
        ∷ ("total_keys_examined", int (pos m.total_keys_examined))
        ∷ ("stages", str_array m.stages)
        ∷ ("has_blocking_sort", boolean (has_blocking_sort m))
        ∷ []))

  unfoldable pub evidence_json : Evidence → Value
  evidence_json e = dict (
      of_items (
        ("query", thaw e.query)
        ∷ ("explain_plan", thaw (dict e.explain_plan))
        ∷ ("metrics", metrics_json e.metrics)
        ∷ []))

  abbrev pub opt_evidence : Option Evidence → Value
  opt_evidence none = null
  opt_evidence (some e) = evidence_json e

  unfoldable pub pack_json : EvidencePack → Fields
  pack_json p = of_items (
      ("version", str "v1")
      ∷ ("run_id", str p.run_id)
      ∷ ("namespace", str p.namespace)
      ∷ ("status", str (status_value p.status))
      ∷ ("before", evidence_json p.before)
      ∷ ("after", opt_evidence p.after)
      ∷ ("finding", finding_json p.finding)
      ∷ ("recommendation", recommendation_json p.recommendation)
      ∷ ("decision", opt_decision p.decision)
      ∷ ("phase_log", list (of_elements (map transition_json p.phase_log)))
      ∷ ("agent_trace", list (of_elements (map event_json p.agent_trace)))
      ∷ ("approval_gate", opt_gate p.approval_gate)
      ∷ ("evidence_hash", str p.evidence_hash)
      ∷ ("created_at", str p.created_at)
      ∷ ("narrative", opt_str p.narrative)
      ∷ [])
