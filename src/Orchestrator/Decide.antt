-- ===== src/Orchestrator/Decide.antt =====
-- `apply_and_verify` and `reject_pack` of controller/orchestrator.py: what follows a human's decision.
use googlecloudhack.Prelude.{
  String, Bool, not, Option, none, some, List, [], ◌∷◌, ◌++◌, concat, Result, ok, value_error,
  raise_if, if◌then◌else◌, ◌>>=◌ as bind,
}
use googlecloudhack.Prelude.Exec.{Exec, pure, lift, ◌>>=◌, ◌>>◌}
use googlecloudhack.Externals.{Externals}
use googlecloudhack.Phases
use googlecloudhack.Phases.{Phase, assert_phase_transition}
use googlecloudhack.Schemas.{
  DecisionAction, AgentTraceStage, AgentTraceActor, AgentTraceStatus, PackStatus, ApprovalGateState,
  Evidence, Decision, PhaseTransition, AgentTraceEvent, EvidencePack, gate_state_is,
}
use googlecloudhack.Schemas.Validators.{make_decision}
use googlecloudhack.Pack.{build_pack}
use googlecloudhack.Backends.{by_keys, Backend}
use googlecloudhack.LedgerStore.{
  write_rejection_records, write_application_records, approvals, applications, verifications,
}
use googlecloudhack.Orchestrator.Checks.{
  Checks, recommended_index_name, verification_checks, verification_summary, all_hold,
}
use googlecloudhack.Orchestrator.Gate.{
  ApprovalTicket, ledger_ref, approval_gate, assert_diagnosed, gate_of, assert_ticket_allows_apply,
}
use googlecloudhack.Orchestrator.Actions.{
  Query, Narrator, State, on_database, on_ledger, maybe_narrate,
}

abbrev pub step : Phase → Phase → PhaseTransition
step p q = record { from_phase = some p; to_phase = q; note = "" }

abbrev pub event :
    AgentTraceStage
    → AgentTraceActor
    → AgentTraceStatus
    → (summary : String) → Option String
    → (ref : String) → AgentTraceEvent
event stage actor status summary tool ref = record {
  stage = stage;
  actor = actor;
  status = status;
  summary = summary;
  component = none;
  resource = none;
  tool = tool;
  ledger_ref = some ref;
}

abbrev pub ok_event :
    AgentTraceStage
    → AgentTraceActor
    → (summary : String) → Option String
    → (ref : String) → AgentTraceEvent
ok_event stage actor summary tool ref = event stage actor AgentTraceStatus.ok summary tool ref

-- the events up to the application
abbrev pub approval_trace :
    EvidencePack → ApprovalTicket → (index_name : String) → List AgentTraceEvent
approval_trace p ticket index_name =
    p.agent_trace
    ++ ok_event AgentTraceStage.approve AgentTraceActor.human
        (concat ("Approved by " ∷ ticket.approver ∷ "." ∷ [])) none
        (ledger_ref approvals p.run_id "approve:approval")
      ∷ ok_event AgentTraceStage.gate AgentTraceActor.approval_gate
          "Approval gate issued a one-time apply ticket." (some "approval_gate")
          (ledger_ref approvals p.run_id "approve:approval")
      ∷ ok_event AgentTraceStage.apply AgentTraceActor.deterministic_controller
          (concat ("Applied approved index " ∷ index_name ∷ "." ∷ [])) (some "apply_index")
          (ledger_ref applications p.run_id "approve:application")
      ∷ []

-- the log after an approval
abbrev pub approved_log : EvidencePack → List PhaseTransition
approved_log p =
    p.phase_log ++ step Phases.diagnose Phases.approve ∷ step Phases.approve Phases.verify ∷ []

abbrev pub status_of : Bool → PackStatus
status_of verified = if verified then PackStatus.verified else PackStatus.approved

abbrev pub gate_state_of : Bool → ApprovalGateState
gate_state_of verified = if verified then ApprovalGateState.verified else ApprovalGateState.approved

abbrev pub verify_status : Bool → AgentTraceStatus
verify_status verified = if verified then AgentTraceStatus.ok else AgentTraceStatus.failed

-- what comes before the mutation: the guards, the transitions and the decision
unfoldable pub approve_decision : EvidencePack → ApprovalTicket → Result Decision
approve_decision p ticket = bind (assert_diagnosed "apply+verify" p) λ _.
    bind (assert_ticket_allows_apply p ticket) λ _.
      bind (assert_phase_transition Phases.diagnose Phases.approve) λ _.
        bind (make_decision DecisionAction.approve p.evidence_hash Phases.approve)
          λ decision. bind (assert_phase_transition Phases.approve Phases.verify) λ _. ok decision

module _ (x : Externals) where
  abbrev pub checks_for : EvidencePack → (after : Evidence) → Result Checks
  checks_for p after =
      verification_checks x p.before after p.recommendation
        (recommended_index_name p.recommendation)

  abbrev pub verify_event : EvidencePack → Checks → AgentTraceEvent
  verify_event p checks =
      event AgentTraceStage.verify AgentTraceActor.deterministic_controller
        (verify_status (all_hold checks)) (verification_summary checks) (some "explain")
        (ledger_ref verifications p.run_id "verify:verification")

  -- what comes after the explain: the checks, the status and the new pack
  unfoldable pub verified_pack :
      EvidencePack → ApprovalTicket → Decision → (after : Evidence) → Result EvidencePack
  verified_pack p ticket decision after = bind (checks_for p after) λ checks.
      bind
        (approval_gate p.run_id (gate_state_of (all_hold checks)) (some p.evidence_hash)
          (some ticket.evidence_hash) (some ticket.approver)
          (ledger_ref approvals p.run_id "approve:approval"))
        λ gate.
          build_pack x p.run_id p.namespace p.created_at p.before p.finding p.recommendation
            (status_of (all_hold checks)) (some after) (some decision) (approved_log p)
            (approval_trace p ticket (recommended_index_name p.recommendation)
              ++ verify_event p checks ∷ [])
            (some gate) p.narrative

  module _ {W : Type 0} (backend : Backend W) where
    unfoldable pub apply_and_verify :
        EvidencePack → ApprovalTicket → Query → Option Narrator → Exec (State W) EvidencePack
    apply_and_verify p ticket query narrator = do
      decision ← lift (approve_decision p ticket)
      let index_name = recommended_index_name p.recommendation
      on_database (backend.apply_index p.recommendation.index_spec index_name)
      after ← on_database (
          backend.explain query.filter query.sort query.limit (by_keys p.recommendation.index_spec))
      built ← lift (verified_pack p ticket decision after)
      updated ← lift (maybe_narrate built narrator)
      on_ledger (write_application_records x updated ticket.approver ticket.note index_name)
      pure updated

  unfoldable pub rejected_pack : EvidencePack → (approver : String) → Result EvidencePack
  rejected_pack p approver =
      let ref = ledger_ref approvals p.run_id "approve:rejection" in
      bind (assert_diagnosed "reject" p) λ _.
        bind (gate_of "can only reject a pack with an approval gate" p.approval_gate) λ g.
          bind
            (raise_if (not (gate_state_is g.state ApprovalGateState.pending_approval))
              (value_error "can only reject a pack with a pending approval gate"))
            λ _. bind (assert_phase_transition Phases.diagnose Phases.approve) λ _.
              bind (make_decision DecisionAction.reject p.evidence_hash Phases.approve) λ decision.
                bind
                  (approval_gate p.run_id ApprovalGateState.rejected (some p.evidence_hash) none
                    (some approver) ref)
                  λ gate.
                    build_pack x p.run_id p.namespace p.created_at p.before p.finding
                      p.recommendation PackStatus.rejected none (some decision)
                      (p.phase_log ++ step Phases.diagnose Phases.approve ∷ [])
                      (p.agent_trace
                        ++ ok_event AgentTraceStage.approve AgentTraceActor.human
                            (concat ("Rejected by " ∷ approver ∷ "." ∷ [])) none ref
                          ∷ ok_event AgentTraceStage.gate AgentTraceActor.approval_gate
                              "Approval gate closed as rejected." (some "approval_gate") ref
                          ∷ [])
                      (some gate) p.narrative

  unfoldable pub reject_pack :
      {W : Type 0} → EvidencePack → (approver note : String) → Exec (State W) EvidencePack
  reject_pack p approver note = do
    rejected ← lift (rejected_pack p approver)
    on_ledger (write_rejection_records x rejected approver note)
    pure rejected
