-- ===== src/Orchestrator/Rejection.antt =====
-- How `reject_pack` of controller/orchestrator.py ends: a rejection never touches the database.
use mathlib.Core.Path.{subst}
use mathlib.Core.Option.{some-injective}
use googlecloudhack.Prelude.{
  String, ◌≡◌, refl, sym, inl, inr, ◌∙◌, none, some, [], ◌∷◌, ◌++◌, concat, ok, arith, Result-cases,
}
use googlecloudhack.Externals.{Externals}
use googlecloudhack.Phases
use googlecloudhack.Phases.{assert_phase_transition}
use googlecloudhack.Schemas.{
  DecisionAction, AgentTraceStage, AgentTraceActor, PackStatus, ApprovalGateState, Decision,
  ApprovalGate, EvidencePack,
}
use googlecloudhack.Schemas.Validators.{make_decision}
use googlecloudhack.Schemas.Validity.{IsValid, GateFits, validate_pack_iff}
use googlecloudhack.Pack.{pack_evidence_hash, build_pack}
use googlecloudhack.LedgerStore.{Ledger, approvals, write_rejection_records}
use googlecloudhack.LedgerStore.Writes.{write_rejection_records_ok}
use googlecloudhack.Orchestrator.Gate.{ledger_ref}
use googlecloudhack.Orchestrator.Actions.{State}
use googlecloudhack.Orchestrator.Decide.{step, ok_event, rejected_pack, reject_pack}
use googlecloudhack.Orchestrator.Verdict.{
  gate_record, approval_gate_total, hash_ok, pack_evidence_hash-eq-expected_hash,
}

abbrev pub rejection_of : EvidencePack → Decision
rejection_of p = record {
  action = DecisionAction.reject;
  evidence_hash = p.evidence_hash;
  phase = Phases.approve;
}

module _ (p : EvidencePack) (approver : String) where
  abbrev rejection_ref : String
  rejection_ref = ledger_ref approvals p.run_id "approve:rejection"

  abbrev rejection_gate : ApprovalGate
  rejection_gate =
      gate_record p.run_id ApprovalGateState.rejected (some p.evidence_hash) none (some approver)
        rejection_ref

  -- the pack that a rejection leads to
  abbrev pub closed_pack : EvidencePack
  closed_pack = record p {
    status = PackStatus.rejected;
    after = none;
    decision = some (rejection_of p);
    phase_log = p.phase_log ++ step Phases.diagnose Phases.approve ∷ [];
    agent_trace =
        p.agent_trace
        ++ ok_event AgentTraceStage.approve AgentTraceActor.human
            (concat ("Rejected by " ∷ approver ∷ "." ∷ [])) none rejection_ref
          ∷ ok_event AgentTraceStage.gate AgentTraceActor.approval_gate
              "Approval gate closed as rejected." (some "approval_gate") rejection_ref
          ∷ [];
    approval_gate = some rejection_gate;
  }

  closed_pack-IsValid : (x : Externals) → IsValid x p → IsValid x closed_pack
  closed_pack-IsValid x valid = record {
    run_id = valid.run_id;
    namespace = valid.namespace;
    created_at = valid.created_at;
    hash_format = valid.hash_format;
    hash_binds = valid.hash_binds;
    decision_binds = λ d e. ground arith;
    decided = ((rejection_of p, refl, refl), refl);
    gate_closed = λ g e. ground arith;
    gate_required = λ g h e f. ground arith;
    gate_approved = λ g h e f. ground arith;
    gate_fits = λ g e.
        subst (λ h. GateFits PackStatus.rejected h p.evidence_hash) (some-injective _ _ e)
          (refl, cc);
  }

  rejected_pack-total :
      (x : Externals) (g : ApprovalGate)
      → IsValid x p
      → p.status ≡ PackStatus.diagnosed
      → p.approval_gate ≡ some g
      → rejected_pack x p approver ≡ ok closed_pack
  unfolding rejected_pack build_pack make_decision assert_phase_transition
  rejected_pack-total x g valid diagnosed e =
      let fits : GateFits PackStatus.diagnosed g p.evidence_hash =
        subst (λ s. GateFits s g p.evidence_hash) diagnosed (valid.gate_fits g e) in
      let hash : pack_evidence_hash x p.before p.recommendation ≡ p.evidence_hash =
        pack_evidence_hash-eq-expected_hash x p.before p.recommendation ∙ sym valid.hash_binds in
      simp (
        diagnosed,
        e,
        fits.0,
        valid.hash_format,
        approval_gate_total p.run_id ApprovalGateState.rejected (some p.evidence_hash) none
            (some approver) rejection_ref (hash_ok p.evidence_hash valid.hash_format) refl,
        hash,
        (validate_pack_iff x closed_pack).1 (closed_pack-IsValid x valid),
      )

-- A rejection returns the closed pack, and writes its records.
pub reject_pack_lem :
    (x : Externals) {W : Type 0} (p : EvidencePack) (g : ApprovalGate) (approver note : String)
    (s : State W)
    → IsValid x p
    → p.status ≡ PackStatus.diagnosed
    → p.approval_gate ≡ some g
    → reject_pack x p approver note s ≡ (
      ok (closed_pack p approver),
      record s {
        ledger = (write_rejection_records x (closed_pack p approver) approver note s.ledger).1;
      },
    )
unfolding reject_pack
reject_pack_lem x p g approver note s valid diagnosed e = simp (
  rejected_pack-total p approver x g valid diagnosed e,
  write_rejection_records_ok x (closed_pack p approver) (rejection_of p) approver note s.ledger
      refl,
)

-- A valid diagnosed pack with a gate can be rejected: `reject_pack` returns a valid pack that is
-- REJECTED, with a decision to reject, no evidence after, and the hash, the evidence before and the
-- recommendation of the pack. The database is as it was.
pub reject_pack-total :
    (x : Externals) {W : Type 0} (p : EvidencePack) (g : ApprovalGate) (approver note : String)
    (s : State W)
    → IsValid x p
    → p.status ≡ PackStatus.diagnosed
    → p.approval_gate ≡ some g
    → (q : EvidencePack) × (l : Ledger) × (reject_pack x p approver note s
        ≡ (ok q, record s { ledger = l }))
      × IsValid x q
      × (q.status ≡ PackStatus.rejected)
      × (q.decision ≡ some (rejection_of p))
      × (q.after ≡ none)
      × (q.evidence_hash ≡ p.evidence_hash)
      × (q.before ≡ p.before)
      × (q.recommendation ≡ p.recommendation)
reject_pack-total x p g approver note s valid diagnosed e = (
  closed_pack p approver,
  (write_rejection_records x (closed_pack p approver) approver note s.ledger).1,
  reject_pack_lem x p g approver note s valid diagnosed e,
  closed_pack-IsValid p approver x valid,
  refl,
  refl,
  refl,
  refl,
  refl,
  refl,
)

-- Whatever the pack, `reject_pack` leaves the database as it was.
pub reject_pack_database :
    (x : Externals) {W : Type 0} (p : EvidencePack) (approver note : String) (s : State W)
    → (reject_pack x p approver note s).1.database ≡ s.database
unfolding reject_pack
reject_pack_database x p approver note s = elim (Result-cases (rejected_pack x p approver)) [
  | inr (e, h) ↦ rw h refl
  | inl (q, h) ↦ rw h (elim (Result-cases (write_rejection_records x q approver note s.ledger).0) [
    | inl (u, k) ↦ rw k refl
    | inr (e, k) ↦ rw k refl
  ])
]
