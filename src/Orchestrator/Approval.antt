-- ===== src/Orchestrator/Approval.antt =====
-- When `apply_and_verify` of controller/orchestrator.py goes on to the mutation.
use mathlib.Core.Path.{subst}
use googlecloudhack.Prelude.{
  String, ◌≡◌, ◌↔◌, ◌⊎◌, refl, inl, inr, true, Option, some, ok, err, Error, arith, eq_iff,
  Option-cases, Result-cases,
}
use googlecloudhack.Externals.{Externals, is_hash}
use googlecloudhack.Phases
use googlecloudhack.Phases.{assert_phase_transition}
use googlecloudhack.Schemas.{
  DecisionAction, PackStatus, ApprovalGateState, Decision, ApprovalGate, EvidencePack,
}
use googlecloudhack.Schemas.Validators.{make_decision}
use googlecloudhack.Schemas.Validity.{IsValid, GateFits}
use googlecloudhack.Backends.{Backend}
use googlecloudhack.Orchestrator.Gate.{
  ApprovalTicket, assert_ticket_allows_apply, issue_approval_ticket,
}
use googlecloudhack.Orchestrator.Actions.{Query, Narrator, State}
use googlecloudhack.Orchestrator.Decide.{approve_decision, apply_and_verify}

-- The ticket is for this pack, whose gate is pending, and for its hash.
pub record Approves (p : EvidencePack) (ticket : ApprovalTicket) : Type 0 where
  pub diagnosed : p.status ≡ PackStatus.diagnosed
  pub gate : ApprovalGate
  pub has_gate : p.approval_gate ≡ some gate
  pub pending : gate.state ≡ ApprovalGateState.pending_approval
  pub same_run : ticket.run_id ≡ p.run_id
  pub same_gate : ticket.gate_id ≡ gate.gate_id
  pub same_hash : ticket.evidence_hash ≡ p.evidence_hash

abbrev pub approval_of : EvidencePack → Decision
approval_of p = record {
  action = DecisionAction.approve;
  evidence_hash = p.evidence_hash;
  phase = Phases.approve;
}

approve_decision_sound :
    (p : EvidencePack) (ticket : ApprovalTicket) (d : Decision)
    → approve_decision p ticket ≡ ok d
    → Approves p ticket × (is_hash p.evidence_hash ≡ true) × (d ≡ approval_of p)
unfolding approve_decision assert_ticket_allows_apply make_decision
approve_decision_sound p ticket d h = elim (Option-cases p.approval_gate) [
  | inl e ↦ ground arith
  | inr (g, e) ↦ (
    record {
      diagnosed = ground arith;
      gate = g;
      has_gate = e;
      pending = ground arith;
      same_run = ground (arith, eq_iff ticket.run_id p.run_id);
      same_gate = ground (arith, eq_iff ticket.gate_id g.gate_id);
      same_hash = ground (arith, eq_iff ticket.evidence_hash p.evidence_hash);
    },
    ground arith,
    ground arith,
  )
]

pub approve_decision_complete :
    (p : EvidencePack) (ticket : ApprovalTicket)
    → Approves p ticket
    → is_hash p.evidence_hash ≡ true
    → approve_decision p ticket ≡ ok (approval_of p)
unfolding approve_decision assert_ticket_allows_apply make_decision assert_phase_transition
approve_decision_complete p ticket a h = ground (
  arith,
  eq_iff ticket.run_id p.run_id,
  eq_iff ticket.gate_id a.gate.gate_id,
  eq_iff ticket.evidence_hash p.evidence_hash,
)

-- The guards of `apply_and_verify` accept a pack and a ticket exactly when the ticket approves the
-- pack and the pack's hash has the form of a hash; the decision is then to approve that hash.
pub approve_decision_iff :
    (p : EvidencePack) (ticket : ApprovalTicket) (d : Decision)
    → (approve_decision p ticket ≡ ok d)
      ↔ (Approves p ticket × (is_hash p.evidence_hash ≡ true) × (d ≡ approval_of p))
approve_decision_iff p ticket d =
    (approve_decision_sound p ticket d, λ (a, h, e). rw e (approve_decision_complete p ticket a h))

-- For every backend and from every state: unless the ticket approves the pack, `apply_and_verify`
-- raises, and leaves the database and the ledger as they were.
pub apply_and_verify_guarded :
    (x : Externals) {W : Type 0} (backend : Backend W) (p : EvidencePack) (ticket : ApprovalTicket)
    (query : Query) (narrator : Option Narrator) (s : State W)
    → Approves p ticket
      ⊎ ((e : Error) × (apply_and_verify x backend p ticket query narrator s ≡ (err e, s)))
unfolding apply_and_verify
apply_and_verify_guarded x backend p ticket query narrator s =
    elim (Result-cases (approve_decision p ticket)) [
      | inl (d, h) ↦ inl (approve_decision_sound p ticket d h).0
      | inr (e, h) ↦ inr (e, rw h refl)
    ]

-- A ticket that is issued for a pack approves that pack.
pub issue_approval_ticket-Approves :
    (p : EvidencePack) (hash approver note : String) (ticket : ApprovalTicket)
    → issue_approval_ticket p hash approver note ≡ ok ticket
    → Approves p ticket
      × (ticket.evidence_hash ≡ hash)
      × (ticket.approver ≡ approver)
      × (ticket.note ≡ note)
unfolding issue_approval_ticket
issue_approval_ticket-Approves p hash approver note ticket h = elim (Option-cases p.approval_gate) [
  | inl e ↦ ground arith
  | inr (g, e) ↦ (
    record {
      diagnosed = ground arith;
      gate = g;
      has_gate = e;
      pending = ground arith;
      same_run = ground arith;
      same_gate = ground arith;
      same_hash = ground (arith, eq_iff p.evidence_hash hash);
    },
    ground arith,
    ground arith,
    ground arith,
  )
]

ticket_for : EvidencePack → ApprovalGate → (approver note : String) → ApprovalTicket
ticket_for p g approver note = record {
  run_id = p.run_id;
  evidence_hash = p.evidence_hash;
  approver = approver;
  note = note;
  gate_id = g.gate_id;
}

-- For a valid diagnosed pack with a gate, a ticket is issued exactly for the pack's own hash.
pub issue_approval_ticket_iff :
    (x : Externals) (p : EvidencePack) (g : ApprovalGate) (hash approver note : String)
    → IsValid x p
    → p.status ≡ PackStatus.diagnosed
    → p.approval_gate ≡ some g
    → ((ticket : ApprovalTicket) × (issue_approval_ticket p hash approver note ≡ ok ticket))
      ↔ (hash ≡ p.evidence_hash)
unfolding issue_approval_ticket ticket_for
issue_approval_ticket_iff x p g hash approver note v diagnosed e =
    let fits : GateFits PackStatus.diagnosed g p.evidence_hash =
      subst (λ s. GateFits s g p.evidence_hash) diagnosed (v.gate_fits g e) in
    (
      λ (ticket, h). ground (arith, eq_iff p.evidence_hash hash),
      λ same. (ticket_for p g approver note, ground (arith, eq_iff p.evidence_hash hash)),
    )
