-- ===== src/Orchestrator/Decided.antt =====
-- Whatever the backend, the narrator and the state: a pack that `apply_and_verify` or `reject_pack` of
-- controller/orchestrator.py returns is the run's own, decided.
use mathlib.Core.Path.{subst}
use googlecloudhack.Prelude.{
  String, ◌≡◌, refl, sym, inl, inr, Option, none, some, is_some, true, Result, ok, err, not,
  raise_if, value_error, Result-cases, ◌>>=◌ as bind,
}
use googlecloudhack.Prelude.Exec.{lift, pure, ◌>>=◌, ◌>>◌}
use googlecloudhack.Externals.{Externals}
use googlecloudhack.Schemas.{
  DecisionAction, ApprovalGateState, gate_state_is, Evidence, Decision, EvidencePack,
}
use googlecloudhack.Schemas.Validity.{validate_pack_same}
use googlecloudhack.Schemas.Validators.{validate_pack, make_decision}
use googlecloudhack.Phases
use googlecloudhack.Phases.{assert_phase_transition}
use googlecloudhack.Pack.{build_pack}
use googlecloudhack.Backends.{Backend, by_keys}
use googlecloudhack.LedgerStore.{approvals, write_application_records, write_rejection_records}
use googlecloudhack.Orchestrator.Checks.{recommended_index_name}
use googlecloudhack.Orchestrator.Gate.{
  ApprovalTicket, assert_diagnosed, gate_of, approval_gate, ledger_ref,
}
use googlecloudhack.Orchestrator.Actions.{Query, Narrator, State, maybe_narrate, on_ledger}
use googlecloudhack.Orchestrator.Decide.{
  approve_decision, checks_for, verified_pack, apply_and_verify, rejected_pack, reject_pack,
}

-- the run's own pack, decided
pub record IsDecided (p q : EvidencePack) : Type 0 where
  pub same_run : q.run_id ≡ p.run_id
  pub decided : is_some q.decision ≡ true

-- a call that returns such a pack, or raises
abbrev pub Decides : EvidencePack → Result EvidencePack → Type 0
Decides p (ok q) = IsDecided p q
Decides p (err e) = Unit

-- a pack that is validated is the pack that was given
validated-Decides :
    (x : Externals) (p q : EvidencePack) → IsDecided p q → Decides p (validate_pack x q)
validated-Decides x p q d = elim (Result-cases (validate_pack x q)) [
  | inl (r, e) ↦ rw e (subst (IsDecided p) (sym (validate_pack_same x q r e)) d)
  | inr (exc, e) ↦ rw e tt
]

-- it is enough that what follows a call returns such a pack
module _ (p : EvidencePack) where
  after_result :
      {A : Type 0} (first : Result A) (next : A → Result EvidencePack)
      → ((a : A) → Decides p (next a))
      → Decides p (bind first next)
  after_result (ok a) next h = h a
  after_result (err exc) next h = tt

verified_pack-Decides :
    (x : Externals) (p : EvidencePack) (ticket : ApprovalTicket) (d : Decision) (after : Evidence)
    → Decides p (verified_pack x p ticket d after)
unfolding verified_pack build_pack
verified_pack-Decides x p ticket d after = after_result p (checks_for x p after) _ λ checks.
    after_result p _ _ λ gate. validated-Decides x p _ (record { same_run = refl; decided = refl })

rejected_pack-Decides :
    (x : Externals) (p : EvidencePack) (approver : String) → Decides p (rejected_pack x p approver)
unfolding rejected_pack build_pack
rejected_pack-Decides x p approver = after_result p (assert_diagnosed "reject" p) _ λ u.
    after_result p (gate_of "can only reject a pack with an approval gate" p.approval_gate) _ λ g.
      after_result p
        (raise_if (not (gate_state_is g.state ApprovalGateState.pending_approval))
          (value_error "can only reject a pack with a pending approval gate"))
        _
        λ v. after_result p (assert_phase_transition Phases.diagnose Phases.approve) _ λ w.
          after_result p (make_decision DecisionAction.reject p.evidence_hash Phases.approve) _ λ d.
            after_result p
              (approval_gate p.run_id ApprovalGateState.rejected (some p.evidence_hash) none
                (some approver) (ledger_ref approvals p.run_id "approve:rejection"))
              _ λ gate. validated-Decides x p _ (record { same_run = refl; decided = refl })

maybe_narrate-Decides :
    (p q : EvidencePack) (narrator : Option Narrator)
    → IsDecided p q
    → Decides p (maybe_narrate q narrator)
unfolding maybe_narrate
maybe_narrate-Decides p q none d = d
maybe_narrate-Decides p q (some narrate) d = elim (Result-cases (narrate q)) [
  | inl (text, e) ↦ rw e (record { same_run = d.same_run; decided = d.decided })
  | inr (exc, e) ↦ rw e tt
]

pub returned :
    {p q : EvidencePack} {r : Result EvidencePack} → Decides p r → r ≡ ok q → IsDecided p q
returned {p} d e = subst (Decides p) e d

-- the narration and the records, after the verdict
finish :
    (x : Externals) {W : Type 0} (p : EvidencePack) (ticket : ApprovalTicket)
    (narrator : Option Narrator) (built : Result EvidencePack) (s : State W)
    → Decides p built
    → Decides p
        ((lift built >>= λ q. lift (maybe_narrate q narrator) >>= λ r.
            on_ledger (
              write_application_records x r ticket.approver ticket.note
                (recommended_index_name p.recommendation))
            >> pure r)
          s).0
finish x p ticket narrator (err e) s d = tt
finish x p ticket narrator (ok q) s d = elim (Result-cases (maybe_narrate q narrator)) [
  | inr (e, h) ↦ rw h tt
  | inl (r, h) ↦
      rw h
        (elim (Result-cases
          (write_application_records x r ticket.approver ticket.note
            (recommended_index_name p.recommendation) s.ledger).0) [
              | inr (e, k) ↦ rw k tt
              | inl (u, k) ↦ rw k (returned (maybe_narrate-Decides p q narrator d) h)
            ])
]

-- A pack that `apply_and_verify` returns has the id of the pack that it was given, and a decision;
-- whatever the backend, the narrator and the state.
pub apply_and_verify-Decides :
    (x : Externals) {W : Type 0} (backend : Backend W) (p : EvidencePack) (ticket : ApprovalTicket)
    (query : Query) (narrator : Option Narrator) (s : State W)
    → Decides p (apply_and_verify x backend p ticket query narrator s).0
unfolding apply_and_verify
apply_and_verify-Decides x backend p ticket query narrator s =
    let index_name = recommended_index_name p.recommendation in
    let applied = backend.apply_index p.recommendation.index_spec index_name s.database in
    let explained =
      backend.explain query.filter query.sort query.limit (by_keys p.recommendation.index_spec)
        applied.1 in
    elim (Result-cases (approve_decision p ticket)) [
      | inr (e, h) ↦ rw h tt
      | inl (d, h) ↦ rw h (elim (Result-cases applied.0) [
        | inr (e, h1) ↦ rw h1 tt
        | inl (u, h1) ↦ rw h1 (elim (Result-cases explained.0) [
          | inr (e, h2) ↦ rw h2 tt
          | inl (after, h2) ↦ rw h2 (
              finish x p ticket narrator (verified_pack x p ticket d after)
                (record s { database = explained.1 }) (verified_pack-Decides x p ticket d after))
        ])
      ])
    ]

-- A pack that `reject_pack` returns has the id of the pack that it was given, and a decision.
pub reject_pack-Decides :
    (x : Externals) {W : Type 0} (p : EvidencePack) (approver note : String) (s : State W)
    → Decides p (reject_pack x p approver note s).0
unfolding reject_pack
reject_pack-Decides x p approver note s = elim (Result-cases (rejected_pack x p approver)) [
  | inr (e, h) ↦ rw h tt
  | inl (r, h) ↦ rw h (elim (Result-cases (write_rejection_records x r approver note s.ledger).0) [
    | inr (e, k) ↦ rw k tt
    | inl (u, k) ↦ rw k (returned (rejected_pack-Decides x p approver) h)
  ])
]
