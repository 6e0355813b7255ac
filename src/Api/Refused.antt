-- ===== src/Api/Refused.antt =====
-- Which decisions the route `decide_pack` of api/routes.py refuses, and that it then does nothing.

use googlecloudhack.Prelude.{
  String, ◌≡◌, refl, ◌⊎◌, inl, inr, Bool, true, false, ◌||◌, not, of_not, if◌then◌else◌, Option,
  none, some, is_some, ok, arith, eq_iff, eq_refl, Option-cases,
}
use googlecloudhack.Schemas.{status_is, PackStatus, ApprovalGateState, ApprovalGate, EvidencePack}
use googlecloudhack.LedgerStore.Dicts.{lookup}
use googlecloudhack.Api.{
  Identity, Engine, DecisionRequest, Response, not_found, already_decided, updated, Service,
  is_pending, refusal, decide_pack,
}

-- A pack that may be decided by this request: undecided, on the request's hash, its gate pending.
pub record IsOpen (p : EvidencePack) (hash : String) : Type 0 where
  pub undecided : p.decision ≡ none
  pub diagnosed : p.status ≡ PackStatus.diagnosed
  pub same_hash : hash ≡ p.evidence_hash
  pub gate : ApprovalGate
  pub has_gate : p.approval_gate ≡ some gate
  pub pending : gate.state ≡ ApprovalGateState.pending_approval

pub pending_gate_of :
    (o : Option ApprovalGate)
    → is_pending o ≡ true
    → (g : ApprovalGate) × (o ≡ some g) × (g.state ≡ ApprovalGateState.pending_approval)
pending_gate_of none h = cc
pending_gate_of (some g) h = (g, refl, ground arith)

if_none :
    (c : Bool) (r : Response) (rest : Option Response)
    → (if c then some r else rest) ≡ none
    → (c ≡ false) × (rest ≡ none)
if_none true r rest h = cc
if_none false r rest h = (refl, h)

undecided_of :
    (p : EvidencePack)
    → (is_some p.decision || not (status_is p.status PackStatus.diagnosed)) ≡ false
    → (p.decision ≡ none) × (p.status ≡ PackStatus.diagnosed)
undecided_of p h = ground arith

pub refusal-IsOpen :
    (p : EvidencePack) (body : DecisionRequest)
    → refusal p body ≡ none
    → IsOpen p body.evidence_hash
unfolding refusal
refusal-IsOpen p body h =
    let (open_status, h1) = if_none _ _ _ h in
    let (hash, h2) = if_none _ _ _ h1 in
    let (waits, h3) = if_none _ _ _ h2 in
    let (undecided, diagnosed) = undecided_of p open_status in
    let (g, has_gate, pending) = pending_gate_of p.approval_gate (of_not waits) in
    record {
      undecided = undecided;
      diagnosed = diagnosed;
      same_hash = (eq_iff body.evidence_hash p.evidence_hash).0 (of_not hash);
      gate = g;
      has_gate = has_gate;
      pending = pending;
    }

pub IsOpen-refusal :
    (p : EvidencePack) (body : DecisionRequest)
    → IsOpen p body.evidence_hash
    → refusal p body ≡ none
unfolding refusal
IsOpen-refusal p body o =
    rw (o.undecided, o.diagnosed, o.same_hash, eq_refl p.evidence_hash, o.has_gate, o.pending) refl

pub refusal_decided :
    (p : EvidencePack) (body : DecisionRequest)
    → is_some p.decision ≡ true
    → refusal p body ≡ some (already_decided p.status)
unfolding refusal
refusal_decided p body h = rw h refl

abbrev pub is_updated : Response → Bool
is_updated (updated q) = true
is_updated _ = false

pub refusal_not_updated :
    (p : EvidencePack) (body : DecisionRequest) (r : Response)
    → refusal p body ≡ some r
    → is_updated r ≡ false
unfolding refusal
refusal_not_updated p body r h = ground arith

module _ {E : Type 0} (engine : Engine E) where
  -- A request decides a pack only where the store has a pack for the run that is undecided and on the
  -- hash of the request, with a pending gate. To every other request `decide_pack` gives an answer that
  -- is not a pack, and leaves the store and the engine as they were.
  pub decide_pack_refused :
      (run_id : String) (body : DecisionRequest) (identity : Option Identity) (s : Service E)
      → ((p : EvidencePack) × (lookup run_id s.packs ≡ some p) × IsOpen p body.evidence_hash)
        ⊎ ((r : Response) × (decide_pack engine run_id body identity s ≡ (ok r, s))
            × (is_updated r ≡ false))
  unfolding decide_pack
  decide_pack_refused run_id body identity s = elim (Option-cases (lookup run_id s.packs)) [
    | inl e ↦ inr (not_found, rw e refl, refl)
    | inr (p, e) ↦ elim (Option-cases (refusal p body)) [
      | inl f ↦ inl (p, e, refusal-IsOpen p body f)
      | inr (r, f) ↦ inr (r, rw (e, f) refl, refusal_not_updated p body r f)
    ]
  ]
