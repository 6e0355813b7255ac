-- ===== src/Schemas/Validity.antt =====
-- What it means that `EvidencePack(...)` of controller/schemas.py does not raise.
use googlecloudhack.Prelude.{
  String, ◌≡◌, refl, ◌↔◌, ◌≢◌, true, false, Option, none, some, ok, arith, eq_iff, is_empty,
  Option-cases, inl, inr, ◌⊎◌,
}
use googlecloudhack.Externals.{Externals, is_hash}
use googlecloudhack.Schemas.{
  DecisionAction, PackStatus, ApprovalGateState, Evidence, Decision, ApprovalGate, EvidencePack,
}
use googlecloudhack.Schemas.Validators.{
  is_run_id, check_fields, expected_hash, check_hash, check_decision, check_status, check_gate,
  validate_pack, decision_differs, status_branch, gate_branch, hash_differs, some_gate,
}

-- The decision and the after-evidence that belong to each status.
abbrev pub Decided : PackStatus → Option Decision → Option Evidence → Type 0
Decided PackStatus.diagnosed decision after = (decision ≡ none) × (after ≡ none)
Decided PackStatus.rejected decision after =
    ((d : Decision) × (decision ≡ some d) × (d.action ≡ DecisionAction.reject)) × (after ≡ none)
Decided PackStatus.approved decision after =
    ((d : Decision) × (decision ≡ some d) × (d.action ≡ DecisionAction.approve)) × (after ≢ none)
Decided PackStatus.verified decision after =
    ((d : Decision) × (decision ≡ some d) × (d.action ≡ DecisionAction.approve)) × (after ≢ none)

-- The state of the gate, and what it records, for each status; `hash` is the pack's.
abbrev pub GateFits : PackStatus → ApprovalGate → String → Type 0
GateFits PackStatus.diagnosed g hash =
    (g.state ≡ ApprovalGateState.pending_approval)
    × (g.required_hash ≡ some hash)
    × (g.approved_hash ≡ none)
GateFits PackStatus.rejected g hash = (g.state ≡ ApprovalGateState.rejected) × (g.approver ≢ none)
GateFits PackStatus.approved g hash =
    (g.state ≡ ApprovalGateState.approved) × (g.approved_hash ≡ some hash) × (g.approver ≢ none)
GateFits PackStatus.verified g hash =
    (g.state ≡ ApprovalGateState.verified) × (g.approved_hash ≡ some hash) × (g.approver ≢ none)

pub record IsValid (x : Externals) (p : EvidencePack) : Type 0 where
  pub run_id : is_run_id p.run_id ≡ true
  pub namespace : is_empty p.namespace ≡ false
  pub created_at : is_empty p.created_at ≡ false
  pub hash_format : is_hash p.evidence_hash ≡ true
  pub hash_binds : p.evidence_hash ≡ expected_hash x p.before p.recommendation
  pub decision_binds : (d : Decision) → p.decision ≡ some d → d.evidence_hash ≡ p.evidence_hash
  pub decided : Decided p.status p.decision p.after
  pub gate_closed : (g : ApprovalGate) → p.approval_gate ≡ some g → g.mutation_allowed ≡ false
  pub gate_required :
      (g : ApprovalGate) (h : String)
      → p.approval_gate ≡ some g
      → g.required_hash ≡ some h
      → h ≡ p.evidence_hash
  pub gate_approved :
      (g : ApprovalGate) (h : String)
      → p.approval_gate ≡ some g
      → g.approved_hash ≡ some h
      → h ≡ p.evidence_hash
  pub gate_fits :
      (g : ApprovalGate) → p.approval_gate ≡ some g → GateFits p.status g p.evidence_hash

checks_passed :
    (x : Externals) (p : EvidencePack)
    → validate_pack x p ≡ ok p
    → (check_fields p ≡ ok tt)
      × (check_hash x p ≡ ok tt)
      × (check_decision p ≡ ok tt)
      × (check_status p ≡ ok tt)
      × (check_gate p ≡ ok tt)
unfolding validate_pack
checks_passed x p h = ground arith

check_fields_lem :
    (p : EvidencePack)
    → (check_fields p ≡ ok tt) ↔ (
        (is_run_id p.run_id ≡ true)
        × (is_empty p.namespace ≡ false)
        × (is_hash p.evidence_hash ≡ true)
        × (is_empty p.created_at ≡ false))
unfolding check_fields
check_fields_lem p = ground arith

check_hash_lem :
    (x : Externals) (p : EvidencePack)
    → (check_hash x p ≡ ok tt) ↔ (p.evidence_hash ≡ expected_hash x p.before p.recommendation)
unfolding check_hash
check_hash_lem x p =
    ground (arith, eq_iff p.evidence_hash (expected_hash x p.before p.recommendation))

decision_differs_lem :
    (o : Option Decision) (hash : String)
    → (decision_differs o hash ≡ false) ↔ ((d : Decision) → o ≡ some d → d.evidence_hash ≡ hash)
decision_differs_lem none hash = (λ _ d e. cc, λ _. refl)
decision_differs_lem (some c) hash = (
  λ h d e. ground (arith, eq_iff c.evidence_hash hash),
  λ h. ground (arith, eq_iff c.evidence_hash hash, h c refl),
)

check_decision_lem :
    (p : EvidencePack)
    → (check_decision p ≡ ok tt)
      ↔ ((d : Decision) → p.decision ≡ some d → d.evidence_hash ≡ p.evidence_hash)
unfolding check_decision
check_decision_lem p = (
  λ h. (decision_differs_lem p.decision p.evidence_hash).0 (ground arith),
  λ h. rw ((decision_differs_lem p.decision p.evidence_hash).1 h) refl,
)

status_branch_lem :
    (status : PackStatus) (p : EvidencePack)
    → (status_branch status p ≡ ok tt) ↔ Decided status p.decision p.after
status_branch_lem PackStatus.diagnosed p = ground arith
status_branch_lem PackStatus.rejected p = (λ h. ground arith, λ h. ground arith)
status_branch_lem PackStatus.approved p = (λ h. ground arith, λ h. ground arith)
status_branch_lem PackStatus.verified p = (λ h. ground arith, λ h. ground arith)

hash_differs_lem :
    (o : Option String) (hash : String)
    → (hash_differs o hash ≡ false) ↔ ((h : String) → o ≡ some h → h ≡ hash)
hash_differs_lem none hash = (λ _ d e. cc, λ _. refl)
hash_differs_lem (some c) hash =
    (λ h d e. ground (arith, eq_iff c hash), λ h. ground (arith, eq_iff c hash, h c refl))

-- The hash in a gate is the pack's, where it is there.
abbrev Binds : ApprovalGate → String → Type 0
Binds g hash =
    (hash_differs g.required_hash hash ≡ false) × (hash_differs g.approved_hash hash ≡ false)

some_of_binds :
    (o : Option String) (hash : String) → hash_differs o hash ≡ false → (o ≡ none) ⊎ (o ≡ some hash)
some_of_binds none hash h = inl refl
some_of_binds (some c) hash h = inr (ground (arith, eq_iff c hash))

gate_branch_lem :
    (status : PackStatus) (g : ApprovalGate) (hash : String)
    → Binds g hash
    → (gate_branch status g ≡ ok tt) ↔ GateFits status g hash
gate_branch_lem PackStatus.diagnosed g hash (b, c) =
    (λ h. ground (arith, some_of_binds g.required_hash hash b), λ h. ground arith)
gate_branch_lem PackStatus.rejected g hash b = (λ h. ground arith, λ h. ground arith)
gate_branch_lem PackStatus.approved g hash (b, c) =
    (λ h. ground (arith, some_of_binds g.approved_hash hash c), λ h. ground arith)
gate_branch_lem PackStatus.verified g hash (b, c) =
    (λ h. ground (arith, some_of_binds g.approved_hash hash c), λ h. ground arith)

-- All that the validator of the gate checks, when there is a gate.
record GateHolds (status : PackStatus) (g : ApprovalGate) (hash : String) : Type 0 where
  closed : g.mutation_allowed ≡ false
  required : (h : String) → g.required_hash ≡ some h → h ≡ hash
  approved : (h : String) → g.approved_hash ≡ some h → h ≡ hash
  fits : GateFits status g hash

some_gate_lem :
    (g : ApprovalGate) (p : EvidencePack)
    → (some_gate (some g) p ≡ ok tt) ↔ GateHolds p.status g p.evidence_hash
some_gate_lem g p = (
  λ h.
      let b : Binds g p.evidence_hash = ground arith in
      record {
        closed = ground arith;
        required = (hash_differs_lem g.required_hash p.evidence_hash).0 b.0;
        approved = (hash_differs_lem g.approved_hash p.evidence_hash).0 b.1;
        fits = (gate_branch_lem p.status g p.evidence_hash b).0 (ground arith);
      },
  λ h.
      let b : Binds g p.evidence_hash = (
        (hash_differs_lem g.required_hash p.evidence_hash).1 h.required,
        (hash_differs_lem g.approved_hash p.evidence_hash).1 h.approved,
      ) in
      simp (b.0, b.1, h.closed) ((gate_branch_lem p.status g p.evidence_hash b).1 h.fits),
)

check_gate_lem :
    (p : EvidencePack)
    → (check_gate p ≡ ok tt)
      ↔ ((g : ApprovalGate) → p.approval_gate ≡ some g → GateHolds p.status g p.evidence_hash)
unfolding check_gate
check_gate_lem p = (
  λ h g e. (some_gate_lem g p).0 (rw e at h),
  λ h. elim (Option-cases p.approval_gate) [
    | inl e ↦ rw e refl
    | inr (g, e) ↦ rw e ((some_gate_lem g p).1 (h g e))
  ],
)

check_status_lem :
    (p : EvidencePack) → (check_status p ≡ ok tt) ↔ Decided p.status p.decision p.after
unfolding check_status
check_status_lem p = status_branch_lem p.status p

-- `EvidencePack(...)` returns the pack exactly when it is valid.
pub validate_pack_iff :
    (x : Externals) (p : EvidencePack) → (validate_pack x p ≡ ok p) ↔ IsValid x p
unfolding validate_pack
validate_pack_iff x p = (
  λ h.
      let (f, hash, decision, status, gate) = checks_passed x p h in
      let (run_id, namespace, format, created) = (check_fields_lem p).0 f in
      record {
        run_id = run_id;
        namespace = namespace;
        created_at = created;
        hash_format = format;
        hash_binds = (check_hash_lem x p).0 hash;
        decision_binds = (check_decision_lem p).0 decision;
        decided = (check_status_lem p).0 status;
        gate_closed = λ g e. ((check_gate_lem p).0 gate g e).closed;
        gate_required = λ g s e. ((check_gate_lem p).0 gate g e).required s;
        gate_approved = λ g s e. ((check_gate_lem p).0 gate g e).approved s;
        gate_fits = λ g e. ((check_gate_lem p).0 gate g e).fits;
      },
  λ v.
      rw
        (
          (check_fields_lem p).1 (v.run_id, v.namespace, v.hash_format, v.created_at),
          (check_hash_lem x p).1 v.hash_binds,
          (check_decision_lem p).1 v.decision_binds,
          (check_status_lem p).1 v.decided,
          (check_gate_lem p).1 (λ g e. record {
            closed = v.gate_closed g e;
            required = λ s. v.gate_required g s e;
            approved = λ s. v.gate_approved g s e;
            fits = v.gate_fits g e;
          }),
        )
        refl,
)

pub validate_pack_same : (x : Externals) (p q : EvidencePack) → validate_pack x p ≡ ok q → q ≡ p
unfolding validate_pack
validate_pack_same x p q h = ground arith
