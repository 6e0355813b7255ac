-- ===== src/Schemas/Validators.antt =====
-- The constraints and the four validators of `EvidencePack` in controller/schemas.py, in the order in
-- which pydantic runs them, and the constraints of `ApprovalGate` and `Decision`. An error that a
-- validator raises is a `ValidationError`; that of a field's constraint names the field.
use googlecloudhack.Prelude.{
  ℕ, String, Bool, false, not, ◌&&◌, ◌||◌, Option, none, some, [], ◌∷◌, all, length, codes, leb,
  nat_eq, ◌==◌, concat, is_empty, is_none, is_some, Result, ok, validation_error, raise_if, ◌>>◌,
}
use googlecloudhack.Externals.{Externals, is_hash}
use googlecloudhack.Value.{dict, of_items}
use googlecloudhack.Phases.{Phase}
use googlecloudhack.Ledger.{evidence_hash}
use googlecloudhack.Schemas.{
  DecisionAction, PackStatus, ApprovalGateState, Evidence, Recommendation, Decision, ApprovalGate,
  EvidencePack, status_value, action_is, gate_state_is,
}
use googlecloudhack.Schemas.Dump.{dump_evidence, dump_recommendation}

-- `[A-Za-z0-9_-]`
abbrev pub is_id_char : ℕ → Bool
is_id_char c =
    (leb b'A' c && leb c b'Z')
    || ((leb b'a' c && leb c b'z')
        || ((leb b'0' c && leb c b'9') || (nat_eq c b'_' || nat_eq c b'-')))

-- the constraint on `run_id`
unfoldable pub is_run_id : String → Bool
is_run_id s = (leb 1 (length (codes s)) && leb (length (codes s)) 128) && all is_id_char (codes s)

unfoldable pub check_fields : EvidencePack → Result (Unit {0})
check_fields p = do
  raise_if (not (is_run_id p.run_id)) (validation_error "run_id")
  raise_if (is_empty p.namespace) (validation_error "namespace")
  raise_if (not (is_hash p.evidence_hash)) (validation_error "evidence_hash")
  raise_if (is_empty p.created_at) (validation_error "created_at")

-- the hash of before-evidence and recommendation
unfoldable pub expected_hash : Externals → Evidence → Recommendation → String
expected_hash x before recommendation = evidence_hash x (
    dict (
      of_items (
        ("evidence", dump_evidence x before)
        ∷ ("recommendation", dump_recommendation x recommendation)
        ∷ [])))

-- `_evidence_hash_binds_before_and_recommendation`
unfoldable pub check_hash : Externals → EvidencePack → Result (Unit {0})
check_hash x p =
    raise_if (not (p.evidence_hash == expected_hash x p.before p.recommendation))
      (validation_error "evidence_hash must equal the hash of before-evidence and recommendation")

-- `self.decision is not None and self.decision.evidence_hash != self.evidence_hash`
abbrev pub decision_differs : Option Decision → String → Bool
decision_differs none hash = false
decision_differs (some d) hash = not (d.evidence_hash == hash)

-- `_decision_hash_binds_this_pack`
unfoldable pub check_decision : EvidencePack → Result (Unit {0})
check_decision p =
    raise_if (decision_differs p.decision p.evidence_hash)
      (validation_error "decision.evidence_hash must equal the pack's evidence_hash")

-- `decided and self.decision.action is action`
abbrev pub decided_to : Option Decision → DecisionAction → Bool
decided_to none action = false
decided_to (some d) action = action_is d.action action

abbrev pub applied_status : EvidencePack → Result (Unit {0})
applied_status p = do
  raise_if (not (decided_to p.decision DecisionAction.approve)) (
      validation_error
        (concat (status_value p.status ∷ " pack must carry an approve decision" ∷ [])))
  raise_if (is_none p.after)
      (validation_error (concat (status_value p.status ∷ " pack must have after-evidence" ∷ [])))

abbrev pub status_branch : PackStatus → EvidencePack → Result (Unit {0})
status_branch PackStatus.diagnosed p =
    raise_if (is_some p.decision || is_some p.after)
      (validation_error "DIAGNOSED pack must have no decision and no after-evidence")
status_branch PackStatus.rejected p = do
  raise_if (not (decided_to p.decision DecisionAction.reject))
      (validation_error "REJECTED pack must carry a reject decision")
  raise_if (is_some p.after) (validation_error "REJECTED pack must have no after-evidence")
status_branch PackStatus.approved p = applied_status p
status_branch PackStatus.verified p = applied_status p

-- `_status_matches_decision_and_after`
unfoldable pub check_status : EvidencePack → Result (Unit {0})
check_status p = status_branch p.status p

-- `o is not None and o != hash`
abbrev pub hash_differs : Option String → String → Bool
hash_differs none hash = false
hash_differs (some h) hash = not (h == hash)

abbrev pub gate_branch : PackStatus → ApprovalGate → Result (Unit {0})
gate_branch PackStatus.diagnosed g = do
  raise_if (not (gate_state_is g.state ApprovalGateState.pending_approval))
      (validation_error "DIAGNOSED pack must have a pending approval gate")
  raise_if (is_none g.required_hash || is_some g.approved_hash)
      (validation_error "pending approval gate must require only the current hash")
gate_branch PackStatus.rejected g = do
  raise_if (not (gate_state_is g.state ApprovalGateState.rejected))
      (validation_error "REJECTED pack must have a rejected approval gate")
  raise_if (is_none g.approver) (validation_error "rejected approval gate must record the approver")
gate_branch PackStatus.verified g = do
  raise_if (not (gate_state_is g.state ApprovalGateState.verified))
      (validation_error "VERIFIED pack must have a verified approval gate")
  raise_if (is_none g.approved_hash || is_none g.approver)
      (validation_error "verified approval gate must record the approved hash")
gate_branch PackStatus.approved g = do
  raise_if (not (gate_state_is g.state ApprovalGateState.approved))
      (validation_error "APPROVED pack must have an approved approval gate")
  raise_if (is_none g.approved_hash || is_none g.approver)
      (validation_error "approved approval gate must record the approved hash")

abbrev pub some_gate : Option ApprovalGate → EvidencePack → Result (Unit {0})
some_gate none p = ok tt
some_gate (some g) p = do
  raise_if (hash_differs g.required_hash p.evidence_hash)
      (validation_error "approval_gate.required_hash must equal the pack's evidence_hash")
  raise_if (hash_differs g.approved_hash p.evidence_hash)
      (validation_error "approval_gate.approved_hash must equal the pack's evidence_hash")
  raise_if g.mutation_allowed
      (validation_error "persisted approval gate must not leave mutation_allowed=true")
  gate_branch p.status g

-- `_approval_gate_matches_status`
unfoldable pub check_gate : EvidencePack → Result (Unit {0})
check_gate p = some_gate p.approval_gate p

-- `EvidencePack(...)`
unfoldable pub validate_pack : Externals → EvidencePack → Result EvidencePack
validate_pack x p = do
  check_fields p
  check_hash x p
  check_decision p
  check_status p
  check_gate p
  ok p

-- `Decision(...)`
unfoldable pub make_decision : DecisionAction → String → Phase → Result Decision
make_decision action hash phase = do
  raise_if (not (is_hash hash)) (validation_error "evidence_hash")
  ok (record { action = action; evidence_hash = hash; phase = phase })

abbrev pub bad_hash : Option String → Bool
bad_hash none = false
bad_hash (some h) = not (is_hash h)

-- `ApprovalGate(...)`
unfoldable pub make_gate : ApprovalGate → Result ApprovalGate
make_gate g = do
  raise_if (is_empty g.gate_id) (validation_error "gate_id")
  raise_if (bad_hash g.required_hash) (validation_error "required_hash")
  raise_if (bad_hash g.approved_hash) (validation_error "approved_hash")
  ok g
