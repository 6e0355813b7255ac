-- ===== src/Orchestrator/Gate.antt =====
-- The approval gate and the approval ticket of controller/orchestrator.py. A ticket is issued for a
-- diagnosed pack whose gate is pending, for the hash of that pack and no other.
use googlecloudhack.Prelude.{
  String, false, not, Option, none, some, [], ◌∷◌, ◌==◌, concat, opt_is, Result, ok, err,
  value_error, raise_if, ◌>>=◌, ◌>>◌,
}
use googlecloudhack.Schemas.{
  PackStatus, ApprovalGateState, ApprovalGate, EvidencePack, status_is, status_value, gate_state_is,
}
use googlecloudhack.Schemas.Validators.{make_gate}
use googlecloudhack.LedgerStore.{record_id, approvals}

pub record ApprovalTicket : Type 0 where
  pub run_id : String
  pub evidence_hash : String
  pub approver : String
  pub note : String
  pub gate_id : String

-- `_ledger_ref`
abbrev pub ledger_ref : String → String → String → String
ledger_ref collection run_id event = concat (collection ∷ "/" ∷ record_id run_id event ∷ [])

-- `_gate_id`
abbrev pub gate_id : String → String
gate_id run_id = record_id run_id "gate"

-- `_gate_ledger_ref`
abbrev pub gate_ledger_ref : String → String → String
gate_ledger_ref run_id event = ledger_ref approvals run_id (concat ("gate:" ∷ event ∷ []))

-- `_approval_gate`; `ref` is `ledger_ref or _gate_ledger_ref(run_id, ledger_event)`
unfoldable pub approval_gate :
    (run_id : String)
    → ApprovalGateState
    → (required_hash approved_hash approver : Option String) → (ref : String) → Result ApprovalGate
approval_gate run_id state required_hash approved_hash approver ref = make_gate (record {
  gate_id = gate_id run_id;
  state = state;
  required_hash = required_hash;
  approved_hash = approved_hash;
  approver = approver;
  mutation_allowed = false;
  ledger_ref = some ref;
})

abbrev not_diagnosed : String → EvidencePack → String
not_diagnosed action p =
    concat ("can only " ∷ action ∷ " a DIAGNOSED pack, got '" ∷ status_value p.status ∷ "'" ∷ [])

abbrev pub assert_diagnosed : String → EvidencePack → Result (Unit {0})
assert_diagnosed action p =
    raise_if (not (status_is p.status PackStatus.diagnosed)) (value_error (not_diagnosed action p))

-- `if pack.approval_gate is None: raise`
abbrev pub gate_of : String → Option ApprovalGate → Result ApprovalGate
gate_of message none = err (value_error message)
gate_of message (some g) = ok g

unfoldable pub issue_approval_ticket :
    EvidencePack → (evidence_hash approver note : String) → Result ApprovalTicket
issue_approval_ticket p evidence_hash approver note = do
  assert_diagnosed "approve" p
  g ← gate_of "approval ticket requires a pack with an approval gate" p.approval_gate
  raise_if (not (gate_state_is g.state ApprovalGateState.pending_approval))
      (value_error "approval ticket requires a pending approval gate")
  raise_if (not (opt_is g.required_hash evidence_hash))
      (value_error "approval ticket hash does not match the pending approval gate")
  raise_if (not (p.evidence_hash == evidence_hash))
      (value_error "approval ticket hash does not match the pack evidence hash")
  ok (record {
    run_id = p.run_id;
    evidence_hash = evidence_hash;
    approver = approver;
    note = note;
    gate_id = g.gate_id;
  })

-- `_assert_ticket_allows_apply`
unfoldable pub assert_ticket_allows_apply : EvidencePack → ApprovalTicket → Result (Unit {0})
assert_ticket_allows_apply p ticket = do
  g ← gate_of "approval ticket requires a pack with an approval gate" p.approval_gate
  raise_if (not (ticket.run_id == p.run_id))
      (value_error "approval ticket run_id does not match the pack")
  raise_if (not (ticket.gate_id == g.gate_id))
      (value_error "approval ticket gate_id does not match the pack")
  raise_if (not (ticket.evidence_hash == p.evidence_hash))
      (value_error "approval ticket hash does not match the pack evidence hash")
  raise_if (not (gate_state_is g.state ApprovalGateState.pending_approval))
      (value_error "approval ticket requires a pending approval gate")
