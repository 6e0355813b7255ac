-- ===== src/Orchestrator/Verdict.antt =====
-- What `apply_and_verify` of controller/orchestrator.py concludes from the evidence after the index.
use mathlib.Core.Path.{subst}
use mathlib.Core.Option.{some-injective}
use googlecloudhack.Prelude.{
  String, ◌≡◌, refl, sym, ◌∙◌, Bool, true, false, Option, some, [], ◌∷◌, ◌++◌, ok, arith, is_empty,
  is_empty-append_right,
}
use googlecloudhack.Externals.{Externals, is_hash}
use googlecloudhack.Ledger.{evidence_hash}
use googlecloudhack.Schemas.{
  DecisionAction, ApprovalGateState, Decision, Evidence, Recommendation, ApprovalGate, EvidencePack,
}
use googlecloudhack.Schemas.Validators.{make_gate, bad_hash, expected_hash}
use googlecloudhack.Schemas.Validity.{IsValid, Decided, GateFits, validate_pack_iff}
use googlecloudhack.Pack.{pack_evidence_hash, build_pack}
use googlecloudhack.LedgerStore.{record_id, approvals}
use googlecloudhack.Orchestrator.Checks.{Checks, all_hold, recommended_index_name}
use googlecloudhack.Orchestrator.Gate.{ApprovalTicket, gate_id, ledger_ref, approval_gate}
use googlecloudhack.Orchestrator.Decide.{
  approved_log, approval_trace, status_of, gate_state_of, checks_for, verify_event, verified_pack,
}
use googlecloudhack.Orchestrator.Approval.{approval_of}

abbrev pub gate_record :
    String
    → ApprovalGateState
    → (required approved approver : Option String) → String
    → ApprovalGate
gate_record run_id state required approved approver ref = record {
  gate_id = gate_id run_id;
  state = state;
  required_hash = required;
  approved_hash = approved;
  approver = approver;
  mutation_allowed = false;
  ledger_ref = some ref;
}

gate_id-ne-empty : (run_id : String) → is_empty (gate_id run_id) ≡ false
unfolding record_id
gate_id-ne-empty run_id = is_empty-append_right run_id ":gate" refl

pub approval_gate_total :
    (run_id : String) (state : ApprovalGateState) (required approved approver : Option String)
    (ref : String)
    → bad_hash required ≡ false
    → bad_hash approved ≡ false
    → approval_gate run_id state required approved approver ref
      ≡ ok (gate_record run_id state required approved approver ref)
unfolding approval_gate make_gate
approval_gate_total run_id state required approved approver ref r a =
    rw (gate_id-ne-empty run_id, r, a) refl

pub pack_evidence_hash-eq-expected_hash :
    (x : Externals) (before : Evidence) (r : Recommendation)
    → pack_evidence_hash x before r ≡ expected_hash x before r
unfolding pack_evidence_hash expected_hash
pack_evidence_hash-eq-expected_hash x before r = refl

pub pack_evidence_hash-is_hash :
    (x : Externals) (before : Evidence) (r : Recommendation)
    → is_hash (pack_evidence_hash x before r) ≡ true
unfolding pack_evidence_hash evidence_hash
pack_evidence_hash-is_hash x before r = x.is_hash-sha256_hex _

module _ (x : Externals) (p : EvidencePack) (ticket : ApprovalTicket) (after : Evidence)
    (checks : Checks) where
  abbrev pub verdict : Bool
  verdict = all_hold checks

  abbrev pub applied_gate : ApprovalGate
  applied_gate =
      gate_record p.run_id (gate_state_of verdict) (some p.evidence_hash)
        (some ticket.evidence_hash) (some ticket.approver)
        (ledger_ref approvals p.run_id "approve:approval")

  -- the pack that the approval leads to
  abbrev pub applied_pack : EvidencePack
  applied_pack = record p {
    status = status_of verdict;
    after = some after;
    decision = some (approval_of p);
    phase_log = approved_log p;
    agent_trace =
        approval_trace p ticket (recommended_index_name p.recommendation)
        ++ verify_event x p checks ∷ [];
    approval_gate = some applied_gate;
  }

applied_pack-Decided :
    (b : Bool) (d : Decision) (after : Evidence)
    → d.action ≡ DecisionAction.approve
    → Decided (status_of b) (some d) (some after)
applied_pack-Decided true d after e = ((d, refl, e), cc)
applied_pack-Decided false d after e = ((d, refl, e), cc)

applied_gate-GateFits :
    (b : Bool) (run_id hash approver ref : String)
    → GateFits
        (status_of b)
        (gate_record run_id (gate_state_of b) (some hash) (some hash) (some approver) ref)
        hash
applied_gate-GateFits true run_id hash approver ref = (refl, refl, cc)
applied_gate-GateFits false run_id hash approver ref = (refl, refl, cc)

pub hash_ok : (hash : String) → is_hash hash ≡ true → bad_hash (some hash) ≡ false
hash_ok hash h = rw h refl

module _ (x : Externals) (p : EvidencePack) (ticket : ApprovalTicket) (after : Evidence)
    (checks : Checks) (valid : IsValid x p)
    (same_hash : ticket.evidence_hash ≡ p.evidence_hash) where
  applied_gate_matches :
      GateFits
        (status_of (verdict x p ticket after checks))
        (applied_gate x p ticket after checks)
        p.evidence_hash
  applied_gate_matches = rw same_hash (
      applied_gate-GateFits (verdict x p ticket after checks) p.run_id p.evidence_hash
        ticket.approver (ledger_ref approvals p.run_id "approve:approval"))

  pub applied_pack-IsValid : IsValid x (applied_pack x p ticket after checks)
  applied_pack-IsValid = record {
    run_id = valid.run_id;
    namespace = valid.namespace;
    created_at = valid.created_at;
    hash_format = valid.hash_format;
    hash_binds = valid.hash_binds;
    decision_binds = λ d e. ground arith;
    decided = applied_pack-Decided (verdict x p ticket after checks) (approval_of p) after refl;
    gate_closed = λ g e. ground arith;
    gate_required = λ g h e f. ground arith;
    gate_approved = λ g h e f. ground arith;
    gate_fits = λ g e.
        subst (λ h. GateFits (status_of (verdict x p ticket after checks)) h p.evidence_hash)
          (some-injective _ _ e) applied_gate_matches;
  }

  -- After an approval the new pack is built, whatever the checks show.
  pub verified_pack-total :
      checks_for x p after ≡ ok checks
      → verified_pack x p ticket (approval_of p) after ≡ ok (applied_pack x p ticket after checks)
  unfolding verified_pack build_pack
  verified_pack-total checked =
      let hash : pack_evidence_hash x p.before p.recommendation ≡ p.evidence_hash =
        pack_evidence_hash-eq-expected_hash x p.before p.recommendation ∙ sym valid.hash_binds in
      rw
        (
          checked,
          approval_gate_total p.run_id (gate_state_of (verdict x p ticket after checks))
              (some p.evidence_hash) (some ticket.evidence_hash) (some ticket.approver)
              (ledger_ref approvals p.run_id "approve:approval")
              (hash_ok p.evidence_hash valid.hash_format)
              (hash_ok ticket.evidence_hash (rw same_hash valid.hash_format)),
          hash,
        )
        ((validate_pack_iff x (applied_pack x p ticket after checks)).1 applied_pack-IsValid)
