-- ===== src/Tests/Parts.antt =====
-- The theorems of the parts at small inputs, and runs of the definitions.
use googlecloudhack.Prelude.{
  ℕ, ◌+◌, pos, String, ◌≡◌, ◌≢◌, refl, ap, ◌⊎◌, ◌↔◌, Bool, true, false, none, some, List, [], ◌∷◌,
  ok, elem, ◌==◌, codes, codes-append, nat_eq,
}
use googlecloudhack.Value.{boolean, int, str, end, field, dict}
use googlecloudhack.Schemas.{Diagnosis, EvidencePack}
use googlecloudhack.Schemas.DumpJson.{pack_json}
use googlecloudhack.Schemas.Validators.{validate_pack}
use googlecloudhack.Schemas.Validity.{IsValid, validate_pack_iff}
use googlecloudhack.Phases.{diagnose, verify, next_phase, assert_phase_transition}
use googlecloudhack.Phases.Order.{rank, assert_phase_transition_iff}
use googlecloudhack.Gating.{read_tools, write_tools, is_allowed, call, make_gate}
use googlecloudhack.Gating.Writes.{make_gate_iff}
use googlecloudhack.Diagnosis
use googlecloudhack.Ledger.{evidence_hash}
use googlecloudhack.Ledger.Reordering.{same, dicts, swap, empty, Same, evidence_hash-Same}
use googlecloudhack.LedgerStore.{
  evidence_packs, record_id, write_application_records, write_diagnosis_records,
}
use googlecloudhack.LedgerStore.Dicts.{find}
use googlecloudhack.LedgerStore.Writes.{
  holds, HasRecord, IsForeign, write_application_records_lem, write_diagnosis_records_lem,
}
use googlecloudhack.Orchestrator.Approval.{approval_of}
use googlecloudhack.Tests.Samples.{sample_externals, sample_filter, sample_sort, sample_pack}

validate_pack_iff_example :
    (validate_pack sample_externals sample_pack ≡ ok sample_pack)
    ↔ IsValid sample_externals sample_pack
validate_pack_iff_example = validate_pack_iff sample_externals sample_pack

make_gate_iff_example :
    ((call (make_gate diagnose) "drop-index" ≡ none) ↔ (is_allowed diagnose "drop-index" ≡ true))
    × ((is_allowed diagnose "drop-index" ≡ true) ↔ (
        (elem "drop-index" read_tools ≡ true)
        ⊎ ((elem "drop-index" write_tools ≡ true) × (diagnose ≡ verify))))
    × (((elem "drop-index" write_tools ≡ true) × (call (make_gate diagnose) "drop-index" ≡ none))
        ↔ ((elem "drop-index" write_tools ≡ true) × (diagnose ≡ verify)))
make_gate_iff_example = make_gate_iff diagnose "drop-index"

assert_phase_transition_iff_example :
    ((assert_phase_transition diagnose verify ≡ ok tt) ↔ (rank verify ≡ rank diagnose + 1))
    × ((assert_phase_transition diagnose verify ≡ ok tt) ↔ (next_phase diagnose ≡ ok verify))
assert_phase_transition_iff_example = assert_phase_transition_iff diagnose verify

b-ne-a : ◌≢◌ {A = String} "b" "a"
b-ne-a e = cc (ap (λ s. s == "b") e)

-- a dict inside a dict whose two entries change places
reordered :
    Same
      (dict (field "b" (int (pos 1)) (field "a" (int (pos 2)) end)))
      (dict (field "a" (int (pos 2)) (field "b" (int (pos 1)) end)))
reordered = dicts (swap b-ne-a same same empty)

evidence_hash-Same_example :
    evidence_hash sample_externals (dict (field "b" (int (pos 1)) (field "a" (int (pos 2)) end)))
    ≡ evidence_hash sample_externals (dict (field "a" (int (pos 2)) (field "b" (int (pos 1)) end)))
evidence_hash-Same_example = evidence_hash-Same sample_externals reordered

-- Is the fifth code point a 2?
abbrev fifth_is_2 : List ℕ → Bool
fifth_is_2 (a ∷ b ∷ c ∷ d ∷ e ∷ es) = nat_eq e 50
fifth_is_2 _ = false

fifth-record_id : (event : String) → fifth_is_2 (codes (record_id "run-1" event)) ≡ false
unfolding record_id
fifth-record_id event = rw (codes-append "run-1" _) refl

run_2-IsForeign : IsForeign "run-1" "run-2"
run_2-IsForeign = record {
  not_run = λ e. cc (ap (λ s. fifth_is_2 (codes s)) e);
  not_event = λ event e. cc (ap (λ s. fifth_is_2 (codes s)) e, fifth-record_id event);
}

-- the sample pack with a decision
abbrev decided_pack : EvidencePack
decided_pack = record sample_pack { decision = some (approval_of sample_pack) }

write_application_records_lem_example :
    let (result, l) =
      write_application_records sample_externals decided_pack "Dev" "" "index" (some []) in
    (result ≡ ok tt)
    × HasRecord decided_pack l "decisions" "approve:decision" (("action", str "approve") ∷ [])
    × HasRecord decided_pack l "approvals" "approve:approval"
        (("approver", str "Dev") ∷ ("note", str "") ∷ [])
    × HasRecord decided_pack l "applications" "approve:application"
        (("index_name", str "index") ∷ ("status", str "applied") ∷ [])
    × HasRecord decided_pack l "verifications" "verify:verification"
        (("outcome", str "failed") ∷ [])
    × (holds l evidence_packs "run-1"
        ≡ some (field "_id" (str "run-1") (pack_json sample_externals decided_pack)))
    × (holds l evidence_packs "run-2" ≡ find evidence_packs "run-2" [])
write_application_records_lem_example =
    write_application_records_lem sample_externals decided_pack (approval_of sample_pack) "Dev" ""
      "index" [] evidence_packs "run-2" refl refl run_2-IsForeign

write_diagnosis_records_lem_example :
    let (result, l) =
      write_diagnosis_records sample_externals sample_pack sample_filter sample_sort
        (pos 20)
        none
        "deterministic_esr"
        (some []) in
    (result ≡ ok tt)
    × HasRecord sample_pack l "slow_queries" "diagnose:slow_query"
        (("source", str "deterministic_esr") ∷ [])
    × HasRecord sample_pack l "candidates" "diagnose:candidate"
        (("source", str "deterministic_esr") ∷ ("selected", boolean true) ∷ [])
    × HasRecord sample_pack l "experiments" "diagnose:before"
        (("source", str "deterministic_esr") ∷ [])
    × HasRecord sample_pack l "approvals" "gate:pending" (
        ("required_hash", str sample_pack.evidence_hash) ∷ ("mutation_allowed", boolean false) ∷ [])
    × (holds l evidence_packs "run-1"
        ≡ some (field "_id" (str "run-1") (pack_json sample_externals sample_pack)))
    × (holds l evidence_packs "run-2" ≡ find evidence_packs "run-2" [])
write_diagnosis_records_lem_example =
    write_diagnosis_records_lem sample_externals sample_pack sample_filter sample_sort (pos 20) none
      "deterministic_esr" [] evidence_packs "run-2" run_2-IsForeign
