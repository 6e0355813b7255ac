-- ===== src/Tests/Approvals.antt =====
-- The theorems of controller/orchestrator.py at the sample pack.
use googlecloudhack.Prelude.{pos, ◌≡◌, refl, ◌⊎◌, ◌↔◌, true, none, some, [], ◌∷◌, Error, ok, err}
use googlecloudhack.Externals.{is_hash}
use googlecloudhack.Value.{end}
use googlecloudhack.Schemas.{PackStatus, EvidencePack}
use googlecloudhack.Schemas.Validity.{IsValid}
use googlecloudhack.Diagnosis.Esr.{IsEsr}
use googlecloudhack.LedgerStore.{Ledger}
use googlecloudhack.Orchestrator.Gate.{ApprovalTicket, issue_approval_ticket}
use googlecloudhack.Orchestrator.Trace.{AgentDiagnosisResult}
use googlecloudhack.Pack.{pack_evidence_hash}
use googlecloudhack.Ledger.{evidence_hash}
use googlecloudhack.Backends.{fake_backend, Fake}
use googlecloudhack.Orchestrator.Actions.{hint_of, run_diagnosis}
use googlecloudhack.Orchestrator.Decide.{approve_decision, reject_pack, apply_and_verify}
use googlecloudhack.Orchestrator.Outcome.{Measured, apply_and_verify_verdict}
use googlecloudhack.Orchestrator.Approval.{
  apply_and_verify_guarded, issue_approval_ticket_iff, approve_decision_iff, approval_of, Approves,
}
use googlecloudhack.Orchestrator.Pending.{IsPending, run_diagnosis-IsPending}
use googlecloudhack.Orchestrator.Reading.{run_diagnosis_database}
use googlecloudhack.Orchestrator.Rejection.{rejection_of, reject_pack-total}
use googlecloudhack.Orchestrator.Patterns.{FiniteFields}
use googlecloudhack.Orchestrator.Evidenced.{IsFixed, verification_checks_iff}
use googlecloudhack.Orchestrator.Checks.{
  Checks, verification_checks, all_hold, recommended_index_name,
}
use googlecloudhack.Tests.Samples.{
  sample_externals, sample_query, sample_filter, sample_sort, slow, fast, sample_pack, sample_gate,
  sample_pack-IsValid, sample_ticket, sample_ticket-Approves, sample_database, sample_state,
  explained_state, run_1-is_run_id,
}

abbrev measured_database : Fake
measured_database = record {
  results = slow ∷ fast ∷ [];
  call_count = 2;
  applied_indexes =
      (sample_pack.recommendation.index_spec, recommended_index_name sample_pack.recommendation)
      ∷ [];
  dropped_indexes = [];
}

sample-Measured :
    Measured fake_backend sample_pack sample_query explained_state.database measured_database fast
sample-Measured = record {
  between = record explained_state.database { applied_indexes = measured_database.applied_indexes };
  applied = refl;
  explained = refl;
}

fast_plan_finite : FiniteFields sample_externals fast.explain_plan
fast_plan_finite = (tt, ((tt, (tt, tt)), tt))

apply_and_verify_verdict_example :
    (q : EvidencePack) × (l : Ledger) × (apply_and_verify sample_externals fake_backend sample_pack
        sample_ticket sample_query none explained_state
      ≡ (ok q, record { database = measured_database; ledger = l }))
    × IsValid sample_externals q
    × ((q.status ≡ PackStatus.verified)
        ↔ IsFixed sample_externals slow fast sample_pack.recommendation
            (recommended_index_name sample_pack.recommendation))
    × ((q.status ≡ PackStatus.verified) ⊎ (q.status ≡ PackStatus.approved))
    × (q.after ≡ some fast)
    × (q.decision ≡ some (approval_of sample_pack))
    × (q.evidence_hash ≡ sample_pack.evidence_hash)
    × (q.before ≡ slow)
    × (q.recommendation ≡ sample_pack.recommendation)
apply_and_verify_verdict_example =
    apply_and_verify_verdict sample_externals fake_backend sample_pack sample_ticket sample_query
      explained_state measured_database fast sample_pack-IsValid sample_ticket-Approves
      sample-Measured fast_plan_finite

-- a ticket for another hash
abbrev stale_ticket : ApprovalTicket
stale_ticket = record sample_ticket { evidence_hash = "" }

apply_and_verify_guarded_example :
    Approves sample_pack stale_ticket
    ⊎ ((e : Error) × (apply_and_verify sample_externals fake_backend sample_pack stale_ticket
            sample_query none sample_state
          ≡ (err e, sample_state)))
apply_and_verify_guarded_example =
    apply_and_verify_guarded sample_externals fake_backend sample_pack stale_ticket sample_query
      none sample_state

run_diagnosis_database_example :
    (run_diagnosis sample_externals fake_backend "run-1" "db.sales" sample_query none "2026-06-01"
      none none none sample_state).1.database
    ≡ (fake_backend.explain sample_filter sample_sort (pos 20) (hint_of none) sample_database).1
run_diagnosis_database_example =
    run_diagnosis_database sample_externals fake_backend "run-1" "db.sales" sample_query none
      "2026-06-01" none none none sample_state

asks_something : ¬ ((sample_filter ≡ end) × (sample_sort ≡ []))
asks_something (no_filter, no_sort) = cc

run_diagnosis-IsPending_example :
    (q : EvidencePack) × (l : Ledger) × (run_diagnosis sample_externals fake_backend "run-1"
        "db.sales" sample_query none "2026-06-01" none none none sample_state
      ≡ (ok q, record { database = explained_state.database; ledger = l }))
    × IsPending sample_externals q
    × (q.run_id ≡ "run-1")
    × (q.before ≡ slow)
    × IsEsr sample_filter sample_sort q.recommendation.index_spec
run_diagnosis-IsPending_example =
    run_diagnosis-IsPending sample_externals fake_backend "run-1" "db.sales" sample_query none
      "2026-06-01" none none sample_state slow explained_state.database none run_1-is_run_id refl
      refl asks_something refl refl

abbrev sample_result : AgentDiagnosisResult
sample_result = record {
  source = "agent_engine";
  before = slow;
  narrative = "a blocking sort";
  proposed_index = [];
  trace = [];
}

issue_approval_ticket_iff_example :
    ((ticket : ApprovalTicket) × (issue_approval_ticket sample_pack sample_pack.evidence_hash "Dev"
          ""
        ≡ ok ticket))
    ↔ (sample_pack.evidence_hash ≡ sample_pack.evidence_hash)
issue_approval_ticket_iff_example =
    issue_approval_ticket_iff sample_externals sample_pack sample_gate sample_pack.evidence_hash
      "Dev" "" sample_pack-IsValid refl refl

sample_issued :
    issue_approval_ticket sample_pack sample_pack.evidence_hash "Dev" "" ≡ ok sample_ticket
unfolding issue_approval_ticket pack_evidence_hash evidence_hash
sample_issued = refl

approve_decision_iff_example :
    (approve_decision sample_pack sample_ticket ≡ ok (approval_of sample_pack)) ↔ (
      Approves sample_pack sample_ticket
      × (is_hash sample_pack.evidence_hash ≡ true)
      × (approval_of sample_pack ≡ approval_of sample_pack))
approve_decision_iff_example =
    approve_decision_iff sample_pack sample_ticket (approval_of sample_pack)

reject_pack-total_example :
    (q : EvidencePack) × (l : Ledger) × (reject_pack sample_externals sample_pack "Dev" "no"
        sample_state
      ≡ (ok q, record sample_state { ledger = l }))
    × IsValid sample_externals q
    × (q.status ≡ PackStatus.rejected)
    × (q.decision ≡ some (rejection_of sample_pack))
    × (q.after ≡ none)
    × (q.evidence_hash ≡ sample_pack.evidence_hash)
    × (q.before ≡ slow)
    × (q.recommendation ≡ sample_pack.recommendation)
reject_pack-total_example =
    reject_pack-total sample_externals sample_pack sample_gate "Dev" "no" sample_state
      sample_pack-IsValid refl refl

verification_checks_iff_example :
    (checks : Checks) × (verification_checks sample_externals slow fast sample_pack.recommendation
        (recommended_index_name sample_pack.recommendation)
      ≡ ok checks)
    × ((all_hold checks ≡ true)
        ↔ IsFixed sample_externals slow fast sample_pack.recommendation
            (recommended_index_name sample_pack.recommendation))
verification_checks_iff_example =
    verification_checks_iff sample_externals slow fast sample_pack.recommendation
      (recommended_index_name sample_pack.recommendation) fast_plan_finite
