-- ===== src/Tests/Routes.antt =====
-- The theorems of api/ at the sample pack.
use googlecloudhack.Prelude.{
  agent_diagnosis_parse_error, if◌then◌else◌, ◌==◌, String, Option, some, none, pos, negsuc, ◌≡◌,
  refl, ◌⊎◌, true, false, none, some, [], ◌∷◌, Error, ok, err,
}
use googlecloudhack.Prelude.Exec.{◌>>=◌}
use googlecloudhack.Value.{Value, dict, str, int, list, of_items, of_elements}
use googlecloudhack.Schemas.{PackStatus, EvidencePack}
use googlecloudhack.Backends.{Fake, fake_backend}
use googlecloudhack.LedgerStore.{write_rejection_records}
use googlecloudhack.Orchestrator.Rejection.{closed_pack, reject_pack_lem}
use googlecloudhack.LedgerStore.Dicts.{lookup, insert}
use googlecloudhack.Orchestrator.Decide.{apply_and_verify}
use googlecloudhack.Orchestrator.Decided.{Decides, apply_and_verify-Decides}
use googlecloudhack.Orchestrator.Actions.{Query, State}
use googlecloudhack.Api.{
  Choice, DecisionRequest, Engine, Service, Response, updated, already_decided, on_engine,
  decide_pack,
}
use googlecloudhack.Prelude.Exec.{lift}
use googlecloudhack.Orchestrator.Actions.{Agent}
use googlecloudhack.Api.Live.{live_engine, live_diagnose, demo_query}
use googlecloudhack.Api.Refused.{IsOpen, IsOpen-refusal, is_updated, decide_pack_refused}
use googlecloudhack.Api.Once.{decide_pack_once}
use googlecloudhack.Api.Reading.{live_engine-IsDeciding, live_diagnose_database, explained}
use googlecloudhack.Api.Runs.{
  RunRequest, IsDiagnosable, trigger_run, store_pack, trigger_run-IsDiagnosable, captured_query,
  query_input, checked,
}
use googlecloudhack.Orchestrator.Checks.{int_of}
use googlecloudhack.Workload.{check_bounds, check_filter, check_sort, assert_safe_query}
use googlecloudhack.Tests.Samples.{
  sample_externals, sample_query, sample_filter, sample_pack, sample_gate, sample_pack-IsValid,
  sample_state, sample_ticket,
}

abbrev sample_engine : Engine (State Fake)
sample_engine = live_engine sample_externals fake_backend none true "2026-06-01"

abbrev sample_service : Service (State Fake)
sample_service = record { packs = ("run-1", sample_pack) ∷ []; engine = sample_state }

abbrev approval : DecisionRequest
approval = record {
  decision = Choice.approve;
  evidence_hash = sample_pack.evidence_hash;
  approver = "Dev";
  note = "";
}

abbrev rejection : DecisionRequest
rejection = record approval { decision = Choice.reject }

sample_stored : lookup "run-1" sample_service.packs ≡ some sample_pack
unfolding lookup
sample_stored = refl

decide_pack_refused_example :
    ((p : EvidencePack) × (lookup "run-2" sample_service.packs ≡ some p)
      × IsOpen p approval.evidence_hash)
    ⊎ ((r : Response) × (decide_pack sample_engine "run-2" approval none sample_service
          ≡ (ok r, sample_service))
        × (is_updated r ≡ false))
decide_pack_refused_example = decide_pack_refused sample_engine "run-2" approval none sample_service

sample-IsOpen : IsOpen sample_pack approval.evidence_hash
sample-IsOpen = record {
  undecided = refl;
  diagnosed = refl;
  same_hash = refl;
  gate = sample_gate;
  has_gate = refl;
  pending = refl;
}

abbrev closed : EvidencePack
closed = closed_pack sample_pack "Dev"

abbrev rejected_service : Service (State Fake)
rejected_service = record {
  packs = ("run-1", closed) ∷ [];
  engine = record sample_state {
    ledger = (write_rejection_records sample_externals closed "Dev" "" (some [])).1;
  };
}

sample_rejected :
    decide_pack sample_engine "run-1" rejection none sample_service
    ≡ (ok (updated closed), rejected_service)
unfolding decide_pack insert
sample_rejected =
    rw
      (
        sample_stored,
        IsOpen-refusal sample_pack rejection sample-IsOpen,
        reject_pack_lem sample_externals sample_pack sample_gate "Dev" "" sample_state
            sample_pack-IsValid refl refl,
      )
      refl

decide_pack_once_example :
    (lookup "run-1" rejected_service.packs ≡ some closed)
    × (decide_pack sample_engine "run-1" approval none rejected_service
        ≡ (ok (already_decided PackStatus.rejected), rejected_service))
decide_pack_once_example =
    decide_pack_once sample_engine
      (live_engine-IsDeciding sample_externals fake_backend none true "2026-06-01") "run-1"
      rejection approval none none sample_service rejected_service sample_pack closed sample_stored
      refl sample_rejected

-- an agent that cannot be read
abbrev silent_agent : Agent Fake
silent_agent run_id namespace query = lift (err (agent_diagnosis_parse_error "no answer"))

live_diagnose_database_example :
    ((live_diagnose sample_externals fake_backend
        (some ("agents/1", silent_agent))
        true
        "2026-06-01"
        "run-1"
        none
        sample_state).1.database
      ≡ sample_state.database)
    ⊎ ((live_diagnose sample_externals fake_backend
          (some ("agents/1", silent_agent))
          true
          "2026-06-01"
          "run-1"
          none
          sample_state).1.database
        ≡ explained sample_externals fake_backend
            (some ("agents/1", silent_agent))
            true
            "2026-06-01"
            demo_query
            (some "esr_wrong_B")
            sample_state.database)
live_diagnose_database_example =
    live_diagnose_database sample_externals fake_backend (some ("agents/1", silent_agent)) true
      "2026-06-01" "run-1" none sample_state

apply_and_verify-Decides_example :
    Decides sample_pack
      (apply_and_verify sample_externals fake_backend sample_pack sample_ticket sample_query none
        sample_state).0
apply_and_verify-Decides_example =
    apply_and_verify-Decides sample_externals fake_backend sample_pack sample_ticket sample_query
      none sample_state

-- a captured query, stored as the workload service stores it
abbrev captured : String → Option Value
captured id =
    if id == "c1"
    then some (
        dict (
          of_items (
            (
              "query",
              dict (
                  of_items (
                    ("filter", dict sample_filter)
                    ∷ (
                      "sort",
                      list (
                          of_elements
                            (list (of_elements (str "saleDate" ∷ int (negsuc 0) ∷ [])) ∷ [])),
                    )
                    ∷ ("limit", int (pos 20))
                    ∷ [])),
            )
            ∷ [])))
    else none

trigger_run-IsDiagnosable_example :
    let body : RunRequest = record { run_id = none; captured_query_id = some "c1" } in
    ((e : Error) × (trigger_run sample_externals sample_engine
          (some captured)
          "run-9"
          body
          sample_service
        ≡ (err e, sample_service)))
    ⊎ ((q : Query) × IsDiagnosable q
        × (trigger_run sample_externals sample_engine (some captured) "run-9" body sample_service
            ≡ (on_engine (sample_engine.diagnose "run-9" (some q)) >>= store_pack) sample_service))
trigger_run-IsDiagnosable_example =
    trigger_run-IsDiagnosable sample_externals sample_engine (some captured) "run-9" none "c1"
      sample_service

-- the captured query is accepted, and is the sample query
captured_accepted : captured_query sample_externals (some captured) "c1" ≡ ok sample_query
unfolding captured_query query_input checked assert_safe_query check_filter check_sort check_bounds
    int_of
captured_accepted = refl
