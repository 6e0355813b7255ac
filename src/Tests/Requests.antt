-- ===== src/Tests/Requests.antt =====
-- The theorems on overlapping requests of api/routes.py at the sample pack.
use googlecloudhack.Prelude.{
  String, Option, true, refl, inl, inr, ◌≢◌, ok, none, some, [], ◌∷◌, All,
}
use googlecloudhack.Value.{Value}
use googlecloudhack.Backends.{Fake, fake_backend}
use googlecloudhack.Schemas.{EvidencePack}
use googlecloudhack.Orchestrator.Actions.{State}
use googlecloudhack.Api.{Choice, DecisionRequest, Engine, Service}
use googlecloudhack.Api.Live.{live_engine}
use googlecloudhack.Api.Reading.{live_engine-IsDeciding}
use googlecloudhack.Api.Concurrent.{Waiting, Step, Steps, HasRun, finish}
use googlecloudhack.Api.Runs.{RunRequest, captured_query, trigger_run}
use googlecloudhack.Api.Lasting.{IsDecided, IsProper, Steps-lasting}
use googlecloudhack.Tests.Samples.{
  sample_externals, sample_pack, sample_state, sample_ticket, sample_ticket-Approves,
}

abbrev request_engine : Engine (State Fake)
request_engine = live_engine sample_externals fake_backend none true "2026-06-01"

abbrev request_service : Service (State Fake)
request_service = record { packs = ("run-1", sample_pack) ∷ []; engine = sample_state }

abbrev approve_request : DecisionRequest
approve_request = record {
  decision = Choice.approve;
  evidence_hash = sample_pack.evidence_hash;
  approver = "Dev";
  note = "";
}

-- a service that has captured nothing
abbrev request_workload : Option (String → Option Value)
request_workload = some (λ captured_id. none)

-- an approval that waits for the engine
abbrev sample_waiting : Waiting
sample_waiting = record { pack = sample_pack; ticket = sample_ticket }

sample_waiting-IsProper : IsProper sample_waiting
sample_waiting-IsProper = record { undecided = refl; approved = sample_ticket-Approves }

-- a run of a query that is not captured, under the id of the sample pack
abbrev run_request : RunRequest
run_request = record { run_id = some "run-1"; captured_query_id = some "slow-1" }

abbrev decided_service : Service (State Fake)
decided_service = (finish request_engine sample_waiting request_service).1

abbrev after_requests : Service (State Fake)
after_requests =
    (trigger_run sample_externals request_engine request_workload "run-9" run_request
      decided_service).1

-- the engine finishes the approval, and then the run is refused
abbrev request_steps :
    Steps sample_externals request_engine request_workload
      (record { service = request_service; waiting = sample_waiting ∷ [] })
      (record { service = after_requests; waiting = [] })
request_steps =
    Steps.next (Steps.next Steps.done (Step.goes_on sample_waiting request_service [] []))
      (Step.runs "run-9" run_request decided_service [])

run_is_refused :
    (s : Service (State Fake)) (p : EvidencePack)
    → (trigger_run sample_externals request_engine request_workload "run-9" run_request s).0 ≢ ok p
unfolding trigger_run captured_query
run_is_refused s p e = cc e

no_run : ¬ HasRun sample_externals request_engine request_workload "run-1" request_steps
no_run (inl (inl h)) = h
no_run (inl (inr h)) = h
no_run (inr (p, e, same)) = run_is_refused decided_service p e

Steps-lasting_example :
    (IsDecided "run-1" request_service → IsDecided "run-1" after_requests) × All IsProper []
Steps-lasting_example =
    Steps-lasting sample_externals request_engine request_workload
      (record { service = request_service; waiting = sample_waiting ∷ [] })
      (record { service = after_requests; waiting = [] }) "run-1"
      (live_engine-IsDeciding sample_externals fake_backend none true "2026-06-01") request_steps
      no_run (sample_waiting-IsProper, tt)
