-- ===== src/Orchestrator/Actions.antt =====
-- `run_diagnosis`, `run_agent_diagnosis`, `apply_and_verify` and `reject_pack` of
-- controller/orchestrator.py. The state is the backend's and the ledger's. An agent, an advisor and a
-- narrator are outside the repository: each is a function that may raise.
use googlecloudhack.Prelude.{
  ℤ, String, Option, none, some, List, [], ◌∷◌, is_empty, Result, ok, err, if◌then◌else◌,
  ◌>>=◌ as bind,
}
use googlecloudhack.Prelude.Exec.{Exec, pure, lift, ◌>>=◌, ◌>>◌}
use googlecloudhack.Externals.{Externals}
use googlecloudhack.Value.{Fields}
use googlecloudhack.Phases
use googlecloudhack.Phases.{Phase, assert_phase_transition}
use googlecloudhack.Schemas.{
  PackStatus, ApprovalGateState, Evidence, EvidencePack, has_blocking_sort,
}
use googlecloudhack.Diagnosis.{diagnose}
use googlecloudhack.Pack.{pack_evidence_hash, build_pack}
use googlecloudhack.Backends.{Hint, no_hint, by_name, Backend}
use googlecloudhack.LedgerStore.{Ledger, write_gate_opened_record, write_diagnosis_records}
use googlecloudhack.Orchestrator.Gate.{gate_ledger_ref, approval_gate}
use googlecloudhack.Orchestrator.Trace.{
  DiagnosisAdvice, AgentDiagnosisResult, agent_phase_note, diagnosis_trace,
}

-- the query of a run
pub record Query : Type 0 where
  pub filter : Fields
  pub sort : List (String × ℤ)
  pub limit : ℤ

-- `narrator.narrate`
abbrev pub Narrator : Type 0
Narrator = EvidencePack → Result String

-- `advisor.advise`, on the run, the namespace, the query and the evidence
abbrev pub Advisor : Type 0
Advisor = String → String → Query → Evidence → Result DiagnosisAdvice

-- `agent.diagnose`, on the run, the namespace and the query; its tools read the database, or change it
abbrev pub Agent : (W : Type 0) → Type 0
Agent W = String → String → Query → Exec W AgentDiagnosisResult

pub record State (W : Type 0) : Type 0 where
  pub database : W
  pub ledger : Ledger

module _ {W A : Type 0} where
  abbrev pub on_database : Exec W A → Exec (State W) A
  on_database m s = let (r, d) = m s.database in (r, record s { database = d })

  abbrev pub on_ledger : Exec Ledger A → Exec (State W) A
  on_ledger m s = let (r, l) = m s.ledger in (r, record s { ledger = l })

-- `_maybe_narrate`
unfoldable pub maybe_narrate : EvidencePack → Option Narrator → Result EvidencePack
maybe_narrate p none = ok p
maybe_narrate p (some narrate) = elim (narrate p) [
  | ok text ↦ ok (record p { narrative = some text })
  | err e ↦ err e
]

-- `created_at or _now()`
abbrev pub created_or_now : Option String → String → String
created_or_now none now = now
created_or_now (some s) now = if is_empty s then now else s

abbrev pub hint_of : Option String → Hint
hint_of none = no_hint
hint_of (some name) = by_name name

abbrev pub advise :
    Option Advisor → String → String → Query → Evidence → Result (Option DiagnosisAdvice)
advise none run_id namespace query before = ok none
advise (some advisor) run_id namespace query before = elim (advisor run_id namespace query before) [
  | ok a ↦ ok (some a)
  | err e ↦ err e
]

abbrev pub advice_result : Evidence → Option DiagnosisAdvice → Option AgentDiagnosisResult
advice_result before none = none
advice_result before (some a) = some (record {
  source = a.source;
  before = before;
  narrative = a.narrative;
  proposed_index = a.proposed_index;
  trace = a.trace;
})

abbrev pub result_narrative : Option AgentDiagnosisResult → Option String
result_narrative none = none
result_narrative (some r) = some r.narrative

abbrev pub result_source : Option AgentDiagnosisResult → Option (String × List (String × ℤ))
result_source none = none
result_source (some r) = some (r.source, r.proposed_index)

module _ (x : Externals) where
  -- What `run_diagnosis` and `run_agent_diagnosis` both do with the evidence: diagnose it, bind it
  -- by its hash, and build the diagnosed pack with its pending gate. `result` is what the agent or
  -- the advisor said.
  unfoldable pub diagnosed_pack :
      (run_id namespace created_at : String)
      → Query
      → Evidence
      → Option AgentDiagnosisResult
      → (current_index : Option String) → Result EvidencePack
  diagnosed_pack run_id namespace created_at query before result current_index =
      bind (diagnose x query.filter query.sort (has_blocking_sort before.metrics) current_index)
        λ d.
          let hash = pack_evidence_hash x before d.recommendation in
          bind
            (approval_gate run_id ApprovalGateState.pending_approval (some hash) none none
              (gate_ledger_ref run_id "pending"))
            λ gate.
              build_pack x run_id namespace created_at before d.finding d.recommendation
                PackStatus.diagnosed none none
                (record {
                  from_phase = none;
                  to_phase = Phases.diagnose;
                  note = agent_phase_note x (result_source result) d.recommendation.index_spec;
                }
                  ∷ [])
                (diagnosis_trace run_id result d.recommendation.index_spec hash) (some gate)
                (result_narrative result)

  -- the end of both: narrate the pack that was built, and write its records
  unfoldable pub record_diagnosis :
      {W : Type 0}
      → Query
      → (current_index : Option String) → (source : String) → Option Narrator
      → Result EvidencePack
      → Exec (State W) EvidencePack
  record_diagnosis query current_index source narrator built = do
    unnarrated ← lift built
    pack ← lift (maybe_narrate unnarrated narrator)
    on_ledger
        (write_diagnosis_records x pack query.filter query.sort query.limit current_index source)
    pure pack

  module _ {W : Type 0} (backend : Backend W) where
    unfoldable pub run_diagnosis :
        (run_id namespace : String)
        → Query
        → (created_at : Option String) → (now : String) → Option Narrator
        → Option Advisor
        → (current_index : Option String) → Exec (State W) EvidencePack
    run_diagnosis run_id namespace query created_at now narrator advisor current_index = do
      let created = created_or_now created_at now
      on_ledger (write_gate_opened_record run_id namespace created)
      before ←
          on_database (backend.explain query.filter query.sort query.limit (hint_of current_index))
      advice ← lift (advise advisor run_id namespace query before)
      record_diagnosis query current_index "deterministic_esr" narrator (
          diagnosed_pack run_id namespace created query before (advice_result before advice)
            current_index)

  unfoldable pub run_agent_diagnosis :
      {W : Type 0}
      → Agent W
      → (run_id namespace : String) → Query
      → (created_at : Option String) → (now : String) → Option Narrator
      → (current_index : Option String) → Exec (State W) EvidencePack
  run_agent_diagnosis agent run_id namespace query created_at now narrator current_index = do
    let created = created_or_now created_at now
    on_ledger (write_gate_opened_record run_id namespace created)
    result ← on_database (agent run_id namespace query)
    record_diagnosis query current_index "agent_engine_tool" narrator
        (diagnosed_pack run_id namespace created query result.before (some result) current_index)
