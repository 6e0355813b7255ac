-- ===== src/Orchestrator/Reading.antt =====
-- What `run_diagnosis` and `run_agent_diagnosis` of controller/orchestrator.py do: they read, and
-- leave a pack that waits for its approval.
use googlecloudhack.Prelude.{String, ◌≡◌, refl, inl, inr, Option, Result, ok, err, Result-cases}
use googlecloudhack.Prelude.Exec.{Exec, pure, lift, ◌>>=◌, ◌>>◌}
use googlecloudhack.Externals.{Externals}
use googlecloudhack.Schemas.{EvidencePack}
use googlecloudhack.Backends.{Backend}
use googlecloudhack.LedgerStore.{write_gate_opened_record, write_diagnosis_records}
use googlecloudhack.Orchestrator.Actions.{
  Query, Narrator, Advisor, Agent, State, maybe_narrate, hint_of, advise, record_diagnosis,
  on_ledger, run_diagnosis, run_agent_diagnosis,
}

-- A statement that leaves the database as it was, whether it raises or not.
abbrev pub KeepsDatabase : {W A : Type 0} → Exec (State W) A → Type 0
KeepsDatabase {W} m = (s : State W) → (m s).1.database ≡ s.database

narrated_database :
    (x : Externals) {W : Type 0} (query : Query) (current_index : Option String) (source : String)
    (r : Result EvidencePack)
    → KeepsDatabase {W = W} (
        lift r >>= λ pack.
        on_ledger
          (write_diagnosis_records x pack query.filter query.sort query.limit current_index source)
        >> pure pack)
unfolding write_diagnosis_records
narrated_database x query current_index source (ok pack) s = refl
narrated_database x query current_index source (err e) s = refl

record_diagnosis_database :
    (x : Externals) {W : Type 0} (query : Query) (current_index : Option String) (source : String)
    (narrator : Option Narrator) (built : Result EvidencePack)
    → KeepsDatabase {W = W} (record_diagnosis x query current_index source narrator built)
unfolding record_diagnosis
record_diagnosis_database x query current_index source narrator (ok p) s =
    narrated_database x query current_index source (maybe_narrate p narrator) s
record_diagnosis_database x query current_index source narrator (err e) s = refl

-- For every backend, the database after a diagnosis by the controller is the database as its one explain
-- leaves it, whether the diagnosis succeeds or raises.
pub run_diagnosis_database :
    (x : Externals) {W : Type 0} (backend : Backend W) (run_id namespace : String) (query : Query)
    (created_at : Option String) (now : String) (narrator : Option Narrator)
    (advisor : Option Advisor) (current_index : Option String) (s : State W)
    → (run_diagnosis x backend run_id namespace query created_at now narrator advisor current_index
        s).1.database
      ≡ (backend.explain query.filter query.sort query.limit (hint_of current_index) s.database).1
unfolding run_diagnosis write_gate_opened_record
run_diagnosis_database x backend run_id namespace query created_at now narrator advisor
      current_index s =
    let explained =
      backend.explain query.filter query.sort query.limit (hint_of current_index) s.database in
    elim (Result-cases explained.0) [
      | inr (e, h) ↦ rw h refl
      | inl (before, h) ↦ rw h (elim (Result-cases (advise advisor run_id namespace query before)) [
        | inr (e, k) ↦ rw k refl
        | inl (advice, k) ↦
            rw k (record_diagnosis_database x query current_index "deterministic_esr" narrator _ _)
      ])
    ]

-- The database after a diagnosis by an agent is the database as the agent leaves it.
pub run_agent_diagnosis_database :
    (x : Externals) {W : Type 0} (agent : Agent W) (run_id namespace : String) (query : Query)
    (created_at : Option String) (now : String) (narrator : Option Narrator)
    (current_index : Option String) (s : State W)
    → (run_agent_diagnosis x agent run_id namespace query created_at now narrator current_index
        s).1.database
      ≡ (agent run_id namespace query s.database).1
unfolding run_agent_diagnosis write_gate_opened_record
run_agent_diagnosis_database x agent run_id namespace query created_at now narrator current_index
      s =
    elim (Result-cases (agent run_id namespace query s.database).0) [
      | inr (e, h) ↦ rw h refl
      | inl (result, h) ↦
          rw h (record_diagnosis_database x query current_index "agent_engine_tool" narrator _ _)
    ]
