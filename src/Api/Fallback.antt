-- ===== src/Api/Fallback.antt =====
-- `_LiveEngine.diagnose` of api/server.py over the agents of api/agent_engine.py: what an agent answers
-- does not decide whether a run gets its pack, but for an infinite direction in a proposed index.
use googlecloudhack.Prelude.{
  String, true, false, ◌≡◌, refl, ◌⊎◌, inl, inr, Result, Option, none, some, is_empty, Error, ok,
  err, ap, agent_diagnosis_parse_error, [],
}
use googlecloudhack.Prelude.Exec.{lift}
use googlecloudhack.Externals.{Externals}
use googlecloudhack.Value.{end}
use googlecloudhack.Schemas.{Evidence, EvidencePack}
use googlecloudhack.Schemas.Validators.{is_run_id}
use googlecloudhack.Backends.{Backend}
use googlecloudhack.LedgerStore.{write_gate_opened_record}
use googlecloudhack.LedgerStore.Writes.{write_gate_opened_record_ok}
use googlecloudhack.Orchestrator.Trace.{AgentDiagnosisResult}
use googlecloudhack.Orchestrator.Actions.{Query, Agent, State, hint_of, run_agent_diagnosis}
use googlecloudhack.Orchestrator.Pending.{
  IsPending, run_diagnosis-IsPending, run_agent_diagnosis-IsPending,
}
use googlecloudhack.AgentEngine.{Library}
use googlecloudhack.AgentEngine.Clients.{AgentEngineDiagnosisPipeline, Stream, split_diagnose}
use googlecloudhack.Orchestrator.Checks.{is_conversion_error}
use googlecloudhack.AgentEngine.Overflow.{IsOverflow, IsEnded}
use googlecloudhack.AgentEngine.Pipeline.{IsStreaming, split_diagnose-IsParsed}
use googlecloudhack.Api.Reading.{query_for, hint_for}
use googlecloudhack.Api.Live.{demo_query, failure_advisor, or_fallback, with_agent, live_diagnose}

-- the agents behind their streams, which leave the database alone
abbrev pub over_stream :
    {W : Type 0} → (String → String → Query → Result AgentDiagnosisResult) → Agent W
over_stream ask run_id namespace query = lift (ask run_id namespace query)

-- an agent that raises leaves the opened gate in the ledger
run_agent_diagnosis_raised :
    (x : Externals) {W : Type 0} (ask : String → String → Query → Result AgentDiagnosisResult)
    (run_id namespace : String) (query : Query) (now : String) (current_index : Option String)
    (s : State W) (exc : Error)
    → ask run_id namespace query ≡ err exc
    → run_agent_diagnosis x (over_stream ask) run_id namespace query none now none current_index s
      ≡ (err exc, record s { ledger = (write_gate_opened_record run_id namespace now s.ledger).1 })
unfolding run_agent_diagnosis
run_agent_diagnosis_raised x ask run_id namespace query now current_index s exc e =
    simp (write_gate_opened_record_ok run_id namespace now s.ledger, e)

-- the fallback is for an AgentDiagnosisParseError
or_fallback_uncaught :
    (x : Externals) {W : Type 0} (backend : Backend W) (agent : Option (String × Agent W))
    (now source run_id : String) (query : Query) (current_index : Option String) (exc : Error)
    (s : State W)
    → is_conversion_error exc ≡ false
    → or_fallback x backend agent true now source run_id query current_index true (err exc) s
      ≡ (err exc, s)
or_fallback_uncaught x backend agent now source run_id query current_index
      (agent_diagnosis_parse_error m) s h =
    cc
or_fallback_uncaught x backend agent now source run_id query current_index _ s h = refl

-- A run ends with its pack, which waits for approval, or with the exception of an infinite direction, and
-- the database is then as it was.
abbrev pub IsAnswered :
    (x : Externals) {W : Type 0} (run_id : String) (s : State W)
    → Result EvidencePack × State W
    → Type 0
IsAnswered x {W} run_id s outcome =
    ((q : EvidencePack) × (t : State W) × (outcome ≡ (ok q, t))
      × IsPending x q
      × (q.run_id ≡ run_id))
    ⊎ ((exc : Error) × (t : State W) × (outcome ≡ (err exc, t))
        × IsOverflow x exc
        × (t.database ≡ s.database))

module _ (x : Externals) {W : Type 0} (backend : Backend W) (source run_id now : String)
    (ask : String → String → Query → Result AgentDiagnosisResult)
    (P : AgentDiagnosisResult → Type 0) where
  with_agent-IsPending :
      (query : Query) (current_index : Option String) (s : State W) (before : Evidence) (d' : W)
      → is_run_id run_id ≡ true
      → is_empty now ≡ false
      → ¬ ((query.filter ≡ end) × (query.sort ≡ []))
      → backend.explain query.filter query.sort query.limit (hint_of current_index) s.database
        ≡ (ok before, d')
      → IsEnded x P (ask run_id "sample_supplies.sales_agent_demo" query)
      → IsAnswered x run_id s (
          with_agent x backend
            (some (source, over_stream ask))
            true
            now
            (some (source, over_stream ask))
            run_id
            query
            current_index
            s)
  unfolding failure_advisor
  with_agent-IsPending query current_index s before d' r n some_key explained
        (inl (inl (result, e, u))) =
      let (q, l, ran, pending, same_run, same_before, esr) =
        run_agent_diagnosis-IsPending x (over_stream ask) run_id "sample_supplies.sales_agent_demo"
          query none now current_index s result s.database r refl n some_key
          (ap (λ r. (r, s.database)) e) in
      inl (q, record s { ledger = l }, simp ran, pending, same_run)
  with_agent-IsPending query current_index s before d' r n some_key explained (inl (inr (m, e))) =
      let opened = record s {
        ledger =
            (write_gate_opened_record run_id "sample_supplies.sales_agent_demo" now s.ledger).1;
      } in
      let raised =
        run_agent_diagnosis_raised x ask run_id "sample_supplies.sales_agent_demo" query now
          current_index s (agent_diagnosis_parse_error m) e in
      let (q, l, ran, pending, same_run, same_before, esr) =
        run_diagnosis-IsPending x backend run_id "sample_supplies.sales_agent_demo" query none now
          (some (failure_advisor source)) current_index opened before d' (some _) r refl n some_key
          explained refl in
      inl (q, record { database = d'; ledger = l }, simp (raised, ran), pending, same_run)
  with_agent-IsPending query current_index s before d' r n some_key explained (inr (exc, e, o)) =
      let raised =
        run_agent_diagnosis_raised x ask run_id "sample_supplies.sales_agent_demo" query now
          current_index s exc e in
      inr (
        exc,
        record s {
          ledger =
              (write_gate_opened_record run_id "sample_supplies.sales_agent_demo" now s.ledger).1;
        },
        rw raised (
            or_fallback_uncaught x backend (some (source, over_stream ask)) now source run_id query
              current_index exc _ o.uncaught),
        o,
        refl,
      )

-- With the fallback on, a run over the three deployed agents ends with a pack that waits for approval,
-- whatever the agents answer, when their streams come to an end and the database can explain the query:
-- for a run with a proper id and a query with a filter or a sort, or the query of the demonstration. The
-- one exception is what `int` raises for an infinite direction in an index that an agent proposes, neither
-- a TypeError nor a ValueError: the run then raises it, and the database is as it was.
pub live_diagnose-IsPending :
    (x : Externals) {W : Type 0} (backend : Backend W) (stream : Stream) (lib : Library)
    (pipeline : AgentEngineDiagnosisPipeline) (source run_id now : String) (asked : Option Query)
    (s : State W) (before : Evidence) (d' : W)
    → IsStreaming stream
    → is_run_id run_id ≡ true
    → is_empty now ≡ false
    → ¬ (((query_for asked).filter ≡ end) × ((query_for asked).sort ≡ []))
    → backend.explain
        (query_for asked).filter
        (query_for asked).sort
        (query_for asked).limit
        (hint_of (hint_for asked))
        s.database
      ≡ (ok before, d')
    → IsAnswered x run_id s (
        live_diagnose x backend
          (some (source, over_stream (split_diagnose x stream lib pipeline)))
          true
          now
          run_id
          asked
          s)
unfolding live_diagnose
live_diagnose-IsPending x backend stream lib pipeline source run_id now none s before d' total r n
      some_key explained =
    with_agent-IsPending x backend source run_id now (split_diagnose x stream lib pipeline) _
      demo_query (some "esr_wrong_B") s before d' r n some_key explained
      (split_diagnose-IsParsed x stream lib pipeline run_id "sample_supplies.sales_agent_demo"
        demo_query total)
live_diagnose-IsPending x backend stream lib pipeline source run_id now (some query) s before d'
      total r n some_key explained =
    with_agent-IsPending x backend source run_id now (split_diagnose x stream lib pipeline) _ query
      none s before d' r n some_key explained
      (split_diagnose-IsParsed x stream lib pipeline run_id "sample_supplies.sales_agent_demo" query
        total)
