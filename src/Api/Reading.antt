-- ===== src/Api/Reading.antt =====
-- What the engine of api/server.py does: its diagnosis only reads the database, and its decisions are
-- what the route `decide_pack` relies on.
use googlecloudhack.Prelude.{
  String, ◌≡◌, ap, ◌∙◌, ◌⊎◌, inl, inr, Bool, true, Option, none, some, Result, err, Result-cases,
  agent_diagnosis_parse_error,
}
use googlecloudhack.Externals.{Externals}
use googlecloudhack.Schemas.{EvidencePack}
use googlecloudhack.Schemas.Dump.{thaw}
use googlecloudhack.Backends.{Backend}
use googlecloudhack.Orchestrator.Gate.{ApprovalTicket}
use googlecloudhack.Orchestrator.Actions.{Query, Agent, State, hint_of}
use googlecloudhack.Orchestrator.Decided.{
  Decides, apply_and_verify-Decides, reject_pack-Decides, returned,
}
use googlecloudhack.Orchestrator.Reading.{run_diagnosis_database, run_agent_diagnosis_database}
use googlecloudhack.Api.Live.{
  query_of, demo_query, live_diagnose, live_apply_and_verify, live_engine, with_agent, or_fallback,
  failure_advisor,
}
use googlecloudhack.Api.Once.{IsDeciding}

-- the query and the hint of a run
abbrev pub query_for : Option Query → Query
query_for none = demo_query
query_for (some query) = query

abbrev pub hint_for : Option Query → Option String
hint_for none = some "esr_wrong_B"
hint_for (some query) = none

module _ (x : Externals) {W : Type 0} (backend : Backend W) (agent : Option (String × Agent W))
    (allow : Bool) (now : String) where
  live_apply_and_verify-Decides :
      (p : EvidencePack) (ticket : ApprovalTicket) (s : State W)
      → Decides p (live_apply_and_verify x backend agent allow now p ticket s).0
  unfolding live_apply_and_verify
  live_apply_and_verify-Decides p ticket s =
      elim (Result-cases (query_of x (thaw p.before.query))) [
        | inr (e, k) ↦ rw k tt
        | inl (query, k) ↦ rw k (apply_and_verify-Decides x backend p ticket query none s)
      ]

  -- The engine's decisions give back the run's own pack, decided, or raise.
  pub live_engine-IsDeciding : IsDeciding (live_engine x backend agent allow now)
  live_engine-IsDeciding = record {
    applied = λ p ticket s t q h.
        let d = returned (live_apply_and_verify-Decides p ticket s) (ap (λ z. z.0) h) in
        (d.same_run, d.decided);
    rejected = λ p approver note s t q h.
        let d = returned (reject_pack-Decides x p approver note s) (ap (λ z. z.0) h) in
        (d.same_run, d.decided);
  }

  -- the database after one explain of a query
  abbrev pub explained : Query → Option String → W → W
  explained query hint d = (backend.explain query.filter query.sort query.limit (hint_of hint) d).1

  or_fallback_database :
      (source run_id : String) (query : Query) (hint : Option String) (fallback : Bool)
      (r : Result EvidencePack) (t : State W) (d : W)
      → t.database ≡ d
      → ((or_fallback x backend agent allow now source run_id query hint fallback r t).1.database
          ≡ d)
        ⊎ ((or_fallback x backend agent allow now source run_id query hint fallback r t).1.database
            ≡ explained query hint d)
  or_fallback_database source run_id query hint true (err (agent_diagnosis_parse_error m)) t d h =
      inr (
        run_diagnosis_database x backend run_id "sample_supplies.sales_agent_demo" query none now
          none (some (failure_advisor source)) hint t
        ∙ ap (explained query hint) h)
  or_fallback_database source run_id query hint _ _ t d h = inl h

  -- the database as the agent leaves it, where there is one
  abbrev pub asked : Option (String × Agent W) → (run_id : String) → Query → W → W
  asked none run_id query d = d
  asked (some (source, ask)) run_id query d =
      (ask run_id "sample_supplies.sales_agent_demo" query d).1

  with_agent_database :
      (ask : Option (String × Agent W)) (run_id : String) (query : Query) (hint : Option String)
      (s : State W)
      → ((with_agent x backend agent allow now ask run_id query hint s).1.database
          ≡ asked ask run_id query s.database)
        ⊎ ((with_agent x backend agent allow now ask run_id query hint s).1.database
            ≡ explained query hint (asked ask run_id query s.database))
  with_agent_database none run_id query hint s = inr (
      run_diagnosis_database x backend run_id "sample_supplies.sales_agent_demo" query none now none
        none hint s)
  with_agent_database (some (source, ask)) run_id query hint s =
      or_fallback_database source run_id query hint allow _ _
        (asked (some (source, ask)) run_id query s.database)
        (run_agent_diagnosis_database x ask run_id "sample_supplies.sales_agent_demo" query none now
          none hint s)

  -- A diagnosis by the engine, with or without an agent, whether or not it falls back to the controller
  -- and whether or not it raises, leaves the database as the agent leaves it (as it was, where there is
  -- none), or as one explain leaves that: the program itself applies or drops no index.
  pub live_diagnose_database :
      (run_id : String) (query : Option Query) (s : State W)
      → ((live_diagnose x backend agent allow now run_id query s).1.database
          ≡ asked agent run_id (query_for query) s.database)
        ⊎ ((live_diagnose x backend agent allow now run_id query s).1.database
            ≡ explained
                (query_for query)
                (hint_for query)
                (asked agent run_id (query_for query) s.database))
  unfolding live_diagnose
  live_diagnose_database run_id none s =
      with_agent_database agent run_id demo_query (hint_for none) s
  live_diagnose_database run_id (some query) s = with_agent_database agent run_id query none s
