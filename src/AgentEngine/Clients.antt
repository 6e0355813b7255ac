-- ===== src/AgentEngine/Clients.antt =====
-- The clients of api/agent_engine.py: one call of one agent, and the pipeline of four calls. What an agent
-- streams back is a parameter, `stream`, on the client, the user id and the message: its events, or the
-- exception that ends it.
use googlecloudhack.Prelude.{
  ℤ, Error, String, Bool, true, false, ◌==◌, not, Option, none, some, List, [], ◌∷◌, ◌++◌, map, any,
  concat, join, Result, ok, err, raised, agent_diagnosis_parse_error, is_value_error, message,
  ◌>>=◌, if◌then◌else◌,
}
use googlecloudhack.Externals.{Externals}
use googlecloudhack.Value.{Value, str, int, list, tuple, dict, of_items, of_elements, Fields, end}
use googlecloudhack.Schemas.{AgentTraceEvent}
use googlecloudhack.PyText.{list_text}
use googlecloudhack.Orchestrator.Trace.{AgentDiagnosisResult}
use googlecloudhack.Orchestrator.Actions.{Query}
use googlecloudhack.AgentEngine.{Library, event_text, event_function_responses}
use googlecloudhack.AgentEngine.Payload.{
  trace_for_tool, before_from_payload, proposed_index_from_payload, rationale_from_payload,
  diagnosis_from_events,
}

pub record AgentEngineRoleClient : Type 0 where
  pub resource_name : String
  pub project : Option String
  pub location : Option String

pub record AgentEngineDiagnosisPipeline : Type 0 where
  pub diagnose_agent : AgentEngineRoleClient
  pub candidate_agent : AgentEngineRoleClient
  pub rationale_agent : AgentEngineRoleClient

-- `remote.async_stream_query(user_id=..., message=...)`
abbrev pub Stream : Type 0
Stream = AgentEngineRoleClient → String → String → Result (List Value)

-- the answer of a call: what the agent said, and what the tool returned
abbrev pub Answer : Type 0
Answer = String × Fields

-- the keys of a sort: tuples in one prompt, lists in the other
abbrev key_tuple : String × ℤ → Value
key_tuple (name, direction) = tuple (of_elements (str name ∷ int direction ∷ []))

abbrev key_list : String × ℤ → Value
key_list (name, direction) = list (of_elements (str name ∷ int direction ∷ []))

abbrev query_dict : (String × ℤ → Value) → Query → Value
query_dict key query = dict (
    of_items (
      ("filter", dict query.filter)
      ∷ ("sort", list (of_elements (map key query.sort)))
      ∷ ("limit", int query.limit)
      ∷ []))

-- `returns[tool_name]`; none is a KeyError
abbrev pub returns : String → Option String
returns name =
    if name == "explain_slow_query"
    then some "`before` evidence and the tool name"
    else if name == "compare_candidate_indexes"
    then some "candidate metrics, winner, and the tool name"
    else if name == "diagnose_candidate"
    then some "`before`, `diagnosis`, `recommended_index`, and the tool name"
    else if name == "rationalize_recommendation"
    then some "`recommended_index`, `rationale`, and the tool name"
    else none

-- the payloads of the responses of that name
unfoldable pub payloads_of : String → List (String × Fields) → List Fields
payloads_of name [] = []
payloads_of name ((other, payload) ∷ responses) =
    let rest = payloads_of name responses in if other == name then payload ∷ rest else rest

module _ (lib : Library) where
  unfoldable pub build_prompt : (run_id namespace : String) → Query → String
  build_prompt run_id namespace query = concat (
      "You are the DBRE Diagnose Agent. Run the native Mongo diagnosis tools in this order: explain_slow_query, compare_candidate_indexes, diagnose_candidate, rationalize_recommendation. Return compact JSON with keys `before`, `recommended_index`, `rationale`, and `tool_trace`. Do not perform any database mutation.\n\n"
      ∷ lib.dumps true (
          dict (
            of_items (
              ("run_id", str run_id)
              ∷ ("namespace", str namespace)
              ∷ ("query", query_dict key_tuple query)
              ∷ [])))
      ∷ [])

  unfoldable pub role_prompt : (tool_name run_id namespace : String) → Query → Result String
  role_prompt tool_name run_id namespace query = elim (returns tool_name) [
    | none ↦ err (raised tool_name)
    | some contents ↦ ok (
        concat (
          "Run exactly one tool: "
          ∷ tool_name
          ∷ ". Pass this exact JSON string as its `query_json` argument:\n"
          ∷ lib.dumps false (query_dict key_list query)
          ∷ "\n(run_id="
          ∷ run_id
          ∷ ", namespace="
          ∷ namespace
          ∷ "). Return compact JSON containing "
          ∷ contents
          ∷ ". Do not call any other tool or any mutation tool."
          ∷ []))
  ]

-- `except ValueError`
abbrev pub as_parse_error {ℓ} : {T : Type ℓ} → Result T → Result T
as_parse_error (ok t) = ok t
as_parse_error (err exc) =
    if is_value_error exc then err (agent_diagnosis_parse_error (message exc)) else err exc

-- exactly one match, and nothing unexpected
abbrev pub one_match : List Fields → (unexpected : Bool) → Error → String → Result Answer
one_match (payload ∷ []) false exc said = ok (said, payload)
one_match _ _ exc said = err exc

module _ (x : Externals) where
  -- the loop over the events: `chunks` and `responses`
  unfoldable pub chunks : List Value → List String
  chunks events = map (event_text x) events

  unfoldable pub all_responses : List Value → List (String × Fields)
  all_responses [] = []
  all_responses (event ∷ events) = event_function_responses x event ++ all_responses events

  abbrev found_text : List (String × Fields) → String
  found_text responses = list_text (map (λ r. x.str_repr r.0) responses)

  abbrev pub not_one : (resource_name tool_name : String) → List (String × Fields) → String
  not_one resource_name tool_name responses = concat (
      resource_name
      ∷ " must return exactly one "
      ∷ tool_name
      ∷ " response; found="
      ∷ found_text responses
      ∷ [])

  unfoldable pub select_match : (resource_name tool_name : String) → List Value → Result Answer
  select_match resource_name tool_name events =
      let responses = all_responses events in
      one_match (payloads_of tool_name responses) (any (λ r. not (r.0 == tool_name)) responses)
        (agent_diagnosis_parse_error (not_one resource_name tool_name responses))
        (concat (chunks events))

  module _ (stream : Stream) where
    unfoldable pub run_tool :
        AgentEngineRoleClient → (user_id tool_name prompt : String) → Result Answer
    run_tool client user_id tool_name prompt = do
      events ← stream client user_id prompt
      select_match client.resource_name tool_name events

    module _ (lib : Library) where
      -- the loop over the calls: `texts` and `responses`
      unfoldable pub run_calls :
          (run_id namespace : String)
          → Query
          → List (AgentEngineRoleClient × String)
          → Result (List String × List (String × Fields))
      run_calls run_id namespace query [] = ok ([], [])
      run_calls run_id namespace query ((client, tool_name) ∷ calls) = do
        prompt ← role_prompt lib tool_name run_id namespace query
        answer ← run_tool client (concat (run_id ∷ ":" ∷ tool_name ∷ [])) tool_name prompt
        rest ← run_calls run_id namespace query calls
        ok (answer.0 ∷ rest.0, (tool_name, answer.1) ∷ rest.1)

      module _ (pipeline : AgentEngineDiagnosisPipeline) where
        abbrev pub calls : List (AgentEngineRoleClient × String)
        calls =
            (pipeline.diagnose_agent, "explain_slow_query")
            ∷ (pipeline.candidate_agent, "compare_candidate_indexes")
            ∷ (pipeline.diagnose_agent, "diagnose_candidate")
            ∷ (pipeline.rationale_agent, "rationalize_recommendation")
            ∷ []

        abbrev pub tool_trace : AgentEngineRoleClient → String → Fields → AgentTraceEvent
        tool_trace client name payload = trace_for_tool x name payload (some client.resource_name)

        -- `responses[0]` to `responses[3]`: there are four calls
        abbrev pub pipeline_trace : List (String × Fields) → List AgentTraceEvent
        pipeline_trace (first ∷ second ∷ third ∷ fourth ∷ []) =
            tool_trace pipeline.diagnose_agent "explain_slow_query" first.1
            ∷ tool_trace pipeline.candidate_agent "compare_candidate_indexes" second.1
            ∷ tool_trace pipeline.diagnose_agent "diagnose_candidate" third.1
            ∷ tool_trace pipeline.rationale_agent "rationalize_recommendation" fourth.1
            ∷ []
        pipeline_trace _ = []

        unfoldable pub split_diagnose :
            (run_id namespace : String) → Query → Result AgentDiagnosisResult
        split_diagnose run_id namespace query = do
          done ← run_calls run_id namespace query calls
          let responses = done.1
          before ← as_parse_error (before_from_payload lib end responses)
          proposed_index ← as_parse_error (proposed_index_from_payload x end responses)
          ok (record {
            source = "split_agent_engine";
            before = before;
            narrative = rationale_from_payload x lib end responses (join "\n" done.0);
            proposed_index = proposed_index;
            trace = pipeline_trace responses;
          })

      -- the client of the agent that runs all the tools
      unfoldable pub legacy_diagnose :
          AgentEngineRoleClient → (run_id namespace : String) → Query → Result AgentDiagnosisResult
      legacy_diagnose client run_id namespace query = do
        events ← stream client run_id (build_prompt lib run_id namespace query)
        as_parse_error (
            diagnosis_from_events x lib client.resource_name (concat (chunks events))
              (all_responses events))
