-- ===== src/Tests/Agents.antt =====
-- The theorems on the agents of api/agent_engine.py at sample answers.
use googlecloudhack.Prelude.{
  String, ◌==◌, ◌≡◌, refl, ◌⊎◌, inr, true, false, Option, none, some, List, [], ◌∷◌, map, Error, ok,
  err, if◌then◌else◌,
}
use googlecloudhack.Value.{Value, str, list, dict, Fields, end, of_items, of_elements}
use googlecloudhack.PyText.{text}
use googlecloudhack.Backends.{fake_backend}
use googlecloudhack.Orchestrator.Trace.{AgentDiagnosisResult}
use googlecloudhack.AgentEngine.{
  Library, event_parts, event_text, event_function_responses, part_text, part_function_response,
}
use googlecloudhack.AgentEngine.Clients.{
  AgentEngineRoleClient, AgentEngineDiagnosisPipeline, Stream, all_responses, chunks, run_tool,
  select_match, payloads_of, split_diagnose,
}
use googlecloudhack.AgentEngine.Config.{DiagnosisAgent, diagnosis_agent_from_env}
use googlecloudhack.AgentEngine.Deployed.{
  HasNoLegacy, IsDeployed, is_config_error, diagnosis_agent_from_env_required,
}
use googlecloudhack.AgentEngine.Overflow.{IsEnded}
use googlecloudhack.AgentEngine.Pipeline.{IsStreaming, call_of, four_calls, split_diagnose-IsParsed}
use googlecloudhack.Api.Live.{live_diagnose}
use googlecloudhack.Api.Fallback.{IsAnswered, over_stream, live_diagnose-IsPending}
use googlecloudhack.Tests.Samples.{
  sample_externals, sample_query, slow, sample_state, explained_state, run_1-is_run_id,
}

asks_a_sort : ¬ ((sample_query.filter ≡ end) × (sample_query.sort ≡ []))
asks_a_sort (no_filter, no_sort) = cc

-- constant functions in the place of the libraries'
abbrev pub sample_library : Library
sample_library = record {
  raw_decode = λ s. none;
  dumps = λ sort_keys v. "{}";
  strip = λ s. s;
  validate_evidence = λ fs. inr slow;
}

abbrev client_of : String → AgentEngineRoleClient
client_of name = record { resource_name = name; project = none; location = some "us-central1" }

abbrev pub sample_pipeline : AgentEngineDiagnosisPipeline
sample_pipeline = record {
  diagnose_agent = client_of "agents/1";
  candidate_agent = client_of "agents/2";
  rationale_agent = client_of "agents/3";
}

-- an event with the response of one tool
abbrev response_event : String → Fields → Value
response_event tool_name payload = dict (
    of_items (
      (
        "content",
        dict (
            of_items (
              (
                "parts",
                list (
                    of_elements (
                      dict (
                        of_items (
                          (
                            "function_response",
                            dict (
                                of_items
                                  (("name", str tool_name) ∷ ("response", dict payload) ∷ [])),
                          )
                          ∷ []))
                      ∷ [])),
              )
              ∷ [])),
      )
      ∷ []))

abbrev pub sample_payload : Fields
sample_payload = of_items (("evidence", dict end) ∷ [])

abbrev sample_events : String → String → List Value
sample_events resource_name user_id =
    if resource_name == "agents/2"
    then response_event "compare_candidate_indexes" end ∷ []
    else if resource_name == "agents/3"
    then response_event "rationalize_recommendation" end ∷ []
    else if user_id == "run-1:diagnose_candidate"
    then response_event "diagnose_candidate" end ∷ []
    else response_event "explain_slow_query" sample_payload ∷ []

abbrev pub sample_stream : Stream
sample_stream client user_id prompt = ok (sample_events client.resource_name user_id)

run_tool_sample :
    run_tool sample_externals sample_stream
      (client_of "agents/1")
      "run-1:explain_slow_query"
      "explain_slow_query"
      "prompt"
    ≡ ok ("", sample_payload)
unfolding run_tool select_match all_responses chunks payloads_of event_function_responses event_text
    event_parts part_function_response part_text text
run_tool_sample = refl

sample_stream-IsStreaming : IsStreaming sample_stream
sample_stream-IsStreaming client user_id prompt = (sample_events client.resource_name user_id, refl)

split_diagnose-IsParsed_example :
    IsEnded sample_externals
      (λ (result : AgentDiagnosisResult). map call_of result.trace ≡ four_calls sample_pipeline)
      (split_diagnose sample_externals sample_stream sample_library sample_pipeline "run-1"
        "db.sales" sample_query)
split_diagnose-IsParsed_example =
    split_diagnose-IsParsed sample_externals sample_stream sample_library sample_pipeline "run-1"
      "db.sales" sample_query sample_stream-IsStreaming

live_diagnose-IsPending_example : IsAnswered sample_externals "run-1" sample_state (
    live_diagnose sample_externals fake_backend
      (some (
        "split",
        over_stream (split_diagnose sample_externals sample_stream sample_library sample_pipeline),
      ))
      true
      "2026-06-01"
      "run-1"
      (some sample_query)
      sample_state)
live_diagnose-IsPending_example =
    live_diagnose-IsPending sample_externals fake_backend sample_stream sample_library
      sample_pipeline "split" "run-1" "2026-06-01" (some sample_query) sample_state slow
      explained_state.database sample_stream-IsStreaming run_1-is_run_id refl asks_a_sort refl

-- an environment that names the three agents
abbrev sample_environ : String → Option String
sample_environ name =
    if name == "AGENT_ENGINE_DIAGNOSE_RESOURCE"
    then some "agents/1"
    else if name == "AGENT_ENGINE_CANDIDATE_RESOURCE"
    then some "agents/2"
    else if name == "AGENT_ENGINE_RATIONALE_RESOURCE"
    then some "agents/3"
    else none

diagnosis_agent_from_env_required_example :
    (HasNoLegacy sample_environ
      × IsDeployed (λ s. s) sample_environ
      × (diagnosis_agent_from_env (λ s. s) sample_environ true false
          ≡ ok (
              some (
                DiagnosisAgent.split (record {
                  diagnose_agent = client_of "agents/1";
                  candidate_agent = client_of "agents/2";
                  rationale_agent = client_of "agents/3";
                })))))
    ⊎ ((¬ (HasNoLegacy sample_environ × IsDeployed (λ s. s) sample_environ))
        × ((exc : Error) × (diagnosis_agent_from_env (λ s. s) sample_environ true false ≡ err exc)
            × (is_config_error exc ≡ true)))
diagnosis_agent_from_env_required_example =
    diagnosis_agent_from_env_required (λ s. s) sample_environ false
