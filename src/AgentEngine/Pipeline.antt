-- ===== src/AgentEngine/Pipeline.antt =====
-- What the pipeline of api/agent_engine.py ends with.
use googlecloudhack.Prelude.{
  String, ◌≡◌, refl, ◌⊎◌, inl, inr, Option, some, List, [], ◌∷◌, map, concat, ok, Option-cases, ap,
}
use googlecloudhack.Externals.{Externals}
use googlecloudhack.Value.{Value, Fields, end}
use googlecloudhack.Schemas.{AgentTraceEvent, Evidence}
use googlecloudhack.Orchestrator.Actions.{Query}
use googlecloudhack.AgentEngine.{Library}
use googlecloudhack.AgentEngine.Payload.{
  before_from_payload, before_fields, as_evidence, trace_for_tool, component_for_tool,
}
use googlecloudhack.AgentEngine.Clients.{
  AgentEngineRoleClient, AgentEngineDiagnosisPipeline, Stream, role_prompt, run_calls,
  as_parse_error, split_diagnose, calls, pipeline_trace,
}
use googlecloudhack.AgentEngine.OneTool.{IsParsed, IsParsed->>=, run_tool-IsParsed}
use googlecloudhack.AgentEngine.Overflow.{IsEnded, IsEnded->>=, proposed_index-IsEnded}

-- an agent streams its answer to the end, whatever it is asked
abbrev pub IsStreaming : Stream → Type 0
IsStreaming stream =
    (client : AgentEngineRoleClient) (user_id prompt : String)
    → (events : List Value) × (stream client user_id prompt ≡ ok events)

as_evidence-IsParsed :
    (validated : String ⊎ Evidence)
    → IsParsed (λ before. Unit {0}) (as_parse_error (as_evidence validated))
as_evidence-IsParsed (inl m) = inr (m, refl)
as_evidence-IsParsed (inr before) = inl (before, refl, tt)

before_from_payload-IsParsed :
    (lib : Library) (parsed : Fields) (responses : List (String × Fields))
    → IsParsed (λ before. Unit {0}) (as_parse_error (before_from_payload lib parsed responses))
unfolding before_from_payload
before_from_payload-IsParsed lib parsed responses =
    elim (Option-cases (before_fields parsed responses)) [
      | inl e ↦
          rw (e, as_parse_error)
            (inr ("Agent Engine diagnosis did not return before evidence", refl))
      | inr (fs, e) ↦ rw (e, as_parse_error) (as_evidence-IsParsed (lib.validate_evidence fs))
    ]

module _ (x : Externals) (stream : Stream) (lib : Library) (run_id namespace : String)
    (query : Query) where
  -- the calls whose tools have a prompt
  abbrev IsPrompted : List (AgentEngineRoleClient × String) → Type 0
  IsPrompted [] = Unit
  IsPrompted ((client, tool_name) ∷ calls) =
      ((prompt : String) × (role_prompt lib tool_name run_id namespace query ≡ ok prompt))
      × IsPrompted calls

  abbrev IsOf :
      List (AgentEngineRoleClient × String) → List String × List (String × Fields) → Type 0
  IsOf calls done = map (λ r. r.0) done.1 ≡ map (λ c. c.1) calls

  run_calls-IsParsed :
      IsStreaming stream
      → (calls : List (AgentEngineRoleClient × String)) → IsPrompted calls
      → IsParsed (IsOf calls) (run_calls x stream lib run_id namespace query calls)
  unfolding run_calls
  run_calls-IsParsed total [] h = inl (([], []), refl, refl)
  run_calls-IsParsed total ((client, tool_name) ∷ calls) ((prompt, p), h) =
      let user_id = concat (run_id ∷ ":" ∷ tool_name ∷ []) in
      let (events, streamed) = total client user_id prompt in
      rw p (
        IsParsed->>= (λ answer. Unit {0}) (IsOf ((client, tool_name) ∷ calls)) _ _
          (run_tool-IsParsed x stream client user_id tool_name prompt events streamed)
          (λ answer u.
            IsParsed->>= (IsOf calls) (IsOf ((client, tool_name) ∷ calls)) _ _
              (run_calls-IsParsed total calls h)
              (λ rest same. inl (
                (answer.0 ∷ rest.0, (tool_name, answer.1) ∷ rest.1),
                refl,
                ap (λ names. tool_name ∷ names) same,
              ))))

-- an event of the trace: its component, its resource and its tool
abbrev pub call_of : AgentTraceEvent → Option String × Option String × Option String
call_of event = (event.component, event.resource, event.tool)

-- the calls of a trace in their order: each tool at its agent
abbrev pub four_calls :
    AgentEngineDiagnosisPipeline → List (Option String × Option String × Option String)
four_calls pipeline =
    (some "diagnose_agent", some pipeline.diagnose_agent.resource_name, some "explain_slow_query")
    ∷ (
      some "candidate_agent",
      some pipeline.candidate_agent.resource_name,
      some "compare_candidate_indexes",
    )
    ∷ (some "diagnose_agent", some pipeline.diagnose_agent.resource_name, some "diagnose_candidate")
    ∷ (
      some "rationale_agent",
      some pipeline.rationale_agent.resource_name,
      some "rationalize_recommendation",
    )
    ∷ []

pipeline_trace_lem :
    (x : Externals) (stream : Stream) (lib : Library) (pipeline : AgentEngineDiagnosisPipeline)
    (responses : List (String × Fields))
    → map (λ r. r.0) responses ≡ map (λ c. c.1) (calls x stream lib pipeline)
    → map call_of (pipeline_trace x stream lib pipeline responses) ≡ four_calls pipeline
unfolding trace_for_tool component_for_tool
pipeline_trace_lem x stream lib pipeline (a ∷ b ∷ c ∷ d ∷ []) h = refl
pipeline_trace_lem x stream lib pipeline (a ∷ b ∷ c ∷ d ∷ f ∷ fs) h = cc
pipeline_trace_lem x stream lib pipeline (a ∷ b ∷ c ∷ []) h = cc
pipeline_trace_lem x stream lib pipeline (a ∷ b ∷ []) h = cc
pipeline_trace_lem x stream lib pipeline (a ∷ []) h = cc
pipeline_trace_lem x stream lib pipeline [] h = cc

-- Where the agents stream their answers to the end, whatever these are, the pipeline ends in one of
-- three ways: with a diagnosis whose trace has the four tools in their order, each at its agent; with an
-- AgentDiagnosisParseError; or with an exception that `int` raises for a float and that is neither a
-- TypeError nor a ValueError, the OverflowError of an infinite direction in a proposed index.
pub split_diagnose-IsParsed :
    (x : Externals) (stream : Stream) (lib : Library) (pipeline : AgentEngineDiagnosisPipeline)
    (run_id namespace : String) (query : Query)
    → IsStreaming stream
    → IsEnded x
        (λ result. map call_of result.trace ≡ four_calls pipeline)
        (split_diagnose x stream lib pipeline run_id namespace query)
unfolding split_diagnose
split_diagnose-IsParsed x stream lib pipeline run_id namespace query total =
    let asked = calls x stream lib pipeline in
    IsEnded->>= x (IsOf x stream lib run_id namespace query asked) _ _ _
      (inl (
        run_calls-IsParsed x stream lib run_id namespace query total asked
          (unfold role_prompt in ((_, refl), ((_, refl), ((_, refl), ((_, refl), tt)))))))
      (λ done same.
        IsEnded->>= x (λ before. Unit {0}) _ _ _ (inl (before_from_payload-IsParsed lib end done.1))
          (λ before u.
            IsEnded->>= x (λ keys. Unit {0}) _ _ _ (proposed_index-IsEnded x end done.1)
              (λ keys v.
                inl (inl (_, refl, pipeline_trace_lem x stream lib pipeline done.1 same)))))
