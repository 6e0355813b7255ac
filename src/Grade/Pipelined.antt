-- ===== src/Grade/Pipelined.antt =====
-- The grade of evals/grade.py that asks for the three agents, and the pipeline of api/agent_engine.py.
use mathlib.Core.Path.{subst}
use googlecloudhack.Prelude.{
  sym, ℤ, arith, String, ◌==◌, is_empty, ◌≡◌, refl, true, false, ap, eq_refl, Option, some, List,
  [], ◌∷◌, map, Result, ok, err, >>=-ok,
}
use googlecloudhack.Externals.{Externals}
use googlecloudhack.Value.{Value, list, of_elements, Fields, dict, end}
use googlecloudhack.Schemas.{AgentTraceActor, AgentTraceEvent, EvidencePack}
use googlecloudhack.Schemas.DumpJson.{event_json, pack_json}
use googlecloudhack.Orchestrator.Trace.{
  AgentDiagnosisResult, with_ref, validation_trace, gate_trace, diagnosis_trace,
}
use googlecloudhack.Orchestrator.Actions.{Query, diagnosed_pack}
use googlecloudhack.Orchestrator.Pending.{bound_hash}
use googlecloudhack.Schemas.Validators.{is_run_id}
use googlecloudhack.Grade.Gated.{diagnosed_pack_fresh}
use googlecloudhack.AgentEngine.{Library}
use googlecloudhack.AgentEngine.Payload.{
  before_from_payload, proposed_index_from_payload, trace_for_tool, component_for_tool,
  stage_for_tool,
}
use googlecloudhack.AgentEngine.Clients.{
  AgentEngineRoleClient, AgentEngineDiagnosisPipeline, Stream, role_prompt, run_tool, run_calls,
  as_parse_error, calls, tool_trace, pipeline_trace, split_diagnose,
}
use googlecloudhack.Grade.Agents.{
  agent_events, component_resources, is_agent_engine_used, grade_agent_engine_used,
}

-- three agents that are told apart
pub record IsSplit (pipeline : AgentEngineDiagnosisPipeline) : Type 0 where
  pub diagnose_given : is_empty pipeline.diagnose_agent.resource_name ≡ false
  pub candidate_given : is_empty pipeline.candidate_agent.resource_name ≡ false
  pub rationale_given : is_empty pipeline.rationale_agent.resource_name ≡ false
  pub candidate_diagnose :
      (pipeline.candidate_agent.resource_name == pipeline.diagnose_agent.resource_name) ≡ false
  pub diagnose_rationale :
      (pipeline.diagnose_agent.resource_name == pipeline.rationale_agent.resource_name) ≡ false
  pub candidate_rationale :
      (pipeline.candidate_agent.resource_name == pipeline.rationale_agent.resource_name) ≡ false

-- the JSON of an event in the trace of a pack
abbrev event_fields : String → AgentTraceEvent → Fields
event_fields run_id event = fields_of (event_json (with_ref run_id event))
  where
    fields_of : Value → Fields
    fields_of (dict fs) = fs
    fields_of _ = end

module _ (x : Externals) (stream : Stream) (lib : Library) (pipeline : AgentEngineDiagnosisPipeline)
    (run_id : String) where
  four_events : Fields → Fields → Fields → Fields → List Fields
  four_events p q r s =
      event_fields run_id
        (tool_trace x stream lib pipeline pipeline.diagnose_agent "explain_slow_query" p)
      ∷ event_fields run_id
          (tool_trace x stream lib pipeline pipeline.candidate_agent "compare_candidate_indexes" q)
      ∷ event_fields run_id
          (tool_trace x stream lib pipeline pipeline.diagnose_agent "diagnose_candidate" r)
      ∷ event_fields run_id
          (tool_trace x stream lib pipeline pipeline.rationale_agent "rationalize_recommendation" s)
      ∷ []

  four_events_used :
      (p q r s : Fields) → IsSplit pipeline → is_agent_engine_used (four_events p q r s) ≡ true
  unfolding four_events component_resources is_agent_engine_used event_json with_ref trace_for_tool
      component_for_tool stage_for_tool
  four_events_used p q r s h =
      rw
        (
          h.diagnose_given,
          h.candidate_given,
          h.rationale_given,
          eq_refl pipeline.diagnose_agent.resource_name,
          h.candidate_diagnose,
          h.diagnose_rationale,
          h.candidate_rationale,
        )
        refl

  -- the tools of the responses are those of the calls
  run_calls-names :
      (namespace : String) (query : Query) (calls : List (AgentEngineRoleClient × String))
      (done : List String × List (String × Fields))
      → run_calls x stream lib run_id namespace query calls ≡ ok done
      → map (λ r. r.0) done.1 ≡ map (λ c. c.1) calls
  unfolding run_calls
  run_calls-names namespace query [] done h = let same : ([], []) ≡ done = cc in rw (← same) refl
  run_calls-names namespace query ((client, tool_name) ∷ calls) done h =
      let (prompt, prompted, h1) =
        (>>=-ok (role_prompt lib tool_name run_id namespace query) _ done).0 h in
      let (answer, answered, h2) =
        (>>=-ok (run_tool x stream client _ tool_name prompt) _ done).0 h1 in
      let (rest, later, h3) =
        (>>=-ok (run_calls x stream lib run_id namespace query calls) _ done).0 h2 in
      let same : (answer.0 ∷ rest.0, (tool_name, answer.1) ∷ rest.1) ≡ done = cc in
      rw (← same)
        (ap (λ names. tool_name ∷ names) (run_calls-names namespace query calls rest later))

  split_diagnose-trace :
      (namespace : String) (query : Query) (result : AgentDiagnosisResult)
      → split_diagnose x stream lib pipeline run_id namespace query ≡ ok result
      → (responses : List (String × Fields)) × (map (λ r. r.0) responses
          ≡ map (λ c. c.1) (calls x stream lib pipeline))
        × (pipeline_trace x stream lib pipeline responses ≡ result.trace)
  unfolding split_diagnose
  split_diagnose-trace namespace query result h =
      let asked = calls x stream lib pipeline in
      let (done, called, rest) =
        (>>=-ok (run_calls x stream lib run_id namespace query asked) _ result).0 h in
      let (before, found, built) =
        (>>=-ok (as_parse_error (before_from_payload lib end done.1)) _ result).0 rest in
      let (keys, proposed, made) =
        (>>=-ok (as_parse_error (proposed_index_from_payload x end done.1)) _ result).0 built in
      (done.1, run_calls-names namespace query asked done called, ap trace_of made)
    where
      trace_of : Result AgentDiagnosisResult → List AgentTraceEvent
      trace_of (ok r) = r.trace
      trace_of (err e) = []

  validation_trace-actor :
      (source : String) (proposed index : List (String × ℤ))
      → (validation_trace source proposed index).actor ≡ AgentTraceActor.deterministic_controller
  unfolding validation_trace
  validation_trace-actor source [] index = refl
  validation_trace-actor source (key ∷ keys) index = ground arith

  -- the events of the agents in the trace of a pack
  agent_events_lem :
      (result : AgentDiagnosisResult) (index : List (String × ℤ)) (hash : String)
      (responses : List (String × Fields))
      → IsSplit pipeline
      → map (λ r. r.0) responses ≡ map (λ c. c.1) (calls x stream lib pipeline)
      → result.trace ≡ pipeline_trace x stream lib pipeline responses
      → is_agent_engine_used (
          agent_events
            (list (of_elements (map event_json (diagnosis_trace run_id (some result) index hash)))))
        ≡ true
  unfolding diagnosis_trace gate_trace event_json four_events with_ref trace_for_tool
  agent_events_lem result index hash (a ∷ b ∷ c ∷ d ∷ []) h names traced =
      rw (traced, validation_trace-actor result.source result.proposed_index index)
        (four_events_used a.1 b.1 c.1 d.1 h)
  agent_events_lem result index hash (a ∷ b ∷ c ∷ d ∷ f ∷ fs) h names traced = cc
  agent_events_lem result index hash (a ∷ b ∷ c ∷ []) h names traced = cc
  agent_events_lem result index hash (a ∷ b ∷ []) h names traced = cc
  agent_events_lem result index hash (a ∷ []) h names traced = cc
  agent_events_lem result index hash [] h names traced = cc

-- A pack that is diagnosed from the answer of three distinct agents passes the grade that asks for them,
-- for a run with a proper id, namespace and time: the four tools, the three components, and for each
-- component one resource of its own.
pub grade_agent_engine_used_passed :
    (x : Externals) (stream : Stream) (lib : Library) (pipeline : AgentEngineDiagnosisPipeline)
    (run_id namespace created_at : String) (query : Query) (result : AgentDiagnosisResult)
    (current_index : Option String) (q : EvidencePack)
    → IsSplit pipeline
    → is_run_id run_id ≡ true
    → is_empty namespace ≡ false
    → is_empty created_at ≡ false
    → split_diagnose x stream lib pipeline run_id namespace query ≡ ok result
    → diagnosed_pack x run_id namespace created_at query result.before (some result) current_index
      ≡ ok q
    → (grade_agent_engine_used x (pack_json x q)).passed ≡ true
unfolding grade_agent_engine_used pack_json
grade_agent_engine_used_passed x stream lib pipeline run_id namespace created_at query result
      current_index q split r n c answered built =
    let (d, same) =
      diagnosed_pack_fresh x run_id namespace created_at query result.before (some result)
        current_index q r n c built in
    let (responses, names, traced) =
      split_diagnose-trace x stream lib pipeline run_id namespace query result answered in
    subst (λ p. (grade_agent_engine_used x (pack_json x p)).passed ≡ true) same
      (agent_events_lem x stream lib pipeline run_id result d.recommendation.index_spec
        (bound_hash x run_id namespace created_at query result.before (some result) current_index d)
        responses split names (sym traced))
