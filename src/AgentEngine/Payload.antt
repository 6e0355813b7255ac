-- ===== src/AgentEngine/Payload.antt =====
-- What api/agent_engine.py reads off the responses of the tools: the evidence, the index, the rationale
-- and the trace.
use googlecloudhack.Prelude.{
  ℤ, String, ◌==◌, Option, none, some, List, [], ◌∷◌, map, ◌⊎◌, inl, inr, concat, Result, ok, err,
  value_error, validation_error, ◌>>=◌, if◌then◌else◌,
}
use googlecloudhack.Externals.{Externals}
use googlecloudhack.Value.{Value, null, dict, Fields, end, get, get_or, is_truthy}
use googlecloudhack.Schemas.{
  AgentTraceStage, AgentTraceActor, AgentTraceStatus, AgentTraceEvent, Evidence,
}
use googlecloudhack.PyText.{text}
use googlecloudhack.Orchestrator.Trace.{AgentDiagnosisResult}
use googlecloudhack.AgentEngine.{Library, first_json_object, normalize_index_spec}

unfoldable pub component_for_tool : String → Option String
component_for_tool name =
    if name == "explain_slow_query"
    then some "diagnose_agent"
    else if name == "diagnose_candidate"
    then some "diagnose_agent"
    else if name == "compare_candidate_indexes"
    then some "candidate_agent"
    else if name == "rationalize_recommendation"
    then some "rationale_agent"
    else none

unfoldable pub stage_for_tool : String → AgentTraceStage
stage_for_tool name =
    if name == "explain_slow_query"
    then AgentTraceStage.detect
    else if name == "compare_candidate_indexes"
    then AgentTraceStage.candidate
    else if name == "diagnose_candidate"
    then AgentTraceStage.diagnose
    else if name == "rationalize_recommendation"
    then AgentTraceStage.rationale
    else AgentTraceStage.diagnose

unfoldable pub summary_for_tool : String → String
summary_for_tool name =
    if name == "explain_slow_query"
    then "Agent Engine captured slow-query explain evidence."
    else if name == "compare_candidate_indexes"
    then "Agent Engine compared candidate ESR indexes."
    else if name == "diagnose_candidate"
    then "Agent Engine ran deterministic ESR diagnosis."
    else if name == "rationalize_recommendation"
    then "Agent Engine produced an evidence-grounded rationale."
    else concat ("Agent Engine ran " ∷ name ∷ "." ∷ [])

-- `reversed(responses)`: the last response of that name
unfoldable pub response_by_name : List (String × Fields) → String → Option Fields
response_by_name [] name = none
response_by_name ((other, payload) ∷ responses) name =
    let later = response_by_name responses name in
    elim later [ some found ↦ some found | none ↦ if other == name then some payload else none ]

-- `_response_by_name(...) or {}`
abbrev pub response_or_empty : List (String × Fields) → String → Fields
response_or_empty responses name = elim (response_by_name responses name) [
  | none ↦ end
  | some payload ↦ payload
]

-- `payload[key]` where there is a payload and it is a dict
abbrev pub dict_at : String → Option Fields → Option Fields
dict_at key none = none
dict_at key (some payload) = elim (get key payload) [ some (dict fs) ↦ some fs | _ ↦ none ]

-- `a or b`
abbrev or_else : Value → Value → Value
or_else v w = if is_truthy v then v else w

-- the evidence that an answer without responses holds
abbrev pub parsed_before : Fields → Option Fields
parsed_before parsed =
    elim (or_else (get_or "before" null parsed) (get_or "evidence" null parsed)) [
      | dict before ↦ elim (get "evidence" before) [ some (dict fs) ↦ some fs | _ ↦ some before ]
      | _ ↦ none
    ]

-- the candidates in their order
unfoldable pub before_fields : Fields → List (String × Fields) → Option Fields
before_fields parsed responses =
    elim (dict_at "evidence" (response_by_name responses "explain_slow_query")) [
      | some fs ↦ some fs
      | none ↦ elim (dict_at "before" (response_by_name responses "diagnose_candidate")) [
        | some fs ↦ some fs
        | none ↦ parsed_before parsed
      ]
    ]

abbrev pub as_evidence : String ⊎ Evidence → Result Evidence
as_evidence (inl m) = err (validation_error m)
as_evidence (inr before) = ok before

unfoldable pub before_from_payload : Library → Fields → List (String × Fields) → Result Evidence
before_from_payload lib parsed responses = elim (before_fields parsed responses) [
  | some fs ↦ as_evidence (lib.validate_evidence fs)
  | none ↦ err (value_error "Agent Engine diagnosis did not return before evidence")
]

module _ (x : Externals) where
  unfoldable pub trace_summary : String → Fields → String
  trace_summary name payload =
      if name == "compare_candidate_indexes"
      then (if is_truthy (get_or "winner" null payload)
          then concat (
              "Agent Engine compared candidates and selected "
              ∷ text x (get_or "winner" null payload)
              ∷ "."
              ∷ [])
          else summary_for_tool name)
      else summary_for_tool name

  unfoldable pub trace_for_tool : String → Fields → (resource : Option String) → AgentTraceEvent
  trace_for_tool name payload resource = record {
    stage = stage_for_tool name;
    actor = AgentTraceActor.agent_engine;
    status = AgentTraceStatus.ok;
    component = component_for_tool name;
    resource = resource;
    tool = some name;
    summary = trace_summary name payload;
    ledger_ref = none;
  }

  -- `if proposed: return proposed`, and what comes after it
  abbrev pub or_index : List (String × ℤ) → Result (List (String × ℤ)) → Result (List (String × ℤ))
  or_index [] later = later
  or_index (key ∷ keys) later = ok (key ∷ keys)

  abbrev diagnosed_index : Fields → Value
  diagnosed_index payload = elim (dict_at "diagnosis" (some payload)) [
    | none ↦ null
    | some diagnosis ↦ elim (dict_at "recommendation" (some diagnosis)) [
      | none ↦ null
      | some recommendation ↦ get_or "index_spec" null recommendation
    ]
  ]

  unfoldable pub proposed_index_from_payload :
      Fields → List (String × Fields) → Result (List (String × ℤ))
  proposed_index_from_payload parsed responses =
      normalize_index_spec x
        (or_else (get_or "recommended_index" null parsed) (get_or "index_spec" null parsed))
      >>= λ own. or_index own (
          normalize_index_spec x (
            get_or "recommended_index" null
              (response_or_empty responses "rationalize_recommendation"))
          >>= λ of_tool. or_index of_tool (
              normalize_index_spec x
                (diagnosed_index (response_or_empty responses "diagnose_candidate"))))

  module _ (lib : Library) where
    unfoldable pub rationale_from_payload : Fields → List (String × Fields) → String → String
    rationale_from_payload parsed responses said =
        let own = get_or "rationale" null parsed in
        let of_tool =
          get_or "rationale" null (response_or_empty responses "rationalize_recommendation") in
        if is_truthy own
        then lib.strip (text x own)
        else if is_truthy of_tool
        then lib.strip (text x of_tool)
        else lib.strip said

    unfoldable pub diagnosis_from_events :
        (resource_name said : String) → List (String × Fields) → Result AgentDiagnosisResult
    diagnosis_from_events resource_name said responses = do
      let parsed = first_json_object lib.raw_decode said
      before ← before_from_payload lib parsed responses
      proposed_index ← proposed_index_from_payload parsed responses
      ok (record {
        source = resource_name;
        before = before;
        narrative = rationale_from_payload parsed responses said;
        proposed_index = proposed_index;
        trace = map (λ r. trace_for_tool r.0 r.1 (some resource_name)) responses;
      })
