-- ===== src/Tests/Grades.antt =====
-- The theorem on the grades at a diagnosis of the sample query.
use googlecloudhack.Prelude.{◌≡◌, refl, ◌∙◌, true, none, some, [], ◌∷◌, ok}
use googlecloudhack.Schemas.{Severity, Diagnosis, EvidencePack, has_blocking_sort}
use googlecloudhack.Schemas.DumpJson.{pack_json}
use googlecloudhack.Schemas.Validity.{validate_pack_iff}
use googlecloudhack.Diagnosis.{
  diagnose, classify, is_range, esr_index, make_recommendation, ordering,
}
use googlecloudhack.Orchestrator.Actions.{diagnosed_pack}
use googlecloudhack.Orchestrator.Pending.{fresh_pack, fresh_pack-IsValid, diagnosed_pack_lem}
use googlecloudhack.Value.{end}
use googlecloudhack.PyText.{text}
use googlecloudhack.Orchestrator.Trace.{AgentDiagnosisResult}
use googlecloudhack.AgentEngine.{
  event_parts, part_text, part_function_response, event_text, event_function_responses,
  normalize_index_spec,
}
use googlecloudhack.AgentEngine.Payload.{
  response_by_name, before_fields, before_from_payload, proposed_index_from_payload,
  rationale_from_payload,
}
use googlecloudhack.AgentEngine.Clients.{
  payloads_of, role_prompt, chunks, all_responses, select_match, run_tool, run_calls,
  pipeline_trace, split_diagnose,
}
use googlecloudhack.Grade.Agents.{grade_agent_engine_used}
use googlecloudhack.Grade.Pipelined.{IsSplit, grade_agent_engine_used_passed}
use googlecloudhack.Tests.Agents.{sample_library, sample_pipeline, sample_payload, sample_stream}
use googlecloudhack.Grade.Packs.{grade_approval_gate_first}
use googlecloudhack.Grade.Gated.{grade_approval_gate_first_passed}
use googlecloudhack.Tests.Samples.{
  sample_externals, sample_query, sample_filter, sample_sort, esr_spec, slow, run_1-is_run_id,
}

abbrev sorting_diagnosis : Diagnosis
sorting_diagnosis = record {
  finding = record {
    problem =
        "Query performs a blocking in-memory SORT: the serving index orders a Range field ahead of the Sort field, so the index cannot supply the requested order and every matched document is sorted in memory.";
    severity = Severity.high;
    evidence_refs = "explain" ∷ [];
  };
  recommendation = record {
    index_spec = esr_spec;
    rationale =
        "Reorder the index by the ESR rule (Equality[storeLocation] -> Sort[saleDate] -> Range[customer.age]). With Sort placed before Range, the index yields documents already in sort order, removing the blocking SORT stage and the over-scan it causes.";
  };
}

diagnosed_sample :
    diagnose sample_externals sample_filter sample_sort (has_blocking_sort slow.metrics) none
    ≡ ok sorting_diagnosis
unfolding diagnose classify is_range esr_index make_recommendation ordering has_blocking_sort
diagnosed_sample = refl

abbrev graded_pack : EvidencePack
graded_pack =
    fresh_pack sample_externals "run-1" "db.sales" "2026-06-01" sample_query slow none none
      sorting_diagnosis

diagnosed_graded :
    diagnosed_pack sample_externals "run-1" "db.sales" "2026-06-01" sample_query slow none none
    ≡ ok graded_pack
diagnosed_graded =
    diagnosed_pack_lem sample_externals "run-1" "db.sales" "2026-06-01" sample_query slow none none
      sorting_diagnosis diagnosed_sample
    ∙ (validate_pack_iff sample_externals graded_pack).1 (
        fresh_pack-IsValid sample_externals "run-1" "db.sales" "2026-06-01" sample_query slow none
          none sorting_diagnosis run_1-is_run_id refl refl)

grade_approval_gate_first_passed_example :
    (grade_approval_gate_first sample_externals (pack_json sample_externals graded_pack)).passed
    ≡ true
grade_approval_gate_first_passed_example =
    grade_approval_gate_first_passed sample_externals "run-1" "db.sales" "2026-06-01" sample_query
      slow none none graded_pack run_1-is_run_id refl refl diagnosed_graded

-- the answer of the sample agents, which name no rationale
abbrev sample_answer : AgentDiagnosisResult
sample_answer = record {
  source = "split_agent_engine";
  before = slow;
  narrative = "\n\n\n";
  proposed_index = [];
  trace = pipeline_trace sample_externals sample_stream sample_library sample_pipeline (
      ("explain_slow_query", sample_payload)
      ∷ ("compare_candidate_indexes", end)
      ∷ ("diagnose_candidate", end)
      ∷ ("rationalize_recommendation", end)
      ∷ []);
}

answered_sample :
    split_diagnose sample_externals sample_stream sample_library sample_pipeline "run-1" "db.sales"
      sample_query
    ≡ ok sample_answer
unfolding split_diagnose run_calls run_tool select_match all_responses chunks payloads_of
    event_function_responses event_text event_parts part_function_response part_text text
    role_prompt before_from_payload before_fields response_by_name proposed_index_from_payload
    normalize_index_spec rationale_from_payload
answered_sample = refl

sample_pipeline-IsSplit : IsSplit sample_pipeline
sample_pipeline-IsSplit = record {
  diagnose_given = refl;
  candidate_given = refl;
  rationale_given = refl;
  candidate_diagnose = refl;
  diagnose_rationale = refl;
  candidate_rationale = refl;
}

abbrev answered_pack : EvidencePack
answered_pack =
    fresh_pack sample_externals "run-1" "db.sales" "2026-06-01" sample_query slow
      (some sample_answer) none sorting_diagnosis

diagnosed_answered :
    diagnosed_pack sample_externals "run-1" "db.sales" "2026-06-01" sample_query slow
      (some sample_answer)
      none
    ≡ ok answered_pack
diagnosed_answered =
    diagnosed_pack_lem sample_externals "run-1" "db.sales" "2026-06-01" sample_query slow
      (some sample_answer) none sorting_diagnosis diagnosed_sample
    ∙ (validate_pack_iff sample_externals answered_pack).1 (
        fresh_pack-IsValid sample_externals "run-1" "db.sales" "2026-06-01" sample_query slow
          (some sample_answer) none sorting_diagnosis run_1-is_run_id refl refl)

grade_agent_engine_used_passed_example :
    (grade_agent_engine_used sample_externals (pack_json sample_externals answered_pack)).passed
    ≡ true
grade_agent_engine_used_passed_example =
    grade_agent_engine_used_passed sample_externals sample_stream sample_library sample_pipeline
      "run-1" "db.sales" "2026-06-01" sample_query sample_answer none answered_pack
      sample_pipeline-IsSplit run_1-is_run_id refl refl answered_sample diagnosed_answered
