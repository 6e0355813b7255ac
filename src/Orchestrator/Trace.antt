-- ===== src/Orchestrator/Trace.antt =====
-- The trace events of a diagnosis in controller/orchestrator.py. Every summary that is written here
-- holds a text of its own, so that the constraint on a summary (not empty) is met.
use googlecloudhack.Prelude.{
  ℤ, String, Bool, true, false, ◌&&◌, Option, none, some, List, [], ◌∷◌, ◌++◌, map, ◌==◌, eq_ℤ,
  concat, join, is_empty, take_chars, if◌then◌else◌,
}
use googlecloudhack.Externals.{Externals}
use googlecloudhack.Json.{int_text}
use googlecloudhack.Schemas.{
  AgentTraceStage, AgentTraceActor, AgentTraceStatus, AgentTraceEvent, Evidence,
}
use googlecloudhack.LedgerStore.{slow_queries, candidates, experiments}
use googlecloudhack.Orchestrator.Gate.{ledger_ref, gate_ledger_ref}

pub record DiagnosisAdvice : Type 0 where
  pub source : String
  pub narrative : String
  pub proposed_index : List (String × ℤ)
  pub trace : List AgentTraceEvent

pub record AgentDiagnosisResult : Type 0 where
  pub source : String
  pub before : Evidence
  pub narrative : String
  pub proposed_index : List (String × ℤ)
  pub trace : List AgentTraceEvent

-- `proposed_index == deterministic_index`
unfoldable pub spec_eq : List (String × ℤ) → List (String × ℤ) → Bool
spec_eq [] [] = true
spec_eq ((j, d) ∷ r) ((k, e) ∷ s) = (j == k && eq_ℤ d e) && spec_eq r s
spec_eq _ _ = false

module _ (x : Externals) where
  abbrev pair_repr : String × ℤ → String
  pair_repr (name, direction) =
      concat ("(" ∷ x.str_repr name ∷ ", " ∷ int_text direction ∷ ")" ∷ [])

  abbrev pub proposed_note : (source : String) → List (String × ℤ) → List (String × ℤ) → String
  proposed_note source [] deterministic_index =
      concat ("agent_engine=" ∷ source ∷ "; proposed_index=none" ∷ [])
  proposed_note source (key ∷ keys) deterministic_index =
      if spec_eq (key ∷ keys) deterministic_index
      then concat ("agent_engine=" ∷ source ∷ "; proposed_index=accepted" ∷ [])
      else concat (
          "agent_engine="
          ∷ source
          ∷ "; proposed_index=ignored; agent_proposed=["
          ∷ join ", " (map pair_repr (key ∷ keys))
          ∷ "]"
          ∷ [])

  -- `_agent_phase_note`; the advice is its source and its index
  unfoldable pub agent_phase_note : Option (String × List (String × ℤ)) → List (String × ℤ) → String
  agent_phase_note none deterministic_index = ""
  agent_phase_note (some (source, proposed)) deterministic_index =
      proposed_note source proposed deterministic_index

-- `_gate_trace`
unfoldable pub gate_trace : String → String → String → AgentTraceEvent
gate_trace run_id event summary = record {
  stage = AgentTraceStage.gate;
  actor = AgentTraceActor.approval_gate;
  status = AgentTraceStatus.ok;
  summary = summary;
  component = none;
  resource = none;
  tool = some "approval_gate";
  ledger_ref = some (gate_ledger_ref run_id event);
}

abbrev pub controller_event : AgentTraceStatus → (summary tool : String) → AgentTraceEvent
controller_event status summary tool = record {
  stage = AgentTraceStage.diagnose;
  actor = AgentTraceActor.deterministic_controller;
  status = status;
  summary = summary;
  component = none;
  resource = none;
  tool = some tool;
  ledger_ref = none;
}

-- `_validation_trace`
unfoldable pub validation_trace :
    (source : String) → List (String × ℤ) → List (String × ℤ) → AgentTraceEvent
validation_trace source [] deterministic_index =
    controller_event AgentTraceStatus.drift
      (concat (source ∷ " returned no index; deterministic ESR selected the winner." ∷ []))
      "validate_agent_diagnosis"
validation_trace source (key ∷ keys) deterministic_index =
    if spec_eq (key ∷ keys) deterministic_index
    then controller_event AgentTraceStatus.ok
        "Agent Engine proposal matched deterministic ESR validation." "validate_agent_diagnosis"
    else controller_event AgentTraceStatus.drift
        "Agent Engine proposal drifted; deterministic ESR recommendation was used."
        "validate_agent_diagnosis"

-- `refs.get(event.stage)`
abbrev pub stage_ref : String → AgentTraceStage → Option String
stage_ref run_id AgentTraceStage.detect =
    some (ledger_ref slow_queries run_id "diagnose:slow_query")
stage_ref run_id AgentTraceStage.candidate =
    some (ledger_ref candidates run_id "diagnose:candidate")
stage_ref run_id AgentTraceStage.diagnose = some (ledger_ref experiments run_id "diagnose:before")
stage_ref run_id _ = none

-- `a or b` on texts that may be None
abbrev pub or_else : Option String → Option String → Option String
or_else none b = b
or_else (some s) b = if is_empty s then b else some s

unfoldable pub with_ref : String → AgentTraceEvent → AgentTraceEvent
with_ref run_id e = record e { ledger_ref = or_else e.ledger_ref (stage_ref run_id e.stage) }

abbrev pub agent_events :
    String → Option AgentDiagnosisResult → List (String × ℤ) → List AgentTraceEvent
agent_events run_id none deterministic_index =
    controller_event AgentTraceStatus.ok "Deterministic controller produced the local diagnosis."
      "diagnose"
    ∷ []
agent_events run_id (some result) deterministic_index =
    map (with_ref run_id) result.trace
    ++ validation_trace result.source result.proposed_index deterministic_index ∷ []

-- `_diagnosis_trace`
unfoldable pub diagnosis_trace :
    (run_id : String)
    → Option AgentDiagnosisResult
    → List (String × ℤ)
    → (evidence_hash : String) → List AgentTraceEvent
diagnosis_trace run_id result deterministic_index evidence_hash =
    gate_trace run_id "opened"
      "/run created a gated read-only run; mutation requires matching evidence hash approval."
    ∷ (agent_events run_id result deterministic_index
        ++ gate_trace run_id "pending" (
            concat (
              "Approval gate is pending for evidence hash "
              ∷ take_chars 12 evidence_hash
              ∷ "."
              ∷ []))
          ∷ [])
