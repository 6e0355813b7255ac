-- ===== src/Schemas.antt =====
-- controller/schemas.py: the models of a run's record. Every model is frozen, so a record is a value.
-- `millis` is a float that is not negative and finite: it is held as the whole number of units
-- 2 ^ -1074 that it is, so that the order of two of them is exact. A count is a natural number, as
-- `Field(ge=0)` asks.
pub mod Dump
pub mod DumpJson
pub mod Validators
pub mod Validity
use googlecloudhack.Prelude.{
  ℕ, ℤ, String, Bool, true, false, Option, none, some, List, [], ◌∷◌, elem,
}
use googlecloudhack.Value.{Value, Fields}
use googlecloudhack.Phases.{Phase}

pub data Severity : Type 0 where
  low medium high critical : Severity

pub data DecisionAction : Type 0 where
  approve reject defer : DecisionAction

pub data AgentTraceStage : Type 0 where
  gate detect diagnose candidate rationale approve apply verify : AgentTraceStage

pub data AgentTraceActor : Type 0 where
  approval_gate agent_engine deterministic_controller human : AgentTraceActor

pub data AgentTraceStatus : Type 0 where
  ok drift failed : AgentTraceStatus

pub data PackStatus : Type 0 where
  diagnosed approved verified rejected : PackStatus

pub data ApprovalGateState : Type 0 where
  collecting_evidence pending_approval approved rejected verified : ApprovalGateState

pub record EvidenceMetrics : Type 0 where
  pub docs_examined : ℕ
  pub docs_returned : ℕ
  pub millis : ℕ
  pub total_keys_examined : ℕ
  pub stages : List String

-- the computed field
unfoldable pub has_blocking_sort : EvidenceMetrics → Bool
has_blocking_sort m = elem "SORT" m.stages

-- `query` and `explain_plan` are frozen by the validator (`freeze` of Schemas/Dump).
pub record Evidence : Type 0 where
  pub query : Value
  pub explain_plan : Fields
  pub metrics : EvidenceMetrics

pub record Finding : Type 0 where
  pub problem : String
  pub severity : Severity
  pub evidence_refs : List String

pub record Recommendation : Type 0 where
  pub index_spec : List (String × ℤ)
  pub rationale : String

pub record Decision : Type 0 where
  pub action : DecisionAction
  pub evidence_hash : String
  pub phase : Phase

pub record Diagnosis : Type 0 where
  pub finding : Finding
  pub recommendation : Recommendation

pub record PhaseTransition : Type 0 where
  pub from_phase : Option Phase
  pub to_phase : Phase
  pub note : String

pub record AgentTraceEvent : Type 0 where
  pub stage : AgentTraceStage
  pub actor : AgentTraceActor
  pub status : AgentTraceStatus
  pub summary : String
  pub component : Option String
  pub resource : Option String
  pub tool : Option String
  pub ledger_ref : Option String

pub record ApprovalGate : Type 0 where
  pub gate_id : String
  pub state : ApprovalGateState
  pub required_hash : Option String
  pub approved_hash : Option String
  pub approver : Option String
  pub mutation_allowed : Bool
  pub ledger_ref : Option String

-- `version` is always "v1"
pub record EvidencePack : Type 0 where
  pub run_id : String
  pub namespace : String
  pub status : PackStatus
  pub before : Evidence
  pub after : Option Evidence
  pub finding : Finding
  pub recommendation : Recommendation
  pub decision : Option Decision
  pub phase_log : List PhaseTransition
  pub agent_trace : List AgentTraceEvent
  pub approval_gate : Option ApprovalGate
  pub evidence_hash : String
  pub created_at : String
  pub narrative : Option String

-- `status.value`
abbrev pub status_value : PackStatus → String
status_value PackStatus.diagnosed = "diagnosed"
status_value PackStatus.approved = "approved"
status_value PackStatus.verified = "verified"
status_value PackStatus.rejected = "rejected"

-- `a is b` on the enums
abbrev pub status_is : PackStatus → PackStatus → Bool
status_is PackStatus.diagnosed PackStatus.diagnosed = true
status_is PackStatus.approved PackStatus.approved = true
status_is PackStatus.verified PackStatus.verified = true
status_is PackStatus.rejected PackStatus.rejected = true
status_is _ _ = false

abbrev pub action_is : DecisionAction → DecisionAction → Bool
action_is DecisionAction.approve DecisionAction.approve = true
action_is DecisionAction.reject DecisionAction.reject = true
action_is DecisionAction.defer DecisionAction.defer = true
action_is _ _ = false

abbrev pub action_value : DecisionAction → String
action_value DecisionAction.approve = "approve"
action_value DecisionAction.reject = "reject"
action_value DecisionAction.defer = "defer"

abbrev pub gate_state_is : ApprovalGateState → ApprovalGateState → Bool
gate_state_is ApprovalGateState.collecting_evidence ApprovalGateState.collecting_evidence = true
gate_state_is ApprovalGateState.pending_approval ApprovalGateState.pending_approval = true
gate_state_is ApprovalGateState.approved ApprovalGateState.approved = true
gate_state_is ApprovalGateState.rejected ApprovalGateState.rejected = true
gate_state_is ApprovalGateState.verified ApprovalGateState.verified = true
gate_state_is _ _ = false

abbrev pub severity_value : Severity → String
severity_value Severity.low = "low"
severity_value Severity.medium = "medium"
severity_value Severity.high = "high"
severity_value Severity.critical = "critical"
