-- ===== src/Gating.antt =====
-- agents/gating.py: which tools an agent may call in which phase. A frozenset of names is the list
-- of its elements.
pub mod Writes
use googlecloudhack.Prelude.{
  String, Bool, true, false, List, [], ◌∷◌, ◌++◌, Option, none, some, elem, concat, if◌then◌else◌,
}
use googlecloudhack.Phases
use googlecloudhack.Phases.{Phase, diagnose, approve, verify}

unfoldable pub read_tools : List String
read_tools =
    "explain" ∷ "find" ∷ "aggregate" ∷ "count" ∷ "collection-schema" ∷ "collection-indexes"
    ∷ "list-databases" ∷ "list-collections" ∷ "explain_slow_query" ∷ "compare_candidate_indexes"
    ∷ "diagnose_candidate" ∷ "rationalize_recommendation" ∷ "diagnose_index" ∷ []

unfoldable pub write_tools : List String
write_tools = "create-index" ∷ "drop-index" ∷ []

unfoldable pub phase_allowlist : Phase → List String
phase_allowlist diagnose = read_tools
phase_allowlist approve = read_tools
phase_allowlist verify = read_tools ++ write_tools

unfoldable pub is_allowed : Phase → String → Bool
unfolding phase_allowlist
is_allowed phase tool_name = elem tool_name (phase_allowlist phase)

pub record PhaseToolGate : Type 0 where
  pub phase : Phase
  pub allowed : List String

-- the dict that a gate returns to stop a call
pub record Blocked : Type 0 where
  pub phase : String
  pub tool : String
  pub reason : String

-- `__call__`: None lets the call through
unfoldable pub call : PhaseToolGate → String → Option Blocked
call gate tool_name =
    if elem tool_name gate.allowed
    then none
    else some (record {
      phase = Phases.value gate.phase;
      tool = tool_name;
      reason =
          concat
            (tool_name ∷ " is not allowed in the '" ∷ Phases.value gate.phase ∷ "' phase" ∷ []);
    })

unfoldable pub make_gate : Phase → PhaseToolGate
unfolding phase_allowlist
make_gate phase = record { phase = phase; allowed = phase_allowlist phase }
