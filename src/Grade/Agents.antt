-- ===== src/Grade/Agents.antt =====
-- `grade_agent_engine_used` of evals/grade.py. A name in an event is a text; other values are no names.
use googlecloudhack.Prelude.{
  length, nat_eq, String, ◌==◌, is_empty, concat, Bool, ◌&&◌, is_nil, Option, none, some, List, [],
  ◌∷◌, ◌++◌, pos, map, if◌then◌else◌,
}
use googlecloudhack.Externals.{Externals}
use googlecloudhack.Value.{Value, str, list, tuple, dict, Items, nil, cons, Fields, is_str}
use googlecloudhack.Json.{int_text}
use googlecloudhack.Grade.{Check, difference, distinct, get_value, sorted_text}

abbrev pub expected_agent_tools : List String
expected_agent_tools =
    "explain_slow_query" ∷ "compare_candidate_indexes" ∷ "diagnose_candidate"
    ∷ "rationalize_recommendation" ∷ []

abbrev pub expected_agent_components : List String
expected_agent_components = "diagnose_agent" ∷ "candidate_agent" ∷ "rationale_agent" ∷ []

-- the dicts of a trace whose actor is the agent engine
abbrev pub events_of : Items → List Fields
events_of nil = []
events_of (cons (dict event) vs) =
    let rest = events_of vs in
    if is_str (get_value "actor" event) "agent_engine" then event ∷ rest else rest
events_of (cons _ vs) = events_of vs

abbrev pub agent_events : Value → List Fields
agent_events (list vs) = events_of vs
agent_events (tuple vs) = events_of vs
agent_events _ = []

-- the text of a value that is true, if it is one
abbrev pub name_of : Value → Option String
name_of (str s) = if is_empty s then none else some s
name_of _ = none

abbrev pub add_name : Option String → List String → List String
add_name none names = names
add_name (some s) names = s ∷ names

abbrev pub names_at : String → List Fields → List String
names_at key [] = []
names_at key (event ∷ events) = add_name (name_of (get_value key event)) (names_at key events)

abbrev pub add_pair :
    Option String → Option String → List (String × String) → List (String × String)
add_pair (some component) (some resource) pairs = (component, resource) ∷ pairs
add_pair _ _ pairs = pairs

-- `resources_by_component`, as its pairs
abbrev pub resource_pairs : List Fields → List (String × String)
resource_pairs [] = []
resource_pairs (event ∷ events) =
    add_pair (name_of (get_value "component" event)) (name_of (get_value "resource" event))
      (resource_pairs events)

abbrev pub resources_of : String → List (String × String) → List String
resources_of component [] = []
resources_of component ((other, resource) ∷ pairs) =
    let rest = resources_of component pairs in if other == component then resource ∷ rest else rest

abbrev pub one_resource : String → List String → List (String × String)
one_resource component (resource ∷ []) = (component, resource) ∷ []
one_resource component _ = []

-- `component_resources`: the components with one resource
abbrev pub single_resources : List String → List (String × String) → List (String × String)
single_resources [] pairs = []
single_resources (component ∷ components) pairs =
    one_resource component (distinct (resources_of component pairs))
    ++ single_resources components pairs

unfoldable pub component_resources : List Fields → List (String × String)
component_resources events =
    let pairs = resource_pairs events in single_resources (distinct (map (λ p. p.0) pairs)) pairs

unfoldable pub is_agent_engine_used : List Fields → Bool
is_agent_engine_used events =
    is_nil (difference expected_agent_tools (names_at "tool" events))
    && (is_nil (difference expected_agent_components (names_at "component" events))
        && (is_nil
              (difference expected_agent_components (map (λ p. p.0) (component_resources events)))
            && nat_eq (length (distinct (map (λ p. p.1) (component_resources events))))
                (length expected_agent_components)))

module _ (x : Externals) where
  abbrev used_detail : List Fields → String
  used_detail events = concat (
      "Agent Engine split-agent trace present: tools="
      ∷ sorted_text x (names_at "tool" events)
      ∷ "; components="
      ∷ sorted_text x (names_at "component" events)
      ∷ "; resources="
      ∷ sorted_text x (map (λ p. p.1) (component_resources events))
      ∷ [])

  abbrev unused_detail : List Fields → String
  unused_detail events = concat (
      "missing Agent Engine proof: tools="
      ∷ sorted_text x (difference expected_agent_tools (names_at "tool" events))
      ∷ "; components="
      ∷ sorted_text x (difference expected_agent_components (names_at "component" events))
      ∷ "; resource_components="
      ∷ sorted_text x
          (difference expected_agent_components (map (λ p. p.0) (component_resources events)))
      ∷ "; distinct_resources="
      ∷ int_text (pos (length (distinct (map (λ p. p.1) (component_resources events)))))
      ∷ [])

  unfoldable pub grade_agent_engine_used : Fields → Check
  grade_agent_engine_used pack =
      let events = agent_events (get_value "agent_trace" pack) in
      record {
        name = "agent_engine_path";
        passed = is_agent_engine_used events;
        detail = if is_agent_engine_used events then used_detail events else unused_detail events;
      }
