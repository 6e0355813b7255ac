-- ===== src/Phases.antt =====
-- controller/phases.py: the three phases of a run, in their one order.
pub mod Order
use googlecloudhack.Prelude.{
  String, Option, none, some, concat, [], ◌∷◌, Bool, true, false, Result, ok, err,
  invalid_phase_transition, if◌then◌else◌,
}

pub data Phase : Type 0 where
  diagnose approve verify : Phase

-- `phase.value`
abbrev pub value : Phase → String
value diagnose = "diagnose"
value approve = "approve"
value verify = "verify"

-- `_NEXT_PHASE.get(phase)`
abbrev pub successor : Phase → Option Phase
successor diagnose = some approve
successor approve = some verify
successor verify = none

-- `expected is target`, where `expected` may be None
abbrev pub is_phase : Option Phase → Phase → Bool
is_phase (some diagnose) diagnose = true
is_phase (some approve) approve = true
is_phase (some verify) verify = true
is_phase _ _ = false

abbrev pub expected_text : Option Phase → String
expected_text none = "terminal"
expected_text (some p) = value p

unfoldable pub assert_phase_transition : Phase → Phase → Result (Unit {0})
assert_phase_transition current target =
    if is_phase (successor current) target
    then ok tt
    else err (
        invalid_phase_transition (
          concat (
            "invalid phase transition: "
            ∷ value current
            ∷ " -> "
            ∷ value target
            ∷ "; expected "
            ∷ expected_text (successor current)
            ∷ [])))

abbrev or_terminal : Phase → Option Phase → Result Phase
or_terminal current none =
    err (invalid_phase_transition (concat (value current ∷ " is terminal" ∷ [])))
or_terminal current (some p) = ok p

unfoldable pub next_phase : Phase → Result Phase
next_phase current = or_terminal current (successor current)
