-- ===== src/Gating/Writes.antt =====
-- What the gate of agents/gating.py keeps from an agent: index writes before the verify phase.
use googlecloudhack.Prelude.{
  String, ◌≡◌, ◌↔◌, ◌⊎◌, refl, inl, inr, true, false, ◌||◌, List, [], ◌∷◌, ◌++◌, none, elem, arith,
  ◌==◌, eq_iff, Bool-cases,
}
use googlecloudhack.Phases.{Phase, diagnose, approve, verify}
use googlecloudhack.Gating.{read_tools, write_tools, is_allowed, call, make_gate}

pub elem-append : (s : String) (xs ys : List String) → elem s (xs ++ ys) ≡ (elem s xs || elem s ys)
elem-append s [] ys = refl
elem-append s (x ∷ xs) ys = ground (arith, elem-append s xs ys)

create_index-not_read : elem "create-index" read_tools ≡ false
unfolding read_tools
create_index-not_read = refl

drop_index-not_read : elem "drop-index" read_tools ≡ false
unfolding read_tools
drop_index-not_read = refl

not_read_of_write : (tool : String) → elem tool write_tools ≡ true → elem tool read_tools ≡ false
unfolding write_tools
not_read_of_write tool w = elim (Bool-cases (tool == "create-index")) [
  | inl e ↦ rw ((eq_iff tool "create-index").0 e) create_index-not_read
  | inr n ↦ elim (Bool-cases (tool == "drop-index")) [
    | inl e ↦ rw ((eq_iff tool "drop-index").0 e) drop_index-not_read
    | inr m ↦ ground arith
  ]
]

-- In every phase, the gate made for the phase lets a tool call through exactly when `is_allowed`
-- says so, which is when the tool is a read tool, or the phase is `verify` and it is a write tool.
-- So a write tool is let through in the phase `verify` and in no other.
pub make_gate_iff :
    (phase : Phase) (tool : String)
    → ((call (make_gate phase) tool ≡ none) ↔ (is_allowed phase tool ≡ true))
      × ((is_allowed phase tool ≡ true)
          ↔ ((elem tool read_tools ≡ true) ⊎ ((elem tool write_tools ≡ true) × (phase ≡ verify))))
      × (((elem tool write_tools ≡ true) × (call (make_gate phase) tool ≡ none))
          ↔ ((elem tool write_tools ≡ true) × (phase ≡ verify)))
unfolding call make_gate is_allowed
make_gate_iff diagnose tool = ground (arith, not_read_of_write tool)
make_gate_iff approve tool = ground (arith, not_read_of_write tool)
make_gate_iff verify tool = ground (arith, elem-append tool read_tools write_tools)
