-- ===== src/Phases/Order.antt =====
-- The order that the transitions of controller/phases.py leave: a run goes forward only.
use googlecloudhack.Prelude.{ℕ, ◌+◌, ◌≡◌, ◌↔◌, ok, arith}
use googlecloudhack.Phases.{Phase, diagnose, approve, verify, assert_phase_transition, next_phase}

abbrev pub rank : Phase → ℕ
rank diagnose = 0
rank approve = 1
rank verify = 2

-- A transition is accepted exactly when its target is the phase of the next rank (DIAGNOSE, APPROVE and
-- VERIFY in this order), and exactly when its target is what `next_phase` returns.
pub assert_phase_transition_iff :
    (current target : Phase)
    → ((assert_phase_transition current target ≡ ok tt) ↔ (rank target ≡ rank current + 1))
      × ((assert_phase_transition current target ≡ ok tt) ↔ (next_phase current ≡ ok target))
unfolding assert_phase_transition next_phase
assert_phase_transition_iff diagnose approve = ground arith
assert_phase_transition_iff current target = ground arith
