-- ===== src/Backends.antt =====
-- controller/backends.py: what the orchestrator asks of a database, and `FakeBackend`. A backend has
-- a state `W`; a call may raise, and leaves a state either way.
use googlecloudhack.Prelude.{
  ℕ, zero, suc, ◌+◌, ◌-◌, ℤ, String, Option, none, some, List, [], ◌∷◌, ◌++◌, length, min, ok, err,
  raised,
}
use googlecloudhack.Prelude.Exec.{Exec}
use googlecloudhack.Value.{Fields}
use googlecloudhack.Schemas.{Evidence}

-- the index that a query is told to use
pub data Hint : Type 0 where
  no_hint : Hint
  by_name : String → Hint
  by_keys : List (String × ℤ) → Hint

pub record Backend (W : Type 0) : Type 0 where
  pub explain : Fields → List (String × ℤ) → ℤ → Hint → Exec W Evidence
  pub apply_index : List (String × ℤ) → String → Exec W (Unit {0})
  pub drop_index : String → Exec W (Unit {0})

-- `FakeBackend`: the results to come, and what was applied and dropped
pub record Fake : Type 0 where
  pub results : List Evidence
  pub call_count : ℕ
  pub applied_indexes : List (List (String × ℤ) × String)
  pub dropped_indexes : List String

-- `self._results[idx]`; an empty list raises
abbrev pub result_at : List Evidence → ℕ → Option Evidence
result_at [] i = none
result_at (e ∷ es) zero = some e
result_at (e ∷ es) (suc i) = result_at es i

abbrev fake_result : Option Evidence → Exec Fake Evidence
fake_result none s = (err (raised "list index out of range"), s)
fake_result (some e) s = (ok e, s)

abbrev pub fake_backend : Backend Fake
fake_backend = record {
  explain = λ query_filter query_sort limit hint s.
      fake_result (result_at s.results (min s.call_count (length s.results - 1)))
        (record s { call_count = s.call_count + 1 });
  apply_index =
      λ keys name s. (ok tt, record s { applied_indexes = s.applied_indexes ++ (keys, name) ∷ [] });
  drop_index = λ name s. (ok tt, record s { dropped_indexes = s.dropped_indexes ++ name ∷ [] });
}
