-- ===== src/Explain.antt =====
-- controller/explain.py: the stages of a winning plan, and the evidence that an explain gives.
-- The driver and the secret manager are outside the repository: what `cursor.explain()` returns is
-- a value that the functions here take.
use googlecloudhack.Prelude.{
  true, false, Option, none, some, List, [], ◌∷◌, ◌++◌, ◌==◌, Result, ok, err, type_error,
  if◌then◌else◌, ◌>>=◌,
}
use googlecloudhack.Value.{
  Value, str, list, tuple, dict, Items, nil, cons, Fields, end, field, get, is_truthy,
}

-- `stage = node.get("stage"); if stage: stages.append(stage)`
abbrev pub own_stage : Option Value → List Value
own_stage none = []
own_stage (some v) = if is_truthy v then v ∷ [] else []

-- the branches on "inputStage" and "inputStages"; the first is preferred
abbrev pub first_branch :
    Option (Result (List Value)) → Option (Result (List Value)) → Result (List Value)
first_branch (some r) s = r
first_branch none (some s) = s
first_branch none none = ok []

-- The `while` loop goes down along "inputStage", so it is the recursion `walk_stages` on the child.
-- `walk_children` is the `for` loop over "inputStages": a string or a dict there is iterated
-- over characters or keys, which are no mappings; what cannot be iterated raises.
unfoldable mutual
  pub walk_stages : Value → Result (List Value)
  walk_stages (dict fs) = do
    below ← first_branch (walk_input_stage fs) (walk_input_stages fs)
    ok (own_stage (get "stage" fs) ++ below)
  walk_stages _ = ok []

  pub walk_children : Value → Result (List Value)
  walk_children (list vs) = walk_items vs
  walk_children (tuple vs) = walk_items vs
  walk_children (str s) = ok []
  walk_children (dict fs) = ok []
  walk_children _ = err (type_error "object is not iterable")

  pub walk_items : Items → Result (List Value)
  walk_items nil = ok []
  walk_items (cons v vs) = do here ← walk_stages v; later ← walk_items vs; ok (here ++ later)

  pub walk_input_stage : Fields → Option (Result (List Value))
  walk_input_stage end = none
  walk_input_stage (field k v fs) = elim (k == "inputStage") [
    | true ↦ some (walk_stages v)
    | false ↦ walk_input_stage fs
  ]

  pub walk_input_stages : Fields → Option (Result (List Value))
  walk_input_stages end = none
  walk_input_stages (field k v fs) = elim (k == "inputStages") [
    | true ↦ some (walk_children v)
    | false ↦ walk_input_stages fs
  ]
