-- ===== src/Value.antt =====
-- The values of the program that are not of a class of its own: what JSON, the MongoDB driver and
-- the agents hand over (controller/explain.py, controller/workload.py, controller/ledger.py,
-- api/agent_engine.py). Keys of a dict are strings. A float is held by its `repr`; a read-only
-- mapping proxy is a dict.
use googlecloudhack.Prelude.{
  ℤ, pos, eq_ℤ, is_empty, not, true, false, String, Bool, ◌||◌, Option, none, some, List, [], ◌∷◌,
  ◌==◌, if◌then◌else◌, ◌≡◌, ◌↔◌, ap, eq_iff, arith,
}

mutual
  pub data Value : Type 0 where
    null : Value
    boolean : Bool → Value
    int : ℤ → Value
    float : String → Value
    str : String → Value
    list : Items → Value
    tuple : Items → Value
    dict : Fields → Value

  pub data Items : Type 0 where
    nil : Items
    cons : Value → Items → Items

  pub data Fields : Type 0 where
    end : Fields
    field : String → Value → Fields → Fields

abbrev pub elements : Items → List Value
elements nil = []
elements (cons v vs) = v ∷ elements vs

abbrev pub of_elements : List Value → Items
of_elements [] = nil
of_elements (v ∷ vs) = cons v (of_elements vs)

-- `d.items()`
abbrev pub items : Fields → List (String × Value)
items end = []
items (field k v fs) = (k, v) ∷ items fs

abbrev pub of_items : List (String × Value) → Fields
of_items [] = end
of_items ((k, v) ∷ kvs) = field k v (of_items kvs)

-- `d.get(k)`
abbrev pub get : String → Fields → Option Value
get k end = none
get k (field j v fs) = if j == k then some v else get k fs

-- `d.get(k, default)`
abbrev pub get_or : String → Value → Fields → Value
get_or k v fs = elim (get k fs) [ none ↦ v | some w ↦ w ]

-- `k in d`
abbrev pub has_key : String → Fields → Bool
has_key k end = false
has_key k (field j v fs) = j == k || has_key k fs

-- `d[k] = v`
abbrev pub put : String → Value → Fields → Fields
put k v end = field k v end
put k v (field j w fs) = if j == k then field j v fs else field j w (put k v fs)

-- `bool(v)`
abbrev pub is_truthy : Value → Bool
is_truthy null = false
is_truthy (boolean b) = b
is_truthy (int n) = not (eq_ℤ n (pos 0))
is_truthy (float r) = not (r == "0.0" || r == "-0.0")
is_truthy (str s) = not (is_empty s)
is_truthy (list nil) = false
is_truthy (tuple nil) = false
is_truthy (dict end) = false
is_truthy _ = true

-- `v == s` for a string `s`
abbrev pub is_str : Value → String → Bool
is_str (str t) s = t == s
is_str _ s = false

pub is_str_iff : (v : Value) (s : String) → (is_str v s ≡ true) ↔ (v ≡ str s)
is_str_iff (str t) s = (λ h. ap str ((eq_iff t s).0 h), λ h. ground (arith, eq_iff t s))
is_str_iff null s = (λ h. cc, λ h. cc)
is_str_iff (boolean b) s = (λ h. cc, λ h. cc)
is_str_iff (int n) s = (λ h. cc, λ h. cc)
is_str_iff (float r) s = (λ h. cc, λ h. cc)
is_str_iff (list vs) s = (λ h. cc, λ h. cc)
is_str_iff (tuple vs) s = (λ h. cc, λ h. cc)
is_str_iff (dict fs) s = (λ h. cc, λ h. cc)
