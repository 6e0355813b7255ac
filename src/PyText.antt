-- ===== src/PyText.antt =====
-- `str` and `repr` of Python values.
use googlecloudhack.Prelude.{String, Bool, true, false, List, [], ◌∷◌, concat, join}
use googlecloudhack.Externals.{Externals}
use googlecloudhack.Value.{
  Value, null, boolean, int, float, str, list, tuple, dict, Items, nil, cons, Fields, end, field,
}
use googlecloudhack.Json.{int_text}

abbrev pub bool_text : Bool → String
bool_text true = "True"
bool_text false = "False"

-- `repr` of a list and of a tuple, from those of the elements
abbrev pub list_text : List String → String
list_text parts = concat ("[" ∷ join ", " parts ∷ "]" ∷ [])

abbrev pub tuple_text : List String → String
tuple_text (part ∷ []) = concat ("(" ∷ part ∷ ",)" ∷ [])
tuple_text parts = concat ("(" ∷ join ", " parts ∷ ")" ∷ [])

module _ (x : Externals) where
  unfoldable mutual
    pub repr : Value → String
    repr null = "None"
    repr (boolean b) = bool_text b
    repr (int n) = int_text n
    repr (float r) = r
    repr (str s) = x.str_repr s
    repr (list vs) = list_text (repr_items vs)
    repr (tuple vs) = tuple_text (repr_items vs)
    repr (dict fs) = concat ("{" ∷ join ", " (repr_fields fs) ∷ "}" ∷ [])

    pub repr_items : Items → List String
    repr_items nil = []
    repr_items (cons v vs) = repr v ∷ repr_items vs

    pub repr_fields : Fields → List String
    repr_fields end = []
    repr_fields (field k v fs) = concat (x.str_repr k ∷ ": " ∷ repr v ∷ []) ∷ repr_fields fs

  -- `str(v)`
  unfoldable pub text : Value → String
  text (str s) = s
  text v = repr v
