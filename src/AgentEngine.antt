-- ===== src/AgentEngine.antt =====
-- What an answer of a deployed agent holds (the parsing of api/agent_engine.py): the texts and the
-- function responses of its events, an index, the first JSON object of a text. An event is a JSON value,
-- and `getattr` finds no attribute on one.
pub mod Payload
pub mod Clients
pub mod Config
pub mod Deployed
pub mod OneTool
pub mod Overflow
pub mod Pipeline
use googlecloudhack.Prelude.{
  ℤ, String, code, nat_eq, ◌⊎◌, Bool, true, false, Option, none, some, List, [], ◌∷◌, map, is_nil,
  concat, if◌then◌else◌, Result, ok, err, ◌>>=◌,
}
use googlecloudhack.Externals.{Externals}
use googlecloudhack.Value.{
  Value, null, str, list, tuple, dict, Items, nil, cons, Fields, end, elements, get, get_or,
}
use googlecloudhack.Schemas.{Evidence}
use googlecloudhack.PyText.{text}
use googlecloudhack.Orchestrator.Checks.{int_of, is_conversion_error}

-- What the file calls of the standard library and of pydantic.
pub record Library : Type 0 where
  -- `JSONDecoder().raw_decode(s)`, its object; none where it raises JSONDecodeError
  pub raw_decode : String → Option Value
  -- `json.dumps(v, sort_keys=...)`
  pub dumps : (sort_keys : Bool) → Value → String
  -- `s.strip()`
  pub strip : String → String
  -- `Evidence.model_validate(d)`, or the text of its ValidationError
  pub validate_evidence : Fields → String ⊎ Evidence

-- `_first_json_object`
unfoldable pub first_json_object : (raw_decode : String → Option Value) → String → Fields
first_json_object raw_decode String.[] = end
first_json_object raw_decode (String.◌∷◌ c s) =
    let rest = first_json_object raw_decode s in
    if nat_eq (code c) b'{'
    then elim (raw_decode (String.◌∷◌ c s)) [ some (dict fs) ↦ fs | _ ↦ rest ]
    else rest

-- `event.get("content") or {}`, and its parts
unfoldable pub event_parts : Value → List Value
event_parts (dict fs) = elim (get_or "content" (dict end) fs) [
  | dict content ↦ elim (get "parts" content) [ some (list parts) ↦ elements parts | _ ↦ [] ]
  | _ ↦ []
]
event_parts _ = []

module _ (x : Externals) where
  -- none where the `except` catches what `int` raises
  abbrev pub index_key : (name : String) → Result ℤ → Result (Option (String × ℤ))
  index_key name (ok d) = ok (some (name, d))
  index_key name (err exc) = if is_conversion_error exc then ok none else err exc

  -- one round of the loop: a pair of a field and a direction; none where the loop returns ()
  unfoldable pub index_item : Value → Result (Option (String × ℤ))
  index_item (list (cons name (cons direction nil))) = index_key (text x name) (int_of x direction)
  index_item (tuple (cons name (cons direction nil))) = index_key (text x name) (int_of x direction)
  index_item _ = ok none

  abbrev with_key : String × ℤ → Option (List (String × ℤ)) → Option (List (String × ℤ))
  with_key key none = none
  with_key key (some keys) = some (key ∷ keys)

  -- the rest of the loop after one round
  abbrev pub after_item :
      Option (String × ℤ)
      → Result (Option (List (String × ℤ)))
      → Result (Option (List (String × ℤ)))
  after_item none rest = ok none
  after_item (some key) rest = rest >>= λ keys. ok (with_key key keys)

  unfoldable pub index_items : Items → Result (Option (List (String × ℤ)))
  index_items nil = ok (some [])
  index_items (cons v vs) = let rest = index_items vs in index_item v >>= λ key. after_item key rest

  abbrev pub or_nothing : Option (List (String × ℤ)) → List (String × ℤ)
  or_nothing none = []
  or_nothing (some keys) = keys

  -- what `int` raises for an infinite direction is not caught
  unfoldable pub normalize_index_spec : Value → Result (List (String × ℤ))
  normalize_index_spec (list vs) = index_items vs >>= λ keys. ok (or_nothing keys)
  normalize_index_spec (tuple vs) = index_items vs >>= λ keys. ok (or_nothing keys)
  normalize_index_spec _ = ok []

  unfoldable pub part_text : Value → String
  part_text (dict fs) = text x (get_or "text" (str "") fs)
  part_text _ = ""

  -- the name and the payload of a response
  abbrev response_of : Value → Option (String × Fields)
  response_of (dict response) = elim (get "response" response) [
    | some (dict payload) ↦ some (text x (get_or "name" null response), payload)
    | _ ↦ none
  ]
  response_of _ = none

  unfoldable pub part_function_response : Value → Option (String × Fields)
  part_function_response (dict fs) = response_of (get_or "function_response" null fs)
  part_function_response _ = none

  unfoldable pub event_text : Value → String
  event_text (dict fs) =
      if is_nil (event_parts (dict fs))
      then text x (get_or "text" (str "") fs)
      else concat (map part_text (event_parts (dict fs)))
  event_text _ = ""

  abbrev responses_of : List Value → List (String × Fields)
  responses_of [] = []
  responses_of (part ∷ parts) = elim (part_function_response part) [
    | none ↦ responses_of parts
    | some response ↦ response ∷ responses_of parts
  ]

  unfoldable pub event_function_responses : Value → List (String × Fields)
  event_function_responses event = responses_of (event_parts event)
