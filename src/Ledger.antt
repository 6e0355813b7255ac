-- ===== src/Ledger.antt =====
-- controller/ledger.py: the hash of a piece of evidence. Models are dumped before they come here
-- (Schemas/Dump); bytes and sets do not occur in the values that the program hashes.
pub mod Reordering
use googlecloudhack.Prelude.{
  String, Bool, true, false, not, ◌||◌, List, [], ◌∷◌, elem, map, if◌then◌else◌,
}
use googlecloudhack.Externals.{Externals}
use googlecloudhack.Value.{
  Value, null, boolean, int, float, str, list, tuple, dict, Items, nil, cons, Fields, end, field,
  items, of_items, elements, of_elements,
}
use googlecloudhack.Json.{dumps}
use googlecloudhack.Json.Sorting.{sort_by}

abbrev pub volatile_keys : List String
volatile_keys = "_ts" ∷ "created_at" ∷ "generated_at" ∷ "timestamp" ∷ "updated_at" ∷ []

-- A dict is sorted by its keys; a tuple becomes a list and keeps its order.
unfoldable mutual
  unfolding sort_by

  pub canonical : Value → Value
  canonical (dict fs) = dict (of_items (sort_by (λ e. e.0) (canonical_fields fs)))
  canonical (list vs) = list (canonical_items vs)
  canonical (tuple vs) = list (canonical_items vs)
  canonical v = v

  pub canonical_items : Items → Items
  canonical_items nil = nil
  canonical_items (cons v vs) = cons (canonical v) (canonical_items vs)

  pub canonical_fields : Fields → List (String × Value)
  canonical_fields end = []
  canonical_fields (field k v fs) = (k, canonical v) ∷ canonical_fields fs

-- `_canonical_collection`: the items of a collection at the top are sorted by their texts
unfoldable pub canonical_collection : Items → Value
unfolding canonical dumps sort_by
canonical_collection vs = list (of_elements (sort_by dumps (elements (canonical_items vs))))

-- `{key: item for key, item in canonical.items() if key not in _VOLATILE_KEYS}`
unfoldable pub drop_volatile : Fields → Fields
drop_volatile end = end
drop_volatile (field k v fs) =
    let rest = drop_volatile fs in if elem k volatile_keys then rest else field k v rest

abbrev strip : Value → Value
unfolding drop_volatile
strip (dict fs) = dict (drop_volatile fs)
strip v = v

abbrev top : Value → Value
unfolding canonical canonical_collection
top (list vs) = canonical_collection vs
top (tuple vs) = canonical_collection vs
top v = canonical v

-- what is hashed
unfoldable pub payload : Value → String
unfolding canonical canonical_collection drop_volatile dumps
payload v = dumps (strip (top v))

unfoldable pub evidence_hash : Externals → Value → String
unfolding payload
evidence_hash x v = x.sha256_hex (payload v)
