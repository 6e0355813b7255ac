-- ===== src/LedgerStore/Dicts.antt =====
-- `FakeLedgerStore` of controller/ledger_store.py: for each collection, its documents by their ids.
use googlecloudhack.Prelude.{
  String, ◌≡◌, refl, ◌&&◌, Option, none, some, List, [], ◌∷◌, ◌==◌, arith, eq_iff, eq_refl, inl,
  inr, Bool-cases, if◌then◌else◌,
}
use googlecloudhack.Value.{str, Fields, field}

-- a Python dict with string keys
abbrev pub Dict : Type 0 → Type 0
Dict V = List (String × V)

module _ {V : Type 0} where
  unfoldable pub lookup : String → Dict V → Option V
  lookup k [] = none
  lookup k ((j, v) ∷ d) = if j == k then some v else lookup k d

  unfoldable pub insert : String → V → Dict V → Dict V
  insert k v [] = (k, v) ∷ []
  insert k v ((j, w) ∷ d) = if j == k then (j, v) ∷ d else (j, w) ∷ insert k v d

  pub lookup-insert :
      (k j : String) (v : V) (d : Dict V)
      → lookup j (insert k v d) ≡ (if k == j then some v else lookup j d)
  unfolding lookup insert
  lookup-insert k j v [] = ground arith
  lookup-insert k j v ((i, w) ∷ d) =
      ground (arith, eq_iff k j, eq_iff i k, eq_iff i j, lookup-insert k j v d)

abbrev pub Records : Type 0
Records = Dict (Dict Fields)

abbrev pub or_empty : Option (Dict Fields) → Dict Fields
or_empty none = []
or_empty (some d) = d

-- `self.records.setdefault(collection, {})[record_id] = {"_id": record_id, **dict(document)}`
unfoldable pub upsert : String → String → Fields → Records → Records
upsert collection id document records =
    insert collection
      (insert id (field "_id" (str id) document) (or_empty (lookup collection records))) records

-- the document of an id in a collection
unfoldable pub find : String → String → Records → Option Fields
find collection id records = lookup id (or_empty (lookup collection records))

-- An upsert sets the one document that it names.
pub find-upsert :
    (c d i j : String) (document : Fields) (records : Records)
    → find d j (upsert c i document records)
      ≡ (if c == d && i == j then some (field "_id" (str i) document) else find d j records)
unfolding find upsert
find-upsert c d i j document records = simp lookup-insert (elim (Bool-cases (c == d)) [
  | inl e ↦ rw ((eq_iff c d).0 e) (simp (eq_refl, lookup-insert) refl)
  | inr e ↦ simp e refl
])
