-- ===== src/Memory/Client.antt =====
-- `VoyageClient` of api/memory.py over its `_post`, which is a parameter.
use googlecloudhack.Prelude.{
  ℤ, pos, ◌++◌, if◌then◌else◌, String, List, [], ◌∷◌, Option, none, some, Result, ok, err, raised,
  voyage_memory_error, ◌>>=◌,
}
use googlecloudhack.Value.{
  Value, boolean, int, str, list, dict, Items, nil, cons, Fields, of_items, get,
}
use googlecloudhack.Schemas.DumpJson.{str_array}
use googlecloudhack.Memory.{VoyageClientProtocol}

module _ {F : Type 0} (float_of : Value → Result F) (zero_f : F)
    (post : (path : String) → (payload : Fields) → Result Fields) where
  abbrev floats : Items → Result (List F)
  floats nil = ok []
  floats (cons v vs) = float_of v >>= λ f. floats vs >>= λ fs. ok (f ∷ fs)

  abbrev embedding_of : Option Value → Result (List F)
  embedding_of (some (list vs)) = floats vs
  embedding_of _ = err (voyage_memory_error "Voyage embedding response was malformed")

  abbrev embeddings : Items → Result (List (List F))
  embeddings nil = ok []
  embeddings (cons (dict row) rows) =
      embedding_of (get "embedding" row) >>= λ e. embeddings rows >>= λ es. ok (e ∷ es)
  embeddings (cons _ rows) = err (raised "object has no attribute 'get'")

  -- `data.get("data", [])`, iterated over
  abbrev rows_of : Fields → Result Items
  rows_of fs = elim (get "data" fs) [
    | none ↦ ok nil
    | some (list rows) ↦ ok rows
    | some _ ↦ err (raised "object is not a list of rows")
  ]

  unfoldable pub embed : List String → (model input_type : String) → Result (List (List F))
  embed texts model input_type =
      post "/v1/embeddings" (
        of_items
          (("model", str model) ∷ ("input", str_array texts) ∷ ("input_type", str input_type) ∷ []))
      >>= λ data_. rows_of data_ >>= embeddings

  -- `row.get("relevance_score", row.get("score", 0.0))`
  abbrev score_of : Fields → Result F
  score_of row = elim (get "relevance_score" row) [
    | some v ↦ float_of v
    | none ↦ elim (get "score" row) [ some v ↦ float_of v | none ↦ ok zero_f ]
  ]

  -- a row without an int as its index is left out; `True` and `False` are ints
  abbrev ranked_row : Option Value → Result F → Result (List (ℤ × F))
  ranked_row (some (int n)) score = score >>= λ f. ok ((n, f) ∷ [])
  ranked_row (some (boolean b)) score = score >>= λ f. ok ((if b then pos 1 else pos 0, f) ∷ [])
  ranked_row _ score = ok []

  abbrev ranking : Items → Result (List (ℤ × F))
  ranking nil = ok []
  ranking (cons (dict row) rows) =
      ranked_row (get "index" row) (score_of row) >>= λ r. ranking rows >>= λ rs. ok (r ++ rs)
  ranking (cons _ rows) = err (raised "object has no attribute 'get'")

  unfoldable pub rerank :
      (query : String) → List String → (model : String) → (top_k : ℤ) → Result (List (ℤ × F))
  rerank query documents model top_k =
      post "/v1/rerank" (
        of_items (
          ("model", str model)
          ∷ ("query", str query)
          ∷ ("documents", str_array documents)
          ∷ ("top_k", int top_k)
          ∷ []))
      >>= λ data_. rows_of data_ >>= ranking

  abbrev pub voyage_client : VoyageClientProtocol F
  voyage_client = record { embed = embed; rerank = rerank }
