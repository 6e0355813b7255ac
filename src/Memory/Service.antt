-- ===== src/Memory/Service.antt =====
-- `VoyageMemoryService` of api/memory.py. The state is `_VOYAGE_CACHE`, by run.
use googlecloudhack.Prelude.{
  ℕ, ℤ, pos, negsuc, pos_part, leb_ℤ, String, is_empty, Bool, true, false, Option, none, some, List,
  [], ◌∷◌, map, Result, ok, err, raised, voyage_memory_error, ◌>>=◌, if◌then◌else◌,
}
use googlecloudhack.Prelude.Exec.{Exec}
use googlecloudhack.Externals.{Externals}
use googlecloudhack.Value.{Value}
use googlecloudhack.Schemas.{EvidencePack}
use googlecloudhack.LedgerStore.Dicts.{Dict, lookup, insert}
use googlecloudhack.Memory.{
  Floats, VoyageMemoryConfig, MemoryDocument, MemorySource, MemoryGuidance, MemoryStatus,
  MemoryResponse, VoyageClientProtocol, first_items, slice_to, item_at, enumerate_from,
  sorted_descending, build_memory_query, local_docs, guidance, cosine,
}

abbrev pub max_ℤ : ℤ → ℤ → ℤ
max_ℤ a b = if leb_ℤ a b then b else a

-- What the service reads of the outside, beside its client: texts, and the clock.
pub record MemoryTexts : Type 0 where
  -- `json.dumps(v, sort_keys=...)`
  pub dumps : (sort_keys : Bool) → Value → String
  pub lower : String → String
  -- `s.replace("_", " ")`
  pub replace_underscores : String → String
  -- `s.split()`
  pub split : String → List String

module _ (x : Externals) {F : Type 0} (fl : Floats F) (texts : MemoryTexts)
    (config : VoyageMemoryConfig) (client : VoyageClientProtocol F)
    (documents : List MemoryDocument) (now : String) where
  abbrev pub memory_query : EvidencePack → String
  memory_query pack = build_memory_query x texts.dumps pack

  abbrev one_row : List (List F) → Result (List F)
  one_row (row ∷ []) = ok row
  one_row _ = err (voyage_memory_error "Voyage returned an unexpected embedding count")

  unfoldable pub single_embedding : (text model input_type : String) → Result (List F)
  single_embedding text model input_type = client.embed (text ∷ []) model input_type >>= one_row

  -- `docs[index]`
  abbrev doc_at : List MemoryDocument → ℕ → Result MemoryDocument
  doc_at docs index = elim (item_at index docs) [
    | none ↦ err (raised "IndexError: tuple index out of range")
    | some doc ↦ ok doc
  ]

  abbrev candidates_of : List MemoryDocument → List (ℕ × List F) → Result (List MemoryDocument)
  candidates_of docs [] = ok []
  candidates_of docs ((index, row) ∷ rows) =
      doc_at docs index >>= λ doc. candidates_of docs rows >>= λ rest. ok (doc ∷ rest)

  -- the nearest documents first
  unfoldable pub prefilter :
      List MemoryDocument → (query : List F) → List (List F) → Result (List MemoryDocument)
  prefilter docs query rows = candidates_of docs (
      slice_to (max_ℤ config.top_k config.prefilter_k)
        (sorted_descending fl.less (λ e. cosine fl query e.1) (enumerate_from 0 rows)))

  abbrev candidate_at : List MemoryDocument → ℤ → Option MemoryDocument
  candidate_at candidates (pos n) = item_at n candidates
  candidate_at candidates (negsuc n) = none

  unfoldable pub guidance_of :
      EvidencePack → List MemoryDocument → List (ℤ × F) → List (MemoryGuidance F)
  guidance_of pack candidates [] = []
  guidance_of pack candidates ((index, score) ∷ ranked) =
      let rest = guidance_of pack candidates ranked in
      elim (candidate_at candidates index) [
        | none ↦ rest
        | some doc ↦ guidance fl doc pack score MemorySource.voyage ∷ rest
      ]

  -- the body of the `try`, up to its guidance
  abbrev pub rank : EvidencePack → List MemoryDocument → Result (List (MemoryGuidance F))
  rank pack candidates =
      client.rerank (memory_query pack) (map (λ doc. doc.text) candidates) config.rerank_model
        config.top_k
      >>= λ ranked. ok (guidance_of pack candidates (slice_to config.top_k ranked))

  abbrev pub rank_nearest :
      EvidencePack
      → List MemoryDocument
      → (query_embedding : List F) → Result (List (MemoryGuidance F))
  rank_nearest pack docs query_embedding =
      client.embed (map (λ doc. doc.text) docs) config.embed_model "document"
      >>= prefilter docs query_embedding
      >>= rank pack

  unfoldable pub retrieve :
      EvidencePack → (docs : List MemoryDocument) → Result (List (MemoryGuidance F))
  retrieve pack docs =
      single_embedding (memory_query pack) config.embed_model "query" >>= rank_nearest pack docs

  abbrev pub response :
      EvidencePack
      → MemoryStatus
      → List (MemoryGuidance F)
      → (message : Option String) → MemoryResponse F
  response pack status found message = record {
    configured = true;
    run_id = pack.run_id;
    status = status;
    mutation_authority = false;
    guidance = found;
    models = (config.embed_model, config.rerank_model);
    query = some (memory_query pack);
    namespace = some config.namespace;
    retrieved_at = some now;
    message = message;
  }

  abbrev pub unconfigured_response : EvidencePack → MemoryResponse F
  unconfigured_response pack = record {
    configured = false;
    run_id = pack.run_id;
    status = MemoryStatus.unconfigured;
    mutation_authority = false;
    guidance = [];
    models = (config.embed_model, config.rerank_model);
    query = none;
    namespace = none;
    retrieved_at = none;
    message = some "Sift Memory is not configured.";
  }

  -- the documents that the run's own words name, where the service does not answer
  unfoldable pub local_guidance :
      EvidencePack → (docs : List MemoryDocument) → List (MemoryGuidance F)
  local_guidance pack docs = slice_to config.top_k (
      map (λ doc. guidance fl doc pack fl.tenth MemorySource.local)
        (local_docs x texts.dumps texts.lower texts.replace_underscores texts.split pack docs))

  -- `except VoyageMemoryError`
  abbrev pub cached_or_local :
      EvidencePack
      → List MemoryDocument
      → Option (MemoryResponse F)
      → Exec (Dict (MemoryResponse F)) (MemoryResponse F)
  cached_or_local pack docs (some cached) cache = (ok cached, cache)
  cached_or_local pack docs none cache = (
    ok (
        response pack MemoryStatus.fallback (local_guidance pack docs)
          (some "Voyage request failed; returned local guidance.")),
    cache,
  )

  abbrev pub finish_lookup :
      EvidencePack
      → List MemoryDocument
      → Result (List (MemoryGuidance F))
      → Exec (Dict (MemoryResponse F)) (MemoryResponse F)
  finish_lookup pack docs (ok []) cache = (
    ok (response pack MemoryStatus.empty [] (some "No relevant Sift Memory guidance found.")),
    cache,
  )
  finish_lookup pack docs (ok (g ∷ gs)) cache =
      let found = response pack MemoryStatus.ok (g ∷ gs) none in
      (ok found, insert pack.run_id found cache)
  finish_lookup pack docs (err (voyage_memory_error m)) cache =
      cached_or_local pack docs (lookup pack.run_id cache) cache
  finish_lookup pack docs (err exc) cache = (err exc, cache)

  abbrev pub with_docs :
      EvidencePack → List MemoryDocument → Exec (Dict (MemoryResponse F)) (MemoryResponse F)
  with_docs pack [] cache = (
    ok (response pack MemoryStatus.empty [] (some "No Sift Memory documents are available.")),
    cache,
  )
  with_docs pack (doc ∷ docs) cache =
      finish_lookup pack (doc ∷ docs) (retrieve pack (doc ∷ docs)) cache

  unfoldable pub lookup_memory : EvidencePack → Exec (Dict (MemoryResponse F)) (MemoryResponse F)
  lookup_memory pack cache =
      if is_empty config.api_key
      then (ok (unconfigured_response pack), cache)
      else with_docs pack (first_items (pos_part config.max_docs) documents) cache

-- `_env_int`, on the environment and on `int` of a string
unfoldable pub env_int :
    (environ : String → Option String) → (int_of_str : String → Option ℤ) → (name : String) → ℤ → ℤ
env_int environ int_of_str name default = elim (environ name) [
  | none ↦ default
  | some s ↦ elim (int_of_str s) [ none ↦ default | some n ↦ n ]
]
