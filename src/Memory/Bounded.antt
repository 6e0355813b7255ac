-- ===== src/Memory/Bounded.antt =====
-- What the memory of api/memory.py may show of a run.
use googlecloudhack.Prelude.{
  ℕ, zero, suc, ◌≤◌, length, ℤ, pos, ◌==◌, String, is_empty, ◌≡◌, refl, inl, inr, false, Bool-cases,
  Option, none, some, List, [], ◌∷◌, map, Result, ok, err, ◌>>=◌, arith, eq_iff,
  voyage_memory_error,
}
use googlecloudhack.Externals.{Externals}
use googlecloudhack.Schemas.{EvidencePack}
use googlecloudhack.LedgerStore.Dicts.{Dict, lookup, insert, lookup-insert}
use googlecloudhack.Memory.{
  Floats, VoyageMemoryConfig, MemoryDocument, MemoryGuidance, MemoryResponse, MemoryStatus,
  VoyageClientProtocol, first_items, slice_to,
}
use googlecloudhack.Memory.Service.{
  MemoryTexts, memory_query, single_embedding, prefilter, guidance_of, retrieve, response,
  unconfigured_response, local_guidance, cached_or_local, finish_lookup, with_docs, lookup_memory,
}

length-first_items {ℓ} : {A : Type ℓ} (n : ℕ) (xs : List A) → length (first_items n xs) ≤ n
unfolding first_items
length-first_items zero xs = omega arith
length-first_items (suc n) [] = omega arith
length-first_items (suc n) (x ∷ xs) = omega (arith, length-first_items n xs)

-- What a response may show of a run: at most `k` pieces of guidance, for this run, with no authority.
pub record IsBounded {F : Type 0} (k : ℕ) (run_id : String) (r : MemoryResponse F) : Type 0 where
  pub few : length r.guidance ≤ k
  pub no_authority : r.mutation_authority ≡ false
  pub same_run : r.run_id ≡ run_id

abbrev pub IsBoundedCache : {F : Type 0} → ℕ → Dict (MemoryResponse F) → Type 0
IsBoundedCache {F} k cache =
    (run_id : String) (r : MemoryResponse F) → lookup run_id cache ≡ some r → IsBounded k run_id r

-- every value that a result may be has the property
abbrev pub Yields {ℓ κ} : {T : Type ℓ} → (T → Type κ) → Result T → Type (ℓ ⊔ κ)
Yields {T} P r = (t : T) → r ≡ ok t → P t

Yields->>= {ℓ κ μ} :
    {S : Type ℓ} {T : Type κ} (P : T → Type μ) (first : Result S) (next : S → Result T)
    → ((s : S) → Yields P (next s))
    → Yields P (first >>= next)
Yields->>= P (err exc) next h = λ t e. cc
Yields->>= P (ok s) next h = h s

module _ (x : Externals) {F : Type 0} (fl : Floats F) (texts : MemoryTexts)
    (config : VoyageMemoryConfig) (client : VoyageClientProtocol F)
    (documents : List MemoryDocument) (now : String) where
  length-guidance_of :
      (pack : EvidencePack) (candidates : List MemoryDocument) (ranked : List (ℤ × F))
      → length (guidance_of x fl texts config client documents now pack candidates ranked)
        ≤ length ranked
  unfolding guidance_of
  length-guidance_of pack candidates [] = omega arith
  length-guidance_of pack candidates ((index, score) ∷ ranked) =
      ground (arith, length-guidance_of pack candidates ranked)

  module _ (k : ℕ) (top_k : config.top_k ≡ pos k) where
    slice-few : {A : Type 0} (xs : List A) → length (slice_to config.top_k xs) ≤ k
    unfolding slice_to
    slice-few xs = rw top_k (length-first_items k xs)

    retrieve-few :
        (pack : EvidencePack) (docs : List MemoryDocument)
        → Yields
            (λ found. length found ≤ k)
            (retrieve x fl texts config client documents now pack docs)
    unfolding retrieve
    retrieve-few pack docs =
        let query = memory_query x fl texts config client documents now pack in
        Yields->>= _
          (single_embedding x fl texts config client documents now query config.embed_model "query")
          _
          λ query_embedding.
            Yields->>= _
              (client.embed (map (λ doc. doc.text) docs) config.embed_model "document"
                >>= prefilter x fl texts config client documents now docs query_embedding)
              _
              λ candidates.
                Yields->>= _
                  (client.rerank query (map (λ doc. doc.text) candidates) config.rerank_model
                    config.top_k)
                  _
                  λ ranked found e.
                    let kept = slice_to config.top_k ranked in
                    let same : guidance_of x fl texts config client documents now pack candidates
                          kept
                        ≡ found =
                      cc in
                    rw (← same)
                      (omega (arith, length-guidance_of pack candidates kept, slice-few ranked))

    local_guidance-few :
        (pack : EvidencePack) (docs : List MemoryDocument)
        → length (local_guidance x fl texts config client documents now pack docs) ≤ k
    unfolding local_guidance
    local_guidance-few pack docs = slice-few _

    abbrev IsFine :
        (pack : EvidencePack) → Result (MemoryResponse F) × Dict (MemoryResponse F) → Type 0
    IsFine pack outcome = Yields (IsBounded k pack.run_id) outcome.0 × IsBoundedCache k outcome.1

    -- a response that is returned and not stored
    returned-IsFine :
        (pack : EvidencePack) (r : MemoryResponse F) (cache : Dict (MemoryResponse F))
        → IsBounded k pack.run_id r
        → IsBoundedCache k cache
        → IsFine pack (ok r, cache)
    returned-IsFine pack r cache h c = (λ t e. let same : r ≡ t = cc in rw (← same) h, c)

    insert-IsBoundedCache :
        (run_id : String) (r : MemoryResponse F) (cache : Dict (MemoryResponse F))
        → IsBounded k run_id r
        → IsBoundedCache k cache
        → IsBoundedCache k (insert run_id r cache)
    insert-IsBoundedCache run_id r cache h c other t e = elim (Bool-cases (run_id == other)) [
      | inl same ↦
          let found : lookup other (insert run_id r cache) ≡ some r =
            rw (lookup-insert run_id other r cache, same) refl in
          let at_run : run_id ≡ other = (eq_iff run_id other).0 same in
          let stored : r ≡ t = cc in rw (← stored, ← at_run) h
      | inr different ↦
          let kept : lookup other (insert run_id r cache) ≡ lookup other cache =
            rw (lookup-insert run_id other r cache, different) refl in
          c other t (rw kept at e)
    ]

    cached_or_local-IsFine :
        (pack : EvidencePack) (docs : List MemoryDocument) (o : Option (MemoryResponse F))
        (cache : Dict (MemoryResponse F))
        → lookup pack.run_id cache ≡ o
        → IsBoundedCache k cache
        → IsFine pack (cached_or_local x fl texts config client documents now pack docs o cache)
    cached_or_local-IsFine pack docs (some cached) cache e c =
        returned-IsFine pack cached cache (c pack.run_id cached e) c
    cached_or_local-IsFine pack docs none cache e c =
        returned-IsFine pack _ cache
          (record { few = local_guidance-few pack docs; no_authority = refl; same_run = refl }) c

    finish_lookup-IsFine :
        (pack : EvidencePack) (docs : List MemoryDocument)
        (found : Result (List (MemoryGuidance F))) (cache : Dict (MemoryResponse F))
        → Yields (λ found. length found ≤ k) found
        → IsBoundedCache k cache
        → IsFine pack (finish_lookup x fl texts config client documents now pack docs found cache)
    finish_lookup-IsFine pack docs (ok []) cache h c =
        returned-IsFine pack _ cache
          (record { few = omega arith; no_authority = refl; same_run = refl }) c
    finish_lookup-IsFine pack docs (ok (g ∷ gs)) cache h c =
        let bounded : IsBounded k pack.run_id
            (response x fl texts config client documents now pack MemoryStatus.ok (g ∷ gs) none) =
          record { few = h (g ∷ gs) refl; no_authority = refl; same_run = refl } in
        (
          (returned-IsFine pack _ cache bounded c).0,
          insert-IsBoundedCache pack.run_id _ cache bounded c,
        )
    finish_lookup-IsFine pack docs (err (voyage_memory_error m)) cache h c =
        cached_or_local-IsFine pack docs (lookup pack.run_id cache) cache refl c
    finish_lookup-IsFine pack docs (err _) cache h c = (λ t e. cc, c)

    with_docs-IsFine :
        (pack : EvidencePack) (docs : List MemoryDocument) (cache : Dict (MemoryResponse F))
        → IsBoundedCache k cache
        → IsFine pack (with_docs x fl texts config client documents now pack docs cache)
    with_docs-IsFine pack [] cache c =
        returned-IsFine pack _ cache
          (record { few = omega arith; no_authority = refl; same_run = refl }) c
    with_docs-IsFine pack (doc ∷ docs) cache c =
        finish_lookup-IsFine pack (doc ∷ docs)
          (retrieve x fl texts config client documents now pack (doc ∷ docs)) cache
          (retrieve-few pack (doc ∷ docs)) c

-- With a `top_k` that is not negative, and a cache whose responses are so bounded: a lookup that returns
-- gives a response for the pack's own run, with at most `top_k` pieces of guidance and no authority to
-- change anything, whether it is fresh, cached or local; and it leaves the cache so bounded.
pub lookup_memory-IsBounded :
    (x : Externals) {F : Type 0} (fl : Floats F) (texts : MemoryTexts) (config : VoyageMemoryConfig)
    (client : VoyageClientProtocol F) (documents : List MemoryDocument) (now : String) (k : ℕ)
    (pack : EvidencePack) (cache : Dict (MemoryResponse F))
    → config.top_k ≡ pos k
    → IsBoundedCache k cache
    → Yields
        (IsBounded k pack.run_id)
        (lookup_memory x fl texts config client documents now pack cache).0
      × IsBoundedCache k (lookup_memory x fl texts config client documents now pack cache).1
unfolding lookup_memory
lookup_memory-IsBounded x fl texts config client documents now k pack cache top_k c =
    elim (Bool-cases (is_empty config.api_key)) [
      | inl e ↦ rw e (
          returned-IsFine x fl texts config client documents now k top_k pack
            (unconfigured_response x fl texts config client documents now pack) cache
            (record { few = omega arith; no_authority = refl; same_run = refl }) c)
      | inr e ↦
          rw e (with_docs-IsFine x fl texts config client documents now k top_k pack _ cache c)
    ]
