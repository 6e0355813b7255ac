-- ===== src/Tests/Runbook.antt =====
-- The theorem on the memory at the sample pack, with a client that does not answer.
use googlecloudhack.Prelude.{
  ℕ, pos, ltb, nat_eq, ◌+◌, ◌*◌, ◌/◌, refl, [], ◌∷◌, err, voyage_memory_error,
}
use googlecloudhack.LedgerStore.Dicts.{lookup}
use googlecloudhack.Memory.{Floats, VoyageMemoryConfig, VoyageClientProtocol}
use googlecloudhack.Memory.Documents.{memory_documents}
use googlecloudhack.Memory.Service.{MemoryTexts, lookup_memory}
use googlecloudhack.Memory.Bounded.{IsBounded, IsBoundedCache, Yields, lookup_memory-IsBounded}
use googlecloudhack.Tests.Samples.{sample_externals, sample_pack}

-- numbers in the place of floats
abbrev sample_floats : Floats ℕ
sample_floats = record {
  zero_f = 0;
  tenth = 1;
  add = λ a b. a + b;
  mul = λ a b. a * b;
  div = λ a b. a / b;
  sqrt = λ a. a;
  is_zero = λ a. nat_eq a 0;
  less = ltb;
}

abbrev sample_texts : MemoryTexts
sample_texts = record {
  dumps = λ sort_keys v. "{}";
  lower = λ s. s;
  replace_underscores = λ s. s;
  split = λ s. s ∷ [];
}

abbrev sample_config : VoyageMemoryConfig
sample_config = record {
  api_key = "key";
  embed_model = "voyage-4-lite";
  rerank_model = "rerank-2.5-lite";
  top_k = pos 2;
  prefilter_k = pos 8;
  max_docs = pos 12;
  namespace = "dbre-runbook";
}

-- the service refuses every request
abbrev silent_client : VoyageClientProtocol ℕ
silent_client = record {
  embed = λ texts model input_type. err (voyage_memory_error "Voyage request failed");
  rerank = λ query documents model top_k. err (voyage_memory_error "Voyage request failed");
}

nothing_cached : IsBoundedCache {F = ℕ} 2 []
unfolding lookup
nothing_cached run_id r e = cc

lookup_memory-IsBounded_example :
    Yields
      (IsBounded 2 "run-1")
      (lookup_memory sample_externals sample_floats sample_texts sample_config silent_client
        memory_documents "2026-06-01" sample_pack []).0
    × IsBoundedCache 2
        (lookup_memory sample_externals sample_floats sample_texts sample_config silent_client
          memory_documents "2026-06-01" sample_pack []).1
lookup_memory-IsBounded_example =
    lookup_memory-IsBounded sample_externals sample_floats sample_texts sample_config silent_client
      memory_documents "2026-06-01" 2 sample_pack [] refl nothing_cached
