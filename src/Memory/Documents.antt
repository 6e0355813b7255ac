-- ===== src/Memory/Documents.antt =====
-- The runbook of api/memory.py and the configuration that `get_memory_service` reads.
use googlecloudhack.Prelude.{ℤ, pos, String, Option, none, some, List, [], ◌∷◌}
use googlecloudhack.Memory.{VoyageMemoryConfig, MemoryDocument}
use googlecloudhack.Memory.Service.{env_int}

abbrev document : String → String → String → List String → MemoryDocument
document id title text tags = record { id = id; title = title; text = text; tags = tags }

abbrev pub memory_documents : List MemoryDocument
memory_documents =
    document "blocking-sort-esr" "Blocking SORT with ESR index order"
      "When explain contains a blocking SORT, prefer a compound index ordered by equality fields first, sort fields next, and range fields last."
      ("SORT" ∷ "ESR" ∷ "index" ∷ [])
    ∷ document "high-docs-examined" "High docs examined against a small result set"
        "A high docsExamined-to-returned ratio means the current index is not selective enough for the query shape. Verify docs examined, keys examined, or execution time improves."
        ("docsExamined" ∷ "selectivity" ∷ "verification" ∷ [])
    ∷ document "hash-bound-approval" "Approval must bind to the evidence hash"
        "The operator approves the hash derived from before evidence and the recommendation. If the hash changes, reject the decision as stale and keep mutation blocked."
        ("approval" ∷ "hash" ∷ "gate" ∷ [])
    ∷ document "verification-rail" "Strict verification rail"
        "Mark VERIFIED only when blocking SORT is gone, the selected index is evidenced in the plan, and at least one metric improves. Otherwise record failed checks."
        ("verify" ∷ "SORT" ∷ "metrics" ∷ [])
    ∷ document "captured-query-natural-plan" "Captured queries diagnose their natural plan"
        "For real workload captures, diagnose the natural plan without forcing the old demo hint. The captured filter, sort, and limit drive the ESR candidate."
        ("captured-query" ∷ "workload" ∷ "explain" ∷ [])
    ∷ document "index-backed-sort" "Index-backed sort is the intended after state"
        "Removing a blocking SORT does not mean results are unsorted. MongoDB can read the compound index in the requested order without materializing a blocking sort stage."
        ("sort" ∷ "index" ∷ "after" ∷ [])
    ∷ document "rollback-visibility" "Show rollback visibility before automation"
        "Expose the rollback command or index name clearly in the evidence trail. Automatic rollback can wait; the operator still needs to see what would be reversed."
        ("rollback" ∷ "audit" ∷ "operator" ∷ [])
    ∷ document "agent-read-only-boundary" "Agents recommend; controller decides"
        "Reasoning agents and read-only tools provide evidence and narrative context only. Deterministic Python validates, selects, hashes, applies after approval, and verifies."
        ("agents" ∷ "read-only" ∷ "controller" ∷ [])
    ∷ []

abbrev env_or : (environ : String → Option String) → String → String → String
env_or environ name default = elim (environ name) [ none ↦ default | some s ↦ s ]

-- the configuration of `get_memory_service`, with the namespace that is the default
unfoldable pub memory_config :
    (environ : String → Option String)
    → (strip : String → String) → (int_of_str : String → Option ℤ) → VoyageMemoryConfig
memory_config environ strip int_of_str = record {
  api_key = strip (env_or environ "VOYAGE_API_KEY" "");
  embed_model = env_or environ "VOYAGE_EMBED_MODEL" "voyage-4-lite";
  rerank_model = env_or environ "VOYAGE_RERANK_MODEL" "rerank-2.5-lite";
  top_k = env_int environ int_of_str "VOYAGE_MEMORY_TOP_K" (pos 3);
  prefilter_k = env_int environ int_of_str "VOYAGE_MEMORY_PREFILTER_K" (pos 8);
  max_docs = env_int environ int_of_str "VOYAGE_MEMORY_MAX_DOCS" (pos 12);
  namespace = "dbre-runbook";
}
