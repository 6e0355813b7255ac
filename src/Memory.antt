-- ===== src/Memory.antt =====
-- api/memory.py: guidance from a runbook beside a run, which decides nothing. Floats and the service that
-- ranks texts are parameters.
pub mod Client
pub mod Service
pub mod Documents
pub mod Bounded
use googlecloudhack.Prelude.{
  ℕ, zero, suc, ◌+◌, ◌-◌, ◌*◌, ℤ, pos, negsuc, pos_part, leb_ℤ, ltb, max, length, String, is_empty,
  elem, concat, join, Bool, true, false, not, ◌&&◌, ◌||◌, nat_eq, Option, none, some, List, [], ◌∷◌,
  map, is_nil, Result, if◌then◌else◌,
}
use googlecloudhack.Externals.{Externals}
use googlecloudhack.Value.{Value, null, int, list, dict, str, of_items, Fields, get, elements}
use googlecloudhack.Json.{int_text}
use googlecloudhack.Schemas.{EvidencePack, has_blocking_sort, status_value, severity_value}
use googlecloudhack.Schemas.Dump.{thaw}
use googlecloudhack.Schemas.DumpJson.{spec_array, str_array}
use googlecloudhack.LedgerStore.Dicts.{Dict, lookup, insert}

-- Python's floats
pub record Floats (F : Type 0) : Type 0 where
  pub zero_f : F
  -- 0.1
  pub tenth : F
  pub add : F → F → F
  pub mul : F → F → F
  pub div : F → F → F
  pub sqrt : F → F
  pub is_zero : F → Bool
  pub less : F → F → Bool

pub record VoyageMemoryConfig : Type 0 where
  pub api_key : String
  pub embed_model : String
  pub rerank_model : String
  pub top_k : ℤ
  pub prefilter_k : ℤ
  pub max_docs : ℤ
  pub namespace : String

pub record MemoryDocument : Type 0 where
  pub id : String
  pub title : String
  pub text : String
  pub tags : List String

pub data MemorySource : Type 0 where
  voyage local : MemorySource

pub record MemoryGuidance (F : Type 0) : Type 0 where
  pub id : String
  pub title : String
  pub summary : String
  pub reason : String
  pub source : MemorySource
  pub score : F
  pub tags : List String

pub data MemoryStatus : Type 0 where
  unconfigured ok empty fallback failed : MemoryStatus

pub record MemoryResponse (F : Type 0) : Type 0 where
  pub configured : Bool
  pub run_id : String
  pub status : MemoryStatus
  pub mutation_authority : Bool
  pub guidance : List (MemoryGuidance F)
  -- the two models, of the embedding and of the ranking
  pub models : String × String
  pub query : Option String
  pub namespace : Option String
  pub retrieved_at : Option String
  pub message : Option String

-- `VoyageClientProtocol`
pub record VoyageClientProtocol (F : Type 0) : Type 0 where
  pub embed : List String → (model input_type : String) → Result (List (List F))
  pub rerank : String → List String → (model : String) → (top_k : ℤ) → Result (List (ℤ × F))

module _ {ℓ} {A : Type ℓ} where
  -- `xs[:n]`
  unfoldable pub first_items : ℕ → List A → List A
  first_items zero xs = []
  first_items (suc n) [] = []
  first_items (suc n) (x ∷ xs) = x ∷ first_items n xs

  -- `xs[:k]` for any int: a negative one leaves out that many at the end
  unfoldable pub slice_to : ℤ → List A → List A
  slice_to (pos n) xs = first_items n xs
  slice_to (negsuc n) xs = first_items (length xs - suc n) xs

  -- `xs[i]` for an index that is not negative
  unfoldable pub item_at : ℕ → List A → Option A
  item_at n [] = none
  item_at zero (x ∷ xs) = some x
  item_at (suc n) (x ∷ xs) = item_at n xs

  -- `list(enumerate(xs))`, from an index on
  unfoldable pub enumerate_from : ℕ → List A → List (ℕ × A)
  enumerate_from n [] = []
  enumerate_from n (x ∷ xs) = (n, x) ∷ enumerate_from (suc n) xs

-- `sorted(xs, key=..., reverse=True)`: elements with equal keys keep their order
module _ {ℓ κ} {A : Type ℓ} {K : Type κ} (less : K → K → Bool) (key : A → K) where
  unfoldable pub insert_descending : A → List A → List A
  insert_descending a [] = a ∷ []
  insert_descending a (b ∷ bs) =
      let later = insert_descending a bs in if less (key a) (key b) then b ∷ later else a ∷ b ∷ bs

  unfoldable pub sorted_descending : List A → List A
  sorted_descending [] = []
  sorted_descending (a ∷ rest) = insert_descending a (sorted_descending rest)

-- `_reason`
unfoldable pub reason : MemoryDocument → EvidencePack → String
reason doc pack =
    if has_blocking_sort pack.before.metrics && (elem "SORT" doc.tags || elem "sort" doc.tags)
    then "This run has a blocking SORT in the before explain plan."
    else if ltb (max (pack.before.metrics.docs_returned * 100) 1000)
        pack.before.metrics.docs_examined
    then "This run has a high docs-examined to returned-docs ratio."
    else if elem "approval" doc.tags
    then "This run is governed by a hash-bound approval gate."
    else "This guidance matches the selected run's evidence and recommendation context."

-- `build_memory_query`; `dumps` is `json.dumps` with and without sorted keys
unfoldable pub build_memory_query :
    Externals → (dumps : (sort_keys : Bool) → Value → String) → EvidencePack → String
build_memory_query x dumps pack =
    let metrics = pack.before.metrics in
    join "\n" (
      concat ("namespace: " ∷ pack.namespace ∷ [])
      ∷ concat ("status: " ∷ status_value pack.status ∷ [])
      ∷ concat ("finding: " ∷ pack.finding.problem ∷ [])
      ∷ concat ("severity: " ∷ severity_value pack.finding.severity ∷ [])
      ∷ concat ("query: " ∷ dumps true (thaw pack.before.query) ∷ [])
      ∷ concat (
          "metrics: docs_examined="
          ∷ int_text (pos metrics.docs_examined)
          ∷ " docs_returned="
          ∷ int_text (pos metrics.docs_returned)
          ∷ " keys_examined="
          ∷ int_text (pos metrics.total_keys_examined)
          ∷ " millis="
          ∷ x.float_repr metrics.millis
          ∷ " stages="
          ∷ join "," metrics.stages
          ∷ [])
      ∷ concat ("recommendation: " ∷ dumps false (spec_array pack.recommendation.index_spec) ∷ [])
      ∷ concat ("rationale: " ∷ pack.recommendation.rationale ∷ [])
      ∷ concat (
          "trace: "
          ∷ join " | " (map (λ event. event.summary) (first_items 4 pack.agent_trace))
          ∷ [])
      ∷ [])

-- the words of `a` that are in `b`, each once
unfoldable pub common_words : List String → List String → ℕ
common_words [] b = 0
common_words (word ∷ a) b =
    let rest = common_words a b in if elem word b && not (elem word a) then suc rest else rest

module _ (x : Externals) (dumps : Bool → Value → String) (lower : String → String)
    (replace_underscores : String → String) (split : String → List String) where
  abbrev local_score : EvidencePack → MemoryDocument → ℕ
  local_score pack doc =
      common_words (split (lower doc.text))
        (split (replace_underscores (lower (build_memory_query x dumps pack))))
      + (if has_blocking_sort pack.before.metrics && elem "SORT" doc.tags then 4 else 0)

  unfoldable pub local_docs : EvidencePack → List MemoryDocument → List MemoryDocument
  local_docs pack docs = first_items 3 (sorted_descending ltb (local_score pack) docs)

module _ {F : Type 0} (fl : Floats F) where
  unfoldable pub guidance :
      MemoryDocument → EvidencePack → (score : F) → MemorySource → MemoryGuidance F
  guidance doc pack score source = record {
    id = doc.id;
    title = doc.title;
    summary = doc.text;
    reason = reason doc pack;
    source = source;
    score = if fl.less fl.zero_f score then score else fl.zero_f;
    tags = doc.tags;
  }

  -- `sum(...)`
  abbrev sum_from : F → List F → F
  sum_from acc [] = acc
  sum_from acc (v ∷ vs) = sum_from (fl.add acc v) vs

  abbrev products : List F → List F → List F
  products (v ∷ vs) (w ∷ ws) = fl.mul v w ∷ products vs ws
  products _ _ = []

  abbrev magnitude : List F → F
  magnitude a = fl.sqrt (sum_from fl.zero_f (products a a))

  unfoldable pub cosine : List F → List F → F
  cosine a b =
      if is_nil a || (is_nil b || not (nat_eq (length a) (length b)))
      then fl.zero_f
      else if fl.is_zero (magnitude a) || fl.is_zero (magnitude b)
      then fl.zero_f
      else fl.div (sum_from fl.zero_f (products a b)) (fl.mul (magnitude a) (magnitude b))
