-- ===== src/Api/Runs.antt =====
-- The route `trigger_run` of api/routes.py. The workload service is its `get_captured`; `fresh` is the
-- id that is made for a run without one.
use mathlib.Core.Path.{subst}
use googlecloudhack.Prelude.{
  String, ◌≡◌, ℤ, sym, ◌∙◌, Bool-cases, refl, ◌⊎◌, inl, inr, Bool, true, false, ◌&&◌, Option, none,
  some, List, [], ◌∷◌, is_nil, if◌then◌else◌, concat, Error, Result, ok, err, raised, type_error,
  http_exception, workload_spec_error, Result-cases, ◌>>=◌ as bind,
}
use googlecloudhack.Prelude.Exec.{Exec, lift, ◌>>=◌}
use googlecloudhack.Externals.{Externals}
use googlecloudhack.Value.{Value, dict, Fields, end, field, get}
use googlecloudhack.Schemas.{EvidencePack}
use googlecloudhack.LedgerStore.Dicts.{insert}
use googlecloudhack.Orchestrator.Actions.{Query}
use googlecloudhack.Workload.{assert_safe_query}
use googlecloudhack.Workload.Safety.{IsSafe, IsSafeSort, assert_safe_query_iff}
use googlecloudhack.Api.{Engine, Service, on_engine, non_empty}
use googlecloudhack.Orchestrator.Checks.{int_of}
use googlecloudhack.Api.Live.{dict_of, sort_of}

pub record RunRequest : Type 0 where
  pub run_id : Option String
  pub captured_query_id : Option String

-- `run_id or fresh`
abbrev pub run_id_or : Option String → String → String
run_id_or none fresh = fresh
run_id_or (some s) fresh = if non_empty (some s) then s else fresh

-- `v[k]`
abbrev pub item : String → Value → Result Value
item k (dict fs) = elim (get k fs) [ none ↦ err (raised k) | some v ↦ ok v ]
item k _ = err (type_error "indices must be integers")

abbrev pub is_end : Fields → Bool
is_end end = true
is_end (field k v fs) = false

-- `store.save_pack(pack)`, and the pack
abbrev pub store_pack : {E : Type 0} → EvidencePack → Exec (Service E) EvidencePack
store_pack p s = (ok p, record s { packs = insert p.run_id p s.packs })

module _ (x : Externals) where
  unfoldable pub query_input : (spec : Value) → Result Query
  query_input spec = bind (bind (item "filter" spec) dict_of) λ query_filter.
      bind (bind (item "sort" spec) (sort_of x)) λ query_sort.
        bind (bind (item "limit" spec) (int_of x))
          λ limit. ok (record { filter = query_filter; sort = query_sort; limit = limit })

  -- after `assert_safe_query`
  abbrev pub when_safe : Result (Unit {0}) → Query → Result Query
  when_safe (err (workload_spec_error m)) q = err (http_exception 422 m)
  when_safe (err exc) q = err exc
  when_safe (ok u) q =
      if is_end q.filter && is_nil q.sort
      then err
          (http_exception 422 "captured query has no filter or sort to index; nothing to diagnose")
      else ok q

  unfoldable pub checked : Query → Result Query
  checked q = when_safe (assert_safe_query x q.filter q.sort) q

  abbrev pub of_captured : (captured_id : String) → Option Value → Result Query
  of_captured captured_id none =
      err (http_exception 404 (concat ("captured query '" ∷ captured_id ∷ "' not found" ∷ [])))
  of_captured captured_id (some captured) =
      bind (item "query" captured) λ spec. bind (query_input spec) checked

  -- `workload` is none where no service is configured
  unfoldable pub captured_query :
      (workload : Option (String → Option Value)) → (captured_id : String) → Result Query
  captured_query none captured_id = err (http_exception 503 "workload service not configured")
  captured_query (some get_captured) captured_id =
      of_captured captured_id (get_captured captured_id)

  abbrev pub requested :
      Option (String → Option Value) → (captured_query_id : Option String) → Result (Option Query)
  requested workload none = ok none
  requested workload (some captured_id) =
      bind (captured_query workload captured_id) λ q. ok (some q)

  module _ {E : Type 0} (engine : Engine E) (workload : Option (String → Option Value)) where
    unfoldable pub trigger_run : (fresh : String) → RunRequest → Exec (Service E) EvidencePack
    trigger_run fresh body = do
      query ← lift (requested workload body.captured_query_id)
      p ← on_engine (engine.diagnose (run_id_or body.run_id fresh) query)
      store_pack p

-- what a captured query has to be: safe, and with something to index
pub record IsDiagnosable (q : Query) : Type 0 where
  pub safe : IsSafe q.filter
  pub safe_sort : IsSafeSort q.sort
  pub some_key : ¬ ((q.filter ≡ end) × (q.sort ≡ []))

has_key_of :
    (fs : Fields) (s : List (String × ℤ))
    → (is_end fs && is_nil s) ≡ false
    → ¬ ((fs ≡ end) × (s ≡ []))
has_key_of end [] h e = cc h
has_key_of end (k ∷ ks) h (e, f) = cc f
has_key_of (field k v fs) s h (e, f) = cc e

when_safe-IsDiagnosable :
    (x : Externals) (r : Result (Unit {0})) (q p : Query)
    → assert_safe_query x q.filter q.sort ≡ r
    → when_safe x r q ≡ ok p
    → (q ≡ p) × IsDiagnosable q
when_safe-IsDiagnosable x (ok u) q p e h = elim (Bool-cases (is_end q.filter && is_nil q.sort)) [
  | inl k ↦
      let refused : when_safe x (ok u) q
          ≡ err (
              http_exception 422
                "captured query has no filter or sort to index; nothing to diagnose") =
        rw k refl in
      cc (sym refused ∙ h)
  | inr k ↦
      let accepted : when_safe x (ok u) q ≡ ok q = rw k refl in
      let (safe, safe_sort) = (assert_safe_query_iff x q.filter q.sort).0 e in
      (
        cc (sym accepted ∙ h),
        record { safe = safe; safe_sort = safe_sort; some_key = has_key_of q.filter q.sort k },
      )
]
when_safe-IsDiagnosable x (err (workload_spec_error m)) q p e h = cc h
when_safe-IsDiagnosable x (err _) q p e h = cc h

from_input :
    (x : Externals) (r : Result Query) (q : Query) → bind r (checked x) ≡ ok q → IsDiagnosable q
unfolding checked
from_input x (err exc) q h = cc h
from_input x (ok p) q h =
    let (same, d) = when_safe-IsDiagnosable x (assert_safe_query x p.filter p.sort) p q refl h in
    subst IsDiagnosable same d

from_stored :
    (x : Externals) (r : Result Value) (q : Query)
    → bind r (λ spec. bind (query_input x spec) (checked x)) ≡ ok q
    → IsDiagnosable q
from_stored x (err exc) q h = cc h
from_stored x (ok spec) q h = from_input x (query_input x spec) q h

of_captured-IsDiagnosable :
    (x : Externals) (captured_id : String) (o : Option Value) (q : Query)
    → of_captured x captured_id o ≡ ok q
    → IsDiagnosable q
of_captured-IsDiagnosable x captured_id none q h = cc h
of_captured-IsDiagnosable x captured_id (some v) q h = from_stored x (item "query" v) q h

-- the query that a captured id leads to
captured_query-IsDiagnosable :
    (x : Externals) (workload : Option (String → Option Value)) (captured_id : String) (q : Query)
    → captured_query x workload captured_id ≡ ok q
    → IsDiagnosable q
unfolding captured_query
captured_query-IsDiagnosable x none captured_id q h = cc h
captured_query-IsDiagnosable x (some get_captured) captured_id q h =
    of_captured-IsDiagnosable x captured_id (get_captured captured_id) q h

-- A run of a captured query either raises, and leaves the store and the engine as they were, or asks the
-- engine for a diagnosis of a query that is safe and has a filter or a sort, and stores the pack.
pub trigger_run-IsDiagnosable :
    (x : Externals) {E : Type 0} (engine : Engine E) (workload : Option (String → Option Value))
    (fresh : String) (run_id : Option String) (captured_id : String) (s : Service E)
    → let body : RunRequest = record { run_id = run_id; captured_query_id = some captured_id } in
      ((e : Error) × (trigger_run x engine workload fresh body s ≡ (err e, s)))
      ⊎ ((q : Query) × IsDiagnosable q
          × (trigger_run x engine workload fresh body s
              ≡ (on_engine (engine.diagnose (run_id_or run_id fresh) (some q)) >>= store_pack) s))
unfolding trigger_run
trigger_run-IsDiagnosable x engine workload fresh run_id captured_id s =
    elim (Result-cases (captured_query x workload captured_id)) [
      | inl (q, e) ↦ inr (q, captured_query-IsDiagnosable x workload captured_id q e, rw e refl)
      | inr (exc, e) ↦ inl (exc, rw e refl)
    ]
