-- ===== src/Api/Live.antt =====
-- `_LiveEngine` of api/server.py: the orchestrator over one database and one ledger. The diagnosis agent
-- is outside the repository or none.
use googlecloudhack.Prelude.{
  ℤ, pos, negsuc, String, Bool, true, Option, none, some, List, [], ◌∷◌, concat, Result, ok, err,
  raised, type_error, agent_diagnosis_parse_error, ◌>>=◌ as bind,
}
use googlecloudhack.Prelude.Exec.{Exec, lift, ◌>>=◌}
use googlecloudhack.Externals.{Externals}
use googlecloudhack.Value.{
  Value, int, str, list, tuple, dict, Items, nil, cons, Fields, end, of_items, get_or,
}
use googlecloudhack.Schemas.{
  AgentTraceStage, AgentTraceActor, AgentTraceStatus, EvidencePack, has_blocking_sort,
}
use googlecloudhack.Schemas.Dump.{thaw}
use googlecloudhack.Backends.{Backend}
use googlecloudhack.Json.{int_text}
use googlecloudhack.PyText.{bool_text}
use googlecloudhack.Orchestrator.Checks.{int_of}
use googlecloudhack.Orchestrator.Gate.{ApprovalTicket}
use googlecloudhack.Orchestrator.Actions.{
  Query, Advisor, Agent, State, run_diagnosis, run_agent_diagnosis,
}
use googlecloudhack.Orchestrator.Decide.{apply_and_verify, reject_pack}
use googlecloudhack.Api.{Engine}

-- the query of controller/demo_fixture.py
abbrev pub demo_query : Query
demo_query = record {
  filter = of_items (
      ("storeLocation", str "Denver")
      ∷ ("customer.age", dict (of_items (("$gte", int (pos 30)) ∷ ("$lte", int (pos 50)) ∷ [])))
      ∷ []);
  sort = ("saleDate", negsuc 0) ∷ [];
  limit = pos 20;
}

-- `_AgentFailureAdvisor`, after an AgentDiagnosisParseError
unfoldable pub failure_advisor : (source : String) → Advisor
failure_advisor source run_id namespace query before = ok (record {
  source = source;
  narrative = concat (
      "Agent Engine diagnosis failed validation; deterministic controller used live explain evidence with "
      ∷ int_text (pos before.metrics.total_keys_examined)
      ∷ " keys and blocking_sort="
      ∷ bool_text (has_blocking_sort before.metrics)
      ∷ "."
      ∷ []);
  proposed_index = [];
  trace =
      record {
        stage = AgentTraceStage.diagnose;
        actor = AgentTraceActor.agent_engine;
        status = AgentTraceStatus.failed;
        summary =
            "Agent Engine diagnosis output failed validation (AgentDiagnosisParseError); deterministic fallback used.";
        component = none;
        resource = none;
        tool = some "agent_engine_diagnose";
        ledger_ref = none;
      }
      ∷ [];
})

-- `dict(v)` of a mapping or of an empty sequence
abbrev pub dict_of : Value → Result Fields
dict_of (dict fs) = ok fs
dict_of (list nil) = ok end
dict_of (tuple nil) = ok end
dict_of _ = err (type_error "cannot convert to a dict")

module _ (x : Externals) where
  -- `(field, int(direction))` of a pair
  abbrev sort_key : Items → Result (String × ℤ)
  sort_key (cons (str f) (cons d nil)) = bind (int_of x d) λ n. ok (f, n)
  sort_key _ = err (type_error "not a pair of a field and a direction")

  abbrev sort_keys : Items → Result (List (String × ℤ))
  sort_keys nil = ok []
  sort_keys (cons (list vs) rest) =
      bind (sort_key vs) λ key. bind (sort_keys rest) λ keys. ok (key ∷ keys)
  sort_keys (cons (tuple vs) rest) =
      bind (sort_key vs) λ key. bind (sort_keys rest) λ keys. ok (key ∷ keys)
  sort_keys (cons _ rest) = err (type_error "not a pair of a field and a direction")

  abbrev pub sort_of : Value → Result (List (String × ℤ))
  sort_of (list vs) = sort_keys vs
  sort_of (tuple vs) = sort_keys vs
  sort_of _ = err (type_error "not iterable")

  -- the query that the pack was diagnosed with
  unfoldable pub query_of : Value → Result Query
  query_of (dict spec) = bind (dict_of (get_or "filter" (dict end) spec)) λ query_filter.
      bind (sort_of (get_or "sort" (list nil) spec)) λ query_sort.
        bind (int_of x (get_or "limit" (int (pos 20)) spec))
          λ limit. ok (record { filter = query_filter; sort = query_sort; limit = limit })
  query_of _ = err (raised "'query' has no attribute 'get'")

  module _ {W : Type 0} (backend : Backend W) (agent : Option (String × Agent W))
      (allow_agent_fallback : Bool) (now : String) where
    abbrev pub with_controller :
        (run_id : String) → Query → Option String → Option Advisor → Exec (State W) EvidencePack
    with_controller run_id query current_index advisor =
        run_diagnosis x backend run_id "sample_supplies.sales_agent_demo" query none now none
          advisor current_index

    -- `except AgentDiagnosisParseError`
    abbrev pub or_fallback :
        (source run_id : String)
        → Query
        → Option String
        → Bool
        → Result EvidencePack
        → Exec (State W) EvidencePack
    or_fallback source run_id query current_index true (err (agent_diagnosis_parse_error m)) =
        with_controller run_id query current_index (some (failure_advisor source))
    or_fallback source run_id query current_index _ r = lift r

    abbrev pub with_agent :
        Option (String × Agent W)
        → (run_id : String) → Query
        → Option String
        → Exec (State W) EvidencePack
    with_agent none run_id query current_index s = with_controller run_id query current_index none s
    with_agent (some (source, ask)) run_id query current_index s =
        let (r, t) =
          run_agent_diagnosis x ask run_id "sample_supplies.sales_agent_demo" query none now none
            current_index s in
        or_fallback source run_id query current_index allow_agent_fallback r t

    -- a captured query has no hint, that of the demonstration has
    unfoldable pub live_diagnose : (run_id : String) → Option Query → Exec (State W) EvidencePack
    live_diagnose run_id none = with_agent agent run_id demo_query (some "esr_wrong_B")
    live_diagnose run_id (some query) = with_agent agent run_id query none

    unfoldable pub live_apply_and_verify :
        EvidencePack → ApprovalTicket → Exec (State W) EvidencePack
    live_apply_and_verify p ticket = do
      query ← lift (query_of (thaw p.before.query))
      apply_and_verify x backend p ticket query none

    abbrev pub live_engine : Engine (State W)
    live_engine = record {
      diagnose = live_diagnose;
      apply_and_verify = live_apply_and_verify;
      reject = λ p approver note. reject_pack x p approver note;
    }
