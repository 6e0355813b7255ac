-- ===== src/Orchestrator/Pending.antt =====
-- The pack that `run_diagnosis` and `run_agent_diagnosis` of controller/orchestrator.py build: it
-- waits for its approval.
use googlecloudhack.Prelude.{
  String, ◌≡◌, refl, inl, inr, ◌∙◌, ◌⊎◌, true, false, Option, none, some, [], ◌∷◌, ok, err,
  validation_error, arith, is_empty,
}
use googlecloudhack.Externals.{Externals}
use googlecloudhack.Value.{end}
use googlecloudhack.Phases
use googlecloudhack.Schemas.{
  PackStatus, ApprovalGateState, Evidence, Diagnosis, ApprovalGate, EvidencePack, has_blocking_sort,
}
use googlecloudhack.Schemas.Validators.{is_run_id, validate_pack}
use googlecloudhack.Schemas.Validity.{IsValid, validate_pack_iff}
use googlecloudhack.Diagnosis.{diagnose}
use googlecloudhack.Diagnosis.Esr.{IsEsr, diagnose-IsEsr}
use googlecloudhack.Pack.{pack_evidence_hash, build_pack}
use googlecloudhack.Backends.{Backend}
use googlecloudhack.LedgerStore.{Ledger, write_gate_opened_record, write_diagnosis_records}
use googlecloudhack.LedgerStore.Writes.{write_gate_opened_record_ok, write_diagnosis_records_ok}
use googlecloudhack.Orchestrator.Gate.{gate_ledger_ref}
use googlecloudhack.Orchestrator.Trace.{
  DiagnosisAdvice, AgentDiagnosisResult, agent_phase_note, diagnosis_trace,
}
use googlecloudhack.Orchestrator.Actions.{
  Query, Advisor, Agent, State, maybe_narrate, hint_of, advise, advice_result, created_or_now,
  diagnosed_pack, result_narrative, result_source, record_diagnosis, run_diagnosis,
  run_agent_diagnosis,
}
use googlecloudhack.Orchestrator.Verdict.{
  gate_record, approval_gate_total, hash_ok, pack_evidence_hash-eq-expected_hash,
  pack_evidence_hash-is_hash,
}

-- A pack that waits: diagnosed and undecided, with a closed gate that asks for the pack's own hash,
-- which is that of the evidence and the recommendation.
pub record IsPending (x : Externals) (p : EvidencePack) : Type 0 where
  pub valid : IsValid x p
  pub diagnosed : p.status ≡ PackStatus.diagnosed
  pub gate : ApprovalGate
  pub has_gate : p.approval_gate ≡ some gate
  pub pending : gate.state ≡ ApprovalGateState.pending_approval
  pub required : gate.required_hash ≡ some (pack_evidence_hash x p.before p.recommendation)
  pub closed : gate.mutation_allowed ≡ false

module _ (x : Externals) (run_id namespace created_at : String) (query : Query) (before : Evidence)
    (result : Option AgentDiagnosisResult) (current_index : Option String) (d : Diagnosis) where
  abbrev pub bound_hash : String
  bound_hash = pack_evidence_hash x before d.recommendation

  abbrev pub pending_gate : ApprovalGate
  pending_gate =
      gate_record run_id ApprovalGateState.pending_approval (some bound_hash) none none
        (gate_ledger_ref run_id "pending")

  -- the pack of a diagnosis
  abbrev pub fresh_pack : EvidencePack
  fresh_pack = record {
    run_id = run_id;
    namespace = namespace;
    status = PackStatus.diagnosed;
    before = before;
    after = none;
    finding = d.finding;
    recommendation = d.recommendation;
    decision = none;
    phase_log =
        record {
          from_phase = none;
          to_phase = Phases.diagnose;
          note = agent_phase_note x (result_source result) d.recommendation.index_spec;
        }
        ∷ [];
    agent_trace = diagnosis_trace run_id result d.recommendation.index_spec bound_hash;
    approval_gate = some pending_gate;
    evidence_hash = bound_hash;
    created_at = created_at;
    narrative = result_narrative result;
  }

  pub diagnosed_pack_lem :
      diagnose x query.filter query.sort (has_blocking_sort before.metrics) current_index ≡ ok d
      → diagnosed_pack x run_id namespace created_at query before result current_index
        ≡ validate_pack x fresh_pack
  unfolding diagnosed_pack build_pack
  diagnosed_pack_lem e = simp (
    e,
    approval_gate_total run_id ApprovalGateState.pending_approval (some bound_hash) none none
        (gate_ledger_ref run_id "pending")
        (hash_ok bound_hash (pack_evidence_hash-is_hash x before d.recommendation)) refl,
  )

  pub fresh_pack-IsValid :
      is_run_id run_id ≡ true
      → is_empty namespace ≡ false
      → is_empty created_at ≡ false
      → IsValid x fresh_pack
  fresh_pack-IsValid r n c = record {
    run_id = r;
    namespace = n;
    created_at = c;
    hash_format = pack_evidence_hash-is_hash x before d.recommendation;
    hash_binds = pack_evidence_hash-eq-expected_hash x before d.recommendation;
    decision_binds = λ e h. cc;
    decided = (refl, refl);
    gate_closed = λ g e. ground arith;
    gate_required = λ g h e f. ground arith;
    gate_approved = λ g h e f. ground arith;
    gate_fits = λ g e. (ground arith, ground arith, ground arith);
  }

  pub fresh_pack-IsPending : IsValid x fresh_pack → IsPending x fresh_pack
  fresh_pack-IsPending v = record {
    valid = v;
    diagnosed = refl;
    gate = pending_gate;
    has_gate = refl;
    pending = refl;
    required = refl;
    closed = refl;
  }

module _ (x : Externals) (run_id namespace created_at : String) (query : Query) (before : Evidence)
    (result : Option AgentDiagnosisResult) (current_index : Option String) where
  -- For a run with a proper id, a diagnosis is refused exactly when the query has neither a filter
  -- nor a sort; else its pack waits, on this evidence, with an index for this query.
  pub diagnosed_pack_cases :
      is_run_id run_id ≡ true
      → is_empty namespace ≡ false
      → is_empty created_at ≡ false
      → ((query.filter ≡ end)
          × (query.sort ≡ [])
          × (diagnosed_pack x run_id namespace created_at query before result current_index
              ≡ err (validation_error "index_spec")))
        ⊎ ((q : EvidencePack) × (diagnosed_pack x run_id namespace created_at query before result
                current_index
              ≡ ok q)
            × IsPending x q
            × (q.run_id ≡ run_id)
            × (q.before ≡ before)
            × IsEsr query.filter query.sort q.recommendation.index_spec)
  diagnosed_pack_cases r n c =
      elim (diagnose-IsEsr x query.filter query.sort (has_blocking_sort before.metrics)
        current_index) [
          | inl (f, s, e) ↦ inl (f, s, unfold diagnosed_pack in simp e)
          | inr (d, e, esr, severity) ↦
              let v =
                fresh_pack-IsValid x run_id namespace created_at query before result current_index d
                  r n c in
              inr (
                fresh_pack x run_id namespace created_at query before result current_index d,
                diagnosed_pack_lem x run_id namespace created_at query before result current_index d
                      e
                    ∙ (validate_pack_iff x _).1 v,
                fresh_pack-IsPending x run_id namespace created_at query before result current_index
                    d v,
                refl,
                refl,
                esr,
              )
        ]

-- A diagnosis by the controller succeeds, without a narrator, when its explain and its advisor do,
-- for a run with a proper id, namespace and time and a query with a filter or a sort: its pack waits for the approval, on
-- the evidence of the explain, with an index in the order Equality, Sort, Range.
pub run_diagnosis-IsPending :
    (x : Externals) {W : Type 0} (backend : Backend W) (run_id namespace : String) (query : Query)
    (created_at : Option String) (now : String) (advisor : Option Advisor)
    (current_index : Option String) (s : State W) (before : Evidence) (d' : W)
    (advice : Option DiagnosisAdvice)
    → is_run_id run_id ≡ true
    → is_empty namespace ≡ false
    → is_empty (created_or_now created_at now) ≡ false
    → ¬ ((query.filter ≡ end) × (query.sort ≡ []))
    → backend.explain query.filter query.sort query.limit (hint_of current_index) s.database
      ≡ (ok before, d')
    → advise advisor run_id namespace query before ≡ ok advice
    → (q : EvidencePack) × (l : Ledger) × (run_diagnosis x backend run_id namespace query created_at
          now none advisor current_index s
        ≡ (ok q, record { database = d'; ledger = l }))
      × IsPending x q
      × (q.run_id ≡ run_id)
      × (q.before ≡ before)
      × IsEsr query.filter query.sort q.recommendation.index_spec
unfolding run_diagnosis record_diagnosis maybe_narrate
run_diagnosis-IsPending x backend run_id namespace query created_at now advisor current_index s
      before d' advice r n c some_key explained advised =
    let created = created_or_now created_at now in
    let opened = (write_gate_opened_record run_id namespace created s.ledger).1 in
    elim (diagnosed_pack_cases x run_id namespace created query before (advice_result before advice)
      current_index r n c) [
        | inl (f, k, e) ↦ absurd (some_key (f, k))
        | inr (q, built, pending, same_run, same_before, esr) ↦ (
          q,
          (write_diagnosis_records x q query.filter query.sort query.limit current_index
              "deterministic_esr" opened).1,
          simp (
            write_gate_opened_record_ok run_id namespace created s.ledger,
            explained,
            advised,
            built,
            write_diagnosis_records_ok x q query.filter query.sort query.limit current_index
                "deterministic_esr" opened,
          ),
          pending,
          same_run,
          same_before,
          esr,
        )
      ]

-- A diagnosis by an agent succeeds, without a narrator, when the agent answers, for a run with a
-- proper id, namespace and time and a query with a filter or a sort: its pack waits for the
-- approval, on the evidence that the agent returns, with an index in the order Equality, Sort,
-- Range. The database is as the agent left it.
pub run_agent_diagnosis-IsPending :
    (x : Externals) {W : Type 0} (agent : Agent W) (run_id namespace : String) (query : Query)
    (created_at : Option String) (now : String) (current_index : Option String) (s : State W)
    (result : AgentDiagnosisResult) (d' : W)
    → is_run_id run_id ≡ true
    → is_empty namespace ≡ false
    → is_empty (created_or_now created_at now) ≡ false
    → ¬ ((query.filter ≡ end) × (query.sort ≡ []))
    → agent run_id namespace query s.database ≡ (ok result, d')
    → (q : EvidencePack) × (l : Ledger) × (run_agent_diagnosis x agent run_id namespace query
          created_at now none current_index s
        ≡ (ok q, record { database = d'; ledger = l }))
      × IsPending x q
      × (q.run_id ≡ run_id)
      × (q.before ≡ result.before)
      × IsEsr query.filter query.sort q.recommendation.index_spec
unfolding run_agent_diagnosis record_diagnosis maybe_narrate
run_agent_diagnosis-IsPending x agent run_id namespace query created_at now current_index s result
      d' r n c some_key answered =
    let created = created_or_now created_at now in
    let opened = (write_gate_opened_record run_id namespace created s.ledger).1 in
    elim (diagnosed_pack_cases x run_id namespace created query result.before (some result)
      current_index r n c) [
        | inl (f, k, e) ↦ absurd (some_key (f, k))
        | inr (q, built, pending, same_run, same_before, esr) ↦ (
          q,
          (write_diagnosis_records x q query.filter query.sort query.limit current_index
              "agent_engine_tool" opened).1,
          simp (
            write_gate_opened_record_ok run_id namespace created s.ledger,
            answered,
            built,
            write_diagnosis_records_ok x q query.filter query.sort query.limit current_index
                "agent_engine_tool" opened,
          ),
          pending,
          same_run,
          same_before,
          esr,
        )
      ]
