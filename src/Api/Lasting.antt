-- ===== src/Api/Lasting.antt =====
-- What holds of the decisions of api/routes.py in every order of its requests.
use mathlib.Core.Path.{subst}
use googlecloudhack.Prelude.{
  String, ◌==◌, eq_iff, ◌≡◌, refl, ap, inl, inr, true, Option, none, some, is_some, List, [], ◌∷◌,
  ◌++◌, All, Error, Result, ok, err, Result-cases, Bool-cases, is_value_error,
}
use googlecloudhack.Externals.{Externals}
use googlecloudhack.Value.{Value}
use googlecloudhack.Api.Runs.{RunRequest, requested, run_id_or, trigger_run}
use googlecloudhack.Schemas.{EvidencePack}
use googlecloudhack.LedgerStore.Dicts.{lookup, lookup-insert}
use googlecloudhack.Orchestrator.Gate.{ApprovalTicket, issue_approval_ticket}
use googlecloudhack.Orchestrator.Approval.{Approves, issue_approval_ticket-Approves}
use googlecloudhack.Api.{
  Choice, Identity, Engine, DecisionRequest, Response, Service, refusal, authoritative, save,
  refuse, rejecting,
}
use googlecloudhack.Api.Refused.{refusal-IsOpen}
use googlecloudhack.Api.Once.{IsDeciding}
use googlecloudhack.Api.Concurrent.{
  Waiting, Started, Server, Step, Steps, IsRun, HasRun, start_ticket, start_accepted, start_unless,
  start_stored, start, finish,
}

-- the store has a decided pack for the run
pub record IsDecided {E : Type 0} (run_id : String) (s : Service E) : Type 0 where
  pub pack : EvidencePack
  pub stored : lookup run_id s.packs ≡ some pack
  pub decided : is_some pack.decision ≡ true

-- every run that is decided stays decided
abbrev Keeps : {E : Type 0} → Service E → Service E → Type 0
Keeps s s' = (run_id : String) → IsDecided run_id s → IsDecided run_id s'

-- A request that waits has read an undecided pack, and has a ticket that approves it.
pub record IsProper (w : Waiting) : Type 0 where
  pub undecided : w.pack.decision ≡ none
  pub approved : Approves w.pack w.ticket

abbrev IsGood : {E : Type 0} → Service E → Started E → Type 0
IsGood s (Started.answered r s') = Keeps s s'
IsGood s (Started.waiting w) = IsProper w

module _ {E : Type 0} (engine : Engine E) (engine_decides : IsDeciding engine) where
  save-Keeps : (q : EvidencePack) (s : Service E) → is_some q.decision ≡ true → Keeps s (save q s).1
  save-Keeps q s decided run_id before = elim (Bool-cases (q.run_id == run_id)) [
    | inl same ↦ record {
      pack = q;
      stored = rw (lookup-insert q.run_id run_id q s.packs, same) refl;
      decided = decided;
    }
    | inr other ↦ record {
      pack = before.pack;
      stored = rw (lookup-insert q.run_id run_id q s.packs, other) before.stored;
      decided = before.decided;
    }
  ]

  refuse-Keeps : (exc : Error) (s : Service E) → Keeps s (refuse exc s).1
  refuse-Keeps exc s run_id before = elim (Bool-cases (is_value_error exc)) [
    | inl e ↦ rw e before
    | inr e ↦ rw e before
  ]

  -- another state of the engine
  engine-Keeps : (s : Service E) (e : E) → Keeps s (record s { engine = e })
  engine-Keeps s e run_id before = record {
    pack = before.pack;
    stored = before.stored;
    decided = before.decided;
  }

  rejecting-Keeps :
      (p : EvidencePack) (note approver : String) (s : Service E)
      → Keeps s (rejecting engine p note approver s).1
  rejecting-Keeps p note approver s run_id before =
      let e' = (engine.reject p approver note s.engine).1 in
      let after = engine-Keeps s e' run_id before in
      elim (Result-cases (engine.reject p approver note s.engine).0) [
        | inl (q, h) ↦ rw h (
            save-Keeps q (record s { engine = e' })
              (engine_decides.rejected p approver note s.engine e' q (ap (λ r. (r, e')) h)).1 run_id
              after)
        | inr (exc, h) ↦ rw h (refuse-Keeps exc (record s { engine = e' }) run_id after)
      ]

  finish-Keeps : (w : Waiting) (s : Service E) → Keeps s (finish engine w s).1
  unfolding finish
  finish-Keeps w s run_id before =
      let e' = (engine.apply_and_verify w.pack w.ticket s.engine).1 in
      let after = engine-Keeps s e' run_id before in
      elim (Result-cases (engine.apply_and_verify w.pack w.ticket s.engine).0) [
        | inl (q, h) ↦ rw h (
            save-Keeps q (record s { engine = e' })
              (engine_decides.applied w.pack w.ticket s.engine e' q (ap (λ r. (r, e')) h)).1 run_id
              after)
        | inr (exc, h) ↦ rw h after
      ]

  start_ticket-IsGood :
      (p : EvidencePack) (hash approver note : String) (o : Result ApprovalTicket) (s : Service E)
      → p.decision ≡ none
      → issue_approval_ticket p hash approver note ≡ o
      → IsGood s (start_ticket engine p o s)
  start_ticket-IsGood p hash approver note (err exc) s undecided h = refuse-Keeps exc s
  start_ticket-IsGood p hash approver note (ok ticket) s undecided h = record {
    undecided = undecided;
    approved = (issue_approval_ticket-Approves p hash approver note ticket h).0;
  }

  start_accepted-IsGood :
      (choice : Choice) (p : EvidencePack) (body : DecisionRequest) (approver : String)
      (s : Service E)
      → p.decision ≡ none
      → IsGood s (start_accepted engine choice p body approver s)
  start_accepted-IsGood Choice.approve p body approver s undecided =
      start_ticket-IsGood p body.evidence_hash approver body.note
        (issue_approval_ticket p body.evidence_hash approver body.note) s undecided refl
  start_accepted-IsGood Choice.reject p body approver s undecided =
      rejecting-Keeps p body.note approver s

  start_unless-IsGood :
      (o : Option Response) (p : EvidencePack) (body : DecisionRequest) (approver : String)
      (s : Service E)
      → refusal p body ≡ o
      → IsGood s (start_unless engine o p body approver s)
  start_unless-IsGood (some r) p body approver s h = λ run_id before. before
  start_unless-IsGood none p body approver s h =
      start_accepted-IsGood body.decision p body approver s (refusal-IsOpen p body h).undecided

  start_stored-IsGood :
      (o : Option EvidencePack) (body : DecisionRequest) (identity : Option Identity)
      (s : Service E)
      → IsGood s (start_stored engine o body identity s)
  start_stored-IsGood none body identity s = λ run_id before. before
  start_stored-IsGood (some p) body identity s =
      start_unless-IsGood (refusal p body) p body (authoritative identity body.approver) s refl

  start-IsGood :
      (run_id : String) (body : DecisionRequest) (identity : Option Identity) (s : Service E)
      (started : Started E)
      → start engine run_id body identity s ≡ started
      → IsGood s started
  unfolding start
  start-IsGood run_id body identity s started h =
      subst (IsGood s) h (start_stored-IsGood (lookup run_id s.packs) body identity s)

  All-without :
      (before after : List Waiting) (w : Waiting)
      → All IsProper (before ++ (w ∷ after))
      → All IsProper (before ++ after)
  All-without [] after w h = h.1
  All-without (v ∷ before) after w h = (h.0, All-without before after w h.1)

module _ (x : Externals) {E : Type 0} (engine : Engine E)
    (workload : Option (String → Option Value)) where
  -- the store after a run keeps every decided pack but one of the id of the run's own pack
  trigger_run-Keeps :
      (fresh : String) (body : RunRequest) (s : Service E) (run_id : String)
      → ¬ (
          (p : EvidencePack) × ((trigger_run x engine workload fresh body s).0 ≡ ok p)
          × (p.run_id ≡ run_id))
      → IsDecided run_id s
      → IsDecided run_id (trigger_run x engine workload fresh body s).1
  unfolding trigger_run
  trigger_run-Keeps fresh body s run_id unrun before =
      elim (Result-cases (requested x workload body.captured_query_id)) [
        | inr (exc, h) ↦ rw h before
        | inl (query, h) ↦
            let asked = engine.diagnose (run_id_or body.run_id fresh) query s.engine in
            elim (Result-cases asked.0) [
              | inr (exc, k) ↦
                  rw (h, k)
                    (record {
                      pack = before.pack;
                      stored = before.stored;
                      decided = before.decided;
                    })
              | inl (p, k) ↦ elim (Bool-cases (p.run_id == run_id)) [
                | inl same ↦ absurd (unrun (p, rw (h, k) refl, (eq_iff p.run_id run_id).0 same))
                | inr other ↦
                    rw (h, k)
                      (record {
                        pack = before.pack;
                        stored = rw (lookup-insert p.run_id run_id p s.packs, other) before.stored;
                        decided = before.decided;
                      })
              ]
            ]
      ]

module _ (x : Externals) {E : Type 0} (engine : Engine E)
    (workload : Option (String → Option Value)) (engine_decides : IsDeciding engine) where
  Step-Keeps :
      {a b : Server E} (run_id : String) (step : Step x engine workload a b)
      → ¬ IsRun x engine workload run_id step
      → IsDecided run_id a.service
      → IsDecided run_id b.service
  Step-Keeps run_id (Step.answers asked body identity r s s' ws h) unrun d =
      start-IsGood engine engine_decides asked body identity s (Started.answered r s') h run_id d
  Step-Keeps run_id (Step.waits asked body identity w s ws h) unrun d = d
  Step-Keeps run_id (Step.goes_on w s before after) unrun d =
      finish-Keeps engine engine_decides w s run_id d
  Step-Keeps run_id (Step.runs fresh body s ws) unrun d =
      trigger_run-Keeps x engine workload fresh body s run_id unrun d

  Step-IsProper :
      {a b : Server E}
      → Step x engine workload a b
      → All IsProper a.waiting
      → All IsProper b.waiting
  Step-IsProper (Step.answers run_id body identity r s s' ws h) k = k
  Step-IsProper (Step.waits run_id body identity w s ws h) k =
      (start-IsGood engine engine_decides run_id body identity s (Started.waiting w) h, k)
  Step-IsProper (Step.goes_on w s before after) k =
      All-without engine engine_decides before after w k
  Step-IsProper (Step.runs fresh body s ws) k = k

-- In every order of the server's requests, for a decision and for a run, with an engine that gives back
-- the run's own pack, decided: a run that is decided stays decided, unless one of the requests is a
-- `POST /run` that is answered with a fresh pack of the same id; and each request that waits for the engine
-- holds a pack that was undecided when it was read, with a ticket that approves it.
pub Steps-lasting :
    (x : Externals) {E : Type 0} (engine : Engine E) (workload : Option (String → Option Value))
    (a b : Server E) (run_id : String)
    → IsDeciding engine
    → (steps : Steps x engine workload a b) → ¬ HasRun x engine workload run_id steps
    → All IsProper a.waiting
    → (IsDecided run_id a.service → IsDecided run_id b.service) × All IsProper b.waiting
Steps-lasting x engine workload a _ run_id decides Steps.done unrun h = (λ d. d, h)
Steps-lasting x engine workload a _ run_id decides (Steps.next steps step) unrun h =
    let (keeps, proper) =
      Steps-lasting x engine workload a _ run_id decides steps (λ k. unrun (inl k)) h in
    (
      λ d. Step-Keeps x engine workload decides run_id step (λ k. unrun (inr k)) (keeps d),
      Step-IsProper x engine workload decides step proper,
    )
