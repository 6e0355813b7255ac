-- ===== src/Api/Concurrent.antt =====
-- Requests of api/routes.py that overlap: `decide_pack` and `trigger_run`. The first runs to its
-- `await` of the engine's `apply_and_verify` without a pause; other requests run before it goes on.
-- A rejection does not wait. The engine's work is one step, and so is what follows it.
use googlecloudhack.Prelude.{◌⊎◌, String, ◌≡◌, Option, none, some, List, ◌∷◌, ◌++◌, Result, ok, err}
use googlecloudhack.Prelude.Exec.{Exec, ◌>>=◌}
use googlecloudhack.Externals.{Externals}
use googlecloudhack.Value.{Value}
use googlecloudhack.Api.Runs.{RunRequest, trigger_run}
use googlecloudhack.Schemas.{EvidencePack}
use googlecloudhack.LedgerStore.Dicts.{lookup}
use googlecloudhack.Orchestrator.Gate.{ApprovalTicket, issue_approval_ticket}
use googlecloudhack.Api.{
  Choice, Identity, Engine, DecisionRequest, Response, not_found, Service, refusal, authoritative,
  on_engine, save, refuse, rejecting,
}

-- a request that waits for the engine, with the pack that it has read
pub record Waiting : Type 0 where
  pub pack : EvidencePack
  pub ticket : ApprovalTicket

-- what a request has come to at its first pause: its answer, or the wait for the engine
pub data Started (E : Type 0) : Type 0 where
  answered : Result Response → Service E → Started E
  waiting : Waiting → Started E

module _ {E : Type 0} (engine : Engine E) where
  abbrev answer : Exec (Service E) Response → Service E → Started E
  answer m s = let (r, s') = m s in Started.answered r s'

  abbrev pub start_ticket : EvidencePack → Result ApprovalTicket → Service E → Started E
  start_ticket p (err exc) s = answer (refuse exc) s
  start_ticket p (ok ticket) s = Started.waiting (record { pack = p; ticket = ticket })

  abbrev pub start_accepted :
      Choice → EvidencePack → DecisionRequest → (approver : String) → Service E → Started E
  start_accepted Choice.approve p body approver s =
      start_ticket p (issue_approval_ticket p body.evidence_hash approver body.note) s
  start_accepted Choice.reject p body approver s = answer (rejecting engine p body.note approver) s

  abbrev pub start_unless :
      Option Response → EvidencePack → DecisionRequest → (approver : String) → Service E → Started E
  start_unless (some r) p body approver s = Started.answered (ok r) s
  start_unless none p body approver s = start_accepted body.decision p body approver s

  abbrev pub start_stored :
      Option EvidencePack → DecisionRequest → Option Identity → Service E → Started E
  start_stored none body identity s = Started.answered (ok not_found) s
  start_stored (some p) body identity s =
      start_unless (refusal p body) p body (authoritative identity body.approver) s

  -- the request up to the `await`
  unfoldable pub start :
      (run_id : String) → DecisionRequest → Option Identity → Service E → Started E
  start run_id body identity s = start_stored (lookup run_id s.packs) body identity s

  -- the request from the `await` on
  unfoldable pub finish : Waiting → Exec (Service E) Response
  finish w = on_engine (engine.apply_and_verify w.pack w.ticket) >>= save

-- a server: the store and the engine, and the requests that wait
pub record Server (E : Type 0) : Type 0 where
  pub service : Service E
  pub waiting : List Waiting

module _ (x : Externals) {E : Type 0} (engine : Engine E)
    (workload : Option (String → Option Value)) where
  -- the steps of a server: its requests `POST /run` and `POST /run/{run_id}/decision`, those that wait
  -- going on in any order
  pub data Step : Server E → Server E → Type 0 where
    answers :
        (run_id : String) (body : DecisionRequest) (identity : Option Identity)
        (r : Result Response) (s s' : Service E) (ws : List Waiting)
        → start engine run_id body identity s ≡ Started.answered r s'
        → Step (record { service = s; waiting = ws }) (record { service = s'; waiting = ws })
    waits :
        (run_id : String) (body : DecisionRequest) (identity : Option Identity) (w : Waiting)
        (s : Service E) (ws : List Waiting)
        → start engine run_id body identity s ≡ Started.waiting w
        → Step (record { service = s; waiting = ws }) (record { service = s; waiting = w ∷ ws })
    goes_on :
        (w : Waiting) (s : Service E) (before after : List Waiting)
        → Step
            (record { service = s; waiting = before ++ (w ∷ after) })
            (record { service = (finish engine w s).1; waiting = before ++ after })
    -- before its `await` a run reads only what was captured, so that it is one step
    runs :
        (fresh : String) (body : RunRequest) (s : Service E) (ws : List Waiting)
        → Step
            (record { service = s; waiting = ws })
            (record { service = (trigger_run x engine workload fresh body s).1; waiting = ws })

  pub data Steps (a : Server E) : Server E → Type 0 where
    done : Steps a a
    next : {b c : Server E} → Steps a b → Step b c → Steps a c

  -- a run that is answered with a pack of this id
  abbrev pub IsRun : String → {a b : Server E} → Step a b → Type 0
  IsRun run_id (Step.runs fresh body s ws) =
      (p : EvidencePack) × ((trigger_run x engine workload fresh body s).0 ≡ ok p)
      × (p.run_id ≡ run_id)
  IsRun run_id _ = ⊥

  -- there is such a run among the steps
  abbrev pub HasRun : String → {a b : Server E} → Steps a b → Type 0
  HasRun run_id Steps.done = ⊥
  HasRun run_id (Steps.next steps step) = HasRun run_id steps ⊎ IsRun run_id step
