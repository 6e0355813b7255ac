-- ===== src/Api.antt =====
-- api/routes.py: the write token, and the route that decides a pack. The engine is the protocol
-- `Engine`, with a state of its own; the store is the protocol `PackStore`, a pack for each run id.
pub mod Refused
pub mod Once
pub mod Concurrent
pub mod Lasting
pub mod Overlap
pub mod Fallback
pub mod Live
pub mod Runs
pub mod Reading
pub mod Ticket
use googlecloudhack.Prelude.{
  ℕ, String, Bool, true, false, not, ◌&&◌, ◌||◌, Option, none, some, is_some, is_empty, ◌==◌,
  if◌then◌else◌, Result, ok, err, http_exception, Error, raise_if, is_value_error, message,
}
use googlecloudhack.Prelude.Exec.{Exec, pure, raise, lift, modify, ◌>>=◌, ◌>>◌}
use googlecloudhack.Schemas.{
  PackStatus, ApprovalGateState, ApprovalGate, EvidencePack, status_is, gate_state_is,
}
use googlecloudhack.LedgerStore.Dicts.{Dict, lookup, insert}
use googlecloudhack.Orchestrator.Gate.{ApprovalTicket, issue_approval_ticket}
use googlecloudhack.Orchestrator.Actions.{Query}

abbrev pub non_empty : Option String → Bool
non_empty none = false
non_empty (some s) = not (is_empty s)

abbrev pub same_token : Option String → Option String → Bool
same_token (some given) (some expected) = given == expected
same_token _ _ = false

-- `RUN_API_TOKEN` and the header; `compare_digest` is equality
unfoldable pub require_write_token :
    (expected : Option String) → (x_api_token : Option String) → Result (Unit {0})
require_write_token expected token =
    raise_if (non_empty expected && not (non_empty token && same_token token expected))
      (http_exception 401 "invalid or missing API token")

-- the fields of controller/auth.py's `Identity`
pub record Identity : Type 0 where
  pub username : String
  pub display_name : String
  pub role : String

pub record Engine (E : Type 0) : Type 0 where
  pub diagnose : (run_id : String) → Option Query → Exec E EvidencePack
  pub apply_and_verify : EvidencePack → ApprovalTicket → Exec E EvidencePack
  pub reject : EvidencePack → (approver note : String) → Exec E EvidencePack

pub data Choice : Type 0 where
  approve reject : Choice

pub record DecisionRequest : Type 0 where
  pub decision : Choice
  pub evidence_hash : String
  pub approver : String
  pub note : String

-- the answers of the route: 404, three kinds of 409, and the updated pack
pub data Response : Type 0 where
  not_found : Response
  already_decided : PackStatus → Response
  stale_evidence_hash : (current_hash : String) → Response
  approval_gate : (detail : String) → Response
  updated : EvidencePack → Response

-- the store and the engine
pub record Service (E : Type 0) : Type 0 where
  pub packs : Dict EvidencePack
  pub engine : E

abbrev pub is_pending : Option ApprovalGate → Bool
is_pending none = false
is_pending (some g) = gate_state_is g.state ApprovalGateState.pending_approval

-- the answer to a decision that is not accepted
unfoldable pub refusal : EvidencePack → DecisionRequest → Option Response
refusal p body =
    if is_some p.decision || not (status_is p.status PackStatus.diagnosed)
    then some (already_decided p.status)
    else if not (body.evidence_hash == p.evidence_hash)
    then some (stale_evidence_hash p.evidence_hash)
    else if not (is_pending p.approval_gate)
    then some (approval_gate "pending approval gate required")
    else none

abbrev pub authoritative : Option Identity → String → String
authoritative none approver = approver
authoritative (some identity) approver = identity.display_name

module _ {E : Type 0} where
  abbrev pub on_engine : {A : Type 0} → Exec E A → Exec (Service E) A
  on_engine m s = let (r, e) = m s.engine in (r, record s { engine = e })

  -- `store.save_pack(updated)`, and the answer
  abbrev pub save : EvidencePack → Exec (Service E) Response
  save q s = (ok (updated q), record s { packs = insert q.run_id q s.packs })

  -- `except ValueError as exc`
  abbrev pub refuse : Error → Exec (Service E) Response
  refuse exc = if is_value_error exc then pure (approval_gate (message exc)) else raise exc

  module _ (engine : Engine E) where
    abbrev pub with_ticket : EvidencePack → Result ApprovalTicket → Exec (Service E) Response
    with_ticket p (err exc) = refuse exc
    with_ticket p (ok ticket) = do q ← on_engine (engine.apply_and_verify p ticket); save q

    abbrev pub with_rejection : Result EvidencePack → Exec (Service E) Response
    with_rejection (err exc) = refuse exc
    with_rejection (ok q) = save q

    abbrev pub rejecting : EvidencePack → (note approver : String) → Exec (Service E) Response
    rejecting p note approver s =
        let (r, e) = engine.reject p approver note s.engine in
        with_rejection r (record s { engine = e })

    -- what is done with an accepted decision
    abbrev pub accept :
        Choice → EvidencePack → DecisionRequest → (approver : String) → Exec (Service E) Response
    accept Choice.approve p body approver =
        with_ticket p (issue_approval_ticket p body.evidence_hash approver body.note)
    accept Choice.reject p body approver = rejecting p body.note approver

    abbrev pub unless_refused :
        Option Response
        → EvidencePack
        → DecisionRequest
        → (approver : String) → Exec (Service E) Response
    unless_refused (some r) p body approver = pure r
    unless_refused none p body approver = accept body.decision p body approver

    abbrev pub decide_stored :
        Option EvidencePack → DecisionRequest → Option Identity → Exec (Service E) Response
    decide_stored none body identity = pure not_found
    decide_stored (some p) body identity =
        unless_refused (refusal p body) p body (authoritative identity body.approver)

    unfoldable pub decide_pack :
        (run_id : String) → DecisionRequest → Option Identity → Exec (Service E) Response
    decide_pack run_id body identity s = decide_stored (lookup run_id s.packs) body identity s
