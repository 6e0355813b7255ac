-- ===== src/Orchestrator/Outcome.antt =====
-- How `apply_and_verify` and `reject_pack` of controller/orchestrator.py end.

use googlecloudhack.Prelude.{◌≡◌, ◌↔◌, ◌⊎◌, refl, Bool, true, none, some, ok, arith}
use googlecloudhack.Externals.{Externals}
use googlecloudhack.Schemas.{PackStatus, Evidence, EvidencePack}
use googlecloudhack.Schemas.Validity.{IsValid}
use googlecloudhack.Backends.{by_keys, Backend}
use googlecloudhack.LedgerStore.{Ledger, write_application_records}
use googlecloudhack.LedgerStore.Writes.{write_application_records_ok}
use googlecloudhack.Orchestrator.Checks.{Checks, recommended_index_name, all_hold}
use googlecloudhack.Orchestrator.Gate.{ApprovalTicket}
use googlecloudhack.Orchestrator.Actions.{Query, State, maybe_narrate}
use googlecloudhack.Orchestrator.Decide.{status_of, checks_for, apply_and_verify}
use googlecloudhack.Orchestrator.Approval.{Approves, approval_of, approve_decision_complete}
use googlecloudhack.Orchestrator.Verdict.{applied_pack, applied_pack-IsValid, verified_pack-total}
use googlecloudhack.Orchestrator.Patterns.{FiniteFields}
use googlecloudhack.Orchestrator.Evidenced.{IsFixed, verification_checks_iff}

-- The run that applies the index and then explains the query with it, from `d` to `d'`.
pub record Measured {W : Type 0} (backend : Backend W) (p : EvidencePack) (query : Query) (d d' : W)
    (after : Evidence) : Type 0 where
  pub between : W
  pub applied :
      backend.apply_index p.recommendation.index_spec (recommended_index_name p.recommendation) d
      ≡ (ok tt, between)
  pub explained :
      backend.explain query.filter query.sort query.limit
        (by_keys p.recommendation.index_spec)
        between
      ≡ (ok after, d')

module _ (x : Externals) {W : Type 0} (backend : Backend W) (p : EvidencePack)
    (ticket : ApprovalTicket) (query : Query) (s : State W) (d' : W) (after : Evidence)
    (checks : Checks) where
  abbrev records_after : Ledger
  records_after =
      (write_application_records x (applied_pack x p ticket after checks) ticket.approver
        ticket.note (recommended_index_name p.recommendation) s.ledger).1

  -- With an approval of a valid pack, and a database that applies the index and explains the query,
  -- `apply_and_verify` returns the applied pack.
  apply_and_verify_lem :
      IsValid x p
      → Approves p ticket
      → Measured backend p query s.database d' after
      → checks_for x p after ≡ ok checks
      → apply_and_verify x backend p ticket query none s ≡ (
        ok (applied_pack x p ticket after checks),
        record { database = d'; ledger = records_after },
      )
  unfolding apply_and_verify maybe_narrate
  apply_and_verify_lem v a m checked = simp (
    approve_decision_complete p ticket a v.hash_format,
    m.applied,
    m.explained,
    verified_pack-total x p ticket after checks v a.same_hash checked,
    write_application_records_ok x (applied_pack x p ticket after checks) (approval_of p)
        ticket.approver ticket.note (recommended_index_name p.recommendation) s.ledger refl,
  )

status_of_verified : (b : Bool) → (status_of b ≡ PackStatus.verified) ↔ (b ≡ true)
status_of_verified b = ground arith

status_of_cases :
    (b : Bool) → (status_of b ≡ PackStatus.verified) ⊎ (status_of b ≡ PackStatus.approved)
status_of_cases b = ground arith

-- When the ticket approves a valid pack, there is no narrator, and the database applies the index
-- and then explains the query with a plan in which no float is infinite, `apply_and_verify` returns
-- a valid pack. It is VERIFIED exactly when the new evidence shows the fix, and APPROVED otherwise;
-- it carries the new evidence and a decision to approve, and has the hash, the evidence before and
-- the recommendation that were approved. The database is left as the explain left it.
pub apply_and_verify_verdict :
    (x : Externals) {W : Type 0} (backend : Backend W) (p : EvidencePack) (ticket : ApprovalTicket)
    (query : Query) (s : State W) (d' : W) (after : Evidence)
    → IsValid x p
    → Approves p ticket
    → Measured backend p query s.database d' after
    → FiniteFields x after.explain_plan
    → (q : EvidencePack) × (l : Ledger) × (apply_and_verify x backend p ticket query none s
        ≡ (ok q, record { database = d'; ledger = l }))
      × IsValid x q
      × ((q.status ≡ PackStatus.verified)
          ↔ IsFixed x p.before after p.recommendation (recommended_index_name p.recommendation))
      × ((q.status ≡ PackStatus.verified) ⊎ (q.status ≡ PackStatus.approved))
      × (q.after ≡ some after)
      × (q.decision ≡ some (approval_of p))
      × (q.evidence_hash ≡ p.evidence_hash)
      × (q.before ≡ p.before)
      × (q.recommendation ≡ p.recommendation)
apply_and_verify_verdict x backend p ticket query s d' after v a m finite =
    let name = recommended_index_name p.recommendation in
    let (checks, checked, fixed) =
      verification_checks_iff x p.before after p.recommendation name finite in
    let verified = status_of_verified (all_hold checks) in
    (
      applied_pack x p ticket after checks,
      records_after x backend p ticket query s d' after checks,
      apply_and_verify_lem x backend p ticket query s d' after checks v a m checked,
      applied_pack-IsValid x p ticket after checks v a.same_hash,
      (λ h. fixed.0 (verified.0 h), λ f. verified.1 (fixed.1 f)),
      status_of_cases (all_hold checks),
      refl,
      refl,
      refl,
      refl,
      refl,
    )
