-- ===== src/Api/Once.antt =====
-- The route `decide_pack` of api/routes.py decides a pack at most once.
use mathlib.Core.Path.{subst}
use googlecloudhack.Prelude.{
  String, ◌≡◌, refl, ap, sym, ◌∙◌, inl, inr, true, false, Option, none, some, is_some, Error,
  Result, ok, err, eq_refl, Result-cases, Bool-cases, is_value_error, message,
}
use googlecloudhack.Schemas.{EvidencePack}
use googlecloudhack.LedgerStore.Dicts.{lookup, insert, lookup-insert}
use googlecloudhack.Orchestrator.Gate.{ApprovalTicket, issue_approval_ticket}
use googlecloudhack.Api.{
  Choice, Identity, Engine, DecisionRequest, Response, already_decided, approval_gate, updated,
  Service, refusal, authoritative, save, refuse, with_ticket, rejecting, accept, unless_refused,
  decide_pack,
}
use googlecloudhack.Api.Refused.{is_updated, refusal_decided, refusal_not_updated}

-- What the route relies on: an engine gives back the pack that it was given, decided.
pub record IsDeciding {E : Type 0} (engine : Engine E) : Type 0 where
  pub applied :
      (p : EvidencePack) (ticket : ApprovalTicket) (e e' : E) (q : EvidencePack)
      → engine.apply_and_verify p ticket e ≡ (ok q, e')
      → (q.run_id ≡ p.run_id) × (is_some q.decision ≡ true)
  pub rejected :
      (p : EvidencePack) (approver note : String) (e e' : E) (q : EvidencePack)
      → engine.reject p approver note e ≡ (ok q, e')
      → (q.run_id ≡ p.run_id) × (is_some q.decision ≡ true)

module _ {E : Type 0} (engine : Engine E) where
  err_not_ok : {T : Type 0} {t : T} (exc : Error) → ¬ (err exc ≡ ok t)
  err_not_ok exc h = cc

  absurd_bool : ¬ (false ≡ true)
  absurd_bool h = cc h

  -- the state after a pack was saved for the run of `p`
  record IsSaved (p q : EvidencePack) (s : Service E) : Type 0 where
    pub same_run : q.run_id ≡ p.run_id
    pub decided : is_some q.decision ≡ true
    pub stored : lookup q.run_id s.packs ≡ some q

  save-IsSaved :
      (p r q : EvidencePack) (s s' : Service E)
      → (r.run_id ≡ p.run_id) × (is_some r.decision ≡ true)
      → save r s ≡ (ok (updated q), s')
      → IsSaved p q s'
  save-IsSaved p r q s s' (same_run, decided) h =
      let same : r ≡ q = cc (ap (λ t. t.0) h) in
      let after : record s { packs = insert r.run_id r s.packs } ≡ s' = ap (λ t. t.1) h in
      subst (λ t. IsSaved p q t) after
        (subst (λ t. IsSaved p t (record s { packs = insert r.run_id r s.packs })) same
          (record {
            same_run = same_run;
            decided = decided;
            stored = lookup-insert r.run_id r.run_id r s.packs ∙ rw (eq_refl r.run_id) refl;
          }))

  refuse_not_updated :
      (exc : Error) (s s' : Service E) (q : EvidencePack) → ¬ (refuse exc s ≡ (ok (updated q), s'))
  refuse_not_updated exc s s' q h = elim (Bool-cases (is_value_error exc)) [
    | inl e ↦
        let refused : refuse exc s ≡ (ok (approval_gate (message exc)), s) = rw e refl in
        cc (ap (λ t. t.0) (sym refused ∙ h))
    | inr e ↦
        let refused : refuse exc s ≡ (err exc, s) = rw e refl in
        cc (ap (λ t. t.0) (sym refused ∙ h))
  ]

  module _ (engine_decides : IsDeciding engine) where
    with_ticket-IsSaved :
        (p q : EvidencePack) (r : Result ApprovalTicket) (s s' : Service E)
        → with_ticket engine p r s ≡ (ok (updated q), s')
        → IsSaved p q s'
    with_ticket-IsSaved p q (err exc) s s' h = absurd (refuse_not_updated exc s s' q h)
    with_ticket-IsSaved p q (ok ticket) s s' h =
        elim (Result-cases (engine.apply_and_verify p ticket s.engine).0) [
          | inl (r, e) ↦
              let e' = (engine.apply_and_verify p ticket s.engine).1 in
              let run : with_ticket engine p (ok ticket) s ≡ save r (record s { engine = e' }) =
                rw e refl in
              save-IsSaved p r q (record s { engine = e' }) s'
                (engine_decides.applied p ticket s.engine e' r (ap (λ z. (z, e')) e)) (sym run ∙ h)
          | inr (exc, e) ↦
              let e' = (engine.apply_and_verify p ticket s.engine).1 in
              let run : with_ticket engine p (ok ticket) s ≡ (err exc, record s { engine = e' }) =
                rw e refl in
              absurd (err_not_ok exc (ap (λ z. z.0) (sym run ∙ h)))
        ]

    with_rejection-IsSaved :
        (p q : EvidencePack) (approver note : String) (s s' : Service E)
        → rejecting engine p note approver s ≡ (ok (updated q), s')
        → IsSaved p q s'
    with_rejection-IsSaved p q approver note s s' h =
        elim (Result-cases (engine.reject p approver note s.engine).0) [
          | inl (r, e) ↦
              let e' = (engine.reject p approver note s.engine).1 in
              let run : rejecting engine p note approver s ≡ save r (record s { engine = e' }) =
                rw e refl in
              save-IsSaved p r q (record s { engine = e' }) s'
                (engine_decides.rejected p approver note s.engine e' r (ap (λ z. (z, e')) e))
                (sym run ∙ h)
          | inr (exc, e) ↦
              let e' = (engine.reject p approver note s.engine).1 in
              let run : rejecting engine p note approver s ≡ refuse exc (record s { engine = e' }) =
                rw e refl in
              absurd (refuse_not_updated exc (record s { engine = e' }) s' q (sym run ∙ h))
        ]

    accept-IsSaved :
        (choice : Choice) (p q : EvidencePack) (body : DecisionRequest) (approver : String)
        (s s' : Service E)
        → accept engine choice p body approver s ≡ (ok (updated q), s')
        → IsSaved p q s'
    accept-IsSaved Choice.approve p q body approver s s' h =
        with_ticket-IsSaved p q (issue_approval_ticket p body.evidence_hash approver body.note) s s'
          h
    accept-IsSaved Choice.reject p q body approver s s' h =
        with_rejection-IsSaved p q approver body.note s s' h

    unless_refused-IsSaved :
        (o : Option Response) (p q : EvidencePack) (body : DecisionRequest) (approver : String)
        (s s' : Service E)
        → refusal p body ≡ o
        → unless_refused engine o p body approver s ≡ (ok (updated q), s')
        → IsSaved p q s'
    unless_refused-IsSaved (some r) p q body approver s s' e h =
        let same : r ≡ updated q = cc (ap (λ z. z.0) h) in
        absurd (absurd_bool (sym (refusal_not_updated p body r e) ∙ ap is_updated same))
    unless_refused-IsSaved none p q body approver s s' e h =
        accept-IsSaved body.decision p q body approver s s' h

    -- With an engine that gives back the run's own pack, decided: after `decide_pack` has answered with a
    -- pack, for a run whose stored pack has the run's id, the store has this pack for the run; and the
    -- next request on the run is answered that it is already decided, and changes nothing.
    pub decide_pack_once :
        (run_id : String) (body again : DecisionRequest) (identity other : Option Identity)
        (s s' : Service E) (p q : EvidencePack)
        → lookup run_id s.packs ≡ some p
        → p.run_id ≡ run_id
        → decide_pack engine run_id body identity s ≡ (ok (updated q), s')
        → (lookup run_id s'.packs ≡ some q)
          × (decide_pack engine run_id again other s' ≡ (ok (already_decided q.status), s'))
    unfolding decide_pack
    decide_pack_once run_id body again identity other s s' p q e k h =
        let run : decide_pack engine run_id body identity s
            ≡ unless_refused engine (refusal p body) p body (authoritative identity body.approver)
                s =
          rw e refl in
        let saved =
          unless_refused-IsSaved (refusal p body) p q body (authoritative identity body.approver) s
            s' refl (sym run ∙ h) in
        let stored : lookup run_id s'.packs ≡ some q =
          subst (λ i. lookup i s'.packs ≡ some q) (saved.same_run ∙ k) saved.stored in
        (stored, rw (stored, refusal_decided q again saved.decided) refl)
