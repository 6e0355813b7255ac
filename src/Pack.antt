-- ===== src/Pack.antt =====
-- controller/pack.py: a pack is assembled with the hash that binds its evidence and recommendation.
use googlecloudhack.Prelude.{String, Option, List, [], ◌∷◌, Result}
use googlecloudhack.Externals.{Externals}
use googlecloudhack.Value.{dict, of_items}
use googlecloudhack.Ledger.{evidence_hash}
use googlecloudhack.Schemas.{
  PackStatus, Evidence, Finding, Recommendation, Decision, PhaseTransition, AgentTraceEvent,
  ApprovalGate, EvidencePack,
}
use googlecloudhack.Schemas.Dump.{dump_evidence, dump_recommendation}
use googlecloudhack.Schemas.Validators.{validate_pack}

module _ (x : Externals) where
  unfoldable pub pack_evidence_hash : Evidence → Recommendation → String
  pack_evidence_hash before recommendation = evidence_hash x (
      dict (
        of_items (
          ("evidence", dump_evidence x before)
          ∷ ("recommendation", dump_recommendation x recommendation)
          ∷ [])))

  -- The arguments are those of the call; the hash is computed here and the pack is validated.
  unfoldable pub build_pack :
      (run_id namespace created_at : String) (before : Evidence) (finding : Finding)
      (recommendation : Recommendation) (status : PackStatus) (after : Option Evidence)
      (decision : Option Decision) (phase_log : List PhaseTransition)
      (agent_trace : List AgentTraceEvent) (approval_gate : Option ApprovalGate)
      (narrative : Option String)
      → Result EvidencePack
  build_pack run_id namespace created_at before finding recommendation status after decision
        phase_log agent_trace approval_gate narrative =
      validate_pack x (record {
        run_id = run_id;
        namespace = namespace;
        status = status;
        before = before;
        after = after;
        finding = finding;
        recommendation = recommendation;
        decision = decision;
        phase_log = phase_log;
        agent_trace = agent_trace;
        approval_gate = approval_gate;
        evidence_hash = pack_evidence_hash before recommendation;
        created_at = created_at;
        narrative = narrative;
      })
