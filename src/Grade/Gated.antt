-- ===== src/Grade/Gated.antt =====
-- What the grades of evals/grade.py say of the packs that controller/orchestrator.py makes.
use mathlib.Core.Path.{subst}
use googlecloudhack.Prelude.{
  is_empty, err, ap, ◌&&◌, Result-cases, ◌∙◌, String, ◌≡◌, refl, true, false, eq_refl, inl, inr,
  Option, ok,
}
use googlecloudhack.Externals.{Externals}
use googlecloudhack.Diagnosis.{diagnose}
use googlecloudhack.Schemas.Validity.{validate_pack_iff}
use googlecloudhack.Schemas.{has_blocking_sort, Evidence, Diagnosis, EvidencePack}
use googlecloudhack.Schemas.DumpJson.{pack_json, event_json, gate_json}
use googlecloudhack.Schemas.Validators.{is_run_id}
use googlecloudhack.Orchestrator.Trace.{AgentDiagnosisResult, diagnosis_trace, gate_trace}
use googlecloudhack.Orchestrator.Actions.{Query, diagnosed_pack}
use googlecloudhack.Orchestrator.Pending.{
  fresh_pack, fresh_pack-IsValid, bound_hash, diagnosed_pack_lem,
}
use googlecloudhack.Grade.Packs.{is_gate_first, same_value, grade_approval_gate_first}

fresh_pack-is_gate_first :
    (x : Externals) (run_id namespace created_at : String) (query : Query) (before : Evidence)
    (result : Option AgentDiagnosisResult) (current_index : Option String) (d : Diagnosis)
    → (grade_approval_gate_first x (
        pack_json x
          (fresh_pack x run_id namespace created_at query before result current_index d))).passed
      ≡ true
unfolding grade_approval_gate_first is_gate_first same_value pack_json event_json gate_json
    diagnosis_trace gate_trace
fresh_pack-is_gate_first x run_id namespace created_at query before result current_index d =
    ap (λ same. same && true)
      (eq_refl (bound_hash x run_id namespace created_at query before result current_index d))

pub diagnosed_pack_fresh :
    (x : Externals) (run_id namespace created_at : String) (query : Query) (before : Evidence)
    (result : Option AgentDiagnosisResult) (current_index : Option String) (q : EvidencePack)
    → is_run_id run_id ≡ true
    → is_empty namespace ≡ false
    → is_empty created_at ≡ false
    → diagnosed_pack x run_id namespace created_at query before result current_index ≡ ok q
    → (d : Diagnosis) × (fresh_pack x run_id namespace created_at query before result current_index
          d
        ≡ q)
diagnosed_pack_fresh x run_id namespace created_at query before result current_index q r n c h =
    elim (Result-cases
      (diagnose x query.filter query.sort (has_blocking_sort before.metrics) current_index)) [
        | inl (d, e) ↦
            let built =
              diagnosed_pack_lem x run_id namespace created_at query before result current_index d e
              ∙ (validate_pack_iff x _).1 (
                  fresh_pack-IsValid x run_id namespace created_at query before result current_index
                    d r n c) in
            (d, cc)
        | inr (exc, e) ↦
            let refused : diagnosed_pack x run_id namespace created_at query before result
                  current_index
                ≡ err exc =
              unfold diagnosed_pack in rw e refl in
            cc
      ]

-- Every pack that a diagnosis builds, for a run with a proper id, namespace and time, passes the grade
-- that asks for the approval gate first: its JSON has the gate as the first event of its trace, and a
-- gate that is pending on the pack's hash and allows no mutation.
pub grade_approval_gate_first_passed :
    (x : Externals) (run_id namespace created_at : String) (query : Query) (before : Evidence)
    (result : Option AgentDiagnosisResult) (current_index : Option String) (q : EvidencePack)
    → is_run_id run_id ≡ true
    → is_empty namespace ≡ false
    → is_empty created_at ≡ false
    → diagnosed_pack x run_id namespace created_at query before result current_index ≡ ok q
    → (grade_approval_gate_first x (pack_json x q)).passed ≡ true
grade_approval_gate_first_passed x run_id namespace created_at query before result current_index q r
      n c h =
    let (d, same) =
      diagnosed_pack_fresh x run_id namespace created_at query before result current_index q r n c
        h in
    subst (λ p. (grade_approval_gate_first x (pack_json x p)).passed ≡ true) same
      (fresh_pack-is_gate_first x run_id namespace created_at query before result current_index d)
