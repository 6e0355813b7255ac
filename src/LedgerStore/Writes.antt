-- ===== src/LedgerStore/Writes.antt =====
-- What the writers of controller/ledger_store.py leave in the ledger.
use googlecloudhack.Prelude.{
  ℤ, String, ◌≡◌, ◌≢◌, refl, ◌∙◌, Option, none, some, List, [], ◌∷◌, All, true, false,
  if◌then◌else◌, ok, arith, eq_iff, eq_refl,
}
use googlecloudhack.Externals.{Externals}
use googlecloudhack.Value.{Value, str, boolean, Fields, field, get}
use googlecloudhack.Schemas.{DecisionAction, PackStatus, Decision, EvidencePack, status_is}
use googlecloudhack.Schemas.DumpJson.{pack_json}
use googlecloudhack.LedgerStore.Dicts.{Records, upsert, find, find-upsert}
use googlecloudhack.LedgerStore.{
  Ledger, record_id, evidence_packs, write_gate_opened_record, write_diagnosis_records,
  write_rejection_records, write_application_records,
}

-- the records, where there is a ledger
abbrev pub holds : Ledger → String → String → Option Fields
holds none collection id = none
holds (some r) collection id = find collection id r

-- An id that belongs to no record of the run.
pub record IsForeign (run_id id : String) : Type 0 where
  pub not_run : run_id ≢ id
  pub not_event : (event : String) → record_id run_id event ≢ id

find-upsert_ne :
    (c d i j : String) (document : Fields) (records : Records)
    → i ≢ j
    → find d j (upsert c i document records) ≡ find d j records
find-upsert_ne c d i j document records ne =
    find-upsert c d i j document records ∙ ground (arith, eq_iff i j)

find-upsert_self :
    (c i : String) (document : Fields) (records : Records)
    → find c i (upsert c i document records) ≡ some (field "_id" (str i) document)
find-upsert_self c i document records =
    find-upsert c c i i document records ∙ rw (eq_refl c, eq_refl i) refl

-- a record of the run, with its id and its hash, and with these entries
abbrev pub IsRecord : EvidencePack → (entries : List (String × Value)) → Option Fields → Type 0
IsRecord p entries none = ⊥
IsRecord p entries (some document) =
    (get "run_id" document ≡ some (str p.run_id))
    × (get "evidence_hash" document ≡ some (str p.evidence_hash))
    × All (λ (entry : String × Value). get entry.0 document ≡ some entry.1) entries

abbrev pub HasRecord :
    EvidencePack → Ledger → (collection event : String) → (entries : List (String × Value)) → Type 0
HasRecord p l collection event entries =
    IsRecord p entries (holds l collection (record_id p.run_id event))

-- With a pack that a human approved, the five records of an application are written: the decision, the
-- approval with the approver and the note, the applied index, the verification with its outcome, and the
-- pack's own record, which is the pack. A record with an id that belongs to no record of the run is as it
-- was.
pub write_application_records_lem :
    (x : Externals) (p : EvidencePack) (d : Decision) (approver note index_name : String)
    (r : Records) (collection id : String)
    → p.decision ≡ some d
    → d.action ≡ DecisionAction.approve
    → IsForeign p.run_id id
    → let (result, l) = write_application_records x p approver note index_name (some r) in
      (result ≡ ok tt)
      × HasRecord p l "decisions" "approve:decision" (("action", str "approve") ∷ [])
      × HasRecord p l "approvals" "approve:approval"
          (("approver", str approver) ∷ ("note", str note) ∷ [])
      × HasRecord p l "applications" "approve:application"
          (("index_name", str index_name) ∷ ("status", str "applied") ∷ [])
      × HasRecord p l "verifications" "verify:verification" (
          ("outcome", str (if status_is p.status PackStatus.verified then "passed" else "failed"))
          ∷ [])
      × (holds l evidence_packs p.run_id ≡ some (field "_id" (str p.run_id) (pack_json x p)))
      × (holds l collection id ≡ find collection id r)
unfolding write_application_records
write_application_records_lem x p d approver note index_name r c id e a f =
    simp (e, a)
      (
        refl,
        simp (find-upsert, eq_refl) (refl, refl, (refl, tt)),
        simp (find-upsert, eq_refl) (refl, refl, (refl, (refl, tt))),
        simp (find-upsert, eq_refl) (refl, refl, (refl, (refl, tt))),
        simp (find-upsert, eq_refl) (refl, refl, (refl, tt)),
        find-upsert_self evidence_packs p.run_id (pack_json x p) _,
        find-upsert_ne _ c _ id _ _ f.not_run
            ∙ (find-upsert_ne _ c _ id _ _ (f.not_event _)
                ∙ (find-upsert_ne _ c _ id _ _ (f.not_event _)
                    ∙ (find-upsert_ne _ c _ id _ _ (f.not_event _)
                        ∙ find-upsert_ne _ c _ id _ _ (f.not_event _)))),
      )

-- Where the pack is decided, the records of a rejection are all written; the pack's own record is
-- then the pack, and a record with an id that belongs to no record of the run is as it was.
pub write_rejection_records_lem :
    (x : Externals) (p : EvidencePack) (d : Decision) (approver note : String) (r : Records)
    (collection id : String)
    → p.decision ≡ some d
    → IsForeign p.run_id id
    → let (result, l) = write_rejection_records x p approver note (some r) in
      (result ≡ ok tt)
      × (holds l evidence_packs p.run_id ≡ some (field "_id" (str p.run_id) (pack_json x p)))
      × (holds l collection id ≡ find collection id r)
unfolding write_rejection_records
write_rejection_records_lem x p d approver note r c id e f = simp e (
  refl,
  find-upsert_self evidence_packs p.run_id (pack_json x p) _,
  find-upsert_ne _ c _ id _ _ f.not_run
      ∙ (find-upsert_ne _ c _ id _ _ (f.not_event _) ∙ find-upsert_ne _ c _ id _ _ (f.not_event _)),
)

-- The five records of a diagnosis are written, decided or not: the slow query, the selected candidate,
-- the explain before the index, the pending gate, which asks for the hash of the pack and allows no
-- mutation, and the pack's own record, which is the pack. A record with an id that belongs to no record of
-- the run is as it was.
pub write_diagnosis_records_lem :
    (x : Externals) (p : EvidencePack) (query_filter : Fields) (query_sort : List (String × ℤ))
    (limit : ℤ) (current_index : Option String) (source : String) (r : Records)
    (collection id : String)
    → IsForeign p.run_id id
    → let (result, l) =
        write_diagnosis_records x p query_filter query_sort limit current_index source (some r) in
      (result ≡ ok tt)
      × HasRecord p l "slow_queries" "diagnose:slow_query" (("source", str source) ∷ [])
      × HasRecord p l "candidates" "diagnose:candidate"
          (("source", str source) ∷ ("selected", boolean true) ∷ [])
      × HasRecord p l "experiments" "diagnose:before" (("source", str source) ∷ [])
      × HasRecord p l "approvals" "gate:pending"
          (("required_hash", str p.evidence_hash) ∷ ("mutation_allowed", boolean false) ∷ [])
      × (holds l evidence_packs p.run_id ≡ some (field "_id" (str p.run_id) (pack_json x p)))
      × (holds l collection id ≡ find collection id r)
unfolding write_diagnosis_records
write_diagnosis_records_lem x p query_filter query_sort limit current_index source r c id f = (
  refl,
  simp (find-upsert, eq_refl) (refl, refl, (refl, tt)),
  simp (find-upsert, eq_refl) (refl, refl, (refl, (refl, tt))),
  simp (find-upsert, eq_refl) (refl, refl, (refl, tt)),
  simp (find-upsert, eq_refl) (refl, refl, (refl, (refl, tt))),
  find-upsert_self evidence_packs p.run_id (pack_json x p) _,
  find-upsert_ne _ c _ id _ _ f.not_run
      ∙ (find-upsert_ne _ c _ id _ _ (f.not_event _)
          ∙ (find-upsert_ne _ c _ id _ _ (f.not_event _)
              ∙ (find-upsert_ne _ c _ id _ _ (f.not_event _)
                  ∙ find-upsert_ne _ c _ id _ _ (f.not_event _)))),
)

-- With a decided pack, and with or without a ledger, the writers do not raise.
pub write_application_records_ok :
    (x : Externals) (p : EvidencePack) (d : Decision) (approver note index_name : String)
    (l : Ledger)
    → p.decision ≡ some d
    → (write_application_records x p approver note index_name l).0 ≡ ok tt
unfolding write_application_records
write_application_records_ok x p d approver note index_name none e = refl
write_application_records_ok x p d approver note index_name (some r) e = simp e

pub write_rejection_records_ok :
    (x : Externals) (p : EvidencePack) (d : Decision) (approver note : String) (l : Ledger)
    → p.decision ≡ some d
    → (write_rejection_records x p approver note l).0 ≡ ok tt
unfolding write_rejection_records
write_rejection_records_ok x p d approver note none e = refl
write_rejection_records_ok x p d approver note (some r) e = simp e

pub write_gate_opened_record_ok :
    (run_id namespace created_at : String) (l : Ledger)
    → (write_gate_opened_record run_id namespace created_at l).0 ≡ ok tt
unfolding write_gate_opened_record
write_gate_opened_record_ok run_id namespace created_at l = refl

pub write_diagnosis_records_ok :
    (x : Externals) (p : EvidencePack) (query_filter : Fields) (query_sort : List (String × ℤ))
    (limit : ℤ) (current_index : Option String) (source : String) (l : Ledger)
    → (write_diagnosis_records x p query_filter query_sort limit current_index source l).0 ≡ ok tt
unfolding write_diagnosis_records
write_diagnosis_records_ok x p query_filter query_sort limit current_index source l = refl
