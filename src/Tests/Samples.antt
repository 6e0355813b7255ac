-- ===== src/Tests/Samples.antt =====
-- A slow query on the demo collection, its evidence before and after the index, and its pack.
use googlecloudhack.Prelude.{
  if◌then◌else◌, ◌==◌, value_error, raised, err, ℤ, pos, negsuc, String, ◌≡◌, refl, true, none,
  some, List, [], ◌∷◌,
}
use googlecloudhack.Externals.{Externals, is_hash}
use googlecloudhack.Value.{int, str, dict, Fields, of_items}
use googlecloudhack.Schemas.{Severity, Evidence, Diagnosis, ApprovalGate, EvidencePack}
use googlecloudhack.Schemas.Validators.{is_run_id}
use googlecloudhack.Schemas.Validity.{IsValid}
use googlecloudhack.Backends.{Fake}
use googlecloudhack.Orchestrator.Gate.{ApprovalTicket, gate_id}
use googlecloudhack.Orchestrator.Actions.{Query, State}
use googlecloudhack.Orchestrator.Approval.{Approves}
use googlecloudhack.Orchestrator.Pending.{fresh_pack, fresh_pack-IsValid, pending_gate}

abbrev pub zeros : String
zeros = "0000000000000000000000000000000000000000000000000000000000000000"

pub zeros-is_hash : is_hash zeros ≡ true
unfolding is_hash
zeros-is_hash = refl

-- constant functions in the place of the libraries'
abbrev pub sample_externals : Externals
sample_externals = record {
  sha256_hex = λ s. zeros;
  str_repr = λ s. s;
  float_repr = λ n. "0.0";
  int_of_str = λ s. none;
  int_of_float = λ s.
      if s == "inf"
      then err (raised "OverflowError: cannot convert float infinity to integer")
      else err (value_error "cannot convert float NaN to integer");
  is_hash-sha256_hex = λ s. zeros-is_hash;
}

abbrev pub sample_filter : Fields
sample_filter = of_items (
    ("storeLocation", str "Denver")
    ∷ ("customer.age", dict (of_items (("$gte", int (pos 30)) ∷ ("$lte", int (pos 50)) ∷ [])))
    ∷ [])

abbrev pub sample_sort : List (String × ℤ)
sample_sort = ("saleDate", negsuc 0) ∷ []

abbrev pub sample_query : Query
sample_query = record { filter = sample_filter; sort = sample_sort; limit = pos 20 }

abbrev pub esr_spec : List (String × ℤ)
esr_spec = ("storeLocation", pos 1) ∷ ("saleDate", negsuc 0) ∷ ("customer.age", pos 1) ∷ []

abbrev pub esr_name : String
esr_name = "gcrah_rec_storeLocation1_saleDate-1_customer.age1"

abbrev pub slow_plan : Fields
slow_plan =
    of_items (
      ("stage", str "SORT") ∷ ("inputStage", dict (of_items (("stage", str "COLLSCAN") ∷ []))) ∷ [])

abbrev pub fast_plan : Fields
fast_plan = of_items (
    ("stage", str "FETCH")
    ∷ ("inputStage", dict (of_items (("stage", str "IXSCAN") ∷ ("indexName", str esr_name) ∷ [])))
    ∷ [])

abbrev pub slow : Evidence
slow = record {
  query = dict sample_filter;
  explain_plan = slow_plan;
  metrics = record {
    docs_examined = 100377;
    docs_returned = 15;
    millis = 120;
    total_keys_examined = 0;
    stages = "SORT" ∷ "COLLSCAN" ∷ [];
  };
}

abbrev pub fast : Evidence
fast = record {
  query = dict sample_filter;
  explain_plan = fast_plan;
  metrics = record {
    docs_examined = 15;
    docs_returned = 15;
    millis = 1;
    total_keys_examined = 15;
    stages = "FETCH" ∷ "IXSCAN" ∷ [];
  };
}

abbrev pub sample_diagnosis : Diagnosis
sample_diagnosis = record {
  finding = record {
    problem = "blocking sort";
    severity = Severity.high;
    evidence_refs = "explain" ∷ [];
  };
  recommendation = record { index_spec = esr_spec; rationale = "ESR" };
}

abbrev pub sample_pack : EvidencePack
sample_pack =
    fresh_pack sample_externals "run-1" "sample_supplies.sales_agent_demo" "2026-06-01" sample_query
      slow none none sample_diagnosis

abbrev pub sample_gate : ApprovalGate
sample_gate =
    pending_gate sample_externals "run-1" "sample_supplies.sales_agent_demo" "2026-06-01"
      sample_query slow none none sample_diagnosis

pub run_1-is_run_id : is_run_id "run-1" ≡ true
unfolding is_run_id
run_1-is_run_id = refl

pub sample_pack-IsValid : IsValid sample_externals sample_pack
sample_pack-IsValid =
    fresh_pack-IsValid sample_externals "run-1" "sample_supplies.sales_agent_demo" "2026-06-01"
      sample_query slow none none sample_diagnosis run_1-is_run_id refl refl

abbrev pub sample_ticket : ApprovalTicket
sample_ticket = record {
  run_id = "run-1";
  evidence_hash = sample_pack.evidence_hash;
  approver = "Dev";
  note = "";
  gate_id = gate_id "run-1";
}

pub sample_ticket-Approves : Approves sample_pack sample_ticket
sample_ticket-Approves = record {
  diagnosed = refl;
  gate = sample_gate;
  has_gate = refl;
  pending = refl;
  same_run = refl;
  same_gate = refl;
  same_hash = refl;
}

-- a database whose explains give the evidence before, then the evidence after
abbrev pub sample_database : Fake
sample_database = record {
  results = slow ∷ fast ∷ [];
  call_count = 0;
  applied_indexes = [];
  dropped_indexes = [];
}

abbrev pub sample_state : State Fake
sample_state = record { database = sample_database; ledger = some [] }

-- the state after the explain of the diagnosis
abbrev pub explained_state : State Fake
explained_state = record { database = record sample_database { call_count = 1 }; ledger = some [] }
