-- ===== src/Orchestrator.antt =====
-- controller/orchestrator.py: DIAGNOSE, then a human's APPROVE or REJECT, then VERIFY.
pub mod Checks
pub mod Gate
pub mod Trace
pub mod Actions
pub mod Decide
pub mod Decided
pub mod Approval
pub mod Verdict
pub mod Patterns
pub mod Evidenced
pub mod Outcome
pub mod Rejection
pub mod Pending
pub mod Reading
