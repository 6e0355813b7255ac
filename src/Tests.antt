-- ===== src/Tests.antt =====
-- Tests of the definitions on concrete inputs, and the theorems at inputs that meet their hypotheses.
mod Samples
mod Approvals
mod Parts
mod Routes
mod Queries
mod Agents
mod Tokens
mod Requests
mod Runbook
mod Grades
