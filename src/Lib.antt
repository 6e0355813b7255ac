-- ===== src/Lib.antt =====
-- Sift: an assistant for slow MongoDB queries that may read a database, but changes it only after a
-- human has approved one exact proposal.
--
-- A run explains a slow query (controller/explain.py), recommends an index by the rule Equality, Sort,
-- Range (controller/diagnosis.py), and stores an evidence pack (controller/schemas.py) that is bound
-- to the evidence and the recommendation by a hash (controller/ledger.py, controller/pack.py). A human
-- approves the hash: controller/orchestrator.py then issues a ticket, applies the index, explains the
-- query again and decides whether the fix is verified. Every step leaves records in a ledger
-- (controller/ledger_store.py). Agents are kept to read tools by agents/gating.py.
--
-- The files:
--   Prelude, Prelude/*   Booleans, lists, strings, integers; `Result` for code that may raise; `Exec`
--                        for code that may raise and has a state, which an exception leaves as it is
--   Externals            what the Python libraries do: SHA-256, the text of strings and floats, int()
--   Value                JSON and BSON values: dicts in their order, lists and tuples
--   Phases               controller/phases.py
--   Gating               agents/gating.py
--   PyText               str and repr of values
--   Json, Ledger         json.dumps and the canonical form and hash of controller/ledger.py
--   Schemas, Schemas/*   controller/schemas.py: the records, their dumps, the validators of a pack
--   Diagnosis            controller/diagnosis.py
--   Pack                 controller/pack.py
--   Explain              walk_stages of controller/explain.py
--   Backends             the protocol of controller/backends.py and its FakeBackend
--   LedgerStore          controller/ledger_store.py over a store of collections of documents
--   Orchestrator/*       controller/orchestrator.py: Checks (the verification), Gate (gate and ticket),
--                        Trace (the agent trace), Actions (the diagnoses), Decide (apply_and_verify and
--                        reject_pack); the other files prove what these do
--   Workload, Workload/* the guided queries of controller/workload.py and the check of stored queries
--   Api, Api/*           decide_pack and the write token of api/routes.py; Runs is its trigger_run,
--                        Concurrent its overlapping requests; Live is `_LiveEngine` of api/server.py,
--                        which fills the interface `Engine` that the routes call
--   AgentEngine/*        api/agent_engine.py: the parsing of an answer, Payload (what is read off the tools'
--                        responses), Clients (one call, and the pipeline of four), Config (the environment);
--                        Overflow is about the one exception that no part of it catches
--   Sessions/*           controller/auth.py: Encoding (base64 and segments), Tokens, Passwords; Signed and
--                        Returning prove what these do
--   Login, Login/*       api/auth.py
--   Memory, Memory/*     api/memory.py: the texts of a run, Client (the answers of the service), Service (the
--                        lookup and its cache), Documents (the runbook and the configuration)
--   Grade, Grade/*       evals/grade.py: the scorecard and the grades of lists, Packs (those of JSON),
--                        Agents (that of the agents' trace)
--   Tests/*              the theorems at sample inputs
--
-- A definition has the name of the Python function, without a leading underscore. A Python exception
-- is an `Error`, and the message of a validator is that of the source. Asynchronous calls are made one
-- after the other, as their awaits have it. `None` as a ledger is `none`. The times in milliseconds of
-- an explain are whole numbers, as the database gives them. Counts that the schemas bound below by 0
-- are natural numbers, so that the schemas' check of them needs no definition. The recursion is on the
-- values themselves; only the decimal text of a number is written with fuel, one more than the number,
-- which has at most that many digits.
--
-- A request of the API is one step in `decide_pack`. Api/Concurrent has the same request in two
-- parts, before and after it awaits the engine, as the steps of a server whose requests overlap,
-- with those of `trigger_run`; the engine's own work is one step there. An agent may change the
-- database; the agents behind a stream (over_stream) are taken to leave it alone. A stored query is
-- converted as `dict` and `int` do for dicts, pairs with a text and numbers; other shapes raise.
--
-- The events that an agent streams are JSON values; JSON, base64, HMAC, scrypt, the environment, floats and
-- the words of a text are parameters of the definitions that use them, and what a theorem needs of them is
-- among its hypotheses. The members of a Python set are a list in which repetitions do not count.
--
-- Not modelled: the network, the clock, the drivers and the model services, which are arguments; of
-- api/, the other routes; the slowness score and the capture record of controller/workload.py; the
-- capture service of api/workload.py; the tools of agents/; the live runs of evals/run_eval.py and
-- the grades of narratives and latencies; the seeds, the dashboard.
pub mod Prelude
pub mod Externals
pub mod Value
pub mod Phases
pub mod Gating
pub mod Json
pub mod PyText
pub mod Ledger
pub mod Explain
pub mod Schemas
pub mod Diagnosis
pub mod Pack
pub mod AgentEngine
pub mod Backends
pub mod LedgerStore
pub mod Orchestrator
pub mod Workload
pub mod Sessions
pub mod Login
pub mod Memory
pub mod Grade
pub mod Api
mod Tests
