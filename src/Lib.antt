-- ===== src/Lib.antt =====
-- ovrly: the backend's durable job queue, and the services around it that admit, run and retry work.
--
-- A client's request becomes a row of `jobs` (backend/services/jobs/models.py) with a stage key. Workers
-- claim rows, run a stage under a lease, and publish its result in one transaction that also enqueues
-- the next stages. Owners cancel and delete jobs meanwhile. Nothing but the row's fencing token and
-- generation tells a current lease from a stale one, so the queue's safety is in the WHERE clauses of
-- its statements, and these are what is modelled.
--
-- Jobs/States.antt is backend/services/jobs/states.py: `JobState`, `JobEvent`, `apply`, `is_legal`,
-- `check_invariants`. `Jobs/States/Runs` has sequences of events.
--
-- Jobs/Retries.antt is backend/services/jobs/retries.py: `RetryPolicy.decide` and its parts. Delays are
-- a parameter `Seconds` (Jobs/Retries/Duration.antt), the type of a float with the facts on order that
-- the policy relies on. Jobs/Retries/Caps.antt adds the counter that `JobQueue.retry` keeps.
--
-- Jobs/Tables.antt has the rows of backend/services/jobs/models.py and of those tables of
-- backend/services/models.py that the queue touches, the dataclasses of backend/services/jobs/queue.py,
-- and `Result`, the outcome of a transaction. Json.antt has the documents of the JSONB columns.
--
-- Jobs/Queue.antt is backend/services/jobs/queue.py for the holder of a lease, Jobs/Queue/Owner.antt for
-- the owner of a job (`enqueue`, `request_cancel`, `delete`, `get`, `published`), Jobs/Queue/Publish.antt
-- `publish`. A transaction is a function from the tables to the tables, or an error that leaves them as
-- they were; PostgreSQL's row locks make concurrent transactions on one row take turns, so a history
-- is the list of transactions in the order of their commits (Jobs/Queue/History.antt). The clocks of a
-- transaction, the rows that others have locked, the ids that `uuid4` returns, the callback of a
-- publication and the tables that a fresh connection reads for the reason of a rejected one are arguments. Where PostgreSQL may choose among rows of equal order, the first of the
-- table is taken.
--
-- Jobs/Spec.antt says what the queue promises: a row changes only by legal events of the state machine,
-- `claim` raises the fencing token, and an effective cancellation or a deletion raises the generation.
-- Jobs/Queue/Refines.antt, Transitions.antt and Publication.antt show it of each operation.
--
-- Pipeline/Analysis.antt is `record_terminal` and `resolve_due` of backend/services/pipeline/analysis.py,
-- which run inside the queue's transactions.
--
-- Asr/Reservations.antt is backend/services/asr/reservations.py, the ledger whose rows reserve quota
-- in rolling windows, with the windows in Asr/Usage.antt; Asr/Fallback.antt is `transcribe` of
-- backend/services/asr/fallback.py, which calls the primary model and then the fallback;
-- Asr/Failures.antt has the exceptions and failure names of backend/services/asr/groq.py. A duration
-- stands as the whole seconds of `math.ceil`. Providers/Speech.antt is the speech part of
-- backend/services/provider_budgets.py over the same ledger, Providers/Slots.antt the request
-- slots of backend/services/providers/budget.py, and Providers/Running.antt the calls that hold them: between
-- `_wait_slot` and the `finally` of `request` for as long as the lease lasts. The request's own timeout ends a
-- call before its lease.
--
-- Worker/Runtime.antt is `Worker._execute`, `_retry` and `_release` of backend/services/worker/runtime.py
-- and `publish_stage` of backend/services/pipeline/publish.py. A run of `transcribe` or `_execute` is a
-- sequence of transactions; a `World` says what other processes do to the tables before each, what
-- the clocks show, and what the handler or the provider answers. The publications of evidence and
-- capture stages (backend/services/evidence/stages.py, backend/services/pipeline/capture.py) are
-- arguments there.
--
-- Evidence/Stage.antt is `_assessment` of backend/services/evidence/stages.py: it assesses the claims of a
-- version and publishes the next one. Evidence/Assessor.antt is `assess` of
-- backend/services/evidence/assessment.py, over the labels of Evidence/Replies.antt and Evidence/Overall.antt
-- and the client of backend/services/providers/router.py in Evidence/Router.antt; Evidence/Citations.antt is
-- `validate_citations`, Evidence/Merge.antt is `merged_version`, and Reports/Versions.antt is
-- `publish_report_version` of backend/services/reports.py. The wording of notes, prompts and summaries, the
-- digests that make ids, the HTTP exchange and the validation of a reply are arguments there. The router may
-- answer differently for each claim.
--
-- Extraction/Runs.antt is the stored run of an incremental extraction with `record_request`,
-- Extraction/Intake.antt is `submit_observations` with what it checks and takes in, and
-- Extraction/Windows.antt its loop that puts the observations in overlapping windows
-- (backend/services/pipeline/incremental.py, with the checks of extraction.py). What the transaction reads of
-- the capture, the investigation and its last report is an argument, and so is the job that
-- `enqueue_extraction` gives for a window. The comparisons of `pressure` are written without
-- the division: at the policies' bounds a quotient rounds to 0.75 or 0.5 only when it is that number.
--
-- Admission/Quotas.antt is backend/services/quotas.py, which charges a request to daily budgets before
-- its jobs are enqueued.
--
-- Contracts/Compat.antt is `check` of packages/contracts/compat.py, which compares two directories of
-- contracts; it stands apart from the backend. Contracts/Gate.antt says when it passes.
--
-- Tests and fixtures (Jobs/Tests.antt, Jobs/PolicyTests.antt, Asr/Tests.antt and so on) run the
-- definitions on concrete tables.
--
-- Numbers: ids and timestamps (microseconds) are natural numbers, and Python's integers are unbounded;
-- `bigint` columns are not bounded here, since a counter that grows by one per claim does not reach
-- 2^63. Each loop is structural recursion on a list,
-- except `plan_windows`, whose fuel is the number of pending observations: every round takes at least one.
--
-- Not modelled: the other stages' own work (media, the model calls of extraction, retrieval), capture sessions, the token
-- balances of backend/services/providers/budget.py, HTTP routes and schemas, logging, the migrations, the
-- Android client, and the reads `find_by_request_id` and `owned_leases`. Of the worker, the poll loop
-- and the forced shutdown are left out.
pub mod Prelude
pub mod Json
pub mod Pipeline
pub mod Jobs
pub mod Worker
pub mod Asr
pub mod Providers
pub mod Admission
pub mod Contracts
pub mod Evidence
pub mod Extraction
pub mod Reports
