-- ===== src/Lib.antt =====
-- Extrio collects public notices from sources on the web, under rules that a person has reviewed,
-- and delivers what it accepts to webhooks. This library models the parts of its backend
-- (backend/src/extrio) that decide: what may be spent, what may run, what is recorded and what is
-- sent.
--
-- The files and the code that they model:
--   Budget        model_budget.py: `TaskBudget` and its reservations. A method is a function from
--                 the budget to its outcome and the budget after it, so a refusal keeps what it
--                 wrote. Budget/Limits says when a call is let through; Budget/Accounts follows a
--                 task over any sequence of calls and settlements.
--   Recovery      bounded_recovery.py and coverage.py: the batch that continues a rate limited
--                 run. Values and Batch hold the data, `stop` and `cool`; Tick is one round of
--                 `tick`; Commands holds `start`, `request_stop`, `guard_source_work` and
--                 `validate_attempt`. Invariant, Rounds, Life, Halting and Starting hold the
--                 proofs.
--   Delivery      store.py and delivery.py: Tables are the rows, Store and Queue the transactions
--                 on them, Dispatch the `WebhookDispatcher`. Sinks the receivers of a source,
--                 Cycle the delivery cycle of worker.py. Finishing, History, Operations, Claiming,
--                 Branches, Outcomes, Requests, Replaced, Effects, Rounds, Served and Ends hold
--                 the proofs.
--   Activity      store.py, `advance_activity`: the phase history of a model run.
--   Audit         store.py, `_append_audit_event` and `verify_audit_chain`: the hash chain.
--   Jobs          store.py and job_control.py: the queue of jobs, its leases, cancelling and
--                 finishing.
--   Lifecycle     collector_lifecycle.py, collection_workflows.py, collector_history.py and the
--                 methods of store.py that they call: Tables are the rows, Store the methods,
--                 History, Plans, Changes and Moves what is computed before a command, Values and
--                 Commands the commands, Pause the pause after failures of worker.py. Rows,
--                 Effects, Writes, Steps, Parts, Commanded and Moved follow a command through the
--                 tables; Refines, Kept, Final, Stale, Returns and Reset hold the theorems.
--   Accounts      store.py: user accounts with the last administrator, and the login limit.
--   Security      security.py: the identity behind a login and the check of a source's address.
--   Collections   store.py: collections, their versions and the receipts of their commands. Tables
--                 are the rows, Store the operations and Commands the commands over them. Replay,
--                 Rows, Guards, Numbers and Invariant hold the proofs.
--   Fields        collection_fields.py: the draft of a collection's fields (with Texts for what
--                 Python does to texts), the contract of a version, Plan for the constraints on a
--                 proposed rule and Project for the fields that are read back from it. Valid,
--                 Types, Trip and Constrained hold the proofs.
--   Worker        worker.py: which items of a run are new, updated or unchanged (Values,
--                 Classify), and the deliveries that it enqueues (Deliveries, over Delivery).
--                 Unchanged, Counts and Sent hold the proofs.
--   Runtime       runtime.py and coverage.py: the traversal of the list pages of a source. Records
--                 reads the records of a page, Traverse is the loop over the pages; Bounded,
--                 Limits, Anchors, Orders, Seeking and Resumes hold the proofs. `asked` logs the
--                 requests for list pages; the code keeps no such list.
--   Schedules     store.py and app.py: the claiming of due schedules, and Dispatch of what is
--                 claimed. Again, Once and Dispatched hold the proofs.
--   Evidence      page_evidence.py: reading a page in fragments. Decimal is the text of a number;
--                 Cursors, Fragments and Reading hold the proofs.
--   Pages         workspace_pagination.py: numbered pages and the sources that need attention.
--   Base          the shared names: lists, Boolean tests, outcomes, integers over the native ℕ.
--
-- How the parts meet: a person drafts the fields of a collection and publishes a version of them
-- (Collections over Fields); a rule for a source is constrained to that version, after a model has
-- read the pages in fragments (Evidence) within a budget (Budget); a person archives, moves or
-- migrates a source (Lifecycle), which switches its schedule off or starts it over; a schedule or a
-- batch starts runs (Schedules, Recovery) as jobs (Jobs), which traverse the list pages (Runtime);
-- the items that a run accepts are compared with those before (Worker) and enqueued as deliveries
-- in the run's own transaction; the dispatcher claims deliveries, asks the store for the lease,
-- posts, and asks the store again when it writes the outcome; a run that fails may pause the
-- source's schedule (Lifecycle). Operations that change what a person sees append to the audit
-- trail.
--
-- Conventions. A transaction is a function on the tables that returns the new ones or an error, and
-- an error leaves the tables as they were. Instants are natural numbers, of milliseconds in
-- Activity and Jobs and of seconds elsewhere, also where the source keeps and compares them as ISO
-- texts of one form; an operation reads the clock once, as an argument, where the source may read
-- it twice within a transaction. An operation may fail on a missing row, and then returns `none` or
-- an error. Recursion is structural on lists, and in Runtime on the pages that are left of the
-- source's own bound; only the digits of a number and the reading of a node to its end are on fuel,
-- and a theorem says that the fuel is enough.
--
-- Parameters stand for what is not in the repository: SHA-256, HMAC, the JSON text of a value, the
-- digits of a number (in Delivery), the instants of a cron expression, fresh tokens and
-- identifiers, the receiver of a webhook, the order that the database gives to rows, the cipher of
-- stored credentials, the parsers of addresses and of forwarding headers, and in Runtime the
-- network. A few functions of the repository are parameters too: in Runtime what is read on a page
-- (`discover_records_from_spec`, the checks of public_pagination.py, the next page's address and
-- the readers of dates), in Recovery the digest `context`, in Budget the margin of the input
-- budget, a float computation, in Schedules `create_run_operation` of app.py, in Delivery which
-- sources `lock_collector` finds, and in Lifecycle the SQL that lists the runs of a source, newest
-- first.
--
-- Not modelled: the HTTP and MCP interfaces, the web frontend, the crawler and the HTML and
-- document libraries, the prompts, the loop of model calls and the model gateway, the SQL text and
-- the backfills, the file locks and the configuration, which are input and output or calls of
-- libraries; and of the modelled files, the reports that only read. In Delivery, the text of a
-- failed request leaves out the name of the exception; in Recovery, the receipts and the audit
-- events of the two commands are left out, and the check of a rule's attestation is a Boolean that
-- the seed carries; a redelivery is modelled without its audit event, and a sink without the read
-- of the key file; in Jobs, the enqueueing of a job is left out; in Accounts, the sessions; in
-- Collections, the listings and the locks of PostgreSQL; in Fields, what harvest.py does to a
-- constrained plan afterwards, such as the stripping of its labels; in Worker, the observations
-- that an item keeps; in Runtime, the details, the single page mode, the evidence files and the
-- reports of progress; in Schedules, the copy of a schedule that its source keeps; in Lifecycle,
-- `record_new_history` and the SQL text of the listings; in Evidence, the index of a page, which
-- libraries build, the ranges that were read, and the ancestors and table rows beside a fragment.
pub mod Base
pub mod Budget
pub mod Recovery
pub mod Delivery
pub mod Activity
pub mod Audit
pub mod Jobs
pub mod Lifecycle
pub mod Runtime
pub mod Accounts
pub mod Security
pub mod Pages
pub mod Fields
pub mod Collections
pub mod Schedules
pub mod Worker
pub mod Evidence
