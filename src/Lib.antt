-- ===== src/Lib.antt =====
-- ShareSentinel: what the services do with sharing links, verdicts and their own health.
--
-- ShareSentinel watches the sharing links of a Microsoft 365 tenant. An audit poller finds sharing
-- events; the worker classifies each shared file, asks a model whether it is sensitive, records a
-- verdict and alerts an analyst; an analyst may order a remediation, which removes the links
-- through Graph. A shared folder is taken file by file, and looked through again later for files
-- that are new or changed. The lifecycle-cron service removes every link after a period and warns
-- its owner before; the watchdog restarts that service when its loops stop.
--
-- The files, and the code they model:
--
-- Prelude: the names of the library that the others use, with tests on native numbers and lists;
--   Prelude/Lists, Prelude/Text and Prelude/Int hold lemmas on lists, functions on text (lower,
--   prefixes) and integers over the native numbers.
-- Graph: permission objects, as services/worker/app/lifecycle/enrollment.py and
--   services/worker/app/remediation/executor.py read them: a field is missing, null or set.
-- Lifecycle: the table sharing_link_lifecycle. Row is a row with its status and milestone columns,
--   Processor is the pass of services/lifecycle-cron/app/processor.py
--   (process_lifecycle_milestones, _process_notification, _process_removal, _mark_milestone,
--   _fetch_due_rows) with remove_sharing_permission of graph_api.py, Enrollment is
--   services/worker/app/lifecycle/enrollment.py. Table, Calls, Removal, Expiry, Rowwise and
--   Enrolled hold the proofs.
-- Pipeline: Retry is services/worker/app/pipeline/retry.py, SecondLook is second_look.py there,
--   Hashes is FileHashRepository of services/worker/app/database/repositories.py, Record is
--   _record_and_notify of orchestrator.py and the reuse of a hash in _process_single_file. Backoff,
--   Verdict and Notified hold the proofs.
-- Remediation: World is the database and Graph as the executor sees them, Remove and Execute are
--   services/worker/app/remediation/executor.py, Poller is one turn of poller.py there. Closing,
--   Settled and Counts hold the proofs.
-- Escalation: Tier and Overrides are compute_escalation_tier, should_escalate and
--   apply_escalation_overrides of services/worker/app/ai/base_provider.py. Members, Monotone and
--   Sustain hold the proofs.
-- Watchdog: Checker is services/watchdog/app/checker.py, Keys, State and Cycle are
--   check_and_remediate, check_system_and_alert and the loop of services/watchdog/app/main.py.
--   Found, Restarts, Alerts, Recovery and Streak hold the proofs.
-- Worker: Sharing is services/worker/app/graph_api/sharing.py, Events the repository of events in
--   services/worker/app/database/repositories.py, Analysis, Item and File are _process_single_file
--   of services/worker/app/pipeline/orchestrator.py with the choice of the mode and
--   _run_ai_analysis, Job is process_job and _requeue_event there, Startup is the start of
--   services/worker/app/main.py: the reclaim of jobs in flight and the two recovery sweeps. Gate,
--   Rows, Steps, Frame, Ended, Finished, Retries, Duplicate, Swept and Reclaimed hold the proofs.
-- Folder: Items is create_child_event and update_folder_progress of
--   services/worker/app/database/repositories.py, Children, Share and Snapshots are
--   _handle_folder_share of services/worker/app/pipeline/orchestrator.py, with the loop over the
--   files of a folder, the verdict on it and _store_folder_content_snapshot; Rescan and Cycle are
--   services/lifecycle-cron/app/folder_rescan.py (run_folder_rescan, _find_due_folders,
--   _rescan_folder, _update_snapshot, _update_rescan_state). Tracks, Counts, Enumerated, Completed,
--   Quiet, Closed, Rerun and Parent hold the proofs on shares, Recorded, Again, Unchanged, Shared,
--   Enqueued and Stamped those on rescans.
-- Audit: Query, Window and Chunks are services/lifecycle-cron/app/audit_poller.py: the queries in
--   flight and the wait for one (_get_or_create_query, _record_query_timeout,
--   _wait_for_query_completion), a window (_poll_window) with the keys of its deduplication, and
--   the windows of a gap with the reconciliation (_poll_chunked, _maybe_reconcile, poll). Waited,
--   Covered, Delivered, Frame, Stuck and Resumed hold the proofs.
--
-- The parts meet in tables. A delivery of a job claims an event, and ends in the verdict of
-- Pipeline/Record, which File calls; its sharing gate reads the permissions of Graph. The worker
-- enrolls links in the table that the processor reads; the tier of Escalation decides the alert and
-- the verdict in Pipeline/Record; the executor and the processor remove permissions that Graph
-- lists. The loop over a folder runs the steps of File on each of its files; the snapshots that it
-- leaves are those that a rescan compares the folder with.
--
-- State is a record that each operation takes and returns. What a service outside the repository
-- answers (Graph, Teams, Docker, the mail server, a model) is a field of an environment that the
-- operation takes: an answer, a failure, or a function from the call to one of them. Exceptions are
-- values. A pass or a poll is one call; sequences of them are lists of environments, so that the
-- theorems hold for whatever the services answer. Loops go over lists, and the retry over its
-- attempts; two loops run on fuel: the wait for an audit query, with 181 steps, since it adds 10
-- seconds for each request until 1800, and the windows of a gap, with one step more than the gap
-- has seconds, since each window moves the start by a second at least.
--
-- Bounds and assumptions. Times are seconds, or the days of the milestones times 86400, as native
-- numbers; ages are compared as sums, since a stamp may lie ahead of the clock. A pass, a delivery
-- and a start of the worker read the clock as their environment says, most of them once. The times
-- of an audit window are clear of the epoch, and the poll state has its row, which a migration
-- inserts. The digests that make the ids of events are parameters. Redis and PostgreSQL are taken
-- to answer, except for the queries whose failure the code handles by itself and which the model
-- lets fail. Text is compared after lower case on ASCII letters. Two operations on one table do not
-- interleave; deliveries of one job follow one another, as the statuses queued and processing are
-- meant to ensure.
--
-- Not modelled: calls over HTTP and their tokens, texts of mails and alerts, extraction of text,
-- prompts and parsing of answers, the scanners of sites, the dashboard, and the scripts; of
-- folders, the texts of the summaries, the call of the enrollment and the row of
-- folder_rescan_state that the worker writes. They carry no state of the parts above, or call
-- libraries for all they do.
pub mod Prelude
pub mod Graph
pub mod Lifecycle
pub mod Pipeline
pub mod Remediation
pub mod Escalation
pub mod Watchdog
pub mod Worker
pub mod Folder
pub mod Audit
