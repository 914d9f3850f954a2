-- ===== src/Lib.antt =====
-- A verification library for rhi, a service that reconciles trades and publishes attestations of
-- them. It models the durable queue of reconciliation jobs, the plan of an attempt, the replay of
-- its sources, the persistence of their evidence and the commit of their results, the decisions
-- of the publication worker with two of its transactions, the evaluation of agreement claims, and
-- the jitter of retry delays.
--
-- How the parts work together. A trade that has become dirty is scheduled as a job. A worker claims
-- the job under a lease, which is a compare-and-swap on one row of the table `reconciliation_jobs`,
-- renews the lease, and either completes the job or records a failure, after which the job is ready
-- again within a retry bound, or exhausted. The claim gives the attempt's plan, one request for each
-- configured source, and the attempt collects one result for each request, from a
-- replay of the source that resumes before the last committed cursor. A commit stores the evidence and
-- the results in one transaction, advances the checkpoints of complete sources, and makes the trade
-- dirty again if it stored new evidence. The attempt ends in a projection,
-- on which each agreement claim is evaluated, and in an attestation, whose publication has one target
-- for each relay; the outcome of an attempt at a target decides when the target is due again, and all
-- targets together decide what becomes of the publication. Every retry delay is a full-jitter sample.
--
-- Base has the helpers that all parts share: tests and lists over the native numbers, results, bytes.
--
-- Jobs is src/reconciliation_job.rs with the table of src/state_catalog.rs:
--   Types has the records, errors and limits; Schema the CHECK constraints, the unique index and the
--   update trigger; Store the two tables and what an UPDATE and an INSERT do to them; Decode the
--   readers of rows; Statements the condition and the write of each SQL statement; Operations the
--   transactions `schedule`, `claim_next`, `renew` and `record_failure`; Repository the public methods;
--   Fence `validate_exact_lease`.
--   Valid says when rows and tables are well formed; Tables, Rows, Target, Swap, History and Choice
--   have the lemmas on updates, schema, compare-and-swap, succession and ORDER BY; Renewal, Failure,
--   Claim, Leases, Active, Supersession, Schedule, Again, Order, Drain, Atomic and Backoff the theorems.
--   Complete is COMPLETE_JOB_SQL of src/reconciliation_finalization_commit.rs, the one other statement
--   on the table. Steps has a committed transaction as a step between tables, and Runs what any number
--   of steps keeps.
-- Outbox is src/publication_execution.rs with the states and outcomes of
--   src/publication_attempt.rs: Decisions has what reads no table: `validate_targets`,
--   `disposition`, `target_outcome_schedule`, `retry_upper_bound` and the checks beside them.
--   Store has the three tables of src/state_catalog.rs with their constraints, Reads the readers,
--   Statements the lease, the statements and the comparisons of an attempt, Claim and Record the
--   transactions `claim_next` and `record_outcome`. Backoff, Progress and Disposition have the
--   theorems on decisions; Updates, Written, Repeat, Repeated, Recorded and Twice lead to the one
--   on `record_outcome`, Claimed has the one on `claim_next`.
-- Attempt is src/reconciliation_attempt.rs: Types the records, Identity the hashed identities, Plan
--   `from_claim` with the loop over the configured sources, Results `RhiReconciliationSourceResult::new`
--   and `RhiReconciliationAttemptResults::new`; Bounds, Claim and Inventory have the theorems.
-- Replay is src/reconciliation_replay.rs with `PersistenceRecord` of src/state_trade.rs: Types the
--   records, Plan `from_request`, Canonical and Loop `canonicalize` with its sort, its comparisons and
--   its two maps, and the same loop without maps, Finish `finish` and `ingest_bounded_facts`, Commit the
--   eligible cursor and the parts that are committed. Refine, Same, Sorting, Keeping, Marks, Cases, Seen
--   and Accepts lead to the theorems on `canonicalize`; Ingest, Advance and Fits have the others.
-- Trade is src/state_trade.rs and src/source_ingest.rs with the tables of evidence, checkpoints
--   and dirty generations of src/state_catalog.rs: Types the rows, checks, guards and records,
--   Persist `persist` with its statements, Checkpoints the fenced reads and writes of checkpoints
--   and generations, Ingest `commit_source_result`. Stored, Kept, Found and Again have what
--   persisting keeps; Cursors, Written, Fenced, Trades and Generations what the fenced writes
--   leave; Grown, Settled, Outcome and Committed the theorem on a whole commit.
-- Commit is `commit` of src/reconciliation_commit.rs: Types the two tables and the errors, Rows
--   the rows that are written and matched, Existing `reconcile_existing`, Operation the
--   transaction, which uses Jobs for the lease, Replay for the parts and Trade for the evidence.
--   Same, Reached, Parts, Stored, Checked and New lead to the theorems in Again.
-- Evaluation is `evaluate_rhi_reconciliation_claim` and `classify_evaluation` of
--   src/reconciliation_reducer.rs.
-- Jitter is `sample_full_jitter` of src/runtime_adapters.rs, with the clock in milliseconds.
--
-- Conventions. A number of the source is a native number, with its bounds as tests where the source
-- tests them: `checked_add` is `checked`, saturation is a `min`. A digest, an id or an owner of fixed
-- length is the number of its bytes. A table is a list of rows. A transaction is a function from the
-- tables to a result, and an error carries no tables, since the transaction is rolled back. SHA-256 is
-- a parameter, and no theorem asks it to be free of collisions. The transaction runner of the state
-- host is a parameter with four laws: a returned value was computed and committed, an error that is
-- reported as the operation's is the one that it returned, a failure rolls back, an unknown outcome
-- is one of the two. The entropy source is a parameter.
--
-- Bounds. The only loop with a limit of its own is the sixteen draws of Jitter, which the source has.
-- A well-formed table has room for a number of further revisions below the greatest signed 64-bit
-- number, which is how the theorems say that the revision column does not overflow.
--
-- Not modelled: the text of errors, the parsing of configuration and arguments, the SQLite engine
-- beyond the statements above, the fetch of pages from a relay, the other transactions of
-- publication and the outputs of finalization, and the processes and listeners around them.
pub mod Base
pub mod Jobs
pub mod Outbox
pub mod Replay
pub mod Trade
pub mod Commit
pub mod Attempt
pub mod Evaluation
pub mod Jitter
