-- ===== src/Lib.antt =====
-- backup-telebot: a Telegram bot that runs scheduled and manual backups. Runs stand in a control
-- database; the scheduler and the operators queue them (src/pipeline/jobs.py), workers claim them
-- by leases (src/bootstrap/worker.py, src/pipeline/worker.py), build an artifact, and deliver its
-- parts to the recipients over Telegram (src/pipeline/delivery.py). The bot keeps conversations,
-- secrets, buttons and request counts in memory (src/presentation/telegram/runtime).
--
-- Files:
-- - Prelude: tests on numbers and texts, lists as tables of rows.
-- - Domain: src/domain/enums.py.
-- - Store: the rows of src/database/models, the audit trail, the errors. Store/Integrity: the
--   validity of the run table.
-- - Jobs/Enqueue, Jobs/Lease, Jobs/Cancel, Jobs/Retry: RunService of src/pipeline/jobs.py, one
--   function per method. Jobs/Finish: PipelineRunner._fail of src/pipeline/worker.py and
--   DeliveryService._finish of src/pipeline/delivery.py. Jobs/Stages: what the stages of a worker write to
--   the run row. Jobs/Calls: sequences of these operations by
--   any number of workers. Jobs/Held: a run under a lease.
-- - Delivery/Backoff, Failure, Session, Recipient, Round: DeliveryService of src/pipeline/delivery.py
--   and src/infrastructure/telegram/errors.py. Session is the state and its effects, Recipient the
--   body of the loop over the recipients, Round the rows, the loop and the verdict.
-- - Runtime/State, Secrets, Conversations: src/presentation/telegram/runtime/fsm.py;
--   Runtime/Callbacks and Runtime/RateLimit: callbacks.py and rate_limit.py beside it.
-- - Accounts/Tables, Service, Calls: AdminService of src/application/admin_service.py, with the
--   repositories that it calls.
-- - Fallible: sequences of steps that may raise.
-- - Schedule/Civil, Next: next_scheduled_time of src/application/scheduling.py, over local dates and
--   times. Schedule/Tick: Scheduler.tick of src/pipeline/schedule.py.
-- - Paths/Text, Mapper: validate_absolute_path and LocalSourcePathMapper of
--   src/application/profile_config.py.
-- - Profiles/Timing: ScheduleConfig of src/application/profile_config.py, and the columns that
--   src/application/backup_service.py writes from it. Profiles/Compression: CompressionConfig.
-- - Recovery: cleanup_expired_failed_artifacts of src/pipeline/recovery.py, with the file system and the
--   verified removal as a parameter.
-- - Artifacts/Files, Split, Json, Verify, Finalize, Recover: src/pipeline/finalize.py. Files has the bytes, the
--   directory and the names of parts, Json the documents that are read back.
-- - Tests: concrete runs, rounds, stores, accounts, schedules, paths, artifacts and profiles.
--
-- How the code is modelled. An operation takes the database that its transaction reads and returns
-- its outcome, a value or an exception, with the database that it leaves committed. Queueing a run
-- takes two databases, the one that its checks read and the one that its insertion meets, since
-- another transaction may commit in between. A claim is one step, over the
-- rows that no other transaction has locked. A worker's failure and its moves between stages take the
-- database that they have read and the one that their UPDATE meets. A delivery round is a function on a
-- session; the clock, the run row as other transactions leave it, the answers of Telegram and the
-- random source are given by a World, indexed by the number of effects. The stores of the bot run
-- under a lock, so each method is one step; instants are natural numbers. The loops are
-- recursions on lists, but for the one that reads a part in chunks: it has one unit of fuel more than
-- the bytes that are left, and each round reads one byte at least.
--
-- Not modelled: the acquisition of the data, compression and encryption, the texts and handlers of
-- the bot, settings and start-up. The cipher, the digest, the reader and the writer of JSON, the
-- contents of a configuration snapshot and the verification of a retained artifact are parameters or
-- left out; the time zone and the reader of cron expressions are a parameter, Zone, and what is
-- relied on is IsZone; the decimal digits are a parameter, Reader; `Path.resolve` and the texts of
-- captions are parameters. The logs are left out.
pub mod Prelude
pub mod Domain
pub mod Store
pub mod Fallible
pub mod Jobs
pub mod Delivery
pub mod Runtime
pub mod Accounts
pub mod Schedule
pub mod Paths
pub mod Profiles
pub mod Artifacts
pub mod Recovery
pub mod Tests
