-- ===== src/Jobs/Retry.antt =====
-- `RunService.details`, `retry_failed`, `purge_failed_artifact` and `pending_bytes` of
-- src/pipeline/jobs.py.
--
-- `verdict` is the outcome of `verified_retained_artifact` on the run's spool directory: `none`, or
-- the error that it raises. `seen` is the database that the checks of `retry_failed` read, and `db`
-- the one that its update meets.
pub mod Valid
use backup_telebot.Prelude.{
  ℕ, ◌+◌, String, Bool, true, false, ◌&&◌, ◌||◌, not, Option, none, some, List, [], ◌∷◌, ◌==◌, leb,
  is_none, is_some, holds_text, if◌then◌else◌, find, any, all, count, keep, length, update,
}
use backup_telebot.Domain.{RunStatus, RunStage, DeliveryStatus, status_eq, is_failed, is_succeeded}
use backup_telebot.Store.{
  Error, not_found, permission_error, integrity_error, Outcome, returns, raises, User, Run,
  Delivery, Db, has_id, is_active, is_active_of, may_manage, record_event, retried, verified,
}
use backup_telebot.Jobs.Enqueue.{Request, EnqueueResult, active_for_profile, enqueue_manual}

pub record RetryResult : Type 0 where
  pub run : Run
  pub resumed_delivery : Bool

abbrev pub is_delivery_of : ℕ → Delivery → Bool
is_delivery_of run_id d = d.run_id == run_id

-- The partial unique index, as the table must meet it after a statement.
unfoldable pub index_holds : List Run → Bool
unfolding all
index_holds runs =
    all (λ r. not (is_active r) || leb (count (is_active_of r.profile_id) runs) 1) runs

abbrev is_path : Option String → Option String → Bool
is_path none _ = false
is_path (some p) column = holds_text column p

-- The WHERE clause of the resuming update, over the run that the checks have read.
abbrev pub is_unchanged : Run → Run → Bool
is_unchanged run r =
    has_id run.id r
    && (status_eq r.status RunStatus.failed
        && (is_none r.lease_owner && is_path run.pending_directory r.pending_directory))

abbrev pub resume : ℕ → Run → Run
resume now r = record r {
  status = RunStatus.delivery_pending;
  stage = RunStage.pending_delivery;
  finished_at = none;
  failed_artifact_cleanup_at = none;
  error_code = none;
  error_message = none;
  cancel_requested = false;
  updated_at = now;
}

abbrev pub reset_delivery : ℕ → Delivery → Delivery
reset_delivery now d = record d {
  status = DeliveryStatus.pending;
  attempts = 0;
  part_attempts = 0;
  next_attempt_at = some now;
  last_error = none;
}

-- The rows of `failed`, by their unique key.
abbrev is_one_of : List Delivery → Delivery → Bool
is_one_of rows d = any (λ (f : Delivery). (f.run_id == d.run_id) && (f.admin_id == d.admin_id)) rows

abbrev pub failed_of : ℕ → List Delivery → List Delivery
failed_of run_id = keep (λ d. is_delivery_of run_id d && is_failed d.status)

resume_delivery : User → Run → ℕ → List Delivery → Db → Outcome RetryResult × Db
resume_delivery actor run now failed db = elim (find (is_unchanged run) db.runs) [
  | none ↦ (raises (not_found "failed run changed before retry"), db)
  | some r ↦
      if not (index_holds (update (is_unchanged run) (resume now) db.runs))
      then (raises integrity_error, db)
      else (
        returns (record { run = resume now r; resumed_delivery = true }),
        record_event "backup_run_retry_requested" (some actor.id) "backup_run" run.id
            (retried (length failed))
            (record db {
              runs = update (is_unchanged run) (resume now) db.runs;
              deliveries = update (is_one_of failed) (reset_delivery now) db.deliveries;
            }),
      )
]

-- With no finalized artifact, a new run takes the place of the failed one.
recreated : Outcome EnqueueResult × Db → Outcome RetryResult × Db
recreated (raises e, db) = (raises e, db)
recreated (returns result, db) =
    if result.created
    then (returns (record { run = result.run; resumed_delivery = false }), db)
    else (raises (not_found "backup profile already has an active run"), db)

recreate : User → Request → Run → Db → Db → Outcome RetryResult × Db
recreate actor q run seen db =
    if any (λ d. is_delivery_of run.id d && is_succeeded d.status) seen.deliveries
    then (raises (not_found "failed run with successful deliveries cannot be recreated"), db)
    else recreated (enqueue_manual actor q run.profile_id seen db)

unfoldable pub retry_run : User → Request → Option Error → Run → Db → Db → Outcome RetryResult × Db
unfolding recreate recreated resume_delivery
retry_run actor q verdict run seen db =
    if not (status_eq run.status RunStatus.failed) || is_some run.lease_owner
    then (raises (not_found "terminal failed run is not retryable"), db)
    else if is_none run.pending_directory
    then recreate actor q run seen db
    else if is_none (find (λ d. is_delivery_of run.id d && is_failed d.status) seen.deliveries)
    then (raises (not_found "failed run has no retryable deliveries"), db)
    else elim verdict [
      | some e ↦ (raises e, db)
      | none ↦
          if is_some (active_for_profile run.profile_id seen.runs)
          then (raises (not_found "backup profile already has an active run"), db)
          else resume_delivery actor run q.now (failed_of run.id seen.deliveries) db
    ]

-- retry_failed
unfoldable pub retry_failed : User → Request → Option Error → ℕ → Db → Db → Outcome RetryResult × Db
retry_failed actor q verdict run_id seen db =
    if may_manage actor
    then elim (find (has_id run_id) seen.runs) [
      | none ↦ (raises (not_found "backup run not found"), db)
      | some run ↦ retry_run actor q verdict run seen db
    ]
    else (raises permission_error, db)

abbrev pub purge : ℕ → Run → Run
purge now r = record r { pending_directory = none; failed_artifact_cleaned_at = some now }

abbrev is_purgeable : Run → Bool
is_purgeable run =
    status_eq run.status RunStatus.failed
    && (is_none run.lease_owner && is_some run.pending_directory)

-- purge_failed_artifact; the removal of the directory has the verdict of its verification.
unfoldable pub purge_failed_artifact : User → Option Error → ℕ → ℕ → Db → Outcome (Unit {0}) × Db
purge_failed_artifact actor verdict run_id now db =
    if may_manage actor
    then elim (find (has_id run_id) db.runs) [
      | none ↦ (raises (not_found "backup run not found"), db)
      | some run ↦
          if is_purgeable run
          then elim verdict [
            | some e ↦ (raises e, db)
            | none ↦ (
              returns tt,
              record_event "failed_artifact_operator_purged" (some actor.id) "backup_run" run.id
                  verified (record db { runs = update (has_id run.id) (purge now) db.runs }),
            )
          ]
          else (raises (not_found "terminal failed run has no purgeable artifact"), db)
    ]
    else (raises permission_error, db)

-- pending_bytes: the bytes that the spool holds for undelivered runs.
unfoldable pub pending_bytes : List Run → ℕ
pending_bytes [] = 0
pending_bytes (r ∷ rest) =
    (if is_some r.pending_directory then elim r.final_size_bytes [ none ↦ 0 | some n ↦ n ] else 0)
    + pending_bytes rest
