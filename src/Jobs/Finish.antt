-- ===== src/Jobs/Finish.antt =====
-- How a worker ends a run that it holds: `PipelineRunner._fail` of src/pipeline/worker.py and
-- `DeliveryService._finish` of src/pipeline/delivery.py.
pub mod Valid
use backup_telebot.Prelude.{
  ℕ, ◌+◌, String, Bool, ◌&&◌, ◌||◌, not, Option, none, some, str_eq, is_none, is_some, holds_text,
  if◌then◌else◌, find, any, update,
}
use backup_telebot.Domain.{RunStatus, RunStage, status_eq, status_in}
use backup_telebot.Store.{
  Error, runtime_error, cancelled_error, Outcome, returns, raises, Run, Db, has_id, active_statuses,
  take_text, record_run_transition,
}
use backup_telebot.Jobs.Lease.{seconds, drop_lease}

-- The codes after which a finalized artifact can never be delivered.
unfoldable pub is_fatal_code : String → Bool
is_fatal_code code =
    str_eq code "PENDING_ARTIFACT_MISSING"
    || (str_eq code "PENDING_CHECKSUM_MISMATCH"
        || (str_eq code "UPLOAD_LIMIT"
            || (str_eq code "INVALID_MANIFEST" || str_eq code "INVALID_PENDING_PATH")))

abbrev end_run : RunStatus → ℕ → Run → Run
end_run status now r = record r {
  status = status;
  stage = RunStage.complete;
  finished_at = some now;
}

-- The status after a failure: a run that waits for delivery keeps waiting, unless its artifact is
-- lost; any other ends, and its workspace has been removed.
unfoldable pub after_failure : RunStatus → String → ℕ → Run → Run
after_failure status code now r =
    if status_eq r.status RunStatus.delivery_pending
    then drop_lease (if is_fatal_code code then end_run RunStatus.failed now r else r)
    else drop_lease (end_run status now (record r { workspace_path = none }))

abbrev noted : String → String → Run → Run
noted code message r = record r { error_code = some code; error_message = some message }

abbrev retained : ℕ → ℕ → Run → Run
retained retention now r =
    if status_eq r.status RunStatus.failed && is_some r.pending_directory
    then record r { failed_artifact_cleanup_at = some (now + seconds retention) }
    else r

-- The row that `_fail` means to write, from the row that it has read.
unfoldable pub failed_run : RunStatus → String → String → ℕ → ℕ → Run → Run
unfolding after_failure take_text
failed_run status code message retention now r = retained retention now (
    noted (take_text 64 code) (take_text 2000 message)
      (after_failure status (take_text 64 code) now r))

-- `_fail` acts only on an active run that its worker holds.
abbrev pub is_failable : String → Run → Bool
is_failable owner r = status_in active_statuses r.status && holds_text r.lease_owner owner

same_text : Option String → Option String → Bool
same_text none column = is_none column
same_text (some t) column = holds_text column t

-- A text column that is assigned: it is written only where the value differs from the one read.
assigned : Option String → Option String → Option String → Option String
unfolding same_text
assigned read value current = if same_text read value then current else value

-- The UPDATE of the row by its number: the columns that `_fail` has assigned, over the row as it stands by
-- then. A status that stays is not written, nor the stage and the end, which go with it. The lease and the
-- instants always differ from those that were read.
unfoldable pub write_failure : Run → Run → Run → Run
unfolding assigned
write_failure read new r =
    let stays = status_eq read.status new.status in
    record r {
      status = if stays then r.status else new.status;
      stage = if stays then r.stage else new.stage;
      finished_at = if stays then r.finished_at else new.finished_at;
      lease_owner = none;
      lease_expires_at = none;
      workspace_path = assigned read.workspace_path new.workspace_path r.workspace_path;
      error_code = assigned read.error_code new.error_code r.error_code;
      error_message = assigned read.error_message new.error_message r.error_message;
      failed_artifact_cleanup_at =
          if status_eq new.status RunStatus.failed && is_some read.pending_directory
          then new.failed_artifact_cleanup_at
          else r.failed_artifact_cleanup_at;
    }

announce_failure : Run → Db → Db
announce_failure r db =
    if status_eq r.status RunStatus.failed
    then record_run_transition "backup_run_failed" r.id RunStatus.failed RunStage.complete
        r.error_code db
    else db

-- _fail: it reads the row in `seen` and removes the workspace; the UPDATE then meets `db`, without a look
-- at the lease.
unfoldable pub fail : String → ℕ → RunStatus → String → String → ℕ → ℕ → Db → Db → Db
unfolding announce_failure
fail owner run_id status code message retention now seen db =
    elim (find (has_id run_id) seen.runs) [
      | none ↦ db
      | some r ↦
          if is_failable owner r
          then announce_failure (failed_run status code message retention now r) (record db {
            runs =
                update (has_id run_id)
                  (write_failure r (failed_run status code message retention now r)) db.runs;
          })
          else db
    ]

-- Deliveries that wait: the lock that the last `_cancel_boundary` of `attempt` takes on the row is kept
-- until the row is written.
abbrev pub wait_for_retry : Run → Run
wait_for_retry r = record r {
  status = RunStatus.delivery_pending;
  stage = RunStage.pending_delivery;
  lease_owner = none;
  lease_expires_at = none;
}

abbrev pub is_waiting : ℕ → String → Run → Bool
is_waiting run_id owner r =
    has_id run_id r && (holds_text r.lease_owner owner && not r.cancel_requested)

unfoldable pub wait : ℕ → String → Db → Db
wait run_id owner db = record db { runs = update (is_waiting run_id owner) wait_for_retry db.runs }

abbrev is_owner : Option String → Option String → Bool
is_owner none column = is_none column
is_owner (some o) column = holds_text column o

-- The WHERE clause of `_finish`, over the owner that the session last read.
abbrev pub is_finishable : ℕ → Option String → Run → Bool
is_finishable run_id owner r =
    has_id run_id r
    && (status_eq r.status RunStatus.delivery_pending
        && (not r.cancel_requested && is_owner owner r.lease_owner))

abbrev finished_stage : RunStatus → RunStage
finished_stage RunStatus.failed = RunStage.complete
finished_stage _ = RunStage.cleanup

abbrev cleanup_time : RunStatus → ℕ → ℕ → Option ℕ
cleanup_time RunStatus.failed retention now = some (now + seconds retention)
cleanup_time _ retention now = none

abbrev stop_message : Option String → Option String
stop_message none = none
stop_message (some code) = some "automatic Telegram delivery stopped; operator action required"

abbrev pub finished_run : RunStatus → Option String → ℕ → ℕ → Run → Run
finished_run status error_code retention now r = record r {
  status = status;
  stage = finished_stage status;
  finished_at = some now;
  lease_owner = none;
  lease_expires_at = none;
  error_code = error_code;
  error_message = stop_message error_code;
  failed_artifact_cleanup_at = cleanup_time status retention now;
  updated_at = now;
}

finish_event : RunStatus → String
finish_event RunStatus.failed = "backup_run_failed"
finish_event _ = "backup_run_succeeded"

-- `_cancel_boundary` after the lost update, then `RuntimeError`: a cancelled run that is still held
-- raises CancelledError.
lost_update : ℕ → Option String → Db → Error
lost_update run_id owner db = elim (find (has_id run_id) db.runs) [
  | none ↦ runtime_error "run lease ownership lost"
  | some r ↦
      if is_owner owner r.lease_owner && r.cancel_requested
      then cancelled_error
      else runtime_error "run lease ownership lost"
]

-- _finish
unfoldable pub finish :
    ℕ → Option String → RunStatus → Option String → ℕ → ℕ → Db → Outcome (Unit {0}) × Db
unfolding finish_event lost_update
finish run_id owner status error_code retention now db =
    if any (is_finishable run_id owner) db.runs
    then (
      returns tt,
      record_run_transition (finish_event status) run_id status (finished_stage status) error_code
          (record db {
            runs =
                update (is_finishable run_id owner) (finished_run status error_code retention now)
                  db.runs;
          }),
    )
    else (raises (lost_update run_id owner db), db)
