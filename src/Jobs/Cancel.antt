-- ===== src/Jobs/Cancel.antt =====
-- `RunService.request_cancel` and `finalize_cancel_requested` of src/pipeline/jobs.py.
pub mod Valid
use backup_telebot.Prelude.{
  ℕ, String, Bool, true, ◌&&◌, Option, none, some, is_none, holds_text, if◌then◌else◌, find, any,
  update,
}
use backup_telebot.Domain.{RunStatus, RunStage, status_eq}
use backup_telebot.Store.{
  not_found, permission_error, Outcome, returns, raises, User, Run, Db, has_id, is_active,
  may_manage, record_run_transition,
}

abbrev pub is_active_with_id : ℕ → Run → Bool
is_active_with_id run_id r = has_id run_id r && is_active r

abbrev pub ask_cancel : ℕ → Run → Run
ask_cancel now r = record r { cancel_requested = true; updated_at = now }

-- A queued run that nobody holds is cancelled on the spot.
abbrev pub is_unstarted : ℕ → Run → Bool
is_unstarted run_id r =
    has_id run_id r
    && (status_eq r.status RunStatus.queued && (r.cancel_requested && is_none r.lease_owner))

abbrev pub cancel_unstarted : ℕ → Run → Run
cancel_unstarted now r = record r {
  status = RunStatus.cancelled;
  stage = RunStage.complete;
  finished_at = some now;
  lease_expires_at = none;
  error_code = some "CANCELLED";
  error_message = some "run cancelled before execution";
  updated_at = now;
}

cancel_if_unstarted : ℕ → ℕ → Db → Db
cancel_if_unstarted run_id now db =
    if any (is_unstarted run_id) db.runs
    then record_run_transition "backup_run_cancelled" run_id RunStatus.cancelled RunStage.complete
        (some "CANCELLED")
        (record db { runs = update (is_unstarted run_id) (cancel_unstarted now) db.runs })
    else db

-- request_cancel
unfoldable pub request_cancel : User → ℕ → ℕ → Db → Outcome (Unit {0}) × Db
unfolding cancel_if_unstarted
request_cancel actor run_id now db =
    if may_manage actor
    then if any (is_active_with_id run_id) db.runs
      then (
        returns tt,
        cancel_if_unstarted run_id now
            (record db { runs = update (is_active_with_id run_id) (ask_cancel now) db.runs }),
      )
      else (raises (not_found "active run not found"), db)
    else (raises permission_error, db)

pub record CancellationCleanup : Type 0 where
  pub run_id : ℕ
  pub run_uuid : String
  pub workspace_path : Option String
  pub pending_directory : Option String

abbrev pub is_cancelling : ℕ → String → Run → Bool
is_cancelling run_id owner r =
    has_id run_id r && (is_active r && (r.cancel_requested && holds_text r.lease_owner owner))

abbrev pub finish_cancelled : ℕ → Run → Run
finish_cancelled now r = record r {
  status = RunStatus.cancelled;
  stage = RunStage.complete;
  finished_at = some now;
  lease_owner = none;
  lease_expires_at = none;
  error_code = some "CANCELLED";
  error_message = some "run cancelled";
  updated_at = now;
}

cleanup_of : Run → CancellationCleanup
cleanup_of r = record {
  run_id = r.id;
  run_uuid = r.uuid;
  workspace_path = r.workspace_path;
  pending_directory = r.pending_directory;
}

-- finalize_cancel_requested
unfoldable pub finalize_cancel_requested : ℕ → String → ℕ → Db → Option CancellationCleanup × Db
unfolding cleanup_of
finalize_cancel_requested run_id owner now db = elim (find (is_cancelling run_id owner) db.runs) [
  | none ↦ (none, db)
  | some r ↦ (
    some (cleanup_of r),
    record_run_transition "backup_run_cancelled" r.id RunStatus.cancelled RunStage.complete
        (some "CANCELLED")
        (record db { runs = update (is_cancelling run_id owner) (finish_cancelled now) db.runs }),
  )
]
