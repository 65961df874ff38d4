-- ===== src/Jobs/Stages.antt =====
-- How a worker moves a run that it has claimed from stage to stage: what `PipelineRunner._build`, `_stage`,
-- `_persist_acquisition` and `_resume_finalized` of src/pipeline/worker.py and `DeliveryService.attempt` of
-- src/pipeline/delivery.py write to its row.
--
-- Most moves read the lease and the cancellation before they write (`_ownership_boundary`); the UPDATE that
-- follows is by the number of the run alone. A column that is assigned is written as it is, and the columns
-- of the source's metadata and its size have no place in the model.
pub mod Valid
use backup_telebot.Prelude.{
  ℕ, String, Bool, true, false, not, ◌&&◌, Option, none, some, get_or, find, update, holds_text,
  if◌then◌else◌,
}
use backup_telebot.Domain.{RunStatus, RunStage, status_eq}
use backup_telebot.Store.{
  Error, value_error, runtime_error, cancelled_error, Outcome, returns, raises, Run, Db, has_id,
  record_run_transition,
}
use backup_telebot.Fallible.{◌>>◌, require}

-- A finalized artifact, as its run records it.
pub record Artifact : Type 0 where
  pub directory : String
  pub filename : String
  pub size : ℕ
  pub sha256 : String

pub data Move : Type 0 where
  starts : ℕ → Move  -- the first lines of _build, up to the first _stage
  enters : RunStage → Move  -- _stage, and the stage of a delivery
  works_in : Option String → Move  -- the workspace is there, or removed
  acquires : Move  -- _persist_acquisition
  intends : String → String → Move  -- the directory and the file name, before they are made
  finalizes : Artifact → Move  -- the end of _build
  forgets : Move  -- _resume_finalized, where the directory is gone
  resumes : Artifact → Move  -- _resume_finalized, where it is recovered

-- The moves that check the lease and the cancellation.
abbrev pub is_checked : Move → Bool
is_checked (works_in _) = false
is_checked (intends _ _) = false
is_checked forgets = false
is_checked (resumes _) = false
is_checked _ = true

-- _ownership_boundary
abbrev pub ownership_boundary : String → Run → Outcome (Unit {0})
ownership_boundary owner r = do
  require (holds_text r.lease_owner owner) (runtime_error "run lease ownership lost")
  require (not r.cancel_requested) cancelled_error

abbrev pending_artifact : Artifact → Run → Run
pending_artifact a r = record r {
  status = RunStatus.delivery_pending;
  stage = RunStage.pending_delivery;
  final_filename = some a.filename;
  final_size_bytes = some a.size;
  final_sha256 = some a.sha256;
}

abbrev start_run : ℕ → Run → Run
start_run now r = record r {
  status = RunStatus.running;
  stage = RunStage.backup;
  started_at = some (get_or now r.started_at);
}

abbrev finalize_run : Artifact → Run → Run
finalize_run a r = record (pending_artifact a r) { pending_directory = some a.directory }

-- The row after a move.
unfoldable pub moved : Move → Run → Run
moved (starts now) r = start_run now r
moved (enters stage) r = record r { stage = stage }
moved (works_in path) r = record r { workspace_path = path }
moved acquires r = record r { stage = RunStage.verify_source }
moved (intends directory filename) r = record r {
  pending_directory = some directory;
  final_filename = some filename;
}
moved (finalizes a) r = finalize_run a r
moved forgets r = record r { pending_directory = none; final_filename = none }
moved (resumes a) r = pending_artifact a r

announce_start : RunStatus → Run → Db → Db
announce_start RunStatus.queued r =
    record_run_transition "backup_run_started" r.id RunStatus.running RunStage.backup none
announce_start _ r = λ db. db

announce_pending : Run → Db → Db
announce_pending r =
    record_run_transition "backup_run_delivery_pending" r.id RunStatus.delivery_pending
      RunStage.pending_delivery none

-- The transition that a move records, from the row that it has read.
unfoldable pub announced : Move → Run → Db → Db
unfolding announce_start announce_pending
announced (starts now) r db = announce_start r.status r db
announced (finalizes a) r db = announce_pending r db
announced (resumes a) r db =
    if status_eq r.status RunStatus.delivery_pending then db else announce_pending r db
announced _ r db = db

abbrev pub checked : String → Move → Run → Outcome (Unit {0})
checked owner m r = if is_checked m then ownership_boundary owner r else returns tt

abbrev pub written : ℕ → Move → Run → Db → Outcome (Unit {0}) → Outcome (Unit {0}) × Db
written run_id m r db (raises e) = (raises e, db)
written run_id m r db (returns _) =
    (returns tt, announced m r (record db { runs = update (has_id run_id) (moved m) db.runs }))

-- A move: it reads the row in `seen`, and its UPDATE meets `db`.
unfoldable pub move : String → ℕ → Move → Db → Db → Outcome (Unit {0}) × Db
unfolding announced
move owner run_id m seen db = elim (find (has_id run_id) seen.runs) [
  | none ↦ (raises (value_error "run disappeared"), db)
  | some r ↦ written run_id m r db (checked owner m r)
]

abbrev pub clear_delivered : Run → Run
clear_delivered r = record r { pending_directory = none; stage = RunStage.complete }

-- The last lines of `attempt`, once the delivered artifact is removed: `_finish` has ended the run.
unfoldable pub clear : ℕ → Db → Db
clear run_id db = record db { runs = update (has_id run_id) clear_delivered db.runs }
