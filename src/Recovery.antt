-- ===== src/Recovery.antt =====
-- `cleanup_expired_failed_artifacts` of src/pipeline/recovery.py: the retention of failed artifacts.
--
-- What the file system and the manifests answer is a parameter, `Spool`. The rows are locked while the
-- pass runs, so they are rewritten where they stand; no other transaction holds one of them.
pub mod Retention
use backup_telebot.Prelude.{
  ℕ, ◌+◌, ◌*◌, String, Bool, true, false, not, ◌&&◌, ◌||◌, leb, if◌then◌else◌, Option, none, some,
  is_none, is_some, get_or, List, [], ◌∷◌, ◌++◌,
}
use backup_telebot.Domain.{RunStatus, RunStage, status_eq}
use backup_telebot.Store.{Outcome, returns, raises, Run, Db, record_run_transition}

-- `validate_owned_directory` with whether the directory exists, and `remove_verified_retained_artifact`.
pub record Spool : Type 0 where
  pub owned : Run → Outcome Bool
  pub remove_verified : Run → Outcome (Unit {0})

abbrev pub is_reached : ℕ → Option ℕ → Bool
is_reached now none = true
is_reached now (some at) = leb at now

-- The rows that a pass reads.
abbrev pub is_retained : ℕ → Run → Bool
is_retained now r =
    status_eq r.status RunStatus.failed
    && (is_some r.pending_directory && is_reached now r.failed_artifact_cleanup_at)

-- What became of a row: the row, and whether its artifact was removed and its cleanup recorded.
pub record Kept : Type 0 where
  pub run : Run
  pub is_removed : Bool
  pub is_recorded : Bool

abbrev pub left_alone : Run → Kept
left_alone r = record { run = r; is_removed = false; is_recorded = false }

abbrev pub scheduled_cleanup : ℕ → Run → Kept
scheduled_cleanup at r = left_alone (record r { failed_artifact_cleanup_at = some at })

abbrev pub cleaned : ℕ → Bool → Run → Kept
cleaned now is_removed r = record {
  run = record r { pending_directory = none; failed_artifact_cleaned_at = some now };
  is_removed = is_removed;
  is_recorded = true;
}

abbrev after_removal : ℕ → ℕ → Run → Outcome (Unit {0}) → Kept
after_removal now retention r (raises e) = scheduled_cleanup (now + retention) r
after_removal now retention r (returns _) = cleaned now true r

abbrev after_check : Spool → ℕ → ℕ → Run → Outcome Bool → Kept
after_check spool now retention r (raises e) = scheduled_cleanup (now + retention) r
after_check spool now retention r (returns false) = cleaned now false r
after_check spool now retention r (returns true) =
    after_removal now retention r (spool.remove_verified r)

-- One round, for a row that the pass has read.
abbrev clean_run : Spool → ℕ → ℕ → Run → Option ℕ → Kept
clean_run spool now retention r none =
    scheduled_cleanup (get_or r.updated_at r.finished_at + retention) r
clean_run spool now retention r (some at) =
    if leb at now then after_check spool now retention r (spool.owned r) else left_alone r

unfoldable pub visit : Spool → ℕ → ℕ → Run → Kept
visit spool now retention r =
    if is_retained now r
    then clean_run spool now retention r r.failed_artifact_cleanup_at
    else left_alone r

pub record Pass : Type 0 where
  pub runs : List Run
  pub removed : List ℕ
  pub db : Db

abbrev pub recorded : Kept → Db → Db
recorded kept db =
    if kept.is_recorded
    then record_run_transition "backup_run_retention_cleanup" kept.run.id RunStatus.failed
        RunStage.complete none db
    else db

unfoldable pub visit_all : Spool → ℕ → ℕ → List Run → Db → Pass
visit_all spool now retention [] db = record { runs = []; removed = []; db = db }
visit_all spool now retention (r ∷ rest) db =
    let kept = visit spool now retention r in
    let others = visit_all spool now retention rest (recorded kept db) in
    record {
      runs = kept.run ∷ others.runs;
      removed = if kept.is_removed then r.id ∷ others.removed else others.removed;
      db = others.db;
    }

-- cleanup_expired_failed_artifacts
unfoldable pub cleanup_expired_failed_artifacts : Spool → ℕ → ℕ → Db → List ℕ × Db
cleanup_expired_failed_artifacts spool now retention db =
    let pass = visit_all spool now retention db.runs db in
    (pass.removed, record pass.db { runs = pass.runs })
