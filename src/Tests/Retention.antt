-- ===== src/Tests/Retention.antt =====
-- A failed run whose artifact has been kept long enough (src/pipeline/recovery.py).
use backup_telebot.Prelude.{◌≡◌, refl, true, none, some, [], ◌∷◌, All}
use backup_telebot.Domain.{RunTrigger, RunStatus, RunStage}
use backup_telebot.Store.{Run, Db, returns}
use backup_telebot.Jobs.Enqueue.{Request, queued_run}
use backup_telebot.Recovery.{visit, visit_all, Spool, cleanup_expired_failed_artifacts}
use backup_telebot.Recovery.Retention.{
  AreKept, is_expired_id, cleanup_expired_failed_artifacts-kept,
}

abbrev request : Request
request = record { now = 60; uuid = "run-a"; skip_uuid = "skip-a"; snapshot = "{}" }

abbrev failed : Run
failed = record (queued_run request 7 RunTrigger.manual none 1) {
  status = RunStatus.failed;
  stage = RunStage.complete;
  finished_at = some 70;
  pending_directory = some "/pending/site/run-a";
  failed_artifact_cleanup_at = some 100;
}

abbrev db : Db
db = record { next_id = 2; runs = failed ∷ []; profiles = []; deliveries = []; audit = [] }

abbrev spool : Spool
spool = record { owned = λ r. returns true; remove_verified = λ r. returns tt }

removes : (cleanup_expired_failed_artifacts spool 200 50 db).0 ≡ 1 ∷ []
unfolding cleanup_expired_failed_artifacts visit_all visit
removes = refl

cleanup_expired_failed_artifacts-kept_example :
    AreKept 200 (failed ∷ []) (cleanup_expired_failed_artifacts spool 200 50 db).1.runs
    × All
        (λ i. is_expired_id 200 (failed ∷ []) i ≡ true)
        (cleanup_expired_failed_artifacts spool 200 50 db).0
cleanup_expired_failed_artifacts-kept_example =
    cleanup_expired_failed_artifacts-kept spool 200 50 db
