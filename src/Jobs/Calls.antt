-- ===== src/Jobs/Calls.antt =====
-- The operations of the queue as calls, each one transaction of the control database, made in any
-- order by the bot, the scheduler and any number of workers (src/pipeline/jobs.py,
-- src/pipeline/worker.py, src/pipeline/delivery.py, src/bootstrap/worker.py). `release` is not among
-- them: only tests call it; nor is what keeps to the paths and the retention of a run that has ended, and the
-- recovery at start-up. A worker that fails a run, or moves it on, has read its row in an earlier
-- statement, as `seen` shows it.
pub mod Valid
pub mod Exclusive
use backup_telebot.Prelude.{ℕ, String, Bool, true, false, Option, none, some, List, [], ◌∷◌}
use backup_telebot.Domain.{RunStatus}
use backup_telebot.Store.{Error, User, Db}
use backup_telebot.Jobs.Enqueue.{Request, enqueue_manual, enqueue_scheduled}
use backup_telebot.Jobs.Lease.{claim, claim_cancel_requested, renew}
use backup_telebot.Jobs.Cancel.{request_cancel, finalize_cancel_requested}
use backup_telebot.Jobs.Retry.{retry_failed, purge_failed_artifact}
use backup_telebot.Jobs.Finish.{fail, finish, wait}
use backup_telebot.Jobs.Stages.{Move, move, clear}

-- The statuses that a worker claims: new work only while the spool has capacity.
abbrev pub worker_statuses : Bool → List RunStatus
worker_statuses true = RunStatus.delivery_pending ∷ RunStatus.queued ∷ RunStatus.running ∷ []
worker_statuses false = RunStatus.delivery_pending ∷ []

-- How a delivery round ends its run: `_finish` is called with these statuses and codes.
pub data Ending : Type 0 where
  all_delivered action_required : Ending

abbrev pub ending_status : Ending → RunStatus
ending_status all_delivered = RunStatus.succeeded
ending_status action_required = RunStatus.failed

abbrev ending_code : Ending → Option String
ending_code all_delivered = none
ending_code action_required = some "DELIVERY_ACTION_REQUIRED"

pub data Call : Type 0 where
  ask_manual : User → Request → ℕ → Db → Call
  ask_scheduled : Request → ℕ → ℕ → Db → Call
  ask_cancel : User → ℕ → ℕ → Call
  ask_retry : User → Request → Option Error → ℕ → Db → Call
  ask_purge : User → Option Error → ℕ → ℕ → Call
  claims : String → ℕ → Bool → (ℕ → Bool) → ℕ → Call
  claims_cancel : String → ℕ → (ℕ → Bool) → ℕ → Call
  renews : String → ℕ → ℕ → ℕ → Call
  ends_cancelled : String → ℕ → ℕ → Call
  fails : String → ℕ → String → String → ℕ → ℕ → Db → Call
  moves : String → ℕ → Move → Db → Call
  waits : String → ℕ → Call
  clears : ℕ → Call
  ends : String → ℕ → Ending → ℕ → ℕ → Call

-- The database after a call.
unfoldable pub apply : Call → Db → Db
apply (ask_manual actor q profile_id seen) db = (enqueue_manual actor q profile_id seen db).1
apply (ask_scheduled q profile_id instant seen) db =
    (enqueue_scheduled q profile_id instant seen db).1
apply (ask_cancel actor run_id now) db = (request_cancel actor run_id now db).1
apply (ask_retry actor q verdict run_id seen) db = (retry_failed actor q verdict run_id seen db).1
apply (ask_purge actor verdict run_id now) db =
    (purge_failed_artifact actor verdict run_id now db).1
apply (claims owner lease_seconds capacity locked now) db =
    (claim owner lease_seconds (worker_statuses capacity) locked now db).1
apply (claims_cancel owner lease_seconds locked now) db =
    (claim_cancel_requested owner lease_seconds locked now db).1
apply (renews owner run_id lease_seconds now) db = (renew run_id owner lease_seconds now db).1
apply (ends_cancelled owner run_id now) db = (finalize_cancel_requested run_id owner now db).1
apply (fails owner run_id code message retention now seen) db =
    fail owner run_id RunStatus.failed code message retention now seen db
apply (moves owner run_id m seen) db = (move owner run_id m seen db).1
apply (waits owner run_id) db = wait run_id owner db
apply (clears run_id) db = clear run_id db
apply (ends owner run_id ending retention now) db =
    (finish run_id (some owner) (ending_status ending) (ending_code ending) retention now db).1

unfoldable pub apply_all : List Call → Db → Db
apply_all [] db = db
apply_all (c ∷ rest) db = apply_all rest (apply c db)

-- The worker that makes a call.
abbrev pub worker : Call → Option String
worker (claims owner _ _ _ _) = some owner
worker (claims_cancel owner _ _ _) = some owner
worker (renews owner _ _ _) = some owner
worker (ends_cancelled owner _ _) = some owner
worker (fails owner _ _ _ _ _ _) = some owner
worker (moves owner _ _ _) = some owner
worker (waits owner _) = some owner
worker (ends owner _ _ _ _) = some owner
worker _ = none

-- The instant at which a worker asks for a run.
abbrev pub claim_time : Call → Option ℕ
claim_time (claims _ _ _ _ now) = some now
claim_time (claims_cancel _ _ _ now) = some now
claim_time _ = none
