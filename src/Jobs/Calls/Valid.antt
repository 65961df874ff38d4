-- ===== src/Jobs/Calls/Valid.antt =====
-- Any calls, in any order, keep the run table valid.
use backup_telebot.Prelude.{Bool, some, List, [], ◌∷◌, arith}
use backup_telebot.Store.{Db}
use backup_telebot.Store.Integrity.{IsValid}
use backup_telebot.Jobs.Enqueue.Unique.{enqueue_manual-IsValid, enqueue_scheduled-IsValid}
use backup_telebot.Jobs.Lease.Valid.{
  AreActive, claim-IsValid, claim_cancel_requested-IsValid, renew-IsValid,
}
use backup_telebot.Jobs.Cancel.Valid.{request_cancel-IsValid, finalize_cancel_requested-IsValid}
use backup_telebot.Jobs.Retry.Valid.{retry_failed-IsValid, purge_failed_artifact-IsValid}
use backup_telebot.Jobs.Finish.Valid.{IsTerminal, fail-IsValid, wait-IsValid, finish-IsValid}
use backup_telebot.Jobs.Stages.Valid.{IsOwner, move-IsValid, clear-IsValid}
use backup_telebot.Jobs.Calls.{
  Call, ask_manual, ask_scheduled, ask_cancel, ask_retry, ask_purge, claims, claims_cancel, renews,
  ends_cancelled, fails, moves, waits, clears, ends, Ending, ending_status, worker_statuses, apply,
  apply_all,
}

worker_statuses-AreActive : (capacity : Bool) → AreActive (worker_statuses capacity)
worker_statuses-AreActive capacity s h = ground arith

ending-IsTerminal : (e : Ending) → IsTerminal (ending_status e)
ending-IsTerminal e = ground arith

-- A worker that moves a run on still holds it when its UPDATE is made.
abbrev pub Owned : Call → Db → Type 0
Owned (moves owner i m seen) db = IsOwner owner i db
Owned _ db = Unit

abbrev pub AreOwned : List Call → Db → Type 0
AreOwned [] db = Unit
AreOwned (c ∷ rest) db = Owned c db × AreOwned rest (apply c db)

-- Each call keeps the table valid, on every branch and error path.
pub apply-IsValid : (c : Call) (db : Db) → Owned c db → IsValid db → IsValid (apply c db)
unfolding apply
apply-IsValid (ask_manual actor q p seen) db o v = enqueue_manual-IsValid actor q p seen db v
apply-IsValid (ask_scheduled q p s seen) db o v = enqueue_scheduled-IsValid q p s seen db v
apply-IsValid (ask_cancel actor i now) db o v = request_cancel-IsValid i now db v actor
apply-IsValid (ask_retry actor q e i seen) db o v = retry_failed-IsValid actor q e i seen db v
apply-IsValid (ask_purge actor e i now) db o v = purge_failed_artifact-IsValid actor e i now db v
apply-IsValid (claims owner n capacity locked now) db o v =
    claim-IsValid owner n now db v locked (worker_statuses capacity)
      (worker_statuses-AreActive capacity)
apply-IsValid (claims_cancel owner n locked now) db o v =
    claim_cancel_requested-IsValid owner n now db v locked
apply-IsValid (renews owner i n now) db o v = renew-IsValid owner n now db v i
apply-IsValid (ends_cancelled owner i now) db o v =
    finalize_cancel_requested-IsValid i now db v owner
apply-IsValid (fails owner i c m n now seen) db o v = fail-IsValid owner i c m n now seen db v
apply-IsValid (moves owner i m seen) db o v = move-IsValid owner i m seen db o v
apply-IsValid (waits owner i) db o v = wait-IsValid i owner db v
apply-IsValid (clears i) db o v = clear-IsValid i db v
apply-IsValid (ends owner i e n now) db o v =
    finish-IsValid i (some owner) (ending_status e) _ n now db (ending-IsTerminal e) v

pub apply_all-IsValid :
    (calls : List Call) (db : Db) → AreOwned calls db → IsValid db → IsValid (apply_all calls db)
unfolding apply_all
apply_all-IsValid [] db o v = v
apply_all-IsValid (c ∷ rest) db o v =
    apply_all-IsValid rest (apply c db) o.1 (apply-IsValid c db o.0 v)
