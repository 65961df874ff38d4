-- ===== src/Jobs/Calls/Exclusive.antt =====
-- A lease is exclusive: until it expires, no call of another worker, nor of the bot or the
-- scheduler, ends the run, or gives, moves or drops its lease.
use backup_telebot.Prelude.{ℕ, ◌≡◌, ◌≢◌, refl, ◌≤◌, ap, String, some}
use backup_telebot.Store.{Db}
use backup_telebot.Jobs.Held.{IsHeld}
use backup_telebot.Jobs.Held.Queue.{
  enqueue_manual-IsHeld, enqueue_scheduled-IsHeld, request_cancel-IsHeld, retry_failed-IsHeld,
  purge_failed_artifact-IsHeld,
}
use backup_telebot.Jobs.Held.Workers.{
  claim-IsHeld, claim_cancel_requested-IsHeld, renew-IsHeld, finalize_cancel_requested-IsHeld,
  fail-IsHeld, finish-IsHeld, move-IsHeld, wait-IsHeld, clear-IsHeld,
}
use backup_telebot.Jobs.Calls.{
  Call, ask_manual, ask_scheduled, ask_cancel, ask_retry, ask_purge, claims, claims_cancel, renews,
  ends_cancelled, fails, moves, waits, clears, ends, ending_status, worker, claim_time,
  worker_statuses, apply,
}

-- A worker that fails a run has read the table while the run was held.
abbrev pub HasReadHeld : String → ℕ → ℕ → Call → Type 0
HasReadHeld owner until run_id (fails _ _ _ _ _ _ seen) = IsHeld owner until run_id seen
HasReadHeld owner until run_id _ = Unit

-- A call that the holder does not make, and, of a claim, at an instant up to the expiry.
pub record IsForeign (owner : String) (until run_id : ℕ) (c : Call) : Type 0 where
  pub other : worker c ≢ some owner
  pub early : (now : ℕ) → claim_time c ≡ some now → now ≤ until
  pub fresh : HasReadHeld owner until run_id c

module _ (owner : String) (until run_id : ℕ) where
  -- A call of anybody else, made before the lease expires, leaves the run held, in an active status.
  pub apply-IsHeld :
      (c : Call) (db : Db)
      → IsForeign owner until run_id c
      → IsHeld owner until run_id db
      → IsHeld owner until run_id (apply c db)
  unfolding apply
  apply-IsHeld (ask_manual actor q p seen) db f h =
      enqueue_manual-IsHeld owner until run_id actor q p seen db h
  apply-IsHeld (ask_scheduled q p s seen) db f h =
      enqueue_scheduled-IsHeld owner until run_id q p s seen db h
  apply-IsHeld (ask_cancel actor i now) db f h =
      request_cancel-IsHeld owner until run_id actor i now db h
  apply-IsHeld (ask_retry actor q e i seen) db f h =
      retry_failed-IsHeld owner until run_id actor q e i seen db h
  apply-IsHeld (ask_purge actor e i now) db f h =
      purge_failed_artifact-IsHeld owner until run_id actor e i now db h
  apply-IsHeld (claims by n capacity locked now) db f h =
      claim-IsHeld owner until run_id by n (worker_statuses capacity) locked now db
        (f.early now refl) h
  apply-IsHeld (claims_cancel by n locked now) db f h =
      claim_cancel_requested-IsHeld owner until run_id by n locked now db (f.early now refl) h
  apply-IsHeld (renews by i n now) db f h =
      renew-IsHeld owner until run_id by i n now db (λ e. f.other (ap some e)) h
  apply-IsHeld (ends_cancelled by i now) db f h =
      finalize_cancel_requested-IsHeld owner until run_id by i now db (λ e. f.other (ap some e)) h
  apply-IsHeld (fails by i c m n now seen) db f h =
      fail-IsHeld owner until run_id by i c m n now seen db (λ e. f.other (ap some e)) f.fresh h
  apply-IsHeld (moves by i m seen) db f h = move-IsHeld owner until run_id by i m seen db h
  apply-IsHeld (waits by i) db f h =
      wait-IsHeld owner until run_id by i db (λ e. f.other (ap some e)) h
  apply-IsHeld (clears i) db f h = clear-IsHeld owner until run_id i db h
  apply-IsHeld (ends by i e n now) db f h =
      finish-IsHeld owner until run_id by i (ending_status e) _ n now db (λ k. f.other (ap some k))
        h
