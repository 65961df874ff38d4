-- ===== src/Jobs/Finish/Valid.antt =====
-- Ending a run keeps the run table valid.
use backup_telebot.Prelude.{
  ℕ, ◌≡◌, refl, String, Bool, true, false, ◌⊎◌, inl, inr, Option, none, some, List, arith, update,
  find, All-of, All-weaken,
}
use backup_telebot.Domain.{RunStage, RunStatus, status_in}
use backup_telebot.Store.{Run, Db, has_id, active_statuses}
use backup_telebot.Store.Integrity.{IsConsistent, IsValid, Safe, update-IsValid, runs-IsValid}
use backup_telebot.Jobs.Finish.{
  wait_for_retry, wait, is_waiting, write_failure, is_failable, fail, failed_run, finish,
  finished_run, is_finishable,
}

-- What a failure may write over the row that it has read.
abbrev pub IsFailure : ℕ → Run → Run → Type 0
IsFailure now read new =
    (new.status ≡ read.status)
    ⊎ ((new.status ≡ RunStatus.failed)
        × (new.stage ≡ RunStage.complete)
        × (new.finished_at ≡ some now))

failed_run-IsFailure :
    (code message : String) (retention now : ℕ) (r : Run)
    → IsFailure now r (failed_run RunStatus.failed code message retention now r)
unfolding failed_run
failed_run-IsFailure code message retention now r = ground arith

write_failure-Safe :
    (p : Run → Bool) (read new r : Run) (now : ℕ)
    → IsFailure now read new
    → Safe p (write_failure read new) r
unfolding write_failure
write_failure-Safe p read new r now f = record {
  keeps_id = refl;
  keeps_profile = refl;
  keeps_trigger = refl;
  keeps_slot = refl;
  revives_none = λ h k. ground (arith, f, k);
  keeps_consistent = λ h c. record {
    ended = ground (arith, f, c.ended);
    released = λ _. refl;
    closed = λ k. ground (arith, f, k, c.closed);
  };
}

module _ (owner : String) (run_id : ℕ) (code message : String) (retention now : ℕ)
    (seen db : Db) where
  abbrev pub failed_rows : Run → List Run
  failed_rows r =
      update (has_id run_id)
        (write_failure r (failed_run RunStatus.failed code message retention now r)) db.runs

  pub fail_cases :
      (o : Option Run)
      → find (has_id run_id) seen.runs ≡ o
      → let out = (fail owner run_id RunStatus.failed code message retention now seen db) in
        (out ≡ db)
        ⊎ ((r : Run) × (o ≡ some r)
            × (is_failable owner r ≡ true)
            × (out.runs ≡ failed_rows r)
            × (out.next_id ≡ db.next_id))
  unfolding fail
  fail_cases none e = ground arith
  fail_cases (some r) e = ground arith

  pub fail-IsValid :
      IsValid db → IsValid (fail owner run_id RunStatus.failed code message retention now seen db)
  fail-IsValid v = elim (fail_cases (find (has_id run_id) seen.runs) refl) [
    | inl same ↦ rw same v
    | inr (r, e, a, same, next) ↦
        runs-IsValid (record db { runs = failed_rows r }) _ same next
          (update-IsValid (has_id run_id)
            (write_failure r (failed_run RunStatus.failed code message retention now r)) db
            (All-of _ db.runs (λ x.
              write_failure-Safe (has_id run_id) r
                (failed_run RunStatus.failed code message retention now r) x now
                (failed_run-IsFailure code message retention now r)))
            v)
  ]

-- A held run is active, so it may wait.
wait_for_retry-Safe :
    (i : ℕ) (owner : String) (r : Run) → IsConsistent r → Safe (is_waiting i owner) wait_for_retry r
wait_for_retry-Safe i owner r c = record {
  keeps_id = refl;
  keeps_profile = refl;
  keeps_trigger = refl;
  keeps_slot = refl;
  revives_none = λ h k. ground (arith, c.released, h);
  keeps_consistent = λ h k. record {
    ended = ground (arith, c.ended, c.released, h);
    released = λ _. refl;
    closed = λ a. ground (arith, a);
  };
}

pub wait-IsValid : (i : ℕ) (owner : String) (db : Db) → IsValid db → IsValid (wait i owner db)
unfolding wait
wait-IsValid i owner db v =
    update-IsValid (is_waiting i owner) wait_for_retry db
      (All-weaken IsConsistent (Safe (is_waiting i owner) wait_for_retry) db.runs
        (wait_for_retry-Safe i owner) v.consistent)
      v

-- A terminal status.
abbrev pub IsTerminal : RunStatus → Type 0
IsTerminal status = status_in active_statuses status ≡ false

finished-Safe :
    (status : RunStatus) (error_code : Option String) (retention now : ℕ) (p : Run → Bool) (r : Run)
    → IsTerminal status
    → Safe p (finished_run status error_code retention now) r
finished-Safe status error_code retention now p r t = record {
  keeps_id = refl;
  keeps_profile = refl;
  keeps_trigger = refl;
  keeps_slot = refl;
  revives_none = λ h k. ground (arith, t);
  keeps_consistent = λ h c. record { ended = t; released = λ k. refl; closed = λ k. ground arith };
}

module _ (run_id : ℕ) (owner : Option String) (status : RunStatus) (error_code : Option String)
    (retention now : ℕ) (db : Db) where
  abbrev pub finished_rows : List Run
  finished_rows =
      update (is_finishable run_id owner) (finished_run status error_code retention now) db.runs

  pub finish_cases :
      let out = (finish run_id owner status error_code retention now db).1 in
      (out ≡ db) ⊎ ((out.runs ≡ finished_rows) × (out.next_id ≡ db.next_id))
  unfolding finish
  finish_cases = ground arith

  pub finish-IsValid :
      IsTerminal status
      → IsValid db
      → IsValid (finish run_id owner status error_code retention now db).1
  finish-IsValid t v = elim finish_cases [
    | inl same ↦ rw same v
    | inr (same, next) ↦
        runs-IsValid (record db { runs = finished_rows }) _ same next
          (update-IsValid (is_finishable run_id owner)
            (finished_run status error_code retention now) db
            (All-of _ db.runs
              (λ r. finished-Safe status error_code retention now (is_finishable run_id owner) r t))
            v)
  ]
