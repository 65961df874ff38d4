-- ===== src/Jobs/Cancel/Valid.antt =====
-- Cancelling keeps the run table valid.
use backup_telebot.Prelude.{
  ℕ, ◌≡◌, refl, String, true, ◌⊎◌, inl, inr, Option, none, arith, update, All-of, is_none,
}
use backup_telebot.Store.{User, Run, Db}
use backup_telebot.Store.Integrity.{IsValid, Safe, update-IsValid, runs-IsValid}
use backup_telebot.Jobs.Cancel.{
  request_cancel, finalize_cancel_requested, is_active_with_id, ask_cancel, is_unstarted,
  cancel_unstarted, is_cancelling, finish_cancelled,
}

ask-Safe : (run_id now : ℕ) (r : Run) → Safe (is_active_with_id run_id) (ask_cancel now) r
ask-Safe run_id now r = record {
  keeps_id = refl;
  keeps_profile = refl;
  keeps_trigger = refl;
  keeps_slot = refl;
  revives_none = λ h k. k;
  keeps_consistent = λ h c. record { ended = c.ended; released = c.released; closed = c.closed };
}

is_none-eq {ℓ} : {A : Type ℓ} (o : Option A) → is_none o ≡ true → o ≡ none
is_none-eq o h = ground arith

unstarted-Safe : (run_id now : ℕ) (r : Run) → Safe (is_unstarted run_id) (cancel_unstarted now) r
unstarted-Safe run_id now r = record {
  keeps_id = refl;
  keeps_profile = refl;
  keeps_trigger = refl;
  keeps_slot = refl;
  revives_none = λ h k. cc;
  keeps_consistent =
      λ h c. record { ended = refl; released = λ _. ground arith; closed = λ _. inl refl };
}

cancelled-Safe :
    (run_id now : ℕ) (owner : String) (r : Run)
    → Safe (is_cancelling run_id owner) (finish_cancelled now) r
cancelled-Safe run_id now owner r = record {
  keeps_id = refl;
  keeps_profile = refl;
  keeps_trigger = refl;
  keeps_slot = refl;
  revives_none = λ h k. cc;
  keeps_consistent = λ h c. record { ended = refl; released = λ _. refl; closed = λ _. inl refl };
}

abbrev pub asked : ℕ → ℕ → Db → Db
asked run_id now db = record db {
  runs = update (is_active_with_id run_id) (ask_cancel now) db.runs;
}

-- What a request to cancel can do to the runs.
pub request_cancel_cases :
    (actor : User) (run_id now : ℕ) (db : Db)
    → let out = (request_cancel actor run_id now db).1 in
      (out ≡ db)
      ⊎ (out ≡ asked run_id now db)
      ⊎ ((out.runs ≡ update (is_unstarted run_id) (cancel_unstarted now) (asked run_id now db).runs)
          × (out.next_id ≡ db.next_id))
unfolding request_cancel
request_cancel_cases actor run_id now db = ground arith

pub finalize_cases :
    (run_id now : ℕ) (db : Db) (owner : String)
    → let out = (finalize_cancel_requested run_id owner now db).1 in
      (out ≡ db)
      ⊎ ((out.runs ≡ update (is_cancelling run_id owner) (finish_cancelled now) db.runs)
          × (out.next_id ≡ db.next_id))
unfolding finalize_cancel_requested
finalize_cases run_id now db owner = ground arith

module _ (run_id now : ℕ) (db : Db) (v : IsValid db) where
  asked-IsValid : IsValid (asked run_id now db)
  asked-IsValid =
      update-IsValid (is_active_with_id run_id) (ask_cancel now) db
        (All-of (Safe (is_active_with_id run_id) (ask_cancel now)) db.runs (ask-Safe run_id now)) v

  pub request_cancel-IsValid : (actor : User) → IsValid (request_cancel actor run_id now db).1
  request_cancel-IsValid actor = elim (request_cancel_cases actor run_id now db) [
    | inl same ↦ rw same v
    | inr (inl same) ↦ rw same asked-IsValid
    | inr (inr (same, next)) ↦
        runs-IsValid
          (record (asked run_id now db) {
            runs = update (is_unstarted run_id) (cancel_unstarted now) (asked run_id now db).runs;
          })
          _ same next
          (update-IsValid (is_unstarted run_id) (cancel_unstarted now) (asked run_id now db)
            (All-of (Safe (is_unstarted run_id) (cancel_unstarted now)) (asked run_id now db).runs
              (unstarted-Safe run_id now))
            asked-IsValid)
  ]

  pub finalize_cancel_requested-IsValid :
      (owner : String) → IsValid (finalize_cancel_requested run_id owner now db).1
  finalize_cancel_requested-IsValid owner = elim (finalize_cases run_id now db owner) [
    | inl same ↦ rw same v
    | inr (same, next) ↦
        runs-IsValid
          (record db { runs = update (is_cancelling run_id owner) (finish_cancelled now) db.runs })
          _ same next
          (update-IsValid (is_cancelling run_id owner) (finish_cancelled now) db
            (All-of (Safe (is_cancelling run_id owner) (finish_cancelled now)) db.runs
              (cancelled-Safe run_id now owner))
            v)
  ]
