-- ===== src/Jobs/Held/Queue.antt =====
-- The calls of the bot and of the scheduler leave a held run held.
use backup_telebot.Prelude.{
  ◌≡◌, ◌≤◌, ◌∙◌, count, update, ℕ, refl, inl, inr, String, Option, none, some, arith, find, All,
}
use backup_telebot.Domain.{RunTrigger}
use backup_telebot.Store.{Error, User, Run, Db, has_id}
use backup_telebot.Jobs.Enqueue.{
  Request, enqueue, enqueue_manual, enqueue_scheduled, queued_run, skipped_run,
}
use backup_telebot.Jobs.Enqueue.Unique.{enqueue-Made, enqueue_manual_cases}
use backup_telebot.Jobs.Cancel.{
  request_cancel, is_active_with_id, ask_cancel, is_unstarted, cancel_unstarted,
}
use backup_telebot.Jobs.Cancel.Valid.{request_cancel_cases, asked}
use backup_telebot.Jobs.Retry.{
  retry_failed, retry_run, purge_failed_artifact, is_unchanged, resume, purge,
}
use backup_telebot.Jobs.Retry.Valid.{retry_run_cases, retry_failed_cases, purge_cases}
use backup_telebot.Jobs.Held.{
  count-kept, IsHeld, RowIsHeld, IsHeld-rows, held-update, IsHeld-append,
}

module _ (owner : String) (until run_id : ℕ) where
  pub enqueue-IsHeld :
      (q : Request) (profile_id : ℕ) (scheduled_for : Option ℕ) (t : RunTrigger) (seen db : Db)
      → IsHeld owner until run_id db
      → IsHeld owner until run_id (enqueue q profile_id t scheduled_for seen db).1
  enqueue-IsHeld q profile_id scheduled_for t seen db h =
      elim (enqueue-Made q profile_id scheduled_for db t seen) [
        | inl (same, _) ↦ rw same h
        | inr (inl (_, (e, _))) ↦
            IsHeld-append owner until run_id (skipped_run q profile_id scheduled_for db.next_id) db
              _ h refl e
        | inr (inr (inserted, e, same, _)) ↦
            let next : IsHeld owner until run_id inserted =
              IsHeld-append owner until run_id (queued_run q profile_id t scheduled_for db.next_id)
                db inserted h refl e in
            rw same (record { known = next.known; present = next.present; held = next.held })
      ]

  pub enqueue_manual-IsHeld :
      (actor : User) (q : Request) (profile_id : ℕ) (seen db : Db)
      → IsHeld owner until run_id db
      → IsHeld owner until run_id (enqueue_manual actor q profile_id seen db).1
  enqueue_manual-IsHeld actor q profile_id seen db h =
      elim (enqueue_manual_cases actor q profile_id seen db) [
        | inl same ↦ rw same h
        | inr (same, next) ↦
            let made : IsHeld owner until run_id
                (enqueue q profile_id RunTrigger.manual none seen db).1 =
              enqueue-IsHeld q profile_id none RunTrigger.manual seen db h in
            record {
              known = rw next made.known;
              present = rw same made.present;
              held = rw same made.held;
            }
      ]

  pub enqueue_scheduled-IsHeld :
      (q : Request) (profile_id instant : ℕ) (seen db : Db)
      → IsHeld owner until run_id db
      → IsHeld owner until run_id (enqueue_scheduled q profile_id instant seen db).1
  unfolding enqueue_scheduled
  enqueue_scheduled-IsHeld q profile_id instant seen db =
      enqueue-IsHeld q profile_id (some instant) RunTrigger.scheduled seen db

  pub request_cancel-IsHeld :
      (actor : User) (i now : ℕ) (db : Db)
      → IsHeld owner until run_id db
      → IsHeld owner until run_id (request_cancel actor i now db).1
  request_cancel-IsHeld actor i now db h = elim (request_cancel_cases actor i now db) [
    | inl same ↦ rw same h
    | inr (inl same) ↦
        rw same (record { known = h.known; present = asked_present; held = asked_held })
    | inr (inr (same, next)) ↦ IsHeld-rows owner until run_id db _ h next (rw same asked_twice) (
        rw same (
          held-update owner until run_id (is_unstarted i) (cancel_unstarted now)
            (asked i now db).runs (λ r. refl) (λ r p l. absurd (ground (arith, p, l.owned)))
            asked_held))
  ]
    where
      asked_count : count (has_id run_id) (asked i now db).runs ≡ count (has_id run_id) db.runs
      asked_count =
          count-kept owner until run_id (is_active_with_id i) (ask_cancel now) db.runs (λ r. refl)

      asked_present : 1 ≤ count (has_id run_id) (asked i now db).runs
      asked_present = rw asked_count h.present

      asked_twice :
          count
            (has_id run_id)
            (update (is_unstarted i) (cancel_unstarted now) (asked i now db).runs)
          ≡ count (has_id run_id) db.runs
      asked_twice =
          count-kept owner until run_id (is_unstarted i) (cancel_unstarted now)
            (asked i now db).runs (λ r. refl)
          ∙ asked_count

      asked_held : All (RowIsHeld owner until run_id) (asked i now db).runs
      asked_held =
          held-update owner until run_id (is_active_with_id i) (ask_cancel now) db.runs (λ r. refl)
            (λ r p l. record { owned = l.owned; expires = l.expires; active = l.active }) h.held

  retry_run-IsHeld :
      (actor : User) (q : Request) (verdict : Option Error) (i : ℕ) (seen db : Db) (run : Run)
      → IsHeld owner until run_id db
      → IsHeld owner until run_id (retry_run actor q verdict run seen db).1
  retry_run-IsHeld actor q verdict i seen db run h =
      elim (retry_run_cases actor q verdict i seen db run) [
        | inl same ↦ rw same h
        | inr (inl (_, same, next)) ↦
            IsHeld-rows owner until run_id db _ h next
              (rw same (
                count-kept owner until run_id (is_unchanged run) (resume q.now) db.runs
                  (λ r. refl)))
              (rw same (
                held-update owner until run_id (is_unchanged run) (resume q.now) db.runs (λ r. refl)
                  (λ r p l. absurd (ground (arith, p, l.owned))) h.held))
        | inr (inr same) ↦ rw same (enqueue_manual-IsHeld actor q run.profile_id seen db h)
      ]

  pub retry_failed-IsHeld :
      (actor : User) (q : Request) (verdict : Option Error) (i : ℕ) (seen db : Db)
      → IsHeld owner until run_id db
      → IsHeld owner until run_id (retry_failed actor q verdict i seen db).1
  retry_failed-IsHeld actor q verdict i seen db h =
      elim (retry_failed_cases actor q verdict i seen db) [
        | inl same ↦ rw same h
        | inr (run, same) ↦ rw same (retry_run-IsHeld actor q verdict i seen db run h)
      ]

  pub purge_failed_artifact-IsHeld :
      (actor : User) (verdict : Option Error) (i now : ℕ) (db : Db)
      → IsHeld owner until run_id db
      → IsHeld owner until run_id (purge_failed_artifact actor verdict i now db).1
  purge_failed_artifact-IsHeld actor verdict i now db h =
      elim (purge_cases actor verdict i now db (find (has_id i) db.runs) refl) [
        | inl same ↦ rw same h
        | inr (r, _, same, next) ↦
            IsHeld-rows owner until run_id db _ h next
              (rw same
                (count-kept owner until run_id (has_id r.id) (purge now) db.runs (λ x. refl)))
              (rw same (
                held-update owner until run_id (has_id r.id) (purge now) db.runs (λ x. refl)
                  (λ x p l. record { owned = l.owned; expires = l.expires; active = l.active })
                  h.held))
      ]
