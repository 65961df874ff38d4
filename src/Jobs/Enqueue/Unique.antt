-- ===== src/Jobs/Enqueue/Unique.antt =====
-- The unique keys of the run table survive every request to queue a run.
use backup_telebot.Prelude.{ℕ, ◌≡◌, refl, ◌⊎◌, inl, inr, true, false, Option, none, some, arith}
use backup_telebot.Domain.{RunTrigger, RunStatus, RunStage}
use backup_telebot.Store.{
  User, record_run_transition, Outcome, returns, raises, Run, Db, insert_run,
}
use backup_telebot.Store.Integrity.{IsConsistent, IsValid, insert_run-IsValid, runs-IsValid}
use backup_telebot.Jobs.Enqueue.{
  Request, EnqueueResult, queued_run, skipped_run, record_skipped, settle, resolve_conflict,
  insert_queued, enqueue, enqueue_manual, enqueue_scheduled,
}

abbrev MadeNone : Outcome EnqueueResult → Type 0
MadeNone (raises e) = Unit
MadeNone (returns result) = result.created ≡ false

abbrev MadeSkip : Run → Db → Outcome EnqueueResult × Db → Type 0
MadeSkip run db p =
    (insert_run run db ≡ some p.1) × (p.0 ≡ returns (record { run = run; created = true }))

abbrev MadeRun : Run → Db → Outcome EnqueueResult × Db → Type 0
MadeRun run db p =
    (inserted : Db) × (insert_run run db ≡ some inserted)
    × (p.1
        ≡ record_run_transition "backup_run_queued" run.id RunStatus.queued RunStage.queued none
            inserted)
    × (p.0 ≡ returns (record { run = run; created = true }))

module _ (q : Request) (profile_id : ℕ) (scheduled_for : Option ℕ) (db : Db) where
  queued-IsConsistent :
      (t : RunTrigger) (id : ℕ) → IsConsistent (queued_run q profile_id t scheduled_for id)
  queued-IsConsistent t id = ground arith

  skipped-IsConsistent : (id : ℕ) → IsConsistent (skipped_run q profile_id scheduled_for id)
  skipped-IsConsistent id = ground arith

  -- What a request can have done: nothing, a skipped row, or a queued row with its audit event.
  abbrev pub Made : RunTrigger → Outcome EnqueueResult × Db → Type 0
  Made t p =
      ((p.1 ≡ db) × MadeNone p.0)
      ⊎ ((t ≡ RunTrigger.scheduled)
          × MadeSkip (skipped_run q profile_id scheduled_for db.next_id) db p)
      ⊎ MadeRun (queued_run q profile_id t scheduled_for db.next_id) db p

  record_skipped-Made :
      (t : RunTrigger)
      → t ≡ RunTrigger.scheduled
      → Made t (record_skipped q profile_id scheduled_for db)
  unfolding record_skipped
  record_skipped-Made t h = ground arith

  settle-Made :
      (t : RunTrigger) (active : Run) → Made t (settle q profile_id t scheduled_for active db)
  unfolding settle
  settle-Made RunTrigger.manual active = inl (refl, refl)
  settle-Made RunTrigger.scheduled active = record_skipped-Made RunTrigger.scheduled refl

  resolve_conflict-Made :
      (t : RunTrigger) → Made t (resolve_conflict q profile_id t scheduled_for db)
  unfolding resolve_conflict
  resolve_conflict-Made t = grind (arith, settle-Made)

  insert_queued-Made : (t : RunTrigger) → Made t (insert_queued q profile_id t scheduled_for db)
  unfolding insert_queued
  insert_queued-Made t = ground (arith, resolve_conflict-Made t)

  -- Whatever the checks have read, a request makes nothing, or a skipped row for a scheduled slot,
  -- or a queued row with its audit event; and its answer says which.
  pub enqueue-Made :
      (t : RunTrigger) (seen : Db) → Made t (enqueue q profile_id t scheduled_for seen db)
  unfolding enqueue
  enqueue-Made t seen = grind (arith, settle-Made, insert_queued-Made)

  Made-IsValid :
      (t : RunTrigger) (p : Outcome EnqueueResult × Db) → IsValid db → Made t p → IsValid p.1
  Made-IsValid t p v (inl (same, _)) = rw same v
  Made-IsValid t p v (inr (inl (_, (e, _)))) =
      insert_run-IsValid _ db v (skipped-IsConsistent db.next_id) refl e
  Made-IsValid t p v (inr (inr (inserted, e, same, _))) = rw same (
      runs-IsValid inserted _ refl refl
        (insert_run-IsValid _ db v (queued-IsConsistent t db.next_id) refl e))

  -- Whatever the checks have read, and whatever other transactions have committed since, a request
  -- leaves a valid table: at most one active run of each profile, one run of each scheduled slot,
  -- and distinct numbers. This holds on the error paths too.
  pub enqueue-IsValid :
      (t : RunTrigger) (seen : Db)
      → IsValid db
      → IsValid (enqueue q profile_id t scheduled_for seen db).1
  enqueue-IsValid t seen v = Made-IsValid t _ v (enqueue-Made t seen)

pub enqueue_manual_cases :
    (actor : User) (q : Request) (profile_id : ℕ) (seen db : Db)
    → ((enqueue_manual actor q profile_id seen db).1 ≡ db)
      ⊎ (((enqueue_manual actor q profile_id seen db).1.runs
            ≡ (enqueue q profile_id RunTrigger.manual none seen db).1.runs)
          × ((enqueue_manual actor q profile_id seen db).1.next_id
              ≡ (enqueue q profile_id RunTrigger.manual none seen db).1.next_id))
unfolding enqueue_manual
enqueue_manual_cases actor q profile_id seen db = ground arith

pub enqueue_manual-IsValid :
    (actor : User) (q : Request) (profile_id : ℕ) (seen db : Db)
    → IsValid db
    → IsValid (enqueue_manual actor q profile_id seen db).1
enqueue_manual-IsValid actor q profile_id seen db v =
    elim (enqueue_manual_cases actor q profile_id seen db) [
      | inl same ↦ rw same v
      | inr (same, next) ↦
          runs-IsValid _ _ same next (enqueue-IsValid q profile_id none db RunTrigger.manual seen v)
    ]

pub enqueue_scheduled-IsValid :
    (q : Request) (profile_id instant : ℕ) (seen db : Db)
    → IsValid db
    → IsValid (enqueue_scheduled q profile_id instant seen db).1
unfolding enqueue_scheduled
enqueue_scheduled-IsValid q profile_id instant seen db =
    enqueue-IsValid q profile_id (some instant) db RunTrigger.scheduled seen
