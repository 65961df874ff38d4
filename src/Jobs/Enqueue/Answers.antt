-- ===== src/Jobs/Enqueue/Answers.antt =====
-- What the answer to a request to queue a run says of the table.
use backup_telebot.Prelude.{
  ℕ, ◌≡◌, refl, inl, inr, true, false, Option, none, some, arith, find, count, Option-cases,
  count-find-none, find-true,
}
use backup_telebot.Domain.{RunTrigger, RunStatus}
use backup_telebot.Store.{Outcome, returns, Run, Db, is_active_of, in_slot}
use backup_telebot.Store.Integrity.{count-inserted_active, count-inserted_slot}
use backup_telebot.Jobs.Enqueue.{
  Request, EnqueueResult, queued_run, skipped_run, existing_slot, slot_holder, enqueue,
  enqueue_scheduled, is_enqueueable,
}
use backup_telebot.Jobs.Enqueue.Unique.{Made, enqueue-Made}

module _ (q : Request) (profile_id : ℕ) (scheduled_for : Option ℕ) (t : RunTrigger) (db : Db) where
  Made-created :
      (p : Outcome EnqueueResult × Db) (result : EnqueueResult)
      → Made q profile_id scheduled_for db t p
      → p.0 ≡ returns result
      → result.created ≡ true
      → result.run.status ≡ RunStatus.queued
      → (count (is_active_of profile_id) p.1.runs ≡ 1)
        × (result.run.profile_id ≡ profile_id)
        × (result.run.id ≡ db.next_id)
        × (result.run.lease_owner ≡ none)
  Made-created p result (inl (same, m)) e c k = ground arith
  Made-created p result (inr (inl (s, (i, o)))) e c k = ground arith
  Made-created p result (inr (inr (inserted, i, same, o))) e c k = ground (
    arith,
    count-inserted_active (queued_run q profile_id t scheduled_for db.next_id) db {out = inserted} i
        refl,
  )

  -- A run that a request reports as created and queued is the only active run of its profile, has a
  -- new number, and belongs to no worker.
  pub enqueue_created :
      (seen : Db) {result : EnqueueResult}
      → (enqueue q profile_id t scheduled_for seen db).0 ≡ returns result
      → result.created ≡ true
      → result.run.status ≡ RunStatus.queued
      → (count (is_active_of profile_id) (enqueue q profile_id t scheduled_for seen db).1.runs ≡ 1)
        × (result.run.profile_id ≡ profile_id)
        × (result.run.id ≡ db.next_id)
        × (result.run.lease_owner ≡ none)
  enqueue_created seen {result} =
      Made-created _ result (enqueue-Made q profile_id scheduled_for db t seen)

  -- A request that raises, or that answers with a run that it did not create, changes nothing.
  pub enqueue_unchanged :
      (seen : Db)
      → ((result : EnqueueResult)
          → (enqueue q profile_id t scheduled_for seen db).0 ≡ returns result
          → result.created ≡ false)
      → (enqueue q profile_id t scheduled_for seen db).1 ≡ db
  enqueue_unchanged seen h = Made-unchanged _ (enqueue-Made q profile_id scheduled_for db t seen) h
    where
      Made-unchanged :
          (p : Outcome EnqueueResult × Db)
          → Made q profile_id scheduled_for db t p
          → ((result : EnqueueResult) → p.0 ≡ returns result → result.created ≡ false)
          → p.1 ≡ db
      Made-unchanged p (inl (same, m)) k = same
      Made-unchanged p (inr (inl (s, (i, o)))) k = cc (k _ o)
      Made-unchanged p (inr (inr (inserted, i, same, o))) k = cc (k _ o)

-- A request that reads a table where its slot is held answers with the holder.
enqueue-held :
    (q : Request) (profile_id s : ℕ) (seen db : Db) (r : Run)
    → slot_holder profile_id (some s) seen.runs ≡ some r
    → is_enqueueable profile_id seen ≡ true
    → enqueue q profile_id RunTrigger.scheduled (some s) seen db
      ≡ (returns (record { run = r; created = false }), db)
unfolding enqueue existing_slot
enqueue-held q profile_id s seen db r h k = rw (k, h)

enqueue-full_slot :
    (q : Request) (profile_id s : ℕ) (seen db : Db)
    → count (in_slot profile_id RunTrigger.scheduled s) seen.runs ≡ 1
    → is_enqueueable profile_id seen ≡ true
    → (r : Run) × (enqueue q profile_id RunTrigger.scheduled (some s) seen db
        ≡ (returns (record { run = r; created = false }), db))
      × (in_slot profile_id RunTrigger.scheduled s r ≡ true)
unfolding slot_holder
enqueue-full_slot q profile_id s seen db h k =
    elim (Option-cases (find (in_slot profile_id RunTrigger.scheduled s) seen.runs)) [
      | inl e ↦
          absurd
            (omega (arith, count-find-none (in_slot profile_id RunTrigger.scheduled s) seen.runs e))
      | inr (r, e) ↦ (
        r,
        enqueue-held q profile_id s seen db r e k,
        find-true (in_slot profile_id RunTrigger.scheduled s) seen.runs e,
      )
    ]

Made-full_slot :
    (q : Request) (profile_id s : ℕ) (db : Db) (p : Outcome EnqueueResult × Db)
    (result : EnqueueResult)
    → Made q profile_id (some s) db RunTrigger.scheduled p
    → p.0 ≡ returns result
    → result.created ≡ true
    → count (in_slot profile_id RunTrigger.scheduled s) p.1.runs ≡ 1
Made-full_slot q profile_id s db p result (inl (same, m)) e c = ground arith
Made-full_slot q profile_id s db p result (inr (inl (x, (i, o)))) e c =
    count-inserted_slot (skipped_run q profile_id (some s) db.next_id) db s {out = p.1} i refl
Made-full_slot q profile_id s db p result (inr (inr (inserted, i, same, o))) e c = rw same (
    count-inserted_slot (queued_run q profile_id RunTrigger.scheduled (some s) db.next_id) db s
      {out = inserted} i refl)

module _ (q q' : Request) (profile_id s : ℕ) (seen db db' : Db) where
  -- A scheduled slot is served once. After a scheduled request has created a row, queued or
  -- skipped, a second request for the slot that reads the table so left, with the profile still
  -- enabled, changes nothing and answers with a run of the slot.
  pub enqueue_scheduled_again :
      {result : EnqueueResult}
      → (enqueue_scheduled q profile_id s seen db).0 ≡ returns result
      → result.created ≡ true
      → is_enqueueable profile_id (enqueue_scheduled q profile_id s seen db).1 ≡ true
      → (r : Run) × (enqueue_scheduled q' profile_id s
            (enqueue_scheduled q profile_id s seen db).1
            db'
          ≡ (returns (record { run = r; created = false }), db'))
        × (in_slot profile_id RunTrigger.scheduled s r ≡ true)
  unfolding enqueue_scheduled
  enqueue_scheduled_again {result} e c k =
      enqueue-full_slot q' profile_id s _ db'
        (Made-full_slot q profile_id s db _ result
          (enqueue-Made q profile_id (some s) db RunTrigger.scheduled seen) e c)
        k
