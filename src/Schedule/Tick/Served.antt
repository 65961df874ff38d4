-- ===== src/Schedule/Tick/Served.antt =====
-- No slot is lost: a pass of the scheduler leaves a run for every slot that was due.
use backup_telebot.Prelude.{
  ℕ, max, ◌≡◌, refl, subst, arith, inl, inr, Bool, true, false, not, ◌&&◌, ◌||◌, Option, none, some,
  List, [], ◌∷◌, ◌++◌, leb, if◌then◌else◌, find, any, All, String,
}
use backup_telebot.Domain.{RunStage, RunStatus, RunTrigger}
use backup_telebot.Store.{
  not_found, record_run_transition, integrity_error, Outcome, returns, raises, Profile, Db, Run,
  in_slot, insert_run,
}
use backup_telebot.Store.Integrity.{insert_run-Inserts}
use backup_telebot.Fallible.{◌>>=◌, bind-returns, returns-value}
use backup_telebot.Jobs.Enqueue.{
  is_enqueueable, active_for_profile, EnqueueResult, Request, enqueue_scheduled, enqueue,
  queued_run, skipped_run, insert_queued, record_skipped, settle, resolve_conflict, existing_slot,
  slot_holder,
}
use backup_telebot.Jobs.Enqueue.Unique.{Made, enqueue-Made}
use backup_telebot.Schedule.Next.{Zone, next_scheduled_time}
use backup_telebot.Schedule.Tick.Settled.{is_due, is_past}
use backup_telebot.Schedule.Tick.{
  result_of, SchedulerResult, is_once, is_scheduled, Pass, next_cursor, moved, visit, visit_all,
  tick, visit_due, after_enqueue, chosen_zone, committed,
}

any-append : (q : Run → Bool) (xs ys : List Run) → any q (xs ++ ys) ≡ (any q xs || any q ys)
unfolding any
any-append q [] ys = refl
any-append q (x ∷ xs) ys = ground (arith, any-append q xs ys)

find-any : (q : Run → Bool) (xs : List Run) {r : Run} → find q xs ≡ some r → any q xs ≡ true
unfolding any find
find-any q [] h = ground (arith, h)
find-any q (x ∷ xs) {r} h = ground (arith, h, find-any q xs {r = r})

-- The slot of a profile at an instant has a run.
abbrev pub is_served : ℕ → ℕ → Db → Bool
is_served id s db = any (in_slot id RunTrigger.scheduled s) db.runs

inserted-served :
    (id s : ℕ) (r : Run) (db : Db) {out : Db}
    → in_slot id RunTrigger.scheduled s r ≡ true
    → insert_run r db ≡ some out
    → is_served id s out ≡ true
unfolding any
inserted-served id s r db h k =
    rw
      (
        (insert_run-Inserts r db k).rows,
        any-append (in_slot id RunTrigger.scheduled s) db.runs (r ∷ []),
      )
      (ground (arith, h))

-- A request that answers leaves a run in the slot.
abbrev Serves : ℕ → ℕ → Outcome EnqueueResult × Db → Type 0
Serves id s (raises e, db) = Unit
Serves id s (returns result, db) = is_served id s db ≡ true

module _ (q : Request) (id s : ℕ) (db : Db) where
  inserted :
      (r : Run)
      → in_slot id RunTrigger.scheduled s r ≡ true
      → (o : Option Db) → insert_run r db ≡ o
      → (k : Outcome EnqueueResult × Db) (result : EnqueueResult) (event : Db → Db)
      → ((out : Db) → (event out).runs ≡ out.runs)
      → Serves id s k
      → Serves id s (elim o [ none ↦ k | some out ↦ (returns result, event out) ])
  inserted r h none e k result event same served = served
  inserted r h (some out) e k result event same served =
      rw (same out) (inserted-served id s r db h e)

  slot_holder-Serves :
      (o : Option Run)
      → find (in_slot id RunTrigger.scheduled s) db.runs ≡ o
      → (k : Outcome EnqueueResult × Db) → Serves id s k
      → Serves id s
          (elim o [ none ↦ k | some r ↦ (returns (record { run = r; created = false }), db) ])
  slot_holder-Serves none e k served = served
  slot_holder-Serves (some r) e k served = find-any (in_slot id RunTrigger.scheduled s) db.runs e

  record_skipped-Serves : Serves id s (record_skipped q id (some s) db)
  unfolding record_skipped slot_holder
  record_skipped-Serves = ground (
    arith,
    inserted (skipped_run q id (some s) db.next_id) (ground arith)
        (insert_run (skipped_run q id (some s) db.next_id) db) refl (raises integrity_error, db)
        (record { run = skipped_run q id (some s) db.next_id; created = true }) (λ (x : Db). x)
        (λ (x : Db). refl) tt,
    slot_holder-Serves (find (in_slot id RunTrigger.scheduled s) db.runs) refl
        (raises integrity_error, db) tt,
  )

  settled_or :
      (o : Option Run) (k : Outcome EnqueueResult × Db)
      → Serves id s k
      → Serves id s
          (elim o [ none ↦ k | some active ↦ settle q id RunTrigger.scheduled (some s) active db ])
  unfolding settle
  settled_or none k served = served
  settled_or (some active) k served = record_skipped-Serves

  resolve_conflict-Serves : Serves id s (resolve_conflict q id RunTrigger.scheduled (some s) db)
  unfolding resolve_conflict existing_slot slot_holder
  resolve_conflict-Serves =
      slot_holder-Serves (find (in_slot id RunTrigger.scheduled s) db.runs) refl _
        (settled_or (active_for_profile id db.runs) (raises integrity_error, db) tt)

  insert_queued-Serves : Serves id s (insert_queued q id RunTrigger.scheduled (some s) db)
  unfolding insert_queued
  insert_queued-Serves =
      let run = queued_run q id RunTrigger.scheduled (some s) db.next_id in
      inserted run (ground arith) (insert_run run db) refl _ (record { run = run; created = true })
        (record_run_transition "backup_run_queued" run.id RunStatus.queued RunStage.queued none)
        (λ out. refl) resolve_conflict-Serves

  pub enqueue_scheduled-Serves : Serves id s (enqueue_scheduled q id s db db)
  unfolding enqueue_scheduled enqueue existing_slot slot_holder
  enqueue_scheduled-Serves = go (not (is_enqueueable id db))
    where
      go :
          (b : Bool)
          → Serves id s (
              if b
              then (raises (not_found "enabled backup profile not found"), db)
              else elim (find (in_slot id RunTrigger.scheduled s) db.runs) [
                | some r ↦ (returns (record { run = r; created = false }), db)
                | none ↦ elim (active_for_profile id db.runs) [
                  | some active ↦ settle q id RunTrigger.scheduled (some s) active db
                  | none ↦ insert_queued q id RunTrigger.scheduled (some s) db
                ]
              ])
      go true = tt
      go false =
          slot_holder-Serves (find (in_slot id RunTrigger.scheduled s) db.runs) refl _
            (settled_or (active_for_profile id db.runs) _ insert_queued-Serves)

-- Runs are never taken away by a request.
Made-keeps :
    (q : Request) (id s id' s' : ℕ) (db : Db) (p : Outcome EnqueueResult × Db)
    → Made q id (some s) db RunTrigger.scheduled p
    → is_served id' s' db ≡ true
    → is_served id' s' p.1 ≡ true
Made-keeps q id s id' s' db p (inl (same, _)) h = rw same h
Made-keeps q id s id' s' db p (inr (inl (_, (e, _)))) h =
    rw
      (
        (insert_run-Inserts _ db e).rows,
        any-append (in_slot id' RunTrigger.scheduled s') db.runs _,
        h,
      )
      refl
Made-keeps q id s id' s' db p (inr (inr (out, e, same, _))) h =
    rw
      (
        same,
        (insert_run-Inserts _ db e).rows,
        any-append (in_slot id' RunTrigger.scheduled s') db.runs _,
        h,
      )
      refl

-- Where a profile is due, its slot has a run.
abbrev pub is_slot_served : ℕ → Db → Profile → Bool
is_slot_served now db p =
    not (is_due now p) || elim p.next_scheduled_at [ none ↦ true | some s ↦ is_served p.id s db ]

slot_of :
    (now : ℕ) (db : Db) (p : Profile)
    → ((s : ℕ) → p.next_scheduled_at ≡ some s → leb s now ≡ true → is_served p.id s db ≡ true)
    → is_slot_served now db p ≡ true
slot_of now db p h = go p.next_scheduled_at h
  where
    go :
        (o : Option ℕ)
        → ((s : ℕ) → o ≡ some s → leb s now ≡ true → is_served p.id s db ≡ true)
        → (not (is_scheduled p && is_past now o)
            || elim o [ none ↦ true | some s ↦ is_served p.id s db ])
          ≡ true
    go none h = ground arith
    go (some s) h = ground (arith, h s refl)

kept_slot :
    (now : ℕ) (db out : Db) (p : Profile)
    → ((i s : ℕ) → is_served i s db ≡ true → is_served i s out ≡ true)
    → is_slot_served now db p ≡ true
    → is_slot_served now out p ≡ true
kept_slot now db out p keep h = go p.next_scheduled_at h
  where
    go :
        (o : Option ℕ)
        → (not (is_scheduled p && is_past now o)
            || elim o [ none ↦ true | some s ↦ is_served p.id s db ])
          ≡ true
        → (not (is_scheduled p && is_past now o)
            || elim o [ none ↦ true | some s ↦ is_served p.id s out ])
          ≡ true
    go none h = h
    go (some s) h = ground (arith, h, keep p.id s)

enqueue_scheduled-Made :
    (q : Request) (id s : ℕ) (db : Db)
    → Made q id (some s) db RunTrigger.scheduled (enqueue_scheduled q id s db db)
unfolding enqueue_scheduled
enqueue_scheduled-Made q id s db = enqueue-Made q id (some s) db RunTrigger.scheduled db

module _ (zone : Zone) (requests : ℕ → Request) (now : ℕ) where
  -- What holds of the runs after a round for the due profile `p`.
  record Round (p : Profile) (due : Option ℕ) (db : Db) (pass : Pass) : Type 0 where
    keeps : (i s : ℕ) → is_served i s db ≡ true → is_served i s pass.db ≡ true
    serves : (s : ℕ) → due ≡ some s → leb s now ≡ true → is_served p.id s pass.db ≡ true

  visit_due-Round :
      (p : Profile) (due : Option ℕ) (db : Db) {pass : Pass}
      → visit_due zone requests now p due db ≡ returns pass
      → Round p due db pass
  visit_due-Round p none db {pass} h = go (is_once p.schedule_kind) h
    where
      idle : (next : Option ℕ) → Round p none db (moved p [] db next)
      idle next = record { keeps = λ i s e. e; serves = λ s e k. ground (arith, e) }

      go :
          (b : Bool)
          → (if b
              then returns (moved p [] db none)
              else next_scheduled_time zone p now >>= λ next. returns (moved p [] db next))
            ≡ returns pass
          → Round p none db pass
      go true h = subst (Round p none db) (returns-value h) (idle none)
      go false h =
          let (next, e, g) =
            bind-returns (next_scheduled_time zone p now) (λ next. returns (moved p [] db next))
              h in
          subst (Round p none db) (returns-value g) (idle next)
  visit_due-Round p (some due) db {pass} h = go (leb due now) refl h
    where
      answered :
          (o : Outcome EnqueueResult × Db)
          → Made (requests p.id) p.id (some due) db RunTrigger.scheduled o
          → Serves p.id due o
          → after_enqueue zone now p due o ≡ returns pass
          → Round p (some due) db pass
      answered (raises e, out) m served h = ground (arith, h)
      answered (returns queued, out) m served h =
          let (next, e, g) =
            bind-returns (next_cursor zone p (max due now))
              (λ next. returns (moved p (result_of queued ∷ []) out next)) h in
          subst (Round p (some due) db) (returns-value g) (record {
            keeps = λ i s k. Made-keeps (requests p.id) p.id due i s db (returns queued, out) m k;
            serves = λ s e k. subst (λ t. is_served p.id t out ≡ true) (cc) served;
          })

      go :
          (b : Bool)
          → leb due now ≡ b
          → (if b
              then after_enqueue zone now p due (enqueue_scheduled (requests p.id) p.id due db db)
              else returns (moved p [] db (some due)))
            ≡ returns pass
          → Round p (some due) db pass
      go true k h =
          answered (enqueue_scheduled (requests p.id) p.id due db db)
            (enqueue_scheduled-Made (requests p.id) p.id due db)
            (enqueue_scheduled-Serves (requests p.id) p.id due db) h
      go false k h =
          subst (Round p (some due) db) (returns-value h)
            (record { keeps = λ i s e. e; serves = λ s e g. ground (arith, e, k, g) })

  visit-keeps :
      (p : Profile) (db : Db) {pass : Pass}
      → visit zone requests now p db ≡ returns pass
      → ((i s : ℕ) → is_served i s db ≡ true → is_served i s pass.db ≡ true)
        × (is_slot_served now pass.db p ≡ true)
  unfolding visit
  visit-keeps p db {pass} h = go (is_scheduled p) refl h
    where
      serving : Round p p.next_scheduled_at db pass → is_slot_served now pass.db p ≡ true
      serving r = slot_of now pass.db p r.serves

      go :
          (b : Bool)
          → is_scheduled p ≡ b
          → (if b
              then visit_due zone requests now p p.next_scheduled_at db
              else returns (record { results = []; profiles = p ∷ []; db = db }))
            ≡ returns pass
          → ((i s : ℕ) → is_served i s db ≡ true → is_served i s pass.db ≡ true)
            × (is_slot_served now pass.db p ≡ true)
      go true k h = let r = visit_due-Round p p.next_scheduled_at db h in (r.keeps, serving r)
      go false k h = (
        subst (λ (x : Pass). (i s : ℕ) → is_served i s db ≡ true → is_served i s x.db ≡ true)
            (returns-value h) (λ i s e. e),
        ground (arith, k),
      )

  visit_all-served :
      (ps : List Profile) (db : Db) {pass : Pass}
      → visit_all zone requests now ps db ≡ returns pass
      → ((i s : ℕ) → is_served i s db ≡ true → is_served i s pass.db ≡ true)
        × All (λ p. is_slot_served now pass.db p ≡ true) ps
  unfolding visit_all
  visit_all-served [] db h = (
    subst (λ (x : Pass). (i s : ℕ) → is_served i s db ≡ true → is_served i s x.db ≡ true)
        (returns-value h) (λ i s e. e),
    tt,
  )
  visit_all-served (p ∷ ps) db {pass} h =
      let (first, e, h1) = bind-returns (visit zone requests now p db) _ h in
      let (others, e1, h2) =
        bind-returns (visit_all zone requests now ps first.db)
          (λ others. returns (record {
            results = first.results ++ others.results;
            profiles = first.profiles ++ others.profiles;
            db = others.db;
          }))
          h1 in
      let one = visit-keeps p db e in
      let rest = visit_all-served ps first.db e1 in
      subst
        (λ (x : Pass).
          ((i s : ℕ) → is_served i s db ≡ true → is_served i s x.db ≡ true)
          × All (λ p. is_slot_served now x.db p ≡ true) (p ∷ ps))
        (returns-value h2)
        (
          (λ i s k. rest.0 i s (one.0 i s k)),
          (kept_slot now first.db others.db p rest.0 one.1, rest.1),
        )

-- No slot is lost: where a pass is committed, each profile that was due has a run in the slot that was due,
-- whatever its status, and a slot that had a run before has one still.
pub tick-served :
    (zones : String → Zone) (requests : ℕ → Request) (stored : Option String) (now : ℕ)
    (timezone : String) (db : Db) (id s : ℕ) {results : List SchedulerResult}
    → (tick zones requests stored now timezone db).0 ≡ returns results
    → All
        (λ p. is_slot_served now (tick zones requests stored now timezone db).1 p ≡ true)
        db.profiles
      × ((not (is_served id s db) || is_served id s (tick zones requests stored now timezone db).1)
          ≡ true)
unfolding tick
tick-served zones requests stored now timezone db id s {results} h =
    go (visit_all (chosen_zone zones stored timezone) requests now db.profiles db) refl h
  where
    go :
        (o : Outcome Pass)
        → visit_all (chosen_zone zones stored timezone) requests now db.profiles db ≡ o
        → (committed db o).0 ≡ returns results
        → All (λ p. is_slot_served now (committed db o).1 p ≡ true) db.profiles
          × ((not (is_served id s db) || is_served id s (committed db o).1) ≡ true)
    go (raises e) k h = ground (arith, h)
    go (returns pass) k h =
        let r =
          visit_all-served (chosen_zone zones stored timezone) requests now db.profiles db k in
        (r.1, ground (arith, r.0 id s))
