-- ===== src/Schedule/Tick/Settled.antt =====
-- What a pass of the scheduler leaves behind: cursors that lie ahead.
use backup_telebot.Schedule.Civil.{day_length, minute_length}
use backup_telebot.Domain.{ScheduleKind}
use backup_telebot.Prelude.{
  ◌*◌, sym, is_none, ap, not, ◌||◌, is_some, ℕ, max, ◌≡◌, refl, subst, arith, Bool, true, false,
  ◌&&◌, Option, none, some, List, [], ◌∷◌, ◌++◌, leb, if◌then◌else◌, count, All, count-append,
  String,
}
use backup_telebot.Store.{Outcome, returns, raises, Profile, Db}
use backup_telebot.Fallible.{◌>>=◌, bind-returns, returns-value}
use backup_telebot.Jobs.Enqueue.{EnqueueResult, Request, enqueue_scheduled}
use backup_telebot.Schedule.Next.{next_of, dated, timed, by_cron, every, Zone, next_scheduled_time}
use backup_telebot.Schedule.Next.First.{IsZone, IsChecked, next_scheduled_time_forward}
use backup_telebot.Schedule.Tick.{
  is_manual, committed, SchedulerResult, is_once, is_scheduled, Pass, next_cursor, moved, visit,
  visit_all, tick, visit_due, after_enqueue, chosen_zone,
}

abbrev pub is_past : ℕ → Option ℕ → Bool
is_past now none = false
is_past now (some due) = leb due now

-- A profile that a pass at `now` would queue.
abbrev pub is_due : ℕ → Profile → Bool
is_due now p = is_scheduled p && is_past now p.next_scheduled_at

-- A profile that a pass reads, with nothing to wait for: its cursor has come, or it has none, though it is
-- not one that runs once.
abbrev pub is_unsettled : ℕ → Profile → Bool
is_unsettled now p =
    is_scheduled p
    && (is_past now p.next_scheduled_at
        || (not (is_once p.schedule_kind) && is_none p.next_scheduled_at))

-- A cursor, where the kind of the schedule asks for one.
abbrev HasCursor : Profile → Option ℕ → Type 0
HasCursor p next = (is_manual p.schedule_kind || (is_once p.schedule_kind || is_some next)) ≡ true

every-some :
    (unit : ℕ) (o : Option ℕ) (after : ℕ) {next : Option ℕ}
    → every unit o after ≡ returns next
    → is_some next ≡ true
every-some unit none after h = ground (arith, h)
every-some unit (some n) after h = ap (λ o. is_some o) (sym (returns-value h))

timed-some :
    (time : Option (ℕ × ℕ)) (k : ℕ × ℕ → Outcome (Option ℕ)) {next : Option ℕ}
    → ((t : ℕ × ℕ) → k t ≡ returns next → is_some next ≡ true)
    → timed time k ≡ returns next
    → is_some next ≡ true
timed-some none k each h = ground (arith, h)
timed-some (some t) k each h = each t h

dated-some :
    (error : String) (day : Option ℕ) (k : ℕ → Outcome (Option ℕ)) {next : Option ℕ}
    → ((d : ℕ) → k d ≡ returns next → is_some next ≡ true)
    → dated error day k ≡ returns next
    → is_some next ≡ true
dated-some error none k each h = ground (arith, h)
dated-some error (some d) k each h = each d h

by_cron-some :
    (zone : Zone) (after : ℕ) (o : Option String) {next : Option ℕ}
    → by_cron zone after o ≡ returns next
    → is_some next ≡ true
by_cron-some zone after none h = ground (arith, h)
by_cron-some zone after (some expression) h =
    let (l, _, g) =
      bind-returns (zone.cron_next expression (zone.to_local after))
        (λ l. returns (some (zone.to_utc l))) h in
    ap (λ o. is_some o) (sym (returns-value g))

next_of-some :
    (zone : Zone) (p : Profile) (after : ℕ) (k : ScheduleKind) {next : Option ℕ}
    → next_of zone p after k ≡ returns next
    → (is_manual k || (is_once k || is_some next)) ≡ true
next_of-some zone p after ScheduleKind.manual h = refl
next_of-some zone p after ScheduleKind.once h = refl
next_of-some zone p after ScheduleKind.every_n_minutes h =
    every-some minute_length p.schedule_interval after h
next_of-some zone p after ScheduleKind.every_n_hours h =
    every-some (60 * minute_length) p.schedule_interval after h
next_of-some zone p after ScheduleKind.every_n_days h =
    every-some day_length p.schedule_interval after h
next_of-some zone p after ScheduleKind.cron h = by_cron-some zone after p.schedule_cron h
next_of-some zone p after ScheduleKind.daily h =
    timed-some p.schedule_time _ (λ t g. ap (λ o. is_some o) (sym (returns-value g))) h
next_of-some zone p after ScheduleKind.weekly h =
    timed-some p.schedule_time _
      (λ t g.
        dated-some _ p.schedule_weekday _ (λ d e. ap (λ o. is_some o) (sym (returns-value e))) g)
      h
next_of-some zone p after ScheduleKind.monthly h =
    timed-some p.schedule_time _
      (λ t g.
        dated-some _ p.schedule_monthday _ (λ d e. ap (λ o. is_some o) (sym (returns-value e))) g)
      h

next_scheduled_time-HasCursor :
    (zone : Zone) (p : Profile) (after : ℕ) {next : Option ℕ}
    → next_scheduled_time zone p after ≡ returns next
    → HasCursor p next
unfolding next_scheduled_time
next_scheduled_time-HasCursor zone p after h = next_of-some zone p after p.schedule_kind h

next_cursor-HasCursor :
    (zone : Zone) (p : Profile) (cursor : ℕ) {next : Option ℕ}
    → next_cursor zone p cursor ≡ returns next
    → HasCursor p next
unfolding next_cursor
next_cursor-HasCursor zone p cursor {next} h = go (is_once p.schedule_kind) refl h
  where
    go :
        (b : Bool)
        → is_once p.schedule_kind ≡ b
        → (if b then returns none else next_scheduled_time zone p cursor) ≡ returns next
        → HasCursor p next
    go true e h = ground (arith, e)
    go false e h = next_scheduled_time-HasCursor zone p cursor h

moved_none :
    (now : ℕ) (p : Profile) (next : Option ℕ)
    → is_past now next ≡ false
    → HasCursor p next
    → count (is_unsettled now) (record p { next_scheduled_at = next } ∷ []) ≡ 0
unfolding count
moved_none now p next h k = ground (arith, h, k)

unscheduled :
    (now : ℕ) (p : Profile) → is_scheduled p ≡ false → count (is_unsettled now) (p ∷ []) ≡ 0
unfolding count
unscheduled now p h = ground (arith, h)

module _ (zone : Zone) (requests : ℕ → Request) (now : ℕ) (z : IsZone zone)
    (f : (zone.to_local now).is_fold ≡ false) where
  next_cursor_past :
      (p : Profile) (next : Option ℕ)
      → IsChecked p
      → next_cursor zone p now ≡ returns next
      → is_past now next ≡ false
  unfolding next_cursor
  next_cursor_past p none c h = refl
  next_cursor_past p (some t) c h = go (is_once p.schedule_kind) h
    where
      go :
          (b : Bool)
          → (if b then returns none else next_scheduled_time zone p now) ≡ returns (some t)
          → leb t now ≡ false
      go true h = ground (arith, h)
      go false h = ground (arith, next_scheduled_time_forward zone p now z c f h)

  scheduled_past :
      (p : Profile) (next : Option ℕ)
      → IsChecked p
      → next_scheduled_time zone p now ≡ returns next
      → is_past now next ≡ false
  scheduled_past p none c h = refl
  scheduled_past p (some t) c h = ground (arith, next_scheduled_time_forward zone p now z c f h)

  after_enqueue_settled :
      (p : Profile) (due : ℕ) (o : Outcome EnqueueResult × Db) {pass : Pass}
      → IsChecked p
      → leb due now ≡ true
      → after_enqueue zone now p due o ≡ returns pass
      → count (is_unsettled now) pass.profiles ≡ 0
  after_enqueue_settled p due (raises e, db) c k h = ground (arith, h)
  after_enqueue_settled p due (returns queued, db) c k h =
      let (next, e, g) = bind-returns (next_cursor zone p (max due now)) _ h in
      let cursor : max due now ≡ now = ground (arith, k) in
      subst (λ (x : Pass). count (is_unsettled now) x.profiles ≡ 0) (returns-value g)
        (moved_none now p next
          (next_cursor_past p next c (subst (λ x. next_cursor zone p x ≡ returns next) cursor e))
          (next_cursor-HasCursor zone p (max due now) e))

  visit_due_settled :
      (p : Profile) (due : Option ℕ) (db : Db) {pass : Pass}
      → IsChecked p
      → visit_due zone requests now p due db ≡ returns pass
      → count (is_unsettled now) pass.profiles ≡ 0
  visit_due_settled p none db {pass} c h = go (is_once p.schedule_kind) refl h
    where
      go :
          (b : Bool)
          → is_once p.schedule_kind ≡ b
          → (if b
              then returns (moved p [] db none)
              else next_scheduled_time zone p now >>= λ next. returns (moved p [] db next))
            ≡ returns pass
          → count (is_unsettled now) pass.profiles ≡ 0
      go true k h =
          subst (λ (x : Pass). count (is_unsettled now) x.profiles ≡ 0) (returns-value h)
            (moved_none now p none refl (ground (arith, k)))
      go false k h =
          let (next, e, g) =
            bind-returns (next_scheduled_time zone p now) (λ next. returns (moved p [] db next))
              h in
          subst (λ (x : Pass). count (is_unsettled now) x.profiles ≡ 0) (returns-value g)
            (moved_none now p next (scheduled_past p next c e)
              (next_scheduled_time-HasCursor zone p now e))
  visit_due_settled p (some due) db {pass} c h = go (leb due now) refl h
    where
      go :
          (b : Bool)
          → leb due now ≡ b
          → (if b
              then after_enqueue zone now p due (enqueue_scheduled (requests p.id) p.id due db db)
              else returns (moved p [] db (some due)))
            ≡ returns pass
          → count (is_unsettled now) pass.profiles ≡ 0
      go true k h = after_enqueue_settled p due _ c k h
      go false k h =
          subst (λ (x : Pass). count (is_unsettled now) x.profiles ≡ 0) (returns-value h)
            (moved_none now p (some due) k (ground arith))

  visit-settled :
      (p : Profile) (db : Db) {pass : Pass}
      → IsChecked p
      → visit zone requests now p db ≡ returns pass
      → count (is_unsettled now) pass.profiles ≡ 0
  unfolding visit
  visit-settled p db {pass} c h = go (is_scheduled p) refl h
    where
      go :
          (b : Bool)
          → is_scheduled p ≡ b
          → (if b
              then visit_due zone requests now p p.next_scheduled_at db
              else returns (record { results = []; profiles = p ∷ []; db = db }))
            ≡ returns pass
          → count (is_unsettled now) pass.profiles ≡ 0
      go true k h = visit_due_settled p p.next_scheduled_at db c h
      go false k h =
          subst (λ (x : Pass). count (is_unsettled now) x.profiles ≡ 0) (returns-value h)
            (unscheduled now p k)

  pub visit_all-settled :
      (ps : List Profile) (db : Db) {pass : Pass}
      → All IsChecked ps
      → visit_all zone requests now ps db ≡ returns pass
      → count (is_unsettled now) pass.profiles ≡ 0
  unfolding visit_all count
  visit_all-settled [] db c h =
      subst (λ (x : Pass). count (is_unsettled now) x.profiles ≡ 0) (returns-value h) refl
  visit_all-settled (p ∷ ps) db {pass} c h =
      let (first, e, h1) = bind-returns (visit zone requests now p db) _ h in
      let (others, e1, h2) =
        bind-returns (visit_all zone requests now ps first.db)
          (λ others. returns (record {
            results = first.results ++ others.results;
            profiles = first.profiles ++ others.profiles;
            db = others.db;
          }))
          h1 in
      subst (λ (x : Pass). count (is_unsettled now) x.profiles ≡ 0) (returns-value h2)
        (omega (
          arith,
          count-append {0} (is_unsettled now) first.profiles others.profiles,
          visit-settled p db c.0 e,
          visit_all-settled ps first.db c.1 e1,
        ))

-- Where a pass at an instant is committed, every profile that the scheduler reads has a cursor after that
-- instant, or none if it runs once; the instant does not stand in the second pass of an hour that the clocks
-- repeat, and the schedules have no empty interval and times and days in their ranges.
pub tick-settled :
    (zones : String → Zone) (requests : ℕ → Request) (stored : Option String) (now : ℕ)
    (timezone : String) (db : Db) {results : List SchedulerResult}
    → IsZone (chosen_zone zones stored timezone)
    → ((chosen_zone zones stored timezone).to_local now).is_fold ≡ false
    → All IsChecked db.profiles
    → (tick zones requests stored now timezone db).0 ≡ returns results
    → count (is_unsettled now) (tick zones requests stored now timezone db).1.profiles ≡ 0
unfolding tick
tick-settled zones requests stored now timezone db {results} z f c h =
    go (visit_all (chosen_zone zones stored timezone) requests now db.profiles db) refl h
  where
    go :
        (o : Outcome Pass)
        → visit_all (chosen_zone zones stored timezone) requests now db.profiles db ≡ o
        → (committed db o).0 ≡ returns results
        → count (is_unsettled now) (committed db o).1.profiles ≡ 0
    go (raises e) k h = ground (arith, h)
    go (returns pass) k h =
        visit_all-settled (chosen_zone zones stored timezone) requests now z f db.profiles db c k
