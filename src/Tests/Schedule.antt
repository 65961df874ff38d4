-- ===== src/Tests/Schedule.antt =====
-- A zone without clock changes, and profiles that are due.
use backup_telebot.Jobs.Enqueue.{
  insert_queued, active_for_profile, slot_holder, existing_slot, is_enqueueable, enqueue,
  enqueue_scheduled, Request,
}
use backup_telebot.Schedule.Tick.Served.{tick-served, is_served, is_slot_served}
use backup_telebot.Fallible.{returns-value}
use backup_telebot.Schedule.Tick.{next_cursor, visit, visit_all, tick, SchedulerResult}
use backup_telebot.Prelude.{
  any, find, ◌||◌, not, subst, ℕ, ◌+◌, ◌-◌, ◌/◌, ◌%◌, ◌<◌, ◌≡◌, refl, arith, true, false, none,
  some, List, [], ◌∷◌, All, count,
}
use backup_telebot.Domain.{RunStatus, ScheduleKind}
use backup_telebot.Store.{insert_run, Profile, Db, returns}
use backup_telebot.Schedule.Civil.{
  next_day, is_leap, days_before_year, days_before_month, weekday, month_length, Local, IsDate,
  day_length, add_days, ordinal, later,
}
use backup_telebot.Schedule.Civil.Order.{
  stamp, add_days-IsDate, ordinal-add_days, clock-add_days, later-stamp,
}
use backup_telebot.Schedule.Tick.Settled.{is_unsettled, tick-settled}
use backup_telebot.Schedule.Next.{next_weekly, Zone, next_scheduled_time}
use backup_telebot.Schedule.Next.Wall.{IsTime, IsNext}
use backup_telebot.Schedule.Next.First.{
  fold-add_days, IsZone, IsChecked, IsCalendar, by_week, Fits, next_scheduled_time_first,
  next_scheduled_time_forward,
}

abbrev epoch : Local
epoch = record { year = 1970; month = 1; day = 1; clock = 0; is_fold = false }

epoch-IsDate : IsDate epoch
unfolding month_length
epoch-IsDate = record {
  year = omega arith;
  month = omega arith;
  day = omega arith;
  clock = omega arith;
}

abbrev pub utc : Zone
utc = record {
  to_local = λ u. record (add_days (u / day_length) epoch) { clock = u % day_length };
  to_utc = λ l. stamp l - stamp epoch;
  cron_next = λ e l. returns (add_days 1 l);
}

ordinal-clock : (l : Local) (c : ℕ) → ordinal (record l { clock = c }) ≡ ordinal l
unfolding ordinal
ordinal-clock l c = refl

utc-stamp : (u : ℕ) → stamp (utc.to_local u) ≡ u + stamp epoch
unfolding stamp
utc-stamp u = omega (
  arith,
  ordinal-clock (add_days (u / day_length) epoch) (u % day_length),
  ordinal-add_days (u / day_length) epoch epoch-IsDate,
)

utc-IsDate : (u : ℕ) → IsDate (utc.to_local u)
utc-IsDate u =
    let d = add_days-IsDate (u / day_length) epoch epoch-IsDate in
    record { year = d.year; month = d.month; day = d.day; clock = omega arith }

utc-IsZone : IsZone utc
unfolding stamp
utc-IsZone = record {
  date = utc-IsDate;
  forward =
      λ u l d h f. omega (arith, utc-stamp u, later-stamp l (utc.to_local u) d (utc-IsDate u) h);
  cron_forward = λ e u l h.
      let same : add_days 1 (utc.to_local u) ≡ l = returns-value h in
      subst (λ x. u < stamp x - stamp epoch) same
        (omega (
          arith,
          utc-stamp u,
          ordinal-add_days 1 (utc.to_local u) (utc-IsDate u),
          clock-add_days 1 (utc.to_local u),
        ));
}

-- Thursdays at ten.
abbrev pub weekly : Profile
weekly = record {
  id = 7;
  enabled = true;
  archived_at = none;
  schedule_kind = ScheduleKind.weekly;
  schedule_interval = none;
  schedule_time = some (10, 0);
  schedule_weekday = some 3;
  schedule_monthday = none;
  schedule_cron = none;
  next_scheduled_at = some 36000000000;
}

weekly-IsCalendar : IsCalendar weekly (10, 0) 3
weekly-IsCalendar = by_week refl refl (omega arith) refl (omega arith)

weekly-IsTime : IsTime (10, 0)
weekly-IsTime = omega arith

weekly-IsChecked : IsChecked weekly
weekly-IsChecked = record {
  interval = λ n h. ground (arith, h);
  time = λ t h. subst IsTime (cc) (weekly-IsTime);
  weekday = λ n h. ground (arith, h);
  monthday = λ n h. ground (arith, h);
}

-- Half past ten on the first day, a Thursday: the next run is a week later.
next_weekly_run : next_scheduled_time utc weekly 37800000000 ≡ returns (some 640800000000)
unfolding next_scheduled_time next_weekly weekday ordinal days_before_month days_before_year
    month_length is_leap add_days next_day later stamp
next_weekly_run = refl

next_scheduled_time_first_example :
    (c : Local) × (next_scheduled_time utc weekly 37800000000 ≡ returns (some (utc.to_utc c)))
    × IsNext (Fits ScheduleKind.weekly (10, 0) 3) (utc.to_local 37800000000) c
next_scheduled_time_first_example =
    next_scheduled_time_first utc weekly 37800000000 (10, 0) 3 weekly-IsCalendar
      (utc-IsDate 37800000000)

utc_fold : (u : ℕ) → (utc.to_local u).is_fold ≡ false
utc_fold u = fold-add_days (u / day_length) epoch

next_scheduled_time_forward_example : 37800000000 < 640800000000
next_scheduled_time_forward_example =
    next_scheduled_time_forward utc weekly 37800000000 {t = 640800000000} utc-IsZone
      weekly-IsChecked (utc_fold 37800000000) next_weekly_run

abbrev db : Db
db = record { next_id = 1; runs = []; profiles = weekly ∷ []; deliveries = []; audit = [] }

abbrev request : ℕ → Request
request id = record { now = 37800000000; uuid = "run-a"; skip_uuid = "skip-a"; snapshot = "{}" }

abbrev queued : List SchedulerResult
queued = record { run_id = 1; status = RunStatus.queued } ∷ []

tick_runs : (tick (λ name. utc) request (some "UTC") 37800000000 "UTC" db).0 ≡ returns queued
unfolding tick visit_all visit next_cursor next_scheduled_time enqueue_scheduled enqueue
    is_enqueueable existing_slot slot_holder active_for_profile insert_queued insert_run find any
tick_runs = refl

tick-settled_example :
    count
      (is_unsettled 37800000000)
      (tick (λ name. utc) request (some "UTC") 37800000000 "UTC" db).1.profiles
    ≡ 0
tick-settled_example =
    tick-settled (λ name. utc) request (some "UTC") 37800000000 "UTC" db {results = queued}
      utc-IsZone (utc_fold 37800000000) (weekly-IsChecked, tt) tick_runs

tick-served_example :
    All
      (λ p.
        is_slot_served 37800000000
          (tick (λ name. utc) request (some "UTC") 37800000000 "UTC" db).1
          p
        ≡ true)
      (weekly ∷ [])
    × ((not (is_served 7 36000000000 db)
          || is_served 7 36000000000
              (tick (λ name. utc) request (some "UTC") 37800000000 "UTC" db).1)
        ≡ true)
tick-served_example =
    tick-served (λ name. utc) request (some "UTC") 37800000000 "UTC" db 7 36000000000
      {results = queued} tick_runs
