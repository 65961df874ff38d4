-- ===== src/Schedule/Next.antt =====
-- `next_scheduled_time` of src/application/scheduling.py.
--
-- The time zone and the reader of cron expressions are parameters. An instant is a number of
-- microseconds, so `_as_utc` is the identity. `schedule_time` is the pair that "HH:MM" stands for.
pub mod Wall
pub mod First
use backup_telebot.Prelude.{
  ℕ, zero, suc, ◌+◌, ◌-◌, ◌*◌, ◌%◌, min, String, Bool, true, false, not, ◌==◌, Option, none, some,
  if◌then◌else◌,
}
use backup_telebot.Domain.{ScheduleKind}
use backup_telebot.Store.{Outcome, returns, raises, value_error, Profile}
use backup_telebot.Fallible.{◌>>=◌}
use backup_telebot.Schedule.Civil.{
  Local, minute_length, day_length, clock_at, month_length, weekday, later, add_days,
}

-- `ZoneInfo(timezone)` and `croniter(expression, local).get_next(datetime)` in that zone.
pub record Zone : Type 0 where
  pub to_local : ℕ → Local
  pub to_utc : Local → ℕ
  pub cron_next : String → Local → Outcome Local

-- `local.replace(hour=hour, minute=minute, second=0, microsecond=0)`
abbrev pub at_time : ℕ × ℕ → Local → Local
at_time time l = record l { clock = clock_at time.0 time.1 }

-- `if candidate <= local: ...`
abbrev pub unless_later : Local → Local → Local → Local
unless_later candidate l other = if later candidate l then candidate else other

unfoldable pub next_daily : ℕ × ℕ → Local → Local
next_daily time l = unless_later (at_time time l) l (add_days 1 (at_time time l))

unfoldable pub next_weekly : ℕ → ℕ × ℕ → Local → Local
next_weekly day time l =
    let days = (day + 7 - weekday l) % 7 in
    let candidate = at_time time (add_days days l) in
    unless_later candidate l (add_days 7 candidate)

abbrev pub month_after : ℕ → ℕ
month_after month = month % 12 + 1

abbrev pub year_after : ℕ → ℕ → ℕ
year_after year month = year + (if month_after month == 1 then 1 else 0)

-- The day of the month, or the last one.
abbrev pub in_month : ℕ → ℕ → ℕ → Local → Local
in_month monthday year month l = record l {
  year = year;
  month = month;
  day = min monthday (month_length year month);
}

unfoldable pub next_monthly : ℕ → ℕ × ℕ → Local → Local
next_monthly monthday time l =
    let candidate = at_time time (in_month monthday l.year l.month l) in
    unless_later candidate l
      (in_month monthday (year_after l.year l.month) (month_after l.month) candidate)

abbrev pub every : ℕ → Option ℕ → ℕ → Outcome (Option ℕ)
every unit none after = raises (value_error "interval schedule is incomplete")
every unit (some interval) after = returns (some (after + unit * interval))

abbrev pub calendar_next : Zone → ℕ → (Local → Local) → Outcome (Option ℕ)
calendar_next zone after next = returns (some (zone.to_utc (next (zone.to_local after))))

abbrev pub timed : Option (ℕ × ℕ) → (ℕ × ℕ → Outcome (Option ℕ)) → Outcome (Option ℕ)
timed none next = raises (value_error "calendar schedule is incomplete")
timed (some time) next = next time

abbrev pub dated : String → Option ℕ → (ℕ → Outcome (Option ℕ)) → Outcome (Option ℕ)
dated error none next = raises (value_error error)
dated error (some day) next = next day

abbrev pub by_cron : Zone → ℕ → Option String → Outcome (Option ℕ)
by_cron zone after none = raises (value_error "cron schedule is incomplete")
by_cron zone after (some expression) =
    zone.cron_next expression (zone.to_local after) >>= λ l. returns (some (zone.to_utc l))

-- next_scheduled_time
abbrev pub next_of : Zone → Profile → ℕ → ScheduleKind → Outcome (Option ℕ)
next_of zone profile after ScheduleKind.manual = returns none
next_of zone profile after ScheduleKind.once = returns none
next_of zone profile after ScheduleKind.every_n_minutes =
    every minute_length profile.schedule_interval after
next_of zone profile after ScheduleKind.every_n_hours =
    every (60 * minute_length) profile.schedule_interval after
next_of zone profile after ScheduleKind.every_n_days =
    every day_length profile.schedule_interval after
next_of zone profile after ScheduleKind.cron = by_cron zone after profile.schedule_cron
next_of zone profile after ScheduleKind.daily =
    timed profile.schedule_time λ time. calendar_next zone after (next_daily time)
next_of zone profile after ScheduleKind.weekly = timed profile.schedule_time λ time.
    dated "weekly schedule is incomplete" profile.schedule_weekday
      λ day. calendar_next zone after (next_weekly day time)
next_of zone profile after ScheduleKind.monthly = timed profile.schedule_time λ time.
    dated "monthly schedule is incomplete" profile.schedule_monthday
      λ day. calendar_next zone after (next_monthly day time)

unfoldable pub next_scheduled_time : Zone → Profile → ℕ → Outcome (Option ℕ)
next_scheduled_time zone profile after = next_of zone profile after profile.schedule_kind
