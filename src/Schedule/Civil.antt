-- ===== src/Schedule/Civil.antt =====
-- Local dates and times, as `datetime` has them (src/application/scheduling.py computes with them).
pub mod Order
use backup_telebot.Prelude.{
  ℕ, zero, suc, ◌+◌, ◌-◌, ◌*◌, ◌/◌, ◌%◌, ◌≤◌, ◌<◌, Bool, true, false, not, ◌&&◌, ◌||◌, ◌==◌, ltb,
  if◌then◌else◌,
}

-- A local date and time: the microseconds since midnight stand for hour, minute, second and microsecond.
pub record Local : Type 0 where
  pub year : ℕ
  pub month : ℕ
  pub day : ℕ
  pub clock : ℕ
  pub is_fold : Bool

abbrev pub minute_length : ℕ
minute_length = 60000000

abbrev pub day_length : ℕ
day_length = 86400000000

unfoldable pub is_leap : ℕ → Bool
is_leap y = (y % 4 == 0) && (not (y % 100 == 0) || (y % 400 == 0))

-- `calendar.monthrange(year, month)[1]`
unfoldable pub month_length : ℕ → ℕ → ℕ
month_length y m =
    if m == 2
    then (if is_leap y then 29 else 28)
    else if (m == 4) || ((m == 6) || ((m == 9) || (m == 11)))
    then 30
    else 31

unfoldable pub days_before_month : ℕ → ℕ → ℕ
days_before_month y zero = 0
days_before_month y (suc m) = days_before_month y m + (if m == 0 then 0 else month_length y m)

unfoldable pub days_before_year : ℕ → ℕ
days_before_year y = ((y - 1) * 365 + (y - 1) / 4 + (y - 1) / 400) - (y - 1) / 100

-- `local.toordinal()`
unfoldable pub ordinal : Local → ℕ
ordinal l = days_before_year l.year + days_before_month l.year l.month + l.day

-- `local.weekday()`
unfoldable pub weekday : Local → ℕ
weekday l = (ordinal l + 6) % 7

abbrev pub clock_at : ℕ → ℕ → ℕ
clock_at hour minute = (hour * 60 + minute) * minute_length

-- `a > b` of two local times of one zone, which leaves `fold` out.
unfoldable pub later : Local → Local → Bool
later a b =
    ltb b.year a.year
    || ((a.year == b.year)
        && (ltb b.month a.month
            || ((a.month == b.month)
                && (ltb b.day a.day || ((a.day == b.day) && ltb b.clock a.clock)))))

-- The day after, at the same time; a sum with a `timedelta` has no fold.
unfoldable pub next_day : Local → Local
next_day l =
    if ltb l.day (month_length l.year l.month)
    then record l { day = suc l.day; is_fold = false }
    else if ltb l.month 12
    then record l { month = suc l.month; day = 1; is_fold = false }
    else record l { year = suc l.year; month = 1; day = 1; is_fold = false }

-- `local + timedelta(days=days)`
unfoldable pub add_days : ℕ → Local → Local
add_days zero l = record l { is_fold = false }
add_days (suc days) l = next_day (add_days days l)

-- A date of the calendar.
pub record IsDate (l : Local) : Type 0 where
  pub year : 1 ≤ l.year
  pub month : (1 ≤ l.month) × (l.month ≤ 12)
  pub day : (1 ≤ l.day) × (l.day ≤ month_length l.year l.month)
  pub clock : l.clock < day_length
