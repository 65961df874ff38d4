-- ===== src/Profiles/Timing.antt =====
-- `ScheduleConfig` of src/application/profile_config.py, and the columns that
-- src/application/backup_service.py writes from it.
--
-- `\d` and `int` read any decimal digit of Unicode: which characters those are is a parameter, as are the
-- checks on a cron expression.
pub mod Complete
use backup_telebot.Prelude.{
  ℕ, ◌+◌, ◌*◌, String, Bool, true, false, not, ◌&&◌, ◌||◌, ◌==◌, ltb, leb, if◌then◌else◌, Option,
  none, some, is_none, is_some, get_or, List, [], ◌∷◌,
}
use backup_telebot.Domain.{ScheduleKind}
use backup_telebot.Store.{Outcome, returns, raises, value_error, Profile}
use backup_telebot.Fallible.{◌>>◌, require}
use backup_telebot.Paths.Text.{Text}

pub record ScheduleConfig : Type 0 where
  pub kind : ScheduleKind
  pub interval : Option ℕ
  pub time : Option Text
  pub weekday : Option ℕ
  pub monthday : Option ℕ
  pub cron_expression : Option String

-- `digit` is the value of a decimal digit, `normalized` is `" ".join(expression.split())`, and `check_cron`
-- makes the other checks on an expression.
pub record Reader : Type 0 where
  pub digit : ℕ → Option ℕ
  pub normalized : String → String
  pub check_cron : String → Outcome (Unit {0})

abbrev pub is_weekly : ScheduleKind → Bool
is_weekly ScheduleKind.weekly = true
is_weekly _ = false

abbrev pub is_monthly : ScheduleKind → Bool
is_monthly ScheduleKind.monthly = true
is_monthly _ = false

abbrev pub is_cron_kind : ScheduleKind → Bool
is_cron_kind ScheduleKind.cron = true
is_cron_kind _ = false

abbrev pub is_timed : ScheduleKind → Bool
is_timed ScheduleKind.daily = true
is_timed ScheduleKind.weekly = true
is_timed ScheduleKind.monthly = true
is_timed _ = false

-- The greatest interval, for the kinds that have one.
abbrev pub interval_limit : ScheduleKind → Option ℕ
interval_limit ScheduleKind.every_n_minutes = some 10080
interval_limit ScheduleKind.every_n_hours = some 8760
interval_limit ScheduleKind.every_n_days = some 3650
interval_limit _ = none

abbrev pub is_interval : Option ℕ → Option ℕ → Bool
is_interval none interval = is_none interval
is_interval (some limit) none = false
is_interval (some limit) (some n) = leb 1 n && leb n limit

-- `[01]\d|2[0-3]`
abbrev pub is_hour : Reader → ℕ → ℕ → Bool
is_hour reader a b =
    ((a == b'0') || (a == b'1')) && is_some (reader.digit b)
    || ((a == b'2') && (leb b'0' b && leb b b'3'))

-- `re.fullmatch(r"(?:[01]\d|2[0-3]):[0-5]\d", time)`
abbrev pub is_time : Reader → Text → Bool
is_time reader (a ∷ b ∷ colon ∷ c ∷ d ∷ []) =
    is_hour reader a b
    && ((colon == b':') && (leb b'0' c && (leb c b'5' && is_some (reader.digit d))))
is_time reader _ = false

abbrev pub is_timing : Reader → Bool → Option Text → Bool
is_timing reader false time = is_none time
is_timing reader true none = false
is_timing reader true (some time) = is_time reader time

abbrev pub same_bool : Bool → Bool → Bool
same_bool true b = b
same_bool false b = not b

abbrev pub is_day_of : ℕ → ℕ → Option ℕ → Bool
is_day_of low high none = true
is_day_of low high (some n) = leb low n && leb n high

abbrev pub interval_error : Option ℕ → String
interval_error none = "interval is not valid for this schedule"
interval_error (some limit) = "invalid schedule interval"

abbrev pub time_error : Bool → String
time_error false = "time is not valid for this schedule"
time_error true = "time must use HH:MM"

abbrev pub check_expression : Reader → Bool → Option String → Outcome (Unit {0})
check_expression reader false none = returns tt
check_expression reader false (some expression) =
    raises (value_error "cron expression is not valid for this schedule")
check_expression reader true none = raises (value_error "cron schedules require an expression")
check_expression reader true (some expression) = reader.check_cron expression

-- validate
unfoldable pub validate : Reader → ScheduleConfig → Outcome ScheduleConfig
validate reader c =
    require (is_interval (interval_limit c.kind) c.interval)
      (value_error (interval_error (interval_limit c.kind)))
    >> (require (is_timing reader (is_timed c.kind) c.time)
          (value_error (time_error (is_timed c.kind)))
        >> (require (same_bool (is_weekly c.kind) (is_some c.weekday))
              (value_error "weekly schedules require exactly one weekday")
            >> (require (is_day_of 0 6 c.weekday) (value_error "weekday must be between 0 and 6")
                >> (require (same_bool (is_monthly c.kind) (is_some c.monthday))
                      (value_error "monthly schedules require exactly one day")
                    >> (require (is_day_of 1 28 c.monthday)
                          (value_error "month day must be between 1 and 28")
                        >> (check_expression reader (is_cron_kind c.kind) c.cron_expression
                            >> returns c))))))

-- normalized_cron_expression
unfoldable pub normalized_cron_expression : Reader → ScheduleConfig → Option String
normalized_cron_expression reader c = elim c.cron_expression [
  | none ↦ none
  | some expression ↦ some (reader.normalized expression)
]

abbrev pub digit_value : Reader → ℕ → ℕ
digit_value reader a = get_or 0 (reader.digit a)

-- What `(int(value) for value in time.split(":"))` reads of a time that has passed.
abbrev pub time_of : Reader → Option Text → Option (ℕ × ℕ)
time_of reader (some (a ∷ b ∷ colon ∷ c ∷ d ∷ [])) = some (
  digit_value reader a * 10 + digit_value reader b,
  digit_value reader c * 10 + digit_value reader d,
)
time_of reader _ = none

-- The columns of a new or an edited profile.
unfoldable pub set_schedule : Reader → ScheduleConfig → Profile → Profile
set_schedule reader c p = record p {
  schedule_kind = c.kind;
  schedule_interval = c.interval;
  schedule_time = time_of reader c.time;
  schedule_weekday = c.weekday;
  schedule_monthday = c.monthday;
  schedule_cron = normalized_cron_expression reader c;
}
