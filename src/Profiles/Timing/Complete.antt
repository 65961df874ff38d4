-- ===== src/Profiles/Timing/Complete.antt =====
-- A schedule that is accepted can be computed: `ScheduleConfig.validate` of
-- src/application/profile_config.py and `next_scheduled_time` of src/application/scheduling.py.
use backup_telebot.Prelude.{
  inr, inl, ◌⊎◌, ◌∙◌, ap, get_or, ◌-◌, subst, ℕ, ◌+◌, ◌*◌, ◌≤◌, ◌<◌, String, Bool, true, false, not,
  ◌||◌, Option, none, some, is_some, [], ◌∷◌, ◌≡◌, refl, arith,
}
use backup_telebot.Domain.{ScheduleKind}
use backup_telebot.Store.{returns, value_error, Profile}
use backup_telebot.Fallible.{then-returns, require-returns}
use backup_telebot.Paths.Text.{Text}
use backup_telebot.Schedule.Civil.{day_length, minute_length}
use backup_telebot.Schedule.Next.{
  every, timed, dated, calendar_next, next_of, next_daily, next_weekly, next_monthly, next_of, Zone,
  next_scheduled_time,
}
use backup_telebot.Schedule.Next.Wall.{IsTime}
use backup_telebot.Schedule.Next.First.{IsChecked}
use backup_telebot.Schedule.Tick.{is_manual, is_once}
use backup_telebot.Profiles.Timing.{
  time_error, interval_error, digit_value, same_bool, ScheduleConfig, Reader, is_weekly, is_monthly,
  is_cron_kind, is_timed, interval_limit, is_interval, is_time, is_timing, is_day_of,
  check_expression, validate, normalized_cron_expression, time_of, set_schedule,
}

-- Digits are below ten, and those of ASCII have their value.
pub record IsReader (reader : Reader) : Type 0 where
  pub bounded : (a n : ℕ) → reader.digit a ≡ some n → n < 10
  pub ascii : (n : ℕ) → n < 10 → reader.digit (b'0' + n) ≡ some n

digit_value-bound : (reader : Reader) (a : ℕ) → IsReader reader → digit_value reader a < 10
digit_value-bound reader a r = go (reader.digit a) (r.bounded a)
  where
    go : (o : Option ℕ) → ((n : ℕ) → o ≡ some n → n < 10) → get_or 0 o < 10
    go none h = omega arith
    go (some n) h = h n refl

digit_value-ascii :
    (reader : Reader) (a : ℕ)
    → IsReader reader
    → b'0' ≤ a
    → a ≤ b'9'
    → digit_value reader a ≡ a - b'0'
digit_value-ascii reader a r h k =
    let same : b'0' + (a - b'0') ≡ a = omega (arith, h) in
    let e : reader.digit a ≡ some (a - b'0') =
      subst (λ x. reader.digit x ≡ some (a - b'0')) same
        (r.ascii (a - b'0') (omega (arith, h, k))) in
    ap (get_or 0) e

time_of-IsTime :
    (reader : Reader) (time : Text) {t : ℕ × ℕ}
    → IsReader reader
    → is_time reader time ≡ true
    → time_of reader (some time) ≡ some t
    → IsTime t
time_of-IsTime reader [] r h k = ground (arith, h)
time_of-IsTime reader (a ∷ []) r h k = ground (arith, h)
time_of-IsTime reader (a ∷ b ∷ []) r h k = ground (arith, h)
time_of-IsTime reader (a ∷ b ∷ colon ∷ []) r h k = ground (arith, h)
time_of-IsTime reader (a ∷ b ∷ colon ∷ c ∷ []) r h k = ground (arith, h)
time_of-IsTime reader (a ∷ b ∷ colon ∷ c ∷ d ∷ e ∷ rest) r h k = ground (arith, h)
time_of-IsTime reader (a ∷ b ∷ colon ∷ c ∷ d ∷ []) {t} r h k =
    let same : (
      digit_value reader a * 10 + digit_value reader b,
      digit_value reader c * 10 + digit_value reader d,
    )
        ≡ t =
      cc in
    subst IsTime same (
      ground (
        arith,
        h,
        digit_value-bound reader b r,
        digit_value-ascii reader a r,
        digit_value-ascii reader b r,
      ),
      ground (arith, h, digit_value-bound reader d r, digit_value-ascii reader c r),
    )

-- What `validate` has checked.
record Accepted (reader : Reader) (c : ScheduleConfig) : Type 0 where
  interval : is_interval (interval_limit c.kind) c.interval ≡ true
  time : is_timing reader (is_timed c.kind) c.time ≡ true
  weekly : same_bool (is_weekly c.kind) (is_some c.weekday) ≡ true
  weekday : is_day_of 0 6 c.weekday ≡ true
  monthly : same_bool (is_monthly c.kind) (is_some c.monthday) ≡ true
  monthday : is_day_of 1 28 c.monthday ≡ true
  cron : check_expression reader (is_cron_kind c.kind) c.cron_expression ≡ returns tt

validate-Accepted :
    (reader : Reader) (c : ScheduleConfig) {out : ScheduleConfig}
    → validate reader c ≡ returns out
    → Accepted reader c
unfolding validate
validate-Accepted reader c h =
    let interval =
      require-returns (is_interval (interval_limit c.kind) c.interval)
        (value_error (interval_error (interval_limit c.kind))) _ h in
    let time =
      require-returns (is_timing reader (is_timed c.kind) c.time)
        (value_error (time_error (is_timed c.kind))) _ interval.1 in
    let weekly =
      require-returns (same_bool (is_weekly c.kind) (is_some c.weekday))
        (value_error "weekly schedules require exactly one weekday") _ time.1 in
    let weekday =
      require-returns (is_day_of 0 6 c.weekday) (value_error "weekday must be between 0 and 6") _
        weekly.1 in
    let monthly =
      require-returns (same_bool (is_monthly c.kind) (is_some c.monthday))
        (value_error "monthly schedules require exactly one day") _ weekday.1 in
    let monthday =
      require-returns (is_day_of 1 28 c.monthday) (value_error "month day must be between 1 and 28")
        _ monthly.1 in
    let cron =
      then-returns (check_expression reader (is_cron_kind c.kind) c.cron_expression) (returns c)
        monthday.1 in
    record {
      interval = interval.0;
      time = time.0;
      weekly = weekly.0;
      weekday = weekday.0;
      monthly = monthly.0;
      monthday = monthday.0;
      cron = cron.0;
    }

interval-positive :
    (limit interval : Option ℕ) {n : ℕ}
    → is_interval limit interval ≡ true
    → interval ≡ some n
    → 1 ≤ n
interval-positive none none h k = ground (arith, k)
interval-positive none (some m) h k = ground (arith, h)
interval-positive (some limit) none h k = ground (arith, h)
interval-positive (some limit) (some m) h k = ground (arith, h, k)

day_of-bounds :
    (low high : ℕ) (day : Option ℕ) {n : ℕ}
    → is_day_of low high day ≡ true
    → day ≡ some n
    → (low ≤ n) × (n ≤ high)
day_of-bounds low high none h k = ground (arith, k)
day_of-bounds low high (some m) h k = ground (arith, h, k)

timing-IsTime :
    (reader : Reader) (timed : Bool) (time : Option Text) {t : ℕ × ℕ}
    → IsReader reader
    → is_timing reader timed time ≡ true
    → time_of reader time ≡ some t
    → IsTime t
timing-IsTime reader timed none r h k = ground (arith, k)
timing-IsTime reader true (some time) r h k = time_of-IsTime reader time r h k
timing-IsTime reader false (some time) r h k = ground (arith, h)

-- A time that has passed is read.
time_of-some :
    (reader : Reader) (time : Option Text)
    → is_timing reader true time ≡ true
    → (t : ℕ × ℕ) × (time_of reader time ≡ some t)
time_of-some reader none h = ground (arith, h)
time_of-some reader (some []) h = ground (arith, h)
time_of-some reader (some (a ∷ [])) h = ground (arith, h)
time_of-some reader (some (a ∷ b ∷ [])) h = ground (arith, h)
time_of-some reader (some (a ∷ b ∷ colon ∷ [])) h = ground (arith, h)
time_of-some reader (some (a ∷ b ∷ colon ∷ c ∷ [])) h = ground (arith, h)
time_of-some reader (some (a ∷ b ∷ colon ∷ c ∷ d ∷ e ∷ rest)) h = ground (arith, h)
time_of-some reader (some (a ∷ b ∷ colon ∷ c ∷ d ∷ [])) h = (_, refl)

some-value : (o : Option ℕ) → is_some o ≡ true → (n : ℕ) × (o ≡ some n)
some-value none h = ground (arith, h)
some-value (some n) h = (n, refl)

limited-value :
    (limit : ℕ) (o : Option ℕ) → is_interval (some limit) o ≡ true → (n : ℕ) × (o ≡ some n)
limited-value limit none h = ground (arith, h)
limited-value limit (some n) h = (n, refl)

expression-value :
    (reader : Reader) (o : Option String)
    → check_expression reader true o ≡ returns tt
    → (x : String) × (o ≡ some x)
expression-value reader none h = ground (arith, h)
expression-value reader (some x) h = (x, refl)

-- The columns are complete for the kind of the schedule.
next_complete :
    (reader : Reader) (zone : Zone) (c : ScheduleConfig) (p : Profile) (after : ℕ)
    → is_cron_kind c.kind ≡ false
    → Accepted reader c
    → (next : Option ℕ) × (next_scheduled_time zone (set_schedule reader c p) after ≡ returns next)
      × (is_some next ≡ not (is_manual c.kind || is_once c.kind))
unfolding set_schedule next_scheduled_time normalized_cron_expression
next_complete reader zone c p after plain a = go c.kind a.interval a.time a.weekly a.monthly plain
  where
    go :
        (k : ScheduleKind)
        → is_interval (interval_limit k) c.interval ≡ true
        → is_timing reader (is_timed k) c.time ≡ true
        → same_bool (is_weekly k) (is_some c.weekday) ≡ true
        → same_bool (is_monthly k) (is_some c.monthday) ≡ true
        → is_cron_kind k ≡ false
        → (next : Option ℕ) × (next_of zone (set_schedule reader c p) after k ≡ returns next)
          × (is_some next ≡ not (is_manual k || is_once k))
    go ScheduleKind.manual i t w m e = (none, refl, refl)
    go ScheduleKind.once i t w m e = (none, refl, refl)
    go ScheduleKind.every_n_minutes i t w m e =
        let (n, f) = limited-value 10080 c.interval i in
        (_, ap (λ o. every minute_length o after) f, refl)
    go ScheduleKind.every_n_hours i t w m e =
        let (n, f) = limited-value 8760 c.interval i in
        (_, ap (λ o. every (60 * minute_length) o after) f, refl)
    go ScheduleKind.every_n_days i t w m e =
        let (n, f) = limited-value 3650 c.interval i in
        (_, ap (λ o. every day_length o after) f, refl)
    go ScheduleKind.daily i t w m e =
        let (time, f) = time_of-some reader c.time t in
        (_, ap (λ o. timed o (λ time. calendar_next zone after (next_daily time))) f, refl)
    go ScheduleKind.weekly i t w m e =
        let (time, f) = time_of-some reader c.time t in
        let (day, g) = some-value c.weekday w in
        (
          _,
          ap
                (λ o. timed o (λ time.
                  dated "weekly schedule is incomplete" c.weekday
                    (λ day. calendar_next zone after (next_weekly day time))))
                f
              ∙ ap
                  (λ o.
                    dated "weekly schedule is incomplete" o
                      (λ day. calendar_next zone after (next_weekly day time)))
                  g,
          refl,
        )
    go ScheduleKind.monthly i t w m e =
        let (time, f) = time_of-some reader c.time t in
        let (day, g) = some-value c.monthday m in
        (
          _,
          ap
                (λ o. timed o (λ time.
                  dated "monthly schedule is incomplete" c.monthday
                    (λ day. calendar_next zone after (next_monthly day time))))
                f
              ∙ ap
                  (λ o.
                    dated "monthly schedule is incomplete" o
                      (λ day. calendar_next zone after (next_monthly day time)))
                  g,
          refl,
        )
    go ScheduleKind.cron i t w m e = ground (arith, e)

set_schedule-IsChecked :
    (reader : Reader) (c : ScheduleConfig) (p : Profile)
    → IsReader reader
    → Accepted reader c
    → IsChecked (set_schedule reader c p)
unfolding set_schedule
set_schedule-IsChecked reader c p r a = record {
  interval = λ n h. interval-positive (interval_limit c.kind) c.interval a.interval h;
  time = λ t h. timing-IsTime reader (is_timed c.kind) c.time r a.time h;
  weekday = λ n h. ground (arith, day_of-bounds 0 6 c.weekday a.weekday h);
  monthday = λ n h. day_of-bounds 1 28 c.monthday a.monthday h;
}

-- A schedule that `validate` accepts has, once it is written to a profile, no empty interval, a time of the
-- day, a weekday and a day of the month in their ranges where it has them; and, unless it stands in a cron
-- expression, it has a next instant at any time, but for a manual and a single run.
pub validate_complete :
    (reader : Reader) (zone : Zone) (c : ScheduleConfig) (p : Profile) (after : ℕ)
    {out : ScheduleConfig}
    → IsReader reader
    → validate reader c ≡ returns out
    → IsChecked (set_schedule reader c p)
      × ((is_cron_kind c.kind ≡ true)
          ⊎ ((next : Option ℕ) × (next_scheduled_time zone (set_schedule reader c p) after
                ≡ returns next)
              × (is_some next ≡ not (is_manual c.kind || is_once c.kind))))
validate_complete reader zone c p after r h =
    let a = validate-Accepted reader c h in
    (set_schedule-IsChecked reader c p r a, go (is_cron_kind c.kind) refl a)
  where
    go :
        (b : Bool)
        → is_cron_kind c.kind ≡ b
        → Accepted reader c
        → (is_cron_kind c.kind ≡ true)
          ⊎ ((next : Option ℕ) × (next_scheduled_time zone (set_schedule reader c p) after
                ≡ returns next)
              × (is_some next ≡ not (is_manual c.kind || is_once c.kind)))
    go true e a = inl e
    go false e a = inr (next_complete reader zone c p after e a)
