-- ===== src/Schedule/Next/First.antt =====
-- What `next_scheduled_time` answers: the first time that fits, at an instant that is still to come.
use backup_telebot.Fallible.{bind-returns}
use backup_telebot.Prelude.{
  zero, suc, ◌%◌, ◌*◌, ◌-◌, ◌+◌, subst, ℕ, ◌≤◌, ◌<◌, ◌≡◌, refl, arith, String, true, false, Option,
  none, some,
}
use backup_telebot.Domain.{ScheduleKind}
use backup_telebot.Store.{Profile, Outcome, returns}
use backup_telebot.Schedule.Civil.{weekday, next_day, add_days, Local, later, IsDate}
use backup_telebot.Schedule.Next.{
  calendar_next, next_of, by_cron, dated, timed, every, at_time, unless_later, Zone,
  next_scheduled_time, next_daily, next_weekly, next_monthly,
}
use backup_telebot.Schedule.Next.Wall.{
  IsTime, IsNext, FitsDaily, FitsWeekly, FitsMonthly, next_daily_lem, next_weekly_lem,
  next_monthly_lem,
}

-- A complete calendar schedule, with its time and its day.
pub data IsCalendar (p : Profile) (time : ℕ × ℕ) (day : ℕ) : Type 0 where
  by_day :
      p.schedule_kind ≡ ScheduleKind.daily
      → p.schedule_time ≡ some time
      → IsTime time
      → IsCalendar p time day
  by_week :
      p.schedule_kind ≡ ScheduleKind.weekly
      → p.schedule_time ≡ some time
      → IsTime time
      → p.schedule_weekday ≡ some day
      → day < 7
      → IsCalendar p time day
  by_month :
      p.schedule_kind ≡ ScheduleKind.monthly
      → p.schedule_time ≡ some time
      → IsTime time
      → p.schedule_monthday ≡ some day
      → (1 ≤ day) × (day ≤ 28)
      → IsCalendar p time day

-- The local times that a calendar schedule names.
abbrev pub Fits : ScheduleKind → ℕ × ℕ → ℕ → Local → Type 0
Fits ScheduleKind.daily time day x = FitsDaily time x
Fits ScheduleKind.weekly time day x = FitsWeekly day time x
Fits ScheduleKind.monthly time day x = FitsMonthly day time x
Fits _ time day x = ⊥

-- A daily, weekly or monthly schedule that is complete has a next instant: that of the first local time
-- after the given one that the schedule names.
pub next_scheduled_time_first :
    (zone : Zone) (p : Profile) (after : ℕ) (time : ℕ × ℕ) (day : ℕ)
    → IsCalendar p time day
    → IsDate (zone.to_local after)
    → (c : Local) × (next_scheduled_time zone p after ≡ returns (some (zone.to_utc c)))
      × IsNext (Fits p.schedule_kind time day) (zone.to_local after) c
unfolding next_scheduled_time
next_scheduled_time_first zone p after time day (by_day k t v) d = (
  next_daily time (zone.to_local after),
  rw (k, t) refl,
  rw k (next_daily_lem time (zone.to_local after) v d),
)
next_scheduled_time_first zone p after time day (by_week k t v w h) d = (
  next_weekly day time (zone.to_local after),
  rw (k, t, w) refl,
  rw k (next_weekly_lem day time (zone.to_local after) h v d),
)
next_scheduled_time_first zone p after time day (by_month k t v m h) d = (
  next_monthly day time (zone.to_local after),
  rw (k, t, m) refl,
  rw k (next_monthly_lem day time (zone.to_local after) h.0 h.1 v d),
)

-- What the code relies on in `zoneinfo` and `croniter`: local times are dates; of two local times with the
-- same fold, the later one has the later instant; the next time of a cron expression is to come.
pub record IsZone (zone : Zone) : Type 0 where
  pub date : (u : ℕ) → IsDate (zone.to_local u)
  pub forward :
      (u : ℕ) (l : Local)
      → IsDate l
      → later l (zone.to_local u) ≡ true
      → l.is_fold ≡ (zone.to_local u).is_fold
      → u < zone.to_utc l
  pub cron_forward :
      (e : String) (u : ℕ) (l : Local)
      → zone.cron_next e (zone.to_local u) ≡ returns l
      → u < zone.to_utc l

-- What the check constraints of src/database/models/backup_profile.py say of the values of the schedule
-- columns.
pub record IsChecked (p : Profile) : Type 0 where
  pub interval : (n : ℕ) → p.schedule_interval ≡ some n → 1 ≤ n
  pub time : (t : ℕ × ℕ) → p.schedule_time ≡ some t → IsTime t
  pub weekday : (n : ℕ) → p.schedule_weekday ≡ some n → n < 7
  pub monthday : (n : ℕ) → p.schedule_monthday ≡ some n → (1 ≤ n) × (n ≤ 28)

pub fold-add_days : (n : ℕ) (l : Local) → (add_days n l).is_fold ≡ false
unfolding add_days next_day
fold-add_days zero l = refl
fold-add_days (suc n) l = ground arith

fold-unless_later :
    (a l b : Local) → a.is_fold ≡ false → b.is_fold ≡ false → (unless_later a l b).is_fold ≡ false
fold-unless_later a l b h k = ground (arith, h, k)

fold-daily : (time : ℕ × ℕ) (l : Local) → l.is_fold ≡ false → (next_daily time l).is_fold ≡ false
unfolding next_daily
fold-daily time l h =
    fold-unless_later (at_time time l) l (add_days 1 (at_time time l)) h
      (fold-add_days 1 (at_time time l))

fold-weekly : (day : ℕ) (time : ℕ × ℕ) (l : Local) → (next_weekly day time l).is_fold ≡ false
unfolding next_weekly
fold-weekly day time l =
    let a = at_time time (add_days ((day + 7 - weekday l) % 7) l) in
    fold-unless_later a l (add_days 7 a) (fold-add_days ((day + 7 - weekday l) % 7) l)
      (fold-add_days 7 a)

fold-monthly :
    (day : ℕ) (time : ℕ × ℕ) (l : Local)
    → l.is_fold ≡ false
    → (next_monthly day time l).is_fold ≡ false
unfolding next_monthly
fold-monthly day time l h = fold-unless_later _ l _ h h

interval_some :
    (unit : ℕ) (o : Option ℕ) (after : ℕ) {t : ℕ}
    → every unit o after ≡ returns (some t)
    → (n : ℕ) × (o ≡ some n) × (t ≡ after + unit * n)
interval_some unit none after h = ground (arith, h)
interval_some unit (some n) after h = (n, refl, cc)

timed-some :
    (o : Option (ℕ × ℕ)) (next : ℕ × ℕ → Outcome (Option ℕ)) {t : ℕ}
    → timed o next ≡ returns (some t)
    → (time : ℕ × ℕ) × (o ≡ some time) × (next time ≡ returns (some t))
timed-some none next h = ground (arith, h)
timed-some (some time) next h = (time, refl, h)

dated-some :
    (e : String) (o : Option ℕ) (next : ℕ → Outcome (Option ℕ)) {t : ℕ}
    → dated e o next ≡ returns (some t)
    → (day : ℕ) × (o ≡ some day) × (next day ≡ returns (some t))
dated-some e none next h = ground (arith, h)
dated-some e (some day) next h = (day, refl, h)

module _ (zone : Zone) (after : ℕ) (z : IsZone zone) where
  calendar_forward :
      (fits : Local → Type 0) (c : Local) {t : ℕ}
      → IsNext fits (zone.to_local after) c
      → c.is_fold ≡ false
      → (zone.to_local after).is_fold ≡ false
      → ◌≡◌ {A = Outcome (Option ℕ)} (returns (some (zone.to_utc c))) (returns (some t))
      → after < t
  calendar_forward fits c first f g h =
      subst (λ t. after < t) (cc) (z.forward after c first.date first.after (cc))

  cron_forward : (o : Option String) {t : ℕ} → by_cron zone after o ≡ returns (some t) → after < t
  cron_forward none h = ground (arith, h)
  cron_forward (some e) h =
      let (l, el, k) =
        bind-returns (zone.cron_next e (zone.to_local after)) (λ l. returns (some (zone.to_utc l)))
          h in
      subst (λ t. after < t) (cc) (z.cron_forward e after l el)

-- The next instant of a schedule is to come, where the given one does not stand in the second pass of an
-- hour that the clocks repeat.
pub next_scheduled_time_forward :
    (zone : Zone) (p : Profile) (after : ℕ) {t : ℕ}
    → IsZone zone
    → IsChecked p
    → (zone.to_local after).is_fold ≡ false
    → next_scheduled_time zone p after ≡ returns (some t)
    → after < t
unfolding next_scheduled_time
next_scheduled_time_forward zone p after {t} z c f h = go p.schedule_kind h
  where
    l : Local
    l = zone.to_local after

    go : (k : ScheduleKind) → next_of zone p after k ≡ returns (some t) → after < t
    go ScheduleKind.manual h = ground (arith, h)
    go ScheduleKind.once h = ground (arith, h)
    go ScheduleKind.every_n_minutes h =
        let (n, e, k) = interval_some _ p.schedule_interval after h in
        omega (arith, k, c.interval n e)
    go ScheduleKind.every_n_hours h =
        let (n, e, k) = interval_some _ p.schedule_interval after h in
        omega (arith, k, c.interval n e)
    go ScheduleKind.every_n_days h =
        let (n, e, k) = interval_some _ p.schedule_interval after h in
        omega (arith, k, c.interval n e)
    go ScheduleKind.cron h = cron_forward zone after z p.schedule_cron h
    go ScheduleKind.daily h =
        let (time, e, k) =
          timed-some p.schedule_time (λ time. calendar_next zone after (next_daily time)) h in
        calendar_forward zone after z _ _ (next_daily_lem time l (c.time time e) (z.date after))
          (fold-daily time l f) f k
    go ScheduleKind.weekly h =
        let (time, e, k) = timed-some p.schedule_time _ h in
        let (day, ed, kd) =
          dated-some _ p.schedule_weekday (λ day. calendar_next zone after (next_weekly day time))
            k in
        calendar_forward zone after z _ _
          (next_weekly_lem day time l (c.weekday day ed) (c.time time e) (z.date after))
          (fold-weekly day time l) f kd
    go ScheduleKind.monthly h =
        let (time, e, k) = timed-some p.schedule_time _ h in
        let (day, ed, kd) =
          dated-some _ p.schedule_monthday (λ day. calendar_next zone after (next_monthly day time))
            k in
        let v = c.monthday day ed in
        calendar_forward zone after z _ _
          (next_monthly_lem day time l v.0 v.1 (c.time time e) (z.date after))
          (fold-monthly day time l f) f kd
