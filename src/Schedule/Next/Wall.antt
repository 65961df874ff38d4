-- ===== src/Schedule/Next/Wall.antt =====
-- The local time that `next_scheduled_time` chooses is the first one that fits the schedule.
use backup_telebot.Prelude.{
  min, ℕ, ◌+◌, ◌-◌, ◌%◌, ◌≤◌, ◌<◌, Bool, true, false, if◌then◌else◌, ◌≡◌, refl, ◌∙◌, arith,
}
use backup_telebot.Schedule.Civil.{
  Local, ordinal, weekday, later, add_days, IsDate, clock_at, month_length,
}
use backup_telebot.Schedule.Civil.Order.{
  month_length_bounds, stamp, later-stamp, stamp-later, add_days-IsDate, ordinal-add_days,
  clock-add_days,
}
use backup_telebot.Schedule.Next.{
  month_after, year_after, unless_later, at_time, next_daily, next_weekly, next_monthly,
}

-- A time of the day as a valid schedule has it.
abbrev pub IsTime : ℕ × ℕ → Type 0
IsTime time = (time.0 < 24) × (time.1 < 60)

-- The first local time after `l` that passes a test.
pub record IsNext (fits : Local → Type 0) (l c : Local) : Type 0 where
  pub date : IsDate c
  pub after : later c l ≡ true
  pub fitting : fits c
  pub least : (x : Local) → IsDate x → fits x → later x l ≡ true → later c x ≡ false

abbrev pub FitsDaily : ℕ × ℕ → Local → Type 0
FitsDaily time x = x.clock ≡ clock_at time.0 time.1

at_time-IsDate : (time : ℕ × ℕ) (l : Local) → IsTime time → IsDate l → IsDate (at_time time l)
at_time-IsDate time l t d = record {
  year = d.year;
  month = d.month;
  day = d.day;
  clock = omega (arith, t);
}

-- Days that lie apart settle the order of times.
stamp-later-true : (a b : Local) → IsDate a → IsDate b → stamp b < stamp a → later a b ≡ true
stamp-later-true a b da db h = go (later a b) refl
  where
    go : (x : Bool) → later a b ≡ x → later a b ≡ true
    go true e = e
    go false e = absurd (omega (arith, h, stamp-later a b da db e))

later-stamp-false : (a b : Local) → IsDate a → IsDate b → stamp a ≤ stamp b → later a b ≡ false
later-stamp-false a b da db h = go (later a b) refl
  where
    go : (x : Bool) → later a b ≡ x → later a b ≡ false
    go false e = e
    go true e = absurd (omega (arith, h, later-stamp a b da db e))

-- Times that fit a schedule have one clock, and lie whole periods of days apart.
record Periodic (fits : Local → Type 0) (k : ℕ) (a : Local) : Type 0 where
  long : 1 ≤ k
  date : IsDate a
  fitting : fits a
  clock : (x : Local) → fits x → x.clock ≡ a.clock
  above : (x : Local) → fits x → ordinal a < ordinal x → ordinal a + k ≤ ordinal x
  below : (x : Local) → fits x → ordinal x < ordinal a → ordinal x + k ≤ ordinal a
  shift : fits (add_days k a)

-- The candidate of a period that starts at `l`, or else the time one period on, is the first.
Periodic-IsNext :
    (fits : Local → Type 0) (k : ℕ) (l a : Local)
    → IsDate l
    → Periodic fits k a
    → ordinal l ≤ ordinal a
    → ordinal a < ordinal l + k
    → IsNext fits l (unless_later a l (add_days k a))
unfolding stamp
Periodic-IsNext fits k l a dl p from to = go (later a l) refl
  where
    moved : Local
    moved = add_days k a

    moved-IsDate : IsDate moved
    moved-IsDate = add_days-IsDate k a p.date

    go : (b : Bool) → later a l ≡ b → IsNext fits l (if b then a else add_days k a)
    go true e = record {
      date = p.date;
      after = e;
      fitting = p.fitting;
      least = λ x dx fx ax. later-stamp-false a x p.date dx (
          ground (
            arith,
            p.clock x fx,
            p.below x fx,
            later-stamp x l dx dl ax,
            dl.clock,
            dx.clock,
            from,
            to,
          ));
    }
    go false e = record {
      date = moved-IsDate;
      after = stamp-later-true moved l moved-IsDate dl (
          omega (
            arith,
            stamp-later a l p.date dl e,
            ordinal-add_days k a p.date,
            p.long,
            dl.clock,
            from,
          ));
      fitting = p.shift;
      least = λ x dx fx ax. later-stamp-false moved x moved-IsDate dx (
          ground (
            arith,
            p.clock x fx,
            p.above x fx,
            later-stamp x l dx dl ax,
            stamp-later a l p.date dl e,
            ordinal-add_days k a p.date,
            clock-add_days k a,
          ));
    }

-- A daily schedule's next time is the first one after the given time with its clock.
pub next_daily_lem :
    (time : ℕ × ℕ) (l : Local)
    → IsTime time
    → IsDate l
    → IsNext (FitsDaily time) l (next_daily time l)
unfolding next_daily ordinal
next_daily_lem time l t d =
    Periodic-IsNext (FitsDaily time) 1 l (at_time time l) d
      (record {
        long = omega arith;
        date = at_time-IsDate time l t d;
        fitting = refl;
        clock = λ x fx. fx;
        above = λ x fx h. omega (arith, h);
        below = λ x fx h. omega (arith, h);
        shift = clock-add_days 1 (at_time time l);
      })
      (omega arith) (omega arith)

ordinal-at_time : (time : ℕ × ℕ) (l : Local) → ordinal (at_time time l) ≡ ordinal l
unfolding ordinal
ordinal-at_time time l = refl

abbrev pub FitsWeekly : ℕ → ℕ × ℕ → Local → Type 0
FitsWeekly day time x = (weekday x ≡ day) × (x.clock ≡ clock_at time.0 time.1)

-- A weekly schedule's next time is the first one after the given time on its weekday with its clock.
pub next_weekly_lem :
    (day : ℕ) (time : ℕ × ℕ) (l : Local)
    → day < 7
    → IsTime time
    → IsDate l
    → IsNext (FitsWeekly day time) l (next_weekly day time l)
unfolding next_weekly weekday
next_weekly_lem day time l h t d =
    Periodic-IsNext (FitsWeekly day time) 7 l a d
      (record {
        long = omega arith;
        date = date;
        fitting = (omega (arith, o, h), refl);
        clock = λ x fx. fx.1;
        above = λ x fx k. omega (arith, fx.0, o, h, k);
        below = λ x fx k. omega (arith, fx.0, o, h, k);
        shift = (omega (arith, o, h, ordinal-add_days 7 a date), clock-add_days 7 a);
      })
      (omega (arith, o)) (omega (arith, o))
  where
    days : ℕ
    days = (day + 7 - weekday l) % 7

    a : Local
    a = at_time time (add_days days l)

    date : IsDate a
    date = at_time-IsDate time (add_days days l) t (add_days-IsDate days l d)

    o : ordinal a ≡ days + ordinal l
    o = ordinal-at_time time (add_days days l) ∙ ordinal-add_days days l d

abbrev pub FitsMonthly : ℕ → ℕ × ℕ → Local → Type 0
FitsMonthly day time x = (x.day ≡ day) × (x.clock ≡ clock_at time.0 time.1)

on_day : ℕ → ℕ → ℕ → ℕ × ℕ → Local → Local
on_day year month day time l = record {
  year = year;
  month = month;
  day = day;
  clock = clock_at time.0 time.1;
  is_fold = l.is_fold;
}

same_month_first :
    (day : ℕ) (time : ℕ × ℕ) (l x : Local)
    → x.day ≡ day
    → x.clock ≡ clock_at time.0 time.1
    → later x l ≡ true
    → later (on_day l.year l.month day time l) x ≡ false
unfolding later on_day
same_month_first day time l x e f h = ground (arith, e, f, h)

next_month_later :
    (day : ℕ) (time : ℕ × ℕ) (l : Local)
    → IsDate l
    → later (on_day (year_after l.year l.month) (month_after l.month) day time l) l ≡ true
unfolding later on_day
next_month_later day time l d = ground (arith, d.month)

next_month_first :
    (day : ℕ) (time : ℕ × ℕ) (l x : Local)
    → IsDate l
    → IsDate x
    → x.day ≡ day
    → x.clock ≡ clock_at time.0 time.1
    → later (on_day l.year l.month day time l) l ≡ false
    → later x l ≡ true
    → later (on_day (year_after l.year l.month) (month_after l.month) day time l) x ≡ false
unfolding later on_day
next_month_first day time l x d dx e f h k = ground (arith, d.month, dx.month, e, f, h, k)

-- The month of `l`, or the next one.
monthly-IsNext :
    (day : ℕ) (time : ℕ × ℕ) (l : Local)
    → 1 ≤ day
    → day ≤ 28
    → IsTime time
    → IsDate l
    → IsNext (FitsMonthly day time) l (
        unless_later
          (on_day l.year l.month day time l)
          l
          (on_day (year_after l.year l.month) (month_after l.month) day time l))
unfolding on_day
monthly-IsNext day time l h k t d = go (later (on_day l.year l.month day time l) l) refl
  where
    next : Local
    next = on_day (year_after l.year l.month) (month_after l.month) day time l

    go :
        (b : Bool)
        → later (on_day l.year l.month day time l) l ≡ b
        → IsNext (FitsMonthly day time) l (if b then on_day l.year l.month day time l else next)
    go true e = record {
      date = record {
        year = d.year;
        month = d.month;
        day = (h, omega (arith, k, month_length_bounds l.year l.month));
        clock = omega (arith, t);
      };
      after = e;
      fitting = (refl, refl);
      least = λ x dx fx ax. same_month_first day time l x fx.0 fx.1 ax;
    }
    go false e = record {
      date = record {
        year = ground (arith, d.year);
        month = omega arith;
        day = (h, omega (arith, k, month_length_bounds next.year next.month));
        clock = omega (arith, t);
      };
      after = next_month_later day time l d;
      fitting = (refl, refl);
      least = λ x dx fx ax. next_month_first day time l x d dx fx.0 fx.1 e ax;
    }

-- A monthly schedule's next time is the first one after the given time on its day of the month, which
-- every month has, with its clock.
pub next_monthly_lem :
    (day : ℕ) (time : ℕ × ℕ) (l : Local)
    → 1 ≤ day
    → day ≤ 28
    → IsTime time
    → IsDate l
    → IsNext (FitsMonthly day time) l (next_monthly day time l)
unfolding next_monthly on_day
next_monthly_lem day time l h k t d =
    rw (short l.year l.month, short (year_after l.year l.month) (month_after l.month))
      (monthly-IsNext day time l h k t d)
  where
    short : (y m : ℕ) → min day (month_length y m) ≡ day
    short y m = omega (arith, k, month_length_bounds y m)
