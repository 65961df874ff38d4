-- ===== src/Schedule/Civil/Order.antt =====
-- The order of local times is the order of their days and clocks.
use backup_telebot.Prelude.{
  ℕ, zero, suc, ◌+◌, ◌*◌, ◌≤◌, ◌<◌, Bool, true, false, ◌==◌, ltb, if◌then◌else◌, ◌≡◌, refl, subst,
  ◌∙◌, arith,
}
use backup_telebot.Schedule.Civil.{
  Local, is_leap, month_length, days_before_month, days_before_year, ordinal, later, next_day,
  add_days, IsDate, day_length,
}

pub month_length_bounds : (y m : ℕ) → (28 ≤ month_length y m) × (month_length y m ≤ 31)
unfolding month_length
month_length_bounds y m = (ground arith, ground arith)

days_before_year_next :
    (y : ℕ)
    → 1 ≤ y
    → days_before_year (suc y) ≡ days_before_year y + (if is_leap y then 366 else 365)
unfolding days_before_year is_leap
days_before_year_next y h = ground (arith, h)

year_days : (y : ℕ) → days_before_month y 13 ≡ (if is_leap y then 366 else 365)
unfolding days_before_month month_length
year_days y = go (is_leap y)
  where
    go :
        (b : Bool)
        → 0 + 0 + 31 + (if b then 29 else 28) + 31 + 30 + 31 + 30 + 31 + 31 + 30 + 31 + 30 + 31
          ≡ (if b then 366 else 365)
    go true = refl
    go false = refl

month_before :
    (y m n : ℕ) → 1 ≤ m → m < n → days_before_month y m + month_length y m ≤ days_before_month y n
unfolding days_before_month
month_before y m zero h k = omega (arith, k)
month_before y m (suc n) h k = go (m == n) refl (month_before y m n h)
  where
    go :
        (b : Bool)
        → (m == n) ≡ b
        → (m < n → days_before_month y m + month_length y m ≤ days_before_month y n)
        → days_before_month y m + month_length y m
          ≤ days_before_month y n + (if n == 0 then 0 else month_length y n)
    go true e ih =
        let same : m ≡ n = ground (arith, e) in
        subst
          (λ x.
            days_before_month y m + month_length y m
            ≤ days_before_month y x + (if x == 0 then 0 else month_length y x))
          same (ground (arith, h))
    go false e ih = ground (arith, e, k, ih)

year_before :
    (y z : ℕ)
    → 1 ≤ y
    → y < z
    → days_before_year y + (if is_leap y then 366 else 365) ≤ days_before_year z
year_before y zero h k = omega (arith, k)
year_before y (suc z) h k = go (y == z) refl (year_before y z h)
  where
    go :
        (b : Bool)
        → (y == z) ≡ b
        → (y < z → days_before_year y + (if is_leap y then 366 else 365) ≤ days_before_year z)
        → days_before_year y + (if is_leap y then 366 else 365) ≤ days_before_year (suc z)
    go true e ih =
        let same : y ≡ z = ground (arith, e) in
        subst
          (λ x. days_before_year y + (if is_leap y then 366 else 365) ≤ days_before_year (suc x))
          same (omega (arith, days_before_year_next y h))
    go false e ih = ground (arith, e, k, ih, days_before_year_next z)

-- The microseconds from the first day of the calendar.
unfoldable pub stamp : Local → ℕ
stamp l = ordinal l * day_length + l.clock

day_of_year_bound :
    (l : Local)
    → IsDate l
    → ordinal l ≤ days_before_year l.year + (if is_leap l.year then 366 else 365)
unfolding ordinal
day_of_year_bound l d = omega (
  arith,
  d.day,
  month_before l.year l.month 13 d.month.0 (omega (arith, d.month)),
  year_days l.year,
)

ordinal_above : (l : Local) → IsDate l → days_before_year l.year < ordinal l
unfolding ordinal
ordinal_above l d = omega (arith, d.day)

ordinal-year : (a b : Local) → IsDate a → IsDate b → b.year < a.year → ordinal b < ordinal a
ordinal-year a b da db h =
    omega (arith, day_of_year_bound b db, year_before b.year a.year db.year h, ordinal_above a da)

ordinal-month :
    (a b : Local)
    → IsDate a
    → IsDate b
    → a.year ≡ b.year
    → b.month < a.month
    → ordinal b < ordinal a
unfolding ordinal
ordinal-month a b da db e h =
    rw e (omega (arith, da.day, db.day, month_before b.year b.month a.month db.month.0 h))

ordinal-day :
    (a b : Local) → a.year ≡ b.year → a.month ≡ b.month → b.day < a.day → ordinal b < ordinal a
unfolding ordinal
ordinal-day a b e f h = rw (e, f) (omega (arith, h))

-- How one local time is later than another.
data Later (a b : Local) : Type 0 where
  by_year : b.year < a.year → Later a b
  by_month : a.year ≡ b.year → b.month < a.month → Later a b
  by_day : a.year ≡ b.year → a.month ≡ b.month → b.day < a.day → Later a b
  by_clock : a.year ≡ b.year → a.month ≡ b.month → a.day ≡ b.day → b.clock < a.clock → Later a b

later-Later : (a b : Local) → later a b ≡ true → Later a b
unfolding later
later-Later a b h = go (ltb b.year a.year) refl (ltb b.month a.month) refl (ltb b.day a.day) refl
  where
    go :
        (y : Bool)
        → ltb b.year a.year ≡ y
        → (m : Bool) → ltb b.month a.month ≡ m
        → (d : Bool) → ltb b.day a.day ≡ d
        → Later a b
    go true y m em d ed = by_year (ground (arith, y))
    go false y true em d ed = by_month (ground (arith, y, h)) (ground (arith, em))
    go false y false em true ed =
        by_day (ground (arith, y, em, h)) (ground (arith, y, em, h)) (ground (arith, ed))
    go false y false em false ed =
        by_clock (ground (arith, y, em, ed, h)) (ground (arith, y, em, ed, h))
          (ground (arith, y, em, ed, h)) (ground (arith, y, em, ed, h))

same_day :
    (a b : Local) → a.year ≡ b.year → a.month ≡ b.month → a.day ≡ b.day → ordinal a ≡ ordinal b
unfolding ordinal
same_day a b e f g = rw (e, f, g) refl

pub later-stamp : (a b : Local) → IsDate a → IsDate b → later a b ≡ true → stamp b < stamp a
unfolding stamp
later-stamp a b da db h = go (later-Later a b h)
  where
    go : Later a b → ordinal b * day_length + b.clock < ordinal a * day_length + a.clock
    go (by_year h) = omega (arith, ordinal-year a b da db h, db.clock)
    go (by_month e h) = omega (arith, ordinal-month a b da db e h, db.clock)
    go (by_day e f h) = omega (arith, ordinal-day a b e f h, db.clock)
    go (by_clock e f g h) = omega (arith, same_day a b e f g, h)

stamp-same : (a b : Local) → later a b ≡ false → later b a ≡ false → stamp a ≡ stamp b
unfolding later stamp ordinal
stamp-same a b h k =
    let y : a.year ≡ b.year = ground (arith, h, k) in
    let m : a.month ≡ b.month = ground (arith, h, k, y) in
    let d : a.day ≡ b.day = ground (arith, h, k, y, m) in
    let c : a.clock ≡ b.clock = ground (arith, h, k, y, m, d) in rw (y, m, d, c) refl

pub stamp-later : (a b : Local) → IsDate a → IsDate b → later a b ≡ false → stamp a ≤ stamp b
stamp-later a b da db h = go (later b a) refl
  where
    go : (x : Bool) → later b a ≡ x → stamp a ≤ stamp b
    go true k = omega (arith, later-stamp b a db da k)
    go false k = omega (arith, stamp-same a b h k)

-- The next day is the day with the next number.
pub next_day-IsDate : (l : Local) → IsDate l → IsDate (next_day l)
unfolding next_day
next_day-IsDate l d = go (ltb l.day (month_length l.year l.month)) refl (ltb l.month 12) refl
  where
    go :
        (x : Bool)
        → ltb l.day (month_length l.year l.month) ≡ x
        → (y : Bool) → ltb l.month 12 ≡ y
        → IsDate (
            if x
            then record l { day = suc l.day; is_fold = false }
            else if y
            then record l { month = suc l.month; day = 1; is_fold = false }
            else record l { year = suc l.year; month = 1; day = 1; is_fold = false })
    go true e y f = record {
      year = d.year;
      month = d.month;
      day = ground (arith, e);
      clock = d.clock;
    }
    go false e true f = record {
      year = d.year;
      month = ground (arith, f, d.month);
      day = (omega arith, omega (arith, month_length_bounds l.year (suc l.month)));
      clock = d.clock;
    }
    go false e false f = record {
      year = omega arith;
      month = omega arith;
      day = (omega arith, omega (arith, month_length_bounds (suc l.year) 1));
      clock = d.clock;
    }

month_end :
    (l : Local)
    → IsDate l
    → l.day ≡ month_length l.year l.month
    → days_before_year l.year + days_before_month l.year (suc l.month) + 1
      ≡ suc (days_before_year l.year + days_before_month l.year l.month + l.day)
unfolding days_before_month
month_end l d e = ground (arith, e, d.month)

january : (y : ℕ) → days_before_month y 1 ≡ 0
unfolding days_before_month
january y = refl

year_tail :
    (l : Local)
    → l.month ≡ 12
    → l.day ≡ month_length l.year l.month
    → days_before_month l.year l.month + l.day ≡ days_before_month l.year 13
unfolding days_before_month
year_tail l m e = rw (e, m) refl

year_end :
    (l : Local)
    → IsDate l
    → l.month ≡ 12
    → l.day ≡ month_length l.year l.month
    → days_before_year (suc l.year) + days_before_month (suc l.year) 1 + 1
      ≡ suc (days_before_year l.year + days_before_month l.year l.month + l.day)
year_end l d m e = omega (
  arith,
  year_tail l m e,
  year_days l.year,
  days_before_year_next l.year d.year,
  january (suc l.year),
)

pub ordinal-next_day : (l : Local) → IsDate l → ordinal (next_day l) ≡ suc (ordinal l)
unfolding next_day ordinal
ordinal-next_day l d = go (ltb l.day (month_length l.year l.month)) refl (ltb l.month 12) refl
  where
    go :
        (x : Bool)
        → ltb l.day (month_length l.year l.month) ≡ x
        → (y : Bool) → ltb l.month 12 ≡ y
        → ordinal (
            if x
            then record l { day = suc l.day; is_fold = false }
            else if y
            then record l { month = suc l.month; day = 1; is_fold = false }
            else record l { year = suc l.year; month = 1; day = 1; is_fold = false })
          ≡ suc (days_before_year l.year + days_before_month l.year l.month + l.day)
    go true e y f = omega arith
    go false e true f = month_end l d (ground (arith, e, d.day))
    go false e false f = year_end l d (ground (arith, f, d.month)) (ground (arith, e, d.day))

pub add_days-IsDate : (n : ℕ) (l : Local) → IsDate l → IsDate (add_days n l)
unfolding add_days
add_days-IsDate zero l d = record { year = d.year; month = d.month; day = d.day; clock = d.clock }
add_days-IsDate (suc n) l d = next_day-IsDate (add_days n l) (add_days-IsDate n l d)

pub ordinal-add_days : (n : ℕ) (l : Local) → IsDate l → ordinal (add_days n l) ≡ n + ordinal l
unfolding add_days
ordinal-add_days zero l d = omega (arith, same_day (record l { is_fold = false }) l refl refl refl)
ordinal-add_days (suc n) l d =
    omega (arith, ordinal-next_day (add_days n l) (add_days-IsDate n l d), ordinal-add_days n l d)

clock-next_day : (l : Local) → (next_day l).clock ≡ l.clock
unfolding next_day
clock-next_day l = ground arith

pub clock-add_days : (n : ℕ) (l : Local) → (add_days n l).clock ≡ l.clock
unfolding add_days
clock-add_days zero l = refl
clock-add_days (suc n) l = clock-next_day (add_days n l) ∙ clock-add_days n l
