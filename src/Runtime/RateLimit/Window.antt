-- ===== src/Runtime/RateLimit/Window.antt =====
-- The window of the rate limiter: how many requests of a user pass in any minute.
use mathlib.Core.List.{append-nil, append_assoc}
use backup_telebot.Prelude.{
  find, subst, sym, Bool-cases, count-append, length-append, ap, ◌∙◌, ℕ, ◌+◌, ◌≤◌, ◌<◌, ◌≡◌, inl,
  inr, refl, Bool, true, false, not, ◌&&◌, List, [], ◌∷◌, ◌++◌, arith, ◌==◌, ltb, ==_iff,
  if◌then◌else◌, count, keep, length, find-snoc, find-keep-none, find-snoc_other, find-keep_other,
}
use backup_telebot.Runtime.RateLimit.{
  times_in, RateLimiter, Events, drop_old, times_of, store_times, is_events_of, allow,
}

-- The requests in order: a user, and the instant at which the limiter reads the clock.
unfoldable pub allow_all : List (ℕ × ℕ) → RateLimiter → RateLimiter
allow_all [] l = l
allow_all ((u, n) ∷ rest) l = allow_all rest (allow u n l).1

-- The instants of a user's requests that pass.
unfoldable pub granted : ℕ → List (ℕ × ℕ) → RateLimiter → List ℕ
granted u [] l = []
granted u ((v, n) ∷ rest) l =
    let later = granted u rest (allow v n l).1 in
    if (v == u) && (allow v n l).0 then n ∷ later else later

-- The clock never goes back.
abbrev pub AreOrdered : ℕ → List (ℕ × ℕ) → Type 0
AreOrdered n [] = Unit
AreOrdered n ((u, m) ∷ rest) = (n ≤ m) × AreOrdered m rest

abbrev pub last_time : ℕ → List (ℕ × ℕ) → ℕ
last_time n [] = n
last_time n ((u, m) ∷ rest) = last_time m rest

-- Less than a minute old.
abbrev pub is_recent : ℕ → ℕ → ℕ → Bool
is_recent minute t e = ltb t (e + minute)

count-drop_old :
    (minute now t : ℕ) (xs : List ℕ)
    → now ≤ t
    → count (is_recent minute t) (drop_old minute now xs) ≡ count (is_recent minute t) xs
unfolding count drop_old
count-drop_old minute now t [] h = refl
count-drop_old minute now t (x ∷ xs) h = ground (arith, count-drop_old minute now t xs h)

count_le_length : (p : ℕ → Bool) (xs : List ℕ) → count p xs ≤ length xs
unfolding count
count_le_length p [] = omega arith
count_le_length p (x ∷ xs) = ground (arith, count_le_length p xs)

stored_times :
    (u : ℕ) (times : List ℕ) (users : List Events) → times_of u (store_times u times users) ≡ times
unfolding times_of store_times
stored_times u times users = ap times_in (
    find-snoc (is_events_of u) (keep (λ e. not (is_events_of u e)) users) _
      (find-keep-none (is_events_of u) users) ((==_iff u u).1 refl))

other_times :
    (u v : ℕ) (times : List ℕ) (users : List Events)
    → (v == u) ≡ false
    → times_of u (store_times v times users) ≡ times_of u users
unfolding times_of store_times
other_times u v times users h = ap times_in (
    find-snoc_other (is_events_of u) (keep (λ e. not (is_events_of v e)) users) _ h
    ∙ find-keep_other (is_events_of u) (λ e. not (is_events_of v e)) users
        (λ e k. ground (arith, h, k)))

-- A deque holds what has passed in the last minute, within the limit.
record Tracks (minute limit now : ℕ) (passed times : List ℕ) : Type 0 where
  same : (t : ℕ) → now ≤ t → count (is_recent minute t) passed ≡ count (is_recent minute t) times
  bounded : length times ≤ limit

-- The deque of the user who asks after the request.
abbrev next_times : ℕ → ℕ → RateLimiter → List ℕ
next_times v n l =
    let recent = drop_old l.minute n (times_of v l.users) in
    if (allow v n l).0 then recent ++ n ∷ [] else recent

allow_cases :
    (v n : ℕ) (l : RateLimiter)
    → ((allow v n l).1.users ≡ store_times v (next_times v n l) l.users)
      × ((allow v n l).1.per_user ≡ l.per_user)
      × ((allow v n l).1.minute ≡ l.minute)
      × ((allow v n l).0 ≡ true → length (drop_old l.minute n (times_of v l.users)) < l.per_user)
unfolding allow
allow_cases v n l = ground arith

length-drop_old : (minute now : ℕ) (xs : List ℕ) → length (drop_old minute now xs) ≤ length xs
unfolding drop_old
length-drop_old minute now [] = omega arith
length-drop_old minute now (x ∷ xs) = ground (arith, length-drop_old minute now xs)

module _ (minute limit now n : ℕ) (passed times : List ℕ) (early : now ≤ n)
    (k : Tracks minute limit now passed times) where
  Tracks-later : Tracks minute limit n passed times
  Tracks-later = record { same = λ t h. k.same t (omega (arith, early, h)); bounded = k.bounded }

  Tracks-drop : Tracks minute limit n passed (drop_old minute n times)
  Tracks-drop = record {
    same = λ t h. k.same t (omega (arith, early, h)) ∙ sym (count-drop_old minute n t times h);
    bounded = omega (arith, length-drop_old minute n times, k.bounded);
  }

  Tracks-pass :
      length (drop_old minute n times) < limit
      → Tracks minute limit n (passed ++ n ∷ []) (drop_old minute n times ++ n ∷ [])
  Tracks-pass room = record {
    same = λ t h. omega (
      arith,
      count-append (is_recent minute t) passed (n ∷ []),
      count-append (is_recent minute t) (drop_old minute n times) (n ∷ []),
      Tracks-drop.same t h,
    );
    bounded = omega (arith, length-append (drop_old minute n times) (n ∷ []), room);
  }

abbrev IsTracked : ℕ → ℕ → List ℕ → RateLimiter → Type 0
IsTracked u now passed l = Tracks l.minute l.per_user now passed (times_of u l.users)

-- What a request adds to the instants that have passed for a user.
abbrev passed_after : ℕ → ℕ → ℕ → List ℕ → RateLimiter → List ℕ
passed_after u v n passed l = if (v == u) && (allow v n l).0 then passed ++ n ∷ [] else passed

-- The deque that a request leaves to its own user.
own-Tracks :
    (now v n : ℕ) (passed : List ℕ) (l : RateLimiter)
    → now ≤ n
    → IsTracked v now passed l
    → Tracks l.minute l.per_user n
        (passed_after v v n passed l)
        (times_of v (store_times v (next_times v n l) l.users))
own-Tracks now v n passed l h k =
    rw (stored_times v (next_times v n l) l.users, (==_iff v v).1 refl)
      (elim (Bool-cases (allow v n l).0) [
        | inl a ↦ rw a (
            Tracks-pass l.minute l.per_user now n passed (times_of v l.users) h k
              ((allow_cases v n l).3 a))
        | inr a ↦ rw a (Tracks-drop l.minute l.per_user now n passed (times_of v l.users) h k)
      ])

allow-IsTracked :
    (u now v n : ℕ) (passed : List ℕ) (l : RateLimiter)
    → now ≤ n
    → IsTracked u now passed l
    → IsTracked u n (passed_after u v n passed l) (allow v n l).1
allow-IsTracked u now v n passed l h k =
    let c = allow_cases v n l in
    rw (c.0, c.1, c.2)
      (elim (Bool-cases (v == u)) [
        | inl e ↦
            subst
              (λ x.
                IsTracked x now passed l
                → Tracks l.minute l.per_user n (passed_after x v n passed l)
                    (times_of x (store_times v (next_times v n l) l.users)))
              ((==_iff v u).0 e) (own-Tracks now v n passed l h) k
        | inr e ↦
            rw (e, other_times u v (next_times v n l) l.users e)
              (Tracks-later l.minute l.per_user now n passed (times_of u l.users) h k)
      ])

module _ (u : ℕ) where
  granted-IsTracked :
      (calls : List (ℕ × ℕ)) (now : ℕ) (passed : List ℕ) (l : RateLimiter)
      → AreOrdered now calls
      → IsTracked u now passed l
      → IsTracked u (last_time now calls) (passed ++ granted u calls l) (allow_all calls l)
  unfolding granted allow_all
  granted-IsTracked [] now passed l h k = rw (append-nil passed) k
  granted-IsTracked ((v, n) ∷ rest) now passed l (h, later) k =
      subst (λ g. IsTracked u (last_time n rest) g (allow_all rest (allow v n l).1))
        (step (granted u rest (allow v n l).1))
        (granted-IsTracked rest n (passed_after u v n passed l) (allow v n l).1 later
          (allow-IsTracked u now v n passed l h k))
    where
      step :
          (more : List ℕ)
          → passed_after u v n passed l ++ more
            ≡ passed ++ (if (v == u) && (allow v n l).0 then n ∷ more else more)
      step more = elim (Bool-cases ((v == u) && (allow v n l).0)) [
        | inl e ↦ rw e (append_assoc passed (n ∷ []) more)
        | inr e ↦ rw e refl
      ]

  allow_all-limits :
      (calls : List (ℕ × ℕ)) (l : RateLimiter)
      → ((allow_all calls l).per_user ≡ l.per_user) × ((allow_all calls l).minute ≡ l.minute)
  unfolding allow_all
  allow_all-limits [] l = (refl, refl)
  allow_all-limits ((v, n) ∷ rest) l =
      let c = allow_cases v n l in
      let r = allow_all-limits rest (allow v n l).1 in (r.0 ∙ c.1, r.1 ∙ c.2)

  tracked :
      (calls : List (ℕ × ℕ)) (start : ℕ) (l : RateLimiter)
      → l.users ≡ []
      → AreOrdered start calls
      → Tracks l.minute l.per_user
          (last_time start calls)
          (granted u calls l)
          (times_of u (allow_all calls l).users)
  unfolding times_of find
  tracked calls start l fresh ordered =
      let limits = allow_all-limits calls l in
      subst
        (λ m.
          Tracks m l.per_user (last_time start calls) (granted u calls l)
            (times_of u (allow_all calls l).users))
        limits.1
        (subst
          (λ n.
            Tracks (allow_all calls l).minute n (last_time start calls) (granted u calls l)
              (times_of u (allow_all calls l).users))
          limits.0
          (granted-IsTracked calls start [] l ordered
            (rw fresh (record { same = λ t h. refl; bounded = omega arith }))))

  -- From an empty limiter, whatever requests all users make, on a clock that never goes back: of
  -- the requests of one user that have passed, at most `per_user` are less than a minute old at the
  -- last request, or at any later instant.
  pub allow_limit :
      (calls : List (ℕ × ℕ)) (start t : ℕ) (l : RateLimiter)
      → l.users ≡ []
      → AreOrdered start calls
      → last_time start calls ≤ t
      → count (is_recent l.minute t) (granted u calls l) ≤ l.per_user
  allow_limit calls start t l fresh ordered late =
      let k = tracked calls start l fresh ordered in
      omega (
        arith,
        k.same t late,
        k.bounded,
        count_le_length (is_recent l.minute t) (times_of u (allow_all calls l).users),
      )
