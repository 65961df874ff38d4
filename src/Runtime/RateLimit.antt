-- ===== src/Runtime/RateLimit.antt =====
-- `RateLimiter` of src/presentation/telegram/runtime/rate_limit.py.
--
-- Each method runs under the lock, so it is one step. Instants are numbers of a unit of which a
-- minute has `minute`; `event <= now - 60` is written as `event + 60 <= now`. The dictionary of
-- deques is the list of its items; a user without an item has no events.
pub mod Window
use backup_telebot.Prelude.{
  Option, ℕ, ◌+◌, Bool, true, false, ◌||◌, not, none, some, List, [], ◌∷◌, ◌++◌, leb, ◌==◌,
  if◌then◌else◌, count, find, keep, update, length,
}

pub record Events : Type 0 where
  pub user_id : ℕ
  pub times : List ℕ

pub record RateLimiter : Type 0 where
  pub per_user : ℕ
  pub global_limit : ℕ
  pub minute : ℕ
  pub users : List Events
  pub events : List ℕ  -- `_global`

-- The loop that drops the old events at the front of a deque.
unfoldable pub drop_old : ℕ → ℕ → List ℕ → List ℕ
drop_old minute now [] = []
drop_old minute now (e ∷ rest) =
    let later = drop_old minute now rest in if leb (e + minute) now then later else e ∷ rest

abbrev pub is_events_of : ℕ → Events → Bool
is_events_of user_id e = e.user_id == user_id

abbrev pub times_in : Option Events → List ℕ
times_in none = []
times_in (some e) = e.times

-- `self._users[user_id]`
unfoldable pub times_of : ℕ → List Events → List ℕ
times_of user_id users = times_in (find (is_events_of user_id) users)

unfoldable pub store_times : ℕ → List ℕ → List Events → List Events
store_times user_id times users =
    keep (λ e. not (is_events_of user_id e)) users
    ++ record { user_id = user_id; times = times } ∷ []

-- allow
unfoldable pub allow : ℕ → ℕ → RateLimiter → Bool × RateLimiter
allow user_id now l =
    let recent = drop_old l.minute now (times_of user_id l.users) in
    let global = drop_old l.minute now l.events in
    if leb l.per_user (length recent) || leb l.global_limit (length global)
    then (false, record l { users = store_times user_id recent l.users; events = global })
    else (
      true,
      record l {
        users = store_times user_id (recent ++ now ∷ []) l.users;
        events = global ++ now ∷ [];
      },
    )

abbrev is_idle : Events → Bool
is_idle e = elim e.times [ [] ↦ true | _ ∷ _ ↦ false ]

-- prune_expired
unfoldable pub prune_expired : ℕ → RateLimiter → ℕ × RateLimiter
prune_expired now l =
    let aged =
      update (λ _. true) (λ (e : Events). record e { times = drop_old l.minute now e.times })
        l.users in
    (
      count is_idle aged,
      record l {
        users = keep (λ e. not (is_idle e)) aged;
        events = drop_old l.minute now l.events;
      },
    )

-- clear_all
unfoldable pub clear_all : RateLimiter → RateLimiter
clear_all l = record l { users = []; events = [] }
