-- ===== src/Jobs/Lease.antt =====
-- `RunService.claim`, `claim_cancel_requested`, `renew` and `release` of src/pipeline/jobs.py.
--
-- The selection of a candidate and its update are one atomic step: PostgreSQL locks the candidate
-- row, and SQLite runs both as one statement. PostgreSQL skips the rows that other transactions have
-- locked, `locked` by their numbers; SQLite has none.
pub mod Valid
pub mod Claim
use backup_telebot.Prelude.{
  ℕ, ◌+◌, ◌*◌, String, Bool, true, false, ◌&&◌, ◌||◌, not, Option, none, some, List, ◌==◌, ltb, leb,
  is_none, holds_text, if◌then◌else◌, first_by, any, update,
}
use backup_telebot.Domain.{RunStatus, status_eq, status_in, is_pending}
use backup_telebot.Store.{
  runtime_error, Outcome, returns, raises, Run, Delivery, Db, has_id, active_statuses,
}

-- `timedelta(seconds=n)` in microseconds.
abbrev pub seconds : ℕ → ℕ
seconds n = n * 1000000

-- `column < now`; NULL is below nothing.
abbrev pub is_before : Option ℕ → ℕ → Bool
is_before none now = false
is_before (some t) now = ltb t now

-- `lease_owner IS NULL OR lease_expires_at < now`
abbrev pub is_free : ℕ → Run → Bool
is_free now r = is_none r.lease_owner || is_before r.lease_expires_at now

abbrev is_due_at : ℕ → Option ℕ → Bool
is_due_at now none = true
is_due_at now (some t) = leb t now

abbrev is_delivery_of : ℕ → Delivery → Bool
is_delivery_of run_id d = d.run_id == run_id

abbrev is_due_delivery_of : ℕ → ℕ → Delivery → Bool
is_due_delivery_of now run_id d =
    is_delivery_of run_id d && (is_pending d.status && is_due_at now d.next_attempt_at)

-- A run that waits for delivery is a candidate only with no delivery yet, or with a due one.
unfoldable pub has_work : ℕ → List Delivery → Run → Bool
has_work now deliveries r =
    not (status_eq r.status RunStatus.delivery_pending)
    || (not (any (is_delivery_of r.id) deliveries) || any (is_due_delivery_of now r.id) deliveries)

unfoldable pub is_claimable : List RunStatus → ℕ → List Delivery → Run → Bool
is_claimable statuses now deliveries r =
    status_in statuses r.status
    && (not r.cancel_requested && (is_free now r && has_work now deliveries r))

-- ORDER BY created_at, id
abbrev pub created_before : Run → Run → Bool
created_before a b =
    ltb a.created_at b.created_at || (a.created_at == b.created_at && ltb a.id b.id)

-- ORDER BY updated_at, id
abbrev pub updated_before : Run → Run → Bool
updated_before a b =
    ltb a.updated_at b.updated_at || (a.updated_at == b.updated_at && ltb a.id b.id)

-- A candidate that no other transaction has locked.
abbrev pub is_unlocked : (ℕ → Bool) → (Run → Bool) → Run → Bool
is_unlocked locked p r = not (locked r.id) && p r

abbrev pub take_lease : String → ℕ → ℕ → Run → Run
take_lease owner lease_seconds now r = record r {
  lease_owner = some owner;
  lease_expires_at = some (now + seconds lease_seconds);
  updated_at = now;
}

lease_to : String → ℕ → ℕ → Option Run → Db → Option Run × Db
lease_to owner lease_seconds now none db = (none, db)
lease_to owner lease_seconds now (some r) db = (
  some (take_lease owner lease_seconds now r),
  record db { runs = update (has_id r.id) (take_lease owner lease_seconds now) db.runs },
)

-- claim
unfoldable pub claim : String → ℕ → List RunStatus → (ℕ → Bool) → ℕ → Db → Option Run × Db
unfolding lease_to
claim owner lease_seconds statuses locked now db =
    lease_to owner lease_seconds now
      (first_by created_before (is_unlocked locked (is_claimable statuses now db.deliveries))
        db.runs)
      db

unfoldable pub is_cancellable : ℕ → Run → Bool
is_cancellable now r = status_in active_statuses r.status && (r.cancel_requested && is_free now r)

-- claim_cancel_requested
unfoldable pub claim_cancel_requested : String → ℕ → (ℕ → Bool) → ℕ → Db → Option Run × Db
unfolding lease_to
claim_cancel_requested owner lease_seconds locked now db =
    lease_to owner lease_seconds now
      (first_by updated_before (is_unlocked locked (is_cancellable now)) db.runs) db

abbrev pub is_held_by : ℕ → String → Run → Bool
is_held_by run_id owner r = has_id run_id r && holds_text r.lease_owner owner

abbrev pub extend_lease : ℕ → ℕ → Run → Run
extend_lease lease_seconds now r = record r {
  lease_expires_at = some (now + seconds lease_seconds);
  updated_at = now;
}

-- renew
unfoldable pub renew : ℕ → String → ℕ → ℕ → Db → Bool × Db
renew run_id owner lease_seconds now db = (
  any (is_held_by run_id owner) db.runs,
  record db { runs = update (is_held_by run_id owner) (extend_lease lease_seconds now) db.runs },
)

abbrev pub drop_lease : Run → Run
drop_lease r = record r { lease_owner = none; lease_expires_at = none }

-- release; `run` is the caller's row object, as it last read it.
unfoldable pub release : Run → String → Db → Outcome (Unit {0}) × Db
release run owner db =
    if holds_text run.lease_owner owner
    then (returns tt, record db { runs = update (has_id run.id) drop_lease db.runs })
    else (raises (runtime_error "run lease ownership lost"), db)
