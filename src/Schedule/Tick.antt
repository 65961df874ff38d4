-- ===== src/Schedule/Tick.antt =====
-- `Scheduler.tick` of src/pipeline/schedule.py: one pass over the profiles, in one transaction.
--
-- The pass reads its profiles under a lock, and `enqueue_scheduled` reads of a profile only what the pass
-- leaves alone, so the rows are rewritten where they stand. `requests` gives the texts of each request.
pub mod Settled
pub mod Served
use backup_telebot.Prelude.{
  str_eq, String, ℕ, max, Bool, true, false, not, ◌&&◌, Option, none, some, List, [], ◌∷◌, ◌++◌,
  leb, is_none, if◌then◌else◌,
}
use backup_telebot.Domain.{ScheduleKind, RunStatus}
use backup_telebot.Store.{Outcome, returns, raises, Profile, Db}
use backup_telebot.Fallible.{◌>>=◌}
use backup_telebot.Jobs.Enqueue.{EnqueueResult, Request, enqueue_scheduled}
use backup_telebot.Schedule.Next.{Zone, next_scheduled_time}

pub record SchedulerResult : Type 0 where
  pub run_id : ℕ
  pub status : RunStatus

abbrev pub is_manual : ScheduleKind → Bool
is_manual ScheduleKind.manual = true
is_manual _ = false

abbrev pub is_once : ScheduleKind → Bool
is_once ScheduleKind.once = true
is_once _ = false

-- The profiles that a pass reads.
abbrev pub is_scheduled : Profile → Bool
is_scheduled p = p.enabled && (is_none p.archived_at && not (is_manual p.schedule_kind))

-- What a pass has done: its results, the rows of the profiles, and the database with the new runs.
pub record Pass : Type 0 where
  pub results : List SchedulerResult
  pub profiles : List Profile
  pub db : Db

abbrev pub result_of : EnqueueResult → SchedulerResult
result_of queued = record { run_id = queued.run.id; status = queued.run.status }

-- The instant after the cursor, or none for a profile that runs once.
unfoldable pub next_cursor : Zone → Profile → ℕ → Outcome (Option ℕ)
next_cursor zone p cursor =
    if is_once p.schedule_kind then returns none else next_scheduled_time zone p cursor

abbrev pub moved : Profile → List SchedulerResult → Db → Option ℕ → Pass
moved p results db next = record {
  results = results;
  profiles = record p { next_scheduled_at = next } ∷ [];
  db = db;
}

abbrev pub after_enqueue : Zone → ℕ → Profile → ℕ → Outcome EnqueueResult × Db → Outcome Pass
after_enqueue zone now p due (raises e, db) = raises e
after_enqueue zone now p due (returns queued, db) = do
  next ← next_cursor zone p (max due now)
  returns (moved p (result_of queued ∷ []) db next)

abbrev pub visit_due : Zone → (ℕ → Request) → ℕ → Profile → Option ℕ → Db → Outcome Pass
visit_due zone requests now p none db =
    if is_once p.schedule_kind
    then returns (moved p [] db none)
    else next_scheduled_time zone p now >>= λ next. returns (moved p [] db next)
visit_due zone requests now p (some due) db =
    if leb due now
    then after_enqueue zone now p due (enqueue_scheduled (requests p.id) p.id due db db)
    else returns (moved p [] db (some due))

-- One round of the loop.
unfoldable pub visit : Zone → (ℕ → Request) → ℕ → Profile → Db → Outcome Pass
visit zone requests now p db =
    if is_scheduled p
    then visit_due zone requests now p p.next_scheduled_at db
    else returns (record { results = []; profiles = p ∷ []; db = db })

unfoldable pub visit_all : Zone → (ℕ → Request) → ℕ → List Profile → Db → Outcome Pass
visit_all zone requests now [] db = returns (record { results = []; profiles = []; db = db })
visit_all zone requests now (p ∷ rest) db = do
  first ← visit zone requests now p db
  others ← visit_all zone requests now rest first.db
  returns (record {
    results = first.results ++ others.results;
    profiles = first.profiles ++ others.profiles;
    db = others.db;
  })

-- `stored_timezone or timezone`
abbrev pub chosen_zone : (String → Zone) → Option String → String → Zone
chosen_zone zones none timezone = zones timezone
chosen_zone zones (some stored) timezone = zones (if str_eq stored "" then timezone else stored)

abbrev pub committed : Db → Outcome Pass → Outcome (List SchedulerResult) × Db
committed db (raises e) = (raises e, db)
committed db (returns pass) = (returns pass.results, record pass.db { profiles = pass.profiles })

-- tick
unfoldable pub tick :
    (String → Zone)
    → (ℕ → Request)
    → Option String
    → ℕ
    → String
    → Db
    → Outcome (List SchedulerResult) × Db
tick zones requests stored now timezone db =
    committed db (visit_all (chosen_zone zones stored timezone) requests now db.profiles db)
