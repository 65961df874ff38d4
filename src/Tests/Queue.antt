-- ===== src/Tests/Queue.antt =====
-- Runs of the job queue (src/pipeline/jobs.py).
use backup_telebot.Jobs.Finish.{failed_run, write_failure, fail}
use backup_telebot.Prelude.{
  is_none, update, ℕ, Bool, ◌≡◌, refl, none, some, true, false, List, [], ◌∷◌, arith, count, any,
  find,
}
use backup_telebot.Domain.{Role, ScheduleKind, RunTrigger, RunStatus}
use backup_telebot.Store.{User, Run, Profile, Db, returns, is_active_of, in_slot, insert_run}
use backup_telebot.Jobs.Enqueue.{
  Request, EnqueueResult, queued_run, enqueue, enqueue_scheduled, is_enqueueable, existing_slot,
  slot_holder, active_for_profile, insert_queued,
}
use backup_telebot.Jobs.Enqueue.Answers.{
  enqueue_created, enqueue_unchanged, enqueue_scheduled_again,
}
use backup_telebot.Jobs.Lease.{claim, take_lease}
use backup_telebot.Jobs.Lease.Claim.{Claims, claim-Claims}
use backup_telebot.Jobs.Calls.{
  Call, ask_manual, claims, ask_cancel, fails, renews, moves, waits, apply,
}
use backup_telebot.Jobs.Stages.{Artifact, starts, finalizes}

abbrev profile : Profile
profile = record {
  id = 7;
  enabled = true;
  archived_at = none;
  schedule_kind = ScheduleKind.daily;
  schedule_interval = none;
  schedule_time = some (3, 30);
  schedule_weekday = none;
  schedule_monthday = none;
  schedule_cron = none;
  next_scheduled_at = some 50;
}

abbrev operator : User
operator = record {
  id = 1;
  telegram_user_id = 900;
  role = Role.superadmin;
  enabled = true;
  deleted_at = none;
}

abbrev request : Request
request = record { now = 60; uuid = "run-a"; skip_uuid = "skip-a"; snapshot = "{}" }

abbrev second_request : Request
second_request = record { now = 61; uuid = "run-b"; skip_uuid = "skip-b"; snapshot = "{}" }

abbrev idle : Db
idle = record { next_id = 1; runs = []; profiles = profile ∷ []; deliveries = []; audit = [] }

abbrev leased_run : Run
leased_run = take_lease "w1" 60 100 (queued_run request 7 RunTrigger.manual none 1)

abbrev leased_db : Db
leased_db = record idle { next_id = 2; runs = leased_run ∷ [] }

abbrev unlocked : ℕ → Bool
unlocked i = false

abbrev others : List Call
others =
    claims "w2" 60 true unlocked 200
    ∷ ask_cancel operator 1 300
    ∷ renews "w2" 1 60 400
    ∷ waits "w2" 1
    ∷ fails "w2" 1 "LOST" "gone" 60 500 leased_db
    ∷ []

-- A worker that has read the row while it was its own drops the lease that another has taken meanwhile.
abbrev stale : Db
stale = record leased_db { runs = record leased_run { lease_owner = some "w2" } ∷ [] }

stale_failure :
    any
      (λ r. is_none r.lease_owner)
      (apply (fails "w2" 1 "LOST" "gone" 60 500 stale) leased_db).runs
    ≡ true
unfolding apply fail find any update write_failure failed_run
stale_failure = refl

-- A run from the request of an operator to the wait for its recipients.
abbrev artifact : Artifact
artifact = record {
  directory = "/pending/site/run-a";
  filename = "site.tar";
  size = 3;
  sha256 = "aa";
}

abbrev life : List Call
life =
    ask_manual operator request 7 idle
    ∷ claims "w1" 60 true unlocked 100
    ∷ moves "w1" 1 (starts 110) leased_db
    ∷ moves "w1" 1 (finalizes artifact) leased_db
    ∷ waits "w1" 1
    ∷ []

claim-Claims_example :
    Claims "w1" 60
      (RunStatus.queued ∷ [])
      unlocked
      100
      leased_db
      (claim "w1" 60 (RunStatus.queued ∷ []) unlocked 100 leased_db)
claim-Claims_example = claim-Claims "w1" 60 (RunStatus.queued ∷ []) unlocked 100 leased_db

abbrev created_result : EnqueueResult
created_result = record {
  run = queued_run request 7 RunTrigger.scheduled (some 50) 1;
  created = true;
}

enqueue_runs : (enqueue_scheduled request 7 50 idle idle).0 ≡ returns created_result
unfolding enqueue_scheduled enqueue is_enqueueable existing_slot slot_holder active_for_profile
    insert_queued insert_run find any
enqueue_runs = refl

enqueue_runs' :
    (enqueue request 7 RunTrigger.scheduled (some 50) idle idle).0 ≡ returns created_result
unfolding enqueue is_enqueueable existing_slot slot_holder active_for_profile insert_queued
    insert_run find any
enqueue_runs' = refl

still_enqueueable : is_enqueueable 7 (enqueue_scheduled request 7 50 idle idle).1 ≡ true
unfolding enqueue_scheduled enqueue is_enqueueable existing_slot slot_holder active_for_profile
    insert_queued insert_run find any
still_enqueueable = refl

not_created :
    (result : EnqueueResult)
    → (enqueue request 8 RunTrigger.manual none idle idle).0 ≡ returns result
    → result.created ≡ false
unfolding enqueue is_enqueueable find
not_created result e = ground (arith, e)

enqueue_created_example :
    let p = enqueue request 7 RunTrigger.scheduled (some 50) idle idle in
    (count (is_active_of 7) p.1.runs ≡ 1)
    × (created_result.run.profile_id ≡ 7)
    × (created_result.run.id ≡ 1)
    × (created_result.run.lease_owner ≡ none)
enqueue_created_example =
    enqueue_created request 7 (some 50) RunTrigger.scheduled idle idle {result = created_result}
      enqueue_runs' refl refl

enqueue_scheduled_again_example :
    (r : Run) × (enqueue_scheduled second_request 7 50
        (enqueue_scheduled request 7 50 idle idle).1
        idle
      ≡ (returns (record { run = r; created = false }), idle))
    × (in_slot 7 RunTrigger.scheduled 50 r ≡ true)
enqueue_scheduled_again_example =
    enqueue_scheduled_again request second_request 7 50 idle idle idle {result = created_result}
      enqueue_runs refl still_enqueueable

enqueue_unchanged_example : (enqueue request 8 RunTrigger.manual none idle idle).1 ≡ idle
enqueue_unchanged_example = enqueue_unchanged request 8 none RunTrigger.manual idle idle not_created
