-- ===== src/Jobs/Enqueue.antt =====
-- `RunService._enqueue`, `_record_skipped`, `active_for_profile`, `enqueue_manual` and
-- `enqueue_scheduled` of src/pipeline/jobs.py.
--
-- Another transaction may commit between the checks and the insertion, so the two databases are
-- separate arguments: `seen` is what the checks read, `db` what the insertion meets.
-- `snapshot` is the text of `serialize_run_config`, which no operation of the queue reads.
pub mod Unique
pub mod Answers
use backup_telebot.Prelude.{
  ℕ, String, Bool, true, false, ◌&&◌, not, Option, none, some, List, [], ◌∷◌, ◌==◌, ltb, is_none,
  if◌then◌else◌, find,
}
use backup_telebot.Domain.{RunTrigger, RunStatus, RunStage, trigger_eq}
use backup_telebot.Store.{
  Error, not_found, permission_error, integrity_error, Outcome, returns, raises, User, Run, Db,
  Profile, may_manage, is_active_of, in_slot, insert_run, record_event, record_run_transition,
  requested,
}

pub record EnqueueResult : Type 0 where
  pub run : Run
  pub created : Bool

-- The caller's texts and clock: `str(uuid.uuid4())` for either row, `utc_now()` and the snapshot.
pub record Request : Type 0 where
  pub now : ℕ
  pub uuid : String
  pub skip_uuid : String
  pub snapshot : String

newer : Run → Option Run → Option Run
newer r none = some r
newer r (some s) = if ltb r.id s.id then some s else some r

-- active_for_profile: the active run of the profile with the greatest number.
unfoldable pub active_for_profile : ℕ → List Run → Option Run
unfolding newer
active_for_profile profile_id [] = none
active_for_profile profile_id (r ∷ rest) =
    let best = active_for_profile profile_id rest in
    if is_active_of profile_id r then newer r best else best

-- The run that stands in a scheduled slot; `scheduled_for == None` is read as IS NULL.
unfoldable pub slot_holder : ℕ → Option ℕ → List Run → Option Run
slot_holder profile_id none runs =
    find
      (λ r.
        (r.profile_id == profile_id)
        && (trigger_eq r.trigger RunTrigger.scheduled && is_none r.scheduled_for))
      runs
slot_holder profile_id (some instant) runs =
    find (in_slot profile_id RunTrigger.scheduled instant) runs

-- `existing_slot`, looked up only for a scheduled request that names an instant.
unfoldable pub existing_slot : ℕ → RunTrigger → Option ℕ → List Run → Option Run
unfolding slot_holder
existing_slot profile_id RunTrigger.scheduled (some instant) runs =
    slot_holder profile_id (some instant) runs
existing_slot profile_id _ _ runs = none

abbrev pub queued_run : Request → ℕ → RunTrigger → Option ℕ → ℕ → Run
queued_run q profile_id trigger scheduled_for id = record {
  id = id;
  uuid = q.uuid;
  profile_id = profile_id;
  trigger = trigger;
  scheduled_for = scheduled_for;
  status = RunStatus.queued;
  stage = RunStage.queued;
  skip_reason = none;
  lease_owner = none;
  lease_expires_at = none;
  cancel_requested = false;
  created_at = q.now;
  updated_at = q.now;
  started_at = none;
  finished_at = none;
  workspace_path = none;
  pending_directory = none;
  failed_artifact_cleanup_at = none;
  failed_artifact_cleaned_at = none;
  final_filename = none;
  final_size_bytes = none;
  final_sha256 = none;
  configuration_snapshot = some q.snapshot;
  error_code = none;
  error_message = none;
}

abbrev pub skipped_run : Request → ℕ → Option ℕ → ℕ → Run
skipped_run q profile_id scheduled_for id =
    let base = queued_run q profile_id RunTrigger.scheduled scheduled_for id in
    record base {
      uuid = q.skip_uuid;
      status = RunStatus.skipped;
      stage = RunStage.complete;
      skip_reason = some "profile already running";
      finished_at = some q.now;
      configuration_snapshot = none;
    }

answer : Error → Option Run → Db → Outcome EnqueueResult × Db
answer e none db = (raises e, db)
answer e (some r) db = (returns (record { run = r; created = false }), db)

-- _record_skipped
unfoldable pub record_skipped : Request → ℕ → Option ℕ → Db → Outcome EnqueueResult × Db
unfolding answer
record_skipped q profile_id scheduled_for db =
    let skipped = skipped_run q profile_id scheduled_for db.next_id in
    elim (insert_run skipped db) [
      | none ↦ answer integrity_error (slot_holder profile_id scheduled_for db.runs) db
      | some db' ↦ (returns (record { run = skipped; created = true }), db')
    ]

-- The answer where a run of the profile is active already.
unfoldable pub settle : Request → ℕ → RunTrigger → Option ℕ → Run → Db → Outcome EnqueueResult × Db
settle q profile_id RunTrigger.manual scheduled_for active db =
    (returns (record { run = active; created = false }), db)
settle q profile_id RunTrigger.scheduled scheduled_for active db =
    record_skipped q profile_id scheduled_for db

-- `except IntegrityError`
unfoldable pub resolve_conflict :
    Request → ℕ → RunTrigger → Option ℕ → Db → Outcome EnqueueResult × Db
resolve_conflict q profile_id trigger scheduled_for db =
    elim (existing_slot profile_id trigger scheduled_for db.runs) [
      | some r ↦ (returns (record { run = r; created = false }), db)
      | none ↦ elim (active_for_profile profile_id db.runs) [
        | none ↦ (raises integrity_error, db)
        | some active ↦ settle q profile_id trigger scheduled_for active db
      ]
    ]

-- The insertion of the new run, with its transition event.
unfoldable pub insert_queued : Request → ℕ → RunTrigger → Option ℕ → Db → Outcome EnqueueResult × Db
insert_queued q profile_id trigger scheduled_for db =
    let run = queued_run q profile_id trigger scheduled_for db.next_id in
    elim (insert_run run db) [
      | none ↦ resolve_conflict q profile_id trigger scheduled_for db
      | some db' ↦ (
        returns (record { run = run; created = true }),
        record_run_transition "backup_run_queued" run.id RunStatus.queued RunStage.queued none db',
      )
    ]

-- The profile is there, in use and enabled.
unfoldable pub is_enqueueable : ℕ → Db → Bool
is_enqueueable profile_id db = elim (find (λ (p : Profile). p.id == profile_id) db.profiles) [
  | none ↦ false
  | some profile ↦ is_none profile.archived_at && profile.enabled
]

-- _enqueue
unfoldable pub enqueue : Request → ℕ → RunTrigger → Option ℕ → Db → Db → Outcome EnqueueResult × Db
enqueue q profile_id trigger scheduled_for seen db =
    if not (is_enqueueable profile_id seen)
    then (raises (not_found "enabled backup profile not found"), db)
    else elim (existing_slot profile_id trigger scheduled_for seen.runs) [
      | some r ↦ (returns (record { run = r; created = false }), db)
      | none ↦ elim (active_for_profile profile_id seen.runs) [
        | some active ↦ settle q profile_id trigger scheduled_for active db
        | none ↦ insert_queued q profile_id trigger scheduled_for db
      ]
    ]

audited : User → ℕ → Outcome EnqueueResult × Db → Outcome EnqueueResult × Db
audited actor profile_id (raises e, db) = (raises e, db)
audited actor profile_id (returns result, db) = (
  returns result,
  record_event "backup_run_requested" (some actor.id) "backup_run" result.run.id
      (requested result.created profile_id) db,
)

-- enqueue_manual
unfoldable pub enqueue_manual : User → Request → ℕ → Db → Db → Outcome EnqueueResult × Db
unfolding audited
enqueue_manual actor q profile_id seen db =
    if may_manage actor
    then audited actor profile_id (enqueue q profile_id RunTrigger.manual none seen db)
    else (raises permission_error, db)

-- enqueue_scheduled
unfoldable pub enqueue_scheduled : Request → ℕ → ℕ → Db → Db → Outcome EnqueueResult × Db
enqueue_scheduled q profile_id instant = enqueue q profile_id RunTrigger.scheduled (some instant)
