-- ===== src/Store.antt =====
-- The rows of the control database that the modelled operations read and write
-- (src/database/models/backup_run.py, delivery.py, user.py, backup_profile.py, audit.py), the audit
-- trail (src/infrastructure/repositories/audit.py, src/application/observability.py) and the errors.
--
-- An instant is a number of microseconds. An operation takes the database that its transaction
-- reads and returns its outcome with the database that it leaves committed.
pub mod Integrity
use backup_telebot.Prelude.{
  ℕ, zero, suc, ◌+◌, String, Bool, true, false, ◌&&◌, ◌||◌, Option, none, some, List, [], ◌∷◌, ◌++◌,
  ◌==◌, not, is_none, if◌then◌else◌, find, update, any, count, str_eq, holds_number,
}
use backup_telebot.Domain.{
  Role, ScheduleKind, RunTrigger, RunStatus, RunStage, DeliveryStatus, trigger_eq, status_in,
  is_superadmin,
}

pub data Error : Type 0 where
  permission_error : Error  -- PermissionError
  not_found : String → Error  -- NotFoundError
  value_error : String → Error  -- ValueError
  runtime_error : String → Error  -- RuntimeError
  integrity_error : Error  -- sqlalchemy.exc.IntegrityError
  pipeline_error : String → Error  -- PipelineError, by its code
  cancelled_error : Error  -- asyncio.CancelledError
  conflict_error : String → Error  -- ConflictError
  path_error : String → Error  -- LocalSourcePathError, by its reason
  key_error : Error  -- KeyError
  file_exists_error : Error  -- FileExistsError
  invalid_tag : Error  -- cryptography.exceptions.InvalidTag

pub data Outcome {ℓ} (A : Type ℓ) : Type ℓ where
  returns : A → Outcome A
  raises : Error → Outcome A

pub record User : Type 0 where
  pub id : ℕ
  pub telegram_user_id : ℕ
  pub role : Role
  pub enabled : Bool
  pub deleted_at : Option ℕ

pub record Run : Type 0 where
  pub id : ℕ
  pub uuid : String
  pub profile_id : ℕ
  pub trigger : RunTrigger
  pub scheduled_for : Option ℕ
  pub status : RunStatus
  pub stage : RunStage
  pub skip_reason : Option String
  pub lease_owner : Option String
  pub lease_expires_at : Option ℕ
  pub cancel_requested : Bool
  pub created_at : ℕ
  pub updated_at : ℕ
  pub started_at : Option ℕ
  pub finished_at : Option ℕ
  pub workspace_path : Option String
  pub pending_directory : Option String
  pub failed_artifact_cleanup_at : Option ℕ
  pub failed_artifact_cleaned_at : Option ℕ
  pub final_filename : Option String
  pub final_size_bytes : Option ℕ
  pub final_sha256 : Option String
  pub configuration_snapshot : Option String
  pub error_code : Option String
  pub error_message : Option String

pub record Delivery : Type 0 where
  pub run_id : ℕ
  pub admin_id : ℕ
  pub status : DeliveryStatus
  pub attempts : ℕ
  pub part_attempts : ℕ
  pub next_part : ℕ
  pub next_attempt_at : Option ℕ
  pub telegram_message_id : Option ℕ
  pub telegram_file_id : Option ℕ
  pub delivered_at : Option ℕ
  pub last_error : Option String

-- The schedule columns of a backup profile, with those that gate the queue.
pub record Profile : Type 0 where
  pub id : ℕ
  pub enabled : Bool
  pub archived_at : Option ℕ
  pub schedule_kind : ScheduleKind
  pub schedule_interval : Option ℕ
  pub schedule_time : Option (ℕ × ℕ)
  pub schedule_weekday : Option ℕ
  pub schedule_monthday : Option ℕ
  pub schedule_cron : Option String
  pub next_scheduled_at : Option ℕ

-- `details` of an audit event, as the values of its JSON object.
pub data Details : Type 0 where
  no_details : Details
  transition : RunStatus → RunStage → Option String → Details
  requested : Bool → ℕ → Details
  retried : ℕ → Details
  verified : Details
  about_admin : ℕ → Details
  language : String → Details

pub record AuditEvent : Type 0 where
  pub event_type : String
  pub actor_id : Option ℕ
  pub target_type : String
  pub target_id : ℕ
  pub details : Details

pub record Db : Type 0 where
  pub next_id : ℕ
  pub runs : List Run
  pub profiles : List Profile
  pub deliveries : List Delivery
  pub audit : List AuditEvent

-- AuditRepository.record
abbrev pub record_event : String → Option ℕ → String → ℕ → Details → Db → Db
record_event event_type actor_id target_type target_id details db = record db {
  audit =
      db.audit
      ++ record {
        event_type = event_type;
        actor_id = actor_id;
        target_type = target_type;
        target_id = target_id;
        details = details;
      }
        ∷ [];
}

-- The first characters of a text, `text[:n]`.
unfoldable pub take_text : ℕ → String → String
take_text zero s = String.[]
take_text (suc n) String.[] = String.[]
take_text (suc n) (String.◌∷◌ c s) = String.◌∷◌ c (take_text n s)

abbrev safe_code : Option String → Option String
safe_code none = none
safe_code (some code) = some (take_text 64 code)

-- record_run_transition; the event is named `backup_run_<transition>`.
abbrev pub record_run_transition : String → ℕ → RunStatus → RunStage → Option String → Db → Db
record_run_transition event run_id status stage error_code =
    record_event event none "backup_run" run_id (transition status stage (safe_code error_code))

-- ACTIVE_STATUSES
abbrev pub active_statuses : List RunStatus
active_statuses = RunStatus.queued ∷ RunStatus.running ∷ RunStatus.delivery_pending ∷ []

abbrev pub has_id : ℕ → Run → Bool
has_id i r = r.id == i

abbrev pub has_uuid : String → Run → Bool
has_uuid u r = str_eq r.uuid u

abbrev pub is_active : Run → Bool
is_active r = status_in active_statuses r.status

abbrev pub is_active_of : ℕ → Run → Bool
is_active_of profile_id r = (r.profile_id == profile_id) && is_active r

abbrev pub in_slot : ℕ → RunTrigger → ℕ → Run → Bool
in_slot profile_id trigger instant r =
    (r.profile_id == profile_id)
    && (trigger_eq r.trigger trigger && holds_number r.scheduled_for instant)

-- A row breaks the unique constraint on (profile_id, trigger, scheduled_for) only if no column of
-- it is NULL.
abbrev slot_taken : Run → List Run → Bool
slot_taken r runs = elim r.scheduled_for [
  | none ↦ false
  | some instant ↦ any (in_slot r.profile_id r.trigger instant) runs
]

-- INSERT into backup_runs: `none` is the IntegrityError of a unique key, of the partial index
-- `uq_backup_runs_active_profile` or of `uq_backup_runs_schedule_slot`.
unfoldable pub insert_run : Run → Db → Option Db
insert_run r db =
    if any (has_uuid r.uuid) db.runs
    then none
    else if is_active r && any (is_active_of r.profile_id) db.runs
    then none
    else if slot_taken r db.runs
    then none
    else some (record db { next_id = suc db.next_id; runs = db.runs ++ r ∷ [] })

-- AdminService.require_superadmin passes.
abbrev pub may_manage : User → Bool
may_manage actor = is_superadmin actor.role && (actor.enabled && is_none actor.deleted_at)
