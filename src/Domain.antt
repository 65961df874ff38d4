-- ===== src/Domain.antt =====
-- src/domain/enums.py: the enumerations that the modelled components share.
use backup_telebot.Prelude.{ℕ, Bool, true, false, List, [], ◌∷◌, ◌||◌, ◌==◌}

pub data Role : Type 0 where
  superadmin admin : Role

pub data ScheduleKind : Type 0 where
  manual once every_n_minutes every_n_hours every_n_days daily weekly monthly cron : ScheduleKind

pub data CompressionFormat : Type 0 where
  none zstandard gzip xz bzip2 zip seven_z : CompressionFormat

pub data ArchiveFormat : Type 0 where
  tar zip seven_z : ArchiveFormat

pub data CompressionAlgorithm : Type 0 where
  none gzip bzip2 xz zstandard lz4 : CompressionAlgorithm

pub data CompressionPreset : Type 0 where
  fast balanced high maximum : CompressionPreset

pub data RunTrigger : Type 0 where
  manual scheduled : RunTrigger

pub data RunStatus : Type 0 where
  queued running delivery_pending succeeded failed cancelled skipped : RunStatus

pub data RunStage : Type 0 where
  queued backup verify_source compress encrypt checksum finalize : RunStage
  pending_delivery telegram_delivery cleanup complete : RunStage

pub data DeliveryStatus : Type 0 where
  pending succeeded skipped failed : DeliveryStatus

-- The tests `is` and `==` on the members that the code compares.
abbrev pub is_superadmin : Role → Bool
is_superadmin Role.superadmin = true
is_superadmin Role.admin = false

abbrev pub is_admin : Role → Bool
is_admin Role.admin = true
is_admin Role.superadmin = false

abbrev pub trigger_eq : RunTrigger → RunTrigger → Bool
trigger_eq RunTrigger.manual RunTrigger.manual = true
trigger_eq RunTrigger.scheduled RunTrigger.scheduled = true
trigger_eq _ _ = false

abbrev status_number : RunStatus → ℕ
status_number RunStatus.queued = 0
status_number RunStatus.running = 1
status_number RunStatus.delivery_pending = 2
status_number RunStatus.succeeded = 3
status_number RunStatus.failed = 4
status_number RunStatus.cancelled = 5
status_number RunStatus.skipped = 6

abbrev pub status_eq : RunStatus → RunStatus → Bool
status_eq a b = status_number a == status_number b

-- `status IN (...)`.
abbrev pub status_in : List RunStatus → RunStatus → Bool
status_in [] s = false
status_in (a ∷ rest) s = status_eq a s || status_in rest s

abbrev pub is_pending : DeliveryStatus → Bool
is_pending DeliveryStatus.pending = true
is_pending _ = false

abbrev pub is_succeeded : DeliveryStatus → Bool
is_succeeded DeliveryStatus.succeeded = true
is_succeeded _ = false

abbrev pub is_failed : DeliveryStatus → Bool
is_failed DeliveryStatus.failed = true
is_failed _ = false
