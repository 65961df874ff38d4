-- ===== src/Tests/Profiles.antt =====
-- Configurations of profiles (src/application/profile_config.py).
use backup_telebot.Prelude.{
  ◌⊎◌, true, ℕ, ◌-◌, ◌≡◌, refl, arith, not, ◌&&◌, ◌||◌, leb, if◌then◌else◌, Option, none, some,
  is_some, [], ◌∷◌,
}
use backup_telebot.Domain.{
  ScheduleKind, ArchiveFormat, CompressionAlgorithm, CompressionPreset, CompressionFormat,
}
use backup_telebot.Store.{returns}
use backup_telebot.Schedule.Next.{next_scheduled_time}
use backup_telebot.Schedule.Next.First.{IsChecked}
use backup_telebot.Schedule.Tick.{is_manual, is_once}
use backup_telebot.Tests.Schedule.{utc, weekly}
use backup_telebot.Profiles.Timing.{is_cron_kind, ScheduleConfig, Reader, validate, set_schedule}
use backup_telebot.Profiles.Timing.Complete.{IsReader, validate_complete}
use backup_telebot.Profiles.Compression.{CompressionConfig, separated}
use backup_telebot.Profiles.Compression.Legacy.{Reads, separated-Reads}

abbrev reader : Reader
reader = record {
  digit = λ a. if leb b'0' a && leb a b'9' then some (a - b'0') else none;
  normalized = λ e. e;
  check_cron = λ e. returns tt;
}

reader-IsReader : IsReader reader
reader-IsReader = record { bounded = λ a n h. ground (arith, h); ascii = λ n h. ground (arith, h) }

abbrev thursdays : ScheduleConfig
thursdays = record {
  kind = ScheduleKind.weekly;
  interval = none;
  time = some (b'1' ∷ b'0' ∷ b':' ∷ b'3' ∷ b'0' ∷ []);
  weekday = some 3;
  monthday = none;
  cron_expression = none;
}

thursdays_pass : validate reader thursdays ≡ returns thursdays
unfolding validate
thursdays_pass = refl

validate_complete_example :
    IsChecked (set_schedule reader thursdays weekly)
    × ((is_cron_kind ScheduleKind.weekly ≡ true)
        ⊎ ((next : Option ℕ) × (next_scheduled_time utc (set_schedule reader thursdays weekly) 5
              ≡ returns next)
            × (is_some next ≡ not (is_manual ScheduleKind.weekly || is_once ScheduleKind.weekly))))
validate_complete_example =
    validate_complete reader utc thursdays weekly 5 {out = thursdays} reader-IsReader thursdays_pass

abbrev packed : CompressionConfig
packed = record {
  format = CompressionFormat.gzip;
  preset = some CompressionPreset.high;
  archive = some ArchiveFormat.zip;
  algorithm_override = some CompressionAlgorithm.gzip;
}

packs :
    separated ArchiveFormat.zip CompressionAlgorithm.gzip (some CompressionPreset.high)
    ≡ returns packed
unfolding separated
packs = refl

separated-Reads_example :
    Reads ArchiveFormat.zip CompressionAlgorithm.gzip (some CompressionPreset.high) packed
separated-Reads_example =
    separated-Reads ArchiveFormat.zip CompressionAlgorithm.gzip (some CompressionPreset.high)
      {c = packed} packs
