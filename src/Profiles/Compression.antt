-- ===== src/Profiles/Compression.antt =====
-- `CompressionConfig` of src/application/profile_config.py.
pub mod Legacy
use backup_telebot.Prelude.{
  Bool, true, false, not, ◌&&◌, ◌||◌, Option, none, some, is_none, is_some, if◌then◌else◌,
}
use backup_telebot.Domain.{
  CompressionFormat, ArchiveFormat, CompressionAlgorithm, CompressionPreset,
}
use backup_telebot.Store.{Outcome, returns, raises, value_error}
use backup_telebot.Fallible.{◌>>◌, require}

pub record CompressionConfig : Type 0 where
  pub format : CompressionFormat
  pub preset : Option CompressionPreset
  pub archive : Option ArchiveFormat
  pub algorithm_override : Option CompressionAlgorithm

abbrev archive_of : CompressionFormat → ArchiveFormat
archive_of CompressionFormat.zip = ArchiveFormat.zip
archive_of CompressionFormat.seven_z = ArchiveFormat.seven_z
archive_of _ = ArchiveFormat.tar

-- archive_format
unfoldable pub archive_format : CompressionConfig → ArchiveFormat
archive_format c = elim c.archive [ none ↦ archive_of c.format | some archive ↦ archive ]

abbrev algorithm_of : CompressionFormat → CompressionAlgorithm
algorithm_of CompressionFormat.none = CompressionAlgorithm.none
algorithm_of CompressionFormat.zstandard = CompressionAlgorithm.zstandard
algorithm_of CompressionFormat.gzip = CompressionAlgorithm.gzip
algorithm_of CompressionFormat.xz = CompressionAlgorithm.xz
algorithm_of CompressionFormat.bzip2 = CompressionAlgorithm.bzip2
algorithm_of CompressionFormat.zip = CompressionAlgorithm.none
algorithm_of CompressionFormat.seven_z = CompressionAlgorithm.none

-- algorithm
unfoldable pub algorithm : CompressionConfig → CompressionAlgorithm
algorithm c = elim c.algorithm_override [ none ↦ algorithm_of c.format | some chosen ↦ chosen ]

abbrev pub is_uncompressed : CompressionAlgorithm → Bool
is_uncompressed CompressionAlgorithm.none = true
is_uncompressed _ = false

abbrev is_container : CompressionFormat → Bool
is_container CompressionFormat.zip = true
is_container CompressionFormat.seven_z = true
is_container _ = false

-- validate
unfoldable pub validate : CompressionConfig → Outcome CompressionConfig
validate c =
    let legacy_container = is_none c.algorithm_override && is_container c.format in
    require (not (is_uncompressed (algorithm c) && (is_some c.preset && not legacy_container)))
      (value_error "no-compression mode cannot have a preset")
    >> (require (not (not (is_uncompressed (algorithm c)) && is_none c.preset))
          (value_error "compressed formats require a preset")
        >> returns c)

-- The value of the combined column that stands for an algorithm.
abbrev legacy_format : CompressionAlgorithm → CompressionFormat
legacy_format CompressionAlgorithm.none = CompressionFormat.none
legacy_format CompressionAlgorithm.gzip = CompressionFormat.gzip
legacy_format CompressionAlgorithm.bzip2 = CompressionFormat.bzip2
legacy_format CompressionAlgorithm.xz = CompressionFormat.xz
legacy_format CompressionAlgorithm.zstandard = CompressionFormat.zstandard
legacy_format CompressionAlgorithm.lz4 = CompressionFormat.zstandard

-- separated
unfoldable pub separated :
    ArchiveFormat → CompressionAlgorithm → Option CompressionPreset → Outcome CompressionConfig
separated archive chosen preset =
    require (not (is_uncompressed chosen && is_some preset))
      (value_error "no-compression mode cannot have a preset")
    >> (require (not (not (is_uncompressed chosen) && is_none preset))
          (value_error "compressed algorithms require a preset")
        >> returns (record {
          format = legacy_format chosen;
          preset = preset;
          archive = some archive;
          algorithm_override = some chosen;
        }))
