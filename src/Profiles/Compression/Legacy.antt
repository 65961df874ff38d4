-- ===== src/Profiles/Compression/Legacy.antt =====
-- The combined column of older profiles beside the separate ones (src/application/profile_config.py).
use backup_telebot.Fallible.{returns-value}
use backup_telebot.Prelude.{subst, inl, inr, ◌⊎◌, ◌⊎◌, Option, none, some, ◌≡◌, refl, arith}
use backup_telebot.Domain.{ArchiveFormat, CompressionAlgorithm, CompressionPreset}
use backup_telebot.Store.{Outcome, returns}
use backup_telebot.Profiles.Compression.{
  CompressionConfig, archive_format, algorithm, validate, separated,
}

-- What can be read of a configuration.
abbrev pub Reads :
    ArchiveFormat → CompressionAlgorithm → Option CompressionPreset → CompressionConfig → Type 0
Reads archive chosen preset c =
    (archive_format c ≡ archive)
    × (algorithm c ≡ chosen)
    × (c.preset ≡ preset)
    × (validate c ≡ returns c)
    × ((algorithm (record c { archive = none; algorithm_override = none }) ≡ chosen)
        ⊎ (chosen ≡ CompressionAlgorithm.lz4))

read_back :
    {archive : ArchiveFormat} {chosen : CompressionAlgorithm} {preset : Option CompressionPreset}
    {c d : CompressionConfig}
    → ◌≡◌ {A = Outcome CompressionConfig} (returns c) (returns d)
    → Reads archive chosen preset c
    → Reads archive chosen preset d
read_back {archive} {chosen} {preset} h r = subst (Reads archive chosen preset) (returns-value h) r

-- A configuration that `separated` gives has the archive, the algorithm and the preset that it was asked
-- for, and passes `validate`; without its separate columns it still has that algorithm, LZ4 apart.
pub separated-Reads :
    (archive : ArchiveFormat) (chosen : CompressionAlgorithm) (preset : Option CompressionPreset)
    {c : CompressionConfig}
    → separated archive chosen preset ≡ returns c
    → Reads archive chosen preset c
unfolding separated validate algorithm archive_format
separated-Reads archive CompressionAlgorithm.none none h =
    read_back h (refl, refl, refl, refl, inl refl)
separated-Reads archive CompressionAlgorithm.none (some p) h = ground (arith, h)
separated-Reads archive CompressionAlgorithm.gzip none h = ground (arith, h)
separated-Reads archive CompressionAlgorithm.gzip (some p) h =
    read_back h (refl, refl, refl, refl, inl refl)
separated-Reads archive CompressionAlgorithm.bzip2 none h = ground (arith, h)
separated-Reads archive CompressionAlgorithm.bzip2 (some p) h =
    read_back h (refl, refl, refl, refl, inl refl)
separated-Reads archive CompressionAlgorithm.xz none h = ground (arith, h)
separated-Reads archive CompressionAlgorithm.xz (some p) h =
    read_back h (refl, refl, refl, refl, inl refl)
separated-Reads archive CompressionAlgorithm.zstandard none h = ground (arith, h)
separated-Reads archive CompressionAlgorithm.zstandard (some p) h =
    read_back h (refl, refl, refl, refl, inl refl)
separated-Reads archive CompressionAlgorithm.lz4 none h = ground (arith, h)
separated-Reads archive CompressionAlgorithm.lz4 (some p) h =
    read_back h (refl, refl, refl, refl, inr refl)
