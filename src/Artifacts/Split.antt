-- ===== src/Artifacts/Split.antt =====
-- `_split_artifact` of src/pipeline/finalize.py.
--
-- A part is written under a temporary name and renamed when it is complete, so that it appears whole. The
-- digest is a parameter. `progress_check` is left out.
pub mod Reads
pub mod Whole
use backup_telebot.Prelude.{
  ℕ, zero, suc, ◌+◌, ◌-◌, ◌/◌, min, max, Bool, true, false, not, ◌&&◌, ◌||◌, ◌==◌, ltb,
  if◌then◌else◌, List, [], ◌∷◌, ◌++◌, length, any,
}
use backup_telebot.Store.{Outcome, returns, raises, pipeline_error}
use backup_telebot.Fallible.{◌>>◌, require}
use backup_telebot.Paths.Text.{Text, is_empty}
use backup_telebot.Artifacts.Files.{Bytes, take, drop, Directory, write, decimal, part_name}

pub record ArtifactPart : Type 0 where
  pub name : Text
  pub number : ℕ
  pub size : ℕ
  pub checksum : Text

abbrev pub chunk_size : ℕ
chunk_size = 1048576

-- The inner loop: what is read of the source for one part, and the source that is left. The fuel bounds
-- the number of chunks.
unfoldable pub read_part : ℕ → ℕ → ℕ → Bytes → Bytes × Bytes
read_part zero max_file_bytes written source = ([], source)
read_part (suc fuel) max_file_bytes written source =
    let chunk = take (min chunk_size (max_file_bytes - written)) source in
    let left = drop (min chunk_size (max_file_bytes - written)) source in
    let more = read_part fuel max_file_bytes (written + length chunk) left in
    if ltb written max_file_bytes && not (is_empty chunk)
    then (chunk ++ more.0, more.1)
    else ([], source)

-- The outer loop, from part `number` on, with `left` parts to go.
unfoldable pub split_parts :
    (Bytes → Text) → Text → ℕ → ℕ → ℕ → ℕ → Bytes → Directory → List ArtifactPart × Directory
split_parts sha256 filename width max_file_bytes zero number source directory = ([], directory)
split_parts sha256 filename width max_file_bytes (suc left) number source directory =
    let part = read_part (suc (length source)) max_file_bytes 0 source in
    let name = part_name filename width number in
    let rest =
      split_parts sha256 filename width max_file_bytes left (suc number) part.1
        (write name part.0 directory) in
    (
      record { name = name; number = number; size = length part.0; checksum = sha256 part.0 }
          ∷ rest.0,
      rest.1,
    )

unfoldable pub total_size : List ArtifactPart → ℕ
total_size [] = 0
total_size (p ∷ ps) = p.size + total_size ps

abbrev pub has_bad_size : ℕ → ArtifactPart → Bool
has_bad_size max_file_bytes p = (p.size == 0) || ltb max_file_bytes p.size

-- _split_artifact
unfoldable pub split_artifact :
    (Bytes → Text) → Text → Bytes → ℕ → Directory → Outcome (List ArtifactPart × Directory)
split_artifact sha256 filename content max_file_bytes directory =
    let total = (length content + max_file_bytes - 1) / max_file_bytes in
    let width = max 3 (length (decimal total)) in
    let out = split_parts sha256 filename width max_file_bytes total 1 content directory in
    require ((total_size out.0 == length content) && not (any (has_bad_size max_file_bytes) out.0))
      (pipeline_error "INVALID_MULTIPART")
    >> returns out
