-- ===== src/Artifacts/Verify.antt =====
-- `_verify_pending`, `_verified_parts` and `delivery_artifacts` of src/pipeline/finalize.py.
--
-- A file is read in one step: the checks that it did not change meanwhile are left out. The digest and
-- `json.loads` are parameters; `loads` answers with the fields of an object, or raises.
pub mod Sound
use backup_telebot.Prelude.{
  ℕ, zero, suc, ◌+◌, max, Bool, true, false, not, ◌&&◌, ◌||◌, ◌==◌, ltb, if◌then◌else◌, Option,
  none, some, List, [], ◌∷◌, ◌++◌, length, is_some, is_none,
}
use backup_telebot.Store.{Outcome, returns, raises, pipeline_error}
use backup_telebot.Fallible.{◌>>=◌, ◌>>◌, require}
use backup_telebot.Paths.Text.{Text, text_eq}
use backup_telebot.Artifacts.Files.{Bytes, Directory, read, decimal, part_name}
use backup_telebot.Artifacts.Split.{ArtifactPart}
use backup_telebot.Artifacts.Json.{
  Json, array, object, Items, end, item, Fields, get, item_count, equals_number, equals_text,
  natural_of, text_of,
}

pub record Library : Type 0 where
  pub sha256 : Bytes → Text
  pub loads : Bytes → Outcome Fields

-- _verify_pending: the bytes that `consume` is given.
abbrev pub verify_bytes : Library → Option Bytes → ℕ → Text → Outcome Bytes
verify_bytes lib none expected_size expected_sha256 =
    raises (pipeline_error "PENDING_ARTIFACT_MISSING")
verify_bytes lib (some bytes) expected_size expected_sha256 = do
  require (length bytes == expected_size) (pipeline_error "PENDING_ARTIFACT_MISSING")
  require (text_eq (lib.sha256 bytes) expected_sha256) (pipeline_error "PENDING_CHECKSUM_MISMATCH")
  returns bytes

unfoldable pub verify_pending : Library → Directory → Text → ℕ → Text → Outcome Bytes
verify_pending lib directory name expected_size expected_sha256 =
    verify_bytes lib (read name directory) expected_size expected_sha256

-- A positive int.
abbrev pub positive : Json → Option ℕ
positive j = elim (natural_of j) [ none ↦ none | some n ↦ if n == 0 then none else some n ]

-- A text of 64 characters.
abbrev pub checksum_of : Json → Option Text
checksum_of j = elim (text_of j) [ none ↦ none | some s ↦ if length s == 64 then some s else none ]

-- The checks on one entry of the manifest.
abbrev pub listed_part : Text → ℕ → Fields → Option ℕ → Option Text → Outcome ArtifactPart
listed_part expected_name number raw_part (some size) (some checksum) = do
  require
      (equals_number (get "number" raw_part) number
        && equals_text (get "filename" raw_part) expected_name)
      (pipeline_error "INVALID_MANIFEST")
  returns (record { name = expected_name; number = number; size = size; checksum = checksum })
listed_part expected_name number raw_part _ _ = raises (pipeline_error "INVALID_MANIFEST")

unfoldable pub part_of : Text → ℕ → Json → Outcome ArtifactPart
part_of expected_name number (object raw_part) =
    listed_part expected_name number raw_part (positive (get "size_bytes" raw_part))
      (checksum_of (get "sha256" raw_part))
part_of expected_name number _ = raises (pipeline_error "INVALID_MANIFEST")

-- The loop over the entries from `number` on, with what was combined so far.
unfoldable pub verify_parts :
    Library → Directory → Text → ℕ → ℕ → Items → Bytes → Outcome (List ArtifactPart × Bytes)
verify_parts lib directory filename width number end combined = returns ([], combined)
verify_parts lib directory filename width number (item raw_part rest) combined = do
  part ← part_of (part_name filename width number) number raw_part
  bytes ← verify_pending lib directory part.name part.size part.checksum
  others ← verify_parts lib directory filename width (suc number) rest (combined ++ bytes)
  returns (part ∷ others.0, others.1)

-- _verified_parts
abbrev pub listed_parts : Json → Outcome Items
listed_parts (array (item part rest)) = returns (item part rest)
listed_parts _ = raises (pipeline_error "INVALID_MANIFEST")

unfoldable pub verified_parts :
    Library → Directory → Text → ℕ → Text → Fields → Outcome (List ArtifactPart)
verified_parts lib directory filename expected_size expected_sha256 document = do
  raw_parts ← listed_parts (get "parts" document)
  out ←
      verify_parts lib directory filename (max 3 (length (decimal (item_count raw_parts)))) 1
        raw_parts []
  require ((length out.1 == expected_size) && text_eq (lib.sha256 out.1) expected_sha256)
      (pipeline_error "PENDING_CHECKSUM_MISMATCH")
  returns out.0

abbrev pub single : Text → ℕ → Text → ArtifactPart
single filename size checksum = record {
  name = filename;
  number = 1;
  size = size;
  checksum = checksum;
}

-- The whole artifact, in one file.
unfoldable pub single_part : Library → Directory → Text → ℕ → Text → Outcome (List ArtifactPart)
single_part lib directory filename expected_size expected_sha256 = do
  _ ← verify_pending lib directory filename expected_size expected_sha256
  returns (single filename expected_size expected_sha256 ∷ [])

-- "manifest.json"
abbrev pub manifest_name : Text
manifest_name =
    b'm' ∷ b'a' ∷ b'n' ∷ b'i' ∷ b'f' ∷ b'e' ∷ b's' ∷ b't' ∷ b'.' ∷ b'j' ∷ b's' ∷ b'o' ∷ b'n' ∷ []

abbrev pub by_schema : Library → Directory → Text → ℕ → Text → Fields → Outcome (List ArtifactPart)
by_schema lib directory filename expected_size expected_sha256 document =
    if equals_number (get "schema" document) 2
    then verified_parts lib directory filename expected_size expected_sha256 document
    else require (equals_number (get "schema" document) 1) (pipeline_error "INVALID_MANIFEST")
      >> single_part lib directory filename expected_size expected_sha256

abbrev pub by_manifest :
    Library → Directory → Text → ℕ → Text → Option Bytes → Outcome (List ArtifactPart)
by_manifest lib directory filename expected_size expected_sha256 none =
    if is_some (read filename directory)
    then single_part lib directory filename expected_size expected_sha256
    else raises (pipeline_error "INVALID_MANIFEST")
by_manifest lib directory filename expected_size expected_sha256 (some text) = do
  require (not (ltb 1048576 (length text))) (pipeline_error "INVALID_MANIFEST")
  document ← lib.loads text
  require
      (equals_text (get "filename" document) filename
        && (equals_number (get "size_bytes" document) expected_size
            && equals_text (get "sha256" document) expected_sha256))
      (pipeline_error "INVALID_MANIFEST")
  by_schema lib directory filename expected_size expected_sha256 document

-- delivery_artifacts
unfoldable pub delivery_artifacts :
    Library → Directory → Text → ℕ → Text → Outcome (List ArtifactPart)
delivery_artifacts lib directory filename expected_size expected_sha256 =
    by_manifest lib directory filename expected_size expected_sha256 (read manifest_name directory)
