-- ===== src/Artifacts/Finalize.antt =====
-- `finalize_artifact` of src/pipeline/finalize.py.
--
-- What the file system answers to the checks on the spool is an argument, `Spool`. The result has the
-- directory that the call leaves, `none` where it made none or removed it on an exception. The digest and
-- `json.dump` are parameters; `fsync` is left out.
pub mod Kept
pub mod Answered
pub mod Trip
use backup_telebot.Prelude.{
  not, ℕ, Bool, true, false, ◌==◌, ltb, if◌then◌else◌, Option, none, some, List, [], ◌∷◌, ◌++◌,
  length,
}
use backup_telebot.Store.{Outcome, returns, raises, pipeline_error, value_error, file_exists_error}
use backup_telebot.Paths.Text.{Text, is_empty}
use backup_telebot.Artifacts.Files.{Bytes, Directory, write, remove}
use backup_telebot.Artifacts.Split.{ArtifactPart, split_artifact}
use backup_telebot.Artifacts.Json.{
  Json, null, number, string, array, object, Items, end, item, Fields, done, field,
}
use backup_telebot.Artifacts.Verify.{manifest_name}

pub record Spool : Type 0 where
  pub is_profile_directory : Bool  -- the profile's directory is one, and lies in the pending root
  pub directory_exists : Bool
  pub is_one_filesystem : Bool

pub record FinalizedArtifact : Type 0 where
  pub artifact : Text
  pub checksum : Text
  pub size : ℕ
  pub parts : List ArtifactPart
  pub original_size_bytes : Option ℕ

pub record Request : Type 0 where
  pub run_uuid : Text
  pub filename : Text
  pub created_at : Text
  pub metadata : Fields
  pub original_size_bytes : Option ℕ
  pub max_file_bytes : ℕ

pub record Writer : Type 0 where
  pub sha256 : Bytes → Text
  pub dumps : Fields → Bytes

unfoldable pub part_items : List ArtifactPart → Items
part_items [] = end
part_items (p ∷ ps) =
    item
      (object (
        field "filename" (string p.name) (
          field "number" (number p.number)
            (field "size_bytes" (number p.size) (field "sha256" (string p.checksum) done)))))
      (part_items ps)

abbrev pub optional_number : Option ℕ → Json
optional_number none = null
optional_number (some n) = number n

abbrev pub with_parts : List ArtifactPart → Fields
with_parts [] = done
with_parts (p ∷ ps) = field "parts" (array (part_items (p ∷ ps))) done

-- The manifest; its schema is 2 where there are parts.
unfoldable pub document_of : Request → ℕ → Text → List ArtifactPart → Fields
document_of r size checksum parts = field "schema" (number (if is_empty parts then 1 else 2)) (
    field "run_uuid" (string r.run_uuid) (
      field "filename" (string r.filename) (
        field "size_bytes" (number size) (
          field "original_size_bytes" (optional_number r.original_size_bytes) (
            field "sha256" (string checksum) (
              field "created_at" (string r.created_at)
                (field "metadata" (object r.metadata) (with_parts parts))))))))

abbrev pub published : Writer → Request → Bytes → List ArtifactPart × Directory → Directory
published w r content out =
    let full =
      write manifest_name (w.dumps (document_of r (length content) (w.sha256 content) out.0))
        out.1 in
    if is_empty out.0 then full else remove r.filename full

abbrev pub finish :
    Writer
    → Request
    → Bytes
    → Outcome (List ArtifactPart × Directory)
    → Outcome FinalizedArtifact × Option Directory
finish w r content (raises e) = (raises e, none)
finish w r content (returns out) = (
  returns (record {
    artifact = r.filename;
    checksum = w.sha256 content;
    size = length content;
    parts = out.0;
    original_size_bytes = r.original_size_bytes;
  }),
  some (published w r content out),
)

-- The parts, or none for an artifact that is small enough.
unfoldable pub parts_of :
    Writer → Request → Bytes → Directory → Outcome (List ArtifactPart × Directory)
parts_of w r content directory =
    if ltb r.max_file_bytes (length content)
    then split_artifact w.sha256 r.filename content r.max_file_bytes directory
    else returns ([], directory)

-- finalize_artifact
unfoldable pub finalize_artifact :
    Writer → Spool → Request → Bytes → Outcome FinalizedArtifact × Option Directory
finalize_artifact w spool r content =
    if r.max_file_bytes == 0
    then (raises (value_error "max_file_bytes must be positive"), none)
    else if not spool.is_profile_directory
    then (raises (pipeline_error "INVALID_PENDING_PATH"), none)
    else if spool.directory_exists
    then (raises file_exists_error, none)
    else if not spool.is_one_filesystem
    then (raises (pipeline_error "NON_ATOMIC_SPOOL"), none)
    else finish w r content (parts_of w r content (write r.filename content []))
