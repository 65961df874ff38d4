-- ===== src/Artifacts/Recover.antt =====
-- `recover_finalized` of src/pipeline/finalize.py.
--
-- The directory's files are `none` where it does not exist. A path is the list of its parts from the root on;
-- `Path.resolve`, which follows links, is a parameter. A schema that is an array or an object, on which the
-- test of the set raises TypeError, is refused as another schema is; so is a negative size.
pub mod Owned
pub mod Place
pub mod Trip
use backup_telebot.Prelude.{
  ◌++◌, List, none, some, [], ◌∷◌, Option, ℕ, Bool, true, false, not, ◌&&◌, ◌||◌, ◌==◌, ltb,
  if◌then◌else◌, any, length,
}
use backup_telebot.Store.{Outcome, returns, raises, pipeline_error}
use backup_telebot.Fallible.{◌>>=◌, ◌>>◌, require}
use backup_telebot.Paths.Text.{Text, is_empty, text_eq}
use backup_telebot.Artifacts.Files.{take, Bytes, Directory, read}
use backup_telebot.Artifacts.Json.{
  Json, null, number, object, Fields, get, equals_number, equals_text, natural_of, text_of,
}
use backup_telebot.Artifacts.Verify.{Library, manifest_name, delivery_artifacts}
use backup_telebot.Artifacts.Finalize.{FinalizedArtifact}

-- `Path.parent`, `Path.name` and `==`, of a path by its parts.
unfoldable pub parent : List Text → List Text
parent [] = []
parent (a ∷ []) = []
parent (a ∷ b ∷ rest) = a ∷ parent (b ∷ rest)

unfoldable pub name : List Text → Text
name [] = []
name (a ∷ []) = a
name (a ∷ b ∷ rest) = name (b ∷ rest)

abbrev pub path_eq : List Text → List Text → Bool
path_eq [] [] = true
path_eq (a ∷ s) (b ∷ t) = text_eq a b && path_eq s t
path_eq _ _ = false

-- `text.endswith(suffix)`
unfoldable pub ends_with : Text → Text → Bool
ends_with [] suffix = text_eq [] suffix
ends_with (c ∷ s) suffix = text_eq (c ∷ s) suffix || ends_with s suffix

-- `"_" + run_uuid[:8]`
abbrev pub run_suffix : Text → Text
run_suffix run_uuid = b'_' ∷ take 8 run_uuid

-- The directory lies two levels below the pending root, under the name of the run.
unfoldable pub is_owned : (List Text → List Text) → List Text → List Text → Text → Bool
is_owned resolve pending_root directory run_uuid =
    path_eq (parent (parent (resolve directory))) (resolve pending_root)
    && ends_with (name (resolve directory)) (run_suffix run_uuid)

-- pending_directory_path, from the slug of the profile and the stamp of the run.
abbrev pub pending_directory_path : List Text → Text → Text → Text → List Text
pending_directory_path pending_root slug stamp run_uuid =
    pending_root ++ slug ∷ (stamp ++ run_suffix run_uuid) ∷ []

-- `Path(filename).name == filename`
abbrev pub is_file_name : Text → Bool
is_file_name filename =
    not (is_empty filename)
    && (not (text_eq filename (b'.' ∷ [])) && not (any (λ c. c == b'/') filename))

-- A field that passes its test, or the error of all the fields.
abbrev pub valid {ℓ} : {A : Type ℓ} → Option A → Outcome A
valid none = raises (pipeline_error "INVALID_MANIFEST")
valid (some a) = returns a

abbrev pub fields_of : Json → Option Fields
fields_of (object d) = some d
fields_of _ = none

-- None, or an int that is no bool and not negative.
abbrev pub original_of : Json → Option (Option ℕ)
original_of null = some none
original_of (number n) = some (some n)
original_of _ = none

-- The manifest, where it is a file that is not too large.
abbrev pub manifest_of : Option Bytes → Outcome Bytes
manifest_of none = raises (pipeline_error "INVALID_MANIFEST")
manifest_of (some text) =
    if ltb 1048576 (length text) then raises (pipeline_error "INVALID_MANIFEST") else returns text

unfoldable pub recover_document :
    Library → Directory → Text → Fields → Outcome (Option (FinalizedArtifact × Fields))
recover_document lib directory run_uuid document = do
  require
      ((equals_number (get "schema" document) 1 || equals_number (get "schema" document) 2)
        && equals_text (get "run_uuid" document) run_uuid)
      (pipeline_error "INVALID_MANIFEST")
  filename ← valid (text_of (get "filename" document))
  require (is_file_name filename) (pipeline_error "INVALID_MANIFEST")
  size ← valid (natural_of (get "size_bytes" document))
  checksum ← valid (text_of (get "sha256" document))
  metadata ← valid (fields_of (get "metadata" document))
  original_size_bytes ← valid (original_of (get "original_size_bytes" document))
  parts ← delivery_artifacts lib directory filename size checksum
  returns (
      some (
        record {
          artifact = filename;
          checksum = checksum;
          size = size;
          parts = if equals_number (get "schema" document) 2 then parts else [];
          original_size_bytes = original_size_bytes;
        },
        metadata,
      ))

-- recover_finalized
unfoldable pub recover_finalized :
    Library
    → (List Text → List Text)
    → List Text
    → List Text
    → Text
    → Option Directory
    → Outcome (Option (FinalizedArtifact × Fields))
recover_finalized lib resolve pending_root path run_uuid none = returns none
recover_finalized lib resolve pending_root path run_uuid (some directory) = do
  require (is_owned resolve pending_root path run_uuid) (pipeline_error "INVALID_PENDING_PATH")
  text ← manifest_of (read manifest_name directory)
  document ← lib.loads text
  recover_document lib directory run_uuid document
