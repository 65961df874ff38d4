-- ===== src/Tests/Artifacts.antt =====
-- Three bytes in two parts (src/pipeline/finalize.py).
use backup_telebot.Artifacts.Recover.Trip.{finalize_artifact-recovers}
use backup_telebot.Artifacts.Recover.{name, pending_directory_path, recover_finalized}
use backup_telebot.Artifacts.Finalize.Trip.{finalize_artifact-delivers}
use backup_telebot.Artifacts.Finalize.{
  parts_of, Request, document_of, Writer, Spool, FinalizedArtifact, finalize_artifact,
}
use backup_telebot.Prelude.{
  keep, any, false, none, true, length, ◌≤◌, ◌≡◌, refl, arith, ℕ, List, [], ◌∷◌, All, some,
}
use backup_telebot.Store.{returns}
use backup_telebot.Paths.Text.{Text}
use backup_telebot.Artifacts.Files.{
  remove, digits, decimal, padded, read, Bytes, Directory, take, drop, zeros, part_name,
}
use backup_telebot.Artifacts.Split.{
  split_parts, total_size, ArtifactPart, read_part, split_artifact,
}
use backup_telebot.Artifacts.Split.Reads.{read_part_lem}
use backup_telebot.Artifacts.Split.Whole.{contents, AreNumbered, IsStored, split_artifact-contents}
use backup_telebot.Artifacts.Json.{
  item_count, get, number, string, array, object, end, item, Fields, done, field,
}
use backup_telebot.Artifacts.Verify.{
  verify_pending, part_of, verify_parts, verified_parts, Library, manifest_name, delivery_artifacts,
}
use backup_telebot.Artifacts.Verify.Sound.{IsVerified, delivery_artifacts-IsVerified}

abbrev bytes : Bytes
bytes = 7 ∷ 8 ∷ 9 ∷ []

abbrev filename : Text
filename = b'a' ∷ []

abbrev digest : Bytes → Text
digest bs = zeros 64

read_part_example : read_part 4 2 0 bytes ≡ (take 2 bytes, drop 2 bytes)
read_part_example = read_part_lem 4 2 0 bytes (omega arith)

split_artifact-contents_example :
    (parts : List ArtifactPart) × (out : Directory) × (split_artifact digest filename bytes 2 []
      ≡ returns (parts, out))
    × (contents parts out ≡ some bytes)
    × AreNumbered 1 parts
    × All (IsStored digest out) parts
    × All (λ p. (1 ≤ p.size) × (p.size ≤ 2)) parts
split_artifact-contents_example =
    split_artifact-contents digest filename bytes 2 [] (omega arith) (omega arith)

abbrev entry : ℕ → ℕ → Fields
entry n size = field "filename" (string (part_name filename 3 n)) (
    field "number" (number n)
      (field "size_bytes" (number size) (field "sha256" (string (digest [])) done)))

abbrev document : Fields
document = field "schema" (number 2) (
    field "filename" (string filename) (
      field "size_bytes" (number 3) (
        field "sha256" (string (digest [])) (
          field "parts" (array (item (object (entry 1 2)) (item (object (entry 2 1)) end))) done))))

abbrev library : Library
library = record { sha256 = digest; loads = λ text. returns document }

abbrev directory : Directory
directory =
    (manifest_name, [])
    ∷ (part_name filename 3 2, 9 ∷ [])
    ∷ (part_name filename 3 1, 7 ∷ 8 ∷ [])
    ∷ []

abbrev part : ℕ → ℕ → ArtifactPart
part n size = record {
  name = part_name filename 3 n;
  number = n;
  size = size;
  checksum = digest [];
}

abbrev parts : List ArtifactPart
parts = part 1 2 ∷ part 2 1 ∷ []

verified : delivery_artifacts library directory filename 3 (digest []) ≡ returns parts
unfolding delivery_artifacts verified_parts verify_parts part_of verify_pending read get item_count
    part_name padded zeros decimal digits
verified = refl

delivery_artifacts-IsVerified_example : IsVerified library directory 3 (digest []) parts
delivery_artifacts-IsVerified_example =
    delivery_artifacts-IsVerified library directory filename 3 (digest []) {parts = parts} verified

abbrev writer : Writer
writer = record { sha256 = digest; dumps = λ d. [] }

abbrev request : Request
request = record {
  run_uuid = b'u' ∷ [];
  filename = filename;
  created_at = b't' ∷ [];
  metadata = done;
  original_size_bytes = none;
  max_file_bytes = 2;
}

abbrev spool : Spool
spool = record { is_profile_directory = true; directory_exists = false; is_one_filesystem = true }

abbrev finalized : FinalizedArtifact
finalized = record {
  artifact = filename;
  checksum = digest [];
  size = 3;
  parts = parts;
  original_size_bytes = none;
}

finalizes : finalize_artifact writer spool request bytes ≡ (returns finalized, some directory)
unfolding finalize_artifact parts_of split_artifact total_size split_parts read_part take drop any
    decimal remove digits keep part_name
finalizes = refl

length-digest : (bs : Bytes) → length (digest bs) ≡ 64
unfolding zeros
length-digest bs = refl

finalize_artifact-delivers_example :
    delivery_artifacts
      (record {
        sha256 = digest;
        loads = λ text. returns (document_of request 3 (digest []) parts);
      })
      directory
      filename
      3
      (digest [])
    ≡ returns parts
finalize_artifact-delivers_example =
    finalize_artifact-delivers writer spool request bytes
      (λ text. returns (document_of request 3 (digest []) parts)) {a = finalized}
      {directory = directory} refl length-digest refl (omega arith) finalizes

abbrev root : List Text
root = (b'r' ∷ []) ∷ []

abbrev place : List Text
place = pending_directory_path root (b'p' ∷ []) (b's' ∷ []) (b'u' ∷ [])

-- The reader of the manifest that was written.
abbrev recovering : Library
recovering = record {
  sha256 = digest;
  loads = λ text. returns (document_of request 3 (digest []) parts);
}

finalize_artifact-recovers_example :
    recover_finalized recovering (λ p. p) root place (b'u' ∷ []) (some directory)
    ≡ returns (some (finalized, done))
unfolding any
finalize_artifact-recovers_example =
    finalize_artifact-recovers writer spool request bytes
      (λ text. returns (document_of request 3 (digest []) parts)) (λ p. p) root (b'p' ∷ [])
      (b's' ∷ []) {a = finalized} {directory = directory} refl refl length-digest refl refl
      (omega arith) finalizes
