-- ===== src/Artifacts/Recover/Owned.antt =====
-- What `recover_finalized` of src/pipeline/finalize.py gives back was verified.
use backup_telebot.Prelude.{[], List, ◌⊎◌, ◌≡◌, true}
use backup_telebot.Store.{returns}
use backup_telebot.Paths.Text.{Text}
use backup_telebot.Artifacts.Files.{Directory}
use backup_telebot.Artifacts.Split.{ArtifactPart}
use backup_telebot.Artifacts.Verify.{Library, delivery_artifacts}
use backup_telebot.Artifacts.Verify.Sound.{IsVerified}
use backup_telebot.Artifacts.Finalize.{FinalizedArtifact}
use backup_telebot.Artifacts.Recover.{is_file_name}

-- The directory holds the artifact, under a plain file name, in its parts or in one file.
pub record IsRecovered (lib : Library) (directory : Directory) (a : FinalizedArtifact)
    : Type 0 where
  pub named : is_file_name a.artifact ≡ true
  pub parts : List ArtifactPart
  pub listed : delivery_artifacts lib directory a.artifact a.size a.checksum ≡ returns parts
  pub verified : IsVerified lib directory a.size a.checksum parts
  pub multipart : (a.parts ≡ parts) ⊎ (a.parts ≡ [])
