-- ===== src/Artifacts/Recover/Trip.antt =====
-- What is finalized can be recovered: `finalize_artifact` and `recover_finalized` of
-- src/pipeline/finalize.py.
use backup_telebot.Paths.Text.{Text}
use backup_telebot.Artifacts.Recover.{pending_directory_path}
use backup_telebot.Artifacts.Recover.Place.{pending_directory_path-owned}
use backup_telebot.Prelude.{Option, none, refl, ℕ}
use backup_telebot.Paths.Mapper.Plain.{text_eq_self}
use backup_telebot.Fallible.{returns-value}
use backup_telebot.Artifacts.Verify.{delivery_artifacts, Library, manifest_name}
use backup_telebot.Artifacts.Split.{ArtifactPart}
use backup_telebot.Artifacts.Json.{get, Fields}
use backup_telebot.Paths.Text.{text_eq}
use backup_telebot.Paths.Mapper.Plain.{text_eq_self}
use backup_telebot.Prelude.{
  ℕ, Option, [], subst, ◌∙◌, ltb, ◌≤◌, arith, true, ◌∷◌, some, false, ◌≡◌, length, List,
}
use backup_telebot.Store.{raises, returns, Outcome}
use backup_telebot.Artifacts.Files.{write, read, Directory, Bytes}
use backup_telebot.Artifacts.Recover.{is_file_name, recover_finalized, recover_document}
use backup_telebot.Artifacts.Finalize.Kept.{read-remove}
use backup_telebot.Artifacts.Finalize.Trip.{
  delivered, finalize_artifact-passes, finalize_artifact-delivers,
}
use backup_telebot.Artifacts.Finalize.{
  Spool, FinalizedArtifact, Request, Writer, document_of, published, finish, parts_of,
  finalize_artifact,
}
use backup_telebot.Artifacts.Split.Whole.{read-write}

-- The result of a request, with the parts that were made.
abbrev pub made : Writer → Request → Bytes → List ArtifactPart → FinalizedArtifact
made w r content parts = record {
  artifact = r.filename;
  checksum = w.sha256 content;
  size = length content;
  parts = parts;
  original_size_bytes = r.original_size_bytes;
}

read-published :
    (w : Writer) (r : Request) (content : Bytes) (parts : List ArtifactPart) (files : Directory)
    → text_eq manifest_name r.filename ≡ false
    → read manifest_name (published w r content (parts, files))
      ≡ some (w.dumps (document_of r (length content) (w.sha256 content) parts))
read-published w r content [] files named = read-write manifest_name _ files
read-published w r content (p ∷ ps) files named =
    read-remove manifest_name r.filename (write manifest_name _ files) named
    ∙ read-write manifest_name _ files

-- What `finalize_artifact` returns, and the manifest that it leaves.
finalize_artifact-made :
    (w : Writer) (spool : Spool) (r : Request) (content : Bytes) {a : FinalizedArtifact}
    {directory : Directory}
    → text_eq manifest_name r.filename ≡ false
    → finalize_artifact w spool r content ≡ (returns a, some directory)
    → (parts : List ArtifactPart) × (made w r content parts ≡ a)
      × (read manifest_name directory
          ≡ some (w.dumps (document_of r (length content) (w.sha256 content) parts)))
finalize_artifact-made w spool r content {a} {directory} named h =
    go (parts_of w r content (write r.filename content []))
      (finalize_artifact-passes w spool r content h).1
  where
    go :
        (o : Outcome (List ArtifactPart × Directory))
        → finish w r content o ≡ (returns a, some directory)
        → (parts : List ArtifactPart) × (made w r content parts ≡ a)
          × (read manifest_name directory
              ≡ some (w.dumps (document_of r (length content) (w.sha256 content) parts)))
    go (raises e) f = ground (arith, f)
    go (returns out) f =
        let there : published w r content out ≡ directory = cc in
        (
          out.0,
          returns-value (λ i. (f i).0),
          subst
              (λ d.
                read manifest_name d
                ≡ some (w.dumps (document_of r (length content) (w.sha256 content) out.0)))
              there (read-published w r content out.0 out.1 named),
        )

recover_document-made :
    (lib : Library) (directory : Directory) (w : Writer) (r : Request) (content : Bytes)
    (original : Option ℕ) (parts : List ArtifactPart)
    → is_file_name r.filename ≡ true
    → r.original_size_bytes ≡ original
    → delivery_artifacts lib directory r.filename (length content) (w.sha256 content)
      ≡ returns (delivered (made w r content parts))
    → recover_document lib directory r.run_uuid
        (document_of r (length content) (w.sha256 content) parts)
      ≡ returns (some (made w r content parts, r.metadata))
unfolding recover_document document_of get
recover_document-made lib directory w r content none [] plain o listed =
    rw (o, text_eq_self r.run_uuid, plain, listed) refl
recover_document-made lib directory w r content (some n) [] plain o listed =
    rw (o, text_eq_self r.run_uuid, plain, listed) refl
recover_document-made lib directory w r content none (p ∷ ps) plain o listed =
    rw (o, text_eq_self r.run_uuid, plain, listed) refl
recover_document-made lib directory w r content (some n) (p ∷ ps) plain o listed =
    rw (o, text_eq_self r.run_uuid, plain, listed) refl

-- What is finalized can be recovered: where `finalize_artifact` returns for a plain file name other than the
-- manifest's, every digest has 64 characters, and the manifest is not too large and reads back as it was
-- written, `recover_finalized` gives back what it returned, and the metadata, from the directory that it
-- leaves, at the path that a run is given, where no link below the pending root leads elsewhere.
pub finalize_artifact-recovers :
    (w : Writer) (spool : Spool) (r : Request) (content : Bytes) (loads : Bytes → Outcome Fields)
    (resolve : List Text → List Text) (pending_root : List Text) (slug stamp : Text)
    {a : FinalizedArtifact} {directory : Directory}
    → resolve (pending_directory_path pending_root slug stamp r.run_uuid)
      ≡ pending_directory_path (resolve pending_root) slug stamp r.run_uuid
    → loads (w.dumps (document_of r (length content) (w.sha256 content) a.parts))
      ≡ returns (document_of r (length content) (w.sha256 content) a.parts)
    → ((bs : Bytes) → length (w.sha256 bs) ≡ 64)
    → text_eq manifest_name r.filename ≡ false
    → is_file_name r.filename ≡ true
    → length (w.dumps (document_of r (length content) (w.sha256 content) a.parts)) ≤ 1048576
    → finalize_artifact w spool r content ≡ (returns a, some directory)
    → recover_finalized
        (record { sha256 = w.sha256; loads = loads })
        resolve
        pending_root
        (pending_directory_path pending_root slug stamp r.run_uuid)
        r.run_uuid
        (some directory)
      ≡ returns (some (a, r.metadata))
unfolding recover_finalized
finalize_artifact-recovers w spool r content loads resolve pending_root slug stamp {a} {directory}
      straight read_back long named plain small h =
    let (parts, same, there) = finalize_artifact-made w spool r content named h in
    let Result : FinalizedArtifact → Type 0 = λ a.
      loads (w.dumps (document_of r (length content) (w.sha256 content) a.parts))
        ≡ returns (document_of r (length content) (w.sha256 content) a.parts)
      → length (w.dumps (document_of r (length content) (w.sha256 content) a.parts)) ≤ 1048576
      → finalize_artifact w spool r content ≡ (returns a, some directory)
      → recover_finalized (record { sha256 = w.sha256; loads = loads }) resolve pending_root
          (pending_directory_path pending_root slug stamp r.run_uuid) r.run_uuid (some directory)
        ≡ returns (some (a, r.metadata)) in
    subst Result same (from parts there) read_back small h
  where
    from :
        (parts : List ArtifactPart)
        → read manifest_name directory
          ≡ some (w.dumps (document_of r (length content) (w.sha256 content) parts))
        → loads (w.dumps (document_of r (length content) (w.sha256 content) parts))
          ≡ returns (document_of r (length content) (w.sha256 content) parts)
        → length (w.dumps (document_of r (length content) (w.sha256 content) parts)) ≤ 1048576
        → finalize_artifact w spool r content ≡ (returns (made w r content parts), some directory)
        → recover_finalized
            (record { sha256 = w.sha256; loads = loads })
            resolve
            pending_root
            (pending_directory_path pending_root slug stamp r.run_uuid)
            r.run_uuid
            (some directory)
          ≡ returns (some (made w r content parts, r.metadata))
    from parts there read_back small h =
        let text = w.dumps (document_of r (length content) (w.sha256 content) parts) in
        let room : ltb 1048576 (length text) ≡ false = ground (arith, small) in
        rw
          (
            pending_directory_path-owned resolve pending_root slug stamp r.run_uuid straight,
            there,
            room,
            read_back,
          )
          (recover_document-made (record { sha256 = w.sha256; loads = loads }) directory w r content
            r.original_size_bytes parts plain refl
            (finalize_artifact-delivers w spool r content loads {a = made w r content parts}
              read_back long named small h))
