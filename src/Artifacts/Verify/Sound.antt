-- ===== src/Artifacts/Verify/Sound.antt =====
-- What is delivered was verified: `delivery_artifacts` of src/pipeline/finalize.py.
use backup_telebot.Prelude.{
  ℕ, suc, max, ◌≡◌, refl, sym, ap, subst, ◌∙◌, arith, Bool, true, false, not, ◌&&◌, ◌==◌, ltb,
  if◌then◌else◌, Option, none, some, List, [], ◌∷◌, ◌++◌, length, is_some, All,
}
use mathlib.Core.List.{append-nil, append_assoc}
use backup_telebot.Store.{returns, raises, pipeline_error}
use backup_telebot.Fallible.{◌>>◌, require, bind-returns, require-returns, returns-value}
use backup_telebot.Paths.Text.{Text, text_eq}
use backup_telebot.Artifacts.Files.{Bytes, Directory, read, decimal, part_name}
use backup_telebot.Artifacts.Files.Names.{text_eq-same}
use backup_telebot.Artifacts.Split.{ArtifactPart}
use backup_telebot.Artifacts.Split.Whole.{contents, AreNumbered, IsStored}
use backup_telebot.Artifacts.Json.{
  null, other, string, float, boolean, Json, array, object, Items, end, item, Fields, get,
  item_count, equals_number, equals_text,
}
use backup_telebot.Artifacts.Verify.{
  Library, verify_bytes, verify_pending, positive, checksum_of, listed_part, part_of, verify_parts,
  listed_parts, verified_parts, single, single_part, by_schema, by_manifest, delivery_artifacts,
  manifest_name,
}

listed_part-number :
    (name : Text) (number : ℕ) (raw : Fields) (size : Option ℕ) (checksum : Option Text)
    {p : ArtifactPart}
    → listed_part name number raw size checksum ≡ returns p
    → p.number ≡ number
listed_part-number name number raw (some size) (some checksum) h = ground (arith, h)
listed_part-number name number raw (some size) none h = ground (arith, h)
listed_part-number name number raw none checksum h = ground (arith, h)

module _ (lib : Library) (directory : Directory) where
  verify_pending-returns :
      (name : Text) (size : ℕ) (checksum : Text) {bytes : Bytes}
      → verify_pending lib directory name size checksum ≡ returns bytes
      → (read name directory ≡ some bytes) × (length bytes ≡ size) × (lib.sha256 bytes ≡ checksum)
  unfolding verify_pending
  verify_pending-returns name size checksum {bytes} h = go (read name directory) h
    where
      go :
          (o : Option Bytes)
          → verify_bytes lib o size checksum ≡ returns bytes
          → (o ≡ some bytes) × (length bytes ≡ size) × (lib.sha256 bytes ≡ checksum)
      go none h = ground (arith, h)
      go (some bs) h =
          let sized =
            require-returns (length bs == size) (pipeline_error "PENDING_ARTIFACT_MISSING")
              (require (text_eq (lib.sha256 bs) checksum)
                  (pipeline_error "PENDING_CHECKSUM_MISMATCH")
                >> returns bs)
              h in
          let matched =
            require-returns (text_eq (lib.sha256 bs) checksum)
              (pipeline_error "PENDING_CHECKSUM_MISMATCH") (returns bs) sized.1 in
          let same : bs ≡ bytes = returns-value matched.1 in
          subst (λ b. (some bs ≡ some b) × (length b ≡ size) × (lib.sha256 b ≡ checksum)) same
            (refl, ground (arith, sized.0), text_eq-same (lib.sha256 bs) checksum matched.0)

  part_of-number :
      (name : Text) (number : ℕ) (j : Json) {p : ArtifactPart}
      → part_of name number j ≡ returns p
      → p.number ≡ number
  unfolding part_of
  part_of-number name number (object raw) h =
      listed_part-number name number raw (positive (get "size_bytes" raw))
        (checksum_of (get "sha256" raw)) h
  part_of-number name number null h = ground (arith, h)
  part_of-number name number other h = ground (arith, h)
  part_of-number name number (boolean b) h = ground (arith, h)
  part_of-number name number (Json.number n) h = ground (arith, h)
  part_of-number name number (float n) h = ground (arith, h)
  part_of-number name number (string s) h = ground (arith, h)
  part_of-number name number (array items) h = ground (arith, h)

  -- What one pass over the entries has found.
  record Found (number : ℕ) (combined : Bytes) (out : List ArtifactPart × Bytes) : Type 0 where
    bytes : Bytes
    held : contents out.0 directory ≡ some bytes
    whole : out.1 ≡ combined ++ bytes
    numbered : AreNumbered number out.0
    stored : All (IsStored lib.sha256 directory) out.0

  verify_parts-Found :
      (filename : Text) (width number : ℕ) (raw : Items) (combined : Bytes)
      {out : List ArtifactPart × Bytes}
      → verify_parts lib directory filename width number raw combined ≡ returns out
      → Found number combined out
  unfolding verify_parts contents
  verify_parts-Found filename width number end combined h =
      subst (Found number combined) (returns-value h) (record {
        bytes = [];
        held = refl;
        whole = sym (append-nil combined);
        numbered = tt;
        stored = tt;
      })
  verify_parts-Found filename width number (item raw rest) combined h =
      let name = part_name filename width number in
      let (p, ep, h1) = bind-returns (part_of name number raw) _ h in
      let (bytes, eb, h2) =
        bind-returns (verify_pending lib directory p.name p.size p.checksum) _ h1 in
      let (others, eo, h3) =
        bind-returns
          (verify_parts lib directory filename width (suc number) rest (combined ++ bytes))
          (λ o. returns (p ∷ o.0, o.1)) h2 in
      let (there, size, checksum) = verify_pending-returns p.name p.size p.checksum eb in
      let more = verify_parts-Found filename width (suc number) rest (combined ++ bytes) eo in
      subst (Found number combined) (returns-value h3) (record {
        bytes = bytes ++ more.bytes;
        held = rw (there, more.held) refl;
        whole = more.whole ∙ append_assoc combined bytes more.bytes;
        numbered = (part_of-number name number raw ep, more.numbered);
        stored = (
          record { bytes = bytes; there = there; size = size; checksum = checksum },
          more.stored,
        );
      })

  -- The parts hold an artifact of the expected size and checksum.
  pub record IsVerified (expected_size : ℕ) (expected_sha256 : Text) (parts : List ArtifactPart)
      : Type 0 where
    pub content : Bytes
    pub held : contents parts directory ≡ some content
    pub size : length content ≡ expected_size
    pub checksum : lib.sha256 content ≡ expected_sha256
    pub numbered : AreNumbered 1 parts
    pub stored : All (IsStored lib.sha256 directory) parts

  verified_parts-IsVerified :
      (filename : Text) (size : ℕ) (checksum : Text) (document : Fields) {parts : List ArtifactPart}
      → verified_parts lib directory filename size checksum document ≡ returns parts
      → IsVerified size checksum parts
  unfolding verified_parts
  verified_parts-IsVerified filename size checksum document {parts} h =
      let (raw, _, h1) = bind-returns (listed_parts (get "parts" document)) _ h in
      let width = max 3 (length (decimal (item_count raw))) in
      let (out, eo, h2) =
        bind-returns (verify_parts lib directory filename width 1 raw [])
          (λ out.
            require ((length out.1 == size) && text_eq (lib.sha256 out.1) checksum)
              (pipeline_error "PENDING_CHECKSUM_MISMATCH")
            >> returns out.0)
          h1 in
      let found = verify_parts-Found filename width 1 raw [] eo in
      let checked =
        require-returns ((length out.1 == size) && text_eq (lib.sha256 out.1) checksum)
          (pipeline_error "PENDING_CHECKSUM_MISMATCH") (returns out.0) h2 in
      subst (IsVerified size checksum) (returns-value checked.1) (record {
        content = out.1;
        held = found.held ∙ ap some (sym found.whole);
        size = ground (arith, checked.0);
        checksum = text_eq-same (lib.sha256 out.1) checksum (ground (arith, checked.0));
        numbered = found.numbered;
        stored = found.stored;
      })

  single_part-IsVerified :
      (filename : Text) (size : ℕ) (checksum : Text) {parts : List ArtifactPart}
      → single_part lib directory filename size checksum ≡ returns parts
      → IsVerified size checksum parts
  unfolding single_part contents
  single_part-IsVerified filename size checksum h =
      let (bytes, eb, h1) =
        bind-returns (verify_pending lib directory filename size checksum)
          (λ b. returns (single filename size checksum ∷ [])) h in
      let (there, long, sum) = verify_pending-returns filename size checksum eb in
      subst (IsVerified size checksum) (returns-value h1) (record {
        content = bytes;
        held = rw there (ap some (append-nil bytes));
        size = long;
        checksum = sum;
        numbered = (refl, tt);
        stored = (record { bytes = bytes; there = there; size = long; checksum = sum }, tt);
      })

  by_manifest-IsVerified :
      (filename : Text) (size : ℕ) (checksum : Text) (o : Option Bytes) {parts : List ArtifactPart}
      → by_manifest lib directory filename size checksum o ≡ returns parts
      → IsVerified size checksum parts
  by_manifest-IsVerified filename size checksum none {parts} h =
      go (is_some (read filename directory)) h
    where
      go :
          (b : Bool)
          → (if b
              then single_part lib directory filename size checksum
              else raises (pipeline_error "INVALID_MANIFEST"))
            ≡ returns parts
          → IsVerified size checksum parts
      go true h = single_part-IsVerified filename size checksum h
      go false h = ground (arith, h)
  by_manifest-IsVerified filename size checksum (some text) {parts} h =
      let small =
        require-returns (not (ltb 1048576 (length text))) (pipeline_error "INVALID_MANIFEST") _ h in
      let (document, _, h1) = bind-returns (lib.loads text) _ small.1 in
      let fields =
        require-returns
          (equals_text (get "filename" document) filename
            && (equals_number (get "size_bytes" document) size
                && equals_text (get "sha256" document) checksum))
          (pipeline_error "INVALID_MANIFEST")
          (by_schema lib directory filename size checksum document) h1 in
      go document (equals_number (get "schema" document) 2) fields.1
    where
      go :
          (document : Fields) (b : Bool)
          → (if b
              then verified_parts lib directory filename size checksum document
              else require
                  (equals_number (get "schema" document) 1)
                  (pipeline_error "INVALID_MANIFEST")
                >> single_part lib directory filename size checksum)
            ≡ returns parts
          → IsVerified size checksum parts
      go document true h = verified_parts-IsVerified filename size checksum document h
      go document false h =
          single_part-IsVerified filename size checksum
            (require-returns (equals_number (get "schema" document) 1)
              (pipeline_error "INVALID_MANIFEST") (single_part lib directory filename size checksum)
              h).1

-- What a delivery is given was verified: put together in order, the files of the parts hold an artifact of
-- the recorded size and checksum; the parts are numbered from one on; each has the size and the checksum of
-- its file.
pub delivery_artifacts-IsVerified :
    (lib : Library) (directory : Directory) (filename : Text) (size : ℕ) (checksum : Text)
    {parts : List ArtifactPart}
    → delivery_artifacts lib directory filename size checksum ≡ returns parts
    → IsVerified lib directory size checksum parts
unfolding delivery_artifacts
delivery_artifacts-IsVerified lib directory filename size checksum h =
    by_manifest-IsVerified lib directory filename size checksum (read manifest_name directory) h
