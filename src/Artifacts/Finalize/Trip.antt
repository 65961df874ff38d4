-- ===== src/Artifacts/Finalize/Trip.antt =====
-- What is finalized can be delivered: `finalize_artifact` and `delivery_artifacts` of
-- src/pipeline/finalize.py.
use backup_telebot.Prelude.{
  any, ℕ, ◌+◌, ◌-◌, ◌/◌, ◌≤◌, ◌<◌, max, ◌≡◌, refl, sym, ap, subst, ◌∙◌, arith, Bool, true, false,
  not, ◌&&◌, ◌==◌, ltb, if◌then◌else◌, some, List, [], ◌∷◌, length, All,
}
use backup_telebot.Store.{Outcome, returns, raises, pipeline_error}
use backup_telebot.Fallible.{require-returns, returns-value}
use backup_telebot.Paths.Text.{Text, text_eq, is_empty}
use backup_telebot.Artifacts.Files.{Bytes, Directory, read, write, decimal}
use backup_telebot.Artifacts.Split.{
  has_bad_size, total_size, ArtifactPart, split_artifact, split_parts,
}
use backup_telebot.Artifacts.Split.Whole.{
  split_artifact-contents, contents, AreNumbered, IsStored, read-write, read_other,
}
use backup_telebot.Artifacts.Json.{Fields, item_count}
use backup_telebot.Artifacts.Verify.{verify_parts, single, manifest_name, delivery_artifacts}
use backup_telebot.Artifacts.Finalize.{
  Spool, FinalizedArtifact, Request, Writer, part_items, document_of, published, finish, parts_of,
  finalize_artifact,
}
use backup_telebot.Artifacts.Finalize.Kept.{
  AreNamed, split_parts-named, read-remove, after, contents-after, IsStored-after,
}
use backup_telebot.Artifacts.Finalize.Answered.{verify_parts-items, multi-delivers, single-delivers}

item_count-part_items : (ps : List ArtifactPart) → item_count (part_items ps) ≡ length ps
unfolding item_count part_items
item_count-part_items [] = refl
item_count-part_items (p ∷ ps) = omega (arith, item_count-part_items ps)

split_artifact-named :
    (sha256 : Bytes → Text) (filename : Text) (content : Bytes) (limit : ℕ) (directory : Directory)
    {out : List ArtifactPart × Directory}
    → split_artifact sha256 filename content limit directory ≡ returns out
    → AreNamed filename (max 3 (length (decimal (length out.0)))) out.0
unfolding split_artifact
split_artifact-named sha256 filename content limit directory h =
    let total = (length content + limit - 1) / limit in
    let width = max 3 (length (decimal total)) in
    let out = split_parts sha256 filename width limit total 1 content directory in
    let named = split_parts-named sha256 filename width limit total 1 content directory in
    let checked =
      require-returns ((total_size out.0 == length content) && not (any (has_bad_size limit) out.0))
        (pipeline_error "INVALID_MULTIPART") (returns out) h in
    subst
      (λ (o : List ArtifactPart × Directory).
        AreNamed filename (max 3 (length (decimal (length o.0)))) o.0)
      (returns-value checked.1)
      (subst (λ n. AreNamed filename (max 3 (length (decimal n))) out.0) (sym named.0) named.1)

pub finalize_artifact-passes :
    (w : Writer) (spool : Spool) (r : Request) (content : Bytes) {a : FinalizedArtifact}
    {directory : Directory}
    → finalize_artifact w spool r content ≡ (returns a, some directory)
    → (1 ≤ r.max_file_bytes)
      × (finish w r content (parts_of w r content (write r.filename content []))
          ≡ (returns a, some directory))
unfolding finalize_artifact
finalize_artifact-passes w spool r content h = ground (arith, h)

no_content :
    (directory : Directory) {content : Bytes}
    → contents [] directory ≡ some content
    → 1 ≤ length content
    → ⊥
unfolding contents
no_content directory {content} h k =
    let same : ◌≡◌ {A = Bytes} [] content = cc in omega (arith, k, ap length same)

-- What the caller of a delivery gets of a finalized artifact.
abbrev pub delivered : FinalizedArtifact → List ArtifactPart
delivered a = if is_empty a.parts then single a.artifact a.size a.checksum ∷ [] else a.parts

module _ (w : Writer) (r : Request) (content : Bytes) (loads : Bytes → Outcome Fields)
    (long : (bs : Bytes) → length (w.sha256 bs) ≡ 64)
    (named : text_eq manifest_name r.filename ≡ false) where
  abbrev Delivers : FinalizedArtifact → Directory → Type 0
  Delivers a directory =
      length (w.dumps (document_of r (length content) (w.sha256 content) a.parts)) ≤ 1048576
      → loads (w.dumps (document_of r (length content) (w.sha256 content) a.parts))
        ≡ returns (document_of r (length content) (w.sha256 content) a.parts)
      → delivery_artifacts (record { sha256 = w.sha256; loads = loads }) directory r.filename a.size
          a.checksum
        ≡ returns (delivered a)

  -- One file: it is there as it was.
  whole-Delivers :
      (out : Directory)
      → read r.filename out ≡ some content
      → Delivers
          (record {
            artifact = r.filename;
            checksum = w.sha256 content;
            size = length content;
            parts = [];
            original_size_bytes = r.original_size_bytes;
          })
          (published w r content ([], out))
  unfolding delivery_artifacts
  whole-Delivers out there small read_back =
      rw
        (read-write manifest_name (w.dumps (document_of r (length content) (w.sha256 content) []))
          out)
        (single-delivers w.sha256 loads long _ r content _ read_back small
          (read_other r.filename manifest_name _ out named ∙ there))

  -- Several parts: they are there as they were written.
  parts-Delivers :
      (p : ArtifactPart) (ps : List ArtifactPart) (out : Directory) (limit : ℕ)
      → contents (p ∷ ps) out ≡ some content
      → AreNumbered 1 (p ∷ ps)
      → AreNamed r.filename (max 3 (length (decimal (length (p ∷ ps))))) (p ∷ ps)
      → All (IsStored w.sha256 out) (p ∷ ps)
      → All (λ q. (1 ≤ q.size) × (q.size ≤ limit)) (p ∷ ps)
      → Delivers
          (record {
            artifact = r.filename;
            checksum = w.sha256 content;
            size = length content;
            parts = p ∷ ps;
            original_size_bytes = r.original_size_bytes;
          })
          (published w r content (p ∷ ps, out))
  unfolding delivery_artifacts after
  parts-Delivers p ps out limit held numbered named_parts stored sizes small read_back =
      let text = w.dumps (document_of r (length content) (w.sha256 content) (p ∷ ps)) in
      let width = max 3 (length (decimal (length (p ∷ ps)))) in
      rw
        (read-remove manifest_name r.filename (write manifest_name text out) named
          ∙ read-write manifest_name text out)
        (multi-delivers w.sha256 loads long (after r.filename text out) r content p ps text
          read_back small
          (subst
            (λ n.
              verify_parts (record { sha256 = w.sha256; loads = loads }) (after r.filename text out)
                r.filename (max 3 (length (decimal n))) 1 (part_items (p ∷ ps)) []
              ≡ returns (p ∷ ps, content))
            (sym (item_count-part_items (p ∷ ps)))
            (verify_parts-items w.sha256 loads long (after r.filename text out) r.filename width 1
              limit (p ∷ ps) [] {bytes = content}
              (contents-after r.filename text out width (p ∷ ps) named_parts ∙ held) numbered
              named_parts
              (IsStored-after r.filename text out w.sha256 width (p ∷ ps) named_parts stored)
              sizes)))

  split-Delivers :
      (out : List ArtifactPart × Directory) (directory : Directory)
      → 1 ≤ r.max_file_bytes
      → r.max_file_bytes < length content
      → split_artifact w.sha256 r.filename content r.max_file_bytes directory ≡ returns out
      → Delivers
          (record {
            artifact = r.filename;
            checksum = w.sha256 content;
            size = length content;
            parts = out.0;
            original_size_bytes = r.original_size_bytes;
          })
          (published w r content out)
  split-Delivers out directory h k e =
      let (parts, files, e', held, numbered, stored, sizes) =
        split_artifact-contents w.sha256 r.filename content r.max_file_bytes directory h
          (omega (arith, h, k)) in
      let same : ◌≡◌ {A = List ArtifactPart × Directory} (parts, files) out =
        returns-value (sym e' ∙ e) in
      go parts files held numbered stored sizes
        (split_artifact-named w.sha256 r.filename content r.max_file_bytes directory e') same
    where
      go :
          (parts : List ArtifactPart) (files : Directory)
          → contents parts files ≡ some content
          → AreNumbered 1 parts
          → All (IsStored w.sha256 files) parts
          → All (λ q. (1 ≤ q.size) × (q.size ≤ r.max_file_bytes)) parts
          → AreNamed r.filename (max 3 (length (decimal (length parts)))) parts
          → ◌≡◌ {A = List ArtifactPart × Directory} (parts, files) out
          → Delivers
              (record {
                artifact = r.filename;
                checksum = w.sha256 content;
                size = length content;
                parts = out.0;
                original_size_bytes = r.original_size_bytes;
              })
              (published w r content out)
      go [] files held numbered stored sizes names same =
          absurd (no_content files held (omega (arith, k)))
      go (p ∷ ps) files held numbered stored sizes names same =
          subst
            (λ (o : List ArtifactPart × Directory).
              Delivers
                (record {
                  artifact = r.filename;
                  checksum = w.sha256 content;
                  size = length content;
                  parts = o.0;
                  original_size_bytes = r.original_size_bytes;
                })
                (published w r content o))
            same (parts-Delivers p ps files r.max_file_bytes held numbered names stored sizes)

  parts_of-Delivers :
      (out : List ArtifactPart × Directory)
      → 1 ≤ r.max_file_bytes
      → parts_of w r content (write r.filename content []) ≡ returns out
      → Delivers
          (record {
            artifact = r.filename;
            checksum = w.sha256 content;
            size = length content;
            parts = out.0;
            original_size_bytes = r.original_size_bytes;
          })
          (published w r content out)
  unfolding parts_of
  parts_of-Delivers out h e = go (ltb r.max_file_bytes (length content)) refl e
    where
      go :
          (b : Bool)
          → ltb r.max_file_bytes (length content) ≡ b
          → (if b
              then split_artifact w.sha256 r.filename content r.max_file_bytes
                  (write r.filename content [])
              else returns ([], write r.filename content []))
            ≡ returns out
          → Delivers
              (record {
                artifact = r.filename;
                checksum = w.sha256 content;
                size = length content;
                parts = out.0;
                original_size_bytes = r.original_size_bytes;
              })
              (published w r content out)
      go true k e = split-Delivers out (write r.filename content []) h (ground (arith, k)) e
      go false k e =
          subst
            (λ (o : List ArtifactPart × Directory).
              Delivers
                (record {
                  artifact = r.filename;
                  checksum = w.sha256 content;
                  size = length content;
                  parts = o.0;
                  original_size_bytes = r.original_size_bytes;
                })
                (published w r content o))
            (returns-value e)
            (whole-Delivers (write r.filename content []) (read-write r.filename content []))

-- What is finalized can be delivered: where `finalize_artifact` returns for a file that is not named as the
-- manifest is, every digest has 64 characters, and the manifest is not too large and reads back as it was
-- written, `delivery_artifacts` verifies the directory that it leaves, and answers with its parts, or with the one
-- file where there are none.
pub finalize_artifact-delivers :
    (w : Writer) (spool : Spool) (r : Request) (content : Bytes) (loads : Bytes → Outcome Fields)
    {a : FinalizedArtifact} {directory : Directory}
    → loads (w.dumps (document_of r (length content) (w.sha256 content) a.parts))
      ≡ returns (document_of r (length content) (w.sha256 content) a.parts)
    → ((bs : Bytes) → length (w.sha256 bs) ≡ 64)
    → text_eq manifest_name r.filename ≡ false
    → length (w.dumps (document_of r (length content) (w.sha256 content) a.parts)) ≤ 1048576
    → finalize_artifact w spool r content ≡ (returns a, some directory)
    → delivery_artifacts
        (record { sha256 = w.sha256; loads = loads })
        directory
        r.filename
        a.size
        a.checksum
      ≡ returns (delivered a)
finalize_artifact-delivers w spool r content loads {a} {directory} read_back long named small h =
    let passed = finalize_artifact-passes w spool r content h in
    go (parts_of w r content (write r.filename content [])) refl passed.0 passed.1
  where
    go :
        (o : Outcome (List ArtifactPart × Directory))
        → parts_of w r content (write r.filename content []) ≡ o
        → 1 ≤ r.max_file_bytes
        → finish w r content o ≡ (returns a, some directory)
        → delivery_artifacts
            (record { sha256 = w.sha256; loads = loads })
            directory
            r.filename
            a.size
            a.checksum
          ≡ returns (delivered a)
    go (raises e) k l f = ground (arith, f)
    go (returns out) k l f =
        let finished : FinalizedArtifact = record {
          artifact = r.filename;
          checksum = w.sha256 content;
          size = length content;
          parts = out.0;
          original_size_bytes = r.original_size_bytes;
        } in
        let same : finished ≡ a = returns-value (λ i. (f i).0) in
        let there : published w r content out ≡ directory = cc in
        subst (λ d. Delivers w r content loads long named a d) there
          (subst (λ x. Delivers w r content loads long named x (published w r content out)) same
            (parts_of-Delivers w r content loads long named out l k))
          small read_back
