-- ===== src/Artifacts/Finalize/Answered.antt =====
-- What `delivery_artifacts` answers to a manifest that lists what is there (src/pipeline/finalize.py).
use mathlib.Core.List.{append-nil, append_assoc}
use backup_telebot.Prelude.{
  ℕ, suc, ◌≤◌, max, ◌≡◌, refl, sym, ap, subst, ◌∙◌, arith, true, false, ◌==◌, ltb, Option, none,
  some, List, [], ◌∷◌, ◌++◌, length, All,
}
use backup_telebot.Store.{Outcome, returns}
use backup_telebot.Paths.Text.{Text, text_eq}
use backup_telebot.Paths.Mapper.Plain.{text_eq_self}
use backup_telebot.Artifacts.Files.{Bytes, Directory, read, decimal, part_name}
use backup_telebot.Artifacts.Split.{ArtifactPart}
use backup_telebot.Artifacts.Split.Whole.{contents, joined, AreNumbered, IsStored}
use backup_telebot.Artifacts.Json.{number, string, object, Fields, done, field, get, item_count}
use backup_telebot.Artifacts.Verify.{
  Library, verify_pending, part_of, verify_parts, verified_parts, single, single_part, by_manifest,
}
use backup_telebot.Artifacts.Finalize.{Request, part_items, document_of}
use backup_telebot.Artifacts.Finalize.Kept.{AreNamed}

part_of-item :
    (name : Text) (n : ℕ) (p : ArtifactPart)
    → p.name ≡ name
    → p.number ≡ n
    → 1 ≤ p.size
    → length p.checksum ≡ 64
    → part_of name n (
        object (
          field "filename" (string p.name) (
            field "number"
              (number p.number)
              (field "size_bytes" (number p.size) (field "sha256" (string p.checksum) done)))))
      ≡ returns p
unfolding part_of get
part_of-item name n p h k s c =
    let positive : (p.size == 0) ≡ false = ground (arith, s) in
    let long : (length p.checksum == 64) ≡ true = ground (arith, c) in
    let named : text_eq p.name name ≡ true =
      subst (λ x. text_eq p.name x ≡ true) h (text_eq_self p.name) in
    let numbered : (p.number == n) ≡ true = ground (arith, k) in
    rw (positive, long, named, numbered)
      (λ i.
        returns (record { name = sym h i; number = sym k i; size = p.size; checksum = p.checksum }))

joined-some :
    (a b : Option Bytes) (x : Bytes) {bytes : Bytes}
    → a ≡ some x
    → joined a b ≡ some bytes
    → (y : Bytes) × (b ≡ some y) × (x ++ y ≡ bytes)
joined-some (some a) (some b) x e h = (b, refl, cc)
joined-some (some a) none x e h = ground (arith, h)
joined-some none b x e h = ground (arith, e)

module _ (sha256 : Bytes → Text) (loads : Bytes → Outcome Fields)
    (long : (bs : Bytes) → length (sha256 bs) ≡ 64) (directory : Directory) where
  abbrev lib : Library
  lib = record { sha256 = sha256; loads = loads }

  verify_pending-stored :
      (p : ArtifactPart) (stored : IsStored sha256 directory p)
      → verify_pending lib directory p.name p.size p.checksum ≡ returns stored.bytes
  unfolding verify_pending
  verify_pending-stored p stored =
      let sized : (length stored.bytes == p.size) ≡ true = ground (arith, stored.size) in
      let matched : text_eq (sha256 stored.bytes) p.checksum ≡ true =
        subst (λ x. text_eq (sha256 stored.bytes) x ≡ true) stored.checksum
          (text_eq_self (sha256 stored.bytes)) in
      rw (stored.there, sized, matched) refl

  pub verify_parts-items :
      (filename : Text) (width k limit : ℕ) (ps : List ArtifactPart) (combined : Bytes)
      {bytes : Bytes}
      → contents ps directory ≡ some bytes
      → AreNumbered k ps
      → AreNamed filename width ps
      → All (IsStored sha256 directory) ps
      → All (λ p. (1 ≤ p.size) × (p.size ≤ limit)) ps
      → verify_parts lib directory filename width k (part_items ps) combined
        ≡ returns (ps, combined ++ bytes)
  unfolding verify_parts part_items contents
  verify_parts-items filename width k limit [] combined {bytes} held numbered named stored sizes =
      let same : ◌≡◌ {A = Bytes} [] bytes = cc in
      ap (λ b. returns ([], b)) (sym (append-nil combined) ∙ ap (λ b. combined ++ b) same)
  verify_parts-items filename width k limit (p ∷ ps) combined {bytes} held (n, numbered) (m, named)
        (s, stored) (z, sizes) =
      let (rest, there, whole) =
        joined-some (read p.name directory) (contents ps directory) s.bytes s.there held in
      let name : p.name ≡ part_name filename width k = m ∙ ap (part_name filename width) n in
      rw
        (
          part_of-item (part_name filename width k) k p name n z.0
              (ap length (sym s.checksum) ∙ long s.bytes),
          verify_pending-stored p s,
          verify_parts-items filename width (suc k) limit ps (combined ++ s.bytes) {bytes = rest}
              there numbered named stored sizes,
        )
        (ap (λ b. returns (p ∷ ps, b))
          (append_assoc combined s.bytes rest ∙ ap (λ b. combined ++ b) whole))

  -- A manifest of parts is answered with the parts.
  pub multi-delivers :
      (r : Request) (content : Bytes) (p : ArtifactPart) (ps : List ArtifactPart) (text : Bytes)
      → loads text ≡ returns (document_of r (length content) (sha256 content) (p ∷ ps))
      → length text ≤ 1048576
      → verify_parts lib directory r.filename
          (max 3 (length (decimal (item_count (part_items (p ∷ ps))))))
          1
          (part_items (p ∷ ps))
          []
        ≡ returns (p ∷ ps, content)
      → by_manifest lib directory r.filename (length content) (sha256 content) (some text)
        ≡ returns (p ∷ ps)
  unfolding document_of get verified_parts part_items
  multi-delivers r content p ps text loaded small checked =
      let room : ltb 1048576 (length text) ≡ false = ground (arith, small) in
      let sized : (length content == length content) ≡ true = ground arith in
      rw (room, loaded, text_eq_self r.filename, text_eq_self (sha256 content), sized)
        (rw (checked, sized, text_eq_self (sha256 content)) refl)

  -- A manifest of one file is answered with the file.
  pub single-delivers :
      (r : Request) (content : Bytes) (text : Bytes)
      → loads text ≡ returns (document_of r (length content) (sha256 content) [])
      → length text ≤ 1048576
      → read r.filename directory ≡ some content
      → by_manifest lib directory r.filename (length content) (sha256 content) (some text)
        ≡ returns (single r.filename (length content) (sha256 content) ∷ [])
  unfolding document_of get single_part verify_pending
  single-delivers r content text loaded small there =
      let room : ltb 1048576 (length text) ≡ false = ground (arith, small) in
      let sized : (length content == length content) ≡ true = ground arith in
      rw (room, loaded, text_eq_self r.filename, text_eq_self (sha256 content), sized)
        (rw (there, sized, text_eq_self (sha256 content)) refl)
