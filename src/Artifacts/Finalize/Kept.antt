-- ===== src/Artifacts/Finalize/Kept.antt =====
-- What a finalized directory keeps: the files of the parts, under names of their own
-- (src/pipeline/finalize.py).
use mathlib.Core.List.{append_assoc}
use backup_telebot.Prelude.{
  ℕ, zero, suc, ◌+◌, ◌-◌, ◌/◌, ◌%◌, ◌≤◌, ◌≡◌, refl, sym, ap, subst, ◌∙◌, arith, Bool, true, false,
  not, ltb, if◌then◌else◌, some, List, [], ◌∷◌, ◌++◌, length, All, keep,
}
use backup_telebot.Paths.Text.{Text, text_eq}
use backup_telebot.Artifacts.Files.{
  Bytes, Directory, read, write, remove, digits, zeros, padded, decimal, part_name,
}
use backup_telebot.Artifacts.Files.Names.{text_eq-same}
use backup_telebot.Artifacts.Split.{ArtifactPart, split_parts}
use backup_telebot.Artifacts.Split.Whole.{contents, IsStored, read_other}
use backup_telebot.Artifacts.Verify.{manifest_name}

-- The last byte of a text.
final : Text → ℕ
final [] = 0
final (c ∷ []) = c
final (c ∷ d ∷ s) = final (d ∷ s)

final-append : (s : Text) (c : ℕ) (t : Text) → final (s ++ (c ∷ t)) ≡ final (c ∷ t)
unfolding final
final-append [] c t = refl
final-append (x ∷ []) c t = refl
final-append (x ∷ y ∷ s) c t = final-append (y ∷ s) c t

-- A part's name ends in a digit.
final-digits : (fuel n : ℕ) (s : Text) → final (s ++ digits (suc fuel) n) ≤ b'9'
unfolding digits final
final-digits fuel n s = go (ltb n 10) refl
  where
    go :
        (b : Bool)
        → ltb n 10 ≡ b
        → final (s ++ (if b then (b'0' + n) ∷ [] else digits fuel (n / 10) ++ (b'0' + n % 10) ∷ []))
          ≤ b'9'
    go true e = rw (final-append s (b'0' + n) []) (ground (arith, e))
    go false e =
        rw
          (
            sym (append_assoc s (digits fuel (n / 10)) ((b'0' + n % 10) ∷ [])),
            final-append (s ++ digits fuel (n / 10)) (b'0' + n % 10) [],
          )
          (omega arith)

part_name-final : (filename : Text) (width n : ℕ) → final (part_name filename width n) ≤ b'9'
unfolding part_name padded decimal
part_name-final filename width n =
    let front : Text =
      b'.' ∷ b'p' ∷ b'a' ∷ b'r' ∷ b't' ∷ zeros (width - length (digits (suc n) n)) in
    rw (sym (append_assoc filename front (digits (suc n) n))) (final-digits n n (filename ++ front))

not_manifest :
    (filename : Text) (width n : ℕ) → text_eq manifest_name (part_name filename width n) ≡ false
unfolding final
not_manifest filename width n = go (text_eq manifest_name (part_name filename width n)) refl
  where
    go :
        (b : Bool)
        → text_eq manifest_name (part_name filename width n) ≡ b
        → text_eq manifest_name (part_name filename width n) ≡ false
    go false e = e
    go true e = absurd (
        omega (
          arith,
          part_name-final filename width n,
          ap final (text_eq-same manifest_name (part_name filename width n) e),
        ))

length-append_more : (s : Text) (c : ℕ) (t : Text) → text_eq (s ++ (c ∷ t)) s ≡ false
length-append_more [] c t = refl
length-append_more (x ∷ s) c t = ground (arith, length-append_more s c t)

part_name-filename :
    (filename : Text) (width n : ℕ) → text_eq (part_name filename width n) filename ≡ false
unfolding part_name
part_name-filename filename width n = length-append_more filename b'.' _

other_name :
    (n name other : Text)
    → text_eq n other ≡ true
    → text_eq name other ≡ false
    → text_eq n name ≡ false
other_name n name other e h = go (text_eq n name) refl
  where
    go : (b : Bool) → text_eq n name ≡ b → text_eq n name ≡ false
    go false k = k
    go true k =
        let same : n ≡ name = text_eq-same n name k in
        let both : text_eq name other ≡ true = subst (λ x. text_eq x other ≡ true) same e in cc

pub read-remove :
    (name other : Text) (directory : Directory)
    → text_eq name other ≡ false
    → read name (remove other directory) ≡ read name directory
unfolding read remove keep
read-remove name other [] h = refl
read-remove name other ((n, bs) ∷ rest) h =
    go (text_eq n other) refl (read-remove name other rest h)
  where
    go :
        (b : Bool)
        → text_eq n other ≡ b
        → read name (keep (λ f. not (text_eq f.0 other)) rest) ≡ read name rest
        → read name (
            if not b
            then (n, bs) ∷ keep (λ f. not (text_eq f.0 other)) rest
            else keep (λ f. not (text_eq f.0 other)) rest)
          ≡ (if text_eq n name then some bs else read name rest)
    go true e ih = rw (other_name n name other e h) ih
    go false e ih = rw ih refl

-- The parts of a split are named by their numbers.
abbrev pub AreNamed : Text → ℕ → List ArtifactPart → Type 0
AreNamed filename width ps = All (λ p. p.name ≡ part_name filename width p.number) ps

pub split_parts-named :
    (sha256 : Bytes → Text) (filename : Text) (width limit left k : ℕ) (source : Bytes)
    (directory : Directory)
    → (length (split_parts sha256 filename width limit left k source directory).0 ≡ left)
      × AreNamed filename width (split_parts sha256 filename width limit left k source directory).0
unfolding split_parts
split_parts-named sha256 filename width limit zero k source directory = (refl, tt)
split_parts-named sha256 filename width limit (suc left) k source directory =
    let rest = split_parts-named sha256 filename width limit left (suc k) _ _ in
    (ap suc rest.0, (refl, rest.1))

-- The manifest and the removal of the whole artifact leave the files of the parts alone.
module _ (filename text : Bytes) (directory : Directory) where
  unfoldable pub after : Directory
  after = remove filename (write manifest_name text directory)

  pub read-after :
      (width : ℕ) (p : ArtifactPart)
      → p.name ≡ part_name filename width p.number
      → read p.name after ≡ read p.name directory
  unfolding after
  read-after width p e = rw e (
      read-remove (part_name filename width p.number) filename (write manifest_name text directory)
        (part_name-filename filename width p.number)
      ∙ read_other (part_name filename width p.number) manifest_name text directory
          (not_manifest filename width p.number))

  pub contents-after :
      (width : ℕ) (ps : List ArtifactPart)
      → AreNamed filename width ps
      → contents ps after ≡ contents ps directory
  unfolding contents
  contents-after width [] a = refl
  contents-after width (p ∷ ps) (e, a) = rw (read-after width p e, contents-after width ps a) refl

  pub IsStored-after :
      (sha256 : Bytes → Text) (width : ℕ) (ps : List ArtifactPart)
      → AreNamed filename width ps
      → All (IsStored sha256 directory) ps
      → All (IsStored sha256 after) ps
  IsStored-after sha256 width [] a s = tt
  IsStored-after sha256 width (p ∷ ps) (e, a) (s, t) = (
    record {
      bytes = s.bytes;
      there = read-after width p e ∙ s.there;
      size = s.size;
      checksum = s.checksum;
    },
    IsStored-after sha256 width ps a t,
  )
