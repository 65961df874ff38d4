-- ===== src/Artifacts/Split/Whole.antt =====
-- The parts of a split artifact hold the whole of it, in order (src/pipeline/finalize.py).
use backup_telebot.Prelude.{
  length-append, ℕ, zero, suc, ◌+◌, ◌-◌, ◌*◌, ◌/◌, ◌≤◌, ◌<◌, ◌≡◌, refl, sym, ap, subst, ◌∙◌, arith,
  max, Bool, true, false, not, ◌&&◌, ◌==◌, Option, none, some, List, [], ◌∷◌, ◌++◌, length, any,
  All,
}
use native.Mathlib.Nat.{div-add-mod', mod-lt}
use backup_telebot.Store.{Error, returns}
use backup_telebot.Fallible.{◌>>◌, require}
use backup_telebot.Paths.Text.{Text, text_eq}
use backup_telebot.Paths.Mapper.Plain.{text_eq_self}
use backup_telebot.Artifacts.Files.{Bytes, take, drop, Directory, read, write, decimal, part_name}
use backup_telebot.Artifacts.Files.Names.{part_name-other}
use backup_telebot.Artifacts.Split.{
  ArtifactPart, split_parts, total_size, has_bad_size, split_artifact,
}
use backup_telebot.Artifacts.Split.Reads.{read_part_lem, length-take, length-drop}

abbrev pub joined : Option Bytes → Option Bytes → Option Bytes
joined (some a) (some b) = some (a ++ b)
joined _ _ = none

-- What the files of the parts hold, one after the other.
unfoldable pub contents : List ArtifactPart → Directory → Option Bytes
contents [] directory = some []
contents (p ∷ ps) directory = joined (read p.name directory) (contents ps directory)

abbrev pub AreNumbered : ℕ → List ArtifactPart → Type 0
AreNumbered n [] = Unit
AreNumbered n (p ∷ ps) = (p.number ≡ n) × AreNumbered (suc n) ps

-- The file of the part is there, of the size and the checksum that the part has.
pub record IsStored (sha256 : Bytes → Text) (directory : Directory) (p : ArtifactPart)
    : Type 0 where
  pub bytes : Bytes
  pub there : read p.name directory ≡ some bytes
  pub size : length bytes ≡ p.size
  pub checksum : sha256 bytes ≡ p.checksum

unfoldable room : ℕ → ℕ → ℕ
room limit zero = 0
room limit (suc n) = limit + room limit n

room_lem : (limit n : ℕ) → room limit n ≡ n * limit
unfolding room
room_lem limit zero = omega arith
room_lem limit (suc n) = omega (arith, room_lem limit n)

take-drop : (n : ℕ) (bs : Bytes) → take n bs ++ drop n bs ≡ bs
unfolding take drop
take-drop zero bs = refl
take-drop (suc n) [] = refl
take-drop (suc n) (b ∷ bs) = ap (λ t. b ∷ t) (take-drop n bs)

pub read-write :
    (name : Text) (bs : Bytes) (directory : Directory)
    → read name (write name bs directory) ≡ some bs
unfolding read
read-write name bs directory = rw (text_eq_self name) refl

pub read_other :
    (name other : Text) (bs : Bytes) (directory : Directory)
    → text_eq other name ≡ false
    → read name (write other bs directory) ≡ read name directory
unfolding read
read_other name other bs directory h = rw h refl

enough : (limit size : ℕ) → 1 ≤ limit → 1 ≤ size → size ≤ room limit ((size + limit - 1) / limit)
enough limit size h k = omega (
  arith,
  h,
  k,
  room_lem limit ((size + limit - 1) / limit),
  div-add-mod' (size + limit - 1) limit,
  mod-lt (size + limit - 1) h,
)

not_more :
    (limit size : ℕ) → 1 ≤ limit → 1 ≤ size → room limit ((size + limit - 1) / limit) < size + limit
not_more limit size h k = omega (
  arith,
  h,
  k,
  room_lem limit ((size + limit - 1) / limit),
  div-add-mod' (size + limit - 1) limit,
)

module _ (limit left : ℕ) (source : Bytes) where
  room-suc : room limit (suc left) < length source + limit → 1 ≤ length source
  unfolding room
  room-suc h = omega (arith, h)

  fits_rest : length source ≤ room limit (suc left) → length (drop limit source) ≤ room limit left
  unfolding room
  fits_rest h = omega (arith, h, length-drop limit source)

  full_rest :
      1 ≤ limit
      → room limit (suc left) < length source + limit
      → room limit left < length (drop limit source) + limit
  unfolding room
  full_rest k h = omega (arith, k, h, length-drop limit source)

module _ (sha256 : Bytes → Text) (filename : Text) (width limit : ℕ) where
  -- The files of other parts stay.
  split_parts-read :
      (left number k : ℕ) (source : Bytes) (directory : Directory)
      → k < number
      → read
          (part_name filename width k)
          (split_parts sha256 filename width limit left number source directory).1
        ≡ read (part_name filename width k) directory
  unfolding split_parts
  split_parts-read zero number k source directory h = refl
  split_parts-read (suc left) number k source directory h =
      split_parts-read left (suc number) k _ _ (omega (arith, h))
      ∙ read_other _ _ _ directory (part_name-other filename width number k (omega (arith, h)))

  part : ℕ → Bytes → ArtifactPart
  part number bytes = record {
    name = part_name filename width number;
    number = number;
    size = length bytes;
    checksum = sha256 bytes;
  }

  step : ℕ → Bytes → List ArtifactPart × Directory → List ArtifactPart × Directory
  step number bytes rest = (part number bytes ∷ rest.0, rest.1)

  -- One round writes what a part has room for, and goes on with the rest.
  split_parts-step :
      (left number : ℕ) (source : Bytes) (directory : Directory)
      → split_parts sha256 filename width limit (suc left) number source directory
        ≡ step number (take limit source) (
            split_parts sha256 filename width limit left
              (suc number)
              (drop limit source)
              (write (part_name filename width number) (take limit source) directory))
  unfolding split_parts step part
  split_parts-step left number source directory =
      let all : limit - 0 ≡ limit = omega arith in
      rw (read_part_lem (suc (length source)) limit 0 source (omega arith), all) refl

  -- The files hold the source, the parts are numbered, and each is as large as allowed, or less.
  abbrev pub IsWhole : ℕ → Bytes → List ArtifactPart × Directory → Type 0
  IsWhole number source out =
      (contents out.0 out.1 ≡ some source)
      × AreNumbered number out.0
      × All (IsStored sha256 out.1) out.0
      × All (λ p. (1 ≤ p.size) × (p.size ≤ limit)) out.0

  step-IsWhole :
      (number : ℕ) (source : Bytes) (rest : List ArtifactPart × Directory)
      → 1 ≤ limit
      → 1 ≤ length source
      → read (part_name filename width number) rest.1 ≡ some (take limit source)
      → IsWhole (suc number) (drop limit source) rest
      → IsWhole number source (step number (take limit source) rest)
  unfolding step part contents
  step-IsWhole number source rest h k stored (whole, numbered, files, sizes) = (
    rw (stored, whole) (ap some (take-drop limit source)),
    (refl, numbered),
    (record { bytes = take limit source; there = stored; size = refl; checksum = refl }, files),
    ((omega (arith, length-take limit source), omega (arith, length-take limit source)), sizes),
  )

  nothing_left :
      (number : ℕ) (source : Bytes) (directory : Directory)
      → length source ≤ room limit 0
      → IsWhole number source (split_parts sha256 filename width limit 0 number source directory)
  unfolding split_parts room contents
  nothing_left number [] directory h = (refl, tt, tt, tt)
  nothing_left number (b ∷ source) directory h = absurd (omega (arith, h))

  -- The outer loop: where the parts to go have room for the source and none would be empty.
  split_parts-IsWhole :
      (left number : ℕ) (source : Bytes) (directory : Directory)
      → 1 ≤ limit
      → length source ≤ room limit left
      → room limit left < length source + limit
      → IsWhole number source (split_parts sha256 filename width limit left number source directory)
  split_parts-IsWhole zero number source directory h fits full =
      nothing_left number source directory fits
  split_parts-IsWhole (suc left) number source directory h fits full =
      subst (IsWhole number source) (sym (split_parts-step left number source directory)) (
        step-IsWhole number source _ h (room-suc limit left source full)
          (split_parts-read left (suc number) number _ _ (omega arith) ∙ read-write _ _ directory)
          (split_parts-IsWhole left (suc number) (drop limit source) _ h
            (fits_rest limit left source fits) (full_rest limit left source h full)))

total_size-contents :
    (sha256 : Bytes → Text) (ps : List ArtifactPart) (directory : Directory) {bs : Bytes}
    → contents ps directory ≡ some bs
    → All (IsStored sha256 directory) ps
    → total_size ps ≡ length bs
unfolding total_size contents
total_size-contents sha256 [] directory {bs} h a = let e : ◌≡◌ {A = Bytes} [] bs = cc in ap length e
total_size-contents sha256 (p ∷ ps) directory {bs} h (stored, a) =
    go (contents ps directory) (λ rest e. total_size-contents sha256 ps directory {bs = rest} e a)
      refl h
  where
    go :
        (o : Option Bytes)
        → ((rest : Bytes) → contents ps directory ≡ some rest → total_size ps ≡ length rest)
        → contents ps directory ≡ o
        → joined (read p.name directory) o ≡ some bs
        → p.size + total_size ps ≡ length bs
    go none ih e h =
        let none_there : joined (some stored.bytes) none ≡ some bs =
          sym (ap (λ x. joined x none) stored.there) ∙ h in
        ground (arith, none_there)
    go (some rest) ih e h =
        let both : joined (some stored.bytes) (some rest) ≡ some bs =
          sym (ap (λ x. joined x (some rest)) stored.there) ∙ h in
        let same : stored.bytes ++ rest ≡ bs = cc in
        omega (arith, stored.size, ih rest e, length-append {0} stored.bytes rest, ap length same)

no_bad_size :
    (limit : ℕ) (ps : List ArtifactPart)
    → All (λ p. (1 ≤ p.size) × (p.size ≤ limit)) ps
    → any (has_bad_size limit) ps ≡ false
unfolding any
no_bad_size limit [] a = refl
no_bad_size limit (p ∷ ps) (h, a) = ground (arith, h, no_bad_size limit ps a)

sums : {m n : ℕ} → m ≡ n → (m == n) ≡ true
sums h = ground (arith, h)

passed :
    {fits bad : Bool} (e : Error)
    → fits ≡ true
    → bad ≡ false
    → (out : List ArtifactPart × Directory)
    → (require (fits && not bad) e >> returns out) ≡ returns out
passed e h k out = rw (h, k) refl

-- A split always succeeds where there is something to split: the files of the parts hold the artifact when
-- they are put together in order, the parts are numbered from one on, each is as large as allowed or less
-- and never empty, and each has the size and the checksum of its file.
pub split_artifact-contents :
    (sha256 : Bytes → Text) (filename : Text) (content : Bytes) (limit : ℕ) (directory : Directory)
    → 1 ≤ limit
    → 1 ≤ length content
    → (parts : List ArtifactPart) × (out : Directory) × (split_artifact sha256 filename content
          limit directory
        ≡ returns (parts, out))
      × (contents parts out ≡ some content)
      × AreNumbered 1 parts
      × All (IsStored sha256 out) parts
      × All (λ p. (1 ≤ p.size) × (p.size ≤ limit)) parts
unfolding split_artifact
split_artifact-contents sha256 filename content limit directory h k =
    let total = (length content + limit - 1) / limit in
    let width = max 3 (length (decimal total)) in
    let out = split_parts sha256 filename width limit total 1 content directory in
    let (whole, numbered, files, sizes) =
      split_parts-IsWhole sha256 filename width limit total 1 content directory h
        (enough limit (length content) h k) (not_more limit (length content) h k) in
    let size = total_size-contents sha256 out.0 out.1 whole files in
    (
      out.0,
      out.1,
      passed _ (sums size) (no_bad_size limit out.0 sizes) out,
      whole,
      numbered,
      files,
      sizes,
    )
