-- ===== src/Paths/Text/Trip.antt =====
-- What is written of a clean path reads back as the path.
use backup_telebot.Prelude.{
  subst, sym, ap, ℕ, ◌≡◌, refl, Bool, true, false, List, [], ◌∷◌, ◌++◌, arith, ◌==◌, any, keep, All,
  ◌||◌, if◌then◌else◌,
}
use backup_telebot.Store.{returns}
use backup_telebot.Fallible.{returns-value, pure, require-returns}
use backup_telebot.Paths.Text.{
  is_dots, Text, PurePath, split, push_char, is_part, starts_slash, starts_double, parse_path,
  render_parts, render, validate_absolute_path,
}

abbrev has_slash : Text → Bool
has_slash p = any (λ c. c == b'/') p

-- A part as a path has them: not empty, not ".", and without a slash.
abbrev pub IsPart : Text → Type 0
IsPart p = (is_part p ≡ true) × (has_slash p ≡ false)

abbrev pub IsClean : PurePath → Type 0
IsClean p = All IsPart p.parts

push_char-slash :
    (c : ℕ) (ps : List Text)
    → (c == b'/') ≡ false
    → All (λ p. has_slash p ≡ false) ps
    → All (λ p. has_slash p ≡ false) (push_char c ps)
unfolding any
push_char-slash c [] h a = (ground (arith, h), tt)
push_char-slash c (p ∷ ps) h a = (ground (arith, h, a.0), a.1)

split-slash : (s : Text) → All (λ p. has_slash p ≡ false) (split s)
unfolding split any
split-slash [] = (refl, tt)
split-slash (c ∷ s) = go (c == b'/') refl (split-slash s)
  where
    go :
        (b : Bool)
        → (c == b'/') ≡ b
        → All (λ p. has_slash p ≡ false) (split s)
        → All (λ p. has_slash p ≡ false) (if b then [] ∷ split s else push_char c (split s))
    go true h a = (refl, a)
    go false h a = push_char-slash c (split s) h a

keep-IsPart : (ps : List Text) → All (λ p. has_slash p ≡ false) ps → All IsPart (keep is_part ps)
unfolding keep
keep-IsPart [] a = tt
keep-IsPart (p ∷ ps) (h, a) = go (is_part p) refl (keep-IsPart ps a)
  where
    go :
        (b : Bool)
        → is_part p ≡ b
        → All IsPart (keep is_part ps)
        → All IsPart (if b then p ∷ keep is_part ps else keep is_part ps)
    go true e r = ((e, h), r)
    go false e r = r

pub parse_path-IsClean : (s : Text) → IsClean (parse_path s)
unfolding parse_path
parse_path-IsClean s = keep-IsPart (split s) (split-slash s)

append_nil : (p : Text) → p ++ [] ≡ p
append_nil [] = refl
append_nil (c ∷ p) = ap (λ t. c ∷ t) (append_nil p)

split-alone : (p : Text) → has_slash p ≡ false → split p ≡ p ∷ []
unfolding split any
split-alone [] h = refl
split-alone (c ∷ p) h = go (c == b'/') h (split-alone p)
  where
    go :
        (b : Bool)
        → (b || has_slash p) ≡ false
        → (has_slash p ≡ false → split p ≡ p ∷ [])
        → (if b then [] ∷ split p else push_char c (split p)) ≡ (c ∷ p) ∷ []
    go true h ih = ground (arith, h)
    go false h ih = rw (ih h) refl

split-part : (p r : Text) → has_slash p ≡ false → split (p ++ (b'/' ∷ r)) ≡ p ∷ split r
unfolding split any
split-part [] r h = refl
split-part (c ∷ p) r h = go (c == b'/') h (split-part p r)
  where
    go :
        (b : Bool)
        → (b || has_slash p) ≡ false
        → (has_slash p ≡ false → split (p ++ (b'/' ∷ r)) ≡ p ∷ split r)
        → (if b then [] ∷ split (p ++ (b'/' ∷ r)) else push_char c (split (p ++ (b'/' ∷ r))))
          ≡ (c ∷ p) ∷ split r
    go true h ih = ground (arith, h)
    go false h ih = rw (ih h) refl

split-render :
    (p : Text) (ps : List Text)
    → has_slash p ≡ false
    → All IsPart ps
    → split (p ++ render_parts ps) ≡ p ∷ ps
unfolding render_parts
split-render p [] h a = rw (append_nil p) (split-alone p h)
split-render p (q ∷ qs) h ((_, hq), a) =
    rw (split-part p (q ++ render_parts qs) h) (ap (λ t. p ∷ t) (split-render q qs hq a))

keep-parts : (ps : List Text) → All IsPart ps → keep is_part ps ≡ ps
unfolding keep
keep-parts [] a = refl
keep-parts (p ∷ ps) ((h, _), a) = rw h (ap (λ t. p ∷ t) (keep-parts ps a))

-- Two parts of a path, the first not empty, do not start with a slash.
starts_slash-part : (p r : Text) → IsPart p → starts_slash (p ++ r) ≡ false
unfolding any
starts_slash-part [] r h = ground (arith, h.0)
starts_slash-part (c ∷ p) r h = ground (arith, h.1)

abbrev path : Bool → List Text → PurePath
path d ps = record { is_double = d; parts = ps }

is_double-render :
    (d : Bool) (ps : List Text) → All IsPart ps → starts_double (render (path d ps)) ≡ d
unfolding render render_parts
is_double-render true [] h = refl
is_double-render false [] h = refl
is_double-render true (p ∷ ps) (h, a) = rw (starts_slash-part p (render_parts ps) h) refl
is_double-render false ([] ∷ ps) (h, a) = ground (arith, h.0)
is_double-render false ((c ∷ p) ∷ ps) (h, a) =
    ground (arith, starts_slash-part (c ∷ p) (render_parts ps) h)

parts-render :
    (d : Bool) (ps : List Text) → All IsPart ps → keep is_part (split (render (path d ps))) ≡ ps
unfolding render render_parts split keep
parts-render true [] h = refl
parts-render false [] h = refl
parts-render true (p ∷ ps) (h, a) = rw (split-render p ps h.1 a) (keep-parts (p ∷ ps) (h, a))
parts-render false (p ∷ ps) (h, a) = rw (split-render p ps h.1 a) (keep-parts (p ∷ ps) (h, a))

-- `str` of a clean path is read as that path.
pub parse_path-render : (p : PurePath) → IsClean p → parse_path (render p) ≡ p
unfolding parse_path
parse_path-render p h = λ i. record {
  is_double = is_double-render p.is_double p.parts h i;
  parts = parts-render p.is_double p.parts h i;
}

-- What passes as an absolute path is the text of a clean path without "..", and reads back as it.
pub validate_absolute_path-reads :
    (strip : Text → Text) (value : Text) {t : Text}
    → validate_absolute_path strip value ≡ returns t
    → (p : PurePath) × IsClean p
      × (t ≡ render p)
      × (parse_path t ≡ p)
      × (any is_dots p.parts ≡ false)
unfolding validate_absolute_path
validate_absolute_path-reads strip value h =
    let s = strip value in
    let r = require-returns _ _ (pure (render (parse_path s))) h in
    let e = returns-value r.1 in
    (
      parse_path s,
      parse_path-IsClean s,
      sym e,
      subst (λ u. parse_path u ≡ parse_path s) e
          (parse_path-render (parse_path s) (parse_path-IsClean s)),
      ground (arith, r.0),
    )
