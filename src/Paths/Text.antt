-- ===== src/Paths/Text.antt =====
-- Absolute paths: `PurePosixPath` and `validate_absolute_path` of src/application/profile_config.py.
pub mod Trip
use backup_telebot.Prelude.{
  ℕ, Bool, true, false, not, ◌&&◌, ◌||◌, List, [], ◌∷◌, ◌++◌, ltb, ◌==◌, if◌then◌else◌, length, any,
  keep,
}
use backup_telebot.Store.{Outcome, value_error}
use backup_telebot.Fallible.{◌>>◌, pure, require}

abbrev pub Text : Type 0
Text = List ℕ

abbrev pub text_eq : Text → Text → Bool
text_eq [] [] = true
text_eq (c ∷ s) (d ∷ t) = (c == d) && text_eq s t
text_eq _ _ = false

abbrev pub push_char : ℕ → List Text → List Text
push_char c [] = (c ∷ []) ∷ []
push_char c (p ∷ ps) = (c ∷ p) ∷ ps

-- `text.split("/")`
unfoldable pub split : Text → List Text
split [] = [] ∷ []
split (c ∷ s) = let rest = split s in if c == b'/' then [] ∷ rest else push_char c rest

abbrev pub is_empty {ℓ} : {A : Type ℓ} → List A → Bool
is_empty [] = true
is_empty (_ ∷ _) = false

-- A part that is neither empty nor ".".
abbrev pub is_part : Text → Bool
is_part p = not (is_empty p) && not (text_eq p (b'.' ∷ []))

-- An absolute `PurePosixPath`; POSIX keeps exactly two leading slashes apart from one.
pub record PurePath : Type 0 where
  pub is_double : Bool
  pub parts : List Text

abbrev pub starts_slash : Text → Bool
starts_slash [] = false
starts_slash (c ∷ s) = c == b'/'

abbrev pub starts_double : Text → Bool
starts_double [] = false
starts_double (c ∷ []) = false
starts_double (c ∷ d ∷ s) = (c == b'/') && ((d == b'/') && not (starts_slash s))

-- `PurePosixPath(text)`, of a text that starts with a slash.
unfoldable pub parse_path : Text → PurePath
parse_path s = record { is_double = starts_double s; parts = keep is_part (split s) }

unfoldable pub render_parts : List Text → Text
render_parts [] = []
render_parts (p ∷ ps) = b'/' ∷ (p ++ render_parts ps)

abbrev root_of : List Text → Text
root_of [] = b'/' ∷ []
root_of (p ∷ ps) = render_parts (p ∷ ps)

-- `str(path)`
unfoldable pub render : PurePath → Text
render p = if p.is_double then b'/' ∷ root_of p.parts else root_of p.parts

abbrev pub is_dots : Text → Bool
is_dots p = text_eq p (b'.' ∷ b'.' ∷ [])

-- validate_absolute_path
unfoldable pub validate_absolute_path : (Text → Text) → Text → Outcome Text
validate_absolute_path strip value =
    let clean = strip value in
    require
      (not (
        not (starts_slash clean)
        || (any is_dots (parse_path clean).parts
            || (any (λ c. c == 0) clean || ltb 1024 (length clean)))))
      (value_error "path must be an absolute normalized path")
    >> pure (render (parse_path clean))
