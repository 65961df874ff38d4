-- ===== src/Artifacts/Files.antt =====
-- Bytes, the files of one directory, and what the code calls of the standard library.
pub mod Names
use backup_telebot.Prelude.{
  ℕ, zero, suc, ◌+◌, ◌-◌, ◌/◌, ◌%◌, Bool, true, false, not, ltb, if◌then◌else◌, Option, none, some,
  List, [], ◌∷◌, ◌++◌, length, keep,
}
use backup_telebot.Store.{Outcome}
use backup_telebot.Paths.Text.{Text, text_eq}

abbrev pub Bytes : Type 0
Bytes = List ℕ

unfoldable pub take : ℕ → Bytes → Bytes
take zero bs = []
take (suc n) [] = []
take (suc n) (b ∷ bs) = b ∷ take n bs

unfoldable pub drop : ℕ → Bytes → Bytes
drop zero bs = bs
drop (suc n) [] = []
drop (suc n) (b ∷ bs) = drop n bs

-- The regular files of a directory, by name.
abbrev pub Directory : Type 0
Directory = List (Text × Bytes)

unfoldable pub read : Text → Directory → Option Bytes
read name [] = none
read name ((n, bs) ∷ rest) = if text_eq n name then some bs else read name rest

abbrev pub write : Text → Bytes → Directory → Directory
write name bs directory = (name, bs) ∷ directory

unfoldable pub remove : Text → Directory → Directory
remove name directory = keep (λ f. not (text_eq f.0 name)) directory

-- The decimal digits of a number below 10 ^ fuel; `decimal` gives enough.
unfoldable pub digits : ℕ → ℕ → Text
digits zero n = []
digits (suc fuel) n =
    let rest = digits fuel (n / 10) in
    if ltb n 10 then (b'0' + n) ∷ [] else rest ++ (b'0' + n % 10) ∷ []

-- `str(number)`
unfoldable pub decimal : ℕ → Text
decimal n = digits (suc n) n

unfoldable pub zeros : ℕ → Text
zeros zero = []
zeros (suc n) = b'0' ∷ zeros n

-- `f"{number:0{width}d}"`
unfoldable pub padded : ℕ → ℕ → Text
padded width n = zeros (width - length (decimal n)) ++ decimal n

-- `f"{filename}.part{number:0{width}d}"`
unfoldable pub part_name : Text → ℕ → ℕ → Text
part_name filename width number = filename ++ b'.' ∷ b'p' ∷ b'a' ∷ b'r' ∷ b't' ∷ padded width number
