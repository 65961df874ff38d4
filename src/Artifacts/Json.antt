-- ===== src/Artifacts/Json.antt =====
-- Documents as `json.loads` gives them, and what src/pipeline/finalize.py reads of them.
use backup_telebot.Prelude.{
  ◌+◌, ℕ, Bool, true, false, ◌==◌, String, str_eq, Option, none, some, if◌then◌else◌,
}
use backup_telebot.Paths.Text.{Text, text_eq}

-- Integers that are not natural, and floats that equal no natural number, are `other`.
mutual
  pub data Json : Type 0 where
    null other : Json
    boolean : Bool → Json
    number : ℕ → Json
    float : ℕ → Json
    string : Text → Json
    array : Items → Json
    object : Fields → Json

  pub data Items : Type 0 where
    end : Items
    item : Json → Items → Items

  pub data Fields : Type 0 where
    done : Fields
    field : String → Json → Fields → Fields

-- `document.get(key)`: None where the key is missing.
unfoldable pub get : String → Fields → Json
get key done = null
get key (field k v rest) = if str_eq k key then v else get key rest

unfoldable pub item_count : Items → ℕ
item_count end = 0
item_count (item j rest) = 1 + item_count rest

-- `value == n`: a bool is an int, and a float may equal one.
abbrev pub equals_number : Json → ℕ → Bool
equals_number (number m) n = m == n
equals_number (float m) n = m == n
equals_number (boolean true) n = n == 1
equals_number (boolean false) n = n == 0
equals_number _ n = false

abbrev pub equals_text : Json → Text → Bool
equals_text (string s) t = text_eq s t
equals_text _ t = false

-- `isinstance(value, int)`, with the value; a negative one is left out.
abbrev pub natural_of : Json → Option ℕ
natural_of (number n) = some n
natural_of (boolean true) = some 1
natural_of (boolean false) = some 0
natural_of _ = none

-- `isinstance(value, str)`, with the value.
abbrev pub text_of : Json → Option Text
text_of (string s) = some s
text_of _ = none
