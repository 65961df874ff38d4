-- ===== src/Runtime/Secrets.antt =====
-- `EphemeralSecretStore` of src/presentation/telegram/runtime/fsm.py.
--
-- Each method runs under the store's lock, so it is one step. The cipher is AES-GCM of the
-- `cryptography` package, a parameter. A popped item is overwritten with zeros before it is
-- dropped; the model drops it. The dictionary is the list of its items.
pub mod Trip
use backup_telebot.Prelude.{
  ℕ, ◌+◌, String, Bool, ◌&&◌, not, Option, none, some, List, [], ◌∷◌, ◌++◌, ltb, leb, ◌==◌, str_eq,
  if◌then◌else◌, any, count, find, keep, update,
}
use backup_telebot.Store.{Outcome, returns, raises, value_error, invalid_tag}

-- `encrypt nonce context plaintext`, `decrypt nonce context ciphertext`, and the context that
-- `_context` makes of a user and a name.
pub record Cipher : Type 0 where
  pub encrypt : String → String → String → String
  pub decrypt : String → String → String → Option String
  pub context : ℕ → String → String

pub record Secret : Type 0 where
  pub user_id : ℕ
  pub name : String
  pub nonce : String
  pub ciphertext : String
  pub expires_at : ℕ

pub record SecretStore : Type 0 where
  pub timeout : ℕ
  pub items : List Secret

abbrev pub is_of : ℕ → Secret → Bool
is_of user_id i = i.user_id == user_id

abbrev pub has_key : ℕ → String → Secret → Bool
has_key user_id name i = is_of user_id i && str_eq i.name name

abbrev pub is_expired : ℕ → Secret → Bool
is_expired now i = leb i.expires_at now

abbrev pub without : ℕ → String → SecretStore → SecretStore
without user_id name s = record s { items = keep (λ i. not (has_key user_id name i)) s.items }

-- put, with the nonce that `os.urandom` gives
unfoldable pub put :
    Cipher → ℕ → String → String → String → ℕ → SecretStore → Outcome (Unit {0}) × SecretStore
put cipher user_id name plaintext nonce now s =
    if str_eq plaintext "" then (raises (value_error "secret cannot be empty"), s) else (
      returns tt,
      record s {
        items =
            keep (λ i. not (has_key user_id name i)) s.items
            ++ record {
              user_id = user_id;
              name = name;
              nonce = nonce;
              ciphertext = cipher.encrypt nonce (cipher.context user_id name) plaintext;
              expires_at = now + s.timeout;
            }
              ∷ [];
      },
    )

abbrev pub opened_text : Option String → Outcome String
opened_text none = raises invalid_tag
opened_text (some plaintext) = returns plaintext

abbrev pub opened : Cipher → Secret → Outcome String
opened cipher i =
    opened_text (cipher.decrypt i.nonce (cipher.context i.user_id i.name) i.ciphertext)

-- take
abbrev pub take_from :
    Cipher → ℕ → String → ℕ → Option Secret → SecretStore → Outcome String × SecretStore
take_from cipher user_id name now none s =
    (raises (value_error "conversation secret is unavailable or expired"), s)
take_from cipher user_id name now (some i) s =
    if is_expired now i
    then (
      raises (value_error "conversation secret is unavailable or expired"),
      without user_id name s,
    )
    else (opened cipher i, without user_id name s)

unfoldable pub take : Cipher → ℕ → String → ℕ → SecretStore → Outcome String × SecretStore
take cipher user_id name now s =
    take_from cipher user_id name now (find (has_key user_id name) s.items) s

-- get
abbrev pub get_from :
    Cipher → ℕ → String → ℕ → Option Secret → SecretStore → Outcome String × SecretStore
get_from cipher user_id name now none s =
    (raises (value_error "conversation secret is unavailable or expired"), s)
get_from cipher user_id name now (some i) s =
    if is_expired now i
    then (
      raises (value_error "conversation secret is unavailable or expired"),
      without user_id name s,
    )
    else (opened cipher i, s)

unfoldable pub get : Cipher → ℕ → String → ℕ → SecretStore → Outcome String × SecretStore
get cipher user_id name now s =
    get_from cipher user_id name now (find (has_key user_id name) s.items) s

-- touch
unfoldable pub touch : ℕ → ℕ → SecretStore → SecretStore
touch user_id now s = record s {
  items = update (is_of user_id) (λ i. record i { expires_at = now + s.timeout }) s.items;
}

-- clear
unfoldable pub clear : ℕ → SecretStore → SecretStore
clear user_id s = record s { items = keep (λ i. not (is_of user_id i)) s.items }

-- clear_all
unfoldable pub clear_all : SecretStore → SecretStore
clear_all s = record s { items = [] }

-- prune_expired
unfoldable pub prune_expired : ℕ → SecretStore → ℕ × SecretStore
prune_expired now s = (
  count (is_expired now) s.items,
  record s { items = keep (λ i. not (is_expired now i)) s.items },
)

abbrev matches : Option String → Secret → Bool
matches none i = Bool.true
matches (some name) i = str_eq i.name name

-- contains
unfoldable pub contains : ℕ → Option String → ℕ → SecretStore → Bool
contains user_id name now s =
    any (λ i. is_of user_id i && (matches name i && ltb now i.expires_at)) s.items
