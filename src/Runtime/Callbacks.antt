-- ===== src/Runtime/Callbacks.antt =====
-- `CallbackStore` of src/presentation/telegram/runtime/callbacks.py.
--
-- Each method runs under the store's lock, so it is one step. A callback's data is given by what
-- `data.decode("ascii").split(":", 1)` makes of it, nothing where that raises; the token is what
-- `secrets.token_urlsafe` has drawn. The dictionary is the list of its items, each with its key.
pub mod Once
use backup_telebot.Prelude.{
  ℕ, ◌+◌, String, Bool, not, Option, none, some, List, [], ◌∷◌, ◌++◌, ltb, leb, ◌==◌, str_eq,
  if◌then◌else◌, count, find, keep,
}

pub record CallbackAction : Type 0 where
  pub token : String
  pub actor_id : ℕ
  pub action : String
  pub target_id : ℕ
  pub expires_at : ℕ

pub record CallbackStore : Type 0 where
  pub timeout : ℕ
  pub items : List CallbackAction

pub data Verdict : Type 0 where
  accepted expired invalid : Verdict

abbrev pub has_token : String → CallbackAction → Bool
has_token token i = str_eq i.token token

abbrev pub remove : String → CallbackStore → CallbackStore
remove token s = record s { items = keep (λ i. not (has_token token i)) s.items }

-- issue; the data of the button is the text "v1:" and the token.
unfoldable pub issue :
    ℕ → String → ℕ → String → ℕ → CallbackStore → (String × String) × CallbackStore
issue actor_id action target_id token now s = (
  ("v1", token),
  record s {
    items =
        keep (λ i. not (has_token token i))
          (keep (λ (i : CallbackAction). ltb now i.expires_at) s.items)
        ++ record {
          token = token;
          actor_id = actor_id;
          action = action;
          target_id = target_id;
          expires_at = now + s.timeout;
        }
          ∷ [];
  },
)

-- What becomes of the item that the token names.
abbrev pub redeem :
    ℕ
    → ℕ
    → Option CallbackAction
    → CallbackStore
    → (Option CallbackAction × Verdict) × CallbackStore
redeem actor_id now none s = ((none, invalid), s)
redeem actor_id now (some i) s =
    if not (i.actor_id == actor_id)
    then ((none, invalid), s)
    else if leb i.expires_at now
    then ((some i, expired), remove i.token s)
    else ((some i, accepted), remove i.token s)

-- resolve_detailed
unfoldable pub resolve_detailed :
    ℕ
    → Option (String × String)
    → ℕ
    → CallbackStore
    → (Option CallbackAction × Verdict) × CallbackStore
resolve_detailed actor_id none now s = ((none, invalid), s)
resolve_detailed actor_id (some (prefix, token)) now s =
    if str_eq prefix "v1"
    then redeem actor_id now (find (has_token token) s.items) s
    else ((none, invalid), s)

abbrev pub if_accepted : Option CallbackAction × Verdict → Option CallbackAction
if_accepted (i, accepted) = i
if_accepted (i, _) = none

-- resolve
unfoldable pub resolve :
    ℕ → Option (String × String) → ℕ → CallbackStore → Option CallbackAction × CallbackStore
resolve actor_id button now s =
    let r = resolve_detailed actor_id button now s in (if_accepted r.0, r.1)

-- prune_expired
unfoldable pub prune_expired : ℕ → CallbackStore → ℕ × CallbackStore
prune_expired now s = (
  count (λ (i : CallbackAction). leb i.expires_at now) s.items,
  record s { items = keep (λ (i : CallbackAction). not (leb i.expires_at now)) s.items },
)

-- clear_all
unfoldable pub clear_all : CallbackStore → CallbackStore
clear_all s = record s { items = [] }
