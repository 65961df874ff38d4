-- ===== src/Runtime/Conversations.antt =====
-- `FSMStore` of src/presentation/telegram/runtime/fsm.py.
--
-- Each method runs under the store's lock, so it is one step. A method reads the clock more than
-- once: `c k` is its reading number `k`, in the order of the text. `values` (the dictionary `data`) holds values of any type,
-- a parameter. The dictionary is the list of its items, each with its key.
pub mod Undo
pub mod Leftovers
use backup_telebot.Prelude.{
  ℕ, ◌+◌, String, Bool, true, false, ◌||◌, not, Option, none, some, List, [], ◌∷◌, ◌++◌, leb, ◌==◌,
  if◌then◌else◌, count, find, keep, update,
}
use backup_telebot.Store.{Outcome, returns, raises, value_error}
use backup_telebot.Runtime.State.{State, state_eq}
use backup_telebot.Runtime.Secrets
use backup_telebot.Runtime.Secrets.{SecretStore, touch}

pub record Conversation (D : Type 0) : Type 0 where
  pub user_id : ℕ
  pub state : State
  pub expires_at : ℕ
  pub values : D
  pub option_ids : List (String × ℕ)
  pub invalid_inputs : ℕ
  pub history : List State

pub record FsmStore (D : Type 0) : Type 0 where
  pub timeout : ℕ
  pub invalid_limit : ℕ
  pub states : List (Conversation D)
  pub secrets : SecretStore

-- `history.pop()`
unfoldable pub pop_last : {A : Type 0} → List A → Option (A × List A)
pop_last [] = none
pop_last (x ∷ xs) = elim (pop_last xs) [ none ↦ some (x, []) | some (y, ys) ↦ some (y, x ∷ ys) ]

module _ {D : Type 0} where
  abbrev pub belongs : ℕ → Conversation D → Bool
  belongs user_id i = i.user_id == user_id

  -- The conversation and its secrets go.
  abbrev pub forget : ℕ → FsmStore D → FsmStore D
  forget user_id s = record s {
    states = keep (λ i. not (belongs user_id i)) s.states;
    secrets = Secrets.clear user_id s.secrets;
  }

  abbrev pub has_expired : ℕ → Conversation D → Bool
  has_expired now i = leb i.expires_at now

  -- get
  abbrev pub get_from :
      ℕ → ℕ → Option (Conversation D) → FsmStore D → Option (Conversation D) × FsmStore D
  get_from user_id now none s = (none, s)
  get_from user_id now (some i) s =
      if has_expired now i then (none, forget user_id s) else (some i, s)

  unfoldable pub get : ℕ → ℕ → FsmStore D → Option (Conversation D) × FsmStore D
  get user_id now s = get_from user_id now (find (belongs user_id) s.states) s

  -- set
  unfoldable pub set : ℕ → State → D → ℕ → FsmStore D → Conversation D × FsmStore D
  set user_id state values now s =
      let item : Conversation D = record {
        user_id = user_id;
        state = state;
        expires_at = now + s.timeout;
        values = values;
        option_ids = [];
        invalid_inputs = 0;
        history = [];
      } in
      (
        item,
        record s {
          states = keep (λ i. not (belongs user_id i)) s.states ++ item ∷ [];
          secrets = Secrets.clear user_id s.secrets;
        },
      )

  abbrev pub advance : State → State → ℕ → Conversation D → Conversation D
  advance expected new until i = record i {
    state = new;
    expires_at = until;
    invalid_inputs = 0;
    history = i.history ++ expected ∷ [];
  }

  -- transition
  abbrev pub transition_from :
      ℕ
      → State
      → State
      → (ℕ → ℕ)
      → Option (Conversation D)
      → FsmStore D
      → Outcome (Conversation D) × FsmStore D
  transition_from user_id expected new c none s = (raises (value_error "invalid FSM transition"), s)
  transition_from user_id expected new c (some i) s =
      if not (state_eq i.state expected) || has_expired (c 0) i
      then (
        raises (value_error "invalid FSM transition"),
        if has_expired (c 1) i then forget user_id s else s,
      )
      else (
        returns (advance expected new (c 2 + s.timeout) i),
        record s {
          states = update (belongs user_id) (advance expected new (c 2 + s.timeout)) s.states;
          secrets = touch user_id (c 3) s.secrets;
        },
      )

  unfoldable pub transition :
      ℕ → State → State → (ℕ → ℕ) → FsmStore D → Outcome (Conversation D) × FsmStore D
  transition user_id expected new c s =
      transition_from user_id expected new c (find (belongs user_id) s.states) s

  abbrev pub retreat : State → List State → ℕ → Conversation D → Conversation D
  retreat previous earlier until i = record i {
    state = previous;
    expires_at = until;
    invalid_inputs = 0;
    history = earlier;
  }

  abbrev pub back_to :
      ℕ
      → (ℕ → ℕ)
      → Conversation D
      → Option (State × List State)
      → FsmStore D
      → Option (Conversation D) × FsmStore D
  back_to user_id c i none s = (none, s)
  back_to user_id c i (some (previous, earlier)) s = (
    some (retreat previous earlier (c 1 + s.timeout) i),
    record s {
      states = update (belongs user_id) (retreat previous earlier (c 1 + s.timeout)) s.states;
      secrets = touch user_id (c 2) s.secrets;
    },
  )

  -- back
  abbrev pub back_from :
      ℕ → (ℕ → ℕ) → Option (Conversation D) → FsmStore D → Option (Conversation D) × FsmStore D
  back_from user_id c none s = (none, s)
  back_from user_id c (some i) s =
      if has_expired (c 0) i
      then (none, forget user_id s)
      else back_to user_id c i (pop_last i.history) s

  unfoldable pub back : ℕ → (ℕ → ℕ) → FsmStore D → Option (Conversation D) × FsmStore D
  back user_id c s = back_from user_id c (find (belongs user_id) s.states) s

  abbrev pub blame : ℕ → Conversation D → Conversation D
  blame until i = record i { invalid_inputs = i.invalid_inputs + 1; expires_at = until }

  -- invalid
  abbrev pub invalid_from : ℕ → (ℕ → ℕ) → Option (Conversation D) → FsmStore D → Bool × FsmStore D
  invalid_from user_id c none s = (false, s)
  invalid_from user_id c (some i) s =
      if leb s.invalid_limit (i.invalid_inputs + 1) then (true, forget user_id s) else (
        false,
        record s {
          states = update (belongs user_id) (blame (c 0 + s.timeout)) s.states;
          secrets = touch user_id (c 1) s.secrets;
        },
      )

  unfoldable pub invalid : ℕ → (ℕ → ℕ) → FsmStore D → Bool × FsmStore D
  invalid user_id c s = invalid_from user_id c (find (belongs user_id) s.states) s

  -- clear
  unfoldable pub clear : ℕ → FsmStore D → FsmStore D
  clear user_id s = forget user_id s

  -- The users of the expired conversations, each forgotten.
  unfoldable pub forget_all : List (Conversation D) → FsmStore D → FsmStore D
  forget_all [] s = s
  forget_all (i ∷ rest) s = forget_all rest (forget i.user_id s)

  -- prune_expired
  unfoldable pub prune_expired : (ℕ → ℕ) → FsmStore D → ℕ × FsmStore D
  prune_expired c s =
      let kept = forget_all (keep (has_expired (c 0)) s.states) s in
      (
        count (has_expired (c 0)) s.states,
        record kept { secrets = (Secrets.prune_expired (c 1) kept.secrets).1 },
      )

  -- clear_all
  unfoldable pub clear_all : FsmStore D → FsmStore D
  clear_all s = record s { states = []; secrets = Secrets.clear_all s.secrets }
