-- ===== src/Tests/Memory.antt =====
-- What the bot keeps in memory (src/presentation/telegram/runtime).
use backup_telebot.Prelude.{
  ℕ, ◌≤◌, ◌<◌, ◌≡◌, inl, refl, none, some, List, [], ◌∷◌, arith, count, find,
}
use backup_telebot.Store.{returns, raises, value_error}
use backup_telebot.Runtime.State.{State}
use backup_telebot.Runtime.RateLimit.{RateLimiter}
use backup_telebot.Runtime.RateLimit.Window.{granted, is_recent, allow_limit}
use backup_telebot.Runtime.Callbacks.{
  CallbackStore, CallbackAction, issue, resolve, resolve_detailed,
}
use backup_telebot.Runtime.Callbacks.Once.{resolve_once, resolve-issue}
use backup_telebot.Runtime.Secrets
use backup_telebot.Runtime.Secrets.{Cipher, Secret, SecretStore}
use backup_telebot.Runtime.Secrets.Trip.{IsCipher, take-put}
use backup_telebot.Runtime.Conversations.{Conversation, FsmStore, transition, back, belongs}
use backup_telebot.Runtime.Conversations.Leftovers.{gets, apply, IsCovered, apply-IsCovered}
use backup_telebot.Runtime.Conversations.Undo.{back-transition}

abbrev limiter : RateLimiter
limiter = record { per_user = 2; global_limit = 9; minute = 60; users = []; events = [] }

abbrev requests : List (ℕ × ℕ)
requests = (5, 1) ∷ (5, 2) ∷ (6, 3) ∷ (5, 4) ∷ []

allow_limit_example : count (is_recent 60 10) (granted 5 requests limiter) ≤ 2
allow_limit_example =
    allow_limit 5 requests 0 10 limiter refl
      (omega arith, (omega arith, (omega arith, (omega arith, tt)))) (omega arith)

abbrev button : CallbackAction
button = record {
  token = "t1";
  actor_id = 5;
  action = "run_cancel";
  target_id = 3;
  expires_at = 100;
}

abbrev buttons : CallbackStore
buttons = record { timeout = 60; items = button ∷ [] }

button_works : (resolve 5 (some ("v1", "t1")) 50 buttons).0 ≡ some button
unfolding resolve resolve_detailed find
button_works = refl

resolve_once_example :
    (button.actor_id ≡ 5)
    × (50 < button.expires_at)
    × ((other later : ℕ)
        → (resolve other (some ("v1", "t1")) later (resolve 5 (some ("v1", "t1")) 50 buttons).1).0
          ≡ none)
resolve_once_example = resolve_once 5 "t1" 50 buttons button button_works

resolve-issue_example :
    let r = issue 5 "run_retry" 4 "t2" 30 buttons in
    ((i : CallbackAction) × ((resolve 5 (some r.0) 70 r.1).0 ≡ some i)
      × (i.action ≡ "run_retry")
      × (i.target_id ≡ 4))
    × (resolve 6 (some r.0) 70 r.1 ≡ (none, r.1))
resolve-issue_example =
    resolve-issue 5 "run_retry" 4 "t2" 30 buttons 70 6 (omega arith) (λ e. omega (arith, e))

abbrev plain : Cipher
plain = record { encrypt = λ n c m. m; decrypt = λ n c m. some m; context = λ u n. n }

plain-IsCipher : IsCipher plain
plain-IsCipher = record { undoes = λ n c m. refl }

abbrev secrets : SecretStore
secrets = record { timeout = 60; items = [] }

take-put_example :
    let kept = (Secrets.put plain 5 "password" "hunter2" "n" 10 secrets).1 in
    let r = Secrets.take plain 5 "password" 20 kept in
    (r.0 ≡ returns "hunter2")
    × (Secrets.get plain 5 "password" 20 kept ≡ (returns "hunter2", kept))
    × ((t : ℕ)
        → Secrets.get plain 5 "password" t r.1
          ≡ (raises (value_error "conversation secret is unavailable or expired"), r.1))
    × ((t : ℕ)
        → Secrets.take plain 5 "password" t r.1
          ≡ (raises (value_error "conversation secret is unavailable or expired"), r.1))
take-put_example =
    take-put plain plain-IsCipher 5 "password" "hunter2" "n" 10 20 secrets refl (omega arith)

abbrev conversation : Conversation ℕ
conversation = record {
  user_id = 5;
  state = State.add_backup_name;
  expires_at = 100;
  values = 0;
  option_ids = [];
  invalid_inputs = 1;
  history = [];
}

abbrev secret : Secret
secret = record { user_id = 5; name = "password"; nonce = "n"; ciphertext = "c"; expires_at = 100 }

abbrev store : FsmStore ℕ
store = record {
  timeout = 60;
  invalid_limit = 3;
  states = conversation ∷ [];
  secrets = record { timeout = 60; items = secret ∷ [] };
}

store-IsCovered : IsCovered 5 store
unfolding count
store-IsCovered = inl (omega arith)

apply-IsCovered_example : IsCovered 5 (apply (gets 5 200) store)
apply-IsCovered_example = apply-IsCovered 5 (gets 5 200) store store-IsCovered

conversation_found : find (belongs 5) store.states ≡ some conversation
unfolding find
conversation_found = refl

back-transition_example :
    (j : Conversation ℕ) × ((back 5
        (λ k. 40)
        (transition 5 State.add_backup_name State.add_backup_description (λ k. 30) store).1).0
      ≡ some j)
    × (j.state ≡ State.add_backup_name)
    × (j.history ≡ [])
    × (j.values ≡ 0)
    × (j.user_id ≡ 5)
back-transition_example =
    back-transition 5 State.add_backup_description (λ k. 30) (λ k. 40) store conversation
      conversation_found (omega arith) (omega arith)
