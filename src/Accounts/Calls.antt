-- ===== src/Accounts/Calls.antt =====
-- The operations of src/application/admin_service.py as calls of an actor.
use backup_telebot.Prelude.{ℕ, String, Bool, true, false, Option, none, some, List, ◌==◌}
use backup_telebot.Accounts.Tables.{Account, Tables}
use backup_telebot.Accounts.Service.{
  create_admin, rename, change_telegram_id, set_enabled, delete, assign, assign_admins,
  change_language,
}

-- The operations, as calls of an actor.
pub data Call : Type 0 where
  creates : (String → String) → ℕ → String → List ℕ → String → Call
  renames : (String → String) → ℕ → String → Call
  changes_telegram_id : ℕ → ℕ → Call
  sets_enabled : ℕ → Bool → Call
  deletes : ℕ → ℕ → Call
  assigns : ℕ → List ℕ → Call
  assigns_admins : ℕ → List ℕ → Call
  changes_language : String → Option ℕ → Call

-- The tables after a call.
unfoldable pub apply : Account → Call → Tables → Tables
apply actor (creates strip telegram_id name profile_ids code) t =
    (create_admin strip actor telegram_id name profile_ids code t).1
apply actor (renames strip i name) t = (rename strip actor i name t).1
apply actor (changes_telegram_id i telegram_id) t = (change_telegram_id actor i telegram_id t).1
apply actor (sets_enabled i on) t = (set_enabled actor i on t).1
apply actor (deletes i now) t = (delete actor i now t).1
apply actor (assigns i profile_ids) t = (assign actor i profile_ids t).1
apply actor (assigns_admins profile_id ids) t = (assign_admins actor profile_id ids t).1
apply actor (changes_language code target) t = (change_language actor code target t).1

-- A change of the actor's own language.
abbrev pub is_own : Account → Call → Bool
is_own actor (changes_language code none) = true
is_own actor (changes_language code (some i)) = i == actor.id
is_own actor _ = false
