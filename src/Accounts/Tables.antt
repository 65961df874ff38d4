-- ===== src/Accounts/Tables.antt =====
-- `AdminService` of src/application/admin_service.py, with the repositories that it calls
-- (src/infrastructure/repositories/users.py, `AccessRepository` of backup_profiles.py) and
-- src/application/validation.py.
--
-- A Python set is a list without repeats; the order in which a set is walked is the list's. `strip`
-- is `str.strip`, a parameter. An operation that raises before its commit leaves the tables.
use backup_telebot.Prelude.{
  ℕ, suc, ◌^◌, ◌-◌, String, Bool, true, ◌&&◌, ◌||◌, not, Option, none, some, List, [], ◌∷◌, ◌++◌,
  ltb, leb, ◌==◌, is_none, is_some, if◌then◌else◌, length, any, count, find, keep, update,
}
use backup_telebot.Domain.{Role, is_superadmin, is_admin}
use backup_telebot.Store.{
  permission_error, not_found, value_error, Outcome, returns, raises, Details, no_details,
  about_admin, AuditEvent,
}

pub record Account : Type 0 where
  pub id : ℕ
  pub telegram_user_id : ℕ
  pub display_name : String
  pub role : Role
  pub language_code : String
  pub enabled : Bool
  pub created_by : Option ℕ
  pub deleted_at : Option ℕ

pub record Access : Type 0 where
  pub admin_id : ℕ
  pub backup_profile_id : ℕ
  pub created_by : ℕ

pub record ProfileRow : Type 0 where
  pub id : ℕ
  pub archived_at : Option ℕ

pub record Tables : Type 0 where
  pub next_id : ℕ
  pub users : List Account
  pub access : List Access
  pub profiles : List ProfileRow
  pub audit : List AuditEvent

abbrev pub Result : Type 0 → Type 0
Result A = Outcome A × Tables

-- require_superadmin passes.
abbrev pub is_manager : Account → Bool
is_manager actor = is_superadmin actor.role && (actor.enabled && is_none actor.deleted_at)

abbrev pub record_audit : String → ℕ → String → ℕ → Details → Tables → Tables
record_audit event_type actor_id target_type target_id details t = record t {
  audit =
      t.audit
      ++ record {
        event_type = event_type;
        actor_id = some actor_id;
        target_type = target_type;
        target_id = target_id;
        details = details;
      }
        ∷ [];
}

abbrev pub has_user_id : ℕ → Account → Bool
has_user_id i u = u.id == i

-- _admin_target
abbrev pub target_of : Option Account → Outcome Account
target_of none = raises (not_found "admin not found")
target_of (some admin) =
    if is_some admin.deleted_at
    then raises (not_found "admin not found")
    else if not (is_admin admin.role)
    then raises (value_error "normal admin management cannot target SUPERADMIN")
    else returns admin

unfoldable pub admin_target : ℕ → Tables → Outcome Account
admin_target admin_id t = target_of (find (has_user_id admin_id) t.users)

-- An operation on a target, for a superadmin.
abbrev pub on_target : {A : Type 0} → Outcome Account → Tables → (Account → Result A) → Result A
on_target (raises e) t f = (raises e, t)
on_target (returns admin) t f = f admin

abbrev pub managed : {A : Type 0} → Account → Tables → Result A → Result A
managed actor t r = if is_manager actor then r else (raises permission_error, t)

-- validate_telegram_id
unfoldable pub validate_telegram_id : ℕ → Outcome ℕ
validate_telegram_id value =
    if (value == 0) || ltb (2 ^ 63 - 1) value
    then raises (value_error "Telegram ID must be a positive 64-bit integer")
    else returns value

unfoldable pub text_length : String → ℕ
text_length String.[] = 0
text_length (String.◌∷◌ c s) = suc (text_length s)

-- validate_name
unfoldable pub validate_name : (String → String) → String → Outcome String
unfolding text_length
validate_name strip value =
    let clean = strip value in
    if leb 1 (text_length clean) && leb (text_length clean) 200
    then returns clean
    else raises (value_error "display name must contain 1 to 200 characters")

abbrev pub holds : List ℕ → ℕ → Bool
holds ids i = any (λ j. j == i) ids

-- _validate_profiles passes.
unfoldable pub are_profiles : List ℕ → Tables → Bool
are_profiles profile_ids t =
    count (λ (p : ProfileRow). holds profile_ids p.id && is_none p.archived_at) t.profiles
    == length profile_ids

abbrev grant : ℕ → ℕ → ℕ → Access
grant actor_id admin_id profile_id = record {
  admin_id = admin_id;
  backup_profile_id = profile_id;
  created_by = actor_id;
}

grants_to : ℕ → ℕ → List ℕ → List Access
grants_to actor_id admin_id [] = []
grants_to actor_id admin_id (p ∷ rest) =
    grant actor_id admin_id p ∷ grants_to actor_id admin_id rest

-- AccessRepository.replace
unfoldable pub replace : ℕ → List ℕ → ℕ → Tables → Tables
unfolding grants_to
replace admin_id profile_ids actor_id t = record t {
  access =
      keep (λ (a : Access). not (a.admin_id == admin_id)) t.access
      ++ grants_to actor_id admin_id profile_ids;
}

grants_of : ℕ → ℕ → List ℕ → List Access
grants_of actor_id profile_id [] = []
grants_of actor_id profile_id (i ∷ rest) =
    grant actor_id i profile_id ∷ grants_of actor_id profile_id rest

-- AccessRepository.replace_for_profile
unfoldable pub replace_for_profile : ℕ → List ℕ → ℕ → Tables → Tables
unfolding grants_of
replace_for_profile profile_id admin_ids actor_id t = record t {
  access =
      keep (λ (a : Access). not (a.backup_profile_id == profile_id)) t.access
      ++ grants_of actor_id profile_id admin_ids;
}

-- The ids of the access rows that pass a test.
unfoldable pub ids_of : (Access → Bool) → (Access → ℕ) → List Access → List ℕ
ids_of p id [] = []
ids_of p id (a ∷ rest) = let more = ids_of p id rest in if p a then id a ∷ more else more

abbrev pub minus : List ℕ → List ℕ → List ℕ
minus xs ys = keep (λ x. not (holds ys x)) xs

-- _access_event, for each id
unfoldable pub access_events : String → ℕ → List (ℕ × ℕ) → Tables → Tables
access_events event actor_id [] t = t
access_events event actor_id ((profile_id, admin_id) ∷ rest) t =
    access_events event actor_id rest
      (record_audit event actor_id "backup" profile_id (about_admin admin_id) t)

pairs_with_admin : ℕ → List ℕ → List (ℕ × ℕ)
pairs_with_admin admin_id [] = []
pairs_with_admin admin_id (p ∷ rest) = (p, admin_id) ∷ pairs_with_admin admin_id rest

-- _audit_access
unfoldable pub audit_access : ℕ → List ℕ → List ℕ → ℕ → Tables → Tables
unfolding pairs_with_admin
audit_access actor_id granted revoked admin_id t =
    access_events "backup_access_revoked" actor_id (pairs_with_admin admin_id revoked)
      (access_events "backup_access_granted" actor_id (pairs_with_admin admin_id granted) t)

abbrev pub change : ℕ → (Account → Account) → Tables → Tables
change i f t = record t { users = update (has_user_id i) f t.users }

-- _edited
abbrev pub edited : Account → Account → Tables → Tables
edited actor admin t = record_audit "admin_edited" actor.id "admin" admin.id no_details t

abbrev pub new_account : ℕ → ℕ → String → ℕ → String → Account
new_account id telegram_id name actor_id language_code = record {
  id = id;
  telegram_user_id = telegram_id;
  display_name = name;
  role = Role.admin;
  language_code = language_code;
  enabled = true;
  created_by = some actor_id;
  deleted_at = none;
}

abbrev pub has_telegram_id : ℕ → Account → Bool
has_telegram_id telegram_id u = u.telegram_user_id == telegram_id
