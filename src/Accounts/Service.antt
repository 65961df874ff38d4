-- ===== src/Accounts/Service.antt =====
-- The operations of `AdminService` of src/application/admin_service.py, on the tables of Tables.
use backup_telebot.Prelude.{
  ℕ, suc, String, Bool, true, false, ◌&&◌, ◌||◌, not, Option, none, some, List, [], ◌∷◌, ◌++◌, ◌==◌,
  is_none, is_some, if◌then◌else◌, length, any, count, keep,
}
use backup_telebot.Domain.{is_admin}
use backup_telebot.Store.{
  permission_error, not_found, value_error, conflict_error, Outcome, returns, raises, no_details,
  language,
}
use backup_telebot.Accounts.Tables.{
  Account, Access, ProfileRow, Tables, Result, record_audit, has_user_id, admin_target, on_target,
  managed, validate_telegram_id, validate_name, holds, are_profiles, replace, replace_for_profile,
  ids_of, minus, access_events, audit_access, change, edited, new_account, has_telegram_id,
}

pairs_with_profile : ℕ → List ℕ → List (ℕ × ℕ)
pairs_with_profile profile_id [] = []
pairs_with_profile profile_id (i ∷ rest) = (profile_id, i) ∷ pairs_with_profile profile_id rest

unfoldable pub insert_admin : Account → ℕ → String → List ℕ → String → Tables → Result Account
insert_admin actor telegram_id name profile_ids language_code t =
    if any (has_telegram_id telegram_id) t.users
    then (raises (conflict_error "Telegram ID already exists"), t)
    else (
      returns (new_account t.next_id telegram_id name actor.id language_code),
      record_audit "admin_created" actor.id "admin" t.next_id no_details (
          replace t.next_id profile_ids actor.id (record t {
            next_id = suc t.next_id;
            users = t.users ++ new_account t.next_id telegram_id name actor.id language_code ∷ [];
          })),
    )

unfoldable pub checked : {A B : Type 0} → Outcome A → Tables → (A → Result B) → Result B
checked (raises e) t f = (raises e, t)
checked (returns a) t f = f a

-- create_admin; `UserRepository.create` strips the name once more.
unfoldable pub create_admin :
    (String → String) → Account → ℕ → String → List ℕ → String → Tables → Result Account
unfolding insert_admin checked
create_admin strip actor telegram_id display_name profile_ids language_code t = managed actor t (
    if not (are_profiles profile_ids t)
    then (raises (not_found "one or more backup profiles do not exist"), t)
    else checked (validate_telegram_id telegram_id) t (λ id.
      checked (validate_name strip display_name) t
        (λ name. insert_admin actor id (strip name) profile_ids language_code t)))

-- rename
unfoldable pub rename : (String → String) → Account → ℕ → String → Tables → Result (Unit {0})
unfolding checked
rename strip actor admin_id name t = managed actor t (
    on_target (admin_target admin_id t) t (λ admin. checked (validate_name strip name) t (λ clean. (
      returns tt,
      edited actor admin (change admin.id (λ u. record u { display_name = clean }) t),
    ))))

-- The row takes the Telegram id, unless another row has it.
unfoldable pub set_telegram_id : Account → Account → ℕ → Tables → Result (Unit {0})
set_telegram_id actor admin telegram_id t =
    if any (λ u. has_telegram_id telegram_id u && not (has_user_id admin.id u)) t.users
    then (raises (conflict_error "Telegram ID already exists"), t)
    else (
      returns tt,
      edited actor admin (change admin.id (λ u. record u { telegram_user_id = telegram_id }) t),
    )

-- change_telegram_id
unfoldable pub change_telegram_id : Account → ℕ → ℕ → Tables → Result (Unit {0})
unfolding checked set_telegram_id
change_telegram_id actor admin_id telegram_id t = managed actor t (
    on_target (admin_target admin_id t) t (λ admin.
      checked (validate_telegram_id telegram_id) t (λ id. set_telegram_id actor admin id t)))

abbrev enabled_event : Bool → String
enabled_event true = "admin_enabled"
enabled_event false = "admin_disabled"

-- set_enabled
unfoldable pub set_enabled : Account → ℕ → Bool → Tables → Result (Unit {0})
set_enabled actor admin_id on t = managed actor t (
    on_target (admin_target admin_id t) t (λ admin. (
      returns tt,
      record_audit (enabled_event on) actor.id "admin" admin.id no_details
          (change admin.id (λ u. record u { enabled = on }) t),
    )))

-- delete
unfoldable pub delete : Account → ℕ → ℕ → Tables → Result (Unit {0})
delete actor admin_id now t = managed actor t (
    on_target (admin_target admin_id t) t (λ admin. (
      returns tt,
      record_audit "admin_deleted" actor.id "admin" admin.id no_details (
          let gone = change admin.id (λ u. record u { enabled = false; deleted_at = some now }) t in
          record gone { access = keep (λ (a : Access). not (a.admin_id == admin.id)) gone.access }),
    )))

unfoldable pub assign_to : Account → Account → List ℕ → Tables → Result (Unit {0})
assign_to actor admin profile_ids t =
    if not (length profile_ids == 0) && not admin.enabled
    then (raises (value_error "disabled admins cannot receive backup assignments"), t)
    else if not (are_profiles profile_ids t)
    then (raises (not_found "one or more backup profiles do not exist"), t)
    else let previous = ids_of (λ a. a.admin_id == admin.id) (λ a. a.backup_profile_id) t.access in
      (
        returns tt,
        audit_access actor.id (minus profile_ids previous) (minus previous profile_ids) admin.id
            (replace admin.id profile_ids actor.id t),
      )

-- assign
unfoldable pub assign : Account → ℕ → List ℕ → Tables → Result (Unit {0})
unfolding assign_to
assign actor admin_id profile_ids t =
    managed actor t
      (on_target (admin_target admin_id t) t (λ admin. assign_to actor admin profile_ids t))

-- The admins of `admin_ids` that may be assigned.
abbrev pub is_assignable : List ℕ → Account → Bool
is_assignable admin_ids u =
    holds admin_ids u.id && (is_admin u.role && (u.enabled && is_none u.deleted_at))

-- assign_admins
unfoldable pub assign_admins : Account → ℕ → List ℕ → Tables → Result (Unit {0})
unfolding pairs_with_profile
assign_admins actor profile_id admin_ids t = managed actor t (
    if not (any (λ (p : ProfileRow). (p.id == profile_id) && is_none p.archived_at) t.profiles)
    then (raises (not_found "backup profile not found"), t)
    else if not (length admin_ids == 0)
        && not (count (is_assignable admin_ids) t.users == length admin_ids)
    then (raises (not_found "one or more enabled admins do not exist"), t)
    else let previous =
        ids_of (λ a. a.backup_profile_id == profile_id) (λ a. a.admin_id) t.access in
      (
        returns tt,
        access_events "backup_access_revoked" actor.id
            (pairs_with_profile profile_id (minus previous admin_ids))
            (access_events "backup_access_granted" actor.id
              (pairs_with_profile profile_id (minus admin_ids previous))
              (replace_for_profile profile_id admin_ids actor.id t)),
      ))

unfoldable pub set_language : Account → ℕ → String → Tables → Result (Unit {0})
set_language actor target_id language_code t = (
  returns tt,
  record_audit "language_changed" actor.id "user" target_id (language language_code)
      (change target_id (λ u. record u { language_code = language_code }) t),
)

-- change_language
unfoldable pub change_language : Account → String → Option ℕ → Tables → Result (Unit {0})
unfolding set_language
change_language actor language_code target_id t =
    if not actor.enabled || is_some actor.deleted_at
    then (raises permission_error, t)
    else elim target_id [
      | none ↦ set_language actor actor.id language_code t
      | some i ↦
          if i == actor.id
          then set_language actor actor.id language_code t
          else on_target (admin_target i t) t
              (λ admin. managed actor t (set_language actor admin.id language_code t))
    ]
