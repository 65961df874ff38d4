-- ===== src/Tests/Staff.antt =====
-- Accounts (src/application/admin_service.py).
use backup_telebot.Prelude.{ℕ, ◌≤◌, ◌≡◌, refl, none, some, true, [], ◌∷◌, arith, count}
use backup_telebot.Domain.{Role}
use backup_telebot.Accounts.Tables.{Account, Tables, has_user_id}
use backup_telebot.Accounts.Calls.{deletes, apply}
use backup_telebot.Accounts.Guard.{guarded, apply-guarded, apply-unmanaged}

abbrev chief : Account
chief = record {
  id = 1;
  telegram_user_id = 900;
  display_name = "Chief";
  role = Role.superadmin;
  language_code = "en";
  enabled = true;
  created_by = none;
  deleted_at = none;
}

abbrev helper : Account
helper = record {
  id = 2;
  telegram_user_id = 901;
  display_name = "Helper";
  role = Role.admin;
  language_code = "fa";
  enabled = true;
  created_by = some 1;
  deleted_at = none;
}

abbrev staff : Tables
staff = record { next_id = 3; users = chief ∷ helper ∷ []; access = []; profiles = []; audit = [] }

staff_once : (i : ℕ) → count (has_user_id i) staff.users ≤ 1
unfolding count
staff_once i = ground arith

apply-guarded_example : guarded (apply chief (deletes 2 70) staff).users ≡ guarded staff.users
apply-guarded_example = apply-guarded staff staff_once chief (deletes 2 70)

apply-unmanaged_example : apply helper (deletes 1 70) staff ≡ staff
apply-unmanaged_example = apply-unmanaged helper (deletes 1 70) staff refl refl
