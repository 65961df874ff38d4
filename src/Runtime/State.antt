-- ===== src/Runtime/State.antt =====
-- `State` of src/presentation/telegram/runtime/fsm.py: the steps of the conversations with the bot.
use backup_telebot.Prelude.{ℕ, Bool, true, ◌≡◌, ◌==◌, refl, ==_iff}

pub data State : Type 0 where
  edit_backup_timezone add_server_name add_server_host add_server_port add_server_username : State
  add_server_private_key add_server_passphrase confirm_server_fingerprint : State
  select_server_edit edit_server_action select_server_delete confirm_server_delete : State
  add_backup_name add_backup_description add_backup_source add_backup_database_engine : State
  add_backup_database_host add_backup_database_port add_backup_database_name : State
  add_backup_database_username add_backup_database_password add_backup_database_tls : State
  add_backup_database_tls_ca add_backup_mssql_docker add_backup_mssql_path : State
  add_backup_mssql_host_path add_backup_mssql_server add_backup_files_location : State
  add_backup_files_server add_backup_files_paths add_backup_gitlab_location : State
  add_backup_gitlab_server add_backup_gitlab_container add_backup_gitlab_remote_path : State
  add_backup_schedule add_backup_interval add_backup_schedule_value add_backup_archive : State
  add_backup_compression add_backup_compression_preset add_backup_encryption : State
  add_backup_encryption_secret add_backup_admins add_backup_confirm add_admin_name : State
  add_admin_id add_admin_language add_admin_confirm add_admin_access select_backup_edit : State
  edit_backup_action edit_backup_name edit_backup_description select_backup_delete : State
  confirm_backup_delete backup_admin_access select_admin_edit edit_admin_action : State
  edit_admin_name edit_admin_telegram_id edit_admin_language edit_admin_access : State
  select_admin_delete confirm_admin_delete : State

-- The members in the order of the class, for the test `is`.
abbrev state_number : State → ℕ
state_number edit_backup_timezone = 0
state_number add_server_name = 1
state_number add_server_host = 2
state_number add_server_port = 3
state_number add_server_username = 4
state_number add_server_private_key = 5
state_number add_server_passphrase = 6
state_number confirm_server_fingerprint = 7
state_number select_server_edit = 8
state_number edit_server_action = 9
state_number select_server_delete = 10
state_number confirm_server_delete = 11
state_number add_backup_name = 12
state_number add_backup_description = 13
state_number add_backup_source = 14
state_number add_backup_database_engine = 15
state_number add_backup_database_host = 16
state_number add_backup_database_port = 17
state_number add_backup_database_name = 18
state_number add_backup_database_username = 19
state_number add_backup_database_password = 20
state_number add_backup_database_tls = 21
state_number add_backup_database_tls_ca = 22
state_number add_backup_mssql_docker = 23
state_number add_backup_mssql_path = 24
state_number add_backup_mssql_host_path = 25
state_number add_backup_mssql_server = 26
state_number add_backup_files_location = 27
state_number add_backup_files_server = 28
state_number add_backup_files_paths = 29
state_number add_backup_gitlab_location = 30
state_number add_backup_gitlab_server = 31
state_number add_backup_gitlab_container = 32
state_number add_backup_gitlab_remote_path = 33
state_number add_backup_schedule = 34
state_number add_backup_interval = 35
state_number add_backup_schedule_value = 36
state_number add_backup_archive = 37
state_number add_backup_compression = 38
state_number add_backup_compression_preset = 39
state_number add_backup_encryption = 40
state_number add_backup_encryption_secret = 41
state_number add_backup_admins = 42
state_number add_backup_confirm = 43
state_number add_admin_name = 44
state_number add_admin_id = 45
state_number add_admin_language = 46
state_number add_admin_confirm = 47
state_number add_admin_access = 48
state_number select_backup_edit = 49
state_number edit_backup_action = 50
state_number edit_backup_name = 51
state_number edit_backup_description = 52
state_number select_backup_delete = 53
state_number confirm_backup_delete = 54
state_number backup_admin_access = 55
state_number select_admin_edit = 56
state_number edit_admin_action = 57
state_number edit_admin_name = 58
state_number edit_admin_telegram_id = 59
state_number edit_admin_language = 60
state_number edit_admin_access = 61
state_number select_admin_delete = 62
state_number confirm_admin_delete = 63

unfoldable pub state_eq : State → State → Bool
state_eq a b = state_number a == state_number b

pub state_eq_self : (a : State) → state_eq a a ≡ true
unfolding state_eq
state_eq_self a = (==_iff (state_number a) (state_number a)).1 refl
