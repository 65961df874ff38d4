-- ===== src/Delivery/Failure.antt =====
-- `classify_delivery_error` of src/infrastructure/telegram/errors.py.
--
-- The exception classes are those of libraries: an exception is given by the answers to the
-- `isinstance` tests on it and by the attributes that are read.
use backup_telebot.Prelude.{
  ℕ, String, Bool, true, false, ◌&&◌, ◌||◌, Option, none, some, ◌==◌, leb, if◌then◌else◌,
}

pub data DeliveryErrorKind : Type 0 where
  transient permanent flood_wait : DeliveryErrorKind

pub record Failure : Type 0 where
  pub class_name : String
  pub is_flood : Bool  -- FloodError
  pub seconds : Option ℕ  -- its `seconds`, raised to 0
  pub is_proxy : Bool  -- ProxyError
  pub error_code : Option ℕ
  pub is_file : Bool  -- FileNotFoundError, PermissionError
  pub is_invalid_buffer : Bool
  pub is_network : Bool  -- ServerError, TimedOutError, OSError, EOFError, ...
  pub is_runtime : Bool  -- RuntimeError
  pub is_disconnected : Bool  -- one of the two markers stands in its text
  pub is_rpc : Bool  -- RPCError
  pub code : Option ℕ

-- The SOCKS5 replies 1, 3, 4, 5, 6.
abbrev is_temporary_reply : Option ℕ → Bool
is_temporary_reply none = false
is_temporary_reply (some c) = (c == 1) || (leb 3 c && leb c 6)

abbrev is_server_code : Bool → Option ℕ → Bool
is_server_code missing none = missing
is_server_code missing (some c) = leb 500 c

abbrev kind_if : Bool → DeliveryErrorKind × Option ℕ
kind_if true = (transient, none)
kind_if false = (permanent, none)

-- classify_delivery_error
unfoldable pub classify_delivery_error : Failure → DeliveryErrorKind × Option ℕ
classify_delivery_error e =
    if e.is_flood
    then (flood_wait, e.seconds)
    else if e.is_proxy
    then kind_if (is_temporary_reply e.error_code)
    else if e.is_file
    then (permanent, none)
    else if e.is_invalid_buffer
    then kind_if (is_server_code true e.code)
    else if e.is_network
    then (transient, none)
    else if e.is_runtime && e.is_disconnected
    then (transient, none)
    else kind_if (e.is_rpc && is_server_code false e.code)
