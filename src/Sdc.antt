-- ===== src/Sdc.antt =====
-- ice/SecureDistributedChat.ice: the data types and the exceptions of the Slice module `sdc`, which
-- every component shares, and the exceptions of the other libraries that the code lets pass.
use sepm_group.Prelude.{ℕ, ◌≡◌, Option, none, some, Text}
use sepm_group.SdcHelper.{ByteSeq}

-- `const int port`
abbrev pub port : ℕ
port = 1337

pub record User : Type 0 where
  pub id : Text
  pub public_key : ByteSeq

-- A Slice `long`.
pub data ℤ : Type 0 where
  pos : ℕ → ℤ
  negsuc : ℕ → ℤ

pub record LogMessage : Type 0 where
  pub sender_id : Text
  pub timestamp : ℤ
  pub message : Text

pub record ChatlogEntry : Type 0 where
  pub chat_id : Text
  pub timestamp : ℤ

pub record SecureContainer : Type 0 where
  pub content : ByteSeq
  pub signature : ByteSeq

-- The exception types, in the order of the file.
pub data SdcException : Type 0 where
  base authentication session user_handling message log contact : SdcException
  chat_client_callback chat participation message_callback inter_server : SdcException

-- `extends`
pub parent : SdcException → Option SdcException
parent base = none
parent authentication = some base
parent session = some base
parent user_handling = some session
parent message = some session
parent log = some session
parent contact = some session
parent chat_client_callback = some base
parent chat = some chat_client_callback
parent participation = some chat_client_callback
parent message_callback = some chat_client_callback
parent inter_server = some base

-- A handler for a type catches the type and its descendants.
pub data Catches (h : SdcException) : SdcException → Type 0 where
  same_type : Catches h h
  inherited : {e p : SdcException} → parent e ≡ some p → Catches h p → Catches h e

-- Everything that a call of the program may throw. `undefined` is undefined behaviour.
pub data Exception : Type 0 where
  sdc : SdcException → Text → Exception
  soci_error ice_exception : Text → Exception
  security_exception watch_exception plugin_exception : Text → Exception
  -- of boost's program options, and of an empty `std::function`
  option_error : Text → Exception
  -- `std::out_of_range` of a vector
  out_of_range : Exception
  bad_function_call undefined : Exception
  -- The end of the process by `std::terminate`.
  terminated : Exception
