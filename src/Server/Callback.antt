-- ===== src/Server/Callback.antt =====
-- server/ChatClientCallbackInd.h and server/ChatClientCallbackWrapper.h: the client of a session as
-- the server calls it.
use sepm_group.Prelude.{List, [], Text}
use sepm_group.Prelude.Effects.{Eff, pure}
use sepm_group.SdcHelper.{ByteSeq}
use sepm_group.Sdc.{User, Exception}
use sepm_group.Server.Runtime.{Runtime}

-- The derived class, which hands every call on to a proxy.
pub record ChatClientCallbackWrapper (R : Runtime) : Type 0 where
  pub proxy : R.CallbackPrx

-- An object of the base class, or one of the derived class.
pub data ChatClientCallbackInd (R : Runtime) : Type 0 where
  chat_client_callback_ind : ChatClientCallbackInd R
  chat_client_callback_wrapper : ChatClientCallbackWrapper R → ChatClientCallbackInd R

-- The virtual methods, by the class of the object.
module _ (R : Runtime) where
  abbrev pub Method : Type 0 → Type 0
  Method A = Eff R.State Exception A

  unfoldable pub init_chat :
      ChatClientCallbackInd R → List Text → Text → ByteSeq → Method (Unit {0})
  init_chat chat_client_callback_ind users chat key = pure tt
  init_chat (chat_client_callback_wrapper self) users chat key =
      R.init_chat self.proxy users chat key

  unfoldable pub add_chat_participant : ChatClientCallbackInd R → User → Text → Method (Unit {0})
  add_chat_participant chat_client_callback_ind user chat = pure tt
  add_chat_participant (chat_client_callback_wrapper self) user chat =
      R.add_chat_participant self.proxy user chat

  unfoldable pub remove_chat_participant : ChatClientCallbackInd R → User → Text → Method (Unit {0})
  remove_chat_participant chat_client_callback_ind user chat = pure tt
  remove_chat_participant (chat_client_callback_wrapper self) user chat =
      R.remove_chat_participant self.proxy user chat

  unfoldable pub append_message_to_chat :
      ChatClientCallbackInd R → ByteSeq → Text → User → Method (Unit {0})
  append_message_to_chat chat_client_callback_ind msg chat sender = pure tt
  append_message_to_chat (chat_client_callback_wrapper self) msg chat sender =
      R.append_message_to_chat self.proxy msg chat sender

  unfoldable pub echo : ChatClientCallbackInd R → Text → Method Text
  echo chat_client_callback_ind s = pure []
  echo (chat_client_callback_wrapper self) s = R.echo self.proxy s
