-- ===== src/Server/Throws.antt =====
-- The `throws` clauses of ice/SecureDistributedChat.ice, and what the calls of the server may throw.
pub mod Calls
pub mod Runtime
use mathlib.Core.List.{Memᴰ}
use sepm_group.Prelude.{
  ◌≡◌, subst, refl, sym, ap, ◌∙◌, ◌⊎◌, inl, inr, Bool, true, false, Bool-cases, not, Option, none,
  some, List, [], ◌∷◌, ◌++◌, Text, codes, same, arith,
}
use sepm_group.Prelude.Effects.{Result, ok, err, ◌>>=◌, ◌>>◌, bind_cases, bind_result, pure}
use sepm_group.Sdc.{
  User, Exception, SdcException, Catches, same_type, sdc, soci_error, ice_exception, base,
  authentication, session, user_handling, inter_server, message, log, contact,
}
use sepm_group.Database.{Soci, IsLawful, OnlySoci}
use sepm_group.Database.Accounts.{Account, find}
use sepm_group.Database.Laws.{Represents, thrown}
use sepm_group.Server.{
  World, IceServerI, Client, SessionImpl, session_impl, account_name, on_ice, info, throw_if,
}
use sepm_group.Server.Authentication.{echo, key_differs, open_session, login, register_user}
use sepm_group.Server.Authentication.Login.{credentials, Decides, login-Decides}
use sepm_group.Server.Authentication.Register.{register_spec, register_found, register_user-Refines}
use sepm_group.Server.Session.{Self, delete_user}
use sepm_group.Server.Session.Delete.{delete_user-Handled}
use sepm_group.Server.Session.Requests.{
  Request, Response, handle, logs_out, retrieves_user, inits_chat, leaves_chat, invites,
  sends_message, deletes_user, saves_log, retrieves_loglist, retrieves_log, saves_contact_list,
  retrieves_contact_list,
}
use sepm_group.Server.System.{HasAccounts}
use sepm_group.Server.Interleaving.Calls.{
  Call, echoes, registers, logs_in, requests, answered, whole,
}

-- `interface SessionI`
abbrev pub session_throws : Request → List SdcException
session_throws logs_out = user_handling ∷ []
session_throws (retrieves_user _) = user_handling ∷ inter_server ∷ []
session_throws inits_chat = session ∷ []
session_throws (leaves_chat _) = session ∷ inter_server ∷ []
session_throws (invites _ _ _) = user_handling ∷ inter_server ∷ []
session_throws (sends_message _ _) = message ∷ inter_server ∷ []
session_throws (deletes_user _) = user_handling ∷ []
session_throws (saves_log _ _ _) = log ∷ []
session_throws retrieves_loglist = log ∷ []
session_throws (retrieves_log _ _) = log ∷ []
session_throws (saves_contact_list _) = contact ∷ []
session_throws retrieves_contact_list = contact ∷ []

-- `interface AuthenticationI`, and the sessions
abbrev pub throws : {S : Soci} {I : IceServerI} → Call S I → List SdcException
throws (echoes _) = base ∷ []
throws (registers _ _) = authentication ∷ []
throws (logs_in _ _ _) = authentication ∷ []
throws (requests _ q) = session_throws q

-- An exception of the declared types or of types that inherit from them.
abbrev pub Declared : List SdcException → Exception → Type 0
Declared ds x =
    (d : SdcException) × (e : SdcException) × (what : Text) × Memᴰ d ds
    × Catches d e
    × (x ≡ sdc e what)

-- The operation fails, if it does, by an error of the Ice run time.
abbrev pub OnlyIce : {A : Type 0} → Result Exception A → Type 0
OnlyIce (ok a) = Unit {0}
OnlyIce (err e) = (what : Text) × (e ≡ ice_exception what)

-- The server object throws nothing of its own; what a client's callback throws is the client's.
pub record ThrowsOnlyIce (I : IceServerI) : Type 0 where
  pub callback_for_id-throws : (id : Client I) (s : I.State) → OnlyIce (I.callback_for_id id s).0
  pub expose_object-throws : (x : SessionImpl) (s : I.State) → OnlyIce (I.expose_object x s).0
  pub checked_cast-throws : (p : I.Proxy) (s : I.State) → OnlyIce (I.checked_cast p s).0

pub only_ice :
    {A : Type 0} (r : Result Exception A) (e : Exception)
    → OnlyIce r
    → r ≡ err e
    → (what : Text) × (e ≡ ice_exception what)
only_ice (ok a) e t h = absurd (ground (arith, h))
only_ice (err x) e (what, t) h = (what, ground (arith, h, t))

module _ (S : Soci) (I : IceServerI) where
  -- The client's own answer to the test of its callback is an exception.
  abbrev pub ThrownByClient : Client I → I.State → Exception → Type 0
  ThrownByClient client s x =
      (callback : I.Callback) × ((I.callback_for_id client s).0 ≡ ok callback)
      × ((I.echo callback (codes "42") (I.callback_for_id client s).1).0 ≡ err x)

  -- Where the exception of a call comes from.
  pub data Explained (c : Call S I) (w : World S I) (x : Exception) : Type 0 where
    declared : Declared (throws c) x → Explained c w x
    by_database : (what : Text) → x ≡ soci_error what → Explained c w x
    by_ice : (what : Text) → x ≡ ice_exception what → Explained c w x
    by_client :
        (u : User) (pw : Text) (client : Client I)
        → c ≡ logs_in u pw client
        → ThrownByClient client w.ice x
        → Explained c w x
