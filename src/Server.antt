-- ===== src/Server.antt =====
-- What the two servants of the server share: server/IceServerI.h, the interface that
-- server/IceServer.cpp implements, the state of server/SessionImpl.h, and the state of the world
-- that a call sees. Ice and the clients behind their callbacks are not part of the repository, so
-- `IceServerI` is a parameter, as it is for the servants in the source.
pub mod Authentication
pub mod Session
pub mod Outcome
pub mod Steps
pub mod System
pub mod Race
pub mod Interleaving
pub mod Throws
pub mod Lifecycle
pub mod Runtime
pub mod DbPool
pub mod Callback
pub mod IceServer
pub mod Main
use sepm_group.Prelude.{
  ◌≡◌, ◌⊎◌, Bool, true, false, Option, none, some, List, [], ◌∷◌, ◌++◌, Text, if◌then◌else◌,
}
use sepm_group.Prelude.Effects.{Eff, Result, ok, err, throw, pure}
use sepm_group.SdcHelper.{is_valid_id, get_name_from_id}
use sepm_group.Sdc.{User, Exception, sdc, SdcException, undefined}
use sepm_group.Database.{Soci}
use sepm_group.Logging.{Severity}

-- The members of SessionImpl; the pool is the database of the world.
pub record SessionImpl : Type 0 where
  pub logged_in : Bool
  pub user : User

pub session_impl : User → SessionImpl
session_impl u = record { logged_in = true; user = u }

pub record IceServerI : Type 1 where
  -- The object adapter, the connections and whatever the clients keep.
  pub State : Type 0
  pub Callback : Type 0
  pub Proxy : Type 0
  -- `cur.con`
  pub Connection : Type 0
  -- `callbackForID(callbackID, cur.con)`
  pub callback_for_id : Text × Connection → Eff State Exception Callback
  -- `callback->echo(s)`, a call of the client
  pub echo : Callback → Text → Eff State Exception Text
  -- `exposeObject` of a new session
  pub expose_object : SessionImpl → Eff State Exception Proxy
  -- `SessionIPrx::checkedCast`
  pub checked_cast : Proxy → Eff State Exception Proxy
  -- The sessions that clients can call, in the order of their exposure.
  pub exposed : State → List SessionImpl

-- The identity of a client's callback, and the connection of its call.
abbrev pub Client : IceServerI → Type 0
Client I = Text × I.Connection

-- Only `exposeObject` adds a session: its own where it returns, and that or none where it throws.
pub record IsLawful (I : IceServerI) : Type 0 where
  pub exposed-callback_for_id :
      (s : I.State) (id : Client I) → I.exposed (I.callback_for_id id s).1 ≡ I.exposed s
  pub exposed-echo :
      (s : I.State) (c : I.Callback) (t : Text) → I.exposed (I.echo c t s).1 ≡ I.exposed s
  pub exposed-expose_object :
      (s : I.State) (x : SessionImpl) (p : I.Proxy)
      → (I.expose_object x s).0 ≡ ok p
      → I.exposed (I.expose_object x s).1 ≡ I.exposed s ++ (x ∷ [])
  pub exposed-expose_object_failed :
      (s : I.State) (x : SessionImpl) (e : Exception)
      → (I.expose_object x s).0 ≡ err e
      → (I.exposed (I.expose_object x s).1 ≡ I.exposed s)
        ⊎ (I.exposed (I.expose_object x s).1 ≡ I.exposed s ++ (x ∷ []))
  pub exposed-checked_cast :
      (s : I.State) (p : I.Proxy) → I.exposed (I.checked_cast p s).1 ≡ I.exposed s

-- "Be conservative in what you send, be liberal in what you accept"
unfoldable pub account_name : Text → Text
account_name id = if is_valid_id id then get_name_from_id id else id

-- `boost::optional<string>::is_initialized`
abbrev pub is_initialized : Option Text → Bool
is_initialized none = false
is_initialized (some _) = true

pub record World (S : Soci) (I : IceServerI) : Type 0 where
  pub db : S.Db
  pub ice : I.State
  -- What the code has handed to the logger, oldest first.
  pub log : List (Severity × Text)

module _ {S : Soci} {I : IceServerI} where
  abbrev pub on_db : {A : Type 0} → Eff S.Db Exception A → Eff (World S I) Exception A
  on_db m w = ((m w.db).0, record w { db = (m w.db).1 })

  abbrev pub on_ice : {A : Type 0} → Eff I.State Exception A → Eff (World S I) Exception A
  on_ice m w = ((m w.ice).0, record w { ice = (m w.ice).1 })

  -- `INFO(…)`
  abbrev pub info : Text → Eff (World S I) Exception (Unit {0})
  info message w = (ok tt, record w { log = w.log ++ ((Severity.lvl_info, message) ∷ []) })

  -- `if(test) throw e(what)`
  abbrev pub throw_if : Bool → SdcException → Text → Eff (World S I) Exception (Unit {0})
  throw_if true e what = throw (sdc e what)
  throw_if false e what = pure tt

  -- `boost::optional<string>::get`, undefined on an empty one
  abbrev pub get : Option Text → Eff (World S I) Exception Text
  get none = throw undefined
  get (some t) = pure t
