-- ===== src/Server/IceServer.antt =====
-- server/IceServer.h and server/IceServer.cpp: the server object that the servants know as
-- IceServerI.
pub mod Lawful
pub mod Construction
use sepm_group.Prelude.{true, List, [], ◌∷◌, ◌++◌, Text, codes}
use sepm_group.Prelude.Effects.{Eff, Result, ok, err, ◌>>=◌, ◌>>◌, pure, throw}
use sepm_group.Sdc.{Exception, ice_exception}
use sepm_group.Server.{SessionImpl, IceServerI}
use sepm_group.Server.Runtime.{Runtime, Servant, authentication, session, InitializationData}
use sepm_group.Server.DbPool.{DbPool, prod_pool}
use sepm_group.Server.Callback.{ChatClientCallbackInd, chat_client_callback_wrapper, echo}

-- The members, once the constructor has set them.
pub record IceServer (R : Runtime) : Type 0 where
  pub ic : R.Communicator
  pub oa : R.Adapter
  pub db_pool : DbPool

abbrev pub properties : Text → Text → Text → List (Text × Text)
properties pub_key_path priv_key_path ca_path =
    (codes "Ice.Plugin.IceSSL", codes "IceSSL:createIceSSL")
    ∷ (codes "IceSSL.CertFile", pub_key_path)
    ∷ (codes "IceSSL.KeyFile", priv_key_path)
    ∷ (codes "IceSSL.CertAuthFile", ca_path)
    ∷ (codes "IceSSL.VerifyPeer", codes "1")
    ∷ (codes "Ice.ThreadPool.Client.Size", codes "3")
    ∷ (codes "Ice.ThreadPool.Server.Size", codes "3")
    ∷ (codes "Ice.Override.ConnectTimeout", codes "1000")
    ∷ []

abbrev pub initialization_data : Text → Text → Text → InitializationData
initialization_data pub_key_path priv_key_path ca_path = record {
  properties = properties pub_key_path priv_key_path ca_path;
  thread_hook = true;
}

-- The sessions among the servants.
abbrev pub sessions_of : List (Text × Servant) → List SessionImpl
sessions_of [] = []
sessions_of ((name, authentication) ∷ servants) = sessions_of servants
sessions_of ((name, session x) ∷ servants) = x ∷ sessions_of servants

-- `catch (const Ice::Exception& e) { …; throw; }`
abbrev pub caught :
    {S A : Type 0} → Eff S Exception (Unit {0}) → Result Exception A × S → Result Exception A × S
caught handler (ok a, s) = (ok a, s)
caught handler (err (ice_exception what), s) = (handler >> throw (ice_exception what)) s
caught handler (err e, s) = (err e, s)

module _ (R : Runtime) where
  abbrev Call : Type 0 → Type 0
  Call A = Eff R.State Exception A

  -- The end of the `try` block, when there is a communicator.
  unfoldable pub listen : DbPool → R.Communicator → Call (IceServer R)
  listen db_pool ic = do
    oa ← R.create_object_adapter ic (codes "AuthenticationEndpoint") (codes "ssl -p 1337")
    R.add oa authentication (codes "Authentication")
    R.activate oa
    pure (record { ic = ic; oa = oa; db_pool = db_pool })

  -- The constructor. Before `Ice::initialize` has returned there is nothing to destroy.
  unfoldable pub ice_server : Text → Text → Text → Call (IceServer R)
  ice_server pub_key_path priv_key_path ca_path = do
    db_pool ← prod_pool R
    ic ← R.initialize (initialization_data pub_key_path priv_key_path ca_path)
    λ s. caught (R.destroy ic) (listen db_pool ic s)

  -- The paths that the header gives when the caller names none.
  abbrev pub default_ice_server : Call (IceServer R)
  default_ice_server = ice_server (codes "server.crt") (codes "server.key") (codes "ca.crt")

  module _ (self : IceServer R) where
    -- The destructor leaves the communicator alone.
    unfoldable pub destruct : Call (Unit {0})
    destruct = R.delete_pool

    unfoldable pub expose_object : Servant → Text → Call R.ObjectPrx
    expose_object o name = do proxy ← R.add self.oa o name; R.activate self.oa; pure proxy

    -- With the name that the header gives when the caller names none.
    unfoldable pub expose_unnamed : Servant → Call R.ObjectPrx
    expose_unnamed o = do name ← R.generate_uuid; expose_object o name

    unfoldable pub callback_for_id : R.Connection → Text → Call (ChatClientCallbackInd R)
    callback_for_id con callback_id = do
      callback_proxy ← R.create_proxy con callback_id
      proxy ← R.cast_callback callback_proxy
      pure (chat_client_callback_wrapper (record { proxy = proxy }))

    unfoldable pub wait : Call (Unit {0})
    wait = R.wait_for_shutdown self.ic

    unfoldable pub exit : Call (Unit {0})
    exit = R.shutdown self.ic

    -- What the servants know of the server.
    abbrev pub ice_server_i : IceServerI
    ice_server_i = record {
      State = R.State;
      Callback = ChatClientCallbackInd R;
      Proxy = R.ObjectPrx;
      Connection = R.Connection;
      callback_for_id = λ (id, con). callback_for_id con id;
      echo = echo R;
      expose_object = λ x. expose_unnamed (session x);
      checked_cast = R.cast_session;
      exposed = λ s. sessions_of (R.servants s);
    }
