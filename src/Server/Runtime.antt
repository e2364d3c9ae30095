-- ===== src/Server/Runtime.antt =====
-- What the server uses of the Ice run time and of SOCI's pool, which are not part of the repository.
use sepm_group.Prelude.{ℕ, suc, ◌-◌, ◌≡◌, List, [], ◌∷◌, ◌++◌, Bool, Text}
use sepm_group.Prelude.Effects.{Eff, ok, err}
use sepm_group.SdcHelper.{ByteSeq}
use sepm_group.Sdc.{User, Exception}
use sepm_group.Server.{SessionImpl}

-- The objects that the server exposes.
pub data Servant : Type 0 where
  authentication : Servant
  session : SessionImpl → Servant

-- `Ice::InitializationData`, as far as the server sets it
pub record InitializationData : Type 0 where
  pub properties : List (Text × Text)
  -- a `ThreadHook`
  pub thread_hook : Bool

pub record Runtime : Type 1 where
  pub State : Type 0
  pub Communicator : Type 0
  pub Adapter : Type 0
  pub Connection : Type 0
  -- `Ice::ObjectPrx`, also when it is cast to `sdc::SessionIPrx`, and `sdc::ChatClientCallbackIPrx`
  pub ObjectPrx : Type 0
  pub CallbackPrx : Type 0
  -- `Ice::initialize`
  pub initialize : InitializationData → Eff State Exception Communicator
  pub create_object_adapter : Communicator → Text → Text → Eff State Exception Adapter
  pub add : Adapter → Servant → Text → Eff State Exception ObjectPrx
  pub activate : Adapter → Eff State Exception (Unit {0})
  pub destroy : Communicator → Eff State Exception (Unit {0})
  pub shutdown : Communicator → Eff State Exception (Unit {0})
  pub wait_for_shutdown : Communicator → Eff State Exception (Unit {0})
  pub create_proxy : Connection → Text → Eff State Exception ObjectPrx
  pub generate_uuid : Eff State Exception Text
  -- `checkedCast` of the two classes
  pub cast_session : ObjectPrx → Eff State Exception ObjectPrx
  pub cast_callback : ObjectPrx → Eff State Exception CallbackPrx
  -- The calls of a client.
  pub init_chat : CallbackPrx → List Text → Text → ByteSeq → Eff State Exception (Unit {0})
  pub add_chat_participant : CallbackPrx → User → Text → Eff State Exception (Unit {0})
  pub remove_chat_participant : CallbackPrx → User → Text → Eff State Exception (Unit {0})
  pub append_message_to_chat : CallbackPrx → ByteSeq → Text → User → Eff State Exception (Unit {0})
  pub echo : CallbackPrx → Text → Eff State Exception Text
  -- `pool.at(i).open(connection)`
  pub open_session : ℕ → Text → Eff State Exception (Unit {0})
  -- `delete` of the pool
  pub delete_pool : Eff State Exception (Unit {0})
  -- The servants in the adapters with their names, in the order of their addition, and the sessions
  -- of the pool that are open.
  pub servants : State → List (Text × Servant)
  pub opened : State → List (ℕ × Text)
  -- The communicators that are not destroyed.
  pub communicators : State → ℕ

-- A computation that adds no servant.
abbrev pub AddsNone : (R : Runtime) → {A : Type 0} → Eff R.State Exception A → Type 0
AddsNone R m = (s : R.State) → R.servants (m s).1 ≡ R.servants s

abbrev pub KeepsCommunicators : (R : Runtime) → {A : Type 0} → Eff R.State Exception A → Type 0
KeepsCommunicators R m = (s : R.State) → R.communicators (m s).1 ≡ R.communicators s

-- Only `add` adds a servant, and `open` opens a session, where they return;
-- `initialize` makes a communicator where it returns, and `destroy` returns and ends one.
pub record IsRuntime (R : Runtime) : Type 0 where
  pub servants-add :
      (a : R.Adapter) (x : Servant) (name : Text) (s : R.State) (p : R.ObjectPrx)
      → (R.add a x name s).0 ≡ ok p
      → R.servants (R.add a x name s).1 ≡ R.servants s ++ ((name, x) ∷ [])
  pub servants-add_failed :
      (a : R.Adapter) (x : Servant) (name : Text) (s : R.State) (e : Exception)
      → (R.add a x name s).0 ≡ err e
      → R.servants (R.add a x name s).1 ≡ R.servants s
  pub servants-activate : (a : R.Adapter) → AddsNone R (R.activate a)
  pub servants-create_proxy : (c : R.Connection) (id : Text) → AddsNone R (R.create_proxy c id)
  pub servants-generate_uuid : AddsNone R R.generate_uuid
  pub servants-cast_session : (p : R.ObjectPrx) → AddsNone R (R.cast_session p)
  pub servants-cast_callback : (p : R.ObjectPrx) → AddsNone R (R.cast_callback p)
  pub servants-echo : (p : R.CallbackPrx) (t : Text) → AddsNone R (R.echo p t)
  pub servants-initialize : (d : InitializationData) → AddsNone R (R.initialize d)
  pub servants-create_object_adapter :
      (c : R.Communicator) (name endpoints : Text)
      → AddsNone R (R.create_object_adapter c name endpoints)
  pub servants-open_session : (i : ℕ) (t : Text) → AddsNone R (R.open_session i t)
  pub opened-open_session :
      (i : ℕ) (t : Text) (s : R.State)
      → (R.open_session i t s).0 ≡ ok tt
      → R.opened (R.open_session i t s).1 ≡ R.opened s ++ ((i, t) ∷ [])
  pub communicators-open_session : (i : ℕ) (t : Text) → KeepsCommunicators R (R.open_session i t)
  pub communicators-initialize :
      (d : InitializationData) (s : R.State) (ic : R.Communicator)
      → (R.initialize d s).0 ≡ ok ic
      → R.communicators (R.initialize d s).1 ≡ suc (R.communicators s)
  pub communicators-initialize_failed :
      (d : InitializationData) (s : R.State) (e : Exception)
      → (R.initialize d s).0 ≡ err e
      → R.communicators (R.initialize d s).1 ≡ R.communicators s
  pub communicators-create_object_adapter :
      (c : R.Communicator) (name endpoints : Text)
      → KeepsCommunicators R (R.create_object_adapter c name endpoints)
  pub communicators-add :
      (a : R.Adapter) (x : Servant) (name : Text) → KeepsCommunicators R (R.add a x name)
  pub communicators-activate : (a : R.Adapter) → KeepsCommunicators R (R.activate a)
  pub destroy_returns : (c : R.Communicator) (s : R.State) → (R.destroy c s).0 ≡ ok tt
  pub communicators-destroy :
      (c : R.Communicator) (s : R.State) → R.communicators (R.destroy c s).1 ≡ R.communicators s - 1
