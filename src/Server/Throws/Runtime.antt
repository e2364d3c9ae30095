-- ===== src/Server/Throws/Runtime.antt =====
-- The server object over a run time that throws nothing but errors of its own.
use sepm_group.Prelude.{Text}
use sepm_group.Prelude.Effects.{Eff, ◌>>=◌, bind_cases}
use sepm_group.Sdc.{Exception}
use sepm_group.Server.Runtime.{Runtime, Servant, session}
use sepm_group.Server.IceServer.{
  IceServer, expose_object, expose_unnamed, callback_for_id, ice_server_i,
}
use sepm_group.Server.Throws.{OnlyIce, only_ice, ThrowsOnlyIce}

-- What the documentation of Ice says that these operations throw.
pub record RuntimeThrows (R : Runtime) : Type 0 where
  pub add-throws :
      (a : R.Adapter) (x : Servant) (name : Text) (s : R.State) → OnlyIce (R.add a x name s).0
  pub activate-throws : (a : R.Adapter) (s : R.State) → OnlyIce (R.activate a s).0
  pub create_proxy-throws :
      (c : R.Connection) (id : Text) (s : R.State) → OnlyIce (R.create_proxy c id s).0
  pub generate_uuid-throws : (s : R.State) → OnlyIce (R.generate_uuid s).0
  pub cast_session-throws : (p : R.ObjectPrx) (s : R.State) → OnlyIce (R.cast_session p s).0
  pub cast_callback-throws : (p : R.ObjectPrx) (s : R.State) → OnlyIce (R.cast_callback p s).0

OnlyIce-bind :
    {S A B : Type 0} (m : Eff S Exception A) (f : A → Eff S Exception B) (s : S)
    → OnlyIce (m s).0
    → ((a : A) (t : S) → OnlyIce (f a t).0)
    → OnlyIce ((m >>= f) s).0
OnlyIce-bind m f s h g =
    bind_cases (λ out. OnlyIce out.0) m f s (λ a _. g a (m s).1) (λ e p. only_ice _ e h p)

module _ (R : Runtime) (T : RuntimeThrows R) (self : IceServer R) where
  callback_for_id-OnlyIce :
      (con : R.Connection) (id : Text) (s : R.State) → OnlyIce (callback_for_id R self con id s).0
  unfolding callback_for_id
  callback_for_id-OnlyIce con id s =
      OnlyIce-bind (R.create_proxy con id) _ s (T.create_proxy-throws con id s)
        (λ p t. OnlyIce-bind (R.cast_callback p) _ t (T.cast_callback-throws p t) (λ _ _. tt))

  expose_object-OnlyIce :
      (x : Servant) (name : Text) (s : R.State) → OnlyIce (expose_object R self x name s).0
  unfolding expose_object
  expose_object-OnlyIce x name s =
      OnlyIce-bind (R.add self.oa x name) _ s (T.add-throws self.oa x name s)
        (λ p t. OnlyIce-bind (R.activate self.oa) _ t (T.activate-throws self.oa t) (λ _ _. tt))

  expose_unnamed-OnlyIce : (x : Servant) (s : R.State) → OnlyIce (expose_unnamed R self x s).0
  unfolding expose_unnamed
  expose_unnamed-OnlyIce x s =
      OnlyIce-bind R.generate_uuid _ s (T.generate_uuid-throws s)
        (λ name t. expose_object-OnlyIce x name t)

  -- Over such a run time the server object throws only errors of Ice.
  pub ice_server_i-ThrowsOnlyIce : ThrowsOnlyIce (ice_server_i R self)
  ice_server_i-ThrowsOnlyIce = record {
    callback_for_id-throws = λ (id, con) s. callback_for_id-OnlyIce con id s;
    expose_object-throws = λ x s. expose_unnamed-OnlyIce (session x) s;
    checked_cast-throws = T.cast_session-throws;
  }
