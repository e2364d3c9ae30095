-- ===== src/Server/IceServer/Lawful.antt =====
-- The server object keeps what its servants rely on.
use sepm_group.Prelude.{◌⊎◌, inl, inr, ◌≡◌, refl, ap, ◌∙◌, List, [], ◌∷◌, ◌++◌, Text, arith}
use sepm_group.Prelude.Effects.{Result, ok, err, bind_cases}
use sepm_group.Sdc.{Exception}
use sepm_group.Server.{SessionImpl, IsLawful}
use sepm_group.Server.Runtime.{Runtime, IsRuntime, Servant, authentication, session}
use sepm_group.Server.Callback.{
  ChatClientCallbackInd, chat_client_callback_ind, chat_client_callback_wrapper, echo,
}
use sepm_group.Server.IceServer.{
  IceServer, expose_object, expose_unnamed, callback_for_id, sessions_of, ice_server_i,
}

-- The authentication object is no session.
pub sessions_of-authentication :
    (servants : List (Text × Servant)) (name : Text)
    → sessions_of (servants ++ ((name, authentication) ∷ [])) ≡ sessions_of servants
sessions_of-authentication [] name = refl
sessions_of-authentication ((n, authentication) ∷ servants) name =
    sessions_of-authentication servants name
sessions_of-authentication ((n, session y) ∷ servants) name =
    ap (λ t. y ∷ t) (sessions_of-authentication servants name)

sessions_of-snoc :
    (servants : List (Text × Servant)) (name : Text) (x : SessionImpl)
    → sessions_of (servants ++ ((name, session x) ∷ [])) ≡ sessions_of servants ++ (x ∷ [])
sessions_of-snoc [] name x = refl
sessions_of-snoc ((n, authentication) ∷ servants) name x = sessions_of-snoc servants name x
sessions_of-snoc ((n, session y) ∷ servants) name x =
    ap (λ t. y ∷ t) (sessions_of-snoc servants name x)

module _ (R : Runtime) (L : IsRuntime R) (self : IceServer R) where
  abbrev Same : {A : Type 0} → R.State → Result Exception A × R.State → Type 0
  Same s out = R.servants out.1 ≡ R.servants s

  callback_for_id-Same :
      (con : R.Connection) (id : Text) (s : R.State) → Same s (callback_for_id R self con id s)
  unfolding callback_for_id
  callback_for_id-Same con id s =
      bind_cases (Same s) (R.create_proxy con id) _ s
        (λ p _.
          bind_cases (Same s) (R.cast_callback p) _ (R.create_proxy con id s).1
            (λ _ _. L.servants-cast_callback p _ ∙ L.servants-create_proxy con id s)
            (λ _ _. L.servants-cast_callback p _ ∙ L.servants-create_proxy con id s))
        (λ _ _. L.servants-create_proxy con id s)

  echo-Same : (c : ChatClientCallbackInd R) (t : Text) (s : R.State) → Same s (echo R c t s)
  unfolding echo
  echo-Same chat_client_callback_ind t s = refl
  echo-Same (chat_client_callback_wrapper p) t s = L.servants-echo p.proxy t s

  -- An exposed object is the last servant, under the name it was given.
  abbrev Exposed : Servant → Text → R.State → Result Exception R.ObjectPrx × R.State → Type 0
  Exposed x name s out =
      (p : R.ObjectPrx) → out.0 ≡ ok p → R.servants out.1 ≡ R.servants s ++ ((name, x) ∷ [])

  expose_object-Exposed :
      (x : Servant) (name : Text) (s : R.State) → Exposed x name s (expose_object R self x name s)
  unfolding expose_object
  expose_object-Exposed x name s =
      bind_cases (Exposed x name s) (R.add self.oa x name) _ s
        (λ p e.
          bind_cases (Exposed x name s) (R.activate self.oa) _ (R.add self.oa x name s).1
            (λ _ _ _ _. L.servants-activate self.oa _ ∙ L.servants-add self.oa x name s p e)
            (λ _ _ _ h. absurd (ground (arith, h))))
        (λ _ _ _ h. absurd (ground (arith, h)))

  expose_unnamed-Exposed :
      (x : Servant) (s : R.State) (p : R.ObjectPrx)
      → (expose_unnamed R self x s).0 ≡ ok p
      → (name : Text) × (R.servants (expose_unnamed R self x s).1
          ≡ R.servants s ++ ((name, x) ∷ []))
  unfolding expose_unnamed
  expose_unnamed-Exposed x s p =
      bind_cases
        (λ out.
          out.0 ≡ ok p → (name : Text) × (R.servants out.1 ≡ R.servants s ++ ((name, x) ∷ [])))
        R.generate_uuid _ s
        (λ name _ h. (
          name,
          expose_object-Exposed x name (R.generate_uuid s).1 p h
              ∙ ap (λ t. t ++ ((name, x) ∷ [])) (L.servants-generate_uuid s),
        ))
        (λ _ _ h. absurd (ground (arith, h)))

  -- A failed exposure has added the object, when the adapter was activated in vain, or nothing.
  abbrev MayExpose : Servant → Text → R.State → Result Exception R.ObjectPrx × R.State → Type 0
  MayExpose x name s out =
      (e : Exception)
      → out.0 ≡ err e
      → (R.servants out.1 ≡ R.servants s) ⊎ (R.servants out.1 ≡ R.servants s ++ ((name, x) ∷ []))

  expose_object-MayExpose :
      (x : Servant) (name : Text) (s : R.State) → MayExpose x name s (expose_object R self x name s)
  unfolding expose_object
  expose_object-MayExpose x name s =
      bind_cases (MayExpose x name s) (R.add self.oa x name) _ s
        (λ p e.
          bind_cases (MayExpose x name s) (R.activate self.oa) _ (R.add self.oa x name s).1
            (λ _ _ _ h. absurd (ground (arith, h)))
            (λ _ _ _ _. inr (L.servants-activate self.oa _ ∙ L.servants-add self.oa x name s p e)))
        (λ x' e _ _. inl (L.servants-add_failed self.oa x name s x' e))

  abbrev SessionsMayGrow : SessionImpl → R.State → R.State → Type 0
  SessionsMayGrow x s t =
      (sessions_of (R.servants t) ≡ sessions_of (R.servants s))
      ⊎ (sessions_of (R.servants t) ≡ sessions_of (R.servants s) ++ (x ∷ []))

  expose_unnamed-SessionsMayGrow :
      (x : SessionImpl) (s : R.State) (e : Exception)
      → (expose_unnamed R self (session x) s).0 ≡ err e
      → SessionsMayGrow x s (expose_unnamed R self (session x) s).1
  unfolding expose_unnamed
  expose_unnamed-SessionsMayGrow x s e =
      bind_cases (λ out. out.0 ≡ err e → SessionsMayGrow x s out.1) R.generate_uuid _ s
        (λ name _ h. elim (expose_object-MayExpose (session x) name (R.generate_uuid s).1 e h) [
          | inl same ↦ inl (ap sessions_of (same ∙ L.servants-generate_uuid s))
          | inr grown ↦ inr (
              ap sessions_of
                (grown ∙ ap (λ t. t ++ ((name, session x) ∷ [])) (L.servants-generate_uuid s))
              ∙ sessions_of-snoc (R.servants s) name x)
        ])
        (λ _ _ _. inl (ap sessions_of (L.servants-generate_uuid s)))

  -- The server object is what the servants take it for: only exposing a
  -- session adds one, the last, and where it fails perhaps none, and finding, calling and casting the client's proxies adds none.
  pub ice_server_i-IsLawful : IsLawful (ice_server_i R self)
  ice_server_i-IsLawful = record {
    exposed-callback_for_id = λ s (id, con). ap sessions_of (callback_for_id-Same con id s);
    exposed-echo = λ s c t. ap sessions_of (echo-Same c t s);
    exposed-expose_object = λ s x p e.
        let (name, h) = expose_unnamed-Exposed (session x) s p e in
        ap sessions_of h ∙ sessions_of-snoc (R.servants s) name x;
    exposed-expose_object_failed = λ s x e h. expose_unnamed-SessionsMayGrow x s e h;
    exposed-checked_cast = λ s p. ap sessions_of (L.servants-cast_session p s);
  }
