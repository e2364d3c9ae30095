-- ===== src/Server/IceServer/Construction.antt =====
-- What the constructor of the server object has done when it returns, and when it throws.
use sepm_group.Prelude.{ℕ, zero, suc, ◌≡◌, refl, ap, ◌∙◌, [], ◌∷◌, ◌++◌, Text, codes, arith}
use sepm_group.Prelude.Effects.{Result, ok, err, bind_cases, throw}
use sepm_group.Sdc.{Exception, ice_exception}
use sepm_group.Server.Runtime.{Runtime, IsRuntime, InitializationData, authentication}
use sepm_group.Server.DbPool.{DbPool, open_sessions, db_pool, prod_pool, connection}
use sepm_group.Server.IceServer.{IceServer, listen, ice_server, initialization_data, caught}

module _ (R : Runtime) (L : IsRuntime R) where
  abbrev Same : {A : Type 0} → R.State → Result Exception A × R.State → Type 0
  Same s out = R.servants out.1 ≡ R.servants s

  open_sessions-Same :
      (left i : ℕ) (db_name : Text) (s : R.State) → Same s (open_sessions R left i db_name s)
  unfolding open_sessions
  open_sessions-Same zero i db_name s = refl
  open_sessions-Same (suc left) i db_name s =
      bind_cases (Same s) (R.open_session i (connection db_name)) _ s
        (λ _ _.
          open_sessions-Same left (suc i) db_name (R.open_session i (connection db_name) s).1
          ∙ L.servants-open_session i (connection db_name) s)
        (λ _ _. L.servants-open_session i (connection db_name) s)

  prod_pool-Same : (s : R.State) → Same s (prod_pool R s)
  unfolding prod_pool db_pool
  prod_pool-Same s =
      bind_cases (Same s) (open_sessions R 10 0 (codes "mydb")) _ s
        (λ _ _. open_sessions-Same 10 0 (codes "mydb") s)
        (λ _ _. open_sessions-Same 10 0 (codes "mydb") s)

  -- The authentication object is the one servant that was added.
  abbrev pub Ready : R.State → Result Exception (IceServer R) × R.State → Type 0
  Ready s out =
      (self : IceServer R)
      → out.0 ≡ ok self
      → R.servants out.1 ≡ R.servants s ++ ((codes "Authentication", authentication) ∷ [])

  listen-Ready : (p : DbPool) (ic : R.Communicator) (s : R.State) → Ready s (listen R p ic s)
  unfolding listen
  listen-Ready p ic s =
      bind_cases (Ready s) (R.create_object_adapter ic _ _) _ s
        (λ oa _.
          bind_cases (Ready s) (R.add oa authentication (codes "Authentication")) _ _
            (λ o e.
              bind_cases (Ready s) (R.activate oa) _ _
                (λ _ _ _ _.
                  L.servants-activate oa _
                  ∙ L.servants-add oa authentication (codes "Authentication") _ o e
                  ∙ ap (λ t. t ++ ((codes "Authentication", authentication) ∷ []))
                      (L.servants-create_object_adapter ic _ _ s))
                (λ _ _ _ h. absurd (ground (arith, h))))
            (λ _ _ _ h. absurd (ground (arith, h))))
        (λ _ _ _ h. absurd (ground (arith, h)))

  Ready-caught :
      (s : R.State) (handler : R.State → Result Exception (Unit {0}) × R.State)
      (r : Result Exception (IceServer R) × R.State)
      → Ready s r
      → Ready s (caught handler r)
  Ready-caught s handler (ok v, t) h self given = h self given
  Ready-caught s handler (err (ice_exception what), t) h self given =
      bind_cases
        (λ (out : Result Exception (IceServer R) × R.State).
          out.0 ≡ ok self
          → R.servants out.1 ≡ R.servants s ++ ((codes "Authentication", authentication) ∷ []))
        handler (λ _. throw (ice_exception what)) t (λ _ _ e. absurd (ground (arith, e)))
        (λ _ _ e. absurd (ground (arith, e))) given
  Ready-caught s handler (err x, t) h self e = absurd (ground (arith, e))

  -- An exception of Ice leaves as many communicators as there were.
  abbrev pub NoLeak : ℕ → Result Exception (IceServer R) × R.State → Type 0
  NoLeak n out = (what : Text) → out.0 ≡ err (ice_exception what) → R.communicators out.1 ≡ n

  caught-NoLeak :
      (n : ℕ) (ic : R.Communicator) (r : Result Exception (IceServer R) × R.State)
      → R.communicators r.1 ≡ suc n
      → NoLeak n (caught (R.destroy ic) r)
  caught-NoLeak n ic (ok self, t) h what e = absurd (ground (arith, e))
  caught-NoLeak n ic (err (ice_exception w), t) h what given =
      bind_cases (NoLeak n) (R.destroy ic) (λ _. throw (ice_exception w)) t
        (λ _ _ _ _. omega (arith, L.communicators-destroy ic t, h))
        (λ x e _ _. absurd (ground (arith, e, L.destroy_returns ic t))) what given
  caught-NoLeak n ic (err x, t) h what e = absurd (ground (arith, e))

  abbrev Count : {A : Type 0} → ℕ → Result Exception A × R.State → Type 0
  Count n out = R.communicators out.1 ≡ n

  listen-Count :
      (p : DbPool) (ic : R.Communicator) (n : ℕ) (s : R.State)
      → R.communicators s ≡ n
      → Count n (listen R p ic s)
  unfolding listen
  listen-Count p ic n s h =
      bind_cases (Count n) (R.create_object_adapter ic _ _) _ s
        (λ oa _.
          bind_cases (Count n) (R.add oa authentication (codes "Authentication")) _ _
            (λ o _.
              bind_cases (Count n) (R.activate oa) _ _
                (λ _ _. L.communicators-activate oa _ ∙ added oa)
                (λ _ _. L.communicators-activate oa _ ∙ added oa))
            (λ _ _. added oa))
        (λ _ _. adapted)
    where
      adapted :
          R.communicators
            (R.create_object_adapter ic (codes "AuthenticationEndpoint") (codes "ssl -p 1337") s).1
          ≡ n
      adapted = L.communicators-create_object_adapter ic _ _ s ∙ h

      added :
          (oa : R.Adapter)
          → R.communicators
              (R.add oa authentication
                (codes "Authentication")
                (R.create_object_adapter ic
                  (codes "AuthenticationEndpoint")
                  (codes "ssl -p 1337")
                  s).1).1
            ≡ n
      added oa = L.communicators-add oa authentication (codes "Authentication") _ ∙ adapted

  open_sessions-Count :
      (left i : ℕ) (db_name : Text) (s : R.State)
      → Count (R.communicators s) (open_sessions R left i db_name s)
  unfolding open_sessions
  open_sessions-Count zero i db_name s = refl
  open_sessions-Count (suc left) i db_name s =
      bind_cases (Count (R.communicators s)) (R.open_session i (connection db_name)) _ s
        (λ _ _.
          open_sessions-Count left (suc i) db_name (R.open_session i (connection db_name) s).1
          ∙ L.communicators-open_session i (connection db_name) s)
        (λ _ _. L.communicators-open_session i (connection db_name) s)

  prod_pool-Count : (s : R.State) → Count (R.communicators s) (prod_pool R s)
  unfolding prod_pool db_pool
  prod_pool-Count s =
      bind_cases (Count (R.communicators s)) (open_sessions R 10 0 (codes "mydb")) _ s
        (λ _ _. open_sessions-Count 10 0 (codes "mydb") s)
        (λ _ _. open_sessions-Count 10 0 (codes "mydb") s)

  -- The constructor returns with the authentication object as the one servant that was added, under
  -- the name "Authentication"; when it throws an exception of Ice, no communicator is left over.
  pub ice_server-Ready :
      (pub_key_path priv_key_path ca_path : Text) (s : R.State)
      → Ready s (ice_server R pub_key_path priv_key_path ca_path s)
        × NoLeak (R.communicators s) (ice_server R pub_key_path priv_key_path ca_path s)
  unfolding ice_server
  ice_server-Ready pub_key_path priv_key_path ca_path s =
      bind_cases P (prod_pool R) _ s
        (λ p _.
          bind_cases P (R.initialize given) _ pooled
            (λ ic e. (
              Ready-caught s (R.destroy ic) (listen R p ic started) (λ self h.
                  listen-Ready p ic started self h
                  ∙ ap (λ t. t ++ ((codes "Authentication", authentication) ∷ []))
                      (L.servants-initialize given pooled ∙ prod_pool-Same s)),
              caught-NoLeak (R.communicators s) ic (listen R p ic started) (
                  listen-Count p ic _ started
                    (L.communicators-initialize given pooled ic e ∙ ap suc (prod_pool-Count s))),
            ))
            (λ x e. (
              λ self h. absurd (ground (arith, h)),
              λ what h. L.communicators-initialize_failed given pooled x e ∙ prod_pool-Count s,
            )))
        (λ x e. (λ self h. absurd (ground (arith, h)), λ what h. prod_pool-Count s))
    where
      P : Result Exception (IceServer R) × R.State → Type 0
      P out = Ready s out × NoLeak (R.communicators s) out

      given : InitializationData
      given = initialization_data pub_key_path priv_key_path ca_path

      pooled : R.State
      pooled = (prod_pool R s).1

      started : R.State
      started = (R.initialize given pooled).1
