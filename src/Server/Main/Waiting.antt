-- ===== src/Server/Main/Waiting.antt =====
-- What the server is like when its main function waits, and how that function ends.
use sepm_group.Prelude.{
  ℕ, ◌≡◌, ◌≢◌, refl, sym, ap, subst, ◌∙◌, List, [], ◌∷◌, ◌++◌, some, Text, codes, ◌==◌, Bool-cases,
  inl, inr, ◌⊎◌, arith,
}
use sepm_group.Prelude.Effects.{Result, ok, bind_cases, ◌>>=◌, ◌>>◌}
use sepm_group.Sdc.{Exception}
use sepm_group.Config.{hostname}
use sepm_group.ExitHandler.{Process, on_rest, interrupt, set_handler, i, interrupt-set_handler}
use sepm_group.ProgramOptions.{ProgramOptions, Setting, parse_args, parse_args_ok}
use sepm_group.Server.Runtime.{Runtime, IsRuntime, authentication}
use sepm_group.Server.IceServer.{IceServer, default_ice_server, exit, wait, destruct}
use sepm_group.Server.IceServer.Construction.{ice_server-Ready}
use sepm_group.Server.Main.{
  ServerState, Act, on_ice, on_hostname, be_quiet, open_log, greet, launch, on_signal, start_server,
  finish, print_help, help_or_serve, server_main, allowed_options,
}

module _ (O : ProgramOptions) (R : Runtime) (X : Setting) where
  abbrev Do : Type 0 → Type 0
  Do A = Act O R X A

  -- A part that has nothing to do with Ice.
  abbrev IsLocal : {A : Type 0} → Do A → Type 0
  IsLocal m = (s : ServerState R) → (m s).1.ice ≡ s.ice

  be_quiet-IsLocal : (vm : O.VariablesMap) → IsLocal (be_quiet O R X vm)
  unfolding be_quiet
  be_quiet-IsLocal vm s = elim (Bool-cases (O.count (codes "quiet") vm == 0)) [
    | inl e ↦ rw (be_quiet, e) refl
    | inr e ↦ rw (be_quiet, e) refl
  ]

  open_log-IsLocal : IsLocal (open_log O R X)
  unfolding open_log
  open_log-IsLocal s = refl

  greet-IsLocal : IsLocal (greet O R X)
  unfolding greet
  greet-IsLocal s =
      bind_cases (λ out. out.1.ice ≡ s.ice) (on_hostname O R X (hostname X.getenv)) _ _
        (λ _ _. refl) (λ _ _. refl)

  -- The authentication object is the one servant that was added.
  abbrev Adds : ServerState R → Result Exception (IceServer R) × ServerState R → Type 0
  Adds s out =
      (server : IceServer R)
      → out.0 ≡ ok server
      → R.servants out.1.ice ≡ R.servants s.ice ++ ((codes "Authentication", authentication) ∷ [])

  Adds-after :
      (m : Do (Unit {0})) (k : Do (IceServer R))
      → IsLocal m
      → ((s : ServerState R) → Adds s (k s))
      → (s : ServerState R) → Adds s ((m >> k) s)
  Adds-after m k local adds s =
      bind_cases (Adds s) m (λ _. k) s
        (λ _ _ server e.
          adds _ server e
          ∙ ap (λ i. R.servants i ++ ((codes "Authentication", authentication) ∷ [])) (local s))
        (λ _ _ server e. absurd (ground (arith, e)))

  launch-Adds :
      (L : IsRuntime R) (vm : O.VariablesMap) (s : ServerState R) → Adds s (launch O R X vm s)
  unfolding launch
  launch-Adds L vm = Adds-after (be_quiet O R X vm) _ (be_quiet-IsLocal vm) (
      Adds-after (open_log O R X) _ open_log-IsLocal (
        Adds-after (greet O R X) (on_ice O R X (default_ice_server R)) greet-IsLocal (λ s.
          (ice_server-Ready R L (codes "server.crt") (codes "server.key") (codes "ca.crt")
            s.ice).0)))

  -- SIGINT shuts the communicator of a server down, and ends as that does.
  abbrev pub ShutDown : IceServer R → Process (ServerState R) → Type 0
  ShutDown server q =
      (out : Result Exception (Unit {0}) × Process (ServerState R)) × (interrupt (ServerState R) q
        ≡ some out)
      × (out.0 ≡ (R.shutdown server.ic q.rest.ice).0)
      × (out.1.rest.ice ≡ (R.shutdown server.ic q.rest.ice).1)

  on_signal-shutdown :
      (server : IceServer R) (sig : ℕ) (s : ServerState R)
      → ((on_signal O R X server sig s).0 ≡ (R.shutdown server.ic s.ice).0)
        × ((on_signal O R X server sig s).1.ice ≡ (R.shutdown server.ic s.ice).1)
  unfolding on_signal exit
  on_signal-shutdown server sig s =
      bind_cases
        (λ (out : Result Exception (Unit {0}) × ServerState R).
          (out.0 ≡ (R.shutdown server.ic s.ice).0) × (out.1.ice ≡ (R.shutdown server.ic s.ice).1))
        (on_ice O R X (exit R server)) _ s (λ _ e. (sym e, refl)) (λ _ e. (sym e, refl))

  set_handler-ShutDown :
      (server : IceServer R) (p : Process (ServerState R))
      → ShutDown server (set_handler (ServerState R) (on_signal O R X server) p)
  unfolding set_handler i
  set_handler-ShutDown server p =
      let (result, ice) = on_signal-shutdown server 2 p.rest in
      (_, interrupt-set_handler (ServerState R) (on_signal O R X server) p, result, ice)

  set_handler-ShutDown_same :
      (made server : IceServer R) (p : Process (ServerState R))
      → ◌≡◌ {A = Result Exception (IceServer R)} (ok made) (ok server)
      → ShutDown server (set_handler (ServerState R) (on_signal O R X made) p)
  set_handler-ShutDown_same made server p e =
      let same_server : made ≡ server = ground (arith, e) in
      subst
        (λ (sv : IceServer R). ShutDown sv (set_handler (ServerState R) (on_signal O R X made) p))
        same_server (set_handler-ShutDown made p)

  -- When the main function gets to wait for a server, on a run time that keeps its laws, then the
  -- authentication object is the one servant that was added, under "Authentication", and SIGINT shuts
  -- the server's communicator down and ends as the shutdown does.
  pub start_server-ShutDown :
      (L : IsRuntime R) (vm : O.VariablesMap) (p : Process (ServerState R)) (server : IceServer R)
      → (start_server O R X vm p).0 ≡ ok server
      → (R.servants (start_server O R X vm p).1.rest.ice
          ≡ R.servants p.rest.ice ++ ((codes "Authentication", authentication) ∷ []))
        × ShutDown server (start_server O R X vm p).1
  unfolding start_server set_handler i
  start_server-ShutDown L vm p server =
      bind_cases
        (λ (out : Result Exception (IceServer R) × Process (ServerState R)).
          out.0 ≡ ok server
          → (R.servants out.1.rest.ice
              ≡ R.servants p.rest.ice ++ ((codes "Authentication", authentication) ∷ []))
            × ShutDown server out.1)
        (on_rest (ServerState R) (launch O R X vm)) _ p
        (λ made e h. (
          launch-Adds L vm p.rest made e,
          set_handler-ShutDown_same made server (on_rest (ServerState R) (launch O R X vm) p).1 h,
        ))
        (λ _ _ h. absurd (ground (arith, h)))

  -- How an exit code comes about.
  abbrev pub Exit : ℕ → O.VariablesMap → Process (ServerState R) → Process (ServerState R) → Type 0
  Exit n vm p q =
      ((O.count (codes "help") vm ≡ 0) × (n ≡ 0))
      ⊎ ((O.count (codes "help") vm ≢ 0)
          × (n ≡ 1)
          × (q ≡ (on_rest (ServerState R) (print_help O R X) p).1))

  finish_code :
      (server : IceServer R) (n : ℕ) (s : ServerState R) → (finish O R X server s).0 ≡ ok n → n ≡ 0
  unfolding finish
  finish_code server n s =
      bind_cases P (on_ice O R X (wait R server)) _ s
        (λ _ _.
          bind_cases P (on_ice O R X (destruct R server)) _ _ (λ _ _ h. ground (arith, h))
            (λ _ _ h. absurd (ground (arith, h))))
        (λ _ _ h. absurd (ground (arith, h)))
    where
      P : Result Exception ℕ × ServerState R → Type 0
      P out = out.0 ≡ ok n → n ≡ 0

  serve_code :
      (vm : O.VariablesMap) (n : ℕ) (p : Process (ServerState R))
      → ((start_server O R X vm >>= (λ server. on_rest (ServerState R) (finish O R X server))) p).0
        ≡ ok n
      → n ≡ 0
  serve_code vm n p =
      bind_cases (λ (out : Result Exception ℕ × Process (ServerState R)). out.0 ≡ ok n → n ≡ 0)
        (start_server O R X vm) (λ server. on_rest (ServerState R) (finish O R X server)) p
        (λ server _. finish_code server n _) (λ _ _ h. absurd (ground (arith, h)))

  help_or_serve-Exit :
      (vm : O.VariablesMap) (n : ℕ) (p : Process (ServerState R))
      → (help_or_serve O R X vm p).0 ≡ ok n
      → Exit n vm p (help_or_serve O R X vm p).1
  unfolding help_or_serve print_help
  help_or_serve-Exit vm n p = elim (Bool-cases (O.count (codes "help") vm == 0)) [
    | inl e ↦ rw (help_or_serve, e) (λ h. inl (ground (arith, e), serve_code vm n p h))
    | inr e ↦ rw (help_or_serve, e) (λ h. inr (ground (arith, e), ground (arith, h), refl))
  ]

  -- When the main function returns, the options could be read; it returns 0, unless help was asked
  -- for: then it returns 1 and has done nothing but print the description.
  pub server_main-Exit :
      (args : List Text) (p : Process (ServerState R)) (n : ℕ)
      → (server_main O R X args p).0 ≡ ok n
      → (vm : O.VariablesMap) × (O.parse allowed_options args ≡ ok vm)
        × Exit n vm p (server_main O R X args p).1
  unfolding server_main
  server_main-Exit args p n =
      bind_cases
        (λ (out : Result Exception ℕ × Process (ServerState R)).
          out.0 ≡ ok n
          → (vm : O.VariablesMap) × (O.parse allowed_options args ≡ ok vm) × Exit n vm p out.1)
        (parse_args O allowed_options args) (help_or_serve O R X) p
        (λ vm e h.
          let (read, same) = parse_args_ok O allowed_options args p vm e in
          (
            vm,
            read,
            subst
                (λ q.
                  (help_or_serve O R X vm q).0 ≡ ok n → Exit n vm p (help_or_serve O R X vm q).1)
                (sym same) (help_or_serve-Exit vm n p) h,
          ))
        (λ _ _ h. absurd (ground (arith, h)))
