-- ===== src/Server/Main/Serving.antt =====
-- The server that the main function has started, as its clients see it.
use sepm_group.Prelude.{ℕ, ◌≡◌, ap, ◌∙◌, List, ◌++◌}
use sepm_group.Prelude.Effects.{ok}
use sepm_group.Database.{Soci, IsLawful}
use sepm_group.ExitHandler.{Process}
use sepm_group.ProgramOptions.{ProgramOptions, Setting}
use sepm_group.Server.{World, SessionImpl}
use sepm_group.Server.Runtime.{Runtime, IsRuntime}
use sepm_group.Server.IceServer.{IceServer, ice_server_i, sessions_of}
use sepm_group.Server.IceServer.Lawful.{ice_server_i-IsLawful, sessions_of-authentication}
use sepm_group.Server.Interleaving
use sepm_group.Server.Interleaving.{System, HasEnded}
use sepm_group.Server.Interleaving.Calls.{Call, program}
use sepm_group.Server.Interleaving.Vouching.{Entered, interleaved-Vouched}
use sepm_group.Server.Main.{ServerState, start_server}
use sepm_group.Server.Main.Waiting.{start_server-ShutDown}

module _ (O : ProgramOptions) (R : Runtime) (X : Setting) (L : IsRuntime R) (S : Soci)
    (D : IsLawful S) (vm : O.VariablesMap) (p : Process (ServerState R))
    (server : IceServer R) where
  -- The sessions that came after the start, as sessions that came after the state before it.
  since_start :
      (before after : R.State) (xs : List SessionImpl)
      → (start_server O R X vm p).0 ≡ ok server
      → before ≡ (start_server O R X vm p).1.rest.ice
      → sessions_of (R.servants after) ≡ sessions_of (R.servants before) ++ xs
      → sessions_of (R.servants after) ≡ sessions_of (R.servants p.rest.ice) ++ xs
  since_start before after xs started given e =
      let (ready, _) = start_server-ShutDown O R X L vm p server started in
      e
      ∙ ap (λ (s : R.State). sessions_of (R.servants s) ++ xs) given
      ∙ ap (λ servants. sessions_of servants ++ xs) ready
      ∙ ap (λ ys. ys ++ xs) (sessions_of-authentication (R.servants p.rest.ice) _)

  -- On a run time and a database that keep their laws, the main function has started a server, and
  -- threads without a call begin calls of its objects, whose steps mix in any order: the sessions among
  -- its servants are those from before the start and then, in the order of the steps, sessions each
  -- of which was exposed by a step of a thread whose last begun call is a login that vouches for it.
  -- The session has the name of the user of that login and the key of a row that the SELECT may have
  -- returned in a world of the run; the password of the login is that of the row, and the key of its
  -- user does not differ; and a callback that was made for the client of the login in a world of
  -- the run answered "42" in a world of the run.
  pub start_server-ServesThreads :
      (s t : System (World S (ice_server_i R server)))
      → (start_server O R X vm p).0 ≡ ok server
      → s.world.ice ≡ (start_server O R X vm p).1.rest.ice
      → ((i : ℕ) → HasEnded (s.threads i))
      → (r : Interleaving.Reach
          (Call S (ice_server_i R server))
          (program S (ice_server_i R server))
          s
          t)
      → (xs : List SessionImpl) × (sessions_of (R.servants t.world.ice)
          ≡ sessions_of (R.servants p.rest.ice) ++ xs)
        × Entered S (ice_server_i R server) s r xs
  start_server-ServesThreads s t started given idle run =
      let (xs, e, all) =
        interleaved-Vouched S (ice_server_i R server) s D (ice_server_i-IsLawful R L server) idle
          run in
      (xs, since_start s.world.ice t.world.ice xs started given e, all)
