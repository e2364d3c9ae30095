-- ===== src/Server/Main.antt =====
-- server/server.cpp: the main function of the server.
pub mod Waiting
pub mod Serving
use sepm_group.Prelude.{ℕ, Bool, true, false, List, [], ◌∷◌, ◌++◌, Option, Text, codes, ◌==◌}
use sepm_group.Prelude.Effects.{Eff, Result, ok, err, ◌>>=◌, ◌>>◌, pure, modify}
use sepm_group.Sdc.{Exception}
use sepm_group.Config.{hostname}
use sepm_group.ExitHandler.{Process, on_rest, set_handler}
use sepm_group.ProgramOptions.{ProgramOptions, Setting, Options, parse_args}
use sepm_group.Logging.{Surroundings, Logger, lvl_info, clear_sinks, add_sink, to_string}
use sepm_group.Logging.Sinks.{make_file_sink, open_file}
use sepm_group.Logging.Printer.{info_macro, warn_macro, error_macro}
use sepm_group.Server.Runtime.{Runtime}
use sepm_group.Server.IceServer.{IceServer, default_ice_server, destruct, wait, exit}

-- What the process keeps besides its signal handler.
pub record ServerState (R : Runtime) : Type 0 where
  pub logger : Logger
  -- `Config::_hostname`
  pub hostname : Text
  pub cout : Text
  -- what is in "server.log" when the file is opened
  pub log_file : Text
  pub ice : R.State

abbrev pub allowed_options : Options
allowed_options =
    (codes "quiet,q", codes "don't log to stdout")
    ∷ (codes "help,h", codes "produce help message")
    ∷ []

module _ (O : ProgramOptions) (R : Runtime) (X : Setting) where
  abbrev pub Act : Type 0 → Type 0
  Act A = Eff (ServerState R) Exception A

  abbrev pub on_logger : (Logger → Logger) → Act (Unit {0})
  on_logger f = modify (λ s. record s { logger = f s.logger })

  abbrev pub on_ice : {A : Type 0} → Eff R.State Exception A → Act A
  on_ice m s = ((m s.ice).0, record s { ice = (m s.ice).1 })

  abbrev pub on_hostname : Eff Text Exception Text → Act Text
  on_hostname m s = ((m s.hostname).0, record s { hostname = (m s.hostname).1 })

  -- `cout << desc << "\n"`
  unfoldable pub print_help : Act (Unit {0})
  print_help =
      modify (λ s. record s { cout = s.cout ++ (O.description allowed_options ++ (10 ∷ [])) })

  -- `if(vm.count("quiet"))`
  unfoldable pub be_quiet : O.VariablesMap → Act (Unit {0})
  be_quiet vm = elim (O.count (codes "quiet") vm == 0) [
    | true ↦ pure tt
    | false ↦ on_logger (clear_sinks X.surroundings)
  ]

  -- `fileSink`, and its use
  unfoldable pub open_log : Act (Unit {0})
  open_log = do
    modify (λ s. record s { log_file = open_file s.log_file })
    on_logger (add_sink X.surroundings (make_file_sink true lvl_info))

  unfoldable pub greet : Act (Unit {0})
  greet = do
    on_logger (info_macro X.surroundings X.main_thread X.file 36 (codes "Hello from server" ∷ []))
    on_logger (warn_macro X.surroundings X.main_thread X.file 37 (codes "LOOK" ∷ []))
    on_logger (error_macro X.surroundings X.main_thread X.file 38 (codes "pretty colors!" ∷ []))
    name ← on_hostname (hostname X.getenv)
    on_logger
        (info_macro X.surroundings X.main_thread X.file 39 (codes "my hostname: " ∷ name ∷ []))

  -- The handler of SIGINT.
  unfoldable pub on_signal : IceServer R → ℕ → Act (Unit {0})
  on_signal server sig = do
    on_ice (exit R server)
    on_logger (
        info_macro X.surroundings X.signal_thread X.file 52
          (codes "Got signal " ∷ to_string sig ∷ codes " .. terminating" ∷ []))

  -- From the test of "quiet" up to the construction of the server.
  unfoldable pub launch : O.VariablesMap → Act (IceServer R)
  launch vm = do be_quiet vm; open_log; greet; on_ice (default_ice_server R)

  -- From there up to `server.wait()`.
  unfoldable pub start_server :
      O.VariablesMap → Eff (Process (ServerState R)) Exception (IceServer R)
  start_server vm = do
    server ← on_rest (ServerState R) (launch vm)
    modify (set_handler (ServerState R) (on_signal server))
    pure server

  -- From there on; the server is destructed at the end.
  unfoldable pub finish : IceServer R → Act ℕ
  finish server = do
    on_ice (wait R server)
    on_logger (info_macro X.surroundings X.main_thread X.file 57 (codes "normal exit" ∷ []))
    on_ice (destruct R server)
    pure 0

  -- After the options have been read.
  unfoldable pub help_or_serve : O.VariablesMap → Eff (Process (ServerState R)) Exception ℕ
  help_or_serve vm = elim (O.count (codes "help") vm == 0) [
    | true ↦ start_server vm >>= (λ server. on_rest (ServerState R) (finish server))
    | false ↦ on_rest (ServerState R) (print_help >> pure 1)
  ]

  unfoldable pub server_main : List Text → Eff (Process (ServerState R)) Exception ℕ
  server_main args = do vm ← parse_args O allowed_options args; help_or_serve vm
