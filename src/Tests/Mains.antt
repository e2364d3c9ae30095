-- ===== src/Tests/Mains.antt =====
-- The two main functions, with arguments as they are typed and nothing else parsed, and the plugin
-- hello_world under the plugin manager.
use sepm_group.Prelude.{
  ℕ, ◌≡◌, ◌≢◌, refl, ap, true, false, none, List, [], ◌∷◌, ◌++◌, Text, codes, same, if◌then◌else◌,
}
use sepm_group.Prelude.Effects.{ok, err, ◌>>◌}
use sepm_group.Sdc.{plugin_exception}
use sepm_group.Config.{hostname}
use sepm_group.ExitHandler.{Process}
use sepm_group.ProgramOptions.{ProgramOptions, Setting}
use sepm_group.Database.Memory.{memory, memory-IsLawful}
use sepm_group.Server.{World, SessionImpl}
use sepm_group.Server.Authentication.{register_user, login}
use sepm_group.Server.Interleaving
use sepm_group.Server.Interleaving.{ret, System, begins, later}
use sepm_group.Server.Interleaving.Calls.{Call}
use sepm_group.Server.Interleaving.Calls
use sepm_group.Server.Interleaving.Vouching.{ServerRun, Entered}
use sepm_group.Server.IceServer.{ice_server_i, sessions_of}
use sepm_group.Server.Main.Serving.{start_server-ServesThreads}
use sepm_group.Tests.Schedule.{begin, steps, steps-Reach}
use sepm_group.Tests.Setup.{hello, secret}
use sepm_group.Server.Runtime.{authentication}
use sepm_group.Server.DbPool.{prod_pool, db_pool, open_sessions}
use sepm_group.Server.IceServer.{ice_server, listen}
use sepm_group.Server.Main.{
  ServerState, allowed_options, be_quiet, open_log, greet, launch, start_server, help_or_serve,
  print_help, server_main,
}
use sepm_group.Server.Main.Waiting.{Exit, ShutDown, start_server-ShutDown, server_main-Exit}
use sepm_group.PluginManager.{
  Platform, unset, plugin_manager, list_plugins, load_plugin, remove_plugin, unload, load_new,
  install,
}
use sepm_group.QMap.{has, find, put}
use sepm_group.Logging.{log, lvl_info}
use sepm_group.Logging.Printer.{print-log}
use sepm_group.PluginManager.Hello.{
  hello_platform, hello_plugin, make_hello_plugin, construct, delete_plugin,
}
use sepm_group.NotifyPipe.{notify_pipe, notify, close_pipe}
use sepm_group.FileWatcher.{create}
use sepm_group.FileWatcher.Owner.{file_watcher, delete_watcher, tell}
use sepm_group.Client.{ClientState, announce, client_main}
use sepm_group.Client.Catching.{IsReliable, client_main-NoPluginException, client_main-NoPlugins}
use sepm_group.Tests.Plugins.{list_map, counting}
use sepm_group.Tests.Logs.{still, both}
use sepm_group.Tests.Serving.{books, books-IsRuntime, empty_books, served}
use sepm_group.Tests.Desktop.{pipes}

abbrev given : Text → List Text → ℕ
given name [] = 0
given name (argument ∷ arguments) = if same name argument then 1 else given name arguments

abbrev typed : ProgramOptions
typed = record {
  VariablesMap = List Text;
  parse = λ _ arguments. ok arguments;
  count = λ name vm. given name vm;
  description = λ _. codes "Allowed options";
}

abbrev setting : Setting
setting = record {
  surroundings = still;
  getenv = λ _. none;
  file = codes "server.cpp";
  main_thread = 0;
  signal_thread = 1;
}

abbrev at_start : Process (ServerState books)
at_start = record {
  inst = none;
  sigint = false;
  rest = record { logger = both; hostname = []; cout = []; log_file = []; ice = empty_books };
}

served_it : (start_server typed books setting [] at_start).0 ≡ ok served
unfolding start_server launch be_quiet open_log greet ice_server prod_pool db_pool open_sessions
    listen hostname same
served_it = refl

start_server-ShutDown_example :
    (books.servants (start_server typed books setting [] at_start).1.rest.ice
      ≡ [] ++ ((codes "Authentication", authentication) ∷ []))
    × ShutDown typed books setting served (start_server typed books setting [] at_start).1
start_server-ShutDown_example =
    start_server-ShutDown typed books setting books-IsRuntime [] at_start served served_it

abbrev running : World memory (ice_server_i books served)
running = record {
  db = none;
  ice = (start_server typed books setting [] at_start).1.rest.ice;
  log = [];
}

abbrev logged_in : World memory (ice_server_i books served)
logged_in =
    (login memory (ice_server_i books served) hello secret (codes "client", tt)
      (register_user memory (ice_server_i books served) hello secret running).1).1

abbrev started : System (World memory (ice_server_i books served))
started = record { world = running; threads = λ _. ret tt }

abbrev registering : Call memory (ice_server_i books served)
registering = Calls.registers hello secret

abbrev entering : Call memory (ice_server_i books served)
entering = Calls.logs_in hello secret (codes "client", tt)

abbrev both_begun : System (World memory (ice_server_i books served))
both_begun = begin 1 entering (begin 2 registering started)

-- Thread 2 registers `hello` and then thread 1 logs in; the first steps mix.
abbrev busy : System (World memory (ice_server_i books served))
busy = steps (1 ∷ 2 ∷ 2 ∷ 2 ∷ 2 ∷ 2 ∷ 1 ∷ 1 ∷ 1 ∷ 1 ∷ 1 ∷ 1 ∷ 1 ∷ 1 ∷ 1 ∷ 1 ∷ 1 ∷ 1 ∷ []) both_begun

abbrev busy_run : ServerRun memory (ice_server_i books served) started busy
busy_run =
    (steps-Reach (1 ∷ 2 ∷ 2 ∷ 2 ∷ 2 ∷ 2 ∷ 1 ∷ 1 ∷ 1 ∷ 1 ∷ 1 ∷ 1 ∷ 1 ∷ 1 ∷ 1 ∷ 1 ∷ 1 ∷ 1 ∷ [])
      started both_begun
      (later (later Interleaving.here (begins 2 registering tt)) (begins 1 entering tt)))

start_server-ServesThreads_example :
    (xs : List SessionImpl) × (sessions_of (books.servants busy.world.ice)
      ≡ sessions_of (books.servants at_start.rest.ice) ++ xs)
    × Entered memory (ice_server_i books served) started busy_run xs
start_server-ServesThreads_example =
    start_server-ServesThreads typed books setting books-IsRuntime memory memory-IsLawful []
      at_start served started busy served_it refl (λ _. tt) busy_run

abbrev asking : List Text
asking = codes "help" ∷ []

helped : (server_main typed books setting asking at_start).0 ≡ ok 1
unfolding server_main help_or_serve same print_help
helped = refl

server_main-Exit_test :
    (vm : List Text) × (typed.parse allowed_options asking ≡ ok vm)
    × Exit typed books setting 1 vm at_start (server_main typed books setting asking at_start).1
server_main-Exit_test = server_main-Exit typed books setting asking at_start 1 helped

-- A platform without the directory of plugins.
abbrev bare : Platform
bare = record counting { exists = λ _ _. false }

abbrev at_client_start : Process (ClientState list_map bare pipes)
at_client_start = record {
  inst = none;
  sigint = false;
  rest = record {
    logger = both;
    cout = [];
    cerr = [];
    system = [];
    manager = unset list_map bare 0;
  };
}

pipes-IsReliable : IsReliable typed list_map bare pipes setting
unfolding file_watcher notify_pipe delete_watcher tell notify close_pipe
pipes-IsReliable = (λ dir s. (_, refl), λ w s. refl)

client_main-NoPluginException_example :
    (client_main typed list_map bare pipes setting [] at_client_start).0
    ≢ err (plugin_exception (codes "./plugins is not a directory"))
client_main-NoPluginException_example =
    client_main-NoPluginException typed list_map bare pipes setting [] at_client_start
      (codes "./plugins is not a directory")

client_main-NoPlugins_test :
    ((client_main typed list_map bare pipes setting [] at_client_start).0 ≡ ok 0)
    × ((client_main typed list_map bare pipes setting [] at_client_start).1.rest.cerr
        ≡ [] ++ codes "./plugins is not a directory\n")
client_main-NoPlugins_test =
    client_main-NoPlugins typed list_map bare pipes setting pipes-IsReliable [] [] at_client_start
      refl refl refl

run_announce : (announce (codes "a.qml", false, create) []).1 ≡ codes "created file a.qml\n"
unfolding announce
run_announce = refl

-- What the plugin logs when it is made and destroyed.
run_plugin :
    (delete_plugin setting hello_plugin (make_hello_plugin setting both).1).written
    ≡ (delete_plugin setting hello_plugin (
        log still 0 lvl_info
          (codes "server.cpp")
          12
          (codes "Constructed HelloPlugin!" ∷ [])
          both)).written
unfolding make_hello_plugin construct
run_plugin =
    ap (λ l. (delete_plugin setting hello_plugin l).written)
      (print-log still 0 lvl_info (codes "server.cpp") 12 (codes "Constructed HelloPlugin!" ∷ [])
        both)

abbrev greeting : Platform
greeting = hello_platform setting ((codes "hello", true) ∷ [])

-- The manager loads the plugin and lists it by its name.
run_hello :
    ((plugin_manager list_map greeting (codes "./plugins") >> list_plugins list_map greeting)
      (unset list_map greeting both)).1.log
    ≡ codes "=== currently loaded plugins" ∷ codes "Hello World Plugin" ∷ []
unfolding plugin_manager list_plugins load_plugin remove_plugin unload load_new install has find put
    same
run_hello = refl
