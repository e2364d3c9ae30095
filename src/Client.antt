-- ===== src/Client.antt =====
-- client/client.cpp: the main function of the client.
pub mod Catching
use sepm_group.Prelude.{
  ℕ, ◌≡◌, refl, arith, Bool, true, false, List, [], ◌∷◌, ◌++◌, Option, Text, codes, ◌==◌,
}
use sepm_group.Prelude.Effects.{Eff, Result, ok, err, ◌>>=◌, ◌>>◌, pure, modify, throw}
use sepm_group.Sdc.{Exception, plugin_exception, terminated}
use sepm_group.QMap.{QMap}
use sepm_group.ExitHandler.{Process, on_rest, set_handler}
use sepm_group.ProgramOptions.{ProgramOptions, Setting, Options, parse_args}
use sepm_group.Logging.{Logger}
use sepm_group.Logging.Printer.{info_macro}
use sepm_group.NotifyPipe.{System}
use sepm_group.FileWatcher.{Change, FileEvent, create, modified, deleted}
use sepm_group.FileWatcher.Owner.{FileWatcher, file_watcher, delete_watcher}
use sepm_group.PluginManager.{Platform, PluginManager, plugin_manager, list_plugins, destruct}

-- What the process keeps besides its signal handler; the platform of the plugins is in `manager`.
pub record ClientState (Q : QMap) (P : Platform) (U : System) : Type 0 where
  pub logger : Logger
  pub cout : Text
  pub cerr : Text
  pub system : U.State
  pub manager : PluginManager Q P

abbrev pub client_options : Options
client_options = (codes "help,h", codes "produce help message") ∷ []

abbrev pub newline : Text
newline = 10 ∷ []

-- `PluginException::what`
abbrev pub what_of : Exception → Text
what_of (plugin_exception reason) = reason
what_of _ = []

-- What the callback of `demo` puts out.
abbrev pub event_text : FileEvent → Text
event_text create = codes "created "
event_text modified = codes "modified "
event_text deleted = codes "deleted "

abbrev pub kind_text : Bool → Text
kind_text true = codes "dir "
kind_text false = codes "file "

unfoldable pub announce : Change → Eff Text Exception (Unit {0})
announce (name, is_dir, e) cout =
    (ok tt, cout ++ (event_text e ++ (kind_text is_dir ++ (name ++ newline))))

-- The end of a block: what it made is destructed, whether it ends normally or by an exception. A
-- destructor that throws ends the process.
module _ {S : Type 0} where
  abbrev after :
      {A : Type 0} → Result Exception A → Result Exception (Unit {0}) × S → Result Exception A × S
  after r (ok _, s) = (r, s)
  after r (err _, s) = (err terminated, s)

  abbrev pub ending_with :
      {A : Type 0} → Eff S Exception (Unit {0}) → Eff S Exception A → Eff S Exception A
  ending_with destructor body s = after (body s).0 (destructor (body s).1)

  after_returned :
      {A : Type 0} (r : Result Exception A) (d : Result Exception (Unit {0})) (s : S)
      → d ≡ ok tt
      → after r (d, s) ≡ (r, s)
  after_returned r (ok _) s e = refl
  after_returned r (err _) s e = absurd (ground (arith, e))

  -- A destructor that returns lets the result of the block pass.
  pub ending_with_returned :
      {A : Type 0} (destructor : Eff S Exception (Unit {0})) (body : Eff S Exception A) (s : S)
      → (destructor (body s).1).0 ≡ ok tt
      → ending_with destructor body s ≡ ((body s).0, (destructor (body s).1).1)
  ending_with_returned destructor body s e =
      after_returned (body s).0 (destructor (body s).1).0 (destructor (body s).1).1 e

module _ (O : ProgramOptions) (Q : QMap) (P : Platform) (U : System) (X : Setting) where
  abbrev pub Act : Type 0 → Type 0
  Act A = Eff (Process (ClientState Q P U)) Exception A

  abbrev pub on_client : {A : Type 0} → Eff (ClientState Q P U) Exception A → Act A
  on_client m = on_rest (ClientState Q P U) m

  abbrev pub say : ℕ → ℕ → Text → Eff (ClientState Q P U) Exception (Unit {0})
  say thread line message = modify (λ s. record s {
    logger = info_macro X.surroundings thread X.file line (message ∷ []) s.logger;
  })

  abbrev pub on_system : {A : Type 0} → Eff U.State Exception A → Act A
  on_system m = on_client (λ s. ((m s.system).0, record s { system = (m s.system).1 }))

  abbrev pub on_manager : Eff (PluginManager Q P) Exception (Unit {0}) → Act (Unit {0})
  on_manager m = on_client (λ s. ((m s.manager).0, record s { manager = (m s.manager).1 }))

  -- The handler of SIGINT.
  abbrev pub on_signal : ℕ → Eff (ClientState Q P U) Exception (Unit {0})
  on_signal sig = say X.signal_thread 62 (codes " Got signal .. terminating")

  -- The destructor of `manager`: what `delete watcher` gives decides whether it goes on.
  abbrev pub end_manager : FileWatcher U → Act (Unit {0})
  end_manager watcher p =
      let (waited, q) = on_system (delete_watcher U watcher) p in on_manager (destruct Q P waited) q

  -- `manager` and its use; when its constructor throws, there is nothing to destruct. The watcher that
  -- the constructor makes at its end is an object of the system.
  unfoldable pub manage : Act (Unit {0})
  manage = do
    on_manager (plugin_manager Q P (codes "./plugins"))
    watcher ← on_system (file_watcher U (codes "./plugins"))
    ending_with (end_manager watcher) (on_manager (list_plugins Q P))

  unfoldable pub with_demo : Act (Unit {0})
  with_demo = do
    demo ← on_system (file_watcher U (codes "./ui"))
    ending_with (on_system (delete_watcher U demo))
        (do modify (set_handler (ClientState Q P U) on_signal); manage)

  -- The `try` block.
  unfoldable pub block : Act (Unit {0})
  block = do
    watcher ← on_system (file_watcher U (codes "./ui"))
    ending_with (on_system (delete_watcher U watcher)) with_demo

  -- `catch(PluginException ex)`
  abbrev pub catch_plugin :
      Result Exception (Unit {0}) × Process (ClientState Q P U)
      → Result Exception (Unit {0}) × Process (ClientState Q P U)
  catch_plugin (err (plugin_exception what), p) =
      on_client
        (modify (λ s. record s { cerr = s.cerr ++ (what_of (plugin_exception what) ++ newline) })) p
  catch_plugin (r, p) = (r, p)

  unfoldable pub print_help : Act (Unit {0})
  print_help =
      on_client
        (modify (λ s. record s { cout = s.cout ++ (O.description client_options ++ newline) }))

  -- After the options have been read.
  unfoldable pub help_or_watch : O.VariablesMap → Act ℕ
  help_or_watch vm = elim (O.count (codes "help") vm == 0) [
    | false ↦ print_help >> pure 1
    | true ↦
        on_client (say X.main_thread 29 (codes "Hello from client"))
        >> ((λ p. catch_plugin (block p)) >> pure 0)
  ]

  unfoldable pub client_main : List Text → Act ℕ
  client_main args = do vm ← parse_args O client_options args; help_or_watch vm
