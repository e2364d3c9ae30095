-- ===== src/PluginManager.antt =====
-- common/PluginManager.h and common/PluginManager.cpp. The dynamic loader, the directory and the
-- plugins' own code are the parameter `Platform`; the calls of them that load or unload are
-- recorded in their order.
pub mod Trace
pub mod Steps
pub mod Lifecycle
pub mod Loading
pub mod Hello
pub mod Watched
use sepm_group.Prelude.{
  ◌≡◌, Bool, true, false, not, ◌||◌, ◌&&◌, Option, none, some, List, [], ◌∷◌, ◌++◌, Text, codes,
}
use sepm_group.Prelude.Effects.{Eff, Result, ok, ◌>>=◌, ◌>>◌, pure, throw, modify}
use sepm_group.Sdc.{Exception, plugin_exception, undefined}
use sepm_group.QMap.{QMap}
use sepm_group.FileWatcher.{Change, FileEvent, create, modified, deleted}

pub record Platform : Type 1 where
  pub State : Type 0
  pub Handle : Type 0
  -- `Plugin*`
  pub Plugin : Type 0
  -- The address of `make_plugin`.
  pub Entry : Type 0
  pub exists : Text → State → Bool
  pub is_directory : Text → State → Bool
  -- The names in a directory, and whether each is a regular file.
  pub directory : Text → State → List (Text × Bool)
  pub dlopen : Text → State → Option Handle × State
  pub dlerror : State → Text
  -- `dlsym(handle, "make_plugin")`
  pub find_make_plugin : Handle → State → Option Entry
  pub call_make_plugin : Entry → State → Plugin × State
  pub name : Plugin → State → Text
  pub destroy : Plugin → State → State
  pub dlclose : Handle → State → State

-- The calls that begin or end the life of a library or of a plugin.
pub data Event (P : Platform) : Type 0 where
  opened : P.Handle → Event P
  -- by a library
  made : P.Plugin → P.Handle → Event P
  destroyed : P.Plugin → Event P
  closed : P.Handle → Event P

-- The members, and what the methods act upon. `watched` is the directory of `watcher`.
pub record PluginManager (Q : QMap) (P : Platform) : Type 0 where
  pub watched : Option Text
  pub plugins : Q.Map P.Plugin
  pub handles : Q.Map P.Handle
  pub platform : P.State
  pub calls : List (Event P)
  -- what `INFO` was given
  pub log : List Text

module _ (Q : QMap) (P : Platform) where
  abbrev pub Call : Type 0 → Type 0
  Call A = Eff (PluginManager Q P) Exception A

  abbrev pub Done : Type 0
  Done = Call (Unit {0})

  abbrev pub defined : {A : Type 0} → Option A → Call A
  defined none = throw undefined
  defined (some a) = pure a

  -- Members that the constructor has not set yet.
  abbrev pub unset : P.State → PluginManager Q P
  unset os = record {
    watched = none;
    plugins = Q.empty;
    handles = Q.empty;
    platform = os;
    calls = [];
    log = [];
  }

  abbrev pub platform_call : Event P → P.State → PluginManager Q P → PluginManager Q P
  platform_call event os s = record s { platform = os; calls = s.calls ++ (event ∷ []) }

  abbrev pub destroy : P.Plugin → Done
  destroy p = modify (λ s. platform_call (destroyed p) (P.destroy p s.platform) s)

  abbrev pub close : P.Handle → Done
  close h = modify (λ s. platform_call (closed h) (P.dlclose h s.platform) s)

  -- `plugins[plugin_name]->destroy(); … handles.remove(plugin_name);`
  unfoldable pub unload : Text → Done
  unload plugin_name = do
    plugin ← λ s. defined (Q.at plugin_name s.plugins) s
    destroy plugin
    modify (λ s. record s { plugins = Q.remove plugin_name s.plugins })
    handle ← λ s. defined (Q.at plugin_name s.handles) s
    close handle
    modify (λ s. record s { handles = Q.remove plugin_name s.handles })

  unfoldable pub remove_plugin : Text → Done
  remove_plugin plugin_name s = elim (Q.contains plugin_name s.plugins) [
    | true ↦ unload plugin_name s
    | false ↦ pure tt s
  ]

  -- The outcome of `dlopen`.
  abbrev pub opens : Text → Option P.Handle × P.State → Call P.Handle
  opens path (none, os) s =
      throw
        (plugin_exception
          (codes "failed to load plugin from " ++ (path ++ (codes ": " ++ P.dlerror os))))
        (record s { platform = os })
  opens path (some handle, os) s = (ok handle, platform_call (opened handle) os s)

  -- `dlsym` and `make_plugin()`; a library without that symbol is undefined behaviour.
  abbrev pub make_plugin : P.Handle → Call P.Plugin
  make_plugin handle = do
    entry ← λ s. defined (P.find_make_plugin handle s.platform) s
    λ s.
        let (plugin, os) = P.call_make_plugin entry s.platform in
        (ok plugin, platform_call (made plugin handle) os s)

  unfoldable pub install : Text → P.Handle → Done
  install plugin_name handle = do
    plugin ← make_plugin handle
    modify (λ s. record s { plugins = Q.insert plugin_name plugin s.plugins })
    modify (λ s. record s { handles = Q.insert plugin_name handle s.handles })

  -- The part of `loadPlugin` after `removePlugin`.
  unfoldable pub load_new : Text → Done
  load_new plugin_name = do
    let path = codes "./plugins/" ++ plugin_name
    handle ← λ s. opens path (P.dlopen path s.platform) s
    install plugin_name handle

  unfoldable pub load_plugin : Text → Done
  load_plugin plugin_name = do remove_plugin plugin_name; load_new plugin_name

  unfoldable pub file_changed : Text → Bool → FileEvent → Done
  file_changed name false create = load_plugin name
  file_changed name false modified = load_plugin name
  file_changed name false deleted = pure tt
  file_changed name true e = pure tt

  -- The call that the watcher makes of its callback.
  abbrev pub notified : Change → Done
  notified (name, is_dir, e) = file_changed name is_dir e

  -- `for(auto x : xs) f(x);`
  abbrev pub for_each : {A : Type 0} → (A → Done) → List A → Done
  for_each f [] = pure tt
  for_each f (x ∷ xs) = f x >> for_each f xs

  abbrev pub load_file : Text × Bool → Done
  load_file (filename, true) = load_plugin filename
  load_file (filename, false) = pure tt

  -- The constructor, on members that are not set yet.
  unfoldable pub plugin_manager : Text → Done
  plugin_manager plugin_dir s =
      elim (not (P.exists plugin_dir s.platform) || not (P.is_directory plugin_dir s.platform)) [
        | true ↦ throw (plugin_exception (plugin_dir ++ codes " is not a directory")) s
        | false ↦
            (for_each load_file (P.directory plugin_dir s.platform)
                >> modify (λ s. record s { watched = some plugin_dir }))
              s
      ]

  -- The destructor: the watcher, the plugins, the libraries. `delete watcher` waits for the thread of
  -- the watcher, and throws what has ended that thread if it has not returned.
  unfoldable pub destruct : Result Exception (Unit {0}) → Done
  destruct waited = do
    modify (λ s. record s { watched = none })
    λ s. (waited, s)
    λ s. for_each destroy (Q.values s.plugins) s
    λ s. for_each close (Q.values s.handles) s

  abbrev log_name : P.Plugin → Done
  log_name plugin = modify (λ s. record s { log = s.log ++ (P.name plugin s.platform ∷ []) })

  unfoldable pub list_plugins : Done
  list_plugins = do
    modify (λ s. record s { log = s.log ++ (codes "=== currently loaded plugins" ∷ []) })
    λ s. for_each log_name (Q.values s.plugins) s
