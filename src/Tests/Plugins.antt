-- ===== src/Tests/Plugins.antt =====
-- common/PluginManager.cpp with maps as lists and a platform that numbers libraries and plugins.
use sepm_group.Prelude.{
  ℕ, suc, ◌≡◌, refl, ap, true, false, some, none, List, [], ◌∷◌, Text, codes, same, if◌then◌else◌,
}
use sepm_group.Prelude.Effects.{Result, ok}
use sepm_group.Sdc.{Exception}
use sepm_group.QMap.{QMap, IsOrdered, has, find, put, erase, seconds, text_less}
use sepm_group.FileWatcher.{Change, Ending, left, create, modified, deleted}
use sepm_group.PluginManager.{
  Platform, PluginManager, unset, load_plugin, notified, for_each, file_changed, plugin_manager,
  destruct, unload, remove_plugin, install, load_new, opened, made, destroyed, closed,
}
use sepm_group.PluginManager.Lifecycle.{unset-WellFormed}
use sepm_group.PluginManager.Watched.{watching, watching-each}
use sepm_group.Tests.Watching.{batches, batches-AreBatches}
use sepm_group.PluginManager.Loading.{Settled, load_plugin-Settled}

abbrev pub list_map : QMap
list_map = record {
  Map = λ A. List (Text × A);
  empty = [];
  contains = λ k m. has k m;
  at = λ k m. find k m;
  insert = λ k v m. put k v m;
  remove = λ k m. erase k m;
  values = λ m. seconds m;
  items = λ m. m;
}

pub list_map-IsOrdered : IsOrdered list_map
list_map-IsOrdered = record {
  entries = λ m. m;
  entries-empty = refl;
  contains-has = λ k m. refl;
  at-find = λ k m. refl;
  entries-insert = λ k v m. refl;
  entries-remove = λ k m. refl;
  values-entries = λ m. refl;
  items-entries = λ m. refl;
}

-- Everything but `broken` can be opened.
abbrev pub counting : Platform
counting = record {
  State = ℕ;
  Handle = ℕ;
  Plugin = ℕ;
  Entry = Unit {0};
  exists = λ _ _. true;
  is_directory = λ _ _. true;
  directory = λ _ _. (codes "hello", true) ∷ (codes "old", false) ∷ [];
  dlopen = λ path n. if same path (codes "./plugins/broken") then (none, n) else (some n, suc n);
  dlerror = λ _. codes "no file";
  find_make_plugin = λ _ _. some tt;
  call_make_plugin = λ _ n. (n, suc n);
  name = λ _ _. codes "Hello World Plugin";
  destroy = λ _ n. n;
  dlclose = λ _ n. n;
}

abbrev dir : Text
dir = codes "./plugins"

abbrev changes : List (Change)
changes =
    (codes "a", false, create) ∷ (codes "hello", false, modified) ∷ (codes "a", false, deleted) ∷ []

abbrev begun : PluginManager list_map counting
begun = (plugin_manager list_map counting dir (unset list_map counting 0)).1

noticed : (for_each list_map counting (notified list_map counting) changes begun).0 ≡ ok tt
unfolding plugin_manager file_changed load_plugin remove_plugin unload load_new install has find put
    erase same text_less
noticed = refl

-- A changed plugin is loaded again, and a deleted one stays loaded.
the_calls :
    (for_each list_map counting (notified list_map counting) changes begun).1.calls
    ≡ opened 0 ∷ made 1 0 ∷ opened 2 ∷ made 3 2 ∷ destroyed 1 ∷ closed 0 ∷ opened 4 ∷ made 5 4 ∷ []
unfolding plugin_manager file_changed load_plugin remove_plugin unload load_new install has find put
    erase same text_less
the_calls = refl

abbrev told : Result Exception (Unit {0}) × PluginManager list_map counting
told = for_each list_map counting (notified list_map counting) changes begun

-- The notifications come from the bytes of two batches of events.
abbrev watched : Result Exception Ending × PluginManager list_map counting
watched = watching list_map counting [] batches none begun

watched-left : watched.0 ≡ ok left
unfolding load_plugin load_new install remove_plugin unload file_changed plugin_manager has find put
    erase same text_less
watched-left =
    ap (λ (r : Result Exception Ending × PluginManager list_map counting). r.0)
      (watching-each list_map counting [] batches none begun batches-AreBatches)

-- After a notification of a library that cannot be opened, nothing is released.
abbrev broken : Result Exception (Unit {0}) × PluginManager list_map counting
broken =
    for_each list_map counting (notified list_map counting) ((codes "broken", false, create) ∷ [])
      begun

kept_test :
    ((destruct list_map counting broken.0 broken.1).0 ≡ broken.0)
    × ((destruct list_map counting broken.0 broken.1).1.calls ≡ opened 0 ∷ made 1 0 ∷ [])
unfolding destruct plugin_manager file_changed load_plugin remove_plugin unload load_new install has
    find put erase same text_less
kept_test = (refl, refl)

load_plugin-Settled_example :
    Settled list_map list_map-IsOrdered counting
      (codes "broken")
      (remove_plugin list_map counting (codes "broken") (unset list_map counting 0)).1
      (load_plugin list_map counting (codes "broken") (unset list_map counting 0))
load_plugin-Settled_example =
    load_plugin-Settled list_map list_map-IsOrdered counting (codes "broken")
      (unset list_map counting 0) (unset-WellFormed list_map list_map-IsOrdered counting 0)
