-- ===== src/PluginManager/Hello.antt =====
-- plugins/hello_world/hello.cpp: the plugin that logs its construction and its destruction.
use sepm_group.Prelude.{Bool, some, true, List, [], ◌∷◌, Text, codes}
use sepm_group.Logging.{Logger}
use sepm_group.Logging.Printer.{info_macro}
use sepm_group.ProgramOptions.{Setting}
use sepm_group.PluginManager.{Platform}

-- `HelloPlugin` has no members.
pub data HelloPlugin : Type 0 where
  hello_plugin : HelloPlugin

module _ (X : Setting) where
  -- The constructor and the destructor.
  unfoldable pub construct : Logger → HelloPlugin × Logger
  construct l = (
    hello_plugin,
    info_macro X.surroundings X.main_thread X.file 12 (codes "Constructed HelloPlugin!" ∷ []) l,
  )

  unfoldable pub delete_plugin : HelloPlugin → Logger → Logger
  delete_plugin self l =
      info_macro X.surroundings X.main_thread X.file 20 (codes "Destroyed HelloPlugin!" ∷ []) l

  abbrev pub plugin_name : HelloPlugin → Text
  plugin_name self = codes "Hello World Plugin"

  -- `make_plugin` of the library
  unfoldable pub make_hello_plugin : Logger → HelloPlugin × Logger
  make_hello_plugin l = construct l

  -- A platform on which every library is this plugin, with these files in the directory.
  abbrev pub hello_platform : List (Text × Bool) → Platform
  hello_platform files = record {
    State = Logger;
    Handle = Text;
    Plugin = HelloPlugin;
    Entry = Unit {0};
    exists = λ _ _. true;
    is_directory = λ _ _. true;
    directory = λ _ _. files;
    dlopen = λ path l. (some path, l);
    dlerror = λ _. [];
    find_make_plugin = λ _ _. some tt;
    call_make_plugin = λ _ l. make_hello_plugin l;
    name = λ p _. plugin_name p;
    destroy = λ p l. delete_plugin p l;
    dlclose = λ _ l. l;
  }
