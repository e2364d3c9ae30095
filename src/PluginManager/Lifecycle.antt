-- ===== src/PluginManager/Lifecycle.antt =====
-- The whole life of a manager: its constructor, any notifications, its destructor.
use sepm_group.Prelude.{◌≡◌, ◌⊎◌, List, map, [], ◌++◌}
use sepm_group.Prelude.Effects.{ok, err, Result}
use sepm_group.Sdc.{Exception}
use sepm_group.QMap.{QMap, IsOrdered}
use sepm_group.PluginManager.{Platform, PluginManager, unset, Done}
use sepm_group.PluginManager.Trace.{Trace, start, WellFormed, Loaded}
use sepm_group.PluginManager.Steps.{Keeps}

module _ (Q : QMap) (O : IsOrdered Q) (P : Platform) where
  pub unset-WellFormed : (os : P.State) → WellFormed Q O P (unset Q P os)
  unset-WellFormed os = record {
    loaded = [];
    loaded-Distinct = tt;
    plugins = O.entries-empty;
    handles = O.entries-empty;
    trace = start;
  }

  abbrev Preserves : Done Q P → Type 0
  Preserves m = (s : PluginManager Q P) → WellFormed Q O P s → Keeps Q O P (m s)

  abbrev Retired :
      List (Loaded P)
      → List P.Handle
      → PluginManager Q P
      → Result Exception (Unit {0}) × PluginManager Q P
      → Type 0
  Retired alive idle s out =
      (out.0 ≡ ok tt)
      × Trace P out.1.calls [] (idle ++ map (λ l. l.1) alive)
      × (out.1.handles ≡ s.handles)

  -- Nothing is left.
  abbrev pub Ended : Result Exception (Unit {0}) × PluginManager Q P → Type 0
  Ended out = (out.0 ≡ ok tt) × Trace P out.1.calls [] []

  -- The notifications have returned, and then the destructor left nothing; or they were ended by an
  -- exception, and then the destructor throws it as well, and keeps the plugins and the libraries.
  abbrev pub Released :
      Result Exception (Unit {0}) × PluginManager Q P
      → Result Exception (Unit {0}) × PluginManager Q P
      → Type 0
  Released told out =
      ((told.0 ≡ ok tt) × Ended out)
      ⊎ ((e : Exception) × (told.0 ≡ err e)
          × (out.0 ≡ err e)
          × (out.1.calls ≡ told.1.calls)
          × (out.1.plugins ≡ told.1.plugins)
          × (out.1.handles ≡ told.1.handles))
