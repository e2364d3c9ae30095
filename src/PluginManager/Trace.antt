-- ===== src/PluginManager/Trace.antt =====
-- The order of loading and unloading that a user of dlopen and of Plugin::destroy has to keep.
use sepm_group.Prelude.{◌≡◌, List, [], ◌∷◌, ◌++◌, Text}
use sepm_group.QMap.{QMap, IsOrdered, seconds, map_values, Distinct}
use sepm_group.PluginManager.{Platform, PluginManager, Event, opened, made, destroyed, closed}

module _ (P : Platform) where
  -- A plugin and the library that its code is in.
  abbrev pub Loaded : Type 0
  Loaded = P.Plugin × P.Handle

  -- After these calls the plugins `alive` exist, each in its open library, and the libraries `idle`
  -- are open without a plugin. A plugin is destroyed while its library is open, and a library is
  -- closed when its plugin is gone, each once.
  pub data Trace : List (Event P) → List Loaded → List P.Handle → Type 0 where
    start : Trace [] [] []
    load :
        {es : List (Event P)} {idle : List P.Handle} (a b : List Loaded) (p : P.Plugin)
        (h : P.Handle)
        → Trace es (a ++ b) idle
        → Trace ((es ++ (opened h ∷ [])) ++ (made p h ∷ [])) (a ++ ((p, h) ∷ b)) idle
    retire :
        {es : List (Event P)} {idle : List P.Handle} (a b : List Loaded) (p : P.Plugin)
        (h : P.Handle)
        → Trace es (a ++ ((p, h) ∷ b)) idle
        → Trace (es ++ (destroyed p ∷ [])) (a ++ b) (idle ++ (h ∷ []))
    shut :
        {es : List (Event P)} {alive : List Loaded} (a b : List P.Handle) (h : P.Handle)
        → Trace es alive (a ++ (h ∷ b))
        → Trace (es ++ (closed h ∷ [])) alive (a ++ b)

module _ (Q : QMap) (O : IsOrdered Q) (P : Platform) where
  -- The two maps have the same keys: they are the two halves of one list of loaded plugins, which
  -- are those that the calls so far have left alive.
  pub record WellFormed (s : PluginManager Q P) : Type 0 where
    pub loaded : List (Text × Loaded P)
    pub loaded-Distinct : Distinct loaded
    pub plugins : O.entries s.plugins ≡ map_values (λ l. l.0) loaded
    pub handles : O.entries s.handles ≡ map_values (λ l. l.1) loaded
    pub trace : Trace P s.calls (seconds loaded) []
