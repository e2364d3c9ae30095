-- ===== src/PluginManager/Steps.antt =====
-- What unloading and loading do to well-formed members.
use sepm_group.Prelude.{
  ◌≡◌, ◌≢◌, refl, sym, subst, ap, ◌∙◌, true, false, Bool-cases, Option, none, some, Option-cases,
  inl, inr, List, [], ◌∷◌, ◌++◌, Text, codes,
}
use sepm_group.Prelude.Effects.{ok, err, Result, bind_result, bind_cases}
use sepm_group.Sdc.{Exception, undefined}
use sepm_group.QMap.{
  QMap, IsOrdered, has, has-map_values, put-map_values, erase-map_values, find-map_values, seconds,
  seconds-append, put-Split, erase-Split, has-erase, erase-Distinct, put-Distinct, put, erase, find,
  map_values,
}
use sepm_group.PluginManager.{
  Platform, PluginManager, Event, opened, made, destroyed, closed, unload, remove_plugin, install,
  load_new, load_plugin, platform_call, opens,
}
use sepm_group.PluginManager.Trace.{Trace, load, retire, shut, WellFormed, Loaded}

module _ (Q : QMap) (O : IsOrdered Q) (P : Platform) where
  abbrev unloaded : Text → P.Plugin → P.Handle → PluginManager Q P → PluginManager Q P
  unloaded k p h s = record s {
    plugins = Q.remove k s.plugins;
    handles = Q.remove k s.handles;
    platform = P.dlclose h (P.destroy p s.platform);
    calls = (s.calls ++ (destroyed p ∷ [])) ++ (closed h ∷ []);
  }

  unload-eq :
      (k : Text) (p : P.Plugin) (h : P.Handle) (s : PluginManager Q P)
      → Q.at k s.plugins ≡ some p
      → Q.at k s.handles ≡ some h
      → unload Q P k s ≡ (ok tt, unloaded k p h s)
  unfolding unload
  unload-eq k p h s e f = rw (e, f)

  unloaded-Trace :
      (es : List (Event P)) (k k' : Text) (m a b : List (Text × Loaded P)) (l : Loaded P)
      → m ≡ a ++ ((k', l) ∷ b)
      → erase k m ≡ a ++ b
      → Trace P es (seconds m) []
      → Trace P ((es ++ (destroyed l.0 ∷ [])) ++ (closed l.1 ∷ [])) (seconds (erase k m)) []
  unloaded-Trace es k k' m a b l x y t =
      subst (λ v. Trace P ((es ++ (destroyed l.0 ∷ [])) ++ (closed l.1 ∷ [])) v [])
        (sym (ap seconds y ∙ seconds-append a b))
        (shut [] [] l.1 (
          retire (seconds a) (seconds b) l.0 l.1
            (subst (λ v. Trace P es v []) (ap seconds x ∙ seconds-append a ((k', l) ∷ b)) t)))

  -- Members without a plugin of the name.
  abbrev pub Free : Text → PluginManager Q P → Type 0
  Free k s = WellFormed Q O P s × (has k (O.entries s.plugins) ≡ false)

  abbrev pub Removed : Text → Result Exception (Unit {0}) × PluginManager Q P → Type 0
  Removed k out = (out.0 ≡ ok tt) × Free k out.1

  unload-Removed :
      (k : Text) (s : PluginManager Q P)
      → WellFormed Q O P s
      → Q.contains k s.plugins ≡ true
      → Removed k (unload Q P k s)
  unload-Removed k s w c =
      let present =
        sym (has-map_values (λ l. l.0) k w.loaded)
        ∙ ap (has k) (sym w.plugins)
        ∙ sym (O.contains-has k s.plugins)
        ∙ c in
      let (a, l, b, k', x, y, z) = erase-Split k w.loaded present in
      let halves : O.entries (Q.remove k s.plugins) ≡ map_values (λ l. l.0) (erase k w.loaded) =
        O.entries-remove k s.plugins
        ∙ ap (erase k) w.plugins
        ∙ erase-map_values (λ l. l.0) k w.loaded in
      subst (Removed k)
        (sym (
          unload-eq k l.0 l.1 s
            (O.at-find k s.plugins
              ∙ ap (find k) w.plugins
              ∙ find-map_values (λ l. l.0) k l w.loaded z)
            (O.at-find k s.handles
              ∙ ap (find k) w.handles
              ∙ find-map_values (λ l. l.1) k l w.loaded z)))
        (
          refl,
          (
            record {
              loaded = erase k w.loaded;
              loaded-Distinct = erase-Distinct k w.loaded w.loaded-Distinct;
              plugins = halves;
              handles =
                  O.entries-remove k s.handles
                  ∙ ap (erase k) w.handles
                  ∙ erase-map_values (λ l. l.1) k w.loaded;
              trace = unloaded-Trace s.calls k k' w.loaded a b l x y w.trace;
            },
            ap (has k) halves
                ∙ has-map_values (λ l. l.0) k (erase k w.loaded)
                ∙ has-erase k w.loaded w.loaded-Distinct,
          ),
        )

  pub remove_plugin-Removed :
      (k : Text) (s : PluginManager Q P) → WellFormed Q O P s → Removed k (remove_plugin Q P k s)
  unfolding remove_plugin
  remove_plugin-Removed k s w = elim (Bool-cases (Q.contains k s.plugins)) [
    | inl c ↦ rw (remove_plugin, c) (unload-Removed k s w c)
    | inr c ↦ rw (remove_plugin, c) (refl, (w, sym (O.contains-has k s.plugins) ∙ c))
  ]

  abbrev pub installed : Text → P.Handle → P.Entry → PluginManager Q P → PluginManager Q P
  installed k h entry s =
      let made_plugin = P.call_make_plugin entry s.platform in
      record s {
        plugins = Q.insert k made_plugin.0 s.plugins;
        handles = Q.insert k h s.handles;
        platform = made_plugin.1;
        calls = s.calls ++ (made made_plugin.0 h ∷ []);
      }

  pub install-eq :
      (k : Text) (h : P.Handle) (entry : P.Entry) (s : PluginManager Q P)
      → P.find_make_plugin h s.platform ≡ some entry
      → install Q P k h s ≡ (ok tt, installed k h entry s)
  unfolding install
  install-eq k h entry s e = rw e

  pub install_undefined :
      (k : Text) (h : P.Handle) (s : PluginManager Q P)
      → P.find_make_plugin h s.platform ≡ none
      → install Q P k h s ≡ (err undefined, s)
  unfolding install
  install_undefined k h s e = rw e

  -- Unless the behaviour was undefined, the members are well-formed.
  abbrev pub Keeps : Result Exception (Unit {0}) × PluginManager Q P → Type 0
  Keeps out = out.0 ≢ err undefined → WellFormed Q O P out.1

  installed-WellFormed :
      (k : Text) (h : P.Handle) (entry : P.Entry) (s : PluginManager Q P) (os : P.State)
      → Free k s
      → WellFormed Q O P (installed k h entry (platform_call Q P (opened h) os s))
  installed-WellFormed k h entry s os (w, free) =
      let p = (P.call_make_plugin entry os).0 in
      let absent = sym (has-map_values (λ l. l.0) k w.loaded) ∙ ap (has k) (sym w.plugins) ∙ free in
      let (a, b, x, y) = put-Split k (p, h) w.loaded absent in
      record {
        loaded = put k (p, h) w.loaded;
        loaded-Distinct = put-Distinct k (p, h) w.loaded absent w.loaded-Distinct;
        plugins =
            O.entries-insert k p s.plugins
            ∙ ap (put k p) w.plugins
            ∙ put-map_values (λ l. l.0) k (p, h) w.loaded;
        handles =
            O.entries-insert k h s.handles
            ∙ ap (put k h) w.handles
            ∙ put-map_values (λ l. l.1) k (p, h) w.loaded;
        trace =
            subst (λ v. Trace P ((s.calls ++ (opened h ∷ [])) ++ (made p h ∷ [])) v [])
              (sym (ap seconds y ∙ seconds-append a ((k, (p, h)) ∷ b)))
              (load (seconds a) (seconds b) p h
                (subst (λ v. Trace P s.calls v []) (ap seconds x ∙ seconds-append a b) w.trace));
      }

  install-Keeps :
      (k : Text) (h : P.Handle) (s : PluginManager Q P) (os : P.State)
      → Free k s
      → Keeps (install Q P k h (platform_call Q P (opened h) os s))
  install-Keeps k h s os f = elim (Option-cases (P.find_make_plugin h os)) [
    | inl e ↦
        subst Keeps (sym (install_undefined k h (platform_call Q P (opened h) os s) e))
          (λ defined. absurd (defined refl))
    | inr (entry, e) ↦
        subst Keeps (sym (install-eq k h entry (platform_call Q P (opened h) os s) e))
          (λ _. installed-WellFormed k h entry s os f)
  ]

  load_new-Keeps : (k : Text) (s : PluginManager Q P) → Free k s → Keeps (load_new Q P k s)
  unfolding load_new
  load_new-Keeps k s f = after (P.dlopen path s.platform)
    where
      path : Text
      path = codes "./plugins/" ++ k

      after :
          (r : Option P.Handle × P.State) → Keeps (bind_result (opens Q P path r s) (install Q P k))
      after (none, os) = λ _. record {
        loaded = f.0.loaded;
        loaded-Distinct = f.0.loaded-Distinct;
        plugins = f.0.plugins;
        handles = f.0.handles;
        trace = f.0.trace;
      }
      after (some h, os) = install-Keeps k h s os f

  -- Loading keeps the members well-formed, whether it succeeds or the library cannot be opened.
  pub load_plugin-Keeps :
      (k : Text) (s : PluginManager Q P) → WellFormed Q O P s → Keeps (load_plugin Q P k s)
  unfolding load_plugin
  load_plugin-Keeps k s w =
      bind_cases Keeps (remove_plugin Q P k) (λ _. load_new Q P k) s
        (λ _ _. load_new-Keeps k (remove_plugin Q P k s).1 (remove_plugin-Removed k s w).1)
        (λ _ _ _. (remove_plugin-Removed k s w).1.0)
