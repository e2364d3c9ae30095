-- ===== src/PluginManager/Loading.antt =====
-- The outcomes of loadPlugin.
use sepm_group.Prelude.{
  ◌≡◌, refl, sym, subst, ap, ◌∙◌, true, false, Option, none, some, Option-cases, ◌⊎◌, inl, inr,
  Text, codes, ◌++◌, arith,
}
use sepm_group.Prelude.Effects.{ok, err, Result, bind_result, bind_cases}
use sepm_group.Sdc.{Exception, plugin_exception, undefined}
use sepm_group.QMap.{QMap, IsOrdered, has, has-put}
use sepm_group.PluginManager.{
  Platform, PluginManager, opened, opens, platform_call, remove_plugin, install, load_new,
  load_plugin,
}
use sepm_group.PluginManager.Trace.{WellFormed}
use sepm_group.PluginManager.Steps.{remove_plugin-Removed, install-eq, install_undefined}

module _ (Q : QMap) (O : IsOrdered Q) (P : Platform) (k : Text) where
  abbrev path : Text
  path = codes "./plugins/" ++ k

  -- After the removal of the old plugin: loaded; or `dlopen` failed, which is reported, and the name is
  -- not loaded; or the library that `dlopen` gave has no entry point, which is undefined.
  abbrev pub Settled : PluginManager Q P → Result Exception (Unit {0}) × PluginManager Q P → Type 0
  Settled s out =
      ((out.0 ≡ ok tt) × (Q.contains k out.1.plugins ≡ true))
      ⊎ (((P.dlopen path s.platform).0 ≡ none)
          × ((what : Text) × (out.0 ≡ err (plugin_exception what)))
          × (Q.contains k out.1.plugins ≡ false))
      ⊎ ((handle : P.Handle) × ((P.dlopen path s.platform).0 ≡ some handle)
          × (P.find_make_plugin handle (P.dlopen path s.platform).1 ≡ none)
          × (out.0 ≡ err undefined))

  install-Settled :
      (h : P.Handle) (s : PluginManager Q P)
      → (P.dlopen path s.platform).0 ≡ some h
      → Settled s (install Q P k h (platform_call Q P (opened h) (P.dlopen path s.platform).1 s))
  install-Settled h s found =
      let t = platform_call Q P (opened h) (P.dlopen path s.platform).1 s in
      elim (Option-cases (P.find_make_plugin h t.platform)) [
        | inl e ↦
            subst (Settled s) (sym (install_undefined Q O P k h t e))
              (inr (inr (h, found, e, refl)))
        | inr (entry, e) ↦
            let plugin = (P.call_make_plugin entry t.platform).0 in
            subst (Settled s) (sym (install-eq Q O P k h entry t e)) (
              inl (
                refl,
                O.contains-has k (Q.insert k plugin t.plugins)
                    ∙ ap (has k) (O.entries-insert k plugin t.plugins)
                    ∙ has-put k plugin (O.entries t.plugins),
              ))
      ]

  opens-some :
      (r : Option P.Handle × P.State) (h : P.Handle) (s : PluginManager Q P)
      → r.0 ≡ some h
      → opens Q P path r s ≡ (ok h, platform_call Q P (opened h) r.1 s)
  opens-some (none, os) h s e = absurd (ground (arith, e))
  opens-some (some h', os) h s e =
      let same_handle : h' ≡ h = ground (arith, e) in
      ap (λ g. (ok g, platform_call Q P (opened g) os s)) same_handle

  refused-Settled :
      (r : Option P.Handle × P.State) (s : PluginManager Q P)
      → P.dlopen path s.platform ≡ r
      → r.0 ≡ none
      → has k (O.entries s.plugins) ≡ false
      → Settled s (bind_result (opens Q P path r s) (install Q P k))
  refused-Settled (none, os) s e h free = inr (
      inl (
        ap (λ (r : Option P.Handle × P.State). r.0) e,
        (_, refl),
        O.contains-has k s.plugins ∙ free,
      ))
  refused-Settled (some g, os) s e h free = absurd (ground (arith, h))

  load_new-Settled :
      (s : PluginManager Q P) → has k (O.entries s.plugins) ≡ false → Settled s (load_new Q P k s)
  unfolding load_new
  load_new-Settled s free = elim (Option-cases (P.dlopen path s.platform).0) [
    | inl e ↦ refused-Settled (P.dlopen path s.platform) s refl e free
    | inr (h, e) ↦
        subst (λ r. Settled s (bind_result r (install Q P k)))
          (sym (opens-some (P.dlopen path s.platform) h s e)) (install-Settled h s e)
  ]

  -- loadPlugin returns with the name loaded; or `dlopen` fails after the removal of the old plugin, a
  -- PluginException is thrown, and the name is not loaded, even if it was before; or the library
  -- that `dlopen` gave has no entry point and the behaviour is undefined.
  pub load_plugin-Settled :
      (s : PluginManager Q P)
      → WellFormed Q O P s
      → Settled (remove_plugin Q P k s).1 (load_plugin Q P k s)
  unfolding load_plugin
  load_plugin-Settled s w =
      let (e, (_, free)) = remove_plugin-Removed Q O P k s w in
      bind_cases (Settled (remove_plugin Q P k s).1) (remove_plugin Q P k) (λ _. load_new Q P k) s
        (λ _ _. load_new-Settled (remove_plugin Q P k s).1 free)
        (λ x f. absurd (ground (arith, e, f)))
