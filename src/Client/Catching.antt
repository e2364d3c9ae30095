-- ===== src/Client/Catching.antt =====
-- How the main function of the client ends.
use sepm_group.Prelude.{
  ◌≡◌, ◌≢◌, refl, sym, ap, subst, ◌∙◌, true, not, ◌||◌, List, ◌++◌, Text, codes, ◌==◌, Bool-cases,
  inl, inr, arith,
}
use sepm_group.Prelude.Effects.{Result, ok, err, bind_cases, bind_result, ◌>>◌, modify}
use sepm_group.Sdc.{Exception, plugin_exception}
use sepm_group.QMap.{QMap}
use sepm_group.ExitHandler.{Process, set_handler, i}
use sepm_group.ProgramOptions.{ProgramOptions, Setting, parse_args, parse_args_read, parse_args_err}
use sepm_group.NotifyPipe.{System}
use sepm_group.FileWatcher.Owner.{FileWatcher, file_watcher, delete_watcher}
use sepm_group.PluginManager.{Platform, PluginManager, plugin_manager}
use sepm_group.Client.{
  ClientState, Act, client_options, newline, ending_with, on_client, on_system, on_manager,
  on_signal, say, manage, with_demo, block, catch_plugin, ending_with_returned, print_help,
  help_or_watch, client_main,
}

module _ (O : ProgramOptions) (Q : QMap) (P : Platform) (U : System) (X : Setting) where
  abbrev State : Type 0
  State = Process (ClientState Q P U)

  -- What is thrown is not a PluginException.
  abbrev pub NoPluginException : {A : Type 0} → Result Exception A × State → Type 0
  NoPluginException out = (what : Text) → out.0 ≢ err (plugin_exception what)

  catch_plugin-NoPluginException :
      (r : Result Exception (Unit {0})) (p : State)
      → NoPluginException (catch_plugin O Q P U X (r, p))
  catch_plugin-NoPluginException (ok v) p what e = ground (arith, e)
  catch_plugin-NoPluginException (err (plugin_exception w)) p what e = ground (arith, e)
  catch_plugin-NoPluginException (err x) p what e = ground (arith, e)

  help_or_watch-NoPluginException :
      (vm : O.VariablesMap) (p : State) → NoPluginException (help_or_watch O Q P U X vm p)
  unfolding help_or_watch print_help
  help_or_watch-NoPluginException vm p = elim (Bool-cases (O.count (codes "help") vm == 0)) [
    | inl e ↦
        rw (help_or_watch, e)
          (bind_cases NoPluginException (λ q. catch_plugin O Q P U X (block O Q P U X q)) _ _
            (λ _ _ what h. ground (arith, h))
            (λ _ given what h. catch_plugin-NoPluginException _ _ what (given ∙ ground (arith, h))))
    | inr e ↦ rw (help_or_watch, e) (λ what h. ground (arith, h))
  ]

  -- Whatever the arguments, the platform and the system are: a PluginException does not leave the main
  -- function of the client.
  pub client_main-NoPluginException :
      (args : List Text) (p : State) → NoPluginException (client_main O Q P U X args p)
  unfolding client_main
  client_main-NoPluginException args p =
      bind_cases NoPluginException (parse_args O client_options args) (help_or_watch O Q P U X) p
        (λ vm _. help_or_watch-NoPluginException vm _)
        (λ x e what h.
          let (_, other) = parse_args_err O client_options args p x e in ground (arith, h, other))

  -- A run that throws this and has put nothing into the error stream.
  abbrev Throws : {A : Type 0} → Text → State → Result Exception A × State → Type 0
  Throws what p out = (out.0 ≡ err (plugin_exception what)) × (out.1.rest.cerr ≡ p.rest.cerr)

  abbrev complaint : Text
  complaint = codes "./plugins" ++ codes " is not a directory"

  -- There is no directory of plugins.
  abbrev pub HasNoPlugins : State → Type 0
  HasNoPlugins p =
      (not (P.exists (codes "./plugins") p.rest.manager.platform)
        || not (P.is_directory (codes "./plugins") p.rest.manager.platform))
      ≡ true

  plugin_manager-refuses :
      (p : State)
      → HasNoPlugins p
      → plugin_manager Q P (codes "./plugins") p.rest.manager
        ≡ (err (plugin_exception complaint), p.rest.manager)
  unfolding plugin_manager
  plugin_manager-refuses p h = rw (plugin_manager, h) refl

  manage-Throws : (p : State) → HasNoPlugins p → Throws complaint p (manage O Q P U X p)
  unfolding manage
  manage-Throws p h =
      let refused =
        ap (λ (o : Result Exception (Unit {0}) × PluginManager Q P). o.0)
          (plugin_manager-refuses p h) in
      bind_cases (Throws complaint p)
        (on_manager O Q P U X (plugin_manager Q P (codes "./plugins"))) _ p
        (λ _ e. absurd (ground (arith, e, refused)))
        (λ x e. (ground (arith, sym e ∙ refused), refl))

  -- The system makes and joins threads.
  abbrev pub IsReliable : Type 0
  IsReliable =
      ((dir : Text) (s : U.State) → (w : FileWatcher U) × ((file_watcher U dir s).0 ≡ ok w))
      × ((w : FileWatcher U) (s : U.State) → (delete_watcher U w s).0 ≡ ok tt)

  -- Returned, with this at the end of the error stream.
  abbrev Reports : {A : Type 0} → A → Text → State → Result Exception A × State → Type 0
  Reports v what p out = (out.0 ≡ ok v) × (out.1.rest.cerr ≡ p.rest.cerr ++ (what ++ newline))

  catch_plugin-Reports :
      (what : Text) (p : State) (r : Result Exception (Unit {0})) (q : State)
      → Throws what p (r, q)
      → Reports tt what p (catch_plugin O Q P U X (r, q))
  catch_plugin-Reports what p (ok v) q (thrown, kept) = absurd (ground (arith, thrown))
  catch_plugin-Reports what p (err (plugin_exception w)) q (thrown, kept) =
      let same_text : w ≡ what = ground (arith, thrown) in
      (refl, ap (λ t. t ++ (w ++ newline)) kept ∙ ap (λ t. p.rest.cerr ++ (t ++ newline)) same_text)
  catch_plugin-Reports what p (err x) q (thrown, kept) = absurd (ground (arith, thrown))

  module _ (K : IsReliable) where
    ending_with-Throws :
        (w : FileWatcher U) (body : Act O Q P U X (Unit {0})) (what : Text) (p : State)
        → Throws what p (body p)
        → Throws what p (ending_with (on_system O Q P U X (delete_watcher U w)) body p)
    ending_with-Throws w body what p (thrown, kept) =
        subst (Throws what p)
          (sym (
            ending_with_returned (on_system O Q P U X (delete_watcher U w)) body p
              (K.1 w (body p).1.rest.system)))
          (thrown, kept)

    with_demo-Throws : (p : State) → HasNoPlugins p → Throws complaint p (with_demo O Q P U X p)
    unfolding with_demo set_handler i
    with_demo-Throws p h =
        bind_cases (Throws complaint p) (on_system O Q P U X (file_watcher U (codes "./ui"))) _ p
          (λ demo _.
            ending_with-Throws demo
              (modify (set_handler (ClientState Q P U) (on_signal O Q P U X)) >> manage O Q P U X)
              complaint (on_system O Q P U X (file_watcher U (codes "./ui")) p).1
              (manage-Throws
                (set_handler (ClientState Q P U) (on_signal O Q P U X)
                  (on_system O Q P U X (file_watcher U (codes "./ui")) p).1)
                h))
          (λ x e.
            absurd (let (_, made) = K.0 (codes "./ui") p.rest.system in ground (arith, e, made)))

    block-Throws : (p : State) → HasNoPlugins p → Throws complaint p (block O Q P U X p)
    unfolding block
    block-Throws p h =
        bind_cases (Throws complaint p) (on_system O Q P U X (file_watcher U (codes "./ui"))) _ p
          (λ watcher _.
            ending_with-Throws watcher (with_demo O Q P U X) complaint _
              (with_demo-Throws (on_system O Q P U X (file_watcher U (codes "./ui")) p).1 h))
          (λ x e.
            absurd (let (_, made) = K.0 (codes "./ui") p.rest.system in ground (arith, e, made)))

    help_or_watch-Reports :
        (vm : O.VariablesMap) (p : State)
        → (O.count (codes "help") vm == 0) ≡ true
        → HasNoPlugins p
        → Reports 0 complaint p (help_or_watch O Q P U X vm p)
    unfolding help_or_watch
    help_or_watch-Reports vm p e h =
        rw (help_or_watch, e)
          (bind_cases (Reports 0 complaint p) (λ q. catch_plugin O Q P U X (block O Q P U X q)) _ q
            (λ _ _. (refl, reported.1))
            (λ x thrown. absurd (let returned = reported.0 in ground (arith, thrown, returned))))
      where
        q : State
        q = (on_client O Q P U X (say O Q P U X X.main_thread 29 (codes "Hello from client")) p).1

        reported : Reports tt complaint p (catch_plugin O Q P U X (block O Q P U X q))
        reported = catch_plugin-Reports complaint p _ _ (block-Throws q h)

    -- On a system that makes and joins threads, and without a directory of plugins: the client whose
    -- options could be read and do not ask for help says so in the error stream, and returns 0.
    pub client_main-NoPlugins :
        (args : List Text) (vm : O.VariablesMap) (p : State)
        → O.parse client_options args ≡ ok vm
        → O.count (codes "help") vm ≡ 0
        → HasNoPlugins p
        → ((client_main O Q P U X args p).0 ≡ ok 0)
          × ((client_main O Q P U X args p).1.rest.cerr
              ≡ p.rest.cerr ++ codes "./plugins is not a directory\n")
    unfolding client_main
    client_main-NoPlugins args vm p read no_help h =
        subst (λ r. Reports 0 complaint p (bind_result r (help_or_watch O Q P U X)))
          (sym (parse_args_read O client_options args p vm read))
          (help_or_watch-Reports vm p (ground (arith, no_help)) h)
