-- ===== src/ViewRefresher/Refreshing.antt =====
-- What a change of a file does to the views.
use sepm_group.Prelude.{
  ◌≡◌, sym, ap, ◌∙◌, Bool, List, [], ◌∷◌, ◌++◌, Text, append-nil, append_assoc,
}
use sepm_group.QMap.{QMap, IsOrdered, put}
use sepm_group.FileWatcher.{FileEvent}
use sepm_group.ViewRefresher.{
  ViewRefresher, ViewCall, clear_component_cache, set_source, show, add_watch, refresh_view,
  invoke_all, view_file_changed, run, process_events,
}

module _ (Q : QMap) (View : Type 0) where
  -- The calls of a view that reload it.
  abbrev pub refreshes : View → Text → List (ViewCall Q View)
  refreshes view url = clear_component_cache view ∷ set_source view url ∷ show view ∷ []

  -- The refreshes of some views, one after the other.
  abbrev pub all_refreshes : List (Text × View) → List (ViewCall Q View)
  all_refreshes [] = []
  all_refreshes ((layout, view) ∷ i) = refreshes view layout ++ all_refreshes i

  abbrev requests : List (Text × View) → List (View × Text)
  requests [] = []
  requests ((layout, view) ∷ i) = (view, layout) ∷ requests i

  invoke_all-queued :
      (i : List (Text × View)) (self : ViewRefresher Q View)
      → invoke_all Q View i self ≡ record self { queued = self.queued ++ requests i }
  unfolding invoke_all
  invoke_all-queued [] self = ap (λ q. record self { queued = q }) (sym (append-nil self.queued))
  invoke_all-queued ((layout, view) ∷ i) self =
      invoke_all-queued i (record self { queued = self.queued ++ ((view, layout) ∷ []) })
      ∙ ap (λ q. record self { queued = q })
          (append_assoc self.queued ((view, layout) ∷ []) (requests i))

  refresh_view-calls :
      (view : View) (url : Text) (self : ViewRefresher Q View)
      → (refresh_view Q View view url self).calls ≡ self.calls ++ refreshes view url
  unfolding refresh_view
  refresh_view-calls view url self =
      append_assoc (self.calls ++ (clear_component_cache view ∷ [])) (set_source view url ∷ [])
        (show view ∷ [])
      ∙ append_assoc self.calls (clear_component_cache view ∷ [])
          (set_source view url ∷ show view ∷ [])

  run-calls :
      (i : List (Text × View)) (self : ViewRefresher Q View)
      → (run Q View (requests i) self).calls ≡ self.calls ++ all_refreshes i
  unfolding refresh_view
  run-calls [] self = sym (append-nil self.calls)
  run-calls ((layout, view) ∷ i) self =
      run-calls i (refresh_view Q View view layout self)
      ∙ ap (λ c. c ++ all_refreshes i) (refresh_view-calls view layout self)
      ∙ append_assoc self.calls (refreshes view layout) (all_refreshes i)

  module _ (O : IsOrdered Q) where
    -- When nothing is queued and a view is watched, then whatever changes: as soon as the owner's
    -- thread turns to its queue, each of the views is reloaded from its layout, in the order of the
    -- layouts, with the cache of its engine cleared before its source is set and then shown; the
    -- view that was added last under a layout stands for it.
    pub view_file_changed-Refreshes :
        (view : View) (layout name : Text) (is_dir : Bool) (e : FileEvent)
        (self : ViewRefresher Q View)
        → self.queued ≡ []
        → (process_events Q View
            (view_file_changed Q View name is_dir e (add_watch Q View view layout self))).calls
          ≡ self.calls ++ all_refreshes (put layout view (O.entries self.views))
    unfolding process_events view_file_changed add_watch
    view_file_changed-Refreshes view layout name is_dir e self idle =
        ap (λ (r : ViewRefresher Q View). (process_events Q View r).calls)
          (invoke_all-queued (Q.items (Q.insert layout view self.views))
            (add_watch Q View view layout self))
        ∙ ap
            (λ q.
              (run Q View (q ++ requests (Q.items (Q.insert layout view self.views)))
                (record (add_watch Q View view layout self) { queued = [] })).calls)
            idle
        ∙ run-calls (Q.items (Q.insert layout view self.views))
            (record (add_watch Q View view layout self) { queued = [] })
        ∙ ap (λ i. self.calls ++ all_refreshes i)
            (O.items-entries _ ∙ O.entries-insert layout view self.views)
