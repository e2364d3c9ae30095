-- ===== src/ViewRefresher.antt =====
-- common/ViewRefresher.h and common/ViewRefresher.cpp. Qt's map is a parameter, and a view is known
-- by its pointer; the calls of it are recorded. The queue of the thread that owns the views is a
-- list.
pub mod Refreshing
use sepm_group.Prelude.{◌≡◌, refl, sym, ap, ◌∙◌, Bool, List, [], ◌∷◌, ◌++◌, Text, map}
use sepm_group.QMap.{QMap, IsOrdered, put}
use sepm_group.FileWatcher.{FileEvent}

module _ (Q : QMap) (View : Type 0) where
  -- The calls of a QDeclarativeView and of its engine.
  pub data ViewCall : Type 0 where
    clear_component_cache : View → ViewCall
    set_source : View → Text → ViewCall
    show : View → ViewCall

  pub record ViewRefresher : Type 0 where
    pub views : Q.Map View
    -- The calls of `refreshView` that are queued, with their arguments.
    pub queued : List (View × Text)
    pub calls : List ViewCall

  unfoldable pub add_watch : View → Text → ViewRefresher → ViewRefresher
  add_watch view layout self = record self { views = Q.insert layout view self.views }

  abbrev push : ViewCall → ViewRefresher → ViewRefresher
  push c self = record self { calls = self.calls ++ (c ∷ []) }

  unfoldable pub refresh_view : View → Text → ViewRefresher → ViewRefresher
  refresh_view view url self =
      push (show view) (push (set_source view url) (push (clear_component_cache view) self))

  -- `while(i.hasNext())`
  unfoldable pub invoke_all : List (Text × View) → ViewRefresher → ViewRefresher
  invoke_all [] self = self
  invoke_all ((key, value) ∷ i) self =
      invoke_all i (record self { queued = self.queued ++ ((value, key) ∷ []) })

  unfoldable pub view_file_changed : Text → Bool → FileEvent → ViewRefresher → ViewRefresher
  view_file_changed name is_dir e self = invoke_all (Q.items self.views) self

  abbrev pub run : List (View × Text) → ViewRefresher → ViewRefresher
  run [] self = self
  run ((view, url) ∷ rest) self = run rest (refresh_view view url self)

  -- The owner's thread turns to its queue.
  unfoldable pub process_events : ViewRefresher → ViewRefresher
  process_events self = run self.queued (record self { queued = [] })
