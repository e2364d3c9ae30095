-- ===== src/Tests/Desktop.antt =====
-- The settings, the printer of the log, the views and the owner of a watcher, on small surroundings.
use sepm_group.Prelude.{
  ℕ, suc, ◌≡◌, refl, inr, Bool, true, false, ◌||◌, Option, some, none, List, [], ◌∷◌, ◌++◌, Text,
  codes, length, ◌<◌, ◌==◌, same, arith,
}
use sepm_group.Prelude.Effects.{ok, pure}
use sepm_group.QMap.{put, text_less}
use sepm_group.Config.{hostname, hostname-hostname, initial, db_user, db_pass}
use sepm_group.Logging.{time_str, log, lvl_info}
use sepm_group.Logging.Times.{IsTime, length-time_str}
use sepm_group.Logging.Printer.{print, printer_for, print-log}
use sepm_group.Logging.Sinks.{open_file, write_lines, write_line}
use sepm_group.NotifyPipe.{System, IsSystem, notify_pipe, notify}
use sepm_group.FileWatcher.{watch_loop, create}
use sepm_group.FileWatcher.Stopping.{Ended}
use sepm_group.FileWatcher.Delivery.{rounds_of, signalled}
use sepm_group.FileWatcher.Owner.{FileWatcher, file_watcher, tell, file_watcher-Ended}
use sepm_group.ViewRefresher.{ViewRefresher, add_watch, view_file_changed, process_events}
use sepm_group.ViewRefresher.Refreshing.{refreshes, all_refreshes, view_file_changed-Refreshes}
use sepm_group.Tests.Plugins.{list_map, list_map-IsOrdered}
use sepm_group.Tests.Logs.{still, evening, both}
use sepm_group.Tests.Watching.{keep, batches}

abbrev no_variables : Text → Option Text
no_variables _ = none

abbrev other_host : Text → Option Text
other_host _ = some (codes "chat.example.org")

run_hostname : hostname no_variables initial ≡ (ok (codes "localhost"), codes "localhost")
unfolding hostname same
run_hostname = refl

hostname-hostname_test :
    hostname other_host (hostname no_variables initial).1 ≡ hostname no_variables initial
hostname-hostname_test = hostname-hostname no_variables other_host initial (λ e. ground (arith, e))

account : (length db_user ≡ 5) × (length db_pass ≡ 36)
account = (refl, refl)

evening-IsTime : IsTime evening
evening-IsTime = record {
  year = omega arith;
  month = omega arith;
  day = omega arith;
  hour = omega arith;
  minute = omega arith;
  second = omega arith;
}

length-time_str_example : (length (time_str evening) ≡ 19) × (length (time_str evening) < 80)
length-time_str_example = length-time_str evening evening-IsTime

print-log_test :
    print (codes "Got signal " ∷ codes "2" ∷ []) (printer_for still 0 lvl_info (codes "f") 3) both
    ≡ log still 0 lvl_info (codes "f") 3 (codes "Got signal " ∷ codes "2" ∷ []) both
print-log_test =
    print-log still 0 lvl_info (codes "f") 3 (codes "Got signal " ∷ codes "2" ∷ []) both

-- Two messages in a new file.
run_file : write_lines (codes "a" ∷ codes "b" ∷ []) (open_file []) ≡ codes "\n\n\n\n\n\na\nb\n"
unfolding open_file write_line
run_file = refl

abbrev views : ViewRefresher list_map ℕ
views = record { views = (codes "b.qml", 2) ∷ []; queued = []; calls = [] }

view_file_changed-Refreshes_example :
    (process_events list_map ℕ (
      view_file_changed list_map ℕ
        (codes "a.qml")
        false
        create
        (add_watch list_map ℕ 1 (codes "a.qml") views))).calls
    ≡ []
      ++ all_refreshes list_map ℕ (put (codes "a.qml") 1 (list_map-IsOrdered.entries views.views))
view_file_changed-Refreshes_example =
    view_file_changed-Refreshes list_map ℕ list_map-IsOrdered 1 (codes "a.qml") (codes "a.qml")
      false create views refl

-- Both are reloaded.
run_views :
    all_refreshes list_map ℕ (put (codes "a.qml") 1 ((codes "b.qml", 2) ∷ []))
    ≡ refreshes list_map ℕ 1 (codes "a.qml") ++ refreshes list_map ℕ 2 (codes "b.qml")
unfolding put same text_less
run_views = refl

abbrev pub written_to : ℕ → List ℕ → Bool
written_to r [] = false
written_to r (w ∷ s) = (w == suc r) || written_to r s

-- The state has the descriptors that were written to; a pipe sends by the number after that by which
-- it receives.
abbrev pub pipes : System
pipes = record {
  State = List ℕ;
  pipe = λ s. (some (3, 4), s);
  write = λ fd t s. fd ∷ s;
  close = λ fd s. s;
  readable = λ fd s. written_to fd s;
  linked = λ receive send s. send == suc receive;
  Future = Unit {0};
  run = λ dir. pure tt;
  wait_for_finished = λ f. pure tt;
}

pipes-IsSystem : IsSystem pipes
pipes-IsSystem = record {
  linked-pipe = λ receive send s e. ground (arith, e);
  readable-write = λ receive send c t s e. ground (arith, e);
  linked-run = λ receive send dir s e. e;
}

abbrev pub watcher : FileWatcher pipes
watcher = record { running = true; pipe = record { m_receive_fd = 3; m_send_fd = 4 }; future = tt }

made_watcher : (file_watcher pipes (codes "./ui") []).0 ≡ ok watcher
unfolding file_watcher notify_pipe
made_watcher = refl

told : written_to 3 (tell pipes watcher (9 ∷ [])).1 ≡ true
unfolding tell notify
told = refl

file_watcher-Ended_example :
    Ended keep (watch_loop keep (rounds_of batches ++ (signalled none ∷ [])) [] [])
unfolding tell notify
file_watcher-Ended_example =
    file_watcher-Ended pipes pipes-IsSystem keep (codes "./ui") [] (9 ∷ []) watcher made_watcher
      (λ h. h) (rounds_of batches) [] (signalled none) [] [] (inr (none, refl))
