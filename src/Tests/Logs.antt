-- ===== src/Tests/Logs.antt =====
-- common/Logging.cpp with a clock that stands still.
use sepm_group.Prelude.{
  ◌%◌, arith, ℕ, ◌≡◌, refl, true, false, none, suc, [], ◌∷◌, ◌++◌, codes, filter, ◌==◌,
  if◌then◌else◌,
}
use sepm_group.Logging.Names.{IsNamed, here, next, starts, stops, Reach-IsNamed}
use sepm_group.Logging.{
  Tm, Surroundings, Logger, LogSink, other_sink, file_sink, lvl_info, lvl_warn, lvl_error, log,
  logger, start, stop, write_out, write_to, get_logline_header, color, to_string, digits,
  print_impl,
}
use sepm_group.Logging.Threads.{stop-start}
use sepm_group.Logging.Filtering.{accepts, receivers, terse, log-receivers, log-terse}

abbrev pub evening : Tm
evening = record { tm_year = 113; tm_mon = 4; tm_mday = 9; tm_hour = 21; tm_min = 5; tm_sec = 30 }

abbrev pub still : Surroundings
still = record { localtime = λ _. evening; elapsed = λ _. 12; filename = λ f. f }

abbrev warnings : LogSink
warnings = record { sink_class = file_sink; chatty = false; log_level = lvl_warn }

abbrev everything : LogSink
everything = record { sink_class = other_sink; chatty = true; log_level = lvl_info }

abbrev pub both : Logger
both = record {
  sinks = warnings ∷ everything ∷ [];
  thread_name = λ _. none;
  thread_counter = 0;
  clock = 0;
  written = [];
}

-- A line of a chatty sink.
a_line :
    (log still 0 lvl_info (codes "a.cpp") 42 (codes "te" ∷ codes "st" ∷ []) both).written
    ≡ (everything, codes "2013-05-09 21:05.30 -      12ms [INFO]  test (a.cpp:42, ???thread)") ∷ []
unfolding log write_out write_to get_logline_header color to_string digits print_impl
a_line = refl

log-receivers_test :
    receivers (log still 0 lvl_error (codes "a.cpp") 42 (codes "test" ∷ []) both).written
    ≡ [] ++ filter (accepts lvl_error) (warnings ∷ everything ∷ [])
log-receivers_test = log-receivers still 0 lvl_error (codes "a.cpp") 42 (codes "test" ∷ []) both

log-terse_test :
    terse (log still 0 lvl_error (codes "a.cpp") 42 (codes "test" ∷ []) both).written
    ≡ terse (log still 1 lvl_error (codes "b.cpp") 7 (codes "test" ∷ []) both).written
log-terse_test =
    log-terse still 0 1 lvl_error (codes "a.cpp") (codes "b.cpp") 42 7 (codes "test" ∷ []) both

stop-start_test :
    ((u : ℕ)
      → (stop still 3
            (codes "f")
            (codes "3")
            (start still 3 (codes "f") (codes "3") both)).thread_name
          u
        ≡ (if u == 3 then none else both.thread_name u))
    × ((stop still 3
          (codes "f")
          (codes "3")
          (start still 3 (codes "f") (codes "3") both)).thread_counter
        ≡ suc both.thread_counter % 4_294_967_296)
stop-start_test = stop-start still 3 (codes "f") (codes "3") both

-- Two threads that start, one of which stops.
Reach-IsNamed_example : IsNamed still (
    stop still 3 (codes "f") (codes "3") (
      start still 5
        (codes "f")
        (codes "5")
        (start still 3 (codes "f") (codes "3") (logger still 0))))
Reach-IsNamed_example =
    Reach-IsNamed still 0
      (next (next (next here (starts 3 (codes "f") (codes "3"))) (starts 5 (codes "f") (codes "5")))
        (stops 3 (codes "f") (codes "3")))
      (omega arith)
