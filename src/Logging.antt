-- ===== src/Logging.antt =====
-- common/Logging.h, common/Logging.cpp and common/ThreadHook.h. The clock and the file names of
-- boost are the parameter `Surroundings`; the thread that calls is an argument. A sink is known by
-- its members, and what its `write` is given is kept in order.
pub mod Filtering
pub mod Threads
pub mod Printer
pub mod Times
pub mod Sinks
pub mod Numbers
pub mod Names
use sepm_group.Prelude.{
  ℕ, zero, suc, ◌+◌, ◌-◌, ◌/◌, ◌%◌, Bool, true, false, Option, none, some, List, [], ◌∷◌, ◌++◌,
  Text, codes, length, ltb, ◌==◌, if◌then◌else◌,
}

-- `enum class Severity`
pub data Severity : Type 0 where
  lvl_info lvl_warn lvl_error : Severity

abbrev pub value : Severity → ℕ
value lvl_info = 1
value lvl_warn = 2
value lvl_error = 3

-- `LogSink::Color`
pub data Color : Type 0 where
  red green blue yellow : Color

-- The class of a sink: one of the two of the program, or another, which takes the default `color`.
pub data SinkClass : Type 0 where
  ostream_sink file_sink other_sink : SinkClass

pub record LogSink : Type 0 where
  pub sink_class : SinkClass
  pub chatty : Bool
  pub log_level : Severity

abbrev escape : Text → Text
escape s = 27 ∷ s

abbrev color_start : Color → Text
color_start red = escape (codes "[0;31m")
color_start green = escape (codes "[0;32m")
color_start blue = escape (codes "[0;34m")
color_start yellow = escape (codes "[0;33m")

unfoldable pub color : SinkClass → Text → Color → Text
color ostream_sink s c = color_start c ++ (s ++ escape (codes "[0m"))
color file_sink s c = s
color other_sink s c = s

-- A number in decimal digits, by enough fuel.
unfoldable pub digits : ℕ → ℕ → Text
digits zero n = []
digits (suc fuel) n =
    let front = digits fuel (n / 10) in
    if ltb n 10 then (48 + n) ∷ [] else front ++ ((48 + n % 10) ∷ [])

-- `std::to_string`
unfoldable pub to_string : ℕ → Text
to_string n = digits (suc n) n

-- `std::to_string` of an `int`, which is given by its 32 bits
abbrev pub int_to_string : ℕ → Text
int_to_string n =
    if ltb n 2_147_483_648 then to_string n else codes "-" ++ to_string (4_294_967_296 - n)

abbrev spaces : ℕ → Text
spaces zero = []
spaces (suc n) = 32 ∷ spaces n

-- `width(7)` with `fill(' ')`
abbrev pub padded : Text → Text
padded s = spaces (7 - length s) ++ s

-- `struct tm`, as far as a time of the log has it: the years since 1900, and the months since January.
pub record Tm : Type 0 where
  pub tm_year : ℕ
  pub tm_mon : ℕ
  pub tm_mday : ℕ
  pub tm_hour : ℕ
  pub tm_min : ℕ
  pub tm_sec : ℕ

-- `localtime` and the milliseconds since the start, at the n-th use of the clock, and
-- `path.filename()`.
pub record Surroundings : Type 0 where
  pub localtime : ℕ → Tm
  pub elapsed : ℕ → ℕ
  pub filename : Text → Text

-- A number in two digits, with a zero in front.
abbrev pub two_digits : ℕ → Text
two_digits n = if ltb n 10 then 48 ∷ (48 + n) ∷ [] else to_string n

-- "%Y-%m-%d %H:%M.%S" of `strftime`
abbrev pub time_str : Tm → Text
time_str t =
    to_string (1900 + t.tm_year)
    ++ (codes "-"
        ++ (two_digits (suc t.tm_mon)
            ++ (codes "-"
                ++ (two_digits t.tm_mday
                    ++ (codes " "
                        ++ (two_digits t.tm_hour
                            ++ (codes ":"
                                ++ (two_digits t.tm_min
                                    ++ (codes "." ++ two_digits t.tm_sec)))))))))

-- The members, the uses of the clock so far, and what was written to which sink.
pub record Logger : Type 0 where
  pub sinks : List LogSink
  -- by thread, in order of its number
  pub thread_name : ℕ → Option Text
  -- the 32 bits of an `int`; the step after `INT_MAX` wraps around
  pub thread_counter : ℕ
  pub clock : ℕ
  pub written : List (LogSink × Text)

module _ (E : Surroundings) where
  abbrev pub set_name : ℕ → Option Text → (ℕ → Option Text) → ℕ → Option Text
  set_name thread name names t = if t == thread then name else names t

  -- The constructor, called by a thread.
  unfoldable pub logger : ℕ → Logger
  logger thread = record {
    sinks = record { sink_class = ostream_sink; chatty = true; log_level = lvl_info } ∷ [];
    thread_name = set_name thread (some (codes "MainThread")) (λ _. none);
    thread_counter = 0;
    clock = 0;
    written = [];
  }

  unfoldable pub add_sink : LogSink → Logger → Logger
  add_sink s l = record l { sinks = l.sinks ++ (s ∷ []) }

  unfoldable pub clear_sinks : Logger → Logger
  clear_sinks l = record l { sinks = [] }

  unfoldable pub register_thread : ℕ → Logger → Logger
  register_thread thread l = record l {
    thread_name =
        set_name thread (some (codes "Thread" ++ int_to_string l.thread_counter)) l.thread_name;
    thread_counter = suc l.thread_counter % 4_294_967_296;
  }

  unfoldable pub remove_thread : ℕ → Logger → Logger
  remove_thread thread l = record l { thread_name = set_name thread none l.thread_name }

  abbrev tag : Severity → SinkClass → Text
  tag lvl_info c = color c (codes "[INFO]  ") green
  tag lvl_warn c = color c (codes "[WARN]  ") yellow
  tag lvl_error c = color c (codes "[ERROR] ") red

  abbrev since_start : Bool → ℕ → Text
  since_start true n = codes " - " ++ (padded (to_string (E.elapsed n)) ++ codes "ms ")
  since_start false n = []

  -- At a use of the clock.
  unfoldable pub get_logline_header : ℕ → Bool → Severity → LogSink → Text
  get_logline_header n chatty severity s =
      time_str (E.localtime n) ++ (since_start chatty n ++ tag severity s.sink_class)

  abbrev pub name_of : Option Text → Text
  name_of none = codes "???thread"
  name_of (some name) = name

  abbrev pub file_line : Text → ℕ → Text → Text
  file_line file line thread =
      codes " ("
      ++ (E.filename file
          ++ (codes ":" ++ (to_string line ++ (codes ", " ++ (thread ++ codes ")")))))

  abbrev pub suffix : Bool → Text → Text
  suffix true t = t
  suffix false t = []

  abbrev pub write : Text → Severity → Text → LogSink → Logger → Logger
  write log_line s details sink l = record l {
    clock = suc l.clock;
    written =
        l.written
        ++ ((
          sink,
          get_logline_header l.clock sink.chatty s sink ++ (log_line ++ suffix sink.chatty details),
        )
            ∷ []);
  }

  -- `for(auto *sink : sinks)`
  unfoldable pub write_to : Text → Severity → Text → List LogSink → Logger → Logger
  write_to log_line s details [] l = l
  write_to log_line s details (sink ∷ sinks) l = elim (ltb (value s) (value sink.log_level)) [
    | true ↦ write_to log_line s details sinks l
    | false ↦ write_to log_line s details sinks (write log_line s details sink l)
  ]

  unfoldable pub write_out : ℕ → Text → Severity → Text → ℕ → Logger → Logger
  write_out thread log_line s file line l =
      write_to log_line s (file_line file line (name_of (l.thread_name thread))) l.sinks l

  -- `LogPrinter::print_impl`: what the arguments put into the stream, one after the other.
  unfoldable pub print_impl : List Text → Text
  print_impl [] = []
  print_impl (first ∷ rest) = first ++ print_impl rest

  -- `logger.log<severity>(file, line).print(args...)`
  unfoldable pub log : ℕ → Severity → Text → ℕ → List Text → Logger → Logger
  log thread severity file line args l = write_out thread (print_impl args) severity file line l

  -- `ThreadHook::start` and `ThreadHook::stop`, with `__FILE__` and the text of the thread's id.
  unfoldable pub start : ℕ → Text → Text → Logger → Logger
  start thread file id l =
      log thread lvl_info file 15 (codes "howdy from " ∷ id ∷ []) (register_thread thread l)

  unfoldable pub stop : ℕ → Text → Text → Logger → Logger
  stop thread file id l =
      remove_thread thread (log thread lvl_info file 19 (codes "adios from " ∷ id ∷ []) l)
