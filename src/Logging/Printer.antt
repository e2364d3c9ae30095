-- ===== src/Logging/Printer.antt =====
-- `LogPrinter`, the object behind the macros INFO, WARN and ERROR.
use sepm_group.Prelude.{ℕ, ◌≡◌, ap, sym, ◌∙◌, List, [], ◌∷◌, ◌++◌, Text, append-nil, append_assoc}
use sepm_group.Logging.{
  Surroundings, Logger, Severity, lvl_info, lvl_warn, lvl_error, write_out, log, print_impl,
}

pub record LogPrinter : Type 0 where
  -- `function<void(string)>`, which acts on the logger
  pub printer : Text → Logger → Logger
  pub log_stream : Text

-- The two constructors; a copy has a stream of its own.
abbrev pub log_printer : (Text → Logger → Logger) → LogPrinter
log_printer printer = record { printer = printer; log_stream = [] }

abbrev pub copy_of : LogPrinter → LogPrinter
copy_of other = record { printer = other.printer; log_stream = [] }

-- `print_impl()`
abbrev pub print_end : LogPrinter → Logger → Logger
print_end self l = self.printer self.log_stream l

-- `LogPrinter::print`, on the arguments as the stream shows them
unfoldable pub print : List Text → LogPrinter → Logger → Logger
print [] self l = print_end self l
print (parm1 ∷ parm) self l = print parm (record self { log_stream = self.log_stream ++ parm1 }) l

module _ (E : Surroundings) where
  -- `Logger::log`, which gives a copy of a printer for one message.
  unfoldable pub printer_for : ℕ → Severity → Text → ℕ → LogPrinter
  printer_for thread severity file line =
      copy_of (log_printer (λ s. write_out E thread s severity file line))

  print-stream :
      (args : List Text) (self : LogPrinter) (l : Logger)
      → print args self l ≡ self.printer (self.log_stream ++ print_impl E args) l
  unfolding print print_impl
  print-stream [] self l = ap (λ t. self.printer t l) (sym (append-nil self.log_stream))
  print-stream (parm1 ∷ parm) self l =
      print-stream parm (record self { log_stream = self.log_stream ++ parm1 }) l
      ∙ ap (λ t. self.printer t l) (append_assoc self.log_stream parm1 (print_impl E parm))

  -- Printing some arguments by the printer of a message, which collects them in its stream, is to log
  -- their texts one after the other as one line, once.
  pub print-log :
      (thread : ℕ) (severity : Severity) (file : Text) (line : ℕ) (args : List Text) (l : Logger)
      → print args (printer_for thread severity file line) l
        ≡ log E thread severity file line args l
  unfolding printer_for log
  print-log thread severity file line args l = print-stream args _ l

  -- The macros, with `__FILE__` and `__LINE__`.
  abbrev pub info_macro : ℕ → Text → ℕ → List Text → Logger → Logger
  info_macro thread file line args = print args (printer_for thread lvl_info file line)

  abbrev pub warn_macro : ℕ → Text → ℕ → List Text → Logger → Logger
  warn_macro thread file line args = print args (printer_for thread lvl_warn file line)

  abbrev pub error_macro : ℕ → Text → ℕ → List Text → Logger → Logger
  error_macro thread file line args = print args (printer_for thread lvl_error file line)
