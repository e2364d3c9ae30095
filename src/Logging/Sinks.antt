-- ===== src/Logging/Sinks.antt =====
-- The sinks of common/Logging.h, and what they leave in a stream or in a file.
use sepm_group.Prelude.{Bool, List, [], ◌∷◌, ◌++◌, Text}
use sepm_group.Logging.{LogSink, Severity, ostream_sink, file_sink}

abbrev pub make_ostream_sink : Bool → Severity → LogSink
make_ostream_sink chatty l = record { sink_class = ostream_sink; chatty = chatty; log_level = l }

abbrev pub make_file_sink : Bool → Severity → LogSink
make_file_sink chatty l = record { sink_class = file_sink; chatty = chatty; log_level = l }

-- `endl`
abbrev pub endl : Text
endl = 10 ∷ []

-- The opening of the file of a FileSink, on what is in it.
unfoldable pub open_file : Text → Text
open_file file = file ++ ((10 ∷ 10 ∷ 10 ∷ 10 ∷ 10 ∷ []) ++ endl)

-- `write` of both, on what is in the stream or in the file
unfoldable pub write_line : Text → Text → Text
write_line s file = file ++ (s ++ endl)

-- What some messages leave.
abbrev pub write_lines : List Text → Text → Text
write_lines [] file = file
write_lines (s ∷ messages) file = write_lines messages (write_line s file)
