-- ===== src/Logging/Filtering.antt =====
-- Which sinks get a message, and what the terse ones learn of it.
use sepm_group.Prelude.{
  ℕ, suc, ◌≡◌, refl, sym, ap, ◌∙◌, Bool, true, false, not, List, [], ◌∷◌, ◌++◌, Text, ltb, leb,
  filter, filter-append, Bool-cases, inl, inr, append-nil, append_assoc, arith, if◌then◌else◌,
}
use sepm_group.Logging.{
  Surroundings, Logger, LogSink, Severity, value, write, write_to, write_out, log, print_impl,
  get_logline_header, file_line, name_of, suffix,
}

-- A sink takes messages from its own level on.
abbrev pub accepts : Severity → LogSink → Bool
accepts s sink = leb (value sink.log_level) (value s)

abbrev pub receivers : List (LogSink × Text) → List LogSink
receivers [] = []
receivers ((sink, line) ∷ written) = sink ∷ receivers written

receivers-append : (a b : List (LogSink × Text)) → receivers (a ++ b) ≡ receivers a ++ receivers b
receivers-append [] b = refl
receivers-append ((sink, line) ∷ a) b = ap (λ t. sink ∷ t) (receivers-append a b)

-- What went to sinks that are not chatty.
abbrev pub terse : List (LogSink × Text) → List (LogSink × Text)
terse written = filter (λ w. not w.0.chatty) written

module _ (E : Surroundings) (log_line : Text) (s : Severity) where
  write_to-receivers :
      (details : Text) (sinks : List LogSink) (l : Logger)
      → receivers (write_to E log_line s details sinks l).written
        ≡ receivers l.written ++ filter (accepts s) sinks
  unfolding write_to filter
  write_to-receivers details [] l = sym (append-nil (receivers l.written))
  write_to-receivers details (sink ∷ sinks) l =
      elim (Bool-cases (ltb (value s) (value sink.log_level))) [
        | inl e ↦
            let skipped : accepts s sink ≡ false = ground (arith, e) in
            rw (write_to, e) (rw skipped (write_to-receivers details sinks l))
        | inr e ↦
            let taken : accepts s sink ≡ true = ground (arith, e) in
            rw (write_to, e)
              (rw taken (
                write_to-receivers details sinks (write E log_line s details sink l)
                ∙ ap (λ t. t ++ filter (accepts s) sinks) (receivers-append l.written _)
                ∙ append_assoc (receivers l.written) (sink ∷ []) (filter (accepts s) sinks)))
      ]

  one_terse :
      (n : ℕ) (d d' : Text) (sink : LogSink)
      → terse (
          (sink, get_logline_header E n sink.chatty s sink ++ (log_line ++ suffix E sink.chatty d))
          ∷ [])
        ≡ terse (
            (
              sink,
              get_logline_header E n sink.chatty s sink ++ (log_line ++ suffix E sink.chatty d'),
            )
            ∷ [])
  unfolding filter
  one_terse n d d' sink = by_chatty sink.chatty
    where
      line : Bool → Text → List (LogSink × Text)
      line c t = (sink, get_logline_header E n c s sink ++ (log_line ++ suffix E c t)) ∷ []

      by_chatty : (c : Bool) → (if not c then line c d else []) ≡ (if not c then line c d' else [])
      by_chatty true = refl
      by_chatty false = refl

  abbrev added : LogSink → Text → ℕ → List (LogSink × Text)
  added sink t n =
      (sink, get_logline_header E n sink.chatty s sink ++ (log_line ++ suffix E sink.chatty t)) ∷ []

  write-terse :
      (d d' : Text) (sink : LogSink) (l m : Logger)
      → l.clock ≡ m.clock
      → terse l.written ≡ terse m.written
      → terse (l.written ++ added sink d l.clock) ≡ terse (m.written ++ added sink d' m.clock)
  write-terse d d' sink l m e f =
      filter-append (λ w. not w.0.chatty) l.written (added sink d l.clock)
      ∙ ap (λ t. t ++ terse (added sink d l.clock)) f
      ∙ ap (λ t. terse m.written ++ t)
          (one_terse l.clock d d' sink ∙ ap (λ n. terse (added sink d' n)) e)
      ∙ sym (filter-append (λ w. not w.0.chatty) m.written (added sink d' m.clock))

  write_to-terse :
      (d d' : Text) (sinks : List LogSink) (l m : Logger)
      → l.clock ≡ m.clock
      → terse l.written ≡ terse m.written
      → terse (write_to E log_line s d sinks l).written
        ≡ terse (write_to E log_line s d' sinks m).written
  unfolding write_to
  write_to-terse d d' [] l m e f = f
  write_to-terse d d' (sink ∷ sinks) l m e f =
      elim (Bool-cases (ltb (value s) (value sink.log_level))) [
        | inl c ↦ rw (write_to, c) (write_to-terse d d' sinks l m e f)
        | inr c ↦
            rw (write_to, c)
              (write_to-terse d d' sinks (write E log_line s d sink l)
                (write E log_line s d' sink m) (ap suc e) (write-terse d d' sink l m e f))
      ]

-- A message goes to the sinks whose level it reaches, in the order of their addition and to each
-- once for each time that it was added.
pub log-receivers :
    (E : Surroundings) (thread : ℕ) (s : Severity) (file : Text) (line : ℕ) (args : List Text)
    (l : Logger)
    → receivers (log E thread s file line args l).written
      ≡ receivers l.written ++ filter (accepts s) l.sinks
unfolding log write_out
log-receivers E thread s file line args l =
    write_to-receivers E (print_impl E args) s
      (file_line E file line (name_of E (l.thread_name thread))) l.sinks l

-- What the sinks that are not chatty get does not depend on the thread, the file and the line.
pub log-terse :
    (E : Surroundings) (thread thread' : ℕ) (s : Severity) (file file' : Text) (line line' : ℕ)
    (args : List Text) (l : Logger)
    → terse (log E thread s file line args l).written
      ≡ terse (log E thread' s file' line' args l).written
unfolding log write_out
log-terse E thread thread' s file file' line line' args l =
    write_to-terse E (print_impl E args) s
      (file_line E file line (name_of E (l.thread_name thread)))
      (file_line E file' line' (name_of E (l.thread_name thread'))) l.sinks l l refl refl
