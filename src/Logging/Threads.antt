-- ===== src/Logging/Threads.antt =====
-- The names of threads, which ThreadHook gives and takes.
use sepm_group.Prelude.{
  ℕ, suc, ◌≡◌, refl, ap, ◌∙◌, Option, none, some, List, [], ◌∷◌, ◌++◌, ◌%◌, Text, codes, ltb, ◌==◌,
  if◌then◌else◌, Bool-cases, inl, inr, arith,
}
use sepm_group.Logging.{
  Surroundings, Logger, LogSink, Severity, lvl_info, int_to_string, value, write, write_to,
  write_out, log, print_impl, file_line, name_of, register_thread, remove_thread, start, stop,
  set_name,
}

module _ (E : Surroundings) where
  -- Two loggers that differ in what they have written and in their use of the clock.
  abbrev pub SameThreads : Logger → Logger → Type 0
  SameThreads l m = (l.thread_name ≡ m.thread_name) × (l.thread_counter ≡ m.thread_counter)

  write_to-SameThreads :
      (log_line : Text) (s : Severity) (details : Text) (sinks : List LogSink) (l : Logger)
      → SameThreads (write_to E log_line s details sinks l) l
  unfolding write_to
  write_to-SameThreads log_line s details [] l = (refl, refl)
  write_to-SameThreads log_line s details (sink ∷ sinks) l =
      elim (Bool-cases (ltb (value s) (value sink.log_level))) [
        | inl c ↦ rw (write_to, c) (write_to-SameThreads log_line s details sinks l)
        | inr c ↦
            rw (write_to, c)
              (write_to-SameThreads log_line s details sinks (write E log_line s details sink l))
      ]

  pub log-SameThreads :
      (thread : ℕ) (s : Severity) (file : Text) (line : ℕ) (args : List Text) (l : Logger)
      → SameThreads (log E thread s file line args l) l
  unfolding log write_out
  log-SameThreads thread s file line args l =
      write_to-SameThreads (print_impl E args) s
        (file_line E file line (name_of E (l.thread_name thread))) l.sinks l

  set_twice :
      (thread u : ℕ) (a b : Option Text) (names : ℕ → Option Text)
      → set_name E thread b (set_name E thread a names) u ≡ (if u == thread then b else names u)
  set_twice thread u a b names = ground arith

  -- A thread that started and stopped has no name, the other threads have the names they had, and
  -- the number of that thread is used up.
  pub stop-start :
      (thread : ℕ) (file id : Text) (l : Logger)
      → ((u : ℕ)
          → (stop E thread file id (start E thread file id l)).thread_name u
            ≡ (if u == thread then none else l.thread_name u))
        × ((stop E thread file id (start E thread file id l)).thread_counter
            ≡ suc l.thread_counter % 4_294_967_296)
  unfolding start stop register_thread remove_thread
  stop-start thread file id l =
      let registered = register_thread E thread l in
      let (names, counter) =
        log-SameThreads thread lvl_info file 15 (codes "howdy from " ∷ id ∷ []) registered in
      let (names', counter') =
        log-SameThreads thread lvl_info file 19 (codes "adios from " ∷ id ∷ [])
          (start E thread file id l) in
      (
        λ u.
            ap (λ n. set_name E thread none n u) (names' ∙ names)
            ∙ set_twice thread u (some (codes "Thread" ++ int_to_string l.thread_counter)) none
                l.thread_name,
        counter' ∙ counter,
      )
