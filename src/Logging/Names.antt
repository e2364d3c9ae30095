-- ===== src/Logging/Names.antt =====
-- The names of the threads while threads start, stop and log in any order.
use sepm_group.Prelude.{
  ℕ, suc, subst, drop, Bool, ◌<◌, ◌≤◌, ◌%◌, ◌≡◌, refl, sym, ap, ◌∙◌, ◌⊎◌, inl, inr, Option, none,
  some, List, [], ◌∷◌, ◌++◌, Text, codes, ◌==◌, ==_iff, true, false, Bool-cases, if◌then◌else◌,
  arith,
}
use sepm_group.Logging.{
  Surroundings, Logger, LogSink, Severity, lvl_info, to_string, int_to_string, log, logger,
  register_thread, remove_thread, start, stop, set_name, add_sink, clear_sinks,
}
use sepm_group.Logging.Numbers.{to_string-injective}
use sepm_group.Logging.Threads.{SameThreads, log-SameThreads}

abbrev pub numbered : ℕ → Text
numbered k = codes "Thread" ++ to_string k

-- A name that the logger has given: that of the main thread, or a number that is used up.
abbrev pub Given : ℕ → Text → Type 0
Given counter t = (t ≡ codes "MainThread") ⊎ ((k : ℕ) × (t ≡ numbered k) × (k < counter))

-- Every name was given, and no two threads have one name.
abbrev pub AreNamed : (ℕ → Option Text) → ℕ → Type 0
AreNamed names counter =
    ((u : ℕ) (t : Text) → names u ≡ some t → Given counter t)
    × ((u v : ℕ) (t : Text) → names u ≡ some t → names v ≡ some t → u ≡ v)

numbered-injective : (j k : ℕ) → numbered j ≡ numbered k → j ≡ k
numbered-injective j k h = to_string-injective j k (ap (drop 6) h)

abbrev first : Text → ℕ
first [] = 0
first (c ∷ t) = c

fresh : (counter : ℕ) → ¬ Given counter (numbered counter)
fresh counter (inl h) = let e : 84 ≡ 77 = ap first h in absurd (omega (arith, e))
fresh counter (inr (k, e, less)) = omega (arith, numbered-injective counter k e, less)

some_injective : {A : Type 0} {a b : A} → some a ≡ some b → a ≡ b
some_injective h = cc

more : (counter : ℕ) (t : Text) → Given counter t → Given (suc counter) t
more counter t (inl h) = inl h
more counter t (inr (k, e, less)) = inr (k, e, omega (arith, less))

module _ (E : Surroundings) where
  -- A name that was not given comes to a thread.
  register-AreNamed :
      (thread counter : ℕ) (names : ℕ → Option Text)
      → AreNamed names counter
      → AreNamed (set_name E thread (some (numbered counter)) names) (suc counter)
  register-AreNamed thread counter names (given, distinct) = (given', distinct')
    where
      given' :
          (u : ℕ) (t : Text)
          → set_name E thread (some (numbered counter)) names u ≡ some t
          → Given (suc counter) t
      given' u t h = elim (Bool-cases (u == thread)) [
        | inl e ↦ inr (counter, ground (arith, e, h), omega arith)
        | inr e ↦ more counter t (given u t (ground (arith, e, h)))
      ]

      kept :
          (u : ℕ) {t : Text} (b : Bool)
          → (if b then some (numbered counter) else names u) ≡ some t
          → ((b ≡ true) × (t ≡ numbered counter)) ⊎ ((b ≡ false) × (names u ≡ some t))
      kept u true h = inl (refl, some_injective (sym h))
      kept u false h = inr (refl, h)

      distinct' :
          (u v : ℕ) (t : Text)
          → set_name E thread (some (numbered counter)) names u ≡ some t
          → set_name E thread (some (numbered counter)) names v ≡ some t
          → u ≡ v
      distinct' u v t h k = elim (kept u (u == thread) h) [
        | inl (a, e) ↦ elim (kept v (v == thread) k) [
          | inl (b, _) ↦ (==_iff u thread).0 a ∙ sym ((==_iff v thread).0 b)
          | inr (_, n) ↦ absurd (fresh counter (subst (Given counter) e (given v t n)))
        ]
        | inr (_, n) ↦ elim (kept v (v == thread) k) [
          | inl (_, e) ↦ absurd (fresh counter (subst (Given counter) e (given u t n)))
          | inr (_, n') ↦ distinct u v t n n'
        ]
      ]

  remove-AreNamed :
      (thread counter : ℕ) (names : ℕ → Option Text)
      → AreNamed names counter
      → AreNamed (set_name E thread none names) counter
  remove-AreNamed thread counter names (given, distinct) =
      (λ u t h. given u t (kept u t h), λ u v t h k. distinct u v t (kept u t h) (kept v t k))
    where
      kept : (u : ℕ) (t : Text) → set_name E thread none names u ≡ some t → names u ≡ some t
      kept u t h = ground (arith, h)

  main-AreNamed : (thread : ℕ) → AreNamed (logger E thread).thread_name 0
  unfolding logger
  main-AreNamed thread = (
    λ u t h. inl (ground (arith, h)),
    λ u v t h k. ground (arith, h, k, ==_iff u thread, ==_iff v thread),
  )

  -- A call of the logger, or the start or the end of a thread.
  pub data Step (l : Logger) : Logger → Type 0 where
    starts : (thread : ℕ) (file id : Text) → Step l (start E thread file id l)
    stops : (thread : ℕ) (file id : Text) → Step l (stop E thread file id l)
    logs :
        (thread : ℕ) (s : Severity) (file : Text) (line : ℕ) (args : List Text)
        → Step l (log E thread s file line args l)
    adds : (sink : LogSink) → Step l (add_sink E sink l)
    clears : Step l (clear_sinks E l)

  pub data Reach (l : Logger) : Logger → Type 0 where
    here : Reach l l
    next : {m n : Logger} → Reach l m → Step m n → Reach l n

  abbrev pub IsNamed : Logger → Type 0
  IsNamed l = AreNamed l.thread_name l.thread_counter

  same-IsNamed : (l m : Logger) → SameThreads E l m → IsNamed m → IsNamed l
  same-IsNamed l m (names, counter) h = rw names (rw counter h)

  -- How many threads have started on the way.
  abbrev pub started : {l m : Logger} → Reach l m → ℕ
  started here = 0
  started (next r (starts thread file id)) = suc (started r)
  started (next r _) = started r

  -- Named, with as many numbers used up as threads have started.
  abbrev Counted : Logger → ℕ → Type 0
  Counted l n = IsNamed l × (l.thread_counter ≡ n)

  -- Below the end of the `int`, the next number is free.
  register-Counted :
      (thread n : ℕ) (l : Logger)
      → suc n ≤ 2_147_483_648
      → Counted l n
      → Counted (register_thread E thread l) (suc n)
  unfolding register_thread
  register-Counted thread n l few (h, e) =
      let small : l.thread_counter < 2_147_483_648 = omega (arith, few, e) in
      let follows : suc l.thread_counter % 4_294_967_296 ≡ suc l.thread_counter =
        omega (arith, small) in
      let written : int_to_string l.thread_counter ≡ to_string l.thread_counter =
        ground (arith, small) in
      (
        rw (follows, written) (register-AreNamed thread l.thread_counter l.thread_name h),
        follows ∙ ap suc e,
      )

  started-Counted :
      (thread n : ℕ) (file id : Text) (l : Logger)
      → suc n ≤ 2_147_483_648
      → Counted l n
      → Counted (start E thread file id l) (suc n)
  unfolding start
  started-Counted thread n file id l few h =
      let said =
        log-SameThreads E thread lvl_info file 15 (codes "howdy from " ∷ id ∷ [])
          (register_thread E thread l) in
      let (named, counter) = register-Counted thread n l few h in
      (
        same-IsNamed (start E thread file id l) (register_thread E thread l) said named,
        said.1 ∙ counter,
      )

  stopped-Counted :
      (thread n : ℕ) (file id : Text) (l : Logger)
      → Counted l n
      → Counted (stop E thread file id l) n
  unfolding stop remove_thread
  stopped-Counted thread n file id l (h, e) =
      let said = log E thread lvl_info file 19 (codes "adios from " ∷ id ∷ []) l in
      let same = log-SameThreads E thread lvl_info file 19 (codes "adios from " ∷ id ∷ []) l in
      (
        remove-AreNamed thread said.thread_counter said.thread_name (same-IsNamed said l same h),
        same.1 ∙ e,
      )

  Reach-Counted :
      (thread : ℕ) {l : Logger} (r : Reach (logger E thread) l)
      → started r ≤ 2_147_483_648
      → Counted l (started r)
  unfolding logger add_sink clear_sinks
  Reach-Counted thread here few = (main-AreNamed thread, refl)
  Reach-Counted thread (next {m} r (starts u file id)) few =
      started-Counted u (started r) file id m few (Reach-Counted thread r (omega (arith, few)))
  Reach-Counted thread (next {m} r (stops u file id)) few =
      stopped-Counted u (started r) file id m (Reach-Counted thread r few)
  Reach-Counted thread (next {m} r (logs u s file line args)) few =
      let (named, counter) = Reach-Counted thread r few in
      let same = log-SameThreads E u s file line args m in
      (same-IsNamed (log E u s file line args m) m same named, same.1 ∙ counter)
  Reach-Counted thread (next r (adds sink)) few = Reach-Counted thread r few
  Reach-Counted thread (next r clears) few = Reach-Counted thread r few

  -- However threads start, stop and log, from the construction of the logger on, as long as at most
  -- 2147483648 threads have started: every name is that of the main thread or a number that is
  -- used up, and no two threads have one name.
  pub Reach-IsNamed :
      (thread : ℕ) {l : Logger} (r : Reach (logger E thread) l)
      → started r ≤ 2_147_483_648
      → IsNamed l
  Reach-IsNamed thread r few = (Reach-Counted thread r few).0
