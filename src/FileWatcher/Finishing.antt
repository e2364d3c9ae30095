-- ===== src/FileWatcher/Finishing.antt =====
-- The inner loop of `watch` comes to an end.
use sepm_group.Prelude.{
  ℕ, zero, suc, ◌+◌, ◌-◌, ◌^◌, ◌<◌, ◌≤◌, ◌≡◌, ◌≢◌, refl, sym, subst, Bool, true, false, Bool-cases,
  inl, inr, Option, some, none, Text, drop, ltb, arith,
}
use sepm_group.Prelude.Effects.{Eff, Result, ok, bind_cases}
use sepm_group.Sdc.{Exception}
use sepm_group.FileWatcher.{
  Change, InotifyEvent, event_at, event_size, advance, buf_len, defined, report, read_events,
}

-- At a turn of the loop that gets to an event: its name has less than 2^30 bytes, and what `next`
-- says of them.
abbrev Follow : Bool → Option InotifyEvent → (ℕ → Type 0) → Type 0
Follow false _ next = Unit {0}
Follow true none next = Unit {0}
Follow true (some event) next = (event.len < 2 ^ 30) × next event.len

-- The events from an index on, as the loop finds them in some turns.
abbrev pub HasShortNames : ℕ → ℕ → ℕ → Text → Type 0
HasShortNames zero i size buffer = Unit {0}
HasShortNames (suc fuel) i size buffer =
    Follow (ltb i size) (event_at (drop i buffer))
      (λ len. HasShortNames fuel (i + (event_size + len)) size buffer)

followed :
    (b : Bool) (o : Option InotifyEvent) (next : ℕ → Type 0) (event : InotifyEvent)
    → b ≡ true
    → o ≡ some event
    → Follow b o next
    → (event.len < 2 ^ 30) × next event.len
followed false o next event e f h = absurd (ground (arith, e))
followed true none next event e f h = absurd (ground (arith, f))
followed true (some given) next event e f h =
    let same : given ≡ event = ground (arith, f) in
    subst (λ (v : InotifyEvent). (v.len < 2 ^ 30) × next v.len) same h

advance_small :
    (i len : ℕ) → i ≤ buf_len → len < 2 ^ 30 → advance i len ≡ some (i + (event_size + len))
unfolding advance
advance_small i len h k = ground (arith, h, k)

module _ {S : Type 0} (callback : Change → Eff S Exception (Unit {0})) where
  -- It has not run out of fuel.
  abbrev pub Finishes : Result Exception Bool × S → Type 0
  Finishes out = out.0 ≢ ok false

  defined_eq :
      {A : Type 0} (o : Option A) (s : S) (a : A)
      → (defined callback o s).0 ≡ ok a
      → (o ≡ some a) × ((defined callback o s).1 ≡ s)
  defined_eq none s a h = absurd (ground (arith, h))
  defined_eq (some b) s a h = (ground (arith, h), refl)

  -- The next index is behind the event.
  advanced :
      (i : ℕ) (event : InotifyEvent) (next : ℕ) (s : S) (size : ℕ)
      → ltb i size ≡ true
      → size ≤ buf_len
      → event.len < 2 ^ 30
      → (defined callback (advance i event.len) s).0 ≡ ok next
      → i < size × (next ≡ i + (event_size + event.len))
  advanced i event next s size e fits small g =
      let inside : i < size = ground (arith, e) in
      let moved = advance_small i event.len (omega (arith, inside, fits)) small in
      let (given, _) = defined_eq (advance i event.len) s next g in
      (inside, ground (arith, moved, given))

  -- When the names are short and the buffer is no longer than BUF_LEN, the loop over its events ends within as many turns as there
  -- are bytes left, and one more: by its condition or by an exception, whatever the callback does.
  pub read_events-Finishes :
      (fuel i size : ℕ) (buffer : Text) (s : S)
      → HasShortNames fuel i size buffer
      → size ≤ buf_len
      → size - i < fuel
      → Finishes (read_events callback fuel i size buffer s)
  unfolding read_events
  read_events-Finishes zero i size buffer s short fits left = absurd (omega (arith, left))
  read_events-Finishes (suc fuel) i size buffer s short fits left = elim (Bool-cases (ltb i size)) [
    | inr e ↦ rw (read_events, e) (λ h. ground (arith, h))
    | inl e ↦
        rw (read_events, e)
          (bind_cases Finishes (defined callback (event_at (drop i buffer))) _ s
            (λ event f.
              bind_cases Finishes (report callback event) _ _
                (λ _ _.
                  bind_cases Finishes (defined callback (advance i event.len)) _ _
                    (λ next g.
                      let (small, rest) =
                        followed (ltb i size) (event_at (drop i buffer)) _ event e
                          (defined_eq _ s event f).0 short in
                      let (inside, index) = advanced i event next _ size e fits small g in
                      read_events-Finishes fuel next size buffer _
                        (subst (λ n. HasShortNames fuel n size buffer) (sym index) rest) fits
                        (omega (arith, left, index, inside)))
                    (λ _ _ h. ground (arith, h)))
                (λ _ _ h. ground (arith, h)))
            (λ _ _ h. ground (arith, h)))
  ]
