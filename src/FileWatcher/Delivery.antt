-- ===== src/FileWatcher/Delivery.antt =====
-- The callback hears of every event, in order and once.
use sepm_group.Prelude.{
  ℕ, zero, suc, ◌+◌, ◌^◌, ◌≤◌, ◌<◌, ◌≡◌, refl, sym, ap, ◌∙◌, Bool, true, false, Option, none, some,
  List, [], ◌∷◌, ◌++◌, Text, length, take, drop, ◌==◌, ltb, length-append, drop-append,
  append_assoc, arith,
}
use sepm_group.Prelude.Effects.{Eff, Result, ok, err, bind_result, ◌>>◌, pure}
use sepm_group.Sdc.{Exception}
use sepm_group.FileWatcher.{
  Change, FileEvent, InotifyEvent, call_with, report, read_events, event_at, kind, Incoming,
  turn_with, proceed, clean_up, Round, ready, received, watch, watch_loop, turn, Ending, left, fill,
  buf_len,
}
use sepm_group.FileWatcher.Events.{
  Sent, encode, encode_all, field, name_field, HasName, AreNamed, seen, told, change_of, changes_of,
  event_at-encode, string_at-field, length-encode, advance-eq, kind-mask_of, is_dir-mask_of,
  mask_of, zeros,
}

drop_nil : (n : ℕ) → drop {A = ℕ} n [] ≡ []
drop_nil zero = refl
drop_nil (suc n) = refl

drop_add : (i n : ℕ) (xs : Text) → drop (i + n) xs ≡ drop n (drop i xs)
drop_add zero n xs = let start : 0 + n ≡ n = omega arith in ap (λ m. drop m xs) start
drop_add (suc i) n [] = drop_nil (suc i + n) ∙ sym (drop_nil n)
drop_add (suc i) n (x ∷ xs) =
    let step : suc i + n ≡ suc (i + n) = omega arith in
    ap (λ m. drop m (x ∷ xs)) step ∙ drop_add i n xs

take_more : (n : ℕ) (xs : Text) → length xs ≤ n → take n xs ≡ xs
take_more zero [] h = refl
take_more zero (x ∷ xs) h = absurd (omega (arith, h))
take_more (suc n) [] h = refl
take_more (suc n) (x ∷ xs) h = ap (λ t. x ∷ t) (take_more n xs (omega (arith, h)))

-- Batches of events, each of which fits the buffer.
abbrev pub AreBatches : List (List Sent) → Type 0
AreBatches [] = Unit {0}
AreBatches (es ∷ batches) = AreNamed es × (length (encode_all es) ≤ buf_len) × AreBatches batches

abbrev pub rounds_of : List (List Sent) → List Round
rounds_of [] = []
rounds_of (es ∷ batches) =
    record { running = true; selected = ready false (some (received (encode_all es))) }
    ∷ rounds_of batches

-- The pipe is ready, whatever inotify has.
abbrev pub signalled : Option Incoming → Round
signalled events = record { running = true; selected = ready true events }

few : (es : List Sent) → length es < suc (length (encode_all es))
few [] = omega arith
few (e ∷ es) = omega (arith, few es, length-append (encode e) (encode_all es), length-encode e)

module _ {S : Type 0} (callback : Change → Eff S Exception (Unit {0})) where
  -- The callback, for what is told.
  abbrev pub tell : Option Change → Eff S Exception (Unit {0})
  tell none = pure tt
  tell (some c) = callback c

  -- The callback for everything that is told, until it throws.
  abbrev pub tell_all : List (Option Change) → Eff S Exception (Unit {0})
  tell_all [] = pure tt
  tell_all (c ∷ cs) = tell c >> tell_all cs

  -- What is read of `e` when its field is this one.
  abbrev with_field : Sent → Text → Text → InotifyEvent
  with_field e bytes t = record { mask = mask_of e; len = length bytes; name = bytes ++ t }

  report_named :
      (name : Text) (padding : ℕ) (t : Text) (e : Sent) (s : S)
      → HasName (some name)
      → call_with callback (kind (mask_of e)) (with_field e (name_field (some name) padding) t) s
        ≡ tell (told (some name) e.what e.of_directory) s
  report_named name padding t e s h = rw (kind-mask_of e) (by_kind e.what)
    where
      by_kind :
          (k : Option FileEvent)
          → call_with callback k (with_field e (name_field (some name) padding) t) s
            ≡ tell (told (some name) k e.of_directory) s
      by_kind none = refl
      by_kind (some k) = rw (string_at-field name padding t h, is_dir-mask_of e) refl

  not_empty : (name : Text) (padding : ℕ) → (length (name ++ (0 ∷ zeros padding)) == 0) ≡ false
  not_empty name padding = ground (arith, length-append name (0 ∷ zeros padding))

  report-with_field :
      (name : Option Text) (padding : ℕ) (t : Text) (e : Sent) (s : S)
      → HasName name
      → report callback (with_field e (name_field name padding) t) s
        ≡ tell (told name e.what e.of_directory) s
  unfolding report
  report-with_field none padding t e s h = refl
  report-with_field (some name) padding t e s h =
      rw (report, not_empty name padding) (report_named name padding t e s h)

  abbrev then_true : Eff S Exception (Unit {0}) → Eff S Exception Bool
  then_true m = m >> pure true

  after_telling :
      {A : Type 0} (r : Result Exception (Unit {0}) × S) (k last : Eff S Exception A)
      (rest : Eff S Exception (Unit {0}))
      → ((s : S) → k s ≡ (rest >> last) s)
      → bind_result r (λ _. k) ≡ bind_result (bind_result r (λ _. rest)) (λ _. last)
  after_telling (ok tt, s) k last rest h = h s
  after_telling (err e, s) k last rest h = refl

  read_one :
      (fuel i size : ℕ) (buffer : Text) (e : Sent) (t : Text) (s : S)
      → ltb i size ≡ true
      → event_at (drop i buffer) ≡ some (seen e t)
      → HasName e.name
      → i + (16 + length (field e)) < 2 ^ 31
      → read_events callback (suc fuel) i size buffer s
        ≡ bind_result
            (tell (change_of e) s)
            (λ _. read_events callback fuel (i + (16 + length (field e))) size buffer)
  unfolding read_events
  read_one fuel i size buffer e t s below found named fits =
      rw (read_events, below)
        (rw found (
          rw (report-with_field e.name e.padding t e s named)
            (rw (advance-eq i (length (field e)) fits) refl)))

  no_more : (i size : ℕ) → size ≡ i + 0 → ltb i size ≡ false
  no_more i size e = ground (arith, e)

  -- Read from `i` on, where the buffer holds the events.
  read_events-Told :
      (es : List Sent) (fuel i size : ℕ) (buffer stale : Text) (s : S)
      → AreNamed es
      → length es < fuel
      → drop i buffer ≡ encode_all es ++ stale
      → size ≡ i + length (encode_all es)
      → size < 2 ^ 31
      → read_events callback fuel i size buffer s ≡ then_true (tell_all (changes_of es)) s
  unfolding read_events
  read_events-Told es zero i size buffer stale s h f d l fits = absurd (omega (arith, f))
  read_events-Told [] (suc fuel) i size buffer stale s h f d l fits =
      rw (read_events, no_more i size l) refl
  read_events-Told (e ∷ es) (suc fuel) i size buffer stale s h f d l fits =
      let whole : length (encode_all (e ∷ es)) ≡ 16 + length (field e) + length (encode_all es) =
        omega (arith, length-append (encode e) (encode_all es), length-encode e) in
      let ahead : drop i buffer ≡ encode e ++ (encode_all es ++ stale) =
        d ∙ append_assoc (encode e) (encode_all es) stale in
      read_one fuel i size buffer e (encode_all es ++ stale) s (ground (arith, l, whole))
        (ap event_at ahead ∙ event_at-encode e (encode_all es ++ stale)) h.0
        (omega (arith, l, whole, fits))
      ∙ after_telling (tell (change_of e) s)
          (read_events callback fuel (i + (16 + length (field e))) size buffer) (pure true)
          (tell_all (changes_of es))
          (λ s.
            read_events-Told es fuel (i + (16 + length (field e))) size buffer stale s h.1
              (omega (arith, f))
              (drop_add i (16 + length (field e)) buffer
                ∙ ap (drop (16 + length (field e))) ahead
                ∙ ap (λ n. drop n (encode e ++ (encode_all es ++ stale))) (sym (length-encode e))
                ∙ drop-append (encode e) (encode_all es ++ stale))
              (omega (arith, l, whole)) fits)

  -- The callback for batch after batch.
  abbrev pub tell_batches : List (List Sent) → Eff S Exception (Unit {0})
  tell_batches [] = pure tt
  tell_batches (es ∷ batches) = tell_all (changes_of es) >> tell_batches batches

  through_turn :
      (r : Result Exception (Unit {0}) × S) (buffer : Text) (go : Text → Eff S Exception Ending)
      → bind_result
          (bind_result (bind_result r (λ _. pure true)) (λ b. pure (turn_with callback buffer b)))
          (proceed callback go)
        ≡ bind_result r (λ _. go buffer)
  through_turn (ok tt, s) buffer go = refl
  through_turn (err e, s) buffer go = refl

  watch_loop-Told :
      (batches : List (List Sent)) (events : Option Incoming) (buffer : Text) (s : S)
      → AreBatches batches
      → watch_loop callback (rounds_of batches ++ (signalled events ∷ [])) buffer s
        ≡ (tell_batches batches >> pure left) s
  unfolding watch_loop turn
  watch_loop-Told [] events buffer s h = refl
  watch_loop-Told (es ∷ batches) events buffer s h =
      rw (take_more buf_len (encode_all es) h.1) (
        ap
          (λ r.
            bind_result
              (bind_result r
                (λ b. pure (turn_with callback (fill callback (encode_all es) buffer) b)))
              (proceed callback
                (watch_loop callback (rounds_of batches ++ (signalled events ∷ [])))))
          (read_events-Told es (suc (length (encode_all es))) 0 (length (encode_all es))
            (fill callback (encode_all es) buffer) (drop (length (encode_all es)) buffer) s h.0
            (few es) refl (omega arith) (omega (arith, h.1))))
      ∙ through_turn (tell_all (changes_of es) s) (fill callback (encode_all es) buffer)
          (watch_loop callback (rounds_of batches ++ (signalled events ∷ [])))
      ∙ after_telling (tell_all (changes_of es) s)
          (watch_loop callback (rounds_of batches ++ (signalled events ∷ []))
            (fill callback (encode_all es) buffer))
          (pure left) (tell_batches batches)
          (λ s. watch_loop-Told batches events (fill callback (encode_all es) buffer) s h.2)

  -- When inotify has been opened, and `read` gives batches of whole events that fit the buffer until
  -- the pipe is signalled, the callback hears of every named creation, deletion and modification, in
  -- order and once, until it throws; then the watch is closed and the loop left. Nothing is told of
  -- what waits when the pipe is signalled.
  pub watch-Told :
      (batches : List (List Sent)) (events : Option Incoming)
      (close_watch : Eff S Exception (Unit {0})) (buffer : Text) (s : S)
      → AreBatches batches
      → watch callback true close_watch buffer (rounds_of batches ++ (signalled events ∷ [])) s
        ≡ (tell_batches batches >> (close_watch >> pure left)) s
  unfolding watch
  watch-Told batches events close_watch buffer s h =
      ap (λ r. bind_result r (clean_up callback close_watch))
        (watch_loop-Told batches events buffer s h)
      ∙ cleaned (tell_batches batches s)
    where
      cleaned :
          (r : Result Exception (Unit {0}) × S)
          → bind_result (bind_result r (λ _. pure left)) (clean_up callback close_watch)
            ≡ bind_result r (λ _. close_watch >> pure left)
      cleaned (ok tt, s) = refl
      cleaned (err e, s) = refl
