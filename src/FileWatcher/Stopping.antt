-- ===== src/FileWatcher/Stopping.antt =====
-- The loop ends when the destructor has told it to.
use sepm_group.Prelude.{
  ◌≡◌, ◌≢◌, refl, Bool, true, false, Option, List, [], ◌∷◌, ◌++◌, ◌⊎◌, inl, inr, Text, arith,
}
use sepm_group.Prelude.Effects.{Eff, Result, ok, bind_cases}
use sepm_group.Sdc.{Exception}
use sepm_group.FileWatcher.{
  Change, Incoming, Selected, Round, Turn, again, stop, spin, turn, proceed, watch_loop, Ending,
  waiting, ready,
}

-- What a round may be after `running = false; pipe.notify();`: the flag is seen, or the pipe is.
abbrev pub AfterNotify : Round → Type 0
AfterNotify round =
    (round.running ≡ false) ⊎ ((events : Option Incoming) × (round.selected ≡ ready true events))

module _ {S : Type 0} (callback : Change → Eff S Exception (Unit {0})) where
  -- It has not gone on to wait.
  abbrev pub Ended : Result Exception Ending × S → Type 0
  Ended out = out.0 ≢ ok waiting

  turn_stops :
      (running : Bool) (selected : Selected) (buffer : Text) (s : S)
      → (running ≡ false) ⊎ ((events : Option Incoming) × (selected ≡ ready true events))
      → turn callback running selected buffer s ≡ (ok stop, s)
  unfolding turn
  turn_stops false selected buffer s h = refl
  turn_stops true selected buffer s (inl e) = absurd (ground (arith, e))
  turn_stops true selected buffer s (inr (events, e)) = rw e refl

  proceed-Ended :
      (go : Text → Eff S Exception Ending)
      → ((buffer : Text) (s : S) → Ended (go buffer s))
      → (t : Turn callback) (s : S) → Ended (proceed callback go t s)
  proceed-Ended go h (again buffer) s = h buffer s
  proceed-Ended go h stop s = λ e. ground (arith, e)
  proceed-Ended go h spin s = λ e. ground (arith, e)

  -- Whatever the answers of the system were before, a round after the notification is the last: the
  -- loop has been left, or it had ended by an exception, or the inner loop did not end.
  pub watch_loop-Ended :
      (rounds later : List Round) (round : Round) (buffer : Text) (s : S)
      → AfterNotify round
      → Ended (watch_loop callback (rounds ++ (round ∷ later)) buffer s)
  unfolding watch_loop
  watch_loop-Ended [] later round buffer s h =
      rw (watch_loop, turn_stops round.running round.selected buffer s h) (λ e. ground (arith, e))
  watch_loop-Ended (r ∷ rounds) later round buffer s h =
      bind_cases Ended (turn callback r.running r.selected buffer) _ s
        (λ t _.
          proceed-Ended (watch_loop callback (rounds ++ (round ∷ later)))
            (λ buffer s. watch_loop-Ended rounds later round buffer s h) t
            (turn callback r.running r.selected buffer s).1)
        (λ _ _ e. ground (arith, e))
