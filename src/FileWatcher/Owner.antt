-- ===== src/FileWatcher/Owner.antt =====
-- The constructor and the destructor of common/FileWatcher.cpp, over the thread that runs `watch`.
use sepm_group.Prelude.{
  ◌≡◌, refl, ap, ◌∙◌, Bool, true, false, Option, some, none, List, ◌∷◌, ◌++◌, ◌⊎◌, inl, inr, Text,
  ℕ, arith,
}
use sepm_group.Prelude.Effects.{Eff, Result, ok, bind_cases, ◌>>=◌, pure}
use sepm_group.Sdc.{Exception}
use sepm_group.NotifyPipe.{
  System, IsSystem, NotifyPipe, notify_pipe, notify, close_pipe, receiver_fd, asserted,
}
use sepm_group.FileWatcher.{Change, Incoming, Round, watch_loop, ready}
use sepm_group.FileWatcher.Stopping.{Ended, AfterNotify, watch_loop-Ended}

pub record FileWatcher (U : System) : Type 0 where
  pub running : Bool
  pub pipe : NotifyPipe
  pub future : U.Future

module _ (U : System) where
  -- The constructor.
  unfoldable pub file_watcher : Text → Eff U.State Exception (FileWatcher U)
  file_watcher dir = do
    pipe ← notify_pipe U
    future ← U.run dir
    pure (record { running = true; pipe = pipe; future = future })

  -- `running = false; pipe.notify();`
  unfoldable pub tell : FileWatcher U → U.State → FileWatcher U × U.State
  tell self s = (record self { running = false }, notify U self.pipe s)

  -- The destructor, with that of the member `pipe`, which runs also when `waitForFinished` throws.
  unfoldable pub delete_watcher : FileWatcher U → Eff U.State Exception (Unit {0})
  delete_watcher self s =
      let (waited, t) = U.wait_for_finished (tell self s).0.future (tell self s).1 in
      (waited, (close_pipe U self.pipe t).1)

  abbrev pub HasPipe : FileWatcher U → U.State → Type 0
  HasPipe self s = U.linked (receiver_fd U self.pipe) self.pipe.m_send_fd s ≡ true

  -- A turn of the loop sees the flag, or what `select` says of the pipe.
  abbrev pub Observes : FileWatcher U × U.State → Round → Type 0
  Observes (self, s) round =
      (round.running ≡ self.running)
      ⊎ ((events : Option Incoming) × (round.selected
            ≡ ready (U.readable (receiver_fd U self.pipe) s) events))

  module _ (L : IsSystem U) where
    abbrev Linked : Result Exception NotifyPipe × U.State → Type 0
    Linked out =
        (p : NotifyPipe) → out.0 ≡ ok p → U.linked (receiver_fd U p) p.m_send_fd out.1 ≡ true

    asserted-Linked :
        (r : Option (ℕ × ℕ)) (t : U.State)
        → ((receive send : ℕ) → r ≡ some (receive, send) → U.linked receive send t ≡ true)
        → Linked (asserted U (r, t))
    asserted-Linked none t h p e = absurd (ground (arith, e))
    asserted-Linked (some (receive, send)) t h p e =
        let linked = h receive send refl in ground (arith, e, linked)

    file_watcher-HasPipe :
        (dir : Text) (s : U.State) (self : FileWatcher U)
        → (file_watcher dir s).0 ≡ ok self
        → HasPipe self (file_watcher dir s).1
    unfolding file_watcher notify_pipe
    file_watcher-HasPipe dir s self =
        bind_cases (λ out. out.0 ≡ ok self → HasPipe self out.1) (notify_pipe U) _ s
          (λ p e.
            bind_cases (λ out. out.0 ≡ ok self → HasPipe self out.1) (U.run dir) _ _
              (λ future _ h.
                let linked = L.linked-run (receiver_fd U p) p.m_send_fd dir (notify_pipe U s).1 (
                  asserted-Linked (U.pipe s).0 (U.pipe s).1
                    (λ receive send. L.linked-pipe receive send s) p e) in
                ground (arith, h, linked))
              (λ _ _ h. absurd (ground (arith, h))))
          (λ _ _ h. absurd (ground (arith, h)))

    tell-AfterNotify :
        (self : FileWatcher U) (s : U.State) (round : Round)
        → HasPipe self s
        → Observes (tell self s) round
        → AfterNotify round
    unfolding tell notify
    tell-AfterNotify self s round linked (inl e) = inl e
    tell-AfterNotify self s round linked (inr (events, e)) = inr (
      events,
      e
          ∙ ap (λ b. ready b events)
              (L.readable-write (receiver_fd U self.pipe) self.pipe.m_send_fd _ _ s linked),
    )

    -- On a system that keeps its laws, when a watcher was made and its pipe is still open, then the
    -- first turn of its loop that sees what the destructor wrote is the last, whatever the system had
    -- answered before: the loop does not go on to another `select`.
    pub file_watcher-Ended :
        {S : Type 0} (callback : Change → Eff S Exception (Unit {0})) (dir : Text)
        (made s : U.State) (self : FileWatcher U)
        → (file_watcher dir made).0 ≡ ok self
        → (HasPipe self (file_watcher dir made).1 → HasPipe self s)
        → (rounds later : List Round) (round : Round) (buffer : Text) (w : S)
        → Observes (tell self s) round
        → Ended callback (watch_loop callback (rounds ++ (round ∷ later)) buffer w)
    file_watcher-Ended callback dir made s self e kept rounds later round buffer w seen =
        watch_loop-Ended callback rounds later round buffer w
          (tell-AfterNotify self s round (kept (file_watcher-HasPipe dir made self e)) seen)
