-- ===== src/NotifyPipe.antt =====
-- common/NotifyPipe.h and common/NotifyPipe.cpp. The system calls, and the threads of
-- QtConcurrent that the owner of a pipe uses, are the parameter `System`.
use sepm_group.Prelude.{ℕ, ◌≡◌, Bool, true, Option, none, some, ◌∷◌, Text, codes}
use sepm_group.Prelude.Effects.{Eff, Result, ok, err, modify, ◌>>◌}
use sepm_group.Sdc.{Exception, undefined}

pub record System : Type 1 where
  pub State : Type 0
  -- `pipe`: the receiving and the sending descriptor, when it returns 0
  pub pipe : State → Option (ℕ × ℕ) × State
  pub write : ℕ → Text → State → State
  pub close : ℕ → State → State
  -- Whether `select` on a descriptor finds it ready.
  pub readable : ℕ → State → Bool
  -- Whether two descriptors are the open ends of a pipe.
  pub linked : ℕ → ℕ → State → Bool
  -- `QFuture<void>`, `QtConcurrent::run` of a watcher on a directory, and `waitForFinished`
  pub Future : Type 0
  pub run : Text → Eff State Exception Future
  pub wait_for_finished : Future → Eff State Exception (Unit {0})

-- `pipe` gives the ends of a pipe, that can be read once something was written to its other end, and
-- starting a thread closes none.
pub record IsSystem (U : System) : Type 0 where
  pub linked-pipe :
      (receive send : ℕ) (s : U.State)
      → (U.pipe s).0 ≡ some (receive, send)
      → U.linked receive send (U.pipe s).1 ≡ true
  pub readable-write :
      (receive send c : ℕ) (t : Text) (s : U.State)
      → U.linked receive send s ≡ true
      → U.readable receive (U.write send (c ∷ t) s) ≡ true
  pub linked-run :
      (receive send : ℕ) (dir : Text) (s : U.State)
      → U.linked receive send s ≡ true
      → U.linked receive send (U.run dir s).1 ≡ true

pub record NotifyPipe : Type 0 where
  pub m_receive_fd : ℕ
  pub m_send_fd : ℕ

module _ (U : System) where
  -- `assert(ret == 0)`: after a failure the descriptors are undefined, or the process ends.
  abbrev pub asserted : Option (ℕ × ℕ) × U.State → Result Exception NotifyPipe × U.State
  asserted (none, s) = (err undefined, s)
  asserted (some (receive, send), s) = (ok (record { m_receive_fd = receive; m_send_fd = send }), s)

  -- The constructor.
  unfoldable pub notify_pipe : Eff U.State Exception NotifyPipe
  notify_pipe s = asserted (U.pipe s)

  -- The destructor.
  unfoldable pub close_pipe : NotifyPipe → Eff U.State Exception (Unit {0})
  close_pipe self = do modify (U.close self.m_send_fd); modify (U.close self.m_receive_fd)

  abbrev pub receiver_fd : NotifyPipe → ℕ
  receiver_fd self = self.m_receive_fd

  unfoldable pub notify : NotifyPipe → U.State → U.State
  notify self s = U.write self.m_send_fd (codes "1") s
