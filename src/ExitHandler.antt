-- ===== src/ExitHandler.antt =====
-- common/ExitHandler.h and common/ExitHandler.cpp. The rest of the process, which a handler changes,
-- is any type.
use sepm_group.Prelude.{ℕ, ◌≡◌, refl, Bool, true, Option, none, some, if◌then◌else◌}
use sepm_group.Prelude.Effects.{Eff, Result, throw}
use sepm_group.Sdc.{Exception, bad_function_call}

module _ (S : Type 0) where
  -- `function<void(int)>`, when it is not empty
  abbrev pub Handler : Type 0
  Handler = ℕ → Eff S Exception (Unit {0})

  pub record ExitHandler : Type 0 where
    pub handler : Option Handler

  pub record Process : Type 0 where
    -- `ExitHandler::inst`
    pub inst : Option ExitHandler
    -- Whether SIGINT has `signal_handler` as its action; by default it ends the process.
    pub sigint : Bool
    pub rest : S

  abbrev instance_of : Option ExitHandler → ExitHandler
  instance_of none = record { handler = none }
  instance_of (some inst) = inst

  -- `ExitHandler::i`: afterwards there is an instance.
  unfoldable pub i : Process → ExitHandler × Process
  i p = (instance_of p.inst, record p { inst = some (instance_of p.inst) })

  -- `ExitHandler::i()->setHandler(h)`
  unfoldable pub set_handler : Handler → Process → Process
  set_handler h p = record ((i p).1) { inst = some (record { handler = some h }); sigint = true }

  -- A computation on the rest of the process.
  abbrev pub on_rest : {A : Type 0} → Eff S Exception A → Eff Process Exception A
  on_rest m p = ((m p.rest).0, record p { rest = (m p.rest).1 })

  -- `this->handler(s)`
  unfoldable pub handle_signal : ℕ → ExitHandler → Eff Process Exception (Unit {0})
  handle_signal s self = elim self.handler [
    | none ↦ throw bad_function_call
    | some h ↦ on_rest (h s)
  ]

  unfoldable pub signal_handler : ℕ → Eff Process Exception (Unit {0})
  signal_handler s p = handle_signal s (i p).0 (i p).1

  -- What SIGINT, the signal 2, does, unless it ends the process.
  abbrev pub interrupt : Process → Option (Result Exception (Unit {0}) × Process)
  interrupt p = if p.sigint then some (signal_handler 2 p) else none

  -- SIGINT calls the handler that was set last with the number of the signal, and keeps it.
  pub interrupt-set_handler :
      (h : Handler) (p : Process)
      → interrupt (set_handler h p) ≡ some (on_rest (h 2) (set_handler h p))
  unfolding set_handler signal_handler handle_signal i
  interrupt-set_handler h p = refl
