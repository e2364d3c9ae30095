-- ===== src/Tests/Threads.antt =====
-- Calls of two clients that run at once.
use sepm_group.Prelude.{ℕ, ◌≡◌, ◌≢◌, refl, arith, List, [], ◌∷◌, ◌++◌, codes, same}
use sepm_group.Database.{has_id}
use sepm_group.Database.Accounts.{find}
use sepm_group.Database.Memory.{first_row, memory, memory-IsLawful, memory-IsReliable}
use sepm_group.SdcHelper.{is_valid_id}
use sepm_group.Server.{World, SessionImpl, session_impl, account_name}
use sepm_group.Server.Authentication.{register_user}
use sepm_group.Server.Interleaving.{ret, raise, System, begins, Reach, here, later}
use sepm_group.Server.Interleaving.Calls.{
  Call, registers, logs_in, program, login_program, register_program, open_program,
}
use sepm_group.Server.Interleaving.Vouching.{ServerRun, Entered, interleaved-Vouched}
use sepm_group.Sdc.{undefined}
use sepm_group.Database.Complete.{IsComplete}
use sepm_group.Server.Throws.{ThrowsOnlyIce}
use sepm_group.Server.Interleaving.Defined.{interleaved-Fine}
use sepm_group.Server.Interleaving.Racing.{Spoiled, interleaved_race}
use sepm_group.Tests.Schedule.{begin, steps, steps-Reach}
use sepm_group.Tests.Setup.{local_ice, local_ice-IsLawful, hello, world, secret, fresh}

abbrev Sys : Type 1
Sys = System (World memory local_ice)

-- `hello` is registered, and no thread has a call.
abbrev start : Sys
start = record {
  world = (register_user memory local_ice hello secret fresh).1;
  threads = λ _. ret tt;
}

abbrev Run : Sys → Type 1
Run = Reach (Call memory local_ice) (program memory local_ice) start

abbrev logging_in : Call memory local_ice
logging_in = logs_in hello secret (codes "client", tt)

abbrev begun : Sys
begun = begin 1 (registers world (codes "pw")) (begin 0 logging_in start)

begun-Run : Run begun
begun-Run = later (later here (begins 0 logging_in tt)) (begins 1 (registers world (codes "pw")) tt)

-- Thread 1 registers `world` while thread 0 logs in.
abbrev mixed : List ℕ
mixed = 0 ∷ 1 ∷ 0 ∷ 0 ∷ 1 ∷ 1 ∷ 0 ∷ 1 ∷ 0 ∷ 0 ∷ 0 ∷ 1 ∷ 0 ∷ 0 ∷ 0 ∷ 0 ∷ 0 ∷ 0 ∷ []

mixed_test :
    ((steps mixed begun).world.ice
      ≡ session_impl (record { id = codes "hello"; public_key = 7 ∷ 8 ∷ [] }) ∷ [])
    × ((steps mixed begun).threads 0 ≡ ret tt)
    × ((steps mixed begun).threads 1 ≡ ret tt)
unfolding program login_program register_program open_program register_user account_name has_id
    first_row same is_valid_id
mixed_test = (refl, refl, refl)

abbrev mixed_run : ServerRun memory local_ice start (steps mixed begun)
mixed_run = steps-Reach mixed start begun begun-Run

interleaved-Vouched_example :
    (xs : List SessionImpl) × ((steps mixed begun).world.ice ≡ start.world.ice ++ xs)
    × Entered memory local_ice start mixed_run xs
interleaved-Vouched_example =
    interleaved-Vouched memory local_ice start memory-IsLawful local_ice-IsLawful (λ _. tt)
      mixed_run

abbrev idle : Sys
idle = record { world = fresh; threads = λ _. ret tt }

interleaved_race_example : Spoiled memory local_ice idle
unfolding find
interleaved_race_example =
    interleaved_race memory local_ice memory-IsLawful memory-IsReliable hello hello secret
      (codes "other") idle [] tt tt (refl, tt) refl refl

local_ice-ThrowsOnlyIce : ThrowsOnlyIce local_ice
local_ice-ThrowsOnlyIce = record {
  callback_for_id-throws = λ _ _. tt;
  expose_object-throws = λ _ _. tt;
  checked_cast-throws = λ _ _. tt;
}

start-IsComplete : IsComplete memory memory-IsLawful start.world.db
unfolding register_user first_row
start-IsComplete = ((tt, tt, tt), tt)

interleaved-Fine_example :
    IsComplete memory memory-IsLawful (steps mixed begun).world.db
    × ((i : ℕ) → (steps mixed begun).threads i ≢ raise undefined)
interleaved-Fine_example =
    interleaved-Fine memory local_ice memory-IsLawful local_ice-ThrowsOnlyIce
      (λ _ _ _ _ h. absurd (ground (arith, h))) start (λ _. refl) start-IsComplete
      (steps-Reach mixed start begun begun-Run)
