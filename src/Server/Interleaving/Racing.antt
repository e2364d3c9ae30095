-- ===== src/Server/Interleaving/Racing.antt =====
-- The race of two registrations as a run of two threads.
use sepm_group.Prelude.{subst, ◌≡◌, refl, ap, ◌∙◌, none, List, ◌++◌, Text, codes, arith}
use sepm_group.Prelude.Effects.{Result, ok}
use sepm_group.Sdc.{User, Exception, authentication}
use sepm_group.Database.{Soci, IsLawful, IsReliable}
use sepm_group.Database.Accounts.{Account, find}
use sepm_group.Database.Laws.{Represents}
use sepm_group.Server.{World, IceServerI, account_name, is_initialized, on_db, info, throw_if}
use sepm_group.Server.Authentication.{column}
use sepm_group.Server.Race.{register_check, register_store, register_race}
use sepm_group.Server.System.{HasAccounts}
use sepm_group.Server.Interleaving.{
  ret, lift, ◌>>=◌, ◌>>◌, run, update, System, HasEnded, begins, Reach, here, later,
}
use sepm_group.Server.Interleaving.Calls.{ServerProgram, Call, registers, program, register_program}
use sepm_group.Server.Interleaving.Alone.{run_alone}

module _ (S : Soci) (I : IceServerI) where
  -- `register_program`, in the parts of the race.
  abbrev check_program : User → ServerProgram S I (Unit {0})
  check_program u = do
    lift (on_db S.create_users)
    selected ← lift (on_db (S.select_user (account_name u.id)))
    lift (
        throw_if (is_initialized (column (λ r. r.id) selected)) authentication
          (codes "ID already exists"))

  abbrev store_program : User → Text → ServerProgram S I (Unit {0})
  store_program u pw = do
    lift (on_db (S.insert_user (account_name u.id) pw u.public_key))
    lift (info (codes "Registered " ++ u.id))

  register_program-parts :
      (u : User) (pw : Text)
      → program S I (registers u pw) ≡ check_program u >>= λ _. store_program u pw >>= ret
  unfolding program register_program
  register_program-parts u pw = refl

  run-check_program : (u : User) (w : World S I) → run (check_program u) w ≡ register_check S I u w
  unfolding register_check
  run-check_program u w = ground arith

  run-store_program :
      (u : User) (pw : Text) (w : World S I)
      → run (store_program u pw) w ≡ register_store S I u pw w
  unfolding register_store
  run-store_program u pw w = refl

  pair_ok : (r : Result Exception (Unit {0}) × World S I) → r.0 ≡ ok tt → r ≡ (ok tt, r.1)
  pair_ok r h = ap (λ o. (o, r.1)) h

  abbrev Sys : Type 1
  Sys = System (World S I)

  abbrev Reaches : Sys → Sys → Type 1
  Reaches = Reach (Call S I) (program S I)

  -- Two threads have each made a registration to its end, and the table is no list of accounts.
  pub record Spoiled (s : Sys) : Type 1 where
    pub after : Sys
    pub reach : Reaches s after
    pub first_done : after.threads 0 ≡ ret tt
    pub second_done : after.threads 1 ≡ ret tt
    pub spoiled : ¬ HasAccounts S I after.world

  module _ (L : IsLawful S) (R : IsReliable S) (u v : User) (pw pw' : Text) (s : Sys) where
    abbrev one : Sys
    one = record s { threads = update 0 (program S I (registers u pw)) s }

    abbrev two : Sys
    two = record one { threads = update 1 (program S I (registers v pw')) one }

    -- On a database that does not fail, from any state in which threads 0 and 1 have no call and the
    -- table is a list of accounts without the name of `u`: when they begin to register users of
    -- that one name, their steps can mix so that both calls end and the table is no list of accounts any
    -- more.
    pub interleaved_race :
        (us : List Account)
        → HasEnded (s.threads 0)
        → HasEnded (s.threads 1)
        → Represents S s.world.db us
        → find (account_name u.id) us ≡ none
        → account_name u.id ≡ account_name v.id
        → Spoiled s
    interleaved_race us idle0 idle1 rep free same_name =
        let w = s.world in
        let w1 = (register_check S I u w).1 in
        let w2 = (register_check S I v w1).1 in
        let w3 = (register_store S I u pw w2).1 in
        let (ok1, ok2, ok3, ok4, broken) =
          register_race S I L R u v pw pw' w us rep free same_name in
        let begun : Reaches s two =
          later (later here (begins 0 (registers u pw) idle0)) (begins 1 (registers v pw') idle1) in
        let a =
          run_alone (Call S I) (program S I) s (check_program u) (λ _. store_program u pw >>= ret) 0
            two (ok tt) w1 begun (register_program-parts u pw)
            (run-check_program u w ∙ pair_ok (register_check S I u w) ok1) in
        let b =
          run_alone (Call S I) (program S I) s (check_program v) (λ _. store_program v pw' >>= ret)
            1 a.after (ok tt) w2 a.reach (a.others 1 refl ∙ register_program-parts v pw')
            (ap (run (check_program v)) a.world
              ∙ run-check_program v w1
              ∙ pair_ok (register_check S I v w1) ok2) in
        let c =
          run_alone (Call S I) (program S I) s (store_program u pw) ret 0 b.after (ok tt) w3 b.reach
            (b.others 0 refl ∙ a.thread)
            (ap (run (store_program u pw)) b.world
              ∙ run-store_program u pw w2
              ∙ pair_ok (register_store S I u pw w2) ok3) in
        let d =
          run_alone (Call S I) (program S I) s (store_program v pw') ret 1 c.after (ok tt)
            (register_store S I v pw' w3).1 c.reach (c.others 1 refl ∙ b.thread)
            (ap (run (store_program v pw')) c.world
              ∙ run-store_program v pw' w3
              ∙ pair_ok (register_store S I v pw' w3) ok4) in
        record {
          after = d.after;
          reach = d.reach;
          first_done = d.others 0 refl ∙ c.thread;
          second_done = d.thread;
          spoiled = λ has. broken (subst (HasAccounts S I) d.world has);
        }
