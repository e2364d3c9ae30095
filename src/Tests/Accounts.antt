-- ===== src/Tests/Accounts.antt =====
-- Registration, login and deletion at concrete data.
use sepm_group.Prelude.{◌≡◌, ◌⊎◌, refl, true, false, some, List, [], ◌∷◌, ◌++◌, Text, codes, same}
use sepm_group.Prelude.Effects.{ok, err}
use sepm_group.SdcHelper.{is_valid_id, get_name_from_id, get_server_from_id}
use sepm_group.Database.{has_id}
use sepm_group.Database.Accounts.{Account, row, find}
use sepm_group.Database.Laws.{Represents}
use sepm_group.Database.Memory.{memory, memory-IsLawful, memory-IsReliable, first_row}
use sepm_group.Server.{World, SessionImpl, account_name}
use sepm_group.Server.Outcome.{Refines}
use sepm_group.Server.System.{
  registers, logs_in, requests, here, next, Reach, HasAccounts, Reach-HasAccounts,
}
use sepm_group.Server.System.Exposure.{Entered, Reach-Vouched}
use sepm_group.Server.Race.{register_check, register_store, register_race}
use sepm_group.Server.Authentication.{register_user, login, open_session}
use sepm_group.Server.Authentication.Register.{account_of, register_spec, register_user-Refines}
use sepm_group.Server.Authentication.Reliable.{register_user-Decides}
use sepm_group.Server.Authentication.Login.{credentials, Decides, DatabaseFails, login-Decides}
use sepm_group.Server.Authentication.Success.{
  Success, login-Success, register_user-login, session_user,
}
use sepm_group.Server.Session.{Self, delete_user}
use sepm_group.Server.Session.Delete.{
  Deletes, delete_user-Deletes, delete_user_full_id, not_permitted,
}
use sepm_group.Server.Session.Requests.{
  deletes_user, retrieves_loglist, handle, with_logged_in, handle_logged_in,
}
use sepm_group.Tests.Setup.{local_ice, local_ice-IsLawful, hello, world, secret, fresh}

abbrev bare : Text
bare = codes "hello"

abbrev account : Account
account = record { name = bare; password = secret; public_key = 7 ∷ 8 ∷ [] }

-- The world in which `hello` is registered.
abbrev one : World memory local_ice
one = record { db = some (row account ∷ []); ice = []; log = [] }

one-Represents : Represents memory one.db (account ∷ [])
unfolding find
one-Represents = (refl, (refl, tt))

run_register : ((register_user memory local_ice hello secret fresh).1.db ≡ one.db)
unfolding register_user account_name is_valid_id get_name_from_id same first_row
run_register = refl

run_login : (login memory local_ice hello secret (codes "client", tt) one).0 ≡ ok 0
unfolding login account_name is_valid_id get_name_from_id same first_row has_id open_session
run_login = refl

abbrev mine : SessionImpl
mine = record { logged_in = true; user = record { id = bare; public_key = 7 ∷ 8 ∷ [] } }

abbrev self : Self memory local_ice
self = record { this = mine; world = one }

Reach-HasAccounts_example :
    HasAccounts memory local_ice
      (handle memory local_ice (deletes_user world) (record {
        this = mine;
        world = (register_user memory local_ice hello secret fresh).1;
      })).1.world
Reach-HasAccounts_example =
    Reach-HasAccounts memory local_ice memory-IsLawful
      (next (next here (registers hello secret)) (requests mine (deletes_user world)))
      ([], (refl, tt))

-- A registration and a login.
abbrev two_calls :
    Reach memory local_ice fresh
      (login memory local_ice hello secret
        (codes "client", tt)
        (register_user memory local_ice hello secret fresh).1).1
two_calls = next (next here (registers hello secret)) (logs_in hello secret (codes "client", tt))

Reach-Vouched_example :
    (xs : List SessionImpl) × ((login memory local_ice hello secret
        (codes "client", tt)
        (register_user memory local_ice hello secret fresh).1).1.ice
      ≡ [] ++ xs)
    × Entered memory local_ice memory-IsLawful local_ice-IsLawful two_calls xs
Reach-Vouched_example =
    Reach-Vouched memory local_ice memory-IsLawful local_ice-IsLawful ([], (refl, tt)) two_calls

register_user-Refines_example :
    Refines (register_user memory local_ice hello secret fresh) (register_spec hello secret []) []
register_user-Refines_example =
    register_user-Refines memory local_ice memory-IsLawful hello secret fresh [] (refl, tt)

register_user-Decides_example :
    ((register_user memory local_ice hello secret fresh).0 ≡ (register_spec hello secret []).0)
    × Represents memory
        (register_user memory local_ice hello secret fresh).1.db
        (register_spec hello secret []).1
register_user-Decides_example =
    register_user-Decides memory local_ice memory-IsLawful memory-IsReliable hello secret fresh []
      (refl, tt)

login-Decides_example :
    (Decides memory local_ice
      (login memory local_ice world secret (codes "client", tt) one)
      (credentials world secret (find (account_name (codes "world")) (account ∷ [])))
      one
      (account ∷ [])
      (codes "world")
      (codes "client", tt))
    ⊎ DatabaseFails memory local_ice
        (login memory local_ice world secret (codes "client", tt) one)
        one
        (account ∷ [])
login-Decides_example =
    login-Decides memory local_ice memory-IsLawful world secret (codes "client", tt) (account ∷ [])
      one one-Represents

login-Success_example :
    Success memory local_ice memory-IsLawful local_ice-IsLawful hello secret
      (codes "client", tt)
      (account ∷ [])
      one
      0
login-Success_example =
    login-Success memory local_ice memory-IsLawful local_ice-IsLawful hello secret
      (codes "client", tt) (account ∷ []) one 0 one-Represents run_login

run_registered : (register_user memory local_ice hello secret fresh).0 ≡ ok tt
unfolding register_user account_name is_valid_id get_name_from_id same first_row
run_registered = refl

register_user-login_test :
    (Decides memory local_ice
      (login memory local_ice hello secret
        (codes "client", tt)
        (register_user memory local_ice hello secret fresh).1)
      (ok (session_user hello (account_of hello secret)))
      (register_user memory local_ice hello secret fresh).1
      (account_of hello secret ∷ [])
      (codes "hello@localhost")
      (codes "client", tt))
    ⊎ DatabaseFails memory local_ice
        (login memory local_ice hello secret
          (codes "client", tt)
          (register_user memory local_ice hello secret fresh).1)
        (register_user memory local_ice hello secret fresh).1
        (account_of hello secret ∷ [])
register_user-login_test =
    register_user-login memory local_ice memory-IsLawful local_ice-IsLawful hello secret
      (codes "client", tt) [] fresh (refl, tt) run_registered

delete_user-Deletes_example :
    Deletes memory local_ice (delete_user memory local_ice world self) self world (account ∷ [])
delete_user-Deletes_example =
    delete_user-Deletes memory local_ice memory-IsLawful world (account ∷ []) self one-Represents

delete_user_full_id_example : delete_user memory local_ice hello self ≡ (err not_permitted, self)
unfolding account_name is_valid_id get_name_from_id get_server_from_id same
delete_user_full_id_example = delete_user_full_id memory local_ice hello self refl refl

handle_logged_in_test :
    ((handle memory local_ice retrieves_loglist (with_logged_in memory local_ice false self)).0
      ≡ (handle memory local_ice retrieves_loglist self).0)
    × ((handle memory local_ice retrieves_loglist
          (with_logged_in memory local_ice false self)).1.world
        ≡ (handle memory local_ice retrieves_loglist self).1.world)
handle_logged_in_test = handle_logged_in memory local_ice retrieves_loglist false self

register_race_test :
    let w1 = (register_check memory local_ice hello fresh).1 in
    let w2 = (register_check memory local_ice hello w1).1 in
    let w3 = (register_store memory local_ice hello secret w2).1 in
    let w4 = (register_store memory local_ice hello [] w3).1 in
    ((register_check memory local_ice hello fresh).0 ≡ ok tt)
    × ((register_check memory local_ice hello w1).0 ≡ ok tt)
    × ((register_store memory local_ice hello secret w2).0 ≡ ok tt)
    × ((register_store memory local_ice hello [] w3).0 ≡ ok tt)
    × ¬ HasAccounts memory local_ice w4
unfolding find
register_race_test =
    register_race memory local_ice memory-IsLawful memory-IsReliable hello hello secret [] fresh []
      (refl, tt) refl refl
