-- ===== src/Tests/Lifecycle.antt =====
-- The tests CanRegisterAndLogin, CantRegisterTwice, NoLoginWithBadPassword and CanDeleteOwnAccount of
-- tests/server, as instances of the theorems, with the mocks of tests/include/IceMocks.h.
use sepm_group.Prelude.{◌≡◌, ◌≢◌, refl, true, none, [], ◌∷◌, ◌++◌, codes, same, arith}
use sepm_group.Prelude.Effects.{ok, err}
use sepm_group.SdcHelper.{is_valid_id, get_name_from_id}
use sepm_group.Sdc.{User, sdc, authentication}
use sepm_group.Database.{has_id}
use sepm_group.Database.Accounts.{find}
use sepm_group.Database.Laws.{Represents}
use sepm_group.Database.Memory.{first_row, memory, memory-IsLawful, memory-IsReliable}
use sepm_group.Server.{World, SessionImpl, session_impl, IsLawful, account_name}
use sepm_group.Server.Authentication.{register_user, login, open_session}
use sepm_group.Server.Authentication.Login.{Untouched}
use sepm_group.Server.Authentication.Register.{account_of}
use sepm_group.Server.Authentication.Success.{session_user}
use sepm_group.Server.Session.{Self, delete_user}
use sepm_group.Server.Lifecycle.{register_user-taken, register_user-delete_user}
use sepm_group.Server.Lifecycle.Entering.{Willing, register_user-Enters}
use sepm_group.IceMocks.{ice_server_mock, no_calls, callback_fake_echo}
use sepm_group.Tests.Setup.{hello, secret}

abbrev empty : World memory ice_server_mock
empty = record { db = none; ice = no_calls; log = [] }

abbrev registered : World memory ice_server_mock
registered = (register_user memory ice_server_mock hello secret empty).1

ice_server_mock-IsLawful : IsLawful ice_server_mock
unfolding callback_fake_echo
ice_server_mock-IsLawful = record {
  exposed-callback_for_id = λ _ _. refl;
  exposed-echo = λ _ _ _. refl;
  exposed-expose_object = λ _ _ _ _. refl;
  exposed-expose_object_failed = λ _ _ _ h. absurd (ground (arith, h));
  exposed-checked_cast = λ _ _. refl;
}

fake-Willing : (x : SessionImpl) → Willing ice_server_mock (codes "client", tt) x no_calls tt
unfolding callback_fake_echo
fake-Willing x = record {
  callback = tt;
  obtained = refl;
  answered = refl;
  object = tt;
  exposes = refl;
  casts = refl;
}

no_account : find (account_name hello.id) [] ≡ none
unfolding find
no_account = refl

register_user-Enters_example :
    let out = login memory ice_server_mock hello secret (codes "client", tt) registered in
    ((register_user memory ice_server_mock hello secret empty).0 ≡ ok tt)
    × (out.0 ≡ ok tt)
    × (out.1.ice.expose_object
        ≡ [] ++ (session_impl (session_user hello (account_of hello secret)) ∷ []))
    × Represents memory out.1.db ([] ++ (account_of hello secret ∷ []))
register_user-Enters_example =
    register_user-Enters memory ice_server_mock memory-IsLawful memory-IsReliable
      ice_server_mock-IsLawful hello secret (codes "client", tt) empty [] tt (refl, tt) no_account
      (fake-Willing (session_impl (session_user hello (account_of hello secret))))

-- EXPECT_CALL: each mocked method once, with the text "42".
mocks_test :
    let calls = (login memory ice_server_mock hello secret (codes "client", tt) registered).1.ice in
    (calls.callback_for_id ≡ 1) × (calls.echo ≡ codes "42" ∷ [])
unfolding login register_user open_session account_name same is_valid_id get_name_from_id first_row
    has_id callback_fake_echo
mocks_test = (refl, refl)

wrong : codes "password" ≢ secret
wrong h = absurd (ground (arith, h))

register_user-taken_example :
    let again = register_user memory ice_server_mock hello (codes "password") registered in
    let out =
      login memory ice_server_mock hello (codes "password") (codes "client", tt) registered in
    (again.0 ≡ err (sdc authentication (codes "ID already exists")))
    × Represents memory again.1.db ([] ++ (account_of hello secret ∷ []))
    × (out.0 ≡ err (sdc authentication (codes "invalid password")))
    × Untouched memory ice_server_mock registered ([] ++ (account_of hello secret ∷ [])) out.1
register_user-taken_example =
    register_user-taken memory ice_server_mock memory-IsLawful memory-IsReliable hello secret empty
      [] (refl, tt) no_account hello (codes "password") (codes "client", tt) refl wrong

abbrev bare : User
bare = record { id = codes "hello"; public_key = [] }

abbrev mine : Self memory ice_server_mock
mine = record { this = record { logged_in = true; user = bare }; world = registered }

own_name : codes "hello" ≡ account_name hello.id
unfolding account_name is_valid_id get_name_from_id same
own_name = refl

register_user-delete_user_example :
    let gone = delete_user memory ice_server_mock bare mine in
    let out = login memory ice_server_mock hello secret (codes "client", tt) gone.1.world in
    ((register_user memory ice_server_mock hello secret empty).0 ≡ ok tt)
    × (gone.0 ≡ ok tt)
    × Represents memory gone.1.world.db []
    × (out.0 ≡ err (sdc authentication (codes "unknown ID")))
    × Untouched memory ice_server_mock gone.1.world [] out.1
    × ((register_user memory ice_server_mock hello secret gone.1.world).0 ≡ ok tt)
register_user-delete_user_example =
    register_user-delete_user memory ice_server_mock memory-IsLawful memory-IsReliable hello secret
      empty [] (refl, tt) no_account bare mine refl own_name refl hello secret (codes "client", tt)
      refl
