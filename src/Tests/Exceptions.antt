-- ===== src/Tests/Exceptions.antt =====
-- A client whose callback throws, and what its login throws.
use sepm_group.Prelude.{ℕ, ◌≡◌, refl, ◌⊎◌, some, List, [], ◌∷◌, ◌++◌, codes, length, same}
use sepm_group.Prelude.Effects.{ok, err}
use sepm_group.SdcHelper.{is_valid_id}
use sepm_group.Sdc.{Exception, sdc, base}
use sepm_group.Database.{has_id}
use sepm_group.Database.Accounts.{Account, row, find}
use sepm_group.Database.Memory.{first_row, memory, memory-IsLawful}
use sepm_group.Server.{IceServerI, SessionImpl, World, account_name}
use sepm_group.Server.Authentication.{login, open_session}
use sepm_group.Server.Authentication.Login.{DatabaseFails}
use sepm_group.Server.Interleaving.Calls.{Call, logs_in}
use sepm_group.Server.Throws.{ThrowsOnlyIce, Explained}
use sepm_group.Server.Throws.Calls.{whole-Explained, login-thrown}
use sepm_group.Tests.Setup.{hello, secret}

abbrev refusal : Exception
refusal = sdc base (codes "no")

-- Every client throws from its `echo`.
abbrev rude_ice : IceServerI
rude_ice = record {
  State = List SessionImpl;
  Callback = Unit {0};
  Proxy = ℕ;
  Connection = Unit {0};
  callback_for_id = λ _ s. (ok tt, s);
  echo = λ _ t s. (err refusal, s);
  expose_object = λ x s. (ok (length s), s ++ (x ∷ []));
  checked_cast = λ p s. (ok p, s);
  exposed = λ s. s;
}

rude_ice-ThrowsOnlyIce : ThrowsOnlyIce rude_ice
rude_ice-ThrowsOnlyIce = record {
  callback_for_id-throws = λ _ _. tt;
  expose_object-throws = λ _ _. tt;
  checked_cast-throws = λ _ _. tt;
}

abbrev account : Account
account = record { name = codes "hello"; password = secret; public_key = 7 ∷ 8 ∷ [] }

abbrev one : World memory rude_ice
one = record { db = some (row account ∷ []); ice = []; log = [] }

abbrev logging_in : Call memory rude_ice
logging_in = logs_in hello secret (codes "client", tt)

whole-Explained_example : Explained memory rude_ice logging_in one refusal
unfolding login open_session account_name has_id first_row same is_valid_id find
whole-Explained_example =
    whole-Explained memory rude_ice memory-IsLawful rude_ice-ThrowsOnlyIce logging_in one refusal
      (account ∷ [], (refl, (refl, tt))) refl

login-thrown_example :
    ((login memory rude_ice hello secret (codes "client", tt) one).0 ≡ err refusal)
    ⊎ DatabaseFails memory rude_ice
        (login memory rude_ice hello secret (codes "client", tt) one)
        one
        (account ∷ [])
unfolding account_name same is_valid_id find
login-thrown_example =
    login-thrown memory rude_ice memory-IsLawful hello secret (codes "client", tt) one
      (account ∷ []) (record { id = codes "hello"; public_key = 7 ∷ 8 ∷ [] }) tt refusal
      (refl, (refl, tt)) refl refl refl
