-- ===== src/Tests/Setup.antt =====
-- A small Ice whose clients answer every echo, and users.
use sepm_group.Prelude.{ℕ, refl, none, List, [], ◌∷◌, ◌++◌, Text, codes, length, arith}
use sepm_group.Prelude.Effects.{ok}
use sepm_group.Sdc.{User}
use sepm_group.Database.Memory.{memory}
use sepm_group.Server.{IceServerI, IsLawful, SessionImpl, World}

-- Sessions are numbered in the order of their exposure.
abbrev pub local_ice : IceServerI
local_ice = record {
  State = List SessionImpl;
  Callback = Unit {0};
  Proxy = ℕ;
  Connection = Unit {0};
  callback_for_id = λ _ s. (ok tt, s);
  echo = λ _ t s. (ok t, s);
  expose_object = λ x s. (ok (length s), s ++ (x ∷ []));
  checked_cast = λ p s. (ok p, s);
  exposed = λ s. s;
}

pub local_ice-IsLawful : IsLawful local_ice
local_ice-IsLawful = record {
  exposed-callback_for_id = λ _ _. refl;
  exposed-echo = λ _ _ _. refl;
  exposed-expose_object = λ _ _ _ _. refl;
  exposed-expose_object_failed = λ _ _ _ h. absurd (ground (arith, h));
  exposed-checked_cast = λ _ _. refl;
}

abbrev pub hello : User
hello = record { id = codes "hello@localhost"; public_key = 7 ∷ 8 ∷ [] }

abbrev pub world : User
world = record { id = codes "world"; public_key = [] }

abbrev pub secret : Text
secret = codes "secret"

-- A database with no table yet, and nobody connected.
abbrev pub fresh : World memory local_ice
fresh = record { db = none; ice = []; log = [] }
