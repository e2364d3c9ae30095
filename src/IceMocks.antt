-- ===== src/IceMocks.antt =====
-- tests/include/IceMocks.h: the server object and the client that the tests of the server use, with
-- the behaviour that the tests ask of the mocked methods, and the calls that gmock records.
use sepm_group.Prelude.{ℕ, ◌+◌, List, [], ◌∷◌, ◌++◌, Text}
use sepm_group.Prelude.Effects.{Eff, ok, ◌>>◌, pure, modify}
use sepm_group.Sdc.{Exception}
use sepm_group.Server.{SessionImpl, IceServerI}

-- The calls of the mocked methods.
pub record Mocks : Type 0 where
  pub callback_for_id : ℕ
  pub echo : List Text
  pub expose_object : List SessionImpl

abbrev pub no_calls : Mocks
no_calls = record { callback_for_id = 0; echo = []; expose_object = [] }

-- `CallbackFake::echo`
unfoldable pub callback_fake_echo : Text → Eff Mocks Exception Text
callback_fake_echo t = modify (λ s. record s { echo = s.echo ++ (t ∷ []) }) >> pure t

-- `IceServerMock`, whose `callbackForID` returns the fake and whose `exposeObject` the `magicProxy`,
-- a null proxy, which a cast gives back.
abbrev pub ice_server_mock : IceServerI
ice_server_mock = record {
  State = Mocks;
  Callback = Unit {0};
  Proxy = Unit {0};
  Connection = Unit {0};
  callback_for_id = λ _ s. (ok tt, record s { callback_for_id = s.callback_for_id + 1 });
  echo = λ _ t. callback_fake_echo t;
  expose_object = λ x s. (ok tt, record s { expose_object = s.expose_object ++ (x ∷ []) });
  checked_cast = λ p s. (ok p, s);
  exposed = λ s. s.expose_object;
}
