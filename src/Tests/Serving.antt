-- ===== src/Tests/Serving.antt =====
-- server/IceServer.cpp and common/DBPool.cpp over a run time that only keeps books.
use sepm_group.Prelude.{ℕ, suc, ◌-◌, ◌≡◌, refl, List, [], ◌∷◌, ◌++◌, Text, codes, arith}
use sepm_group.Prelude.Effects.{ok}
use sepm_group.Server.{IsLawful}
use sepm_group.Server.Runtime.{Runtime, IsRuntime, Servant}
use sepm_group.Server.DbPool.{
  db_pool, test_pool, prod_pool, open_sessions, connections, db_pool-opened,
}
use sepm_group.Server.IceServer.{IceServer, ice_server, ice_server_i, default_ice_server, listen}
use sepm_group.Server.IceServer.Lawful.{ice_server_i-IsLawful}
use sepm_group.Server.IceServer.Construction.{Ready, NoLeak, ice_server-Ready}

pub record Books : Type 0 where
  servants : List (Text × Servant)
  opened : List (ℕ × Text)
  communicators : ℕ

abbrev pub books : Runtime
books = record {
  State = Books;
  Communicator = Unit {0};
  Adapter = Unit {0};
  Connection = Unit {0};
  ObjectPrx = Text;
  CallbackPrx = Text;
  initialize = λ d s. (ok tt, record s { communicators = suc s.communicators });
  create_object_adapter = λ c name endpoints s. (ok tt, s);
  add = λ a x name s. (ok name, record s { servants = s.servants ++ ((name, x) ∷ []) });
  activate = λ a s. (ok tt, s);
  destroy = λ c s. (ok tt, record s { communicators = s.communicators - 1 });
  shutdown = λ c s. (ok tt, s);
  wait_for_shutdown = λ c s. (ok tt, s);
  create_proxy = λ c id s. (ok id, s);
  generate_uuid = λ s. (ok (codes "uuid"), s);
  cast_session = λ p s. (ok p, s);
  cast_callback = λ p s. (ok p, s);
  init_chat = λ p users chat key s. (ok tt, s);
  add_chat_participant = λ p user chat s. (ok tt, s);
  remove_chat_participant = λ p user chat s. (ok tt, s);
  append_message_to_chat = λ p msg chat sender s. (ok tt, s);
  echo = λ p t s. (ok t, s);
  open_session = λ i t s. (ok tt, record s { opened = s.opened ++ ((i, t) ∷ []) });
  delete_pool = λ s. (ok tt, record s { opened = [] });
  servants = λ s. s.servants;
  opened = λ s. s.opened;
  communicators = λ s. s.communicators;
}

pub books-IsRuntime : IsRuntime books
books-IsRuntime = record {
  servants-add = λ a x name s p e. refl;
  servants-add_failed = λ a x name s e h. absurd (ground (arith, h));
  servants-activate = λ a s. refl;
  servants-create_proxy = λ c id s. refl;
  servants-generate_uuid = λ s. refl;
  servants-cast_session = λ p s. refl;
  servants-cast_callback = λ p s. refl;
  servants-echo = λ p t s. refl;
  servants-initialize = λ d s. refl;
  servants-create_object_adapter = λ c name endpoints s. refl;
  servants-open_session = λ i t s. refl;
  opened-open_session = λ i t s e. refl;
  communicators-open_session = λ i t s. refl;
  communicators-initialize = λ d s ic e. refl;
  communicators-initialize_failed = λ d s e h. absurd (ground (arith, h));
  communicators-create_object_adapter = λ c name endpoints s. refl;
  communicators-add = λ a x name s. refl;
  communicators-activate = λ a s. refl;
  destroy_returns = λ c s. refl;
  communicators-destroy = λ c s. refl;
}

abbrev pub empty_books : Books
empty_books = record { servants = []; opened = []; communicators = 0 }

abbrev pub served : IceServer books
served = record { ic = tt; oa = tt; db_pool = record { pool_size = 10 } }

run_server : (default_ice_server books empty_books).0 ≡ ok served
unfolding ice_server prod_pool db_pool open_sessions listen
run_server = refl

run_test_pool : (test_pool books empty_books).1.opened ≡ (0, codes "sqlite3://dbname=:memory:") ∷ []
unfolding test_pool db_pool open_sessions
run_test_pool = refl

ice_server_i-IsLawful_example : IsLawful (ice_server_i books served)
ice_server_i-IsLawful_example = ice_server_i-IsLawful books books-IsRuntime served

ice_server-Ready_example :
    Ready books books-IsRuntime empty_books (default_ice_server books empty_books)
    × NoLeak books books-IsRuntime 0 (default_ice_server books empty_books)
ice_server-Ready_example =
    ice_server-Ready books books-IsRuntime (codes "server.crt") (codes "server.key")
      (codes "ca.crt") empty_books

run_pool : (db_pool books (codes "mydb") 2 empty_books).0 ≡ ok (record { pool_size = 2 })
unfolding db_pool open_sessions
run_pool = refl

db_pool-opened_test :
    (◌≡◌ {A = ℕ} 2 2)
    × ((db_pool books (codes "mydb") 2 empty_books).1.opened
        ≡ [] ++ connections books 2 0 (codes "mydb"))
db_pool-opened_test =
    db_pool-opened books books-IsRuntime (codes "mydb") 2 empty_books (record { pool_size = 2 })
      run_pool
