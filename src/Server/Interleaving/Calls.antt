-- ===== src/Server/Interleaving/Calls.antt =====
-- The calls of server/AuthenticationImpl.cpp and server/SessionImpl.cpp as programs: every statement
-- that touches the database, Ice or the log is a step.
use sepm_group.Prelude.{◌++◌, not, Text, codes, same}
use sepm_group.Prelude.Effects.{Eff, Result, ok, err, bind_result, pure}
use sepm_group.Sdc.{User, Exception, authentication}
use sepm_group.Database.{Soci}
use sepm_group.Server.{
  World, IceServerI, Client, SessionImpl, account_name, session_impl, is_initialized, on_db, on_ice,
  info, throw_if, get,
}
use sepm_group.Server.Authentication.{column, key_differs, echo, register_user, login}
use sepm_group.Server.Session.Requests.{Request, Response, handle}
use sepm_group.Server.Interleaving.{Program, ret, lift, ◌>>=◌, ◌>>◌}

module _ (S : Soci) (I : IceServerI) where
  abbrev pub ServerProgram : Type 0 → Type 1
  ServerProgram A = Program (World S I) A

  unfoldable pub register_program : User → Text → ServerProgram (Unit {0})
  register_program u pw = do
    lift (on_db S.create_users)
    selected ← lift (on_db (S.select_user (account_name u.id)))
    lift (
        throw_if (is_initialized (column (λ r. r.id) selected)) authentication
          (codes "ID already exists"))
    lift (on_db (S.insert_user (account_name u.id) pw u.public_key))
    lift (info (codes "Registered " ++ u.id))

  unfoldable pub open_program : User → Text → Client I → ServerProgram I.Proxy
  open_program user id callback_id = do
    callback ← lift (on_ice (I.callback_for_id callback_id))
    answer ← lift (on_ice (I.echo callback (codes "42")))
    lift (throw_if (not (same answer (codes "42"))) authentication (codes "echo not working"))
    lift (info (codes "Logging in " ++ id))
    proxy ← lift (on_ice (I.expose_object (session_impl user)))
    lift (on_ice (I.checked_cast proxy))

  unfoldable pub login_program : User → Text → Client I → ServerProgram I.Proxy
  login_program u pw callback_id = do
    lift (on_db S.create_users)
    selected ← lift (on_db (S.select_user (account_name u.id)))
    lift (
        throw_if (not (is_initialized (column (λ r. r.id) selected))) authentication
          (codes "unknown ID"))
    stored_pw ← lift (get (column (λ r. r.pw) selected))
    lift (throw_if (not (same pw stored_pw)) authentication (codes "invalid password"))
    pubkey ← lift (get (column (λ r. r.pubkey) selected))
    lift (
        throw_if (key_differs u.public_key pubkey) authentication (codes "public key can't change"))
    open_program (record { id = account_name u.id; public_key = pubkey }) u.id callback_id

  abbrev pub answered : Result Exception Response → Result Exception (Unit {0})
  answered (ok _) = ok tt
  answered (err e) = err e

  -- A request touches the database by at most one statement, and is one step.
  abbrev pub on_session : SessionImpl → Request → Eff (World S I) Exception (Unit {0})
  on_session x q w =
      let out = handle S I q (record { this = x; world = w }) in (answered out.0, out.1.world)

  -- A call of a client.
  pub data Call : Type 0 where
    echoes : Text → Call
    registers : User → Text → Call
    logs_in : User → Text → Client I → Call
    requests : SessionImpl → Request → Call

  -- What a thread does for a call; the answer goes to the client.
  unfoldable pub program : Call → ServerProgram (Unit {0})
  program (echoes s) = lift (echo S I s) >>= λ _. ret tt
  program (registers u pw) = register_program u pw
  program (logs_in u pw callback_id) = login_program u pw callback_id >>= λ _. ret tt
  program (requests x q) = lift (on_session x q)

  -- The call as one thread has it that is not interrupted.
  abbrev pub whole : Call → Eff (World S I) Exception (Unit {0})
  whole (echoes s) w = bind_result (echo S I s w) (λ _. pure tt)
  whole (registers u pw) w = register_user S I u pw w
  whole (logs_in u pw callback_id) w = bind_result (login S I u pw callback_id w) (λ _. pure tt)
  whole (requests x q) w = on_session x q w
