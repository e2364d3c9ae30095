-- ===== src/Server/Authentication.antt =====
-- server/AuthenticationImpl.h and server/AuthenticationImpl.cpp. The SQL session that a method takes
-- from the pool is the database of the world.
pub mod Register
pub mod Login
pub mod Opening
pub mod Success
pub mod Reliable
use sepm_group.Prelude.{
  Bool, true, false, ◌&&◌, not, Option, none, some, [], ◌++◌, Text, codes, same,
}
use mathlib.Core.Option
use sepm_group.Prelude.Effects.{Eff, ◌>>=◌, ◌>>◌, pure}
use sepm_group.Sdc.{User, Exception, authentication}
use sepm_group.Database.{Soci, Row}
use sepm_group.Server.{
  World, IceServerI, Client, account_name, session_impl, is_initialized, on_db, on_ice, info,
  throw_if, get,
}

-- The columns of the row that a SELECT returned, if it returned one.
abbrev pub column : (Row → Option Text) → Option Row → Option Text
column c none = none
column c (some r) = c r

-- `providedPubkey != "" && providedPubkey != pubkey.get()`
abbrev pub key_differs : Text → Text → Bool
key_differs provided stored = not (same provided []) && not (same provided stored)

module _ (S : Soci) (I : IceServerI) where
  unfoldable pub echo : Text → Eff (World S I) Exception Text
  echo s = pure s

  unfoldable pub register_user : User → Text → Eff (World S I) Exception (Unit {0})
  register_user u pw = do
    on_db S.create_users
    selected ← on_db (S.select_user (account_name u.id))
    throw_if (is_initialized (column (λ r. r.id) selected)) authentication
        (codes "ID already exists")
    on_db (S.insert_user (account_name u.id) pw u.public_key)
    info (codes "Registered " ++ u.id)

  -- The end of `login`, from the first use of the callback on.
  unfoldable pub open_session : User → Text → Client I → Eff (World S I) Exception I.Proxy
  open_session user id callback_id = do
    callback ← on_ice (I.callback_for_id callback_id)
    answer ← on_ice (I.echo callback (codes "42"))
    throw_if (not (same answer (codes "42"))) authentication (codes "echo not working")
    info (codes "Logging in " ++ id)
    proxy ← on_ice (I.expose_object (session_impl user))
    on_ice (I.checked_cast proxy)

  unfoldable pub login : User → Text → Client I → Eff (World S I) Exception I.Proxy
  login u pw callback_id = do
    on_db S.create_users
    selected ← on_db (S.select_user (account_name u.id))
    throw_if (not (is_initialized (column (λ r. r.id) selected))) authentication
        (codes "unknown ID")
    stored_pw ← get (column (λ r. r.pw) selected)
    throw_if (not (same pw stored_pw)) authentication (codes "invalid password")
    pubkey ← get (column (λ r. r.pubkey) selected)
    throw_if (key_differs u.public_key pubkey) authentication (codes "public key can't change")
    open_session (record { id = account_name u.id; public_key = pubkey }) u.id callback_id
