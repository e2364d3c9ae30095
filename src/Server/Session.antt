-- ===== src/Server/Session.antt =====
-- server/SessionImpl.h and server/SessionImpl.cpp. Most methods are stubs, which log and return an
-- empty value.
pub mod Delete
pub mod Requests
pub mod Owner
use sepm_group.Prelude.{
  ◌≡◌, Bool, true, false, not, Option, none, some, List, [], ◌∷◌, ◌++◌, Text, codes, same,
}
use sepm_group.Prelude.Effects.{Eff, Result, ok, err, ◌>>=◌, ◌>>◌, pure, throw, modify}
use sepm_group.SdcHelper.{ByteSeq}
use sepm_group.Sdc.{
  User, SecureContainer, ChatlogEntry, ℤ, Exception, sdc, soci_error, user_handling,
}
use sepm_group.Database.{Soci}
use sepm_group.Server.{World, IceServerI, SessionImpl, account_name, info, throw_if}

-- A session and the world that its methods change.
pub record Self (S : Soci) (I : IceServerI) : Type 0 where
  pub this : SessionImpl
  pub world : World S I

-- `catch(const soci_error&) { throw sdc::UserHandlingException("unknown ID"); }`
abbrev pub unknown_id : {A : Type 0} → Result Exception A → Result Exception A
unknown_id (err (soci_error _)) = err (sdc user_handling (codes "unknown ID"))
unknown_id r = r

abbrev pub no_container : SecureContainer
no_container = record { content = []; signature = [] }

module _ (S : Soci) (I : IceServerI) where
  abbrev Method : Type 0 → Type 0
  Method A = Eff (Self S I) Exception A

  abbrev in_world : {A : Type 0} → Eff (World S I) Exception A → Method A
  in_world m s = ((m s.world).0, record s { world = (m s.world).1 })

  abbrev on_users : {A : Type 0} → Eff S.Db Exception A → Method A
  on_users m s =
      (unknown_id (m s.world.db).0, record s { world = record (s.world) { db = (m s.world.db).1 } })

  -- The ID of the session's user.
  abbrev my_id : Method Text
  my_id s = (ok s.this.user.id, s)

  abbrev says : Text → Method (Unit {0})
  says message = in_world (info message)

  unfoldable pub logout : Method (Unit {0})
  logout = do
    me ← my_id
    says (codes "<stub> logging out " ++ me)
    modify (λ s. record s { this = record (s.this) { logged_in = false } })

  unfoldable pub retrieve_user : Text → Method User
  retrieve_user _ = pure (record { id = []; public_key = [] })

  unfoldable pub delete_user : User → Method (Unit {0})
  delete_user u = do
    me ← my_id
    in_world (
        throw_if (not (same u.id me)) user_handling (codes "deleting other users is not permitted"))
    on_users (S.delete_user (account_name u.id))
    says (me ++ (codes " deleted account of " ++ u.id))

  unfoldable pub init_chat : Method Text
  init_chat = do me ← my_id; says (codes "<stub> initChat by " ++ me); pure []

  unfoldable pub leave_chat : Text → Method (Unit {0})
  leave_chat chat = do me ← my_id; says (codes "<stub> " ++ (me ++ (codes " leaves chat " ++ chat)))

  unfoldable pub invite : User → Text → ByteSeq → Method (Unit {0})
  invite other chat _ = do
    me ← my_id
    says (codes "<stub> " ++ (me ++ (codes " invites " ++ (other.id ++ (codes " to " ++ chat)))))

  unfoldable pub send_message : ByteSeq → Text → Method (Unit {0})
  send_message _ chat = do
    me ← my_id
    says (codes "<stub> " ++ (me ++ (codes " posts to " ++ chat)))

  unfoldable pub save_log : Text → ℤ → SecureContainer → Method (Unit {0})
  save_log _ _ _ = do me ← my_id; says (codes "<stub> saveLog for " ++ me)

  unfoldable pub retrieve_loglist : Method (List ChatlogEntry)
  retrieve_loglist = do me ← my_id; says (codes "<stub> retrieveLoglist for " ++ me); pure []

  unfoldable pub retrieve_log : Text → ℤ → Method SecureContainer
  retrieve_log _ _ = do me ← my_id; says (codes "<stub> retrieveLog for " ++ me); pure no_container

  unfoldable pub save_contact_list : SecureContainer → Method (Unit {0})
  save_contact_list _ = do me ← my_id; says (codes "<stub> saveContactList for " ++ me)

  unfoldable pub retrieve_contact_list : Method SecureContainer
  retrieve_contact_list = do
    me ← my_id
    says (codes "<stub> retrieveContactList for " ++ me)
    pure no_container
