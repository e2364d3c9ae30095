-- ===== src/Server/Session/Requests.antt =====
-- The methods of a session as the requests that its client can send, and what they have in common.
use sepm_group.Prelude.{◌≡◌, refl, Bool, List, Text, arith}
use sepm_group.Prelude.Effects.{Eff, ◌>>=◌, ◌>>◌, pure}
use sepm_group.SdcHelper.{ByteSeq}
use sepm_group.Sdc.{User, SecureContainer, ChatlogEntry, ℤ, Exception}
use sepm_group.Database.{Soci}
use sepm_group.Server.{IceServerI}
use sepm_group.Server.Session.{
  Self, logout, retrieve_user, delete_user, init_chat, leave_chat, invite, send_message, save_log,
  retrieve_loglist, retrieve_log, save_contact_list, retrieve_contact_list,
}

-- `interface SessionI`
pub data Request : Type 0 where
  logs_out : Request
  retrieves_user : Text → Request
  inits_chat : Request
  leaves_chat : Text → Request
  invites : User → Text → ByteSeq → Request
  sends_message : ByteSeq → Text → Request
  deletes_user : User → Request
  saves_log : Text → ℤ → SecureContainer → Request
  retrieves_loglist : Request
  retrieves_log : Text → ℤ → Request
  saves_contact_list : SecureContainer → Request
  retrieves_contact_list : Request

pub data Response : Type 0 where
  done : Response
  user : User → Response
  chat_id : Text → Response
  loglist : List ChatlogEntry → Response
  container : SecureContainer → Response

module _ (S : Soci) (I : IceServerI) where
  abbrev Handler : Type 0 → Type 0
  Handler A = Eff (Self S I) Exception A

  abbrev answered : {A : Type 0} → Handler A → (A → Response) → Handler Response
  answered m f = m >>= λ a. pure (f a)

  -- The call that Ice makes for a request.
  unfoldable pub handle : Request → Handler Response
  unfolding logout retrieve_user init_chat leave_chat invite send_message save_log retrieve_loglist
      retrieve_log save_contact_list retrieve_contact_list
  handle logs_out = logout S I >> pure done
  handle (retrieves_user id) = answered (retrieve_user S I id) user
  handle inits_chat = answered (init_chat S I) chat_id
  handle (leaves_chat chat) = leave_chat S I chat >> pure done
  handle (invites other chat key) = invite S I other chat key >> pure done
  handle (sends_message msg chat) = send_message S I msg chat >> pure done
  handle (deletes_user u) = delete_user S I u >> pure done
  handle (saves_log chat t log) = save_log S I chat t log >> pure done
  handle retrieves_loglist = answered (retrieve_loglist S I) loglist
  handle (retrieves_log chat t) = answered (retrieve_log S I chat t) container
  handle (saves_contact_list c) = save_contact_list S I c >> pure done
  handle retrieves_contact_list = answered (retrieve_contact_list S I) container

  abbrev pub with_logged_in : Bool → Self S I → Self S I
  with_logged_in b s = record s { this = record (s.this) { logged_in = b } }

  -- No method looks at `loggedIn`: a session answers after `logout` as it did before.
  pub handle_logged_in :
      (q : Request) (b : Bool) (s : Self S I)
      → ((handle q (with_logged_in b s)).0 ≡ (handle q s).0)
        × ((handle q (with_logged_in b s)).1.world ≡ (handle q s).1.world)
  unfolding handle delete_user
  handle_logged_in logs_out b s = (refl, refl)
  handle_logged_in (deletes_user u) b s = ground arith
  handle_logged_in _ b s = (refl, refl)
