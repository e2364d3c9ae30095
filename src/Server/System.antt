-- ===== src/Server/System.antt =====
-- The server as its clients see it: any sequence of echoes, registrations, logins and session
-- requests, on one database.
pub mod Exposure
use sepm_group.Prelude.{ap, ◌∙◌, inl, inr, List, Text}
use sepm_group.Prelude.Effects.{Result, ok, err, bind_cases}
use sepm_group.Sdc.{User, Exception}
use sepm_group.Database.{Soci, IsLawful}
use sepm_group.Database.Accounts.{Account}
use sepm_group.Database.Laws.{Represents}
use sepm_group.Server.{World, IceServerI, Client, SessionImpl}
use sepm_group.Server.Authentication.{echo, register_user, login}
use sepm_group.Server.Authentication.Register.{register_user-Refines}
use sepm_group.Server.Authentication.Login.{login-Decides, Decides}
use sepm_group.Server.Authentication.Opening.{db-open_session}
use sepm_group.Server.Session.{Self, delete_user}
use sepm_group.Server.Session.Delete.{Deletes, delete_user-Deletes}
use sepm_group.Server.Session.Requests.{Request, deletes_user, handle}

module _ (S : Soci) (I : IceServerI) where
  -- One call of a client: `x` is whatever session object the client holds.
  pub data Step (w : World S I) : World S I → Type 0 where
    echoes : (s : Text) → Step w (echo S I s w).1
    registers : (u : User) (pw : Text) → Step w (register_user S I u pw w).1
    logs_in :
        (u : User) (pw : Text) (callback_id : Client I) → Step w (login S I u pw callback_id w).1
    requests :
        (x : SessionImpl) (q : Request)
        → Step w (handle S I q (record { this = x; world = w })).1.world

  pub data Reach (w : World S I) : World S I → Type 0 where
    here : Reach w w
    next : {v v' : World S I} → Reach w v → Step v v' → Reach w v'

  -- The table is a list of accounts with distinct names, and no column is NULL.
  abbrev pub HasAccounts : World S I → Type 0
  HasAccounts w = (us : List Account) × Represents S w.db us

  module _ (L : IsLawful S) where
    register-HasAccounts :
        (u : User) (pw : Text) (w : World S I)
        → HasAccounts w
        → HasAccounts (register_user S I u pw w).1
    register-HasAccounts u pw w (us, rep) = elim (register_user-Refines S I L u pw w us rep) [
      | inl (_, after) ↦ (_, after)
      | inr (_, _, after) ↦ (us, after)
    ]

    Decides-HasAccounts :
        (out : Result Exception I.Proxy × World S I) (c : Result Exception User) (w : World S I)
        (us : List Account) (id : Text) (callback_id : Client I)
        → Decides S I out c w us id callback_id
        → HasAccounts out.1
    Decides-HasAccounts out (err e) w us id callback_id (_, (rep, _, _)) = (us, rep)
    Decides-HasAccounts out (ok user) w us id callback_id (v, (rep, _, _), e) = (
      us,
      (
        ap (λ (o : Result Exception I.Proxy × World S I). S.rows o.1.db) e
            ∙ ap S.rows (db-open_session S I user id callback_id v)
            ∙ rep.0,
        rep.1,
      ),
    )

    login-HasAccounts :
        (u : User) (pw : Text) (callback_id : Client I) (w : World S I)
        → HasAccounts w
        → HasAccounts (login S I u pw callback_id w).1
    login-HasAccounts u pw callback_id w (us, rep) =
        elim (login-Decides S I L u pw callback_id us w rep) [
          | inl d ↦ Decides-HasAccounts _ _ w us u.id callback_id d
          | inr (_, _, (after, _, _)) ↦ (us, after)
        ]

    Deletes-HasAccounts :
        (out : Result Exception (Unit {0}) × Self S I) (s : Self S I) (u : User) (us : List Account)
        → Deletes S I out s u us
        → HasAccounts out.1.world
    Deletes-HasAccounts out s u us (inl (_, after), _) = (_, after)
    Deletes-HasAccounts out s u us (inr (_, after), _) = (us, after)

    handle-HasAccounts :
        (x : SessionImpl) (q : Request) (w : World S I)
        → HasAccounts w
        → HasAccounts (handle S I q (record { this = x; world = w })).1.world
    unfolding handle
    handle-HasAccounts x (deletes_user u) w (us, rep) =
        let s : Self S I = record { this = x; world = w } in
        let after =
          Deletes-HasAccounts (delete_user S I u s) s u us (delete_user-Deletes S I L u us s rep) in
        bind_cases (λ out. HasAccounts out.1.world) (delete_user S I u) _ s (λ _ _. after)
          (λ _ _. after)
    handle-HasAccounts x q w h = h

    Step-HasAccounts : {w v : World S I} → Step w v → HasAccounts w → HasAccounts v
    unfolding echo
    Step-HasAccounts (echoes s) h = h
    Step-HasAccounts {w} (registers u pw) h = register-HasAccounts u pw w h
    Step-HasAccounts {w} (logs_in u pw callback_id) h = login-HasAccounts u pw callback_id w h
    Step-HasAccounts {w} (requests x q) h = handle-HasAccounts x q w h

    -- Whatever clients call, in whatever order: the table stays a list of accounts, no name twice.
    pub Reach-HasAccounts : {w v : World S I} → Reach w v → HasAccounts w → HasAccounts v
    Reach-HasAccounts here h = h
    Reach-HasAccounts (next r st) h = Step-HasAccounts st (Reach-HasAccounts r h)
