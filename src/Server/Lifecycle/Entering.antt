-- ===== src/Server/Lifecycle/Entering.antt =====
-- A registered user with the right password, whose client answers, gets a session.
use sepm_group.Prelude.{
  ◌≡◌, refl, sym, ap, ◌∙◌, subst, none, some, List, [], ◌∷◌, ◌++◌, Text, codes, inr, same_iff,
  same_refl, arith,
}
use sepm_group.Prelude.Effects.{Result, ok}
use sepm_group.Sdc.{User, Exception}
use sepm_group.Database.{Soci, IsLawful, IsReliable}
use sepm_group.Database.Accounts.{Account, find, find_self, find-append}
use sepm_group.Database.Laws.{Represents}
use sepm_group.Server.{World, IceServerI, Client, SessionImpl, session_impl, account_name}
use sepm_group.Server
use sepm_group.Server.Authentication.{register_user, login, open_session}
use sepm_group.Server.Authentication.Login.{credentials, Decides}
use sepm_group.Server.Authentication.Opening.{open_session-Opens, db-open_session}
use sepm_group.Server.Authentication.Register.{account_of}
use sepm_group.Server.Authentication.Reliable.{login-DecidesReliably}
use sepm_group.Server.Authentication.Success.{Recognised, session_user}
use sepm_group.Server.System.Exposure.{register_user-ice}
use sepm_group.Server.Lifecycle.{register_user-free}

-- In this state Ice finds the client's callback, the client answers "42", and a new session can be
-- exposed and cast.
pub record Willing (I : IceServerI) (client : Client I) (x : SessionImpl) (s : I.State)
    (proxy : I.Proxy) : Type 0 where
  pub callback : I.Callback
  pub obtained : (I.callback_for_id client s).0 ≡ ok callback
  pub answered : (I.echo callback (codes "42") (I.callback_for_id client s).1).0 ≡ ok (codes "42")
  pub object : I.Proxy
  pub exposes :
      (I.expose_object x (I.echo callback (codes "42") (I.callback_for_id client s).1).1).0
      ≡ ok object
  pub casts :
      (I.checked_cast object
        (I.expose_object x (I.echo callback (codes "42") (I.callback_for_id client s).1).1).1).0
      ≡ ok proxy

credentials-Recognised :
    (u : User) (pw : Text) (a : Account)
    → Recognised u pw a
    → credentials u pw (some a) ≡ ok (session_user u a)
credentials-Recognised u pw a (right, key) = ground (
  arith,
  right,
  key,
  same_iff pw a.password,
  same_iff u.public_key [],
  same_iff u.public_key a.public_key,
)

module _ (S : Soci) (I : IceServerI) where
  open_session-returns :
      (user : User) (id : Text) (client : Client I) (v : World S I) (proxy : I.Proxy)
      → Willing I client (session_impl user) v.ice proxy
      → (open_session S I user id client v).0 ≡ ok proxy
  unfolding open_session
  open_session-returns user id client v proxy h =
      rw h.obtained (rw h.answered (rw (same_refl (codes "42")) (rw h.exposes h.casts)))

  module _ (L : IsLawful S) (R : IsReliable S) (J : Server.IsLawful I) where
    -- A registered user who logs in with the right password and a key that does not differ, and whose client
    -- answers, gets a session with the bare name and the registered key, exposed as the last one; the
    -- accounts stay.
    pub login-Enters :
        (u : User) (pw : Text) (client : Client I) (w : World S I) (us : List Account) (a : Account)
        (proxy : I.Proxy)
        → Represents S w.db us
        → find (account_name u.id) us ≡ some a
        → Recognised u pw a
        → Willing I client (session_impl (session_user u a)) w.ice proxy
        → let out = login S I u pw client w in
          (out.0 ≡ ok proxy)
          × (I.exposed out.1.ice ≡ I.exposed w.ice ++ (session_impl (session_user u a) ∷ []))
          × Represents S out.1.db us
    login-Enters u pw client w us a proxy rep found known willing =
        let (v, (kept, ice, _), e) =
          subst (λ c. Decides S I (login S I u pw client w) c w us u.id client)
            (ap (credentials u pw) found ∙ credentials-Recognised u pw a known)
            (login-DecidesReliably S I L R u pw client w us rep) in
        let opened = open_session-returns (session_user u a) u.id client v proxy (
          subst (λ s. Willing I client (session_impl (session_user u a)) s proxy) (sym ice)
            willing) in
        let (grown, _) = open_session-Opens S I (session_user u a) u.id client J v proxy opened in
        (
          ap (λ (o : Result Exception I.Proxy × World S I). o.0) e ∙ opened,
          ap (λ (o : Result Exception I.Proxy × World S I). I.exposed o.1.ice) e
              ∙ grown
              ∙ ap (λ (s : I.State). I.exposed s ++ (session_impl (session_user u a) ∷ [])) ice,
          (
            ap (λ (o : Result Exception I.Proxy × World S I). S.rows o.1.db) e
                ∙ ap S.rows (db-open_session S I (session_user u a) u.id client v)
                ∙ kept.0,
            kept.1,
          ),
        )

    -- On a database that does not fail, whose table is a list of accounts without the name of `u`, with a
    -- server object that keeps its laws, finds the client's callback and exposes and casts a new
    -- session, and with a client that answers "42": the registration of `u` returns, the login by the
    -- same password returns the session, which has the bare name and the key of the registration
    -- and is exposed as the last one, and the table has the new account at its end.
    pub register_user-Enters :
        (u : User) (pw : Text) (client : Client I) (w : World S I) (us : List Account)
        (proxy : I.Proxy)
        → Represents S w.db us
        → find (account_name u.id) us ≡ none
        → Willing I client (session_impl (session_user u (account_of u pw))) w.ice proxy
        → let after = (register_user S I u pw w).1 in
          let out = login S I u pw client after in
          ((register_user S I u pw w).0 ≡ ok tt)
          × (out.0 ≡ ok proxy)
          × (I.exposed out.1.ice
              ≡ I.exposed w.ice ++ (session_impl (session_user u (account_of u pw)) ∷ []))
          × Represents S out.1.db (us ++ (account_of u pw ∷ []))
    register_user-Enters u pw client w us proxy rep free willing =
        let (registered, after) = register_user-free S I L R u pw w us rep free in
        let ice : (register_user S I u pw w).1.ice ≡ w.ice = register_user-ice S I u pw w in
        let found : find (account_name u.id) (us ++ (account_of u pw ∷ []))
            ≡ some (account_of u pw) =
          find-append (account_name u.id) us (account_of u pw ∷ [])
          ∙ rw free (find_self (account_of u pw)) in
        let (entered, exposed, kept) =
          login-Enters u pw client (register_user S I u pw w).1 _ (account_of u pw) proxy after
            found (refl, inr refl)
            (subst (λ s. Willing I client (session_impl (session_user u (account_of u pw))) s proxy)
              (sym ice) willing) in
        (
          registered,
          entered,
          exposed
              ∙ ap
                  (λ (s : I.State).
                    I.exposed s ++ (session_impl (session_user u (account_of u pw)) ∷ []))
                  ice,
          kept,
        )
