-- ===== src/Server/System/Exposure.antt =====
-- Whose sessions the server exposes, after any sequence of calls.
use sepm_group.Prelude.{
  ◌≡◌, refl, sym, ap, ◌∙◌, ◌⊎◌, inl, inr, some, List, [], ◌∷◌, ◌++◌, Text, codes, append-nil,
  append_assoc, arith,
}
use sepm_group.Prelude.Effects.{Result, ok, err}
use sepm_group.Sdc.{User, Exception}
use sepm_group.Database.{Soci, IsLawful}
use sepm_group.Database.Accounts.{Account, find}
use sepm_group.Database.Laws.{Represents}
use sepm_group.Server.{World, IceServerI, Client, SessionImpl, session_impl, account_name}
use sepm_group.Server
use sepm_group.Server.Authentication.{echo, register_user, login}
use sepm_group.Server.Authentication.Login.{credentials, Decides, login-Decides}
use sepm_group.Server.Authentication.Opening.{answer, open_session-Answered}
use sepm_group.Server.Authentication.Success.{Recognised, session_user, credentials-ok}
use sepm_group.Server.Session.{delete_user}
use sepm_group.Server.Session.Requests.{Request, handle, deletes_user}
use sepm_group.Server.System.{
  Step, echoes, registers, logs_in, requests, Reach, here, next, HasAccounts, Reach-HasAccounts,
}

module _ (S : Soci) (I : IceServerI) where
  pub register_user-ice :
      (u : User) (pw : Text) (w : World S I) → (register_user S I u pw w).1.ice ≡ w.ice
  unfolding register_user
  register_user-ice u pw w = ground arith

  pub handle-ice :
      (x : SessionImpl) (q : Request) (w : World S I)
      → (handle S I q (record { this = x; world = w })).1.world.ice ≡ w.ice
  unfolding handle delete_user
  handle-ice x (deletes_user u) w = ground arith
  handle-ice x q w = refl

module _ (S : Soci) (I : IceServerI) (L : IsLawful S) (J : Server.IsLawful I) where
  -- Why the session may be exposed by a login with these arguments, which a client calls in the
  -- world `w`: the name is that of an account, the password and the key are its own, and the client
  -- of the call has answered "42".
  pub record Vouches (u : User) (pw : Text) (callback_id : Client I) (w : World S I)
      (x : SessionImpl) : Type 0 where
    pub accounts : List Account
    pub table : Represents S w.db accounts
    pub account : Account
    pub found : find (account_name u.id) accounts ≡ some account
    pub recognised : Recognised u pw account
    pub opened : x ≡ session_impl (session_user u account)
    pub answered : (answer S I callback_id w.ice).0 ≡ ok (codes "42")

  -- The call is a login that vouches for the session.
  abbrev pub VouchingStep : {w v : World S I} → Step S I w v → SessionImpl → Type 0
  VouchingStep {w} (logs_in u pw callback_id) x = Vouches u pw callback_id w x
  VouchingStep _ x = ⊥

  -- What a call may do to the exposed sessions.
  abbrev Exposes : World S I → World S I → (SessionImpl → Type 0) → Type 0
  Exposes w v Vouched =
      (I.exposed v.ice ≡ I.exposed w.ice)
      ⊎ ((x : SessionImpl) × Vouched x × (I.exposed v.ice ≡ I.exposed w.ice ++ (x ∷ [])))

  module _ (u : User) (pw : Text) (callback_id : Client I) (us : List Account) (w : World S I)
      (rep : Represents S w.db us) where
    decided :
        (out : Result Exception I.Proxy × World S I) (c : Result Exception User)
        → credentials u pw (find (account_name u.id) us) ≡ c
        → Decides S I out c w us u.id callback_id
        → Exposes w out.1 (Vouches u pw callback_id w)
    decided out (err e) h (_, (_, ice, _)) = inl (ap I.exposed ice)
    decided out (ok user) h (v, (_, ice, _), e) =
        let (a, f, r, k) = credentials-ok u pw _ user h in
        elim (open_session-Answered S I user u.id callback_id J v) [
          | inl same ↦ inl (
              ap (λ (o : Result Exception I.Proxy × World S I). I.exposed o.1.ice) e
              ∙ same
              ∙ ap I.exposed ice)
          | inr (grown, answered) ↦ inr (
            session_impl user,
            record {
              accounts = us;
              table = rep;
              account = a;
              found = f;
              recognised = r;
              opened = ap session_impl k;
              answered = ap (λ (s : I.State). (answer S I callback_id s).0) (sym ice) ∙ answered;
            },
            ap (λ (o : Result Exception I.Proxy × World S I). I.exposed o.1.ice) e
                ∙ grown
                ∙ ap (λ (s : I.State). I.exposed s ++ (session_impl user ∷ [])) ice,
          )
        ]

    login-Exposes : Exposes w (login S I u pw callback_id w).1 (Vouches u pw callback_id w)
    login-Exposes = elim (login-Decides S I L u pw callback_id us w rep) [
      | inl d ↦ decided _ _ refl d
      | inr (_, _, (_, ice, _)) ↦ inl (ap I.exposed ice)
    ]

  -- A call of a client exposes no session but that of a recognised user who has answered.
  Step-Exposes :
      (us : List Account) {w v : World S I} (st : Step S I w v)
      → Represents S w.db us
      → Exposes w v (VouchingStep st)
  unfolding echo
  Step-Exposes us (echoes s) rep = inl refl
  Step-Exposes us {w} (registers u pw) rep = inl (ap I.exposed (register_user-ice S I u pw w))
  Step-Exposes us {w} (logs_in u pw callback_id) rep = login-Exposes u pw callback_id us w rep
  Step-Exposes us {w} (requests x q) rep = inl (ap I.exposed (handle-ice S I x q w))

  -- The sessions that the calls of the run have entered: each by a login of its own that vouches for
  -- it, in the order of the calls.
  abbrev pub Entered : {w v : World S I} → Reach S I w v → List SessionImpl → Type 0
  Entered here xs = xs ≡ []
  Entered (next r st) xs =
      Entered r xs
      ⊎ ((ys : List SessionImpl) × (x : SessionImpl) × (xs ≡ ys ++ (x ∷ []))
          × VouchingStep st x
          × Entered r ys)

  -- From a table that is a list of accounts, on a database and a server object that keep their laws,
  -- whatever clients call, in whatever order and however the calls end: the exposed sessions are those
  -- from the beginning and then, in the order of the calls, sessions each of which is due to a
  -- login of its own among them. In the world in which a client made that call, the table had an account
  -- with the name of the user of the call, with the password of the call and a key that does not
  -- differ from that of its user; the client of the call answered "42"; and the session has the
  -- name and the key of the account.
  pub Reach-Vouched :
      {w v : World S I}
      → HasAccounts S I w
      → (r : Reach S I w v)
      → (xs : List SessionImpl) × (I.exposed v.ice ≡ I.exposed w.ice ++ xs) × Entered r xs
  Reach-Vouched {w} h here = ([], sym (append-nil (I.exposed w.ice)), refl)
  Reach-Vouched {w} h (next r st) =
      let (xs, e, entered) = Reach-Vouched h r in
      let (us, rep) = Reach-HasAccounts S I L r h in
      elim (Step-Exposes us st rep) [
        | inl same ↦ (xs, same ∙ e, inl entered)
        | inr (x, vouches, grown) ↦ (
          xs ++ (x ∷ []),
          grown
              ∙ ap (λ (ys : List SessionImpl). ys ++ (x ∷ [])) e
              ∙ append_assoc (I.exposed w.ice) xs (x ∷ []),
          inr (xs, x, refl, vouches, entered),
        )
      ]
