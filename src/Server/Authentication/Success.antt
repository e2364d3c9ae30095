-- ===== src/Server/Authentication/Success.antt =====
-- What a login that returns a session implies, and that a registration is followed by one.
use sepm_group.Prelude.{
  ◌≡◌, refl, sym, ap, ◌∙◌, ◌⊎◌, inl, inr, false, Bool-cases, subst, Option, none, some, List, [],
  ◌∷◌, ◌++◌, Text, codes, same, same_iff, same_refl, arith,
}
use sepm_group.Prelude.Effects.{Result, ok, err}
use sepm_group.Sdc.{User, Exception}
use sepm_group.Database.{Soci, IsLawful}
use sepm_group.Database.Accounts.{Account, find, find-append, find_self}
use sepm_group.Database.Laws.{Represents}
use sepm_group.Server.{World, IceServerI, Client, session_impl, account_name}
use sepm_group.Server
use sepm_group.Server.Authentication.{open_session, login, register_user, key_differs}
use sepm_group.Server.Authentication.Login.{credentials, Decides, DatabaseFails, login-Decides}
use sepm_group.Server.Authentication.Opening.{answer, open_session-Opens, db-open_session}
use sepm_group.Server.Authentication.Register.{account_of, register_found, register_user-Refines}

-- The password is right, and the key that was sent, if one was, is the registered one.
abbrev pub Recognised : User → Text → Account → Type 0
Recognised u pw a = (pw ≡ a.password) × ((u.public_key ≡ []) ⊎ (u.public_key ≡ a.public_key))

-- The session user: the bare name with the registered key.
abbrev pub session_user : User → Account → User
session_user u a = record { id = account_name u.id; public_key = a.public_key }

pub key_differs-false :
    (provided stored : Text)
    → key_differs provided stored ≡ false
    → (provided ≡ []) ⊎ (provided ≡ stored)
key_differs-false provided stored h = ground (arith, same_iff provided [], same_iff provided stored)

pub credentials-ok :
    (u : User) (pw : Text) (found : Option Account) (user : User)
    → credentials u pw found ≡ ok user
    → (a : Account) × (found ≡ some a) × Recognised u pw a × (user ≡ session_user u a)
credentials-ok u pw none user h = absurd (ground arith)
credentials-ok u pw (some a) user h = elim (Bool-cases (same pw a.password)) [
  | inr e ↦ absurd (ground arith)
  | inl e ↦ elim (Bool-cases (key_differs u.public_key a.public_key)) [
    | inl f ↦ absurd (ground arith)
    | inr f ↦ (
      a,
      refl,
      ((same_iff pw a.password).0 e, key_differs-false u.public_key a.public_key f),
      ground arith,
    )
  ]
]

module _ (S : Soci) (I : IceServerI) (L : IsLawful S) (J : Server.IsLawful I) where
  module _ (u : User) (pw : Text) (callback_id : Client I) (us : List Account) (w : World S I)
      (p : I.Proxy) where
    abbrev out : Result Exception I.Proxy × World S I
    out = login S I u pw callback_id w

    abbrev pub Success : Type 0
    Success =
        (a : Account) × (find (account_name u.id) us ≡ some a)
        × Recognised u pw a
        × (I.exposed out.1.ice ≡ I.exposed w.ice ++ (session_impl (session_user u a) ∷ []))
        × ((answer S I callback_id w.ice).0 ≡ ok (codes "42"))
        × Represents S out.1.db us

    decided :
        (c : Result Exception User)
        → credentials u pw (find (account_name u.id) us) ≡ c
        → Decides S I out c w us u.id callback_id
        → out.0 ≡ ok p
        → Success
    decided (err e) h d q = absurd (ground (arith, d.0))
    decided (ok user) h (v, (rep, ice, _), e) q =
        let (a, f, r, k) = credentials-ok u pw _ user h in
        let opens : (open_session S I user u.id callback_id v).0 ≡ ok p =
          ap (λ o. o.0) (sym e) ∙ q in
        let (x, y) = open_session-Opens S I user u.id callback_id J v p opens in
        (
          a,
          f,
          r,
          ap (λ (o : Result Exception I.Proxy × World S I). I.exposed o.1.ice) e
              ∙ x
              ∙ ap (λ (s : I.State). I.exposed s ++ (session_impl user ∷ [])) ice
              ∙ ap (λ (z : User). I.exposed w.ice ++ (session_impl z ∷ [])) k,
          ap (λ (s : I.State). (answer S I callback_id s).0) (sym ice) ∙ y,
          (
            ap (λ (o : Result Exception I.Proxy × World S I). S.rows o.1.db) e
                ∙ ap S.rows (db-open_session S I user u.id callback_id v)
                ∙ rep.0,
            rep.1,
          ),
        )

    -- A login returns a session only for an account of that name with that password, whose key
    -- matches, and only after the client has answered; the session that it exposes has the bare name
    -- and the registered key.
    pub login-Success : Represents S w.db us → out.0 ≡ ok p → Success
    login-Success rep q = elim (login-Decides S I L u pw callback_id us w rep) [
      | inl d ↦ decided _ refl d q
      | inr (m, e, _) ↦ absurd (ground (arith, e))
    ]

  credentials_registered :
      (u : User) (pw : Text)
      → credentials u pw (some (account_of u pw)) ≡ ok (session_user u (account_of u pw))
  credentials_registered u pw = ground (arith, same_refl pw, same_refl u.public_key)

  find-registered :
      (u : User) (pw : Text) (us : List Account)
      → find (account_name u.id) us ≡ none
      → find (account_name u.id) (us ++ (account_of u pw ∷ [])) ≡ some (account_of u pw)
  find-registered u pw us h = rw find-append (rw h (find_self (account_of u pw)))

  registered :
      (u : User) (pw : Text) (us : List Account) (d : S.Db) (found : Option Account)
      → find (account_name u.id) us ≡ found
      → ok tt ≡ (register_found u pw us found).0
      → Represents S d (register_found u pw us found).1
      → Represents S d (us ++ (account_of u pw ∷ []))
        × (find (account_name u.id) (us ++ (account_of u pw ∷ [])) ≡ some (account_of u pw))
  registered u pw us d none h e rep = (rep, find-registered u pw us h)
  registered u pw us d (some a) h e rep = absurd (ground (arith, e))

  module _ (u : User) (pw : Text) (callback_id : Client I) (us : List Account) (w : World S I) where
    abbrev w' : World S I
    w' = (register_user S I u pw w).1

    abbrev us' : List Account
    us' = us ++ (account_of u pw ∷ [])

    -- After a registration that returned, the same user with the same password is recognised: the
    -- login goes on to the client's callback, unless the database fails.
    pub register_user-login :
        Represents S w.db us
        → (register_user S I u pw w).0 ≡ ok tt
        → (Decides S I
            (login S I u pw callback_id w')
            (ok (session_user u (account_of u pw)))
            w'
            us'
            u.id
            callback_id)
          ⊎ DatabaseFails S I (login S I u pw callback_id w') w' us'
    register_user-login rep r = elim (register_user-Refines S I L u pw w us rep) [
      | inr (m, e, _) ↦ absurd (ground (arith, e))
      | inl (e, after) ↦
          let (rep', f) = registered u pw us w'.db _ refl (sym r ∙ e) after in
          let c = ap (credentials u pw) f ∙ credentials_registered u pw in
          subst
            (λ c.
              (Decides S I (login S I u pw callback_id w') c w' us' u.id callback_id)
              ⊎ DatabaseFails S I (login S I u pw callback_id w') w' us')
            c (login-Decides S I L u pw callback_id us' w' rep')
    ]
