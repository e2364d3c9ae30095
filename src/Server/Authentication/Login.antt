-- ===== src/Server/Authentication/Login.antt =====
-- `login`: whom it lets in, and what it leaves alone.
use mathlib.Core.Option
use sepm_group.Prelude.{
  ◌≡◌, refl, ap, ◌⊎◌, inl, inr, Bool-cases, not, Option, none, some, List, Text, codes, same,
  if◌then◌else◌,
}
use sepm_group.Prelude.Effects.{Result, ok, err, ◌>>=◌, ◌>>◌, bind_cases}
use sepm_group.Sdc.{User, Exception, sdc, soci_error, authentication}
use sepm_group.Database.{Soci, Row, IsLawful}
use sepm_group.Database.Accounts.{Account, row, find}
use sepm_group.Database.Laws.{Represents, select_find, create-Represents, select-Represents, thrown}
use sepm_group.Server.{
  World, IceServerI, Client, account_name, is_initialized, on_db, throw_if, get,
}
use sepm_group.Server.Authentication.{column, key_differs, open_session, login}

-- Who a login with this password and key is, by the account of that name.
abbrev pub credentials : User → Text → Option Account → Result Exception User
credentials u pw none = err (sdc authentication (codes "unknown ID"))
credentials u pw (some a) =
    if not (same pw a.password)
    then err (sdc authentication (codes "invalid password"))
    else if key_differs u.public_key a.public_key
    then err (sdc authentication (codes "public key can't change"))
    else ok (record { id = account_name u.id; public_key = a.public_key })

module _ (S : Soci) (I : IceServerI) where
  -- The accounts, the clients and the log are as they were.
  abbrev pub Untouched : World S I → List Account → World S I → Type 0
  Untouched w us v = Represents S v.db us × (v.ice ≡ w.ice) × (v.log ≡ w.log)

  -- A refusal, or the rest of the login for the user that was recognised.
  abbrev pub Decides :
      Result Exception I.Proxy × World S I
      → Result Exception User
      → World S I
      → List Account
      → Text
      → Client I
      → Type 0
  Decides out (err e) w us id callback_id = (out.0 ≡ err e) × Untouched w us out.1
  Decides out (ok user) w us id callback_id =
      (v : World S I) × Untouched w us v × (out ≡ open_session S I user id callback_id v)

  abbrev pub DatabaseFails :
      Result Exception I.Proxy × World S I → World S I → List Account → Type 0
  DatabaseFails out w us =
      (message : Text) × (out.0 ≡ err (soci_error message)) × Untouched w us out.1

module _ (S : Soci) (I : IceServerI) (L : IsLawful S) where
  module _ (u : User) (pw : Text) (callback_id : Client I) (us : List Account) (w : World S I) where
    pub selected-Decides :
        (o : Option Row) (found : Option Account) (v : World S I)
        → o ≡ Option.map row found
        → Untouched S I w us v
        → Decides S I
            ((throw_if
                  (not (is_initialized (column (λ r. r.id) o)))
                  authentication
                  (codes "unknown ID")
                >> (get (column (λ r. r.pw) o) >>= λ stored_pw.
                    throw_if (not (same pw stored_pw)) authentication (codes "invalid password")
                    >> (get (column (λ r. r.pubkey) o) >>= λ pubkey.
                        throw_if
                          (key_differs u.public_key pubkey)
                          authentication
                          (codes "public key can't change")
                        >> open_session S I
                            (record { id = account_name u.id; public_key = pubkey })
                            u.id
                            callback_id)))
              v)
            (credentials u pw found)
            w
            us
            u.id
            callback_id
    selected-Decides o none v e t = rw e (refl, t)
    selected-Decides o (some a) v e t = rw e (elim (Bool-cases (same pw a.password)) [
      | inr f ↦ rw f (refl, t)
      | inl f ↦ rw f (elim (Bool-cases (key_differs u.public_key a.public_key)) [
        | inl g ↦ rw g (refl, t)
        | inr g ↦ rw g (v, t, refl)
      ])
    ])

    made : World S I
    made = record w { db = (S.create_users w.db).1 }

    selected : World S I → World S I
    selected v = record v { db = (S.select_user (account_name u.id) v.db).1 }

    -- The password and the key decide before a client is called, and no outcome changes an account.
    pub login-Decides :
        Represents S w.db us
        → (Decides S I
            (login S I u pw callback_id w)
            (credentials u pw (find (account_name u.id) us))
            w
            us
            u.id
            callback_id)
          ⊎ DatabaseFails S I (login S I u pw callback_id w) w us
    unfolding login made selected
    login-Decides rep =
        bind_cases P (on_db S.create_users) _ w
          (λ _ _.
            bind_cases P (on_db (S.select_user (account_name u.id))) _ made
              (λ o p. inl (
                selected-Decides o _ (selected made) (select_find S L made.db us _ o created p)
                  (select-Represents S L us made.db _ created, refl, refl)))
              (λ e p.
                let (m, q) = thrown _ e (L.select-throws made.db _) p in
                inr (m, ap err q, (select-Represents S L us made.db _ created, refl, refl))))
          (λ e p.
            let (m, q) = thrown _ e (L.create-throws w.db) p in
            inr (m, ap err q, (created, refl, refl)))
      where
        P : Result Exception I.Proxy × World S I → Type 0
        P out =
            (Decides S I out (credentials u pw (find (account_name u.id) us)) w us u.id callback_id)
            ⊎ DatabaseFails S I out w us

        created : Represents S made.db us
        created = create-Represents S L us w.db rep
