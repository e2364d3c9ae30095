-- ===== src/Server/Authentication/Reliable.antt =====
-- registerUser and login over a database that does not fail.
use sepm_group.Prelude.{◌≡◌, ◌≢◌, refl, Bool, true, false, inl, inr, List, ◌++◌, Text, codes, arith}
use sepm_group.Prelude.Effects.{Result, err, bind_cases, ◌>>◌}
use sepm_group.Sdc.{User, Exception, soci_error, authentication}
use sepm_group.Database.{Soci, IsLawful, IsReliable, IsOk}
use sepm_group.Database.Accounts.{Account, find}
use sepm_group.Database.Laws.{Represents, select_find, create-Represents, select-Represents}
use sepm_group.Server.{
  World, IceServerI, Client, account_name, is_initialized, on_db, info, throw_if,
}
use sepm_group.Server.Authentication.{column, register_user, login}
use sepm_group.Server.Authentication.Login.{credentials, Decides, selected-Decides}
use sepm_group.Server.Authentication.Register.{register_spec, register_user-Refines}

-- What returns does not throw.
does_not_throw {ℓ} :
    {A : Type 0} {C : Type ℓ} (r : Result Exception A) (e : Exception) → IsOk r → r ≡ err e → C
does_not_throw r e (a, p) q = absurd (ground (arith, p, q))

module _ (S : Soci) (I : IceServerI) (L : IsLawful S) (R : IsReliable S) where
  abbrev NoSociError : Result Exception (Unit {0}) × World S I → Type 0
  NoSociError out = (message : Text) → out.0 ≢ err (soci_error message)

  module _ (u : User) (pw : Text) where
    after_select :
        (taken : Bool) (w : World S I)
        → S.has_users w.db ≡ true
        → NoSociError (
            (throw_if taken authentication (codes "ID already exists")
                >> (on_db (S.insert_user (account_name u.id) pw u.public_key)
                    >> info (codes "Registered " ++ u.id)))
              w)
    after_select true w h = λ message e. ground (arith, e)
    after_select false w h =
        bind_cases NoSociError (on_db (S.insert_user (account_name u.id) pw u.public_key))
          (λ _. info (codes "Registered " ++ u.id)) w (λ _ _ message e. ground (arith, e))
          (λ x p. does_not_throw _ x (R.insert w.db (account_name u.id) pw u.public_key h) p)

    register_user-NoSociError : (w : World S I) → NoSociError (register_user S I u pw w)
    unfolding register_user
    register_user-NoSociError w =
        bind_cases NoSociError (on_db S.create_users) _ w
          (λ _ _.
            bind_cases NoSociError (on_db (S.select_user (account_name u.id))) _ made
              (λ o _.
                after_select (is_initialized (column (λ r. r.id) o)) selected
                  (R.select-has_users made.db (account_name u.id) (R.create-has_users w.db)))
              (λ x p.
                does_not_throw _ x (R.select made.db (account_name u.id) (R.create-has_users w.db))
                  p))
          (λ x p. does_not_throw _ x (R.create w.db) p)
      where
        made : World S I
        made = record w { db = (S.create_users w.db).1 }

        selected : World S I
        selected = record made { db = (S.select_user (account_name u.id) made.db).1 }

  stored :
      (u : User) (pw : Text) (taken : Bool) (w : World S I)
      → S.has_users w.db ≡ true
      → S.has_users
          ((throw_if taken authentication (codes "ID already exists")
              >> (on_db (S.insert_user (account_name u.id) pw u.public_key)
                  >> info (codes "Registered " ++ u.id)))
            w).1.db
        ≡ true
  stored u pw true w h = h
  stored u pw false w h =
      bind_cases (λ (out : Result Exception (Unit {0}) × World S I). S.has_users out.1.db ≡ true)
        (on_db (S.insert_user (account_name u.id) pw u.public_key))
        (λ _. info (codes "Registered " ++ u.id)) w
        (λ _ _. R.insert-has_users w.db (account_name u.id) pw u.public_key h)
        (λ _ _. R.insert-has_users w.db (account_name u.id) pw u.public_key h)

  -- The table is there after a registration, whatever its outcome.
  pub register_user-has_users :
      (u : User) (pw : Text) (w : World S I) → S.has_users (register_user S I u pw w).1.db ≡ true
  unfolding register_user
  register_user-has_users u pw w =
      bind_cases P (on_db S.create_users) _ w
        (λ _ _.
          bind_cases P (on_db (S.select_user (account_name u.id))) _ made
            (λ o _.
              stored u pw (is_initialized (column (λ r. r.id) o)) selected
                (R.select-has_users made.db (account_name u.id) (R.create-has_users w.db)))
            (λ _ _. R.select-has_users made.db (account_name u.id) (R.create-has_users w.db)))
        (λ _ _. R.create-has_users w.db)
    where
      P : Result Exception (Unit {0}) × World S I → Type 0
      P out = S.has_users out.1.db ≡ true

      made : World S I
      made = record w { db = (S.create_users w.db).1 }

      selected : World S I
      selected = record made { db = (S.select_user (account_name u.id) made.db).1 }

  -- On a database that does not fail and represents a list of accounts, registerUser returns and
  -- adds the account when the name is free, and throws "ID already exists" with the accounts as they
  -- were when it is taken.
  pub register_user-Decides :
      (u : User) (pw : Text) (w : World S I) (us : List Account)
      → Represents S w.db us
      → ((register_user S I u pw w).0 ≡ (register_spec u pw us).0)
        × Represents S (register_user S I u pw w).1.db (register_spec u pw us).1
  register_user-Decides u pw w us rep = elim (register_user-Refines S I L u pw w us rep) [
    | inl h ↦ h
    | inr (message, e, _) ↦ absurd (register_user-NoSociError u pw w message e)
  ]

  -- On such a database a login does what the accounts say.
  pub login-DecidesReliably :
      (u : User) (pw : Text) (client : Client I) (w : World S I) (us : List Account)
      → Represents S w.db us
      → Decides S I
          (login S I u pw client w)
          (credentials u pw (find (account_name u.id) us))
          w
          us
          u.id
          client
  unfolding login
  login-DecidesReliably u pw client w us rep =
      bind_cases P (on_db S.create_users) _ w
        (λ _ _.
          bind_cases P (on_db (S.select_user (account_name u.id))) _ made
            (λ o p.
              selected-Decides S I L u pw client us w o _ _
                (select_find S L made.db us _ o created p)
                (select-Represents S L us made.db _ created, refl, refl))
            (λ x p. does_not_throw _ x (R.select made.db _ (R.create-has_users w.db)) p))
        (λ x p. does_not_throw _ x (R.create w.db) p)
    where
      P : Result Exception I.Proxy × World S I → Type 0
      P out = Decides S I out (credentials u pw (find (account_name u.id) us)) w us u.id client

      made : World S I
      made = record w { db = (S.create_users w.db).1 }

      created : Represents S made.db us
      created = create-Represents S L us w.db rep
