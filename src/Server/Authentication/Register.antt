-- ===== src/Server/Authentication/Register.antt =====
-- `registerUser` against its contract on accounts.
use mathlib.Core.Option
use sepm_group.Prelude.{◌≡◌, refl, inl, Option, none, some, List, [], ◌∷◌, ◌++◌, Text, codes}
use sepm_group.Prelude.Effects.{Result, ok, err, ◌>>◌, bind_cases}
use sepm_group.Sdc.{User, Exception, sdc, authentication}
use sepm_group.Database.{Soci, Row, IsLawful}
use sepm_group.Database.Accounts.{Account, row, find}
use sepm_group.Database.Laws.{
  Represents, select_find, create-Represents, select-Represents, insert-Represents,
}
use sepm_group.Server.Outcome.{Refines, passed_on}
use sepm_group.Server.{World, IceServerI, account_name, is_initialized, on_db, info, throw_if}
use sepm_group.Server.Authentication.{column, register_user}

-- The account that a registration makes.
abbrev pub account_of : User → Text → Account
account_of u pw = record { name = account_name u.id; password = pw; public_key = u.public_key }

-- The contract, by the account that has the name already: a taken name is refused, and a free one is
-- added.
abbrev pub register_found :
    User → Text → List Account → Option Account → Result Exception (Unit {0}) × List Account
register_found u pw us none = (ok tt, us ++ (account_of u pw ∷ []))
register_found u pw us (some _) = (err (sdc authentication (codes "ID already exists")), us)

abbrev pub register_spec : User → Text → List Account → Result Exception (Unit {0}) × List Account
register_spec u pw us = register_found u pw us (find (account_name u.id) us)

module _ (S : Soci) (I : IceServerI) (L : IsLawful S) where
  module _ (u : User) (pw : Text) (us : List Account) where
    inserted : World S I → World S I
    inserted w = record w { db = (S.insert_user (account_name u.id) pw u.public_key w.db).1 }

    after_select :
        (o : Option Row) (found : Option Account) (w : World S I)
        → o ≡ Option.map row found
        → find (account_name u.id) us ≡ found
        → Represents S w.db us
        → Refines
            ((throw_if
                  (is_initialized (column (λ r. r.id) o))
                  authentication
                  (codes "ID already exists")
                >> (on_db (S.insert_user (account_name u.id) pw u.public_key)
                    >> info (codes "Registered " ++ u.id)))
              w)
            (register_found u pw us found)
            us
    unfolding inserted
    after_select o (some a) w e h rep = rw e (inl (refl, rep))
    after_select o none w e h rep = rw e (
        bind_cases (λ out. Refines out (register_found u pw us none) us)
          (on_db (S.insert_user (account_name u.id) pw u.public_key)) _ w
          (λ a p. inl (refl, insert-Represents S L us w.db (account_of u pw) p h rep))
          (λ x p.
            passed_on S I _ us (inserted w) _ x (L.insert-throws w.db _ _ _) p
              (insert-Represents S L us w.db (account_of u pw) p h rep)))

  pub register_user-Refines :
      (u : User) (pw : Text) (w : World S I) (us : List Account)
      → Represents S w.db us
      → Refines (register_user S I u pw w) (register_spec u pw us) us
  unfolding register_user
  register_user-Refines u pw w us rep =
      bind_cases P (on_db S.create_users) _ w
        (λ _ _.
          bind_cases P (on_db (S.select_user (account_name u.id))) _ made
            (λ o p.
              after_select u pw us o _ (selected made) (select_find S L made.db us _ o created p)
                refl (select-Represents S L us made.db _ created))
            (λ e p.
              passed_on S I _ us (selected made) _ e (L.select-throws made.db _) p
                (select-Represents S L us made.db _ created)))
        (λ e p. passed_on S I _ us made _ e (L.create-throws w.db) p created)
    where
      P : Result Exception (Unit {0}) × World S I → Type 0
      P out = Refines out (register_spec u pw us) us

      made : World S I
      made = record w { db = (S.create_users w.db).1 }

      selected : World S I → World S I
      selected v = record v { db = (S.select_user (account_name u.id) v.db).1 }

      created : Represents S made.db us
      created = create-Represents S L us w.db rep
