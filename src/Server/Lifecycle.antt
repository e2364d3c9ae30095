-- ===== src/Server/Lifecycle.antt =====
-- The life of an account, from its registration to its deletion by a session of its owner, over a
-- database that does not fail: what tests/server/session.cpp and tests/server/authentication.cpp try
-- with one user.
pub mod Entering
use sepm_group.Prelude.{
  ◌≡◌, ◌≢◌, subst, refl, sym, ap, ◌∙◌, Option, none, some, List, [], ◌∷◌, ◌++◌, Text, codes, true,
  false, Bool-cases, inl, inr, same, same_refl, same_iff, if◌then◌else◌, append-nil, arith,
}
use sepm_group.Prelude.Effects.{Result, ok, err}
use sepm_group.SdcHelper.{is_valid_id}
use sepm_group.SdcHelper.Ids.{is_valid_id-get_name_from_id}
use sepm_group.Sdc.{User, Exception, sdc, authentication}
use sepm_group.Database.{Soci, IsLawful, IsReliable}
use sepm_group.Database.Accounts.{
  Account, find, find_self, find-append, remove, remove-append, remove-fresh, remove_self,
}
use sepm_group.Database.Laws.{Represents}
use sepm_group.Server.{World, IceServerI, Client, session_impl, account_name}
use sepm_group.Server.Authentication.{register_user, login}
use sepm_group.Server.Authentication.Login.{credentials, Decides, Untouched}
use sepm_group.Server.Authentication.Register.{account_of, register_spec, register_found}
use sepm_group.Server.Authentication.Reliable.{
  register_user-Decides, register_user-has_users, login-DecidesReliably,
}
use sepm_group.Server.Authentication.Success.{session_user}
use sepm_group.Server.Session.{Self, delete_user}
use sepm_group.Server.Session.Delete.{delete_user-Deletes, delete_spec}
use sepm_group.Server.Session.Owner.{delete_user-own}

-- A name that was taken from an ID stays as it is when it is sent as an ID.
pub account_name-account_name : (id : Text) → account_name (account_name id) ≡ account_name id
unfolding account_name
account_name-account_name id = ground (arith, is_valid_id-get_name_from_id id)

remove-account :
    (a : Account) (us : List Account) → find a.name us ≡ none → remove a.name (us ++ (a ∷ [])) ≡ us
remove-account a us h =
    remove-append a.name us (a ∷ [])
    ∙ rw (remove_self a) (append-nil (remove a.name us) ∙ remove-fresh a.name us h)

module _ (S : Soci) (I : IceServerI) (L : IsLawful S) (R : IsReliable S) where
  module _ (u : User) (pw : Text) (w : World S I) (us : List Account) (rep : Represents S w.db us)
      (free : find (account_name u.id) us ≡ none) where
    abbrev registered : Result Exception (Unit {0}) × World S I
    registered = register_user S I u pw w

    pub register_user-free :
        (registered.0 ≡ ok tt) × Represents S registered.1.db (us ++ (account_of u pw ∷ []))
    register_user-free =
        let (e, after) = register_user-Decides S I L R u pw w us rep in
        let spec : register_spec u pw us ≡ (ok tt, us ++ (account_of u pw ∷ [])) =
          ap (register_found u pw us) free in
        (e ∙ ap (λ s. s.0) spec, subst (λ s. Represents S registered.1.db s.1) spec after)

    -- On a database that does not fail, whose table is a list of accounts without the name of `u`, and
    -- after `u` has registered by one password: a user of that name with another password is refused,
    -- as a registration because the name is taken, and as a login because of the password; either
    -- way the accounts stay, and the login calls no client and logs nothing.
    pub register_user-taken :
        (v : User) (pw' : Text) (client : Client I)
        → account_name v.id ≡ account_name u.id
        → pw' ≢ pw
        → let again = register_user S I v pw' registered.1 in
          let out = login S I v pw' client registered.1 in
          (again.0 ≡ err (sdc authentication (codes "ID already exists")))
          × Represents S again.1.db (us ++ (account_of u pw ∷ []))
          × (out.0 ≡ err (sdc authentication (codes "invalid password")))
          × Untouched S I registered.1 (us ++ (account_of u pw ∷ [])) out.1
    register_user-taken v pw' client e other =
        let (_, after) = register_user-free in
        let found : find (account_name v.id) (us ++ (account_of u pw ∷ []))
            ≡ some (account_of u pw) =
          rw e (
            find-append (account_name u.id) us (account_of u pw ∷ [])
            ∙ rw free (find_self (account_of u pw))) in
        let refused : credentials v pw' (some (account_of u pw))
            ≡ err (sdc authentication (codes "invalid password")) =
          ground (arith, same_iff pw' pw, other) in
        let spec = ap (register_found v pw' (us ++ (account_of u pw ∷ []))) found in
        let (again, kept) =
          register_user-Decides S I L R v pw' registered.1 (us ++ (account_of u pw ∷ [])) after in
        let decided =
          subst
            (λ c.
              Decides S I (login S I v pw' client registered.1) c registered.1
                (us ++ (account_of u pw ∷ [])) v.id client)
            (ap (credentials v pw') found ∙ refused)
            (login-DecidesReliably S I L R v pw' client registered.1 _ after) in
        (
          again ∙ ap (λ s. s.0) spec,
          subst (λ s. Represents S (register_user S I v pw' registered.1).1.db s.1) spec kept,
          decided.0,
          decided.1,
        )

    module _ (u' : User) (s : Self S I) (mine : u'.id ≡ s.this.user.id)
        (own : s.this.user.id ≡ account_name u.id) (here : s.world ≡ registered.1) where
      abbrev gone : Result Exception (Unit {0}) × Self S I
      gone = delete_user S I u' s

      gone-ok : gone.0 ≡ ok tt
      gone-ok =
          delete_user-own S I R u' s
            (ap (λ (v : World S I). S.has_users v.db) here ∙ register_user-has_users S I L R u pw w)
            ((same_iff u'.id s.this.user.id).1 mine)

      sent_name : account_name u'.id ≡ account_name u.id
      sent_name = ap account_name (mine ∙ own) ∙ account_name-account_name u.id

      delete_spec-eq : delete_spec s.this.user.id u' (us ++ (account_of u pw ∷ [])) ≡ (ok tt, us)
      delete_spec-eq =
          rw ((same_iff u'.id s.this.user.id).1 mine)
            (rw sent_name (ap (λ vs. (ok tt, vs)) (remove-account (account_of u pw) us free)))

      gone-Represents : Represents S gone.1.world.db us
      gone-Represents =
          let before =
            subst (λ (v : World S I). Represents S v.db (us ++ (account_of u pw ∷ []))) (sym here)
              register_user-free.1 in
          let (outcome, _) = delete_user-Deletes S I L u' (us ++ (account_of u pw ∷ [])) s before in
          elim outcome [
            | inl (_, after) ↦ subst (λ o. Represents S gone.1.world.db o.1) delete_spec-eq after
            | inr (e, _) ↦ absurd (ground (arith, gone-ok, e))
          ]

      -- On a database that does not fail, whose table is a list of accounts without the name of `u`:
      -- `u` is registered, and then a session of that name deletes the account of the ID that it
      -- has itself. The table is the list from before; a login by the name is refused as unknown, whatever
      -- password and client come with it, and calls no client and logs nothing; and the name can be
      -- registered again.
      pub register_user-delete_user :
          (v : User) (pw' : Text) (client : Client I)
          → account_name v.id ≡ account_name u.id
          → let out = login S I v pw' client gone.1.world in
            (registered.0 ≡ ok tt)
            × (gone.0 ≡ ok tt)
            × Represents S gone.1.world.db us
            × (out.0 ≡ err (sdc authentication (codes "unknown ID")))
            × Untouched S I gone.1.world us out.1
            × ((register_user S I v pw' gone.1.world).0 ≡ ok tt)
      register_user-delete_user v pw' client e =
          let none_left : find (account_name v.id) us ≡ none = rw e free in
          let decided =
            login-DecidesReliably S I L R v pw' client gone.1.world us gone-Represents in
          let (refused, untouched) = rw none_left at decided in
          (
            register_user-free.0,
            gone-ok,
            gone-Represents,
            refused,
            untouched,
            (register_user-Decides S I L R v pw' gone.1.world us gone-Represents).0
                ∙ ap (λ f. (register_found v pw' us f).0) none_left,
          )
