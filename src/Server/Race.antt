-- ===== src/Server/Race.antt =====
-- `registerUser` tests a name and inserts it by two statements, with no transaction. The Ice server
-- runs three threads, each call with an SQL session of its own, so that another call may come between.
use sepm_group.Prelude.{
  ◌≡◌, refl, ap, sym, ◌∙◌, true, Option, none, some, List, [], ◌∷◌, ◌++◌, map, filter,
  filter-append, ◌≢◌, Text, codes, arith,
}
use sepm_group.Prelude.Effects.{Eff, Result, ok, ◌>>=◌, ◌>>◌, bind_cases}
use sepm_group.Sdc.{User, Exception, authentication}
use mathlib.Core.Option
use sepm_group.Database.{Soci, Row, IsLawful, IsReliable, has_id}
use sepm_group.Database.Accounts.{
  Account, row, find, to_list, filter-none, filter-find, filter_self,
}
use sepm_group.Database.Laws.{Represents, select_find, create-Represents, select-Represents}
use sepm_group.Server.Authentication.Register.{account_of}
use sepm_group.Server.System.{HasAccounts}
use sepm_group.Server.{World, IceServerI, account_name, is_initialized, on_db, info, throw_if}
use sepm_group.Server.Authentication.{column, register_user}

module _ (S : Soci) (I : IceServerI) where
  -- The statements before the insertion, and the rest.
  unfoldable pub register_check : User → Eff (World S I) Exception (Unit {0})
  register_check u = do
    on_db S.create_users
    selected ← on_db (S.select_user (account_name u.id))
    throw_if (is_initialized (column (λ r. r.id) selected)) authentication
        (codes "ID already exists")

  unfoldable pub register_store : User → Text → Eff (World S I) Exception (Unit {0})
  register_store u pw = do
    on_db (S.insert_user (account_name u.id) pw u.public_key)
    info (codes "Registered " ++ u.id)

  pub register_user-split :
      (u : User) (pw : Text) (w : World S I)
      → register_user S I u pw w ≡ (register_check u >> register_store u pw) w
  unfolding register_user register_check register_store
  register_user-split u pw w = ground arith

  module _ (L : IsLawful S) (R : IsReliable S) where
    check_free :
        (u : User) (w : World S I) (us : List Account)
        → Represents S w.db us
        → find (account_name u.id) us ≡ none
        → ((register_check u w).0 ≡ ok tt)
          × Represents S (register_check u w).1.db us
          × (S.has_users (register_check u w).1.db ≡ true)
    unfolding register_check
    check_free u w us rep free =
        let (_, c) = R.create w.db in
        let has = R.create-has_users w.db in
        let (o, s) = R.select (S.create_users w.db).1 (account_name u.id) has in
        let made = create-Represents S L us w.db rep in
        let found =
          select_find S L (S.create_users w.db).1 us (account_name u.id) o made s
          ∙ ap (Option.map row) free in
        bind_cases P (on_db S.create_users) _ w
          (λ _ _.
            bind_cases P (on_db (S.select_user (account_name u.id))) _
              (record w { db = (S.create_users w.db).1 })
              (λ o' s'.
                let e : o' ≡ none = ground (arith, s, s', found) in
                rw e (
                  refl,
                  select-Represents S L us _ (account_name u.id) made,
                  R.select-has_users _ (account_name u.id) has,
                ))
              (λ e f. absurd (ground (arith, f, s))))
          (λ e f. absurd (ground (arith, f, c)))
      where
        P : Result Exception (Unit {0}) × World S I → Type 0
        P out = (out.0 ≡ ok tt) × Represents S out.1.db us × (S.has_users out.1.db ≡ true)

    store_row :
        (u : User) (pw : Text) (w : World S I)
        → S.has_users w.db ≡ true
        → ((register_store u pw w).0 ≡ ok tt)
          × (S.rows (register_store u pw w).1.db ≡ S.rows w.db ++ (row (account_of u pw) ∷ []))
          × (S.has_users (register_store u pw w).1.db ≡ true)
    unfolding register_store
    store_row u pw w has =
        let (_, c) = R.insert w.db (account_name u.id) pw u.public_key has in
        bind_cases P (on_db (S.insert_user (account_name u.id) pw u.public_key)) _ w
          (λ _ e. (refl, L.rows-insert w.db _ _ _ ∙ rw e, R.insert-has_users w.db _ _ _ has))
          (λ e f. absurd (ground (arith, f, c)))
      where
        P : Result Exception (Unit {0}) × World S I → Type 0
        P out =
            (out.0 ≡ ok tt)
            × (S.rows out.1.db ≡ S.rows w.db ++ (row (account_of u pw) ∷ []))
            × (S.has_users out.1.db ≡ true)

    pair_not_one : {x y : Row} (o : Option Account) → (x ∷ y ∷ []) ≢ map row (to_list o)
    pair_not_one none h = cc
    pair_not_one (some a) h = cc

    twice_named :
        (us : List Account) (a b : Account) (w : World S I)
        → find a.name us ≡ none
        → a.name ≡ b.name
        → S.rows w.db ≡ (map row us ++ (row a ∷ [])) ++ (row b ∷ [])
        → ¬ HasAccounts S I w
    twice_named us a b w free e rows (vs, (h, d)) =
        pair_not_one (find a.name vs)
          (sym both ∙ ap (filter (has_id a.name)) (sym rows ∙ h) ∙ filter-find a.name vs d)
      where
        both :
            filter (has_id a.name) ((map row us ++ (row a ∷ [])) ++ (row b ∷ []))
            ≡ row a ∷ row b ∷ []
        both = rw filter-append (
            rw filter-append (
              rw (filter-none a.name us free)
                (rw (filter_self a.name a refl) (rw (filter_self a.name b e)))))

    -- Two registrations of one free name, each tested before either is inserted, both succeed, and
    -- then the table holds the name twice: it is no list of accounts any more.
    pub register_race :
        (u v : User) (pw pw' : Text) (w : World S I) (us : List Account)
        → Represents S w.db us
        → find (account_name u.id) us ≡ none
        → account_name u.id ≡ account_name v.id
        → let w1 = (register_check u w).1 in
          let w2 = (register_check v w1).1 in
          let w3 = (register_store u pw w2).1 in
          let w4 = (register_store v pw' w3).1 in
          ((register_check u w).0 ≡ ok tt)
          × ((register_check v w1).0 ≡ ok tt)
          × ((register_store u pw w2).0 ≡ ok tt)
          × ((register_store v pw' w3).0 ≡ ok tt)
          × ¬ HasAccounts S I w4
    register_race u v pw pw' w us rep free e =
        let w2 = (register_check v (register_check u w).1).1 in
        let w3 = (register_store u pw w2).1 in
        let w4 = (register_store v pw' w3).1 in
        let (a, r1, h1) = check_free u w us rep free in
        let (b, r2, h2) = check_free v (register_check u w).1 us r1 (rw (sym e) free) in
        let (c, r3, h3) = store_row u pw w2 h2 in
        let (d, r4, h4) = store_row v pw' w3 h3 in
        (
          a,
          b,
          c,
          d,
          twice_named us (account_of u pw) (account_of v pw') w4 free e (
              r4
              ∙ ap (λ (rs : List Row). rs ++ (row (account_of v pw') ∷ []))
                  (r3 ∙ ap (λ (rs : List Row). rs ++ (row (account_of u pw) ∷ [])) (r2.0))),
        )
