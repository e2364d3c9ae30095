-- ===== src/Database/Laws.antt =====
-- What the SELECT of the code finds on a table that represents a list of accounts.
use sepm_group.Prelude.{
  ◌≡◌, refl, ◌∙◌, sym, Option, none, some, List, [], ◌∷◌, ◌++◌, map, Text, arith, filter,
}
use mathlib.Core.Option
use mathlib.Core.List.{map-append}
use sepm_group.Prelude.Effects.{Result, ok, err}
use sepm_group.Sdc.{Exception, soci_error}
use sepm_group.Database.{Row, Soci, IsLawful, OnlySoci, has_id}
use sepm_group.Database.Accounts.{
  Account, row, find, Distinct, to_list, filter-find, filter-remove, remove, remove-Distinct,
  append-Distinct,
}

-- The table holds the accounts, in their order, and no name twice.
abbrev pub Represents : (S : Soci) → S.Db → List Account → Type 0
Represents S d us = (S.rows d ≡ map row us) × Distinct us

sole {ℓ} :
    {A : Type ℓ} (before : List A) (a : A) (after : List A) (o : Option A)
    → before ++ (a ∷ after) ≡ to_list o
    → o ≡ some a
sole [] a after none h = cc
sole [] a after (some b) h = cc
sole (x ∷ before) a after none h = cc
sole (x ∷ []) a after (some b) h = cc
sole (x ∷ y ∷ before) a after (some b) h = cc

empty_list {ℓ} : {A : Type ℓ} (o : Option A) → [] ≡ to_list o → o ≡ none
empty_list none h = refl
empty_list (some a) h = cc

map-to_list : (o : Option Account) → map row (to_list o) ≡ to_list (Option.map row o)
map-to_list none = refl
map-to_list (some a) = refl

module _ (S : Soci) (L : IsLawful S) where
  matching :
      (d : S.Db) (us : List Account) (n : Text)
      → Represents S d us
      → filter (has_id n) (S.rows d) ≡ to_list (Option.map row (find n us))
  matching d us n (e, u) = rw e (filter-find n us u ∙ map-to_list (find n us))

  -- The statement returns the account of that name, if there is one.
  pub select_find :
      (d : S.Db) (us : List Account) (n : Text) (o : Option Row)
      → Represents S d us
      → (S.select_user n d).0 ≡ ok o
      → o ≡ Option.map row (find n us)
  select_find d us n none r h = sym (empty_list _ (sym (L.select-none d n h) ∙ matching d us n r))
  select_find d us n (some x) r h =
      let (before, after, e) = L.select-some d n x h in
      sym (sole before x after _ (sym e ∙ matching d us n r))

-- What a failed statement throws.
pub thrown :
    {A : Type 0} (r : Result Exception A) (e : Exception)
    → OnlySoci r
    → r ≡ err e
    → (message : Text) × (e ≡ soci_error message)
thrown (ok a) e t h = absurd (ground arith)
thrown (err x) e (message, t) h = (message, ground arith)

module _ (S : Soci) (L : IsLawful S) (us : List Account) where
  pub create-Represents : (d : S.Db) → Represents S d us → Represents S (S.create_users d).1 us
  create-Represents d (e, u) = (L.rows-create d ∙ e, u)

  pub select-Represents :
      (d : S.Db) (n : Text) → Represents S d us → Represents S (S.select_user n d).1 us
  select-Represents d n (e, u) = (L.rows-select d n ∙ e, u)

  pub insert-Represents :
      (d : S.Db) (a : Account) {r : Result Exception (Unit {0})}
      → (S.insert_user a.name a.password a.public_key d).0 ≡ r
      → find a.name us ≡ none
      → Represents S d us
      → Represents S
          (S.insert_user a.name a.password a.public_key d).1
          (elim r [ ok _ ↦ us ++ (a ∷ []) | err _ ↦ us ])
  insert-Represents d a {r} p h rep = inserted r p
    where
      inserted :
          (r : Result Exception (Unit {0}))
          → (S.insert_user a.name a.password a.public_key d).0 ≡ r
          → Represents S
              (S.insert_user a.name a.password a.public_key d).1
              (elim r [ ok _ ↦ us ++ (a ∷ []) | err _ ↦ us ])
      inserted (ok _) q = (
        L.rows-insert d a.name a.password a.public_key
            ∙ rw q (rw (rep.0) (sym (map-append row us (a ∷ [])))),
        append-Distinct a us h rep.1,
      )
      inserted (err _) q = (L.rows-insert d a.name a.password a.public_key ∙ rw q (rep.0), rep.1)

  pub delete-Represents :
      (d : S.Db) (n : Text) {r : Result Exception (Unit {0})}
      → (S.delete_user n d).0 ≡ r
      → Represents S d us
      → Represents S (S.delete_user n d).1 (elim r [ ok _ ↦ remove n us | err _ ↦ us ])
  delete-Represents d n {r} p rep = deleted r p
    where
      deleted :
          (r : Result Exception (Unit {0}))
          → (S.delete_user n d).0 ≡ r
          → Represents S (S.delete_user n d).1 (elim r [ ok _ ↦ remove n us | err _ ↦ us ])
      deleted (ok _) q =
          (L.rows-delete d n ∙ rw q (rw (rep.0) (filter-remove n us)), remove-Distinct n us rep.1)
      deleted (err _) q = (L.rows-delete d n ∙ rw q (rep.0), rep.1)
