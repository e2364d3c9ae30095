-- ===== src/Database.antt =====
-- The `users` table as server/AuthenticationImpl.cpp and server/SessionImpl.cpp use it. SOCI and
-- SQLite are not part of the repository: the four statements of the code are the operations of an
-- unknown `Soci`, which may fail at any time, and `IsLawful` and `IsReliable` state what SQL says
-- of them. A failed statement throws `soci_error` and changes nothing.
pub mod Accounts
pub mod Laws
pub mod Memory
pub mod Complete
use sepm_group.Prelude.{
  ℕ, ◌≡◌, Bool, true, false, not, Option, none, some, List, [], ◌∷◌, ◌++◌, Text, filter, same,
}
use sepm_group.Prelude.Effects.{Eff, Result, ok, err}
use sepm_group.Sdc.{Exception, soci_error}

-- A row of `users(id text, pw text, pubkey text)`; a column may be NULL.
pub record Row : Type 0 where
  pub id : Option Text
  pub pw : Option Text
  pub pubkey : Option Text

-- `WHERE id = :id`; NULL is equal to nothing.
unfoldable pub has_id : Text → Row → Bool
has_id name r = elim r.id [ none ↦ false | some i ↦ same i name ]

pub record Soci : Type 1 where
  pub Db : Type 0
  -- CREATE TABLE IF NOT EXISTS users(id text, pw text, pubkey text)
  pub create_users : Eff Db Exception (Unit {0})
  -- SELECT … FROM users WHERE id = :id, into one optional row
  pub select_user : Text → Eff Db Exception (Option Row)
  -- INSERT INTO users(id, pw, pubkey) VALUES (:id, :pw, :pubkey)
  pub insert_user : Text → Text → Text → Eff Db Exception (Unit {0})
  -- DELETE FROM users WHERE id = :id
  pub delete_user : Text → Eff Db Exception (Unit {0})
  -- What the table holds, in insertion order: nothing as long as there is no table.
  pub rows : Db → List Row
  pub has_users : Db → Bool

-- The statement fails, if it does, by an error of the library.
abbrev pub OnlySoci : {A : Type 0} → Result Exception A → Type 0
OnlySoci (ok a) = Unit {0}
OnlySoci (err e) = (message : Text) × (e ≡ soci_error message)

abbrev pub IsOk : {A : Type 0} → Result Exception A → Type 0
IsOk {A} r = (a : A) × (r ≡ ok a)

-- The rows after a statement that changes them to `after` if it succeeds.
abbrev pub rows_after : Result Exception (Unit {0}) → List Row → List Row → List Row
rows_after (ok _) before after = after
rows_after (err _) before after = before

module _ (S : Soci) where
  pub record IsLawful : Type 0 where
    pub create-throws : (d : S.Db) → OnlySoci (S.create_users d).0
    pub select-throws : (d : S.Db) (n : Text) → OnlySoci (S.select_user n d).0
    pub insert-throws : (d : S.Db) (n p k : Text) → OnlySoci (S.insert_user n p k d).0
    pub delete-throws : (d : S.Db) (n : Text) → OnlySoci (S.delete_user n d).0
    pub rows-create : (d : S.Db) → S.rows (S.create_users d).1 ≡ S.rows d
    pub rows-select : (d : S.Db) (n : Text) → S.rows (S.select_user n d).1 ≡ S.rows d
    -- A selected row is one of those that match, whichever of them; none means that none does.
    pub select-some :
        (d : S.Db) (n : Text) (r : Row)
        → (S.select_user n d).0 ≡ ok (some r)
        → (before : List Row) × (after : List Row) × (filter (has_id n) (S.rows d)
            ≡ before ++ (r ∷ after))
    pub select-none :
        (d : S.Db) (n : Text) → (S.select_user n d).0 ≡ ok none → filter (has_id n) (S.rows d) ≡ []
    pub rows-insert :
        (d : S.Db) (n p k : Text)
        → S.rows (S.insert_user n p k d).1
          ≡ rows_after
              (S.insert_user n p k d).0
              (S.rows d)
              (S.rows d ++ (record { id = some n; pw = some p; pubkey = some k } ∷ []))
    pub rows-delete :
        (d : S.Db) (n : Text)
        → S.rows (S.delete_user n d).1
          ≡ rows_after (S.delete_user n d).0 (S.rows d) (filter (λ r. not (has_id n r)) (S.rows d))

  -- No statement fails on a database that has the table, and the table can be made.
  pub record IsReliable : Type 0 where
    pub create : (d : S.Db) → IsOk (S.create_users d).0
    pub create-has_users : (d : S.Db) → S.has_users (S.create_users d).1 ≡ true
    pub select : (d : S.Db) (n : Text) → S.has_users d ≡ true → IsOk (S.select_user n d).0
    pub select-has_users :
        (d : S.Db) (n : Text) → S.has_users d ≡ true → S.has_users (S.select_user n d).1 ≡ true
    pub insert : (d : S.Db) (n p k : Text) → S.has_users d ≡ true → IsOk (S.insert_user n p k d).0
    pub insert-has_users :
        (d : S.Db) (n p k : Text)
        → S.has_users d ≡ true
        → S.has_users (S.insert_user n p k d).1 ≡ true
    pub delete : (d : S.Db) (n : Text) → S.has_users d ≡ true → IsOk (S.delete_user n d).0
