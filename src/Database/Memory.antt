-- ===== src/Database/Memory.antt =====
-- A database in memory, as DBPool::TestPool opens one (`:memory:`): the assumptions on SQL can be met.
use sepm_group.Prelude.{
  ◌≡◌, refl, Bool, true, false, not, Option, none, some, List, [], ◌∷◌, ◌++◌, Text, codes, filter,
  Bool-cases, inl, inr, if◌then◌else◌, arith,
}
use sepm_group.Prelude.Effects.{Eff, ok, err}
use sepm_group.Sdc.{Exception, soci_error}
use sepm_group.Database.{Row, Soci, has_id, IsLawful, IsReliable, OnlySoci, IsOk}

-- `none` as long as there is no table.
abbrev pub Table : Type 0
Table = Option (List Row)

abbrev no_table : Exception
no_table = soci_error (codes "no such table: users")

-- The first row that matches.
unfoldable pub first_row : Text → List Row → Option Row
first_row n [] = none
first_row n (r ∷ rs) = let rest = first_row n rs in if has_id n r then some r else rest

abbrev create : Eff Table Exception (Unit {0})
create none = (ok tt, some [])
create (some rs) = (ok tt, some rs)

abbrev select : Text → Eff Table Exception (Option Row)
select n none = (err no_table, none)
select n (some rs) = (ok (first_row n rs), some rs)

abbrev insert : Text → Text → Text → Eff Table Exception (Unit {0})
insert n p k none = (err no_table, none)
insert n p k (some rs) =
    (ok tt, some (rs ++ (record { id = some n; pw = some p; pubkey = some k } ∷ [])))

abbrev delete : Text → Eff Table Exception (Unit {0})
delete n none = (err no_table, none)
delete n (some rs) = (ok tt, some (filter (λ r. not (has_id n r)) rs))

abbrev rows : Table → List Row
rows none = []
rows (some rs) = rs

abbrev has_users : Table → Bool
has_users none = false
has_users (some rs) = true

abbrev pub memory : Soci
memory = record {
  Db = Table;
  create_users = create;
  select_user = select;
  insert_user = insert;
  delete_user = delete;
  rows = rows;
  has_users = has_users;
}

first_row-some :
    (n : Text) (rs : List Row) (r : Row)
    → first_row n rs ≡ some r
    → (before : List Row) × (after : List Row) × (filter (has_id n) rs ≡ before ++ (r ∷ after))
unfolding first_row filter
first_row-some n [] r h = absurd (ground arith)
first_row-some n (x ∷ rs) r h = elim (Bool-cases (has_id n x)) [
  | inl e ↦ ([], filter (has_id n) rs, ground arith)
  | inr e ↦ rw e (first_row-some n rs r (ground arith))
]

first_row-none : (n : Text) (rs : List Row) → first_row n rs ≡ none → filter (has_id n) rs ≡ []
unfolding first_row filter
first_row-none n [] h = refl
first_row-none n (x ∷ rs) h = ground (arith, first_row-none n rs)

create_throws : (d : Table) → OnlySoci (create d).0
create_throws none = tt
create_throws (some rs) = tt

select_throws : (d : Table) (n : Text) → OnlySoci (select n d).0
select_throws none n = (codes "no such table: users", refl)
select_throws (some rs) n = tt

insert_throws : (d : Table) (n p k : Text) → OnlySoci (insert n p k d).0
insert_throws none n p k = (codes "no such table: users", refl)
insert_throws (some rs) n p k = tt

delete_throws : (d : Table) (n : Text) → OnlySoci (delete n d).0
delete_throws none n = (codes "no such table: users", refl)
delete_throws (some rs) n = tt

select_some :
    (d : Table) (n : Text) (r : Row)
    → (select n d).0 ≡ ok (some r)
    → (before : List Row) × (after : List Row) × (filter (has_id n) (rows d)
        ≡ before ++ (r ∷ after))
select_some none n r h = absurd (ground arith)
select_some (some rs) n r h = first_row-some n rs r (ground arith)

select_none : (d : Table) (n : Text) → (select n d).0 ≡ ok none → filter (has_id n) (rows d) ≡ []
select_none none n h = absurd (ground arith)
select_none (some rs) n h = first_row-none n rs (ground arith)

pub memory-IsLawful : IsLawful memory
memory-IsLawful = record {
  create-throws = create_throws;
  select-throws = select_throws;
  insert-throws = insert_throws;
  delete-throws = delete_throws;
  rows-create = elim [ none ↦ refl | some rs ↦ refl ];
  rows-select =
      λ d n. elim d as (λ d. rows (select n d).1 ≡ rows d) [ none ↦ refl | some rs ↦ refl ];
  select-some = select_some;
  select-none = select_none;
  rows-insert = λ d n p k. ground arith;
  rows-delete = λ d n. ground arith;
}

select_ok : (d : Table) (n : Text) → has_users d ≡ true → IsOk (select n d).0
select_ok none n h = cc
select_ok (some rs) n h = (first_row n rs, refl)

insert_ok : (d : Table) (n p k : Text) → has_users d ≡ true → IsOk (insert n p k d).0
insert_ok none n p k h = cc
insert_ok (some rs) n p k h = (tt, refl)

delete_ok : (d : Table) (n : Text) → has_users d ≡ true → IsOk (delete n d).0
delete_ok none n h = cc
delete_ok (some rs) n h = (tt, refl)

pub memory-IsReliable : IsReliable memory
memory-IsReliable = record {
  create = elim [ none ↦ (tt, refl) | some rs ↦ (tt, refl) ];
  create-has_users = elim [ none ↦ refl | some rs ↦ refl ];
  select = select_ok;
  select-has_users = λ d n h. ground arith;
  insert = insert_ok;
  insert-has_users = λ d n p k h. ground arith;
  delete = delete_ok;
}
