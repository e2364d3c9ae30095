-- ===== src/Database/Accounts.antt =====
-- The abstract view of the `users` table: a list of accounts with distinct names.
use sepm_group.Prelude.{
  ◌≡◌, refl, ap, not, Option, none, some, List, [], ◌∷◌, ◌++◌, map, Text, filter, filter-append,
  same, same_iff, same_refl, Bool-cases, inl, inr, if◌then◌else◌, arith,
}
use sepm_group.Database.{Row, has_id}

pub record Account : Type 0 where
  pub name : Text
  pub password : Text
  pub public_key : Text

abbrev pub row : Account → Row
row a = record { id = some a.name; pw = some a.password; pubkey = some a.public_key }

unfoldable pub find : Text → List Account → Option Account
find n [] = none
find n (a ∷ us) = let rest = find n us in if same a.name n then some a else rest

pub remove : Text → List Account → List Account
remove n us = filter (λ a. not (same a.name n)) us

-- No two accounts have one name.
abbrev pub Distinct : List Account → Type 0
Distinct [] = Unit {0}
Distinct (a ∷ us) = (find a.name us ≡ none) × Distinct us

-- What the SELECT statement may return.
abbrev pub to_list {ℓ} : {A : Type ℓ} → Option A → List A
to_list none = []
to_list (some a) = a ∷ []

pub filter-none :
    (n : Text) (us : List Account) → find n us ≡ none → filter (has_id n) (map row us) ≡ []
unfolding find filter has_id
filter-none n [] h = refl
filter-none n (a ∷ us) h = ground (arith, filter-none n us)

pub filter-find :
    (n : Text) (us : List Account)
    → Distinct us
    → filter (has_id n) (map row us) ≡ map row (to_list (find n us))
unfolding find filter has_id
filter-find n [] d = refl
filter-find n (a ∷ us) (fresh, d) = elim (Bool-cases (same a.name n)) [
  | inl e ↦ rw e (ap (◌∷◌ (row a)) (filter-none n us (rw ((same_iff a.name n).0 e) at fresh)))
  | inr e ↦ rw e (filter-find n us d)
]

pub filter-remove :
    (n : Text) (us : List Account)
    → filter (λ r. not (has_id n r)) (map row us) ≡ map row (remove n us)
unfolding remove filter has_id
filter-remove n [] = refl
filter-remove n (a ∷ us) = ground (arith, filter-remove n us)

pub find-append :
    (n : Text) (us bs : List Account)
    → find n (us ++ bs) ≡ elim (find n us) [ none ↦ find n bs | some a ↦ some a ]
unfolding find
find-append n [] bs = refl
find-append n (a ∷ us) bs = ground (arith, find-append n us bs)

pub find-remove :
    (n m : Text) (us : List Account) → find m (remove n us) ≡ (if same n m then none else find m us)
unfolding find remove filter
find-remove n m [] = ground arith
find-remove n m (a ∷ us) =
    ground (arith, find-remove n m us, same_iff a.name n, same_iff a.name m, same_iff n m)

pub remove-fresh : (n : Text) (us : List Account) → find n us ≡ none → remove n us ≡ us
unfolding find remove filter
remove-fresh n [] h = refl
remove-fresh n (a ∷ us) h = ground (arith, remove-fresh n us)

pub remove-append :
    (n : Text) (us bs : List Account) → remove n (us ++ bs) ≡ remove n us ++ remove n bs
unfolding remove
remove-append n us bs = filter-append _ us bs

pub remove_self : (a : Account) → remove a.name (a ∷ []) ≡ []
unfolding remove filter
remove_self a = ground (arith, same_refl a.name)

pub remove-Distinct : (n : Text) (us : List Account) → Distinct us → Distinct (remove n us)
unfolding remove filter
remove-Distinct n [] d = tt
remove-Distinct n (a ∷ us) (fresh, d) =
    ground (arith, remove-Distinct n us d, find-remove n a.name us)

pub append-Distinct :
    (a : Account) (us : List Account)
    → find a.name us ≡ none
    → Distinct us
    → Distinct (us ++ (a ∷ []))
unfolding find
append-Distinct a [] h d = (refl, tt)
append-Distinct a (b ∷ us) h (fresh, d) = ground (
  arith,
  append-Distinct a us,
  find-append b.name us (a ∷ []),
  same_iff a.name b.name,
  same_iff b.name a.name,
  same_refl a.name,
)

pub find_self : (a : Account) → find a.name (a ∷ []) ≡ some a
unfolding find
find_self a = ground (arith, same_refl a.name)

pub filter_self :
    (n : Text) (a : Account) → n ≡ a.name → filter (has_id n) (row a ∷ []) ≡ row a ∷ []
unfolding filter has_id
filter_self n a e = ground (arith, same_iff a.name n, e)
