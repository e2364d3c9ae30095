-- ===== src/Database/Complete.antt =====
-- Rows without NULL: the statements of the program make no others.
use sepm_group.Prelude.{
  ◌≡◌, sym, subst, Bool, Bool-cases, inl, inr, not, Option, none, some, List, [], ◌∷◌, ◌++◌, Text,
  filter,
}
use sepm_group.Prelude.Effects.{Result, ok, err}
use sepm_group.Sdc.{Exception}
use sepm_group.Database.{Soci, Row, IsLawful, has_id, rows_after}

abbrev pub IsThere : Option Text → Type 0
IsThere none = ⊥
IsThere (some t) = Unit {0}

abbrev pub Complete : Row → Type 0
Complete r = IsThere r.id × IsThere r.pw × IsThere r.pubkey

abbrev pub AllComplete : List Row → Type 0
AllComplete [] = Unit {0}
AllComplete (r ∷ rs) = Complete r × AllComplete rs

append-AllComplete :
    (rs rs' : List Row) → AllComplete rs → AllComplete rs' → AllComplete (rs ++ rs')
append-AllComplete [] rs' h h' = h'
append-AllComplete (r ∷ rs) rs' (c, h) h' = (c, append-AllComplete rs rs' h h')

filter-AllComplete : (p : Row → Bool) (rs : List Row) → AllComplete rs → AllComplete (filter p rs)
unfolding filter
filter-AllComplete p [] h = tt
filter-AllComplete p (r ∷ rs) (c, h) = elim (Bool-cases (p r)) [
  | inl e ↦ rw e (c, filter-AllComplete p rs h)
  | inr e ↦ rw e (filter-AllComplete p rs h)
]

middle-Complete :
    (before : List Row) (r : Row) (after : List Row)
    → AllComplete (before ++ (r ∷ after))
    → Complete r
middle-Complete [] r after (c, h) = c
middle-Complete (x ∷ before) r after (c, h) = middle-Complete before r after h

rows_after-AllComplete :
    (r : Result Exception (Unit {0})) (before after : List Row)
    → AllComplete before
    → AllComplete after
    → AllComplete (rows_after r before after)
rows_after-AllComplete (ok _) before after h h' = h'
rows_after-AllComplete (err _) before after h h' = h

module _ (S : Soci) (L : IsLawful S) where
  abbrev pub IsComplete : S.Db → Type 0
  IsComplete d = AllComplete (S.rows d)

  pub create-IsComplete : (d : S.Db) → IsComplete d → IsComplete (S.create_users d).1
  create-IsComplete d h = subst AllComplete (sym (L.rows-create d)) h

  pub select-IsComplete : (d : S.Db) (n : Text) → IsComplete d → IsComplete (S.select_user n d).1
  select-IsComplete d n h = subst AllComplete (sym (L.rows-select d n)) h

  pub insert-IsComplete :
      (d : S.Db) (n p k : Text) → IsComplete d → IsComplete (S.insert_user n p k d).1
  insert-IsComplete d n p k h = subst AllComplete (sym (L.rows-insert d n p k)) (
      rows_after-AllComplete (S.insert_user n p k d).0 (S.rows d) _ h
        (append-AllComplete (S.rows d) _ h ((tt, tt, tt), tt)))

  pub delete-IsComplete : (d : S.Db) (n : Text) → IsComplete d → IsComplete (S.delete_user n d).1
  delete-IsComplete d n h = subst AllComplete (sym (L.rows-delete d n)) (
      rows_after-AllComplete (S.delete_user n d).0 (S.rows d) _ h
        (filter-AllComplete (λ r. not (has_id n r)) (S.rows d) h))

  -- The row that a SELECT returns is complete.
  pub selected-Complete :
      (d : S.Db) (n : Text) (r : Row)
      → IsComplete d
      → (S.select_user n d).0 ≡ ok (some r)
      → Complete r
  selected-Complete d n r h e =
      let (before, after, found) = L.select-some d n r e in
      middle-Complete before r after
        (subst AllComplete found (filter-AllComplete (has_id n) (S.rows d) h))
