-- ===== src/Server/Interleaving/Columns.antt =====
-- What the steps of the calls do to the rows of the table, and which exceptions end them.
use sepm_group.Prelude.{
  ◌≡◌, ◌≢◌, ◌⊎◌, inl, inr, refl, sym, subst, Bool, Bool-cases, List, true, false, not, Option, none,
  some, Text, same, arith,
}
use sepm_group.Prelude.Effects.{Result, ok, err}
use sepm_group.Sdc.{User, Exception, SdcException, undefined}
use sepm_group.Database.{Soci, Row, IsLawful, OnlySoci}
use sepm_group.Database.Laws.{thrown}
use sepm_group.Database.Complete.{
  IsThere, Complete, IsComplete, delete-IsComplete, selected-Complete,
}
use sepm_group.Server.{World, IceServerI, account_name, is_initialized, throw_if, get}
use sepm_group.Server.Authentication.{column}
use sepm_group.Server.Session.{Self, delete_user}
use sepm_group.Server.Session.Requests.{Request, Response, deletes_user, handle}
use sepm_group.Server.Throws.{OnlyIce, only_ice, Declared}
use sepm_group.Server.Interleaving.Calls.{answered}

-- Undefined behaviour is no outcome.
abbrev pub Fine : Exception → Type 0
Fine e = e ≢ undefined

pub soci-Fine :
    {A : Type 0} (r : Result Exception A) (e : Exception) → OnlySoci r → r ≡ err e → Fine e
soci-Fine r e t h = let (what, x) = thrown r e t h in λ u. ground (arith, x, u)

pub ice-Fine :
    {A : Type 0} (r : Result Exception A) (e : Exception) → OnlyIce r → r ≡ err e → Fine e
ice-Fine r e t h = let (what, x) = only_ice r e t h in λ u. ground (arith, x, u)

pub present : (o : Option Text) → IsThere o → (t : Text) × (o ≡ some t)
present none h = absurd h
present (some t) h = (t, refl)

-- What a SELECT returned is complete, if it is a row.
abbrev pub Found : Option Row → Type 0
Found none = Unit {0}
Found (some r) = Complete r

-- A row that was found has a password and a key.
pub columns :
    (o : Option Row)
    → Found o
    → not (is_initialized (column (λ r. r.id) o)) ≡ false
    → ((pw : Text) × (column (λ r. r.pw) o ≡ some pw))
      × ((key : Text) × (column (λ r. r.pubkey) o ≡ some key))
columns none h found = absurd (ground (arith, found))
columns (some r) (_, pw, key) found = (present r.pw pw, present r.pubkey key)

module _ (S : Soci) (I : IceServerI) (L : IsLawful S) where
  abbrev pub Inv : World S I → Type 0
  Inv w = IsComplete S L w.db

  pub throw_if-Fine :
      (b : Bool) (d : SdcException) (what : Text) (w : World S I) (e : Exception)
      → (throw_if b d what w).0 ≡ err e
      → Fine e
  throw_if-Fine true d what w e h = λ u. ground (arith, h, u)
  throw_if-Fine false d what w e h = λ u. ground (arith, h)

  pub get-Fine :
      (o : Option Text) (w : World S I) (e : Exception) {t : Text}
      → o ≡ some t
      → (get o w).0 ≡ err e
      → Fine e
  get-Fine none w e p h = λ u. ground (arith, p)
  get-Fine (some t) w e p h = λ u. ground (arith, h)

  pub found :
      (d : S.Db) (n : Text) (o : Option Row)
      → IsComplete S L d
      → (S.select_user n d).0 ≡ ok o
      → Found o
  found d n none h e = tt
  found d n (some r) h e = selected-Complete S L d n r h e

  pub deleted-db :
      (u : User) (s : Self S I)
      → ((handle S I (deletes_user u) s).1.world.db ≡ s.world.db)
        ⊎ ((handle S I (deletes_user u) s).1.world.db
            ≡ (S.delete_user (account_name u.id) s.world.db).1)
  unfolding handle delete_user
  deleted-db u s = elim (Bool-cases (same u.id s.this.user.id)) [
    | inr other ↦ inl (ground (arith, other))
    | inl own ↦ inr (ground (arith, own))
  ]

  pub handled-db :
      (q : Request) (s : Self S I)
      → IsComplete S L s.world.db
      → IsComplete S L (handle S I q s).1.world.db
  unfolding handle
  handled-db (deletes_user u) s h = elim (deleted-db u s) [
    | inl e ↦ subst (IsComplete S L) (sym e) h
    | inr e ↦ subst (IsComplete S L) (sym e) (delete-IsComplete S L s.world.db _ h)
  ]
  handled-db _ s h = h

  pub answered-Fine :
      (ds : List SdcException) (r : Result Exception Response) (e : Exception)
      → ((x : Exception) → r ≡ err x → Declared ds x)
      → answered S I r ≡ err e
      → Fine e
  answered-Fine ds (ok a) e h f = λ u. ground (arith, f)
  answered-Fine ds (err x) e h f =
      let (_, d, what, _, _, p) = h x refl in λ u. ground (arith, p, f, u)
