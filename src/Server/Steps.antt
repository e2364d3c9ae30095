-- ===== src/Server/Steps.antt =====
-- The tests of the servants as steps: what they leave alone, and what is known when they pass.
use sepm_group.Prelude.{
  ◌≡◌, refl, Bool, true, false, not, Option, none, some, Text, same, same_iff, arith,
}
use sepm_group.Prelude.Effects.{ok}
use sepm_group.Sdc.{SdcException}
use sepm_group.Database.{Soci, Row}
use sepm_group.Server.{World, IceServerI, throw_if, get}
use sepm_group.Server.Authentication.{column}

-- The row that a SELECT returned has the column.
pub column-some :
    (c : Row → Option Text) (o : Option Row) {t : Text}
    → column c o ≡ some t
    → (r : Row) × (o ≡ some r) × (c r ≡ some t)
column-some c none h = absurd (ground (arith, h))
column-some c (some r) h = (r, refl, h)

pub same-not : (t t' : Text) → not (same t t') ≡ false → t ≡ t'
same-not t t' h = ground (arith, h, same_iff t t')

module _ (S : Soci) (I : IceServerI) where
  pub throw_if-same :
      (b : Bool) (e : SdcException) (what : Text) (w : World S I) → (throw_if b e what w).1 ≡ w
  throw_if-same true e what w = refl
  throw_if-same false e what w = refl

  pub throw_if-ok :
      (b : Bool) (e : SdcException) (what : Text) (w : World S I) {r : Unit {0}}
      → (throw_if b e what w).0 ≡ ok r
      → b ≡ false
  throw_if-ok true e what w h = absurd (ground (arith, h))
  throw_if-ok false e what w h = refl

  pub get-same : (o : Option Text) (w : World S I) → (get o w).1 ≡ w
  get-same none w = refl
  get-same (some t) w = refl

  pub get-ok : (o : Option Text) (w : World S I) {t : Text} → (get o w).0 ≡ ok t → o ≡ some t
  get-ok none w h = absurd (ground (arith, h))
  get-ok (some t) w h = ground (arith, h)
