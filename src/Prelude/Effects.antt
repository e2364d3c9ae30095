-- ===== src/Prelude/Effects.antt =====
-- Results, and computations that change a state and may end by an exception. A computation that
-- throws keeps what it has changed before.

use mathlib.Core.Path.{◌≡◌, refl}
use mathlib.Core.Logic.{◌⊎◌, inl, inr}

pub data Result {ℓ κ} (E : Type ℓ) (A : Type κ) : Type (ℓ ⊔ κ) where
  ok : A → Result E A
  err : E → Result E A

module _ {ℓ κ ι} (S : Type ℓ) (E : Type κ) (A : Type ι) where
  abbrev pub Eff : Type (ℓ ⊔ κ ⊔ ι)
  Eff = S → Result E A × S

module _ {ℓ κ} {S : Type ℓ} {E : Type κ} where
  abbrev pub pure {ι} : {A : Type ι} → A → Eff S E A
  pure a s = (ok a, s)

  abbrev pub throw {ι} : {A : Type ι} → E → Eff S E A
  throw e s = (err e, s)

  abbrev pub modify : (S → S) → Eff S E (Unit {0})
  modify f s = (ok tt, f s)

  abbrev pub bind_result {ι υ} :
      {A : Type ι} {B : Type υ} → Result E A × S → (A → Eff S E B) → Result E B × S
  bind_result (ok a, s) f = f a s
  bind_result (err e, s) f = (err e, s)

  infixl 5 ◌>>=◌ ◌>>◌
  abbrev pub ◌>>=◌ {ι υ} : {A : Type ι} {B : Type υ} → Eff S E A → (A → Eff S E B) → Eff S E B
  ◌>>=◌ m f s = bind_result (m s) f

  abbrev pub ◌>>◌ {ι υ} : {A : Type ι} {B : Type υ} → Eff S E A → Eff S E B → Eff S E B
  ◌>>◌ m k s = bind_result (m s) (λ _. k)

pub Result-cases {ℓ κ} :
    {E : Type ℓ} {A : Type κ} (r : Result E A) → ((a : A) × (r ≡ ok a)) ⊎ ((e : E) × (r ≡ err e))
Result-cases (ok a) = inl (a, refl)
Result-cases (err e) = inr (e, refl)

module _ {ℓ κ ι υ φ} {S : Type ℓ} {E : Type κ} {A : Type ι} {B : Type υ} where
  split_result :
      (P : Result E B × S → Type φ) (r : Result E A) (s : S) (f : A → Eff S E B)
      → ((a : A) → r ≡ ok a → P (f a s))
      → ((e : E) → r ≡ err e → P (err e, s))
      → P (bind_result (r, s) f)
  split_result P (ok a) s f returned thrown = returned a refl
  split_result P (err e) s f returned thrown = thrown e refl

  -- To prove something of the outcome of `m >>= f`: either `m` returns and `f` goes on, or it throws.
  pub bind_cases :
      (P : Result E B × S → Type φ) (m : Eff S E A) (f : A → Eff S E B) (s : S)
      → ((a : A) → (m s).0 ≡ ok a → P (f a (m s).1))
      → ((e : E) → (m s).0 ≡ err e → P (err e, (m s).1))
      → P ((m >>= f) s)
  bind_cases P m f s = split_result P (m s).0 (m s).1 f
