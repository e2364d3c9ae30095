-- ===== src/Server/Interleaving.antt =====
-- Calls that run at once, as the three threads of the Ice server run them: each is a program of
-- steps, every one of which acts on the shared world on its own.
pub mod Calls
pub mod Growth
pub mod Vouching
pub mod Alone
pub mod Racing
pub mod Safety
pub mod Defined
pub mod Columns
use sepm_group.Prelude.{ℕ, ◌≡◌, refl, ◌==◌, if◌then◌else◌}
use sepm_group.Prelude.Effects.{Eff, Result, ok, err, bind_result}
use sepm_group.Sdc.{Exception}

pub data Program (W : Type 0) (A : Type 0) : Type 1 where
  ret : A → Program W A
  raise : Exception → Program W A
  -- A step, and what the thread does with its result.
  act : {B : Type 0} → Eff W Exception B → (B → Program W A) → Program W A

module _ {W : Type 0} where
  abbrev pub lift : {A : Type 0} → Eff W Exception A → Program W A
  lift m = act m ret

  infixl 5 ◌>>=◌ ◌>>◌
  abbrev pub ◌>>=◌ : {A B : Type 0} → Program W A → (A → Program W B) → Program W B
  ret a >>= f = f a
  raise e >>= f = raise e
  act m k >>= f = act m (λ b. k b >>= f)

  abbrev pub ◌>>◌ : {A B : Type 0} → Program W A → Program W B → Program W B
  p >> q = p >>= λ _. q

  -- A program with no other thread between its steps.
  abbrev pub run : {A : Type 0} → Program W A → Eff W Exception A
  run (ret a) w = (ok a, w)
  run (raise e) w = (err e, w)
  run (act m k) w = bind_result (m w) (λ b. run (k b))

  -- What is left of a thread after a step.
  abbrev pub left : {A B : Type 0} → Result Exception B → (B → Program W A) → Program W A
  left (ok b) k = k b
  left (err e) k = raise e

  abbrev pub next : {A : Type 0} → Program W A → W → Program W A × W
  next (ret a) w = (ret a, w)
  next (raise e) w = (raise e, w)
  next (act m k) w = (left (m w).0 k, (m w).1)

-- The world, and what is left of the call of each thread.
pub record System (W : Type 0) : Type 1 where
  pub world : W
  pub threads : ℕ → Program W (Unit {0})

abbrev pub update : {W : Type 0} → ℕ → Program W (Unit {0}) → System W → ℕ → Program W (Unit {0})
update i p s j = if j == i then p else s.threads j

abbrev pub HasEnded : {W A : Type 0} → Program W A → Type 0
HasEnded (act m k) = ⊥
HasEnded _ = Unit {0}

-- A thread without a call begins one of these calls, or a thread makes a step of its call.
pub data Step {W : Type 0} (C : Type 0) (program : C → Program W (Unit {0})) (s : System W)
    : System W → Type 1 where
  begins :
      (i : ℕ) (c : C)
      → HasEnded (s.threads i)
      → Step C program s (record s { threads = update i (program c) s })
  moves :
      (i : ℕ)
      → Step C program s (record {
        world = (next (s.threads i) s.world).1;
        threads = update i (next (s.threads i) s.world).0 s;
      })

pub data Reach {W : Type 0} (C : Type 0) (program : C → Program W (Unit {0})) (s : System W)
    : System W → Type 1 where
  here : Reach C program s s
  later : {t t' : System W} → Reach C program s t → Step C program t t' → Reach C program s t'
