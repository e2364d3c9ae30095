-- ===== src/Server/Interleaving/Safety.antt =====
-- Invariants of the world that every step of every thread keeps, and the exceptions that may end a call.
use sepm_group.Prelude.{ℕ, ◌≡◌, refl, sym, subst, inl, inr, ◌==◌, Bool-cases}
use sepm_group.Prelude.Effects.{Result, ok, err}
use sepm_group.Sdc.{Exception}
use sepm_group.Server.Interleaving.{
  Program, ret, raise, act, ◌>>=◌, next, left, System, update, begins, moves, Reach, here, later,
}

module _ {W : Type 0} (Inv : W → Type 0) (Fine : Exception → Type 0) where
  -- Whatever world of the invariant a step finds, it leaves one, and throws only what is fine.
  abbrev pub IsSafe : {A : Type 0} → Program W A → Type 0
  IsSafe (ret a) = Unit {0}
  IsSafe (raise e) = Fine e
  IsSafe (act m k) =
      (w : W)
      → Inv w
      → Inv (m w).1
        × ((b : _) → (m w).0 ≡ ok b → IsSafe (k b))
        × ((e : Exception) → (m w).0 ≡ err e → Fine e)

  pub IsSafe-bind :
      {A B : Type 0} (p : Program W A) (f : A → Program W B)
      → IsSafe p
      → ((a : A) → IsSafe (f a))
      → IsSafe (p >>= f)
  IsSafe-bind (ret a) f h g = g a
  IsSafe-bind (raise e) f h g = h
  IsSafe-bind (act m k) f h g =
      λ w i. ((h w i).0, λ b e. IsSafe-bind (k b) f ((h w i).1 b e) g, (h w i).2)

  left-IsSafe :
      {A B : Type 0} (r : Result Exception B) (k : B → Program W A)
      → ((b : B) → r ≡ ok b → IsSafe (k b))
      → ((e : Exception) → r ≡ err e → Fine e)
      → IsSafe (left r k)
  left-IsSafe (ok b) k h g = h b refl
  left-IsSafe (err e) k h g = g e refl

  next-IsSafe :
      {A : Type 0} (p : Program W A) (w : W)
      → Inv w
      → IsSafe p
      → Inv (next p w).1 × IsSafe (next p w).0
  next-IsSafe (ret a) w i h = (i, h)
  next-IsSafe (raise e) w i h = (i, h)
  next-IsSafe (act m k) w i h = ((h w i).0, left-IsSafe (m w).0 k (h w i).1 (h w i).2)

  update-IsSafe :
      (i : ℕ) (p : Program W (Unit {0})) (s : System W)
      → IsSafe p
      → ((j : ℕ) → IsSafe (s.threads j))
      → (j : ℕ) → IsSafe (update i p s j)
  update-IsSafe i p s h hs j = elim (Bool-cases (j == i)) [ inl e ↦ rw e h | inr e ↦ rw e (hs j) ]

  module _ (C : Type 0) (program : C → Program W (Unit {0})) (s : System W)
      (idle : (i : ℕ) → s.threads i ≡ ret tt) (safe : (c : C) → IsSafe (program c))
      (inv : Inv s.world) where
    -- Where every call is safe, every world on the way is one of the invariant, and what is left of a
    -- call is safe.
    pub Reach-IsSafe :
        {t : System W} → Reach C program s t → Inv t.world × ((i : ℕ) → IsSafe (t.threads i))
    Reach-IsSafe here = (inv, λ i. subst IsSafe (sym (idle i)) tt)
    Reach-IsSafe (later {t} r (begins i c ended)) =
        let (kept, all) = Reach-IsSafe r in (kept, update-IsSafe i (program c) t (safe c) all)
    Reach-IsSafe (later {t} r (moves i)) =
        let (kept, all) = Reach-IsSafe r in
        let (after, rest) = next-IsSafe (t.threads i) t.world kept (all i) in
        (after, update-IsSafe i _ t rest all)
