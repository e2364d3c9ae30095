-- ===== src/Server/Interleaving/Growth.antt =====
-- What holds of the exposed sessions, however the steps of the threads mix.
use sepm_group.Prelude.{
  ℕ, ◌≡◌, ◌≢◌, ◌⊎◌, refl, subst, ==_iff, arith, false, sym, ap, ◌∙◌, inl, inr, ◌==◌, Bool-cases,
  List, [], ◌∷◌, ◌++◌, append-nil, append_assoc,
}
use sepm_group.Prelude.Effects.{Result, ok, err}
use sepm_group.Sdc.{Exception}
use sepm_group.Server.Interleaving.{
  Program, ret, raise, act, ◌>>=◌, next, left, System, HasEnded, update, begins, moves, Reach, here,
  later,
}

-- A list that a world shows, the worlds that may come, and the entries that a call may add.
module _ {W X : Type 0} (shown : W → List X) (Seen : W → Type 0) (May : X → Type 0) where
  -- A step adds nothing, or one entry that may be added.
  abbrev pub Adds : W → W → Type 0
  Adds w v = (shown v ≡ shown w) ⊎ ((x : X) × May x × (shown v ≡ shown w ++ (x ∷ [])))

  -- Every step of the program does so, from whatever world it starts.
  abbrev pub IsCareful : {A : Type 0} → (A → Type 0) → Program W A → Type 0
  IsCareful Q (ret a) = Q a
  IsCareful Q (raise e) = Unit {0}
  IsCareful Q (act m k) =
      (w : W) → Seen w → Adds w (m w).1 × ((b : _) → (m w).0 ≡ ok b → IsCareful Q (k b))

  pub IsCareful-bind :
      {A B : Type 0} (Q : A → Type 0) (Q' : B → Type 0) (p : Program W A) (f : A → Program W B)
      → IsCareful Q p
      → ((a : A) → Q a → IsCareful Q' (f a))
      → IsCareful Q' (p >>= f)
  IsCareful-bind Q Q' (ret a) f h g = g a h
  IsCareful-bind Q Q' (raise e) f h g = tt
  IsCareful-bind Q Q' (act m k) f h g =
      λ w seen. ((h w seen).0, λ b e. IsCareful-bind Q Q' (k b) f ((h w seen).1 b e) g)

  left-IsCareful :
      {A B : Type 0} (Q : A → Type 0) (r : Result Exception B) (k : B → Program W A)
      → ((b : B) → r ≡ ok b → IsCareful Q (k b))
      → IsCareful Q (left r k)
  left-IsCareful Q (ok b) k h = h b refl
  left-IsCareful Q (err e) k h = tt

  next-IsCareful :
      {A : Type 0} (Q : A → Type 0) (p : Program W A) (w : W)
      → Seen w
      → IsCareful Q p
      → Adds w (next p w).1 × IsCareful Q (next p w).0
  next-IsCareful Q (ret a) w seen h = (inl refl, h)
  next-IsCareful Q (raise e) w seen h = (inl refl, h)
  next-IsCareful Q (act m k) w seen h = ((h w seen).0, left-IsCareful Q (m w).0 k (h w seen).1)

module _ {W : Type 0} (C : Type 0) (program : C → Program W (Unit {0})) (s : System W) where
  -- The call that the thread has begun last in the run.
  abbrev pub Current : {t : System W} → ℕ → C → Reach C program s t → Type 0
  Current i c here = ⊥
  Current i c (later r (begins j c' ended)) = ((i ≡ j) × (c ≡ c')) ⊎ ((i ≢ j) × Current i c r)
  Current i c (later r (moves j)) = Current i c r

  -- The run has come through this world.
  abbrev pub Passed : {t : System W} → W → Reach C program s t → Type 0
  Passed w here = w ≡ s.world
  Passed w (later {t' = t'} r st) = (w ≡ t'.world) ⊎ Passed w r

  Reach-Passed : {t : System W} (r : Reach C program s t) → Passed t.world r
  Reach-Passed here = refl
  Reach-Passed (later r st) = inl refl

  module _ {X : Type 0} (May : C → X → Type 0) where
    -- The entries of the run: each by a step of a thread whose call may add it, in the order of
    -- the steps.
    abbrev pub Entered : {t : System W} → Reach C program s t → List X → Type 0
    Entered here xs = xs ≡ []
    Entered (later r (begins i c ended)) xs = Entered r xs
    Entered (later r (moves i)) xs =
        Entered r xs
        ⊎ ((ys : List X) × (x : X) × (c : C) × (xs ≡ ys ++ (x ∷ []))
            × Current i c r
            × May c x
            × Entered r ys)

    module _ (shown : W → List X) (Seen : W → Type 0) (idle : (i : ℕ) → HasEnded (s.threads i))
        (careful : (c : C) → IsCareful shown Seen (May c) (λ _. Unit {0}) (program c)) where
      -- The thread has no call, or what is left of its call adds what that call may add.
      abbrev CarefulThread :
          {t : System W} → Reach C program s t → ℕ → Program W (Unit {0}) → Type 0
      CarefulThread r i p =
          HasEnded p ⊎ ((c : C) × Current i c r × IsCareful shown Seen (May c) (λ _. Unit {0}) p)

      differs : (i j : ℕ) → (j == i) ≡ false → j ≢ i
      differs i j e h = let f = (==_iff j i).1 h in ground (arith, e, f)

      begins-CarefulThread :
          {t : System W} (r : Reach C program s t) (i : ℕ) (c : C) (ended : HasEnded (t.threads i))
          → ((j : ℕ) → CarefulThread r j (t.threads j))
          → (j : ℕ) → CarefulThread (later r (begins i c ended)) j (update i (program c) t j)
      begins-CarefulThread {t} r i c ended all j = elim (Bool-cases (j == i)) [
        | inl e ↦ rw e (inr (c, inl ((==_iff j i).0 e, refl), careful c))
        | inr e ↦ rw e (elim (all j) [
          | inl idle_still ↦ inl idle_still
          | inr (c', current, h) ↦ inr (c', inr (differs i j e, current), h)
        ])
      ]

      update-CarefulThread :
          {t : System W} (r : Reach C program s t) (i : ℕ) (p : Program W (Unit {0}))
          → CarefulThread r i p
          → ((j : ℕ) → CarefulThread r j (t.threads j))
          → (j : ℕ) → CarefulThread r j (update i p t j)
      update-CarefulThread r i p h all j = elim (Bool-cases (j == i)) [
        | inl e ↦ rw e (subst (λ k. CarefulThread r k p) (sym ((==_iff j i).0 e)) h)
        | inr e ↦ rw e (all j)
      ]

      ended_next :
          (p : Program W (Unit {0})) (w : W)
          → HasEnded p
          → ((next p w).1 ≡ w) × HasEnded (next p w).0
      ended_next (ret a) w h = (refl, tt)
      ended_next (raise e) w h = (refl, tt)
      ended_next (act m k) w h = absurd h

      -- A step of the thread adds nothing, or what its call may add.
      abbrev Advances : {t : System W} → Reach C program s t → ℕ → W → W → Type 0
      Advances r i w v =
          (shown v ≡ shown w)
          ⊎ ((x : X) × (c : C) × Current i c r × May c x × (shown v ≡ shown w ++ (x ∷ [])))

      advances :
          {t : System W} (r : Reach C program s t) (i : ℕ) (c : C) (w v : W)
          → Current i c r
          → Adds shown Seen (May c) w v
          → Advances r i w v
      advances r i c w v current (inl same) = inl same
      advances r i c w v current (inr (x, m, grown)) = inr (x, c, current, m, grown)

      next-CarefulThread :
          {t : System W} (r : Reach C program s t) (i : ℕ) (p : Program W (Unit {0})) (w : W)
          → Seen w
          → CarefulThread r i p
          → Advances r i w (next p w).1 × CarefulThread r i (next p w).0
      next-CarefulThread r i p w seen (inl ended) =
          let (unchanged, still) = ended_next p w ended in (inl (ap shown unchanged), inl still)
      next-CarefulThread r i p w seen (inr (c, current, h)) =
          let (adds, rest) = next-IsCareful shown Seen (May c) (λ _. Unit {0}) p w seen h in
          (advances r i c w (next p w).1 current adds, inr (c, current, rest))

      abbrev pub Grows : {t : System W} → Reach C program s t → W → Type 0
      Grows r v = (xs : List X) × (shown v ≡ shown s.world ++ xs) × Entered r xs

      moves-Grows :
          {t : System W} (r : Reach C program s t) (i : ℕ)
          → Grows r t.world
          → Advances r i t.world (next (t.threads i) t.world).1
          → Grows (later r (moves i)) (next (t.threads i) t.world).1
      moves-Grows r i (xs, e, h) (inl same) = (xs, same ∙ e, inl h)
      moves-Grows r i (xs, e, h) (inr (x, c, current, m, grown)) = (
        xs ++ (x ∷ []),
        grown ∙ ap (λ (ys : List X). ys ++ (x ∷ [])) e ∙ append_assoc (shown s.world) xs (x ∷ []),
        inr (xs, x, c, refl, current, m, h),
      )

      -- Where every call is careful, the list grows by entries of the threads' calls, however the
      -- steps mix.
      pub Reach-Grows :
          {t : System W} (r : Reach C program s t)
          → ((w : W) → Passed w r → Seen w)
          → Grows r t.world × ((i : ℕ) → CarefulThread r i (t.threads i))
      Reach-Grows here seen = (([], sym (append-nil (shown s.world)), refl), λ i. inl (idle i))
      Reach-Grows (later {t} r (begins i c ended)) seen =
          let (grows, all) = Reach-Grows r (λ w p. seen w (inr p)) in
          (grows, begins-CarefulThread r i c ended all)
      Reach-Grows (later {t} r (moves i)) seen =
          let (grows, all) = Reach-Grows r (λ w p. seen w (inr p)) in
          let (adds, rest) =
            next-CarefulThread r i (t.threads i) t.world (seen t.world (inr (Reach-Passed r)))
              (all i) in
          (moves-Grows r i grows adds, update-CarefulThread r i _ rest all)
