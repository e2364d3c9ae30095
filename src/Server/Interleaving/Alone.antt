-- ===== src/Server/Interleaving/Alone.antt =====
-- A thread that makes some of its steps while the others wait.
use sepm_group.Prelude.{ℕ, ◌≡◌, refl, sym, ap, ◌∙◌, ◌==◌, ==_iff, false}
use mathlib.Core.Path.{fun_ext}
use sepm_group.Prelude.Effects.{Result, ok, err, bind_result}
use sepm_group.Sdc.{Exception}
use sepm_group.Server.Interleaving.{
  Program, ret, raise, act, ◌>>=◌, run, next, left, System, update, moves, Reach, later,
}

module _ {W : Type 0} where
  pub update_same : (i : ℕ) (p : Program W (Unit {0})) (t : System W) → update i p t i ≡ p
  update_same i p t = rw ((==_iff i i).1 refl) refl

  update_other :
      (i j : ℕ) (p : Program W (Unit {0})) (t : System W)
      → (j == i) ≡ false
      → update i p t j ≡ t.threads j
  update_other i j p t h = rw h refl

  module _ (C : Type 0) (program : C → Program W (Unit {0})) (s : System W) where
    -- From `t`, thread `i` has come to `q` in the world `v`, and the others are where they were.
    pub record Comes (i : ℕ) (t : System W) (v : W) (q : Program W (Unit {0})) : Type 1 where
      pub after : System W
      pub reach : Reach C program s after
      pub world : after.world ≡ v
      pub thread : after.threads i ≡ q
      pub others : (j : ℕ) → (j == i) ≡ false → after.threads j ≡ t.threads j

    pub run_alone :
        {A : Type 0} (p : Program W A) (f : A → Program W (Unit {0})) (i : ℕ) (t : System W)
        (o : Result Exception A) (v : W)
        → Reach C program s t
        → t.threads i ≡ p >>= f
        → run p t.world ≡ (o, v)
        → Comes i t v (left o f)
    run_alone (ret a) f i t o v r e h = record {
      after = t;
      reach = r;
      world = ap (λ o. o.1) h;
      thread = e ∙ ap (λ o. left o.0 f) h;
      others = λ j _. refl;
    }
    run_alone (raise x) f i t o v r e h = record {
      after = t;
      reach = r;
      world = ap (λ o. o.1) h;
      thread = e ∙ ap (λ o. left o.0 f) h;
      others = λ j _. refl;
    }
    run_alone {A} (act {B} m k) f i t o v r e h =
        let come =
          stepped (λ b. run_alone (k b) f i t' o v (later r (moves i))) (m t.world).0 refl in
        record {
          after = come.after;
          reach = come.reach;
          world = come.world;
          thread = come.thread;
          others = λ j n. come.others j n ∙ update_other i j (next (t.threads i) t.world).0 t n;
        }
      where
        t' : System W
        t' = record {
          world = (next (t.threads i) t.world).1;
          threads = update i (next (t.threads i) t.world).0 t;
        }

        resumed : Result Exception B → Result Exception A × W
        resumed b = bind_result (b, (m t.world).1) (λ b. run (k b))

        moved : t'.world ≡ (m t.world).1
        moved = ap (λ p. (next p t.world).1) e

        rest : (b : Result Exception B) → (m t.world).0 ≡ b → t'.threads i ≡ left b (λ b. k b >>= f)
        rest b g =
            update_same i (next (t.threads i) t.world).0 t
            ∙ ap (λ p. (next p t.world).0) e
            ∙ ap (λ b. left b (λ b. k b >>= f)) g

        stepped :
            ((b : B)
              → t'.threads i ≡ k b >>= f
              → run (k b) t'.world ≡ (o, v)
              → Comes i t' v (left o f))
            → (b : Result Exception B) → (m t.world).0 ≡ b
            → Comes i t' v (left o f)
        stepped go (ok b) g = go b (rest (ok b) g) (ap (run (k b)) moved ∙ sym (ap resumed g) ∙ h)
        stepped go (err x) g = record {
          after = t';
          reach = later r (moves i);
          world = moved ∙ ap (λ o. o.1) (sym (ap resumed g) ∙ h);
          thread = rest (err x) g ∙ ap (λ o. left o.0 f) (sym (ap resumed g) ∙ h);
          others = λ j _. refl;
        }

  pub bind_ret : {A : Type 0} (p : Program W A) → p >>= ret ≡ p
  bind_ret (ret a) = refl
  bind_ret (raise x) = refl
  bind_ret (act m k) = ap (act m) (fun_ext (λ b. bind_ret (k b)))
