-- ===== src/Logging/Numbers.antt =====
-- Decimal numbers: what `std::to_string` writes can be read back.
use sepm_group.Prelude.{
  ℕ, zero, suc, ◌+◌, ◌*◌, ◌-◌, ◌/◌, ◌%◌, ◌<◌, ◌≤◌, ◌≡◌, refl, sym, ap, ◌∙◌, [], ◌∷◌, ◌++◌, Text,
  ltb, Bool-cases, inl, inr, arith,
}
use sepm_group.Logging.{digits, to_string}

-- The number that some digits write after those that write `n`.
unfoldable pub number_after : ℕ → Text → ℕ
number_after n [] = n
number_after n (c ∷ t) = number_after (n * 10 + (c - 48)) t

number_after-snoc :
    (n : ℕ) (t : Text) (c : ℕ) → number_after n (t ++ (c ∷ [])) ≡ number_after n t * 10 + (c - 48)
unfolding number_after
number_after-snoc n [] c = refl
number_after-snoc n (d ∷ t) c = number_after-snoc (n * 10 + (d - 48)) t c

number_after-digits : (fuel n : ℕ) → n < fuel → number_after 0 (digits fuel n) ≡ n
unfolding number_after digits
number_after-digits zero n h = absurd (omega (arith, h))
number_after-digits (suc fuel) n h = elim (Bool-cases (ltb n 10)) [
  | inl e ↦ rw e (omega arith)
  | inr e ↦ rw e (
      let large : 10 ≤ n = ground (arith, e) in
      let front = number_after-digits fuel (n / 10) (omega (arith, h, large)) in
      let whole = number_after-snoc 0 (digits fuel (n / 10)) (48 + n % 10) in
      omega (arith, front, whole))
]

-- What is written of a number reads as the number.
pub number_after-to_string : (n : ℕ) → number_after 0 (to_string n) ≡ n
unfolding to_string
number_after-to_string n = number_after-digits (suc n) n (omega arith)

pub to_string-injective : (m n : ℕ) → to_string m ≡ to_string n → m ≡ n
to_string-injective m n h =
    sym (number_after-to_string m) ∙ ap (number_after 0) h ∙ number_after-to_string n
