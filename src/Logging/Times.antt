-- ===== src/Logging/Times.antt =====
-- The times in the lines of the log.
use sepm_group.Prelude.{
  ℕ, zero, suc, ◌+◌, ◌/◌, ◌%◌, ◌≤◌, ◌<◌, ◌≡◌, refl, subst, [], ◌∷◌, ◌++◌, Text, length,
  length-append, ltb, Bool-cases, inl, inr, arith,
}
use sepm_group.Logging.{Tm, two_digits, time_str, to_string, digits}

-- What `localtime` gives before the year 10000; there may be a leap second.
pub record IsTime (t : Tm) : Type 0 where
  pub year : t.tm_year < 8100
  pub month : t.tm_mon < 12
  pub day : t.tm_mday ≤ 31
  pub hour : t.tm_hour < 24
  pub minute : t.tm_min < 60
  pub second : t.tm_sec ≤ 60

length-digits_one : (fuel n : ℕ) → n < 10 → length (digits (suc fuel) n) ≡ 1
unfolding digits
length-digits_one fuel n small = ground (arith, small)

length-digits_more :
    (fuel n : ℕ) → 10 ≤ n → length (digits (suc fuel) n) ≡ suc (length (digits fuel (n / 10)))
unfolding digits
length-digits_more fuel n large = elim (Bool-cases (ltb n 10)) [
  | inl e ↦ absurd (ground (arith, e, large))
  | inr e ↦
      rw e (
        let both = length-append (digits fuel (n / 10)) ((48 + n % 10) ∷ []) in omega (arith, both))
]

length-digits_four :
    (fuel n : ℕ) → 1000 ≤ n → n < 10000 → length (digits (suc (suc (suc (suc fuel)))) n) ≡ 4
length-digits_four fuel n large small =
    let a = length-digits_more (suc (suc (suc fuel))) n (omega (arith, large)) in
    let b = length-digits_more (suc (suc fuel)) (n / 10) (omega (arith, large)) in
    let c = length-digits_more (suc fuel) (n / 10 / 10) (omega (arith, large)) in
    let d = length-digits_one fuel (n / 10 / 10 / 10) (omega (arith, small)) in
    omega (arith, a, b, c, d)

length-two_digits : (n : ℕ) → n < 100 → length (two_digits n) ≡ 2
unfolding to_string
length-two_digits zero small = refl
length-two_digits (suc m) small = elim (Bool-cases (ltb (suc m) 10)) [
  | inl e ↦ rw e refl
  | inr e ↦ rw e (
      let a = length-digits_more (suc m) (suc m) (ground (arith, e)) in
      let b = length-digits_one m (suc m / 10) (omega (arith, small)) in omega (arith, a, b))
]

length-year : (y : ℕ) → y < 8100 → length (to_string (1900 + y)) ≡ 4
unfolding to_string
length-year y small =
    subst (λ fuel. length (digits fuel (1900 + y)) ≡ 4) (omega arith)
      (length-digits_four (1897 + y) (1900 + y) (omega arith) (omega (arith, small)))

length-joined :
    (x : Text) (c : ℕ) (y : Text) (m n : ℕ)
    → length x ≡ m
    → length y ≡ n
    → length (x ++ (c ∷ y)) ≡ suc (m + n)
length-joined x c y m n e f = omega (arith, length-append x (c ∷ y), e, f)

-- A time before the year 10000 is written in 19 characters, so that it fits the buffer of 80 with the
-- zero that ends it.
pub length-time_str : (t : Tm) → IsTime t → (length (time_str t) ≡ 19) × (length (time_str t) < 80)
length-time_str t h =
    let second = length-two_digits t.tm_sec (omega (arith, h.second)) in
    let minute =
      length-joined _ 46 _ 2 2 (length-two_digits t.tm_min (omega (arith, h.minute))) second in
    let hour =
      length-joined _ 58 _ 2 5 (length-two_digits t.tm_hour (omega (arith, h.hour))) minute in
    let day = length-joined _ 32 _ 2 8 (length-two_digits t.tm_mday (omega (arith, h.day))) hour in
    let month =
      length-joined _ 45 _ 2 11 (length-two_digits (suc t.tm_mon) (omega (arith, h.month))) day in
    let year = length-joined _ 45 _ 4 14 (length-year t.tm_year h.year) month in
    (year, omega (arith, year))
