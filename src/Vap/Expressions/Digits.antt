-- ===== src/Vap/Expressions/Digits.antt =====
-- pages/VAPPage.tsx: decimal digits that are written, as the readers of expressions see them.
use k8s_sentinel.Base.{
  leb→le, and-eq_true, Text, ℕ, zero, suc, ◌+◌, ◌/◌, ◌%◌, ◌<◌, leb, is_digit, is_space, is_empty,
  all, number_from, decimal, decimal_fuel, trim_end, trim_start, Bool-cases, true, false, [], ◌∷◌,
  ◌≡◌, refl, ◌∙◌, ap, arith, inl, inr,
}
use k8s_sentinel.Vap.Expressions.{squeeze}

number_from-decimal_fuel :
    (k n : ℕ) (out : Text) → n < k → number_from 0 (decimal_fuel k n out) ≡ number_from n out
unfolding decimal_fuel number_from
number_from-decimal_fuel zero n out h = absurd (omega arith)
number_from-decimal_fuel (suc k) n out h = elim (Bool-cases (leb n 9)) [
  | inl small ↦ rw small (ap (λ m. number_from m out) (omega arith))
  | inr large ↦ rw large (
      number_from-decimal_fuel k (n / 10) ((n % 10 + 48) ∷ out) (ground arith)
      ∙ ap (λ m. number_from m out) (omega arith))
]

pub number_from-decimal : (n : ℕ) → number_from 0 (decimal n) ≡ n
unfolding decimal number_from
number_from-decimal n = number_from-decimal_fuel (suc n) n [] (omega arith)

small_digit : (n : ℕ) → leb n 9 ≡ true → is_digit (n + 48) ≡ true
small_digit n h = ground (arith, leb→le n 9 h)

last_digit : (n : ℕ) → is_digit (n % 10 + 48) ≡ true
last_digit n = ground arith

digits-decimal_fuel :
    (k n : ℕ) (out : Text)
    → n < k
    → all is_digit out ≡ true
    → all is_digit (decimal_fuel k n out) ≡ true
unfolding decimal_fuel
digits-decimal_fuel zero n out h d = absurd (omega arith)
digits-decimal_fuel (suc k) n out h d = elim (Bool-cases (leb n 9)) [
  | inl small ↦ rw (small, small_digit n small) d
  | inr large ↦
      rw large
        (digits-decimal_fuel k (n / 10) ((n % 10 + 48) ∷ out) (ground arith) (rw (last_digit n) d))
]

pub digits-decimal : (n : ℕ) → all is_digit (decimal n) ≡ true
unfolding decimal
digits-decimal n = digits-decimal_fuel (suc n) n [] (omega arith) refl

filled-decimal_fuel : (k n : ℕ) (out : Text) → n < k → is_empty (decimal_fuel k n out) ≡ false
unfolding decimal_fuel
filled-decimal_fuel zero n out h = absurd (omega arith)
filled-decimal_fuel (suc k) n out h = elim (Bool-cases (leb n 9)) [
  | inl small ↦ rw small refl
  | inr large ↦ rw large (filled-decimal_fuel k (n / 10) ((n % 10 + 48) ∷ out) (ground arith))
]

pub filled-decimal : (n : ℕ) → is_empty (decimal n) ≡ false
unfolding decimal
filled-decimal n = filled-decimal_fuel (suc n) n [] (omega arith)

pub digit-space : (c : ℕ) → is_digit c ≡ true → is_space c ≡ false
unfolding is_space
digit-space c h = ground arith

pub squeeze-digits : (s : Text) → all is_digit s ≡ true → squeeze s ≡ s
unfolding squeeze
squeeze-digits [] h = refl
squeeze-digits (c ∷ s) h =
    rw (digit-space c (and-eq_true (is_digit c) _ h).0)
      (ap (λ t. c ∷ t) (squeeze-digits s (and-eq_true (is_digit c) _ h).1))

pub trim_end-digits : (s : Text) → all is_digit s ≡ true → trim_end s ≡ s
unfolding trim_end
trim_end-digits [] h = refl
trim_end-digits (c ∷ s) h = ground (
  arith,
  trim_end-digits s (and-eq_true (is_digit c) _ h).1,
  digit-space c (and-eq_true (is_digit c) _ h).0,
)

pub trim_start-digits : (s : Text) → all is_digit s ≡ true → trim_start s ≡ s
unfolding trim_start
trim_start-digits [] h = refl
trim_start-digits (c ∷ s) h = rw (digit-space c (and-eq_true (is_digit c) _ h).0) refl
