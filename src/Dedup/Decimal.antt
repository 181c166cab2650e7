-- ===== src/Dedup/Decimal.antt =====
-- Decimal text and back.
use log_bridge.Base.{
  ℕ, zero, suc, ◌+◌, ◌-◌, ◌*◌, ◌/◌, ◌%◌, ◌^◌, ◌<◌, ◌≤◌, ◌≡◌, refl, ap, ◌∙◌, arith, ltb, ◌==◌, true,
  false, Bool-cases, [], ◌∷◌, ◌++◌, length, length-append, All, All-append, some, inl, inr,
}
use log_bridge.Message.{Bytes}
use log_bridge.Dedup.Text.{digits, decimal}
use log_bridge.Dedup.Load.{is_digit, take_digits, take_unsigned, take_number}

abbrev pub IsDigit : ℕ → Type 0
IsDigit b = (48 ≤ b) × (b ≤ 57)

pub IsDigit-is_digit : (b : ℕ) → IsDigit b → is_digit b ≡ true
IsDigit-is_digit b h = ground (arith, h.0, h.1)

-- The value of digits behind a value.
abbrev pub value_of : ℕ → Bytes → ℕ
value_of value [] = value
value_of value (b ∷ rest) = value_of (value * 10 + (b - 48)) rest

value_of-snoc :
    (value : ℕ) (ds : Bytes) (b : ℕ)
    → value_of value (ds ++ b ∷ []) ≡ value_of value ds * 10 + (b - 48)
value_of-snoc value [] b = refl
value_of-snoc value (d ∷ ds) b = value_of-snoc (value * 10 + (d - 48)) ds b

-- Digits in front of something else.
take_digits-append :
    (value : ℕ) (ds : Bytes) (b : ℕ) (rest : Bytes)
    → All IsDigit ds
    → is_digit b ≡ false
    → take_digits value (ds ++ b ∷ rest) ≡ (value_of value ds, b ∷ rest)
unfolding take_digits
take_digits-append value [] b rest h other = rw other refl
take_digits-append value (d ∷ ds) b rest h other =
    rw (IsDigit-is_digit d h.0) (take_digits-append (value * 10 + (d - 48)) ds b rest h.1 other)

pub digits-IsDigit : (rounds n : ℕ) → All IsDigit (digits rounds n)
unfolding digits
digits-IsDigit zero n = tt
digits-IsDigit (suc rounds) n = elim (Bool-cases (ltb n 10)) [
  | inl small ↦ rw small ((omega arith, ground arith), tt)
  | inr big ↦ rw big (
      All-append IsDigit (digits rounds (n / 10)) ((48 + n % 10) ∷ [])
        (digits-IsDigit rounds (n / 10)) ((omega arith, omega arith), tt))
]

-- Enough rounds for every digit.
pub value_of-digits : (rounds n : ℕ) → n < 10 ^ rounds → value_of 0 (digits rounds n) ≡ n
unfolding digits
value_of-digits zero n h = omega arith
value_of-digits (suc rounds) n h = elim (Bool-cases (ltb n 10)) [
  | inl small ↦ rw small (omega arith)
  | inr big ↦ rw big (
      value_of-snoc 0 (digits rounds (n / 10)) (48 + n % 10)
      ∙ omega (arith, value_of-digits rounds (n / 10) (omega (arith, h))))
]

-- The first digit of a number.
pub record Starts (ds : Bytes) : Type 0 where
  pub first : ℕ
  pub others : Bytes
  pub split : ds ≡ first ∷ others
  pub is_a_digit : IsDigit first

Starts-IsDigit : (ds : Bytes) → 1 ≤ length ds → All IsDigit ds → Starts ds
Starts-IsDigit [] h all_digits = absurd (omega arith)
Starts-IsDigit (d ∷ ds) h all_digits = record {
  first = d;
  others = ds;
  split = refl;
  is_a_digit = all_digits.0;
}

length-digits : (rounds n : ℕ) → 1 ≤ length (digits (suc rounds) n)
unfolding digits
length-digits rounds n = elim (Bool-cases (ltb n 10)) [
  | inl small ↦ rw small (omega arith)
  | inr big ↦ rw big (omega (arith, length-append (digits rounds (n / 10)) ((48 + n % 10) ∷ [])))
]

take_number-digits :
    (ds : Bytes) (b : ℕ) (rest : Bytes)
    → Starts ds
    → All IsDigit ds
    → is_digit b ≡ false
    → value_of 0 ds < 2 ^ 64
    → take_number (ds ++ b ∷ rest) ≡ (some (value_of 0 ds), b ∷ rest)
unfolding take_number take_unsigned
take_number-digits [] b rest s all_digits other small = absurd (nothing s.split)
  where
    nothing : {d : ℕ} {ds : Bytes} → [] ≡ d ∷ ds → ⊥
    nothing e = cc
take_number-digits (d ∷ ds) b rest s all_digits other small = rw no_minus (
    rw no_plus (
      rw (IsDigit-is_digit d all_digits.0)
        (rw (take_digits-append 0 (d ∷ ds) b rest all_digits other) (rw fits refl))))
  where
    no_minus : (d == 45) ≡ false
    no_minus = ground (arith, all_digits.0.0)

    no_plus : (d == 43) ≡ false
    no_plus = ground (arith, all_digits.0.0)

    fits : ltb (value_of 0 (d ∷ ds)) (2 ^ 64) ≡ true
    fits = ground (arith, small)

-- A number of 64 bits, and something behind it that is no digit.
pub take_number-decimal :
    (n b : ℕ) (rest : Bytes)
    → n < 2 ^ 64
    → is_digit b ≡ false
    → take_number (decimal n ++ b ∷ rest) ≡ (some n, b ∷ rest)
unfolding decimal
take_number-decimal n b rest h other =
    take_number-digits (digits 20 n) b rest
      (Starts-IsDigit (digits 20 n) (length-digits 19 n) (digits-IsDigit 20 n))
      (digits-IsDigit 20 n) other (omega (arith, same, h))
    ∙ ap (λ k. (some k, b ∷ rest)) same
  where
    same : value_of 0 (digits 20 n) ≡ n
    same = value_of-digits 20 n (omega (arith, h))

pub decimal-Starts : (n : ℕ) → Starts (decimal n)
unfolding decimal
decimal-Starts n = Starts-IsDigit (digits 20 n) (length-digits 19 n) (digits-IsDigit 20 n)
