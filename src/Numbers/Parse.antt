-- ===== src/Numbers/Parse.antt =====
-- Decimal text through `stoull`, and the range of what it returns.
use log_bridge.Base.{
  ℕ, ◌+◌, ◌-◌, ◌*◌, ◌^◌, ◌<◌, ◌≡◌, refl, sym, ap, ◌∙◌, arith, ltb, ◌==◌, true, false, [], ◌∷◌, All,
  ok,
}
use mathlib.Core.Path.{subst}
use log_bridge.Message.{Bytes}
use log_bridge.Dedup.Text.{decimal}
use log_bridge.Dedup.Load.{is_space, skip_spaces, take_digits}
use log_bridge.Dedup.Decimal.{
  IsDigit, IsDigit-is_digit, value_of, value_of-digits, digits-IsDigit, decimal-Starts,
}
use log_bridge.Numbers.{unsigned_of, signed_of, stoull}

take_digits_all :
    (value : ℕ) (ds : Bytes) → All IsDigit ds → take_digits value ds ≡ (value_of value ds, [])
unfolding take_digits
take_digits_all value [] h = refl
take_digits_all value (d ∷ ds) h =
    rw (IsDigit-is_digit d h.0) (take_digits_all (value * 10 + (d - 48)) ds h.1)

-- Digits with nothing in front or behind.
stoull-digits :
    (d : ℕ) (ds : Bytes)
    → All IsDigit (d ∷ ds)
    → value_of 0 (d ∷ ds) < 2 ^ 64
    → stoull (d ∷ ds) ≡ ok (value_of 0 (d ∷ ds), [])
unfolding stoull signed_of unsigned_of skip_spaces
stoull-digits d ds all_digits small = rw solid (
    rw no_minus (
      rw no_plus (
        rw (IsDigit-is_digit d all_digits.0)
          (rw (take_digits_all 0 (d ∷ ds) all_digits) (rw fits refl)))))
  where
    solid : is_space d ≡ false
    solid = ground (arith, all_digits.0.0)

    no_minus : (d == 45) ≡ false
    no_minus = ground (arith, all_digits.0.0)

    no_plus : (d == 43) ≡ false
    no_plus = ground (arith, all_digits.0.0)

    fits : ltb (value_of 0 (d ∷ ds)) (2 ^ 64) ≡ true
    fits = ground (arith, small)

pub decimal-IsDigit : (n : ℕ) → All IsDigit (decimal n)
unfolding decimal
decimal-IsDigit n = digits-IsDigit 20 n

value_of-decimal : (n : ℕ) → n < 2 ^ 64 → value_of 0 (decimal n) ≡ n
unfolding decimal
value_of-decimal n h = value_of-digits 20 n (omega (arith, h))

-- What the text of a number is to its parser.
pub stoull-decimal : (n : ℕ) → n < 2 ^ 64 → stoull (decimal n) ≡ ok (n, [])
stoull-decimal n h =
    let s = decimal-Starts n in
    let value = value_of-decimal n h in
    ap stoull s.split
    ∙ stoull-digits s.first s.others (subst (All IsDigit) s.split (decimal-IsDigit n))
        (subst (λ t. value_of 0 t < 2 ^ 64) s.split (omega (arith, value, h)))
    ∙ ap (λ t. ok (value_of 0 t, [])) (sym s.split)
    ∙ ap (λ v. ok (v, [])) value
