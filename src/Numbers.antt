-- ===== src/Numbers.antt =====
-- `std::stoull` and `std::stoul` of the standard library, which src/ClientState.cpp, src/main.cpp and
-- src/ServerMain.cpp parse numbers with; both are of 64 bits.
pub mod Parse
use log_bridge.Base.{
  ℕ, ◌-◌, ◌%◌, ◌^◌, ltb, ◌==◌, Bool, true, false, if◌then◌else◌, [], ◌∷◌, Result, ok, err,
  invalid_argument, out_of_range,
}
use log_bridge.Message.{Bytes}
use log_bridge.Dedup.Load.{is_digit, skip_spaces, take_digits}

-- The value and the bytes behind it; a minus sign negates modulo `2 ^ 64`.
abbrev pub ranged : Bool → ℕ × Bytes → Result (ℕ × Bytes)
ranged negative (value, rest) =
    if ltb value (2 ^ 64)
    then ok (if negative then (2 ^ 64 - value) % 2 ^ 64 else value, rest)
    else err out_of_range

unfoldable pub unsigned_of : Bool → Bytes → Result (ℕ × Bytes)
unsigned_of negative [] = err invalid_argument
unsigned_of negative (b ∷ rest) =
    if is_digit b then ranged negative (take_digits 0 (b ∷ rest)) else err invalid_argument

unfoldable pub signed_of : Bytes → Result (ℕ × Bytes)
signed_of [] = err invalid_argument
signed_of (b ∷ rest) =
    if b == b'-'
    then unsigned_of true rest
    else if b == b'+'
    then unsigned_of false rest
    else unsigned_of false (b ∷ rest)

unfoldable pub stoull : Bytes → Result (ℕ × Bytes)
stoull text = signed_of (skip_spaces text)
