-- ===== src/Client/Port.antt =====
-- `parsePort` of src/main.cpp; src/ServerMain.cpp has the same function.
use log_bridge.Base.{
  ℕ, ◌≤◌, ◌≡◌, arith, not, ltb, ◌==◌, ◌||◌, Result-cases, Result, ok, ◌>>=◌, ◌>>◌, throw_if,
  invalid_argument, inl, inr,
}
use log_bridge.Message.{Bytes}
use log_bridge.Dedup.Text.{decimal}
use log_bridge.Dedup.Store.{is_empty}
use log_bridge.Numbers.{stoull}
use log_bridge.Numbers.Parse.{stoull-decimal}

abbrev greatest_port : ℕ
greatest_port = 65535

unfoldable pub parse_port : Bytes → Result ℕ
parse_port text = do
  value ← stoull text
  throw_if (not (is_empty (value.1)) || (value.0 == 0 || ltb greatest_port (value.0)))
      invalid_argument
  ok (value.0)

abbrev pub IsPort : ℕ → Type 0
IsPort port = (1 ≤ port) × (port ≤ greatest_port)

parse_port-IsPort : (text : Bytes) {port : ℕ} → parse_port text ≡ ok port → IsPort port
unfolding parse_port
parse_port-IsPort text = elim (Result-cases (stoull text)) [
  | inr (e, h) ↦ rw h (λ k. cc)
  | inl (value, h) ↦ rw h (λ k. ground arith)
]

parse_port-decimal : (port : ℕ) → IsPort port → parse_port (decimal port) ≡ ok port
unfolding parse_port
parse_port-decimal port h = rw (stoull-decimal port (omega (arith, h.1))) (ground (arith, h.0, h.1))

-- Whatever text parsePort accepts, its port is from 1 to 65535, and the decimal text of that port
-- is read as the same port.
pub parse_port-bounds :
    (text : Bytes) {port : ℕ}
    → parse_port text ≡ ok port
    → IsPort port × (parse_port (decimal port) ≡ ok port)
parse_port-bounds text {port} h =
    let fits = parse_port-IsPort text {port = port} h in (fits, parse_port-decimal port fits)
