-- ===== src/Dedup/Text.antt =====
-- The text of the state file: a line with a magic word, then a line for each client.
use log_bridge.Base.{ℕ, zero, suc, ◌+◌, ◌/◌, ◌%◌, ltb, if◌then◌else◌, List, [], ◌∷◌, ◌++◌}
use log_bridge.Message.{Bytes}

-- A client and the highest id that is confirmed for it.
abbrev pub Entries : Type 0
Entries = List (Bytes × ℕ)

abbrev pub dedup_magic : Bytes
dedup_magic = b'L' ∷ b'G' ∷ b'B' ∷ b'D' ∷ b'E' ∷ b'D' ∷ b'U' ∷ b'P' ∷ b'1' ∷ []

-- `output << value`: decimal digits, the last one behind those of the quotient by ten. A
-- `std::uint64_t` has twenty at most.
unfoldable pub digits : ℕ → ℕ → Bytes
digits zero n = []
digits (suc rounds) n =
    let front = digits rounds (n / 10) in
    if ltb n 10 then (b'0' + n) ∷ [] else front ++ (b'0' + n % 10) ∷ []

unfoldable pub decimal : ℕ → Bytes
decimal n = digits 20 n

unfoldable pub entry_lines : Entries → Bytes
entry_lines [] = []
entry_lines ((client_id, confirmed_id) ∷ rest) =
    client_id ++ (b' ' ∷ decimal confirmed_id ++ b'\n' ∷ entry_lines rest)

unfoldable pub text_of : Entries → Bytes
text_of entries = dedup_magic ++ b'\n' ∷ entry_lines entries
