-- ===== src/Dedup/Load.antt =====
-- `load` and the constructor: the text of the state file through a `std::istringstream`.
use log_bridge.Base.{
  ℕ, zero, suc, ◌+◌, ◌-◌, ◌*◌, ◌%◌, ◌^◌, leb, ltb, ◌==◌, ◌||◌, ◌&&◌, not, Bool, true, false,
  bytes_eq, if◌then◌else◌, [], ◌∷◌, length, Option, none, some, Result, ok, err, ◌>>=◌, ◌>>◌,
  throw_if, invalid_argument, invalid_dedup_file, invalid_dedup_record, unparsed_dedup, out_of_fuel,
}
use log_bridge.Message.{Bytes}
use log_bridge.Storage.World.{World}
use log_bridge.Storage.Persistence.{read_file}
use log_bridge.Dedup.Text.{Entries, dedup_magic}
use log_bridge.Dedup.Store.{DedupStore, find, put, is_empty}

-- What `operator>>` skips: a blank, and the characters from tab to carriage return.
abbrev pub is_space : ℕ → Bool
is_space b = b == 32 || (leb 9 b && leb b 13)

abbrev pub is_digit : ℕ → Bool
is_digit b = leb b'0' b && leb b b'9'

unfoldable pub skip_spaces : Bytes → Bytes
skip_spaces [] = []
skip_spaces (b ∷ rest) = let further = skip_spaces rest in if is_space b then further else b ∷ rest

-- The front of `input` up to a blank, and the rest.
unfoldable pub take_word : Bytes → Bytes × Bytes
take_word [] = ([], [])
take_word (b ∷ rest) =
    let (word, left) = take_word rest in if is_space b then ([], b ∷ rest) else (b ∷ word, left)

-- Digits, behind a value so far.
unfoldable pub take_digits : ℕ → Bytes → ℕ × Bytes
take_digits value [] = (value, [])
take_digits value (b ∷ rest) =
    let further = take_digits (value * 10 + (b - b'0')) rest in
    if is_digit b then further else (value, b ∷ rest)

-- A value of 64 bits or a failure; a minus sign negates modulo `2 ^ 64`.
abbrev pub in_range : Bool → ℕ × Bytes → Option ℕ × Bytes
in_range negative (value, rest) =
    if ltb value (2 ^ 64)
    then (some (if negative then (2 ^ 64 - value) % 2 ^ 64 else value), rest)
    else (none, rest)

unfoldable pub take_unsigned : Bool → Bytes → Option ℕ × Bytes
take_unsigned negative [] = (none, [])
take_unsigned negative (b ∷ rest) =
    if is_digit b then in_range negative (take_digits 0 (b ∷ rest)) else (none, b ∷ rest)

-- `input >> confirmedId`, behind the blanks.
unfoldable pub take_number : Bytes → Option ℕ × Bytes
take_number [] = (none, [])
take_number (b ∷ rest) =
    if b == b'-'
    then take_unsigned true rest
    else if b == b'+'
    then take_unsigned false rest
    else take_unsigned false (b ∷ rest)

-- A round of the loop: its end, or one more entry and the rest of the input.
pub data LoadStep : Type 0 where
  stop : LoadStep
  next : Entries → Bytes → LoadStep

-- After a failed extraction, `!input.eof()`.
abbrev pub with_number : Bytes → Entries → Option ℕ × Bytes → Result LoadStep
with_number client_id entries (none, []) = ok stop
with_number client_id entries (none, b ∷ rest) = err unparsed_dedup
with_number client_id entries (some confirmed_id, rest) = do
  throw_if (confirmed_id == 0) invalid_dedup_record
  elim (find client_id entries) [
    | some known ↦ err invalid_dedup_record
    | none ↦ ok (next (put client_id confirmed_id entries) rest)
  ]

abbrev pub with_word : Entries → Bytes × Bytes → Result LoadStep
with_word entries ([], rest) = ok stop
with_word entries (b ∷ word, rest) = with_number (b ∷ word) entries (take_number (skip_spaces rest))

unfoldable pub load_round : Bytes → Entries → Result LoadStep
load_round input entries = with_word entries (take_word (skip_spaces input))

unfoldable pub load_entries : ℕ → Bytes → Entries → Result Entries
load_entries zero input entries = err out_of_fuel
load_entries (suc fuel) input entries = elim (load_round input entries) [
  | err e ↦ err e
  | ok stop ↦ ok entries
  | ok (next more rest) ↦ load_entries fuel rest more
]

-- `getline`: the bytes before the first newline, and those behind it.
unfoldable pub take_line : Bytes → Bytes × Bytes
take_line [] = ([], [])
take_line (b ∷ rest) =
    let (line, left) = take_line rest in if b == 10 then ([], rest) else (b ∷ line, left)

-- An empty file has no line. A round takes a byte at least.
unfoldable pub load_text : Bytes → Result Entries
load_text text = do
  let (magic, rest) = take_line text
  throw_if (is_empty text || not (bytes_eq magic dedup_magic)) invalid_dedup_file
  load_entries (suc (length rest)) rest []

abbrev pub loaded_store : Bytes → Result Bytes × World → Result DedupStore × World
loaded_store path (err e, w) = (err e, w)
loaded_store path (ok text, w) =
    (load_text text >>= λ entries. ok (record { path = path; confirmed = entries }), w)

abbrev pub load_existing : Bytes → Option Bytes → World → Result DedupStore × World
load_existing path none w = (ok (record { path = path; confirmed = [] }), w)
load_existing path (some text) w = loaded_store path (read_file path w)

-- The constructor.
unfoldable pub open_store : Bytes → World → Result DedupStore × World
open_store [] w = (err invalid_argument, w)
open_store (c ∷ path) w = load_existing (c ∷ path) (w.files (c ∷ path)) w
