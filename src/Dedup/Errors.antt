-- ===== src/Dedup/Errors.antt =====
-- The loop of `load` ends on any text, and what it may throw.
use log_bridge.Base.{
  ℕ, zero, suc, ◌+◌, ◌*◌, ◌-◌, ◌≤◌, ◌<◌, ◌≡◌, refl, arith, Bool, true, false, not, ◌==◌, ◌||◌,
  bytes_eq, Bool-cases, [], ◌∷◌, length, Option, none, some, Result, ok, err, Result-cases, inl,
  inr, Exception, invalid_dedup_file, invalid_dedup_record, unparsed_dedup,
}
use mathlib.Core.Path.{subst}
use log_bridge.Message.{Bytes}
use log_bridge.Protocol.Errors.{Answers, returns, throws, Answers-bind, Answers-throw_if}
use log_bridge.Dedup.Text.{Entries, dedup_magic}
use log_bridge.Dedup.Store.{find, put, is_empty}
use log_bridge.Dedup.Load.{
  is_space, is_digit, skip_spaces, take_word, take_digits, in_range, take_unsigned, take_number,
  LoadStep, stop, next, with_number, with_word, load_round, load_entries, take_line, load_text,
}

-- One of the three errors of `load`.
abbrev pub IsDedupError : Exception → Type 0
IsDedupError invalid_dedup_file = Unit {0}
IsDedupError invalid_dedup_record = Unit {0}
IsDedupError unparsed_dedup = Unit {0}
IsDedupError _ = ⊥

length-skip_spaces : (input : Bytes) → length (skip_spaces input) ≤ length input
unfolding skip_spaces
length-skip_spaces [] = omega arith
length-skip_spaces (b ∷ rest) = ground (arith, length-skip_spaces rest)

length-take_word :
    (input : Bytes) → length (take_word input).0 + length (take_word input).1 ≡ length input
unfolding take_word
length-take_word [] = omega arith
length-take_word (b ∷ rest) = elim (Bool-cases (is_space b)) [
  | inl space ↦ rw space (omega arith)
  | inr solid ↦ rw solid (omega (arith, length-take_word rest))
]

length-take_digits : (value : ℕ) (input : Bytes) → length (take_digits value input).1 ≤ length input
unfolding take_digits
length-take_digits value [] = omega arith
length-take_digits value (b ∷ rest) = elim (Bool-cases (is_digit b)) [
  | inl digit ↦ rw digit (omega (arith, length-take_digits (value * 10 + (b - 48)) rest))
  | inr other ↦ rw other (omega arith)
]

length-in_range : (negative : Bool) (r : ℕ × Bytes) → length (in_range negative r).1 ≡ length r.1
length-in_range negative (value, rest) = ground arith

length-take_unsigned :
    (negative : Bool) (input : Bytes) → length (take_unsigned negative input).1 ≤ length input
unfolding take_unsigned
length-take_unsigned negative [] = omega arith
length-take_unsigned negative (b ∷ rest) = elim (Bool-cases (is_digit b)) [
  | inl digit ↦ rw digit (
      omega (
        arith,
        length-in_range negative (take_digits 0 (b ∷ rest)),
        length-take_digits 0 (b ∷ rest),
      ))
  | inr other ↦ rw other (omega arith)
]

length-take_number : (input : Bytes) → length (take_number input).1 ≤ length input
unfolding take_number
length-take_number [] = omega arith
length-take_number (b ∷ rest) = ground (
  arith,
  length-take_unsigned true rest,
  length-take_unsigned false rest,
  length-take_unsigned false (b ∷ rest),
)

-- A round that adds an entry leaves no more than what stood behind the client id.
abbrev pub Shrinks : ℕ → LoadStep → Type 0
Shrinks n stop = Unit {0}
Shrinks n (next more rest) = length rest ≤ n

abbrev pub RoundEnds : ℕ → Result LoadStep → Type 0
RoundEnds n (ok step) = Shrinks n step
RoundEnds n (err e) = IsDedupError e

with_number-RoundEnds :
    (client_id : Bytes) (entries : Entries) (x : Option ℕ × Bytes)
    → RoundEnds (length x.1) (with_number client_id entries x)
with_number-RoundEnds client_id entries (none, []) = tt
with_number-RoundEnds client_id entries (none, b ∷ rest) = tt
with_number-RoundEnds client_id entries (some n, rest) = elim (Bool-cases (n == 0)) [
  | inl bad ↦ rw bad tt
  | inr good ↦ rw good (known (find client_id entries))
]
  where
    known :
        (x : Option ℕ)
        → RoundEnds (length rest) (elim x [
          | some value ↦ err invalid_dedup_record
          | none ↦ ok (next (put client_id n entries) rest)
        ])
    known (some value) = tt
    known none = omega arith

RoundEnds-weaken : (n m : ℕ) (r : Result LoadStep) → n ≤ m → RoundEnds n r → RoundEnds m r
RoundEnds-weaken n m (ok stop) h k = tt
RoundEnds-weaken n m (ok (next more rest)) h k = omega (arith, h, k)
RoundEnds-weaken n m (err e) h k = k

with_word-RoundEnds :
    (entries : Entries) (x : Bytes × Bytes) (n : ℕ)
    → length x.0 + length x.1 ≤ suc n
    → RoundEnds n (with_word entries x)
with_word-RoundEnds entries ([], rest) n h = tt
with_word-RoundEnds entries (b ∷ word, rest) n h =
    RoundEnds-weaken (length (take_number (skip_spaces rest)).1) n
      (with_number (b ∷ word) entries (take_number (skip_spaces rest)))
      (omega (arith, h, length-take_number (skip_spaces rest), length-skip_spaces rest))
      (with_number-RoundEnds (b ∷ word) entries (take_number (skip_spaces rest)))

load_round-RoundEnds :
    (input : Bytes) (entries : Entries) (n : ℕ)
    → length input ≤ suc n
    → RoundEnds n (load_round input entries)
unfolding load_round
load_round-RoundEnds input entries n h =
    with_word-RoundEnds entries (take_word (skip_spaces input)) n
      (omega (arith, h, length-skip_spaces input, length-take_word (skip_spaces input)))

load_round_end : (entries : Entries) → load_round [] entries ≡ ok stop
unfolding load_round skip_spaces take_word
load_round_end entries = refl

load_entries-Answers :
    (fuel : ℕ) (input : Bytes) (entries : Entries)
    → length input < fuel
    → Answers IsDedupError (load_entries fuel input entries)
unfolding load_entries
load_entries-Answers zero input entries h = absurd (omega arith)
load_entries-Answers (suc fuel) [] entries h = rw (load_round_end entries, load_entries) returns
load_entries-Answers (suc fuel) (b ∷ input) entries h =
    let ends = load_round-RoundEnds (b ∷ input) entries (length input) (omega arith) in
    elim (Result-cases (load_round (b ∷ input) entries)) [
      | inr (x, e) ↦ rw (e, load_entries) (throws (subst (RoundEnds (length input)) e ends))
      | inl (stop, e) ↦ rw (e, load_entries) returns
      | inl (next more rest, e) ↦
          let shorter : length rest ≤ length input = subst (RoundEnds (length input)) e ends in
          rw (e, load_entries) (load_entries-Answers fuel rest more (omega arith))
    ]

-- Whatever bytes the file holds, the loop of DedupStore::load ends within a round more than there
-- are bytes behind the first line: load returns, or throws one of its three errors.
pub load_text-Answers : (text : Bytes) → Answers IsDedupError (load_text text)
unfolding load_text
load_text-Answers text =
    Answers-bind
      (Answers-throw_if (is_empty text || not (bytes_eq (take_line text).0 dedup_magic))
        invalid_dedup_file tt)
      (λ _.
        load_entries-Answers (suc (length (take_line text).1)) (take_line text).1 [] (omega arith))
