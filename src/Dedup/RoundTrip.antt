-- ===== src/Dedup/RoundTrip.antt =====
-- `load` reads back what `persist` wrote.
use log_bridge.Base.{
  ℕ, zero, suc, ◌^◌, ◌<◌, ◌≤◌, ◌≡◌, ◌≢◌, refl, sym, ap, ◌∙◌, arith, ◌==◌, true, false, bytes_eq, [],
  ◌∷◌, ◌++◌, append-nil, append_assoc, length, length-append, All, All-append, none, ok,
}
use mathlib.Core.Path.{subst}
use log_bridge.Message.{Bytes}
use log_bridge.Dedup.Text.{Entries, decimal, entry_lines, text_of}
use log_bridge.Dedup.Store.{bytes_lt, find, put}
use log_bridge.Dedup.Load.{
  is_space, skip_spaces, take_word, take_number, next, stop, load_round, load_entries, take_line,
  load_text, with_word, with_number,
}
use log_bridge.Dedup.Decimal.{decimal-Starts, take_number-decimal}

-- A client id that the text can hold: not empty, and without blanks.
pub record IsName (client_id : Bytes) : Type 0 where
  pub named : 1 ≤ length client_id
  pub solid : All (λ b. is_space b ≡ false) client_id

-- A watermark is an id of a message.
pub record IsEntry (entry : Bytes × ℕ) : Type 0 where
  pub name : IsName entry.0
  pub confirmed : entry.1 ≢ 0
  pub small : entry.1 < 2 ^ 64

-- A key that the map has behind another.
abbrev pub IsBehind : Bytes → Bytes × ℕ → Type 0
IsBehind client_id entry =
    (bytes_eq client_id entry.0 ≡ false) × (bytes_lt client_id entry.0 ≡ false)

-- The entries as `std::map` has them: in the order of the keys, each of them once.
abbrev pub IsMap : Entries → Type 0
IsMap [] = Unit {0}
IsMap (entry ∷ rest) = All (λ (later : Bytes × ℕ). IsBehind later.0 entry) rest × IsMap rest

take_word-append :
    (word : Bytes) (b : ℕ) (rest : Bytes)
    → All (λ c. is_space c ≡ false) word
    → is_space b ≡ true
    → take_word (word ++ b ∷ rest) ≡ (word, b ∷ rest)
unfolding take_word
take_word-append [] b rest h space = rw space refl
take_word-append (c ∷ word) b rest h space =
    rw h.0 (rw (take_word-append word b rest h.1 space) refl)

skip_spaces-solid : (b : ℕ) (rest : Bytes) → is_space b ≡ false → skip_spaces (b ∷ rest) ≡ b ∷ rest
unfolding skip_spaces
skip_spaces-solid b rest h = rw h refl

skip_spaces-name : (word rest : Bytes) → IsName word → skip_spaces (word ++ rest) ≡ word ++ rest
skip_spaces-name [] rest h = absurd (omega (arith, h.named))
skip_spaces-name (b ∷ word) rest h = skip_spaces-solid b (word ++ rest) h.solid.0

skip_spaces-decimal :
    (n : ℕ) (rest : Bytes) → skip_spaces (32 ∷ decimal n ++ rest) ≡ decimal n ++ rest
unfolding skip_spaces
skip_spaces-decimal n rest =
    let s = decimal-Starts n in
    subst (λ t. skip_spaces (t ++ rest) ≡ t ++ rest) (sym s.split)
      (skip_spaces-solid s.first (s.others ++ rest) (ground (arith, s.is_a_digit)))

with_word-name :
    (entries : Entries) (client_id rest : Bytes)
    → IsName client_id
    → with_word entries (client_id, rest)
      ≡ with_number client_id entries (take_number (skip_spaces rest))
with_word-name entries [] rest h = absurd (omega (arith, h.named))
with_word-name entries (b ∷ client_id) rest h = refl

load_round-entry :
    (client_id : Bytes) (n : ℕ) (rest : Bytes) (entries : Entries)
    → IsEntry (client_id, n)
    → find client_id entries ≡ none
    → load_round (client_id ++ (32 ∷ decimal n ++ 10 ∷ rest)) entries
      ≡ ok (next (put client_id n entries) (10 ∷ rest))
unfolding load_round
load_round-entry client_id n rest entries h new =
    rw (skip_spaces-name client_id (32 ∷ decimal n ++ 10 ∷ rest) h.name) (
      rw (take_word-append client_id 32 (decimal n ++ 10 ∷ rest) h.name.solid refl)
        (with_word-name entries client_id (32 ∷ decimal n ++ 10 ∷ rest) h.name ∙ extracted))
  where
    nonzero : (n == 0) ≡ false
    nonzero = ground (arith, h.confirmed)

    extracted :
        with_number client_id entries (take_number (skip_spaces (32 ∷ decimal n ++ 10 ∷ rest)))
        ≡ ok (next (put client_id n entries) (10 ∷ rest))
    extracted =
        rw (skip_spaces-decimal n (10 ∷ rest))
          (rw (take_number-decimal n 10 rest h.small refl) (rw nonzero (rw new refl)))

-- A newline in front is skipped.
load_round-newline :
    (input : Bytes) (entries : Entries) → load_round (10 ∷ input) entries ≡ load_round input entries
unfolding load_round skip_spaces
load_round-newline input entries = refl

find-behind :
    (client_id : Bytes) (entries : Entries)
    → All (IsBehind client_id) entries
    → find client_id entries ≡ none
unfolding find
find-behind client_id [] h = refl
find-behind client_id ((key, value) ∷ rest) h = rw h.0.0 (find-behind client_id rest h.1)

-- The last key goes to the end.
put-behind :
    (client_id : Bytes) (n : ℕ) (entries : Entries)
    → All (IsBehind client_id) entries
    → put client_id n entries ≡ entries ++ (client_id, n) ∷ []
unfolding put
put-behind client_id n [] h = refl
put-behind client_id n ((key, value) ∷ rest) h =
    rw h.0.0 (rw h.0.1 (ap (λ t. (key, value) ∷ t) (put-behind client_id n rest h.1)))

All-IsBehind-snoc :
    (seen : Entries) (entry : Bytes × ℕ) (rest : Entries)
    → All (λ (later : Bytes × ℕ). All (IsBehind later.0) seen) rest
    → All (λ (later : Bytes × ℕ). IsBehind later.0 entry) rest
    → All (λ (later : Bytes × ℕ). All (IsBehind later.0) (seen ++ entry ∷ [])) rest
All-IsBehind-snoc seen entry [] h k = tt
All-IsBehind-snoc seen entry (later ∷ rest) h k = (
  All-append (IsBehind later.0) seen (entry ∷ []) h.0 (k.0, tt),
  All-IsBehind-snoc seen entry rest h.1 k.1,
)

load_entries-newline :
    (fuel : ℕ) (input : Bytes) (entries : Entries)
    → load_entries fuel (10 ∷ input) entries ≡ load_entries fuel input entries
unfolding load_entries
load_entries-newline zero input entries = refl
load_entries-newline (suc fuel) input entries =
    rw (load_round-newline input entries, load_entries) refl

load_round-nil : (entries : Entries) → load_round [] entries ≡ ok stop
unfolding load_round skip_spaces take_word
load_round-nil entries = refl

load_entries-lines :
    (fuel : ℕ) (entries seen : Entries)
    → length entries < fuel
    → All IsEntry entries
    → IsMap entries
    → All (λ (later : Bytes × ℕ). All (IsBehind later.0) seen) entries
    → load_entries fuel (entry_lines entries) seen ≡ ok (seen ++ entries)
unfolding load_entries entry_lines
load_entries-lines zero entries seen enough h ordered behind = absurd (omega arith)
load_entries-lines (suc fuel) [] seen enough h ordered behind =
    rw (load_round-nil seen, load_entries) (ap ok (sym (append-nil seen)))
load_entries-lines (suc fuel) ((client_id, n) ∷ rest) seen enough h ordered behind =
    rw
      (
        load_round-entry client_id n (entry_lines rest) seen h.0
            (find-behind client_id seen behind.0),
        load_entries,
      )
      (load_entries-newline fuel (entry_lines rest) (put client_id n seen)
        ∙ ap (load_entries fuel (entry_lines rest)) (put-behind client_id n seen behind.0)
        ∙ load_entries-lines fuel rest (seen ++ (client_id, n) ∷ []) (omega arith) h.1 ordered.1
            (All-IsBehind-snoc seen (client_id, n) rest behind.1 ordered.0)
        ∙ ap ok (append_assoc seen ((client_id, n) ∷ []) rest))

length-entry_lines : (entries : Entries) → length entries ≤ length (entry_lines entries)
unfolding entry_lines
length-entry_lines [] = omega arith
length-entry_lines ((client_id, n) ∷ rest) = omega (
  arith,
  length-append client_id (32 ∷ decimal n ++ 10 ∷ entry_lines rest),
  length-append (decimal n) (10 ∷ entry_lines rest),
  length-entry_lines rest,
)

All-IsBehind_nil :
    (entries : Entries) → All (λ (later : Bytes × ℕ). All (IsBehind later.0) []) entries
All-IsBehind_nil [] = tt
All-IsBehind_nil (entry ∷ rest) = (tt, All-IsBehind_nil rest)

-- For entries in the order of the map, of clients whose ids are not empty and have no blanks, with
-- watermarks from 1 to 2 ^ 64 - 1, load returns from the text that persist writes exactly these
-- entries.
pub load_text-text_of :
    (entries : Entries)
    → All IsEntry entries
    → IsMap entries
    → load_text (text_of entries) ≡ ok entries
unfolding load_text text_of take_line bytes_eq
load_text-text_of entries h ordered =
    load_entries-lines (suc (length (entry_lines entries))) entries []
      (omega (arith, length-entry_lines entries)) h ordered (All-IsBehind_nil entries)
