-- ===== src/ClientState/Load.antt =====
-- `load` reads back what `persist` wrote.
use log_bridge.Base.{
  ℕ, ◌^◌, ◌<◌, ◌≤◌, ◌≡◌, refl, ap, arith, ◌==◌, ◌||◌, false, bytes_eq, [], ◌∷◌, ◌++◌, length, All,
  ok,
}
use log_bridge.Message.{Bytes}
use log_bridge.Dedup.Text.{decimal}
use log_bridge.Dedup.Store.{is_empty}
use log_bridge.Dedup.Load.{take_line}
use log_bridge.Dedup.Decimal.{Starts, decimal-Starts, IsDigit}
use log_bridge.Numbers.Parse.{stoull-decimal, decimal-IsDigit}
use log_bridge.ClientState.{
  ClientState, state_magic, parse_uint64, starts_with_minus, get_line, current_identity,
  load_identity, load_state, state_text,
}

-- A text that is a line: no newline is in it.
abbrev pub IsLine : Bytes → Type 0
IsLine = All (λ b. (b == 10) ≡ false)

-- The values that the fields' C++ types can hold, in texts without a newline.
pub record IsWritable (state : ClientState) : Type 0 where
  pub named : 1 ≤ length state.client_id
  pub client_line : IsLine state.client_id
  pub source_line : IsLine state.source_path
  pub next_id_fits : state.next_id < 2 ^ 64
  pub next_id_counts : 1 ≤ state.next_id
  pub offset_fits : state.file_offset < 2 ^ 64
  pub device_fits : state.file_device_id < 2 ^ 64
  pub inode_fits : state.file_inode < 2 ^ 64

take_line-append : (line rest : Bytes) → IsLine line → take_line (line ++ 10 ∷ rest) ≡ (line, rest)
unfolding take_line
take_line-append [] rest h = refl
take_line-append (b ∷ line) rest h = rw (h.0) (rw (take_line-append line rest h.1) refl)

get_line-append : (line rest : Bytes) → IsLine line → get_line (line ++ 10 ∷ rest) ≡ ok (line, rest)
unfolding get_line
get_line-append [] rest h = ap ok (take_line-append [] rest h)
get_line-append (b ∷ line) rest h = ap ok (take_line-append (b ∷ line) rest h)

digits-IsLine : (ds : Bytes) → All IsDigit ds → IsLine ds
digits-IsLine [] h = tt
digits-IsLine (d ∷ ds) h = (ground (arith, h.0.0), digits-IsLine ds h.1)

decimal-IsLine : (n : ℕ) → IsLine (decimal n)
decimal-IsLine n = digits-IsLine (decimal n) (decimal-IsDigit n)

-- A number is not empty and has no sign.
unsigned_text : (ds : Bytes) → Starts ds → (is_empty ds || starts_with_minus ds) ≡ false
unsigned_text [] s = absurd (nothing s.split)
  where
    nothing : {d : ℕ} {ds : Bytes} → [] ≡ d ∷ ds → ⊥
    nothing e = cc
unsigned_text (d ∷ ds) s = ground (arith, first, s.is_a_digit.0)
  where
    first : d ≡ s.first
    first = mathlib.Core.List.head-eq_of_cons-eq s.split

pub parse_uint64-decimal : (n : ℕ) → n < 2 ^ 64 → parse_uint64 (decimal n) ≡ ok n
unfolding parse_uint64
parse_uint64-decimal n h =
    rw (unsigned_text (decimal n) (decimal-Starts n)) (rw (stoull-decimal n h) refl)

pub is_empty-named : (text : Bytes) → 1 ≤ length text → is_empty text ≡ false
is_empty-named [] h = absurd (omega arith)
is_empty-named (b ∷ text) h = refl

current_identity-text :
    (device inode : ℕ) (source : Bytes)
    → device < 2 ^ 64
    → inode < 2 ^ 64
    → IsLine source
    → current_identity (decimal device ++ (10 ∷ decimal inode ++ (10 ∷ source ++ 10 ∷ [])))
      ≡ ok (device, inode, source)
unfolding current_identity
current_identity-text device inode source hd hi line =
    rw
      (get_line-append (decimal device) (decimal inode ++ (10 ∷ source ++ 10 ∷ []))
        (decimal-IsLine device))
      (rw (get_line-append (decimal inode) (source ++ 10 ∷ []) (decimal-IsLine inode)) (
        rw (get_line-append source [] line)
          (rw (parse_uint64-decimal device hd) (rw (parse_uint64-decimal inode hi) refl))))

load_identity-text :
    (device inode : ℕ) (source : Bytes)
    → device < 2 ^ 64
    → inode < 2 ^ 64
    → IsLine source
    → load_identity state_magic (decimal device ++ (10 ∷ decimal inode ++ (10 ∷ source ++ 10 ∷ [])))
      ≡ ok (device, inode, source)
unfolding load_identity bytes_eq
load_identity-text device inode source hd hi line =
    current_identity-text device inode source hd hi line

-- For a state with a client id, texts without a newline, numbers of 64 bits and a next id that is
-- not 0, load returns from the text that persist writes exactly this state.
pub load_state-state_text :
    (state : ClientState) → IsWritable state → load_state state.path (state_text state) ≡ ok state
unfolding load_state state_text
load_state-state_text state h = rw (get_line-append state_magic _ magic-IsLine) (
    rw (get_line-append state.client_id _ h.client_line) (
      rw (get_line-append (decimal state.next_id) _ (decimal-IsLine state.next_id)) (
        rw (get_line-append (decimal state.file_offset) _ (decimal-IsLine state.file_offset)) (
          rw (is_empty-named state.client_id h.named) (
            rw
              (load_identity-text state.file_device_id state.file_inode state.source_path
                h.device_fits h.inode_fits h.source_line)
              (rw (parse_uint64-decimal state.next_id h.next_id_fits)
                (rw (parse_uint64-decimal state.file_offset h.offset_fits) (rw counts refl))))))))
  where
    magic-IsLine : IsLine state_magic
    magic-IsLine = (refl, (refl, (refl, (refl, (refl, (refl, (refl, (refl, (refl, tt)))))))))

    counts : (state.next_id == 0) ≡ false
    counts = ground (arith, h.next_id_counts)
