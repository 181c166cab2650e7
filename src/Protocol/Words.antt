-- ===== src/Protocol/Words.antt =====
-- Big-endian words: what the writers append and the readers return, in plain arithmetic.
use log_bridge.Base.{
  ℕ, zero, suc, ◌+◌, ◌*◌, ◌/◌, ◌%◌, ◌^◌, ◌<◌, bit_or_byte, [], ◌∷◌, ◌++◌, append-nil, append_assoc,
  length, drop, get_or-drop, ◌≡◌, refl, sym, ap, ◌∙◌, arith,
}
use Prim.Native.Nat.add
use mathlib.Core.Path.{ap₂}
use log_bridge.Message.{Bytes, IsBytes}
use log_bridge.Protocol.Write.{append_uint16, append_uint32, append_uint64, append_shifted}
use log_bridge.Protocol.Read.{shift_in}

-- The lowest `k` bytes of `v`, highest first.
unfoldable pub big_endian : ℕ → ℕ → Bytes
big_endian zero v = []
big_endian (suc k) v = v / 2 ^ (8 * k) % 256 ∷ big_endian k v

pub length-big_endian : (k v : ℕ) → length (big_endian k v) ≡ k
unfolding big_endian
length-big_endian zero v = refl
length-big_endian (suc k) v = ap suc (length-big_endian k v)

append_shifted-eq :
    (k : ℕ) (output : Bytes) (v : ℕ) → append_shifted k output v ≡ output ++ big_endian k v
unfolding append_shifted big_endian
append_shifted-eq zero output v = sym (append-nil output)
append_shifted-eq (suc k) output v = append_shifted-eq k _ v ∙ append_assoc output _ _

pub append_uint16-eq : (output : Bytes) (v : ℕ) → append_uint16 output v ≡ output ++ big_endian 2 v
unfolding append_uint16 big_endian
append_uint16-eq output v =
    append_assoc output _ _ ∙ ap (λ (low : ℕ). output ++ v / 2 ^ 8 % 256 ∷ low % 256 ∷ []) div_one
  where
    div_one : v ≡ v / 1
    div_one = omega arith

pub append_uint32-eq : (output : Bytes) (v : ℕ) → append_uint32 output v ≡ output ++ big_endian 4 v
unfolding append_uint32
append_uint32-eq output v = append_shifted-eq 4 output v

pub append_uint64-eq : (output : Bytes) (v : ℕ) → append_uint64 output v ≡ output ++ big_endian 8 v
unfolding append_uint64
append_uint64-eq output v = append_shifted-eq 8 output v

pub ruleset append_words = (append_uint16-eq, append_uint32-eq, append_uint64-eq)

-- Two bytes, and four and eight bytes, as one number.
abbrev pub join2 : ℕ → ℕ → ℕ
join2 a b = a * 256 + b

abbrev pub join4 : ℕ → ℕ → ℕ → ℕ → ℕ
join4 a b c d = ((a * 256 + b) * 256 + c) * 256 + d

pub shift_in-drop :
    (width : ℕ) (input : Bytes) (offset k i v : ℕ)
    → shift_in width input offset k i v ≡ shift_in width (drop offset input) 0 k i v
unfolding shift_in
shift_in-drop width input offset zero i v = refl
shift_in-drop width input offset (suc k) i v =
    rw (get_or-drop offset (0 + i) input 0)
      (rw add.zero (shift_in-drop width input offset k (i + 1) _))

pub shift_in32 :
    (a b c d : ℕ) (rest : Bytes)
    → a < 256
    → b < 256
    → c < 256
    → d < 256
    → shift_in 32 (a ∷ b ∷ c ∷ d ∷ rest) 0 4 0 0 ≡ join4 a b c d
unfolding shift_in
shift_in32 a b c d rest ha hb hc hd = ground (
  arith,
  bit_or_byte 0 a ha,
  bit_or_byte a b hb,
  bit_or_byte (a * 256 + b) c hc,
  bit_or_byte ((a * 256 + b) * 256 + c) d hd,
)

-- Four rounds in a word of 64 bits, from any value that leaves room for them.
four_rounds :
    (v a b c d : ℕ)
    → v < 2 ^ 32
    → a < 256
    → b < 256
    → c < 256
    → d < 256
    → shift_in 64 (a ∷ b ∷ c ∷ d ∷ []) 0 4 0 v ≡ v * 2 ^ 32 + join4 a b c d
unfolding shift_in
four_rounds v a b c d hv ha hb hc hd = ground (
  arith,
  bit_or_byte v a ha,
  bit_or_byte (v * 256 + a) b hb,
  bit_or_byte ((v * 256 + a) * 256 + b) c hc,
  bit_or_byte (((v * 256 + a) * 256 + b) * 256 + c) d hd,
)

pub shift_in64 :
    (a b c d e f g h : ℕ) (rest : Bytes)
    → IsBytes (a ∷ b ∷ c ∷ d ∷ e ∷ f ∷ g ∷ h ∷ [])
    → shift_in 64 (a ∷ b ∷ c ∷ d ∷ e ∷ f ∷ g ∷ h ∷ rest) 0 8 0 0
      ≡ join4 a b c d * 2 ^ 32 + join4 e f g h
unfolding shift_in
shift_in64 a b c d e f g h rest bytes =
    ap (λ v. shift_in 64 (e ∷ f ∷ g ∷ h ∷ []) 0 4 0 v) high
    ∙ four_rounds (join4 a b c d) e f g h (omega arith) (omega arith) (omega arith) (omega arith)
        (omega arith)
  where
    high : shift_in 64 (a ∷ b ∷ c ∷ d ∷ []) 0 4 0 0 ≡ join4 a b c d
    high = omega (arith, four_rounds 0 a b c d)

-- The bytes of a word, joined again, are the word, and the other way round.
pub join4-big_endian :
    (v : ℕ)
    → v < 2 ^ 32
    → join4 (v / 2 ^ 24 % 256) (v / 2 ^ 16 % 256) (v / 2 ^ 8 % 256) (v / 1 % 256) ≡ v
unfolding big_endian
join4-big_endian v h = omega arith

pub big_endian-join4 :
    (a b c d : ℕ) → IsBytes (a ∷ b ∷ c ∷ d ∷ []) → big_endian 4 (join4 a b c d) ≡ a ∷ b ∷ c ∷ d ∷ []
unfolding big_endian
big_endian-join4 a b c d h = ground arith

pub big_endian_halves :
    (high low : ℕ)
    → low < 2 ^ 32
    → big_endian 8 (high * 2 ^ 32 + low) ≡ big_endian 4 high ++ big_endian 4 low
unfolding big_endian
big_endian_halves high low h = ground arith

pub big_endian_join8 :
    (a b c d a' b' c' d' : ℕ)
    → IsBytes (a ∷ b ∷ c ∷ d ∷ a' ∷ b' ∷ c' ∷ d' ∷ [])
    → big_endian 8 (join4 a b c d * 2 ^ 32 + join4 a' b' c' d')
      ≡ a ∷ b ∷ c ∷ d ∷ a' ∷ b' ∷ c' ∷ d' ∷ []
big_endian_join8 a b c d a' b' c' d' h =
    big_endian_halves (join4 a b c d) (join4 a' b' c' d') (omega arith)
    ∙ ap₂ ◌++◌ (big_endian-join4 a b c d (omega arith)) (big_endian-join4 a' b' c' d' (omega arith))
