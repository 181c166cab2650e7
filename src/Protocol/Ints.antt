-- ===== src/Protocol/Ints.antt =====
-- The integer readers on big-endian words, both ways.
use log_bridge.Base.{
  ℕ, ◌+◌, ◌*◌, ◌%◌, ◌^◌, ◌≤◌, ◌<◌, bit_or, bit_or_byte, ◌≡◌, refl, sym, ap, ◌∙◌, arith, [], ◌∷◌,
  ◌++◌, length, length-drop, drop, get_or, get_or-drop, ok, All-drop,
}
use log_bridge.Message.{Bytes, IsByte, IsBytes}
use log_bridge.Protocol.Read.{read_uint8, read_uint16, read_uint32, read_uint64, shift_in}
use log_bridge.Protocol.Words.{
  big_endian, shift_in-drop, shift_in32, shift_in64, join4, join4-big_endian, big_endian-join4,
  big_endian_join8,
}
use log_bridge.Protocol.Cursor.{Parses, Parses-checked, Takes, Takes-drop, checked-eq-ok}

get_or_behind :
    (input : Bytes) (offset i : ℕ) (xs : Bytes)
    → drop offset input ≡ xs
    → get_or input (offset + i) 0 ≡ get_or xs i 0
get_or_behind input offset i xs e = sym (get_or-drop offset i input 0) ∙ ap (λ t. get_or t i 0) e

get_or_front :
    (input : Bytes) (offset : ℕ) (xs : Bytes)
    → drop offset input ≡ xs
    → get_or input offset 0 ≡ get_or xs 0 0
get_or_front input offset xs e =
    ap (λ k. get_or input k 0) offset_zero ∙ get_or_behind input offset 0 xs e
  where
    offset_zero : offset ≡ offset + 0
    offset_zero = omega arith

abbrev two_bytes : Bytes → ℕ → ℕ
two_bytes input offset =
    bit_or (get_or input offset 0 * 2 ^ 8 % 2 ^ 16) (get_or input (offset + 1) 0)

two_bytes-eq :
    (input : Bytes) (offset a b : ℕ) (rest : Bytes)
    → drop offset input ≡ a ∷ b ∷ rest
    → a < 256
    → b < 256
    → two_bytes input offset ≡ a * 256 + b
two_bytes-eq input offset a b rest e ha hb =
    ground
      (arith, get_or_front input offset _ e, get_or_behind input offset 1 _ e, bit_or_byte a b hb)

pub Parses-read_uint8 : (v : ℕ) → Parses read_uint8 (v ∷ []) v
unfolding read_uint8
Parses-read_uint8 v =
    Parses-checked 1 _ (v ∷ []) v refl (λ input offset rest e. get_or_front input offset _ e)

pub Parses-read_uint16 : (v : ℕ) → v < 2 ^ 16 → Parses read_uint16 (big_endian 2 v) v
unfolding read_uint16 big_endian
Parses-read_uint16 v h = Parses-checked 2 _ (big_endian 2 v) v refl (λ input offset rest e.
    two_bytes-eq input offset _ _ rest e (omega arith) (omega arith) ∙ omega arith)

pub Parses-read_uint32 : (v : ℕ) → v < 2 ^ 32 → Parses read_uint32 (big_endian 4 v) v
unfolding read_uint32 big_endian
Parses-read_uint32 v h = Parses-checked 4 _ (big_endian 4 v) v refl (λ input offset rest e.
    shift_in-drop 32 input offset 4 0 0
    ∙ ap (λ t. shift_in 32 t 0 4 0 0) e
    ∙ shift_in32 _ _ _ _ rest (omega arith) (omega arith) (omega arith) (omega arith)
    ∙ join4-big_endian v h)

pub Parses-read_uint64 : (v : ℕ) → v < 2 ^ 64 → Parses read_uint64 (big_endian 8 v) v
unfolding read_uint64 big_endian
Parses-read_uint64 v h = Parses-checked 8 _ (big_endian 8 v) v refl (λ input offset rest e.
    shift_in-drop 64 input offset 8 0 0
    ∙ ap (λ t. shift_in 64 t 0 8 0 0) e
    ∙ shift_in64 _ _ _ _ _ _ _ _ rest (omega arith)
    ∙ omega arith)

-- A long enough byte string shows its first bytes.
one_of : (xs : Bytes) → 1 ≤ length xs → (a : ℕ) × (rest : Bytes) × (xs ≡ a ∷ rest)
one_of (a ∷ rest) h = (a, rest, refl)
one_of [] h = absurd (omega arith)

two_of : (xs : Bytes) → 2 ≤ length xs → (a : ℕ) × (b : ℕ) × (rest : Bytes) × (xs ≡ a ∷ b ∷ rest)
two_of (a ∷ b ∷ rest) h = (a, b, rest, refl)
two_of (a ∷ []) h = absurd (omega arith)
two_of [] h = absurd (omega arith)

four_of :
    (xs : Bytes)
    → 4 ≤ length xs
    → (a : ℕ) × (b : ℕ) × (c : ℕ) × (d : ℕ) × (rest : Bytes) × (xs ≡ a ∷ b ∷ c ∷ d ∷ rest)
four_of (a ∷ b ∷ c ∷ d ∷ rest) h = (a, b, c, d, rest, refl)
four_of (a ∷ b ∷ c ∷ []) h = absurd (omega arith)
four_of (a ∷ b ∷ []) h = absurd (omega arith)
four_of (a ∷ []) h = absurd (omega arith)
four_of [] h = absurd (omega arith)

-- The bytes behind the offset, as words are taken from them.
module _ (input : Bytes) (from to : ℕ) (bytes : IsBytes input) where
  behind_bytes : {xs : Bytes} → drop from input ≡ xs → IsBytes xs
  behind_bytes e = rw e at (All-drop IsByte from input bytes)

  pub Takes-read_uint8 : {v : ℕ} → read_uint8 input from ≡ ok (v, to) → Takes input from (v ∷ []) to
  unfolding read_uint8
  Takes-read_uint8 {v} h =
      let (fits, room, moved, value) = checked-eq-ok 1 (λ i o. get_or i o 0) input from to h in
      let (a, rest, e) = one_of (drop from input) (omega (arith, length-drop from input)) in
      let a_eq : a ≡ v = sym (get_or_front input from _ e) ∙ value in
      rw moved (Takes-drop input from (v ∷ []) rest fits (e ∙ ap (λ x. x ∷ rest) a_eq))

  pub Takes-read_uint16 :
      {v : ℕ} → read_uint16 input from ≡ ok (v, to) → Takes input from (big_endian 2 v) to
  unfolding read_uint16 big_endian
  Takes-read_uint16 {v} h =
      let (fits, room, moved, value) = checked-eq-ok 2 two_bytes input from to h in
      let (a, b, rest, e) = two_of (drop from input) (omega (arith, length-drop from input)) in
      let bs : IsBytes (a ∷ b ∷ rest) = behind_bytes e in
      let v_eq : v ≡ a * 256 + b =
        sym value ∙ two_bytes-eq input from a b rest e (omega arith) (omega arith) in
      let words : a ∷ b ∷ rest ≡ big_endian 2 v ++ rest = ground arith in
      rw moved (Takes-drop input from (big_endian 2 v) rest fits (e ∙ words))

  pub Takes-read_uint32 :
      {v : ℕ}
      → read_uint32 input from ≡ ok (v, to)
      → Takes input from (big_endian 4 v) to × (v < 2 ^ 32)
  unfolding read_uint32 big_endian
  Takes-read_uint32 {v} h =
      let (fits, room, moved, value) =
        checked-eq-ok 4 (λ i o. shift_in 32 i o 4 0 0) input from to h in
      let (a, b, c, d, rest, e) =
        four_of (drop from input) (omega (arith, length-drop from input)) in
      let bs : IsBytes (a ∷ b ∷ c ∷ d ∷ rest) = behind_bytes e in
      let v_eq : v ≡ join4 a b c d =
        sym value
        ∙ shift_in-drop 32 input from 4 0 0
        ∙ ap (λ t. shift_in 32 t 0 4 0 0) e
        ∙ shift_in32 a b c d rest (omega arith) (omega arith) (omega arith) (omega arith) in
      let words : a ∷ b ∷ c ∷ d ∷ rest ≡ big_endian 4 v ++ rest =
        ap (λ t. t ++ rest) (sym (big_endian-join4 a b c d (omega arith)))
        ∙ ap (λ w. big_endian 4 w ++ rest) (sym v_eq) in
      (rw moved (Takes-drop input from (big_endian 4 v) rest fits (e ∙ words)), omega arith)

  pub Takes-read_uint64 :
      {v : ℕ}
      → read_uint64 input from ≡ ok (v, to)
      → Takes input from (big_endian 8 v) to × (v < 2 ^ 64)
  unfolding read_uint64 big_endian
  Takes-read_uint64 {v} h =
      let (fits, room, moved, value) =
        checked-eq-ok 8 (λ i o. shift_in 64 i o 8 0 0) input from to h in
      let (a, b, c, d, tail, e1) =
        four_of (drop from input) (omega (arith, length-drop from input)) in
      let (a', b', c', d', rest, e2) =
        four_of tail (omega (arith, ap length e1, length-drop from input)) in
      let e : drop from input ≡ a ∷ b ∷ c ∷ d ∷ a' ∷ b' ∷ c' ∷ d' ∷ rest =
        e1 ∙ ap (λ t. a ∷ b ∷ c ∷ d ∷ t) e2 in
      let bs : IsBytes (a ∷ b ∷ c ∷ d ∷ a' ∷ b' ∷ c' ∷ d' ∷ rest) = behind_bytes e in
      let v_eq : v ≡ join4 a b c d * 2 ^ 32 + join4 a' b' c' d' =
        sym value
        ∙ shift_in-drop 64 input from 8 0 0
        ∙ ap (λ t. shift_in 64 t 0 8 0 0) e
        ∙ shift_in64 a b c d a' b' c' d' rest (omega arith) in
      let words : a ∷ b ∷ c ∷ d ∷ a' ∷ b' ∷ c' ∷ d' ∷ rest ≡ big_endian 8 v ++ rest =
        ap (λ t. t ++ rest) (sym (big_endian_join8 a b c d a' b' c' d' (omega arith)))
        ∙ ap (λ w. big_endian 8 w ++ rest) (sym v_eq) in
      (rw moved (Takes-drop input from (big_endian 8 v) rest fits (e ∙ words)), omega arith)
