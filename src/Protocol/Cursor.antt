-- ===== src/Protocol/Cursor.antt =====
-- How readers compose: what stands behind the offset, and what a reader took from it.
use log_bridge.Base.{
  ℕ, ◌+◌, ◌-◌, ◌≤◌, ◌≡◌, refl, sym, ap, ◌∙◌, arith, [], ◌++◌, append_assoc, length, length-append,
  length-drop, drop, drop-drop, drop-append_length, take, take-append_length, Result, ok, err,
  length-take, take-append-drop, All-drop, All-append_left, Result-cases, inl, inr,
}
use log_bridge.Message.{Bytes, IsByte, IsBytes}
use log_bridge.Protocol.Reader.{Reader, pure, lift, ◌>>=◌}
use log_bridge.Protocol.Read.{require_bytes, require, advance, read_string}

-- Where `xs` stands behind the offset, `r` returns `a` and moves behind `xs`.
pub record Parses {A : Type 0} (r : Reader A) (xs : Bytes) (a : A) : Type 0 where
  pub at :
      (input : Bytes) (offset : ℕ) (rest : Bytes)
      → drop offset input ≡ xs ++ rest
      → offset ≤ length input
      → r input offset ≡ ok (a, offset + length xs)

pub length_behind :
    (input : Bytes) (offset : ℕ) (xs rest : Bytes)
    → drop offset input ≡ xs ++ rest
    → length input - offset ≡ length xs + length rest
length_behind input offset xs rest e =
    omega (arith, length-drop offset input, ap length e, length-append xs rest)

pub drop_behind :
    (input : Bytes) (offset : ℕ) (xs rest : Bytes)
    → drop offset input ≡ xs ++ rest
    → drop (offset + length xs) input ≡ rest
drop_behind input offset xs rest e =
    sym (drop-drop offset (length xs) input) ∙ ap (drop (length xs)) e ∙ drop-append_length xs rest

module _ {A : Type 0} where
  pub Parses-pure : (a : A) → Parses (pure a) [] a
  unfolding pure
  Parses-pure a = record { at = λ input offset rest e fits. ground arith }

  pub Parses-lift : (a : A) → Parses (lift (ok a)) [] a
  unfolding lift
  Parses-lift a = record { at = λ input offset rest e fits. ground arith }

module _ {A B : Type 0} where
  pub Parses-bind :
      {r : Reader A} {xs : Bytes} {a : A} (f : A → Reader B) {ys : Bytes} {b : B}
      → Parses r xs a
      → Parses (f a) ys b
      → Parses (r >>= f) (xs ++ ys) b
  unfolding ◌>>=◌
  Parses-bind {r} {xs} {a} f {ys} {b} p q = record {
    at = λ input offset rest e fits.
        let split : drop offset input ≡ xs ++ (ys ++ rest) = e ∙ append_assoc xs ys rest in
        let room : length input - offset ≡ length xs + length (ys ++ rest) =
          length_behind input offset xs (ys ++ rest) split in
        rw (p.at input offset (ys ++ rest) split fits) (
          q.at input (offset + length xs) rest (drop_behind input offset xs (ys ++ rest) split)
            (omega arith)
          ∙ ap (λ (n : ℕ). ok (b, n)) (omega (arith, length-append xs ys)));
  }

-- `xs` is what `input` holds between two offsets.
pub record Takes (input : Bytes) (from : ℕ) (xs : Bytes) (to : ℕ) : Type 0 where
  pub split : drop from input ≡ xs ++ drop to input
  pub moved : to ≡ from + length xs
  pub within : to ≤ length input

pub Takes-trans :
    {input : Bytes} {a b c : ℕ} (xs ys : Bytes)
    → Takes input a xs b
    → Takes input b ys c
    → Takes input a (xs ++ ys) c
Takes-trans {input} {a} {b} {c} xs ys p q = record {
  split = p.split ∙ ap (λ t. xs ++ t) q.split ∙ sym (append_assoc xs ys (drop c input));
  moved = omega (arith, p.moved, q.moved, length-append xs ys);
  within = q.within;
}

pub Takes-nil : (input : Bytes) (a : ℕ) → a ≤ length input → Takes input a [] a
Takes-nil input a h = record { split = refl; moved = omega arith; within = h }

pub Takes-IsBytes :
    {input : Bytes} {a b : ℕ} (xs : Bytes) → IsBytes input → Takes input a xs b → IsBytes xs
Takes-IsBytes {input} {a} {b} xs bytes t =
    All-append_left IsByte xs (drop b input) (rw t.split at (All-drop IsByte a input bytes))

module _ {A B : Type 0} where
  -- A sequence that returned: its first part did, and the rest went on from there.
  pub Reader-bind-eq-ok :
      (r : Reader A) (f : A → Reader B) (input : Bytes) (from to : ℕ) {b : B}
      → (r >>= f) input from ≡ ok (b, to)
      → (a : A) × (mid : ℕ) × (r input from ≡ ok (a, mid)) × (f a input mid ≡ ok (b, to))
  unfolding ◌>>=◌
  Reader-bind-eq-ok r f input from to h = elim (Result-cases (r input from)) [
    | inl ((a, mid), e) ↦ (a, mid, e, ground arith)
    | inr (x, e) ↦ absurd (ground arith)
  ]

  pub Reader-bind-cases {ℓ} :
      {C : Type ℓ} (r : Reader A) (f : A → Reader B) (input : Bytes) (from to : ℕ) {b : B}
      → (r >>= f) input from ≡ ok (b, to)
      → ((a : A) (mid : ℕ) → r input from ≡ ok (a, mid) → f a input mid ≡ ok (b, to) → C)
      → C
  Reader-bind-cases r f input from to h k =
      let (a, mid, e, e') = Reader-bind-eq-ok r f input from to h in k a mid e e'

pub pure-eq-ok :
    {A : Type 0} (a : A) (input : Bytes) (from to : ℕ) {b : A}
    → pure a input from ≡ ok (b, to)
    → (a ≡ b) × (from ≡ to)
unfolding pure
pure-eq-ok a input from to h = ground arith

pub lift-eq-ok :
    {A : Type 0} (r : Result A) (input : Bytes) (from to : ℕ) {a : A}
    → lift r input from ≡ ok (a, to)
    → (r ≡ ok a) × (from ≡ to)
unfolding lift
lift-eq-ok (ok a) input from to h = ground arith
lift-eq-ok (err e) input from to h = absurd (ground arith)

-- The bound check of `requireBytes`.
pub require-ok :
    (n : ℕ) (input : Bytes) (offset : ℕ)
    → offset ≤ length input
    → n ≤ length input - offset
    → require n input offset ≡ ok (tt, offset)
unfolding require require_bytes lift
require-ok n input offset h k = ground arith

pub require-eq-ok :
    (n : ℕ) (input : Bytes) (offset to : ℕ) {u : Unit {0}}
    → require n input offset ≡ ok (u, to)
    → (offset ≤ length input) × (n ≤ length input - offset) × (to ≡ offset)
unfolding require require_bytes lift
require-eq-ok n input offset to h = ground arith

module _ {A : Type 0} (n : ℕ) (value : Bytes → ℕ → A) where
  -- A checked read of `n` bytes returns what its expression makes of them.
  pub Parses-checked :
      (xs : Bytes) (a : A)
      → length xs ≡ n
      → ((input : Bytes) (offset : ℕ) (rest : Bytes)
          → drop offset input ≡ xs ++ rest
          → value input offset ≡ a)
      → Parses (require n >>= λ _. advance n value) xs a
  unfolding ◌>>=◌ advance
  Parses-checked xs a size reads = record {
    at = λ input offset rest e fits.
        rw (require-ok n input offset fits (omega (arith, length_behind input offset xs rest e)))
          (rw (reads input offset rest e) (ap (λ (k : ℕ). ok (a, offset + k)) (sym size)));
  }

  -- A checked read that returned had its `n` bytes.
  pub checked-eq-ok :
      (input : Bytes) (from to : ℕ) {a : A}
      → (require n >>= λ _. advance n value) input from ≡ ok (a, to)
      → (from ≤ length input) × (n ≤ length input - from) × (to ≡ from + n) × (value input from ≡ a)
  unfolding ◌>>=◌ advance
  checked-eq-ok input from to h =
      let (u, mid, e, f) = Reader-bind-eq-ok (require n) (λ _. advance n value) input from to h in
      let (fits, room, stays) = require-eq-ok n input from mid e in
      (fits, room, ground arith, ground arith)

pub Takes-drop :
    (input : Bytes) (from : ℕ) (xs rest : Bytes)
    → from ≤ length input
    → drop from input ≡ xs ++ rest
    → Takes input from xs (from + length xs)
Takes-drop input from xs rest fits e = record {
  split = rw (drop_behind input from xs rest e) e;
  moved = refl;
  within = omega (arith, length_behind input from xs rest e);
}

pub Parses-read_string : (xs : Bytes) → Parses (read_string (length xs)) xs xs
unfolding read_string
Parses-read_string xs =
    Parses-checked (length xs) _ xs xs refl
      (λ input offset rest e. ap (take (length xs)) e ∙ take-append_length xs rest)

pub Takes-read_string :
    (n : ℕ) (input : Bytes) (from to : ℕ) {xs : Bytes}
    → read_string n input from ≡ ok (xs, to)
    → Takes input from xs to × (length xs ≡ n)
unfolding read_string
Takes-read_string n input from to {xs} h =
    let (fits, room, moved, value) = checked-eq-ok n _ input from to h in
    let size : length xs ≡ n =
      omega (arith, ap length value, length-take n (drop from input), length-drop from input) in
    let split : drop from input ≡ xs ++ drop n (drop from input) =
      rw (← value) (sym (take-append-drop n (drop from input))) in
    let to_eq : to ≡ from + length xs = omega arith in
    (rw to_eq (Takes-drop input from xs _ fits split), size)
