-- ===== src/Network/Receiving.antt =====
-- `receiveExact` and `receiveFrame` against the stream of bytes, however it is cut into pieces.
use log_bridge.Base.{
  ℕ, zero, suc, ◌+◌, ◌-◌, ◌≤◌, min, ◌==◌, ◌≡◌, refl, sym, ap, ◌∙◌, arith, List, [], ◌∷◌, ◌++◌,
  append-nil, append_assoc, ◌⊎◌, length, length-append, length-take, length-drop, take, drop,
  take-append, drop-append, take-append-drop, All, Option, none, some, Result, ok, err, system,
  closed_in_frame, Bool-cases, inl, inr,
}
use mathlib.Core.Path.{subst}
use log_bridge.Message.{Bytes}
use log_bridge.Storage.Persistence.{eintr}
use log_bridge.Network.Socket.{Arrival, chunk, broken, closed, receive_loop}

-- No error but an interrupted call.
abbrev pub Transient : Arrival → Type 0
Transient (chunk n) = Unit {0}
Transient (broken e) = e ≡ eintr

pub record Filled (whole behind : Bytes) (r : Result (Option Bytes) × Bytes × List Arrival)
    : Type 0 where
  pub full : r.0 ≡ ok (some whole)
  pub left : r.1 ≡ behind
  pub steady : All Transient r.2

Filled-same :
    {whole whole' behind : Bytes} {r : Result (Option Bytes) × Bytes × List Arrival}
    → whole ≡ whole'
    → Filled whole behind r
    → Filled whole' behind r
Filled-same {behind = behind} {r = r} same h = subst (λ t. Filled t behind r) same h

-- The first byte of a piece, the rest of the piece, and what follows.
regroup :
    (received : Bytes) (b : ℕ) (j : ℕ) (front : Bytes)
    → (received ++ b ∷ take j front) ++ drop j front ≡ received ++ b ∷ front
regroup received b j front =
    append_assoc received (b ∷ take j front) (drop j front)
    ∙ ap (λ t. received ++ b ∷ t) (take-append-drop j front)

pub receive_loop-Filled :
    (arrivals : List Arrival) (received front behind : Bytes)
    → All Transient arrivals
    → Filled
        (received ++ front)
        behind
        (receive_loop arrivals received (length front) (front ++ behind))
unfolding receive_loop
receive_loop-Filled arrivals received [] behind steady = record {
  full = ap (λ t. ok (some t)) (sym (append-nil received));
  left = refl;
  steady = steady;
}
receive_loop-Filled [] received (b ∷ front) behind steady =
    Filled-same (append_assoc received (b ∷ []) front)
      (receive_loop-Filled [] (received ++ b ∷ []) front behind tt)
receive_loop-Filled (chunk n ∷ arrivals) received (b ∷ front) behind steady =
    rw (take-append j front behind short, drop-append j front behind short, missing, receive_loop)
      (Filled-same (regroup received b j front) (
        receive_loop-Filled arrivals (received ++ b ∷ take j front) (drop j front) behind steady.1))
  where
    j : ℕ
    j = min n (length front)

    short : j ≤ length front
    short = omega arith

    missing : length front - length (take j front) ≡ length (drop j front)
    missing = omega (arith, length-take j front, length-drop j front)
receive_loop-Filled (broken e ∷ arrivals) received (b ∷ front) behind steady =
    rw steady.0 (receive_loop-Filled arrivals received (b ∷ front) behind steady.1)

-- What a run says of the stream, whatever the calls answer: what was got is what stood in front, it is
-- all that was asked for where bytes are returned, and nothing where the end comes first.
abbrev pub Means : Bytes → ℕ → Bytes → Bytes → Result (Option Bytes) → Type 0
Means received missing got left (ok (some whole)) =
    (whole ≡ received ++ got) × (length got ≡ missing)
Means received missing got left (ok none) = (received ≡ []) × (got ≡ []) × (left ≡ [])
Means received missing got left (err e) =
    ((e ≡ closed_in_frame) × (left ≡ [])) ⊎ ((n : ℕ) × (e ≡ system n))

pub record Got (received : Bytes) (missing : ℕ) (incoming : Bytes)
    (r : Result (Option Bytes) × Bytes × List Arrival) : Type 0 where
  pub got : Bytes
  pub split : incoming ≡ got ++ r.1
  pub means : Means received missing got r.1 r.0

append-cons-ne-nil : (xs : Bytes) (b : ℕ) (ys : Bytes) → ¬ (xs ++ b ∷ ys ≡ [])
append-cons-ne-nil [] b ys h = cc
append-cons-ne-nil (x ∷ xs) b ys h = cc

module _ (received : Bytes) (b : ℕ) (piece : Bytes) (missing asked : ℕ)
    (counted : suc (length piece) + missing ≡ asked) where
  Means-later :
      (got left : Bytes) (r : Result (Option Bytes))
      → Means (received ++ b ∷ piece) missing got left r
      → Means received asked (b ∷ piece ++ got) left r
  Means-later got left (ok (some whole)) h =
      (h.0 ∙ append_assoc received (b ∷ piece) got, omega (arith, length-append piece got, h.1))
  Means-later got left (ok none) h = absurd (append-cons-ne-nil received b piece h.0)
  Means-later got left (err e) h = h

  Got-later :
      (incoming : Bytes) (r : Result (Option Bytes) × Bytes × List Arrival)
      → Got (received ++ b ∷ piece) missing incoming r
      → Got received asked (b ∷ piece ++ incoming) r
  Got-later incoming r h = record {
    got = b ∷ piece ++ h.got;
    split = ap (λ t. b ∷ piece ++ t) h.split ∙ sym (append_assoc (b ∷ piece) h.got r.1);
    means = Means-later h.got r.1 r.0 h.means;
  }

Means-closed : (received : Bytes) (missing : ℕ) → Means received missing [] [] (closed received)
Means-closed [] missing = (refl, refl, refl)
Means-closed (b ∷ received) missing = inl (refl, refl)

pub receive_loop-Got :
    (arrivals : List Arrival) (received : Bytes) (missing : ℕ) (incoming : Bytes)
    → Got received missing incoming (receive_loop arrivals received missing incoming)
unfolding receive_loop
receive_loop-Got arrivals received zero incoming = record {
  got = [];
  split = refl;
  means = (sym (append-nil received), refl);
}
receive_loop-Got [] received (suc missing) [] = record {
  got = [];
  split = refl;
  means = Means-closed received (suc missing);
}
receive_loop-Got [] received (suc missing) (b ∷ rest) =
    Got-later received b [] missing (suc missing) (omega arith) rest _
      (receive_loop-Got [] (received ++ b ∷ []) missing rest)
receive_loop-Got (chunk n ∷ arrivals) received (suc missing) [] = record {
  got = [];
  split = refl;
  means = Means-closed received (suc missing);
}
receive_loop-Got (chunk n ∷ arrivals) received (suc missing) (b ∷ rest) =
    subst
      (λ stream.
        Got received (suc missing) stream
          (receive_loop (chunk n ∷ arrivals) received (suc missing) (b ∷ rest)))
      (ap (λ t. b ∷ t) (take-append-drop j rest))
      (Got-later received b (take j rest) (missing - length (take j rest)) (suc missing) counted
        (drop j rest) _
        (receive_loop-Got arrivals (received ++ b ∷ take j rest) (missing - length (take j rest))
          (drop j rest)))
  where
    j : ℕ
    j = min n missing

    counted : suc (length (take j rest)) + (missing - length (take j rest)) ≡ suc missing
    counted = omega (arith, length-take j rest)
receive_loop-Got (broken e ∷ arrivals) received (suc missing) incoming =
    elim (Bool-cases (e == eintr)) [
      | inl same ↦
          rw (same, receive_loop) (receive_loop-Got arrivals received (suc missing) incoming)
      | inr other ↦
          rw (other, receive_loop) (record { got = []; split = refl; means = inr (e, refl) })
    ]
