-- ===== src/Client/Retry.antt =====
-- What `deliverWithRetry` does over any number of rounds.
use log_bridge.Base.{
  ℕ, zero, suc, ◌*◌, ◌^◌, min, ◌≡◌, refl, sym, ap, arith, inl, inr, Bool-cases, Result-cases, List,
  [], ◌∷◌, length,
}
use mathlib.Core.Path.{subst}
use log_bridge.Message.{LogMessage}
use log_bridge.Client.Sending.{
  Round, Sender, attempt, failed, next_delay, initial_retry_delay, max_retry_delay, deliver_loop,
  deliver_with_retry,
}

-- The k-th wait of a backoff that doubles up to a limit.
abbrev pub delay_of : ℕ → ℕ
delay_of k = min (initial_retry_delay * 2 ^ k) max_retry_delay

abbrev pub delays_from : ℕ → ℕ → List ℕ
delays_from k zero = []
delays_from k (suc n) = delay_of k ∷ delays_from (suc k) n

double : (k : ℕ) → 2 ^ suc k ≡ 2 ^ k * 2
double k = omega arith

next_delay-delay_of : (k : ℕ) → next_delay (delay_of k) ≡ delay_of (suc k)
next_delay-delay_of k = omega (arith, double k)

delays_after :
    (rounds : List Round) (k : ℕ) (batch : List LogMessage) (sender : Sender)
    → (let d = deliver_loop rounds (delay_of (suc k)) batch sender in
        d.waits ≡ delays_from (suc k) (length d.waits))
    → let d = deliver_loop rounds (next_delay (delay_of k)) batch sender in
      delay_of k ∷ d.waits ≡ delay_of k ∷ delays_from (suc k) (length d.waits)
delays_after rounds k batch sender h =
    subst
      (λ delay.
        let d = deliver_loop rounds delay batch sender in
        delay_of k ∷ d.waits ≡ delay_of k ∷ delays_from (suc k) (length d.waits))
      (sym (next_delay-delay_of k)) (ap (λ t. delay_of k ∷ t) h)

deliver_loop-waits :
    (rounds : List Round) (k : ℕ) (batch : List LogMessage) (sender : Sender)
    → let d = deliver_loop rounds (delay_of k) batch sender in
      d.waits ≡ delays_from k (length d.waits)
unfolding deliver_loop
deliver_loop-waits [] k batch sender = refl
deliver_loop-waits (round ∷ rounds) k batch sender = elim (Bool-cases round.running) [
  | inr off ↦ rw (off, deliver_loop) refl
  | inl on ↦ elim (Result-cases (attempt batch round sender).0) [
    | inl (id, done) ↦ rw (on, done, deliver_loop) refl
    | inr (e, thrown) ↦ elim (Bool-cases round.resumed) [
      | inr off ↦ rw (on, thrown, off, deliver_loop) refl
      | inl resumed ↦
          rw (on, thrown, resumed, deliver_loop)
            (delays_after rounds k batch (failed (attempt batch round sender).1)
              (deliver_loop-waits rounds (suc k) batch (failed (attempt batch round sender).1)))
    ]
  ]
]

-- The delays that deliverWithRetry waits, over any rounds, are those of a doubling backoff: the
-- k-th, counted from 0, is 500 * 2 ^ k milliseconds, and 8000 at most.
pub deliver_with_retry-waits :
    (rounds : List Round) (batch : List LogMessage) (sender : Sender)
    → let d = deliver_with_retry rounds batch sender in d.waits ≡ delays_from 0 (length d.waits)
unfolding deliver_with_retry
deliver_with_retry-waits rounds batch sender = deliver_loop-waits rounds 0 batch sender
