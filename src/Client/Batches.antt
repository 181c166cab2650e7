-- ===== src/Client/Batches.antt =====
-- The batches that `sendMessages` cuts, and its loop.
use log_bridge.Base.{
  ℕ, zero, suc, ◌+◌, ◌-◌, ◌*◌, ◌≤◌, ◌<◌, min, ltb, ◌≡◌, refl, sym, ap, ◌∙◌, arith, Bool, true,
  false, Bool-cases, ◌⊎◌, inl, inr, List, [], ◌∷◌, length, take, drop, length-take, length-drop,
}
use log_bridge.Message.{Bytes, LogMessage}
use log_bridge.Protocol.Batch.{IsRun, records_size}
use log_bridge.Protocol.BatchFrame.{IsBatch}
use log_bridge.WriteAheadLog.Load.{IsLog}
use log_bridge.WriteAheadLog.Confirm.{IsRun-lower, IsLog_of_IsRun}
use log_bridge.Client.Sending.{
  Round, Sender, Delivered, Delivery, confirmed, stopped, trying, attempt, failed, next_delay,
  deliver_loop, deliver_with_retry, batch_at, count_at, initial_retry_delay, send_batch_size,
  send_batches, send_messages,
}

pub IsRun-take :
    (client_id : Bytes) (previous_id n : ℕ) (ms : List LogMessage)
    → IsRun client_id previous_id ms
    → IsRun client_id previous_id (take n ms)
IsRun-take client_id previous_id zero ms run = tt
IsRun-take client_id previous_id (suc n) [] run = tt
IsRun-take client_id previous_id (suc n) (m ∷ rest) run =
    (run.0, run.1, run.2, IsRun-take client_id m.id n rest run.3)

IsRun-drop :
    (client_id : Bytes) (previous_id n : ℕ) (ms : List LogMessage)
    → IsRun client_id previous_id ms
    → IsRun client_id previous_id (drop n ms)
IsRun-drop client_id previous_id zero ms run = run
IsRun-drop client_id previous_id (suc n) [] run = tt
IsRun-drop client_id previous_id (suc n) (m ∷ rest) run =
    IsRun-lower client_id previous_id m.id (drop n rest) (omega (arith, run.1))
      (IsRun-drop client_id m.id n rest run.3)

pub IsLog-drop : (n : ℕ) (ms : List LogMessage) → IsLog ms → IsLog (drop n ms)
IsLog-drop zero ms run = run
IsLog-drop (suc n) [] run = tt
IsLog-drop (suc n) (m ∷ rest) run =
    IsLog_of_IsRun m.client_id (drop n rest) (IsRun-drop m.client_id 0 (suc n) (m ∷ rest) run)

pub IsLog-take : (n : ℕ) (ms : List LogMessage) → IsLog ms → IsLog (take n ms)
IsLog-take zero ms run = tt
IsLog-take (suc n) [] run = tt
IsLog-take (suc n) (m ∷ rest) run = IsRun-take m.client_id 0 (suc n) (m ∷ rest) run

-- Fixed fields, a client id, a source and a content of the greatest lengths.
abbrev greatest_record_size : ℕ
greatest_record_size = 1052828

records_size-le :
    (client_id : Bytes) (previous_id : ℕ) (ms : List LogMessage)
    → IsRun client_id previous_id ms
    → records_size ms ≤ length ms * greatest_record_size
records_size-le client_id previous_id [] run = omega arith
records_size-le client_id previous_id (m ∷ rest) run = omega (
  arith,
  run.2.client_id_short,
  run.2.source_short,
  run.2.content_short,
  records_size-le client_id m.id rest run.3,
)

-- Ten messages of a log fit into a frame, whatever their lengths.
pub IsLog-IsBatch :
    (ms : List LogMessage) → IsLog ms → 1 ≤ length ms → length ms ≤ send_batch_size → IsBatch ms
IsLog-IsBatch [] run some few = absurd (omega arith)
IsLog-IsBatch (m ∷ rest) run some few =
    (omega (arith, few), run, omega (arith, few, records_size-le m.client_id 0 (m ∷ rest) run))

length-batch_at :
    (offset : ℕ) (ms : List LogMessage)
    → length (batch_at offset ms) ≡ min send_batch_size (length ms - offset)
length-batch_at offset ms = omega (
  arith,
  length-take (min send_batch_size (length ms - offset)) (drop offset ms),
  length-drop offset ms,
)

-- Each batch that sendMessages cuts from a log, at an offset inside it, fits into one frame: it has
-- one to ten messages of one client with growing ids, and its records are within the payload limit,
-- whatever the lengths of their fields.
pub batch_at-IsBatch :
    (offset : ℕ) (ms : List LogMessage)
    → IsLog ms
    → offset < length ms
    → IsBatch (batch_at offset ms)
batch_at-IsBatch offset ms run inside =
    IsLog-IsBatch (batch_at offset ms)
      (IsLog-take (min send_batch_size (length ms - offset)) (drop offset ms)
        (IsLog-drop offset ms run))
      (omega (arith, length-batch_at offset ms)) (omega (arith, length-batch_at offset ms))

-- `deliverWithRetry` goes on as long as there are rounds.
abbrev pub TriesOn : Delivered → Type 0
TriesOn d = d.result ≡ trying → d.left ≡ []

deliver_loop-TriesOn :
    (rounds : List Round) (delay : ℕ) (batch : List LogMessage) (sender : Sender)
    → TriesOn (deliver_loop rounds delay batch sender)
unfolding deliver_loop
deliver_loop-TriesOn [] delay batch sender = λ h. refl
deliver_loop-TriesOn (round ∷ rounds) delay batch sender = elim (Bool-cases round.running) [
  | inr off ↦ rw (off, deliver_loop) (λ h. cc)
  | inl on ↦ elim (log_bridge.Base.Result-cases (attempt batch round sender).0) [
    | inl (id, done) ↦ rw (on, done, deliver_loop) (λ h. cc)
    | inr (e, thrown) ↦ elim (Bool-cases round.resumed) [
      | inr off ↦ rw (on, thrown, off, deliver_loop) (λ h. cc)
      | inl resumed ↦
          rw (on, thrown, resumed, deliver_loop)
            (deliver_loop-TriesOn rounds (next_delay delay) batch
              (failed (attempt batch round sender).1))
    ]
  ]
]

Delivery-cases : (r : Delivery) → (r ≡ confirmed) ⊎ ((r ≡ stopped) ⊎ (r ≡ trying))
Delivery-cases confirmed = inl refl
Delivery-cases stopped = inr (inl refl)
Delivery-cases trying = inr (inr refl)

send_batches-TriesOn :
    (fuel offset : ℕ) (ms : List LogMessage) (rounds : List Round) (sender : Sender)
    → length ms < offset + fuel
    → offset ≤ length ms
    → TriesOn (send_batches fuel offset ms rounds sender)
unfolding send_batches deliver_with_retry
send_batches-TriesOn zero offset ms rounds sender enough within = absurd (omega arith)
send_batches-TriesOn (suc fuel) offset ms rounds sender enough within =
    let d = deliver_with_retry rounds (batch_at offset ms) sender in
    let first = deliver_loop-TriesOn rounds initial_retry_delay (batch_at offset ms) sender in
    elim (Bool-cases (ltb offset (length ms))) [
      | inr past ↦ rw (past, send_batches) (λ h. cc)
      | inl inside ↦ elim (Delivery-cases d.result) [
        | inl done ↦
            rw (inside, done, send_batches)
              (send_batches-TriesOn fuel (offset + count_at offset ms) ms d.left d.sender
                (ground arith) (ground arith))
        | inr (inl off) ↦ rw (inside, off, send_batches) (λ h. cc)
        | inr (inr on) ↦ rw (inside, on, send_batches) first
      ]
    ]

-- The loop of sendMessages ends within as many rounds as there are messages: it returns true or
-- false, unless deliverWithRetry has used up all its rounds and goes on.
pub send_messages-TriesOn :
    (ms : List LogMessage) (rounds : List Round) (sender : Sender)
    → TriesOn (send_messages ms rounds sender)
unfolding send_messages
send_messages-TriesOn ms rounds sender =
    send_batches-TriesOn (suc (length ms)) 0 ms rounds sender (omega arith) (omega arith)
