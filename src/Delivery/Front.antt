-- ===== src/Delivery/Front.antt =====
-- The front of a log, which is what `sendMessages` (src/main.cpp) sends, and its end, where `append` puts
-- a message.
use log_bridge.Base.{
  ℕ, zero, suc, ◌≤◌, ◌<◌, ◌≡◌, refl, sym, ap, ◌∙◌, arith, inl, inr, List, [], ◌∷◌, ◌++◌, take,
  length, min,
}
use log_bridge.Message.{Bytes, LogMessage}
use log_bridge.Protocol.Batch.{IsRun}
use log_bridge.WriteAheadLog.Load.{IsLog, last_id, last_id-last_or}
use log_bridge.Client.Sending.{batch_at, count_at}
use log_bridge.Client.Batches.{IsRun-take}
use log_bridge.Delivery.Members.{In}
use log_bridge.Delivery.{IsFront}

-- A message behind all others of its client.
IsRun-snoc :
    (client_id : Bytes) (previous_id : ℕ) (ms : List LogMessage) (m : LogMessage)
    → IsRun client_id previous_id ms
    → m.client_id ≡ client_id
    → previous_id < m.id
    → ((o : LogMessage) → In o ms → o.id < m.id)
    → log_bridge.Protocol.Record.IsEncodable m
    → IsRun client_id previous_id (ms ++ m ∷ [])
IsRun-snoc client_id previous_id [] m run same above behind encodable = (same, above, encodable, tt)
IsRun-snoc client_id previous_id (x ∷ rest) m run same above behind encodable = (
  run.0,
  run.1,
  run.2,
  IsRun-snoc client_id x.id rest m run.3 same (behind x (inl refl)) (λ o h. behind o (inr h))
      encodable,
)

pub IsLog-snoc :
    (client_id : Bytes) (ms : List LogMessage) (m : LogMessage)
    → IsLog ms
    → ((o : LogMessage) → In o ms → (o.client_id ≡ client_id) × (o.id < m.id))
    → m.client_id ≡ client_id
    → log_bridge.Protocol.Record.IsEncodable m
    → IsLog (ms ++ m ∷ [])
IsLog-snoc client_id [] m run known same encodable =
    (refl, omega (arith, encodable.id_set), encodable, tt)
IsLog-snoc client_id (x ∷ rest) m run known same encodable =
    IsRun-snoc x.client_id 0 (x ∷ rest) m run (same ∙ sym (known x (inl refl)).0)
      (omega (arith, encodable.id_set)) (λ o h. (known o h).1) encodable

IsRun-above :
    (client_id : Bytes) (previous_id : ℕ) (ms : List LogMessage) (m : LogMessage)
    → IsRun client_id previous_id ms
    → In m ms
    → previous_id < m.id
IsRun-above client_id previous_id [] m run h = absurd h
IsRun-above client_id previous_id (x ∷ rest) m run (inl e) =
    omega (arith, run.1, ap (λ (o : LogMessage). o.id) e)
IsRun-above client_id previous_id (x ∷ rest) m run (inr h) =
    omega (arith, run.1, IsRun-above client_id x.id rest m run.3 h)

In-take : (n : ℕ) (m : LogMessage) (ms : List LogMessage) → In m (take n ms) → In m ms
In-take zero m ms h = absurd h
In-take (suc n) m [] h = absurd h
In-take (suc n) m (x ∷ rest) (inl e) = inl e
In-take (suc n) m (x ∷ rest) (inr h) = inr (In-take n m rest h)

-- Nothing up to the last id of a front is behind it.
In-take_last :
    (client_id : Bytes) (previous_id n : ℕ) (ms : List LogMessage) (m : LogMessage)
    → IsRun client_id previous_id ms
    → In m ms
    → m.id ≤ last_id previous_id (take n ms)
    → In m (take n ms)
In-take_last client_id previous_id zero ms m run h le =
    absurd (omega (arith, le, IsRun-above client_id previous_id ms m run h))
In-take_last client_id previous_id (suc n) [] m run h le = absurd h
In-take_last client_id previous_id (suc n) (x ∷ rest) m run (inl e) le = inl e
In-take_last client_id previous_id (suc n) (x ∷ rest) m run (inr h) le =
    inr (In-take_last client_id x.id n rest m run.3 h le)

-- The first batch of a log with messages may be sent: it has a message, is in order, and leaves none
-- out up to its last id.
pub batch_at-IsFront :
    (client_id : Bytes) (front : LogMessage) (rest : List LogMessage)
    → IsRun client_id 0 (front ∷ rest)
    → (others : List LogMessage) × (batch_at 0 (front ∷ rest) ≡ front ∷ others)
      × IsFront client_id (front ∷ rest) front others
batch_at-IsFront client_id front rest run = (
  take n rest,
  ap (λ k. take k (front ∷ rest)) {x = count_at 0 (front ∷ rest)} {y = suc n} (omega arith),
  record {
    run = IsRun-take client_id 0 (suc n) (front ∷ rest) run;
    from_log = λ m here. In-take (suc n) m (front ∷ rest) here;
    no_gap = λ m here le.
        In-take_last client_id 0 (suc n) (front ∷ rest) m run here
          (omega (arith, le, last_id-last_or front (take n rest)));
  },
)
  where
    n : ℕ
    n = min 9 (length rest)
