-- ===== src/Delivery/Server.antt =====
-- The server's steps keep the invariant.
use log_bridge.Base.{
  InAll, InAll-append_left, InAll-append_right, ℕ, ◌≤◌, ◌<◌, ◌≡◌, ◌≢◌, max, sym, ap, arith, leb,
  Bool-cases, ◌⊎◌, inl, inr, List, ◌∷◌, ◌++◌, Result, ok, err,
}
use mathlib.Core.Path.{subst}
use log_bridge.Message.{Bytes, LogMessage}
use log_bridge.Protocol.Batch.{IsRun}
use log_bridge.Storage.World.{World}
use log_bridge.Network.Peers.{last_message_id}
use log_bridge.Dedup.Store.{DedupStore, highest_confirmed}
use log_bridge.Server.Loop as Loop
use log_bridge.Server.Batch.{fresh, HandleEnds, handle_batch-HandleEnds}
use log_bridge.Delivery.Members.{In, In-fresh}
use log_bridge.Delivery.{System, acked_by, handled}
use log_bridge.Delivery.Invariant.{watermark, Outputs, IsSafe, Invariant, Invariant-served}

-- What a handled batch does to the watermark of its client.
record Raises (before last : ℕ) (acks acks' : List ℕ) (after : ℕ) : Type 0 where
  no_lower : before ≤ after
  no_higher : after ≤ max before last
  acked : (id : ℕ) → InAll id acks' → InAll id acks ⊎ (id ≤ after)

module _ (client_id path : Bytes) (s : System) (front : LogMessage) (rest : List LogMessage)
    (w : World) where
  abbrev batch : List LogMessage
  batch = front ∷ rest

  abbrev outcome : Result ℕ × Loop.Server × World
  outcome = Loop.handle_batch front rest s.server w

  module _ (i : Invariant client_id path s) (here : InAll batch s.wires) where
    run : IsRun client_id 0 batch
    run = i.runs batch here

    own_run : IsRun front.client_id 0 batch
    own_run = subst (λ c. IsRun c 0 batch) (sym (run.0)) run

    ends :
        (outcome.1.output ≡ s.server.output ++ fresh (watermark front.client_id s) batch)
        × HandleEnds front rest s.server outcome.0 outcome.1.store
    ends = handle_batch-HandleEnds front rest s.server w own_run

    Raises-ends :
        (r : Result ℕ) (store : DedupStore)
        → HandleEnds front rest s.server r store
        → Raises
            (watermark client_id s)
            (last_message_id batch)
            s.acks
            (acked_by r s.acks)
            (highest_confirmed client_id store)
    Raises-ends (ok id) store h = record {
      no_lower = omega (arith, top);
      no_higher = omega (arith, top, h.acked);
      acked = known;
    }
      where
        top : highest_confirmed client_id store ≡ max (watermark client_id s) id
        top =
            subst (λ c. highest_confirmed c store ≡ max (highest_confirmed c s.server.store) id)
              (run.0) h.risen

        known :
            (k : ℕ)
            → InAll k (id ∷ s.acks)
            → InAll k s.acks ⊎ (k ≤ highest_confirmed client_id store)
        known k (inl e) = inr (omega (arith, e, top))
        known k (inr h) = inl h
    Raises-ends (err e) store h =
        let same = ap (highest_confirmed client_id) h in
        record {
          no_lower = omega (arith, same);
          no_higher = omega (arith, same);
          acked = λ k h. inl h;
        }

    raises :
        Raises
          (watermark client_id s)
          (last_message_id batch)
          s.acks
          (acked_by outcome.0 s.acks)
          (highest_confirmed client_id outcome.1.store)
    raises = Raises-ends outcome.0 outcome.1.store ends.1

    prints : (m : LogMessage) → Outputs s m → In m outcome.1.output
    prints m h =
        subst (In m) (sym (ends.0))
          (InAll-append_left m s.server.output (fresh (watermark front.client_id s) batch) h)

    covers :
        (m : LogMessage)
        → IsSafe client_id s m
        → m.id ≤ highest_confirmed client_id outcome.1.store
        → In m outcome.1.output
    covers m safe le = elim (Bool-cases (leb m.id (watermark client_id s))) [
      | inl old ↦ prints m (safe.covered (ground arith))
      | inr new ↦ passed (ground arith) (safe.passed batch here (ground (arith, raises.no_higher)))
    ]
      where
        passed : watermark client_id s < m.id → In m batch ⊎ Outputs s m → In m outcome.1.output
        passed new (inr h) = prints m h
        passed new (inl h) = subst (In m) (sym (ends.0)) (
            InAll-append_right m s.server.output (fresh (watermark front.client_id s) batch) (
              In-fresh (watermark front.client_id s) m batch
                (subst (λ c. watermark c s < m.id) (sym (run.0)) new) h))

    pub Invariant-handled : Invariant client_id path (handled s outcome)
    Invariant-handled =
        Invariant-served client_id path s outcome.1 (acked_by outcome.0 s.acks)
          (record {
            printed = prints;
            covered = covers;
            below = λ n some above. omega (
              arith,
              raises.no_higher,
              i.watermark_below n some above,
              i.wires_below batch n here above,
            );
            acked = λ id h. known id (raises.acked id h);
          })
          i
      where
        known :
            (id : ℕ)
            → InAll id s.acks ⊎ (id ≤ highest_confirmed client_id outcome.1.store)
            → id ≤ highest_confirmed client_id outcome.1.store
        known id (inl h) = omega (arith, i.acked id h, raises.no_lower)
        known id (inr h) = h

  module _ (i : Invariant client_id path s) (differ : front.client_id ≢ client_id)
      (run : IsRun front.client_id 0 (front ∷ rest)) where
    others :
        (r : Result ℕ) (store : DedupStore)
        → HandleEnds front rest s.server r store
        → highest_confirmed client_id store ≡ watermark client_id s
    others (ok id) store h = h.others client_id (λ e. differ (sym e))
    others (err e) store h = ap (highest_confirmed client_id) h

    pub Invariant-other : Invariant client_id path (record s { server = outcome.1 })
    Invariant-other =
        let (grown, ends) = handle_batch-HandleEnds front rest s.server w run in
        let same = others outcome.0 outcome.1.store ends in
        let prints : (m : LogMessage) → Outputs s m → In m outcome.1.output = λ m h.
          subst (In m) (sym grown)
            (InAll-append_left m s.server.output (fresh (watermark front.client_id s) batch) h) in
        Invariant-served client_id path s outcome.1 s.acks
          (record {
            printed = prints;
            covered = λ m safe le. prints m (safe.covered (omega (arith, le, same)));
            below = λ n some above. omega (arith, same, i.watermark_below n some above);
            acked = λ id h. omega (arith, same, i.acked id h);
          })
          i
