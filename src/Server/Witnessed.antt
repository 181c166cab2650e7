-- ===== src/Server/Witnessed.antt =====
-- The server over any connections, whatever bytes they bring and wherever it throws.
use log_bridge.Base.{
  ℕ, ◌≤◌, ◌<◌, ◌≡◌, ◌≢◌, max, refl, sym, ap, ◌∙◌, arith, true, false, leb, bytes_eq, bytes_eq→eq,
  bytes_eq_refl, Bool-cases, ◌⊎◌, inl, inr, List, [], ◌∷◌, ◌++◌, InAll-append_left,
  InAll-append_right, last_or, Result, ok, err,
}
use mathlib.Core.Path.{subst}
use log_bridge.Message.{Bytes, LogMessage}
use log_bridge.Protocol.Batch.{IsRun}
use log_bridge.Storage.World.{World}
use log_bridge.Dedup.Store.{DedupStore, highest_confirmed}
use log_bridge.Delivery.Members.{In, In-last, In-fresh}
use log_bridge.Server.Loop.{Server, handle_batch}
use log_bridge.Server.Batch.{fresh, HandleEnds, handle_batch-HandleEnds}

-- A watermark is the id of a message of its client that was printed.
pub record Witness (client_id : Bytes) (id : ℕ) (output : List LogMessage) : Type 0 where
  pub message : LogMessage
  pub printed : In message output
  pub of_client : message.client_id ≡ client_id
  pub with_id : message.id ≡ id

abbrev pub IsWitnessedIn : Bytes → DedupStore → List LogMessage → Type 0
IsWitnessedIn client_id store output =
    (highest_confirmed client_id store ≡ 0)
    ⊎ Witness client_id (highest_confirmed client_id store) output

abbrev pub IsWitnessed : Server → Type 0
IsWitnessed s = (client_id : Bytes) → IsWitnessedIn client_id s.store s.output

-- The output keeps what it has, no watermark falls, and each is witnessed.
pub record Progresses (before after : Server) : Type 0 where
  pub printed : (m : LogMessage) → In m before.output → In m after.output
  pub no_lower :
      (client_id : Bytes)
      → highest_confirmed client_id before.store ≤ highest_confirmed client_id after.store
  pub witnessed : IsWitnessed after

pub Progresses-refl : (s : Server) → IsWitnessed s → Progresses s s
Progresses-refl s h = record {
  printed = λ m here. here;
  no_lower = λ c. omega arith;
  witnessed = h;
}

pub Progresses-trans : (a b c : Server) → Progresses a b → Progresses b c → Progresses a c
Progresses-trans a b c p q = record {
  printed = λ m here. q.printed m (p.printed m here);
  no_lower = λ client_id. omega (arith, p.no_lower client_id, q.no_lower client_id);
  witnessed = q.witnessed;
}

-- Every message of a run is of its client.
IsRun-In :
    (client_id : Bytes) (previous_id : ℕ) (ms : List LogMessage) (m : LogMessage)
    → IsRun client_id previous_id ms
    → In m ms
    → m.client_id ≡ client_id
IsRun-In client_id previous_id [] m run h = absurd h
IsRun-In client_id previous_id (x ∷ rest) m run (inl e) =
    ap (λ (o : LogMessage). o.client_id) e ∙ run.0
IsRun-In client_id previous_id (x ∷ rest) m run (inr h) = IsRun-In client_id x.id rest m run.3 h

module _ (front : LogMessage) (rest : List LogMessage) (s : Server) (w : World)
    (run : IsRun front.client_id 0 (front ∷ rest)) (h : IsWitnessed s) where
  abbrev last : LogMessage
  last = last_or rest front

  abbrev low : ℕ
  low = highest_confirmed front.client_id s.store

  -- The output of the batch, and watermarks that the handling leaves.
  module _ (store : DedupStore) (output : List LogMessage)
      (grown : output ≡ s.output ++ fresh low (front ∷ rest)) where
    printed_still : (m : LogMessage) → In m s.output → In m output
    printed_still m here =
        subst (In m) (sym grown) (InAll-append_left m s.output (fresh low (front ∷ rest)) here)

    old_or :
        (client_id : Bytes)
        → highest_confirmed client_id store ≡ highest_confirmed client_id s.store
        → IsWitnessedIn client_id store output
    old_or client_id same = go (h client_id)
      where
        go : IsWitnessedIn client_id s.store s.output → IsWitnessedIn client_id store output
        go (inl zero_yet) = inl (same ∙ zero_yet)
        go (inr x) = inr (record {
          message = x.message;
          printed = printed_still x.message x.printed;
          of_client = x.of_client;
          with_id = x.with_id ∙ sym same;
        })

    Witness-last : low < last.id → Witness front.client_id last.id output
    Witness-last above = record {
      message = last;
      printed = subst (In last) (sym grown) (
          InAll-append_right last s.output (fresh low (front ∷ rest))
            (In-fresh low last (front ∷ rest) above (In-last front rest)));
      of_client = IsRun-In front.client_id 0 (front ∷ rest) last run (In-last front rest);
      with_id = refl;
    }

    own :
        highest_confirmed front.client_id store ≡ max low last.id
        → IsWitnessedIn front.client_id store output
    own top = elim (Bool-cases (leb last.id low)) [
      | inl old ↦ old_or front.client_id (ground (arith, top))
      | inr new ↦
          let same : highest_confirmed front.client_id store ≡ last.id = ground (arith, top) in
          inr
            (subst (λ n. Witness front.client_id n output) (sym same) (Witness-last (ground arith)))
    ]

    ended :
        (r : Result ℕ) (after : Server)
        → after.store ≡ store
        → after.output ≡ output
        → HandleEnds front rest s r store
        → Progresses s after
    ended (err e) after at_store at_output same = record {
      printed = λ m here. subst (In m) (sym at_output) (printed_still m here);
      no_lower =
          λ c. omega (arith, ap (highest_confirmed c) at_store, ap (highest_confirmed c) same);
      witnessed = λ c.
          subst (λ x. IsWitnessedIn c x after.output) (sym at_store)
            (subst (IsWitnessedIn c store) (sym at_output)
              (old_or c (ap (highest_confirmed c) same)));
    }
    ended (ok id) after at_store at_output k = record {
      printed = λ m here. subst (In m) (sym at_output) (printed_still m here);
      no_lower = λ c. lower c (Bool-cases (bytes_eq c front.client_id));
      witnessed = λ c.
          subst (λ x. IsWitnessedIn c x after.output) (sym at_store)
            (subst (IsWitnessedIn c store) (sym at_output)
              (either c (Bool-cases (bytes_eq c front.client_id))));
    }
      where
        top : highest_confirmed front.client_id store ≡ max low last.id
        top = omega (arith, k.risen, k.acked)

        differ : (c : Bytes) → bytes_eq c front.client_id ≡ false → c ≢ front.client_id
        differ c e same = clash (sym (bytes_eq_refl c) ∙ ap (bytes_eq c) same ∙ e)
          where
            clash : true ≡ false → ⊥
            clash h = cc

        lower :
            (c : Bytes)
            → (bytes_eq c front.client_id ≡ true) ⊎ (bytes_eq c front.client_id ≡ false)
            → highest_confirmed c s.store ≤ highest_confirmed c after.store
        lower c (inl e) =
            subst (λ x. highest_confirmed x s.store ≤ highest_confirmed x after.store)
              (sym (bytes_eq→eq c front.client_id e))
              (omega (arith, top, ap (highest_confirmed front.client_id) at_store))
        lower c (inr e) = omega (arith, k.others c (differ c e), ap (highest_confirmed c) at_store)

        either :
            (c : Bytes)
            → (bytes_eq c front.client_id ≡ true) ⊎ (bytes_eq c front.client_id ≡ false)
            → IsWitnessedIn c store output
        either c (inl e) =
            subst (λ x. IsWitnessedIn x store output) (sym (bytes_eq→eq c front.client_id e))
              (own top)
        either c (inr e) = old_or c (k.others c (differ c e))

  pub handle_batch-Progresses : Progresses s (handle_batch front rest s w).1
  handle_batch-Progresses =
      let q = handle_batch front rest s w in
      let (grown, ends) = handle_batch-HandleEnds front rest s w run in
      ended q.1.store q.1.output grown q.0 q.1 refl refl ends
