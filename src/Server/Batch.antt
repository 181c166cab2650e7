-- ===== src/Server/Batch.antt =====
-- What the handling of one batch does to the output and the watermarks.
use log_bridge.Base.{
  ℕ, max, ◌≡◌, ◌≢◌, refl, sym, ap, ◌∙◌, arith, leb, ◌==◌, ◌||◌, Bool-cases, if◌then◌else◌, List, [],
  ◌∷◌, ◌++◌, append-nil, append_assoc, last_or, Result, ok, err, Exception, inl, inr,
}
use log_bridge.Message.{Bytes, LogMessage}
use log_bridge.Protocol.Batch.{IsRun}
use log_bridge.Storage.World.{World}
use log_bridge.WriteAheadLog.Load.{last_id, last_id-last_or}
use log_bridge.Dedup.Store.{DedupStore, put, highest_confirmed, moved, persist, is_empty, confirm}
use log_bridge.Dedup.Lookup.{Advances, confirm-Advances}
use log_bridge.Server.Loop.{
  Server, Progress, skipped, processed, process_messages, confirmed, started, finished,
  handle_batch,
}

-- The messages that a watermark does not cover.
abbrev pub fresh : ℕ → List LogMessage → List LogMessage
fresh watermark [] = []
fresh watermark (m ∷ rest) =
    let later = fresh watermark rest in if leb m.id watermark then later else m ∷ later

pub process_messages-lines :
    (watermark : ℕ) (ms : List LogMessage) (p : Progress)
    → (process_messages watermark ms p).lines ≡ p.lines ++ fresh watermark ms
unfolding process_messages
process_messages-lines watermark [] p = sym (append-nil p.lines)
process_messages-lines watermark (m ∷ rest) p = elim (Bool-cases (leb m.id watermark)) [
  | inl old ↦ rw (old, process_messages) (process_messages-lines watermark rest (skipped p))
  | inr new ↦
      rw (new, process_messages)
        (process_messages-lines watermark rest (processed m p)
          ∙ append_assoc p.lines (m ∷ []) (fresh watermark rest))
]

pub process_messages-latest :
    (client_id : Bytes) (watermark previous_id : ℕ) (ms : List LogMessage) (p : Progress)
    → IsRun client_id previous_id ms
    → p.latest ≡ max watermark previous_id
    → (process_messages watermark ms p).latest ≡ max watermark (last_id previous_id ms)
unfolding process_messages
process_messages-latest client_id watermark previous_id [] p run h = h
process_messages-latest client_id watermark previous_id (m ∷ rest) p run h =
    elim (Bool-cases (leb m.id watermark)) [
      | inl old ↦
          rw (old, process_messages)
            (process_messages-latest client_id watermark m.id rest (skipped p) run.3
              (ground (arith, run.1)))
      | inr new ↦
          rw (new, process_messages)
            (process_messages-latest client_id watermark m.id rest (processed m p) run.3
              (ground arith))
    ]

moved-err :
    (n : ℕ) (client_id : Bytes) (store : DedupStore) (x : Result (Unit {0}) × World) {e : Exception}
    → let q = moved n (put client_id n store.confirmed) store x in q.0 ≡ err e → q.1 ≡ store
moved-err n client_id store (ok _, w) h = cc
moved-err n client_id store (err x, w) h = refl

-- Where `confirm` throws, the watermarks stay.
confirm-err :
    (client_id : Bytes) (n : ℕ) (store : DedupStore) (w : World) {e : Exception}
    → let q = confirm client_id n store w in q.0 ≡ err e → q.1 ≡ store
unfolding confirm
confirm-err client_id n store w = elim (Bool-cases (is_empty client_id || n == 0)) [
  | inl nothing ↦ rw nothing (λ h. refl)
  | inr something ↦ elim (Bool-cases (leb n (highest_confirmed client_id store))) [
    | inl old ↦ rw something (rw old (λ h. refl))
    | inr new ↦ rw something (
        rw new
          (moved-err n client_id store (persist store.path (put client_id n store.confirmed) w)))
  ]
]

confirmed-output :
    (id : ℕ) (s : Server) (x : Result ℕ × DedupStore × World)
    → (confirmed id s x).1.output ≡ s.output
confirmed-output id s (ok r, store, w) = refl
confirmed-output id s (err e, store, w) = refl

module _ (front : LogMessage) (rest : List LogMessage) (server : Server) where
  abbrev pub watermark : ℕ
  watermark = highest_confirmed front.client_id server.store

  -- The watermark is at the batch's last id, or above it as before.
  pub record Handled (id : ℕ) (after : DedupStore) : Type 0 where
    pub acked : id ≡ (last_or rest front).id
    pub risen : highest_confirmed front.client_id after ≡ max watermark id
    pub others :
        (other : Bytes)
        → other ≢ front.client_id
        → highest_confirmed other after ≡ highest_confirmed other server.store

  abbrev pub HandleEnds : Result ℕ → DedupStore → Type 0
  HandleEnds (ok id) after = Handled id after
  HandleEnds (err e) after = after ≡ server.store

  confirmed-HandleEnds :
      (latest : ℕ) (w : World) (s : Server)
      → latest ≡ max watermark (last_or rest front).id
      → let q =
          confirmed (last_or rest front).id s (confirm front.client_id latest server.store w) in
        HandleEnds q.0 q.1.store
  confirmed-HandleEnds latest w s top =
      settle (confirm front.client_id latest server.store w)
        (λ r h. confirm-Advances front.client_id latest server.store w h)
        (λ e h. confirm-err front.client_id latest server.store w h)
    where
      settle :
          (x : Result ℕ × DedupStore × World)
          → ((r : ℕ) → x.0 ≡ ok r → Advances front.client_id latest server.store r x.1)
          → ((e : Exception) → x.0 ≡ err e → x.1 ≡ server.store)
          → let q = confirmed (last_or rest front).id s x in HandleEnds q.0 q.1.store
      settle (ok r, after, w') h k =
          let a = h r refl in
          record {
            acked = refl;
            risen = a.watermark ∙ omega (arith, a.returned);
            others = a.others;
          }
      settle (err e, after, w') h k = k e refl

  -- For a batch of one client with growing ids, on every branch the output grows by exactly the
  -- messages above the watermark of the client, in order. If the handling returns, it acknowledges
  -- the last id of the batch, the watermark is the maximum of itself and that id, and the
  -- watermarks of the others stay; if it throws, all watermarks stay.
  pub handle_batch-HandleEnds :
      (w : World)
      → IsRun front.client_id 0 (front ∷ rest)
      → let q = handle_batch front rest server w in
        (q.1.output ≡ server.output ++ fresh watermark (front ∷ rest)) × HandleEnds q.0 q.1.store
  unfolding handle_batch
  handle_batch-HandleEnds w run = (
    confirmed-output (last_or rest front).id (finished server p)
          (confirm front.client_id p.latest server.store w)
        ∙ process_messages-lines watermark (front ∷ rest) start,
    confirmed-HandleEnds p.latest w (finished server p) (
        process_messages-latest front.client_id watermark 0 (front ∷ rest) start run (omega arith)
        ∙ ap (max watermark) (sym (last_id-last_or front rest))),
  )
    where
      start : Progress
      start = started watermark (front ∷ rest) server

      p : Progress
      p = process_messages watermark (front ∷ rest) start
