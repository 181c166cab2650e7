-- ===== src/Server/Resend.antt =====
-- A batch that is sent again, as the client does when it saw no ACK.
use log_bridge.Base.{
  ℕ, ◌≤◌, ◌≡◌, ◌≢◌, refl, sym, ap, ◌∙◌, arith, true, false, leb, ◌==◌, List, [], ◌∷◌, ◌++◌,
  append-nil, last_or, ok, length,
}
use log_bridge.Message.{Bytes, LogMessage}
use log_bridge.Protocol.Batch.{IsRun}
use log_bridge.Storage.World.{World}
use log_bridge.WriteAheadLog.Load.{last_id, last_id-last_or}
use log_bridge.Dedup.Store.{DedupStore, highest_confirmed, confirm}
use log_bridge.Server.Loop.{Server, Progress, started, process_messages, handle_batch}
use log_bridge.Server.Batch.{
  fresh, Handled, HandleEnds, handle_batch-HandleEnds, process_messages-latest,
  process_messages-lines,
}
use mathlib.Core.Path.{subst}
use log_bridge.Server.Once.{IsRun-last_id}

fresh-covered :
    (client_id : Bytes) (low previous_id : ℕ) (ms : List LogMessage)
    → IsRun client_id previous_id ms
    → last_id previous_id ms ≤ low
    → fresh low ms ≡ []
fresh-covered client_id low previous_id [] run h = refl
fresh-covered client_id low previous_id (m ∷ rest) run h =
    ground (
      arith,
      IsRun-last_id client_id m.id rest run.3,
      fresh-covered client_id low m.id rest run.3 h,
    )

-- `confirm` of what is confirmed writes nothing.
confirm-current :
    (client_id : Bytes) (n : ℕ) (store : DedupStore) (w : World)
    → 1 ≤ length client_id
    → n ≢ 0
    → n ≤ highest_confirmed client_id store
    → confirm client_id n store w ≡ (ok (highest_confirmed client_id store), store, w)
unfolding confirm
confirm-current [] n store w named set h = absurd (omega arith)
confirm-current (b ∷ client_id) n store w named set h =
    let nonzero : (n == 0) ≡ false = ground arith in
    let old : leb n (highest_confirmed (b ∷ client_id) store) ≡ true = ground arith in
    rw nonzero (rw old refl)

module _ (front : LogMessage) (rest : List LogMessage) (server : Server) (w : World)
    (run : IsRun front.client_id 0 (front ∷ rest))
    (seen : (last_or rest front).id ≤ highest_confirmed front.client_id server.store) where
  abbrev low : ℕ
  low = highest_confirmed front.client_id server.store

  abbrev begin : Progress
  begin = started low (front ∷ rest) server

  below : last_id 0 (front ∷ rest) ≤ low
  below = omega (arith, seen, last_id-last_or front rest)

  latest : (process_messages low (front ∷ rest) begin).latest ≡ low
  latest =
      process_messages-latest front.client_id low 0 (front ∷ rest) begin run (omega arith)
      ∙ omega (arith, below)

  -- A batch below the watermark is acknowledged, and nothing is printed or written for it.
  pub handle_batch-seen :
      let q = handle_batch front rest server w in
      (q.0 ≡ ok (last_or rest front).id)
      × (q.1.output ≡ server.output)
      × (q.1.store ≡ server.store)
      × (q.2 ≡ w)
  unfolding handle_batch
  handle_batch-seen = rw latest (
      rw
        (confirm-current front.client_id low server.store w run.2.client_id_set nonzero
          (omega arith))
        (refl, silent, refl, refl))
    where
      nonzero : low ≢ 0
      nonzero = omega (arith, below, IsRun-last_id front.client_id front.id rest run.3, run.1)

      silent : (process_messages low (front ∷ rest) begin).lines ≡ server.output
      silent =
          process_messages-lines low (front ∷ rest) begin
          ∙ ap (λ t. server.output ++ t)
              (fresh-covered front.client_id low 0 (front ∷ rest) run below)
          ∙ append-nil server.output

-- If a batch of one client with growing ids was handled without an exception and comes again,
-- whatever the system calls would answer, it is acknowledged with the same id, nothing is printed,
-- the watermarks stay and no system call is made.
pub handle_batch-resent :
    (front : LogMessage) (rest : List LogMessage) (server : Server) (w again : World) (id : ℕ)
    → IsRun front.client_id 0 (front ∷ rest)
    → (handle_batch front rest server w).0 ≡ ok id
    → let s = (handle_batch front rest server w).1 in
      let q = handle_batch front rest s again in
      (q.0 ≡ ok id) × (q.1.output ≡ s.output) × (q.1.store ≡ s.store) × (q.2 ≡ again)
handle_batch-resent front rest server w again id run returned =
    let (acked, silent, kept, quiet) = handle_batch-seen front rest s again run seen in
    (acked ∙ ap ok (sym (Handled.acked ends)), silent, kept, quiet)
  where
    s : Server
    s = (handle_batch front rest server w).1

    ends : HandleEnds front rest server (ok id) s.store
    ends =
        subst (λ r. HandleEnds front rest server r s.store) returned
          (handle_batch-HandleEnds front rest server w run).1

    seen : (last_or rest front).id ≤ highest_confirmed front.client_id s.store
    seen = omega (arith, Handled.acked ends, Handled.risen ends)
