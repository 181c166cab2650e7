-- ===== src/Server/Served.antt =====
-- The loops of the server over any connections, whatever bytes they bring and wherever it throws.
use log_bridge.Base.{
  ◌≡◌, refl, sym, ap, ◌∙◌, Bool, true, false, Bool-cases, Result-cases, inl, inr, List, [], ◌∷◌,
  All, Option, some, none, Result, ok, err, ℕ,
}
use mathlib.Core.Path.{subst}
use log_bridge.Message.{IsBytes, LogMessage}
use log_bridge.Storage.World.{World}
use log_bridge.Protocol.Codec.{serialize_ack}
use log_bridge.Network.Socket.{Socket, send_all}
use log_bridge.Network.Peers.{receive_log_batch, send_ack}
use log_bridge.Network.Acknowledged.{send_all-eq-ok}
use log_bridge.Server.Loop.{
  Server, Round, handle_batch, received, answered, acknowledged, serve_round,
}
use log_bridge.Server.Received.{ReceivesRun, receive_log_batch-ReceivesRun}
use log_bridge.Server.Sessions.{Session, serve_client, serve_clients, connected}
use log_bridge.Server.Witnessed.{
  IsWitnessed, Progresses, Progresses-refl, Progresses-trans, handle_batch-Progresses,
}

-- What is still to come are bytes.
abbrev pub ClientBytes : Option Socket → Type 0
ClientBytes none = Unit {0}
ClientBytes (some s) = IsBytes s.incoming

record RoundEnds (before : Server) (r : Round) : Type 0 where
  progress : Progresses before r.server
  bytes : r.result ≡ ok true → ClientBytes r.client

not-going_on : {e : log_bridge.Base.Exception} → err e ≡ ok true → ⊥
not-going_on h = cc

ended-no : ok false ≡ ok true → ⊥
ended-no h = cc

module _ (before : Server) where
  acknowledged-RoundEnds :
      (after : Server) (w : World) (x : Result (Unit {0})) (client : Option Socket)
      → Progresses before after
      → (x ≡ ok tt → ClientBytes client)
      → RoundEnds before (acknowledged after w (x, client))
  acknowledged-RoundEnds after w (ok _) client p bytes = record {
    progress = record { printed = p.printed; no_lower = p.no_lower; witnessed = p.witnessed };
    bytes = λ _. bytes refl;
  }
  acknowledged-RoundEnds after w (err e) client p bytes = record {
    progress = p;
    bytes = λ h. absurd (not-going_on h);
  }

  send_ack-bytes :
      (id : ℕ) (s : Socket)
      → IsBytes s.incoming
      → (send_ack id (some s)).0 ≡ ok tt
      → ClientBytes (send_ack id (some s)).1
  unfolding send_ack
  send_ack-bytes id s bytes h =
      let frame = serialize_ack id in
      subst IsBytes
        (sym
          (send_all-eq-ok frame s (send_all frame s).1 {u = tt}
            (ap (λ r. (r, (send_all frame s).1)) h)).1)
        bytes

  answered-RoundEnds :
      (s : Socket) (q : Result ℕ × Server × World)
      → IsBytes s.incoming
      → Progresses before q.1
      → RoundEnds before (answered (some s) q)
  answered-RoundEnds s (ok id, after, w) bytes p =
      acknowledged-RoundEnds after w (send_ack id (some s)).0 (send_ack id (some s)).1 p
        (send_ack-bytes id s bytes)
  answered-RoundEnds s (err e, after, w) bytes p = record {
    progress = p;
    bytes = λ h. absurd (not-going_on h);
  }

  received-RoundEnds :
      (q : Result (Option (List LogMessage))) (client : Option Socket) (w : World)
      → IsWitnessed before
      → ReceivesRun (q, client)
      → RoundEnds before (received before w (q, client))
  received-RoundEnds (ok (some (front ∷ rest))) (some s) w h run =
      answered-RoundEnds s (handle_batch front rest before w) run.1
        (handle_batch-Progresses front rest before w run.0 h)
  received-RoundEnds (ok (some (front ∷ rest))) none w h run = absurd run
  received-RoundEnds (ok (some [])) client w h run = record {
    progress = Progresses-refl before h;
    bytes = λ k. absurd (not-going_on k);
  }
  received-RoundEnds (ok none) client w h run = record {
    progress = Progresses-refl before h;
    bytes = λ k. absurd (ended-no k);
  }
  received-RoundEnds (err e) client w h run = record {
    progress = Progresses-refl before h;
    bytes = λ k. absurd (not-going_on k);
  }

  serve_round-RoundEnds :
      (s : Socket) (w : World)
      → IsWitnessed before
      → IsBytes s.incoming
      → RoundEnds before (serve_round before (some s) w)
  unfolding serve_round
  serve_round-RoundEnds s w h bytes =
      received-RoundEnds (receive_log_batch (some s)).0 (receive_log_batch (some s)).1 w h
        (receive_log_batch-ReceivesRun s bytes)

-- Without a connection the first call throws.
serve_client_unconnected :
    (flags : List Bool) (server : Server) (w : World)
    → IsWitnessed server
    → Progresses server (serve_client (true ∷ flags) server none w).0
unfolding serve_client serve_round receive_log_batch
serve_client_unconnected flags server w h = Progresses-refl server h

serve_client-Progresses :
    (flags : List Bool) (server : Server) (client : Option Socket) (w : World)
    → IsWitnessed server
    → ClientBytes client
    → Progresses server (serve_client flags server client w).0
unfolding serve_client
serve_client-Progresses [] server client w h bytes = Progresses-refl server h
serve_client-Progresses (false ∷ flags) server client w h bytes = Progresses-refl server h
serve_client-Progresses (true ∷ flags) server none w h bytes =
    serve_client_unconnected flags server w h
serve_client-Progresses (true ∷ flags) server (some s) w h bytes =
    let r = serve_round server (some s) w in
    let ends = serve_round-RoundEnds server s w h bytes in
    elim (Result-cases r.result) [
      | inr (e, thrown) ↦ rw (thrown, serve_client) ends.progress
      | inl (true, on) ↦
          rw (on, serve_client)
            (Progresses-trans server r.server (serve_client flags r.server r.client r.world).0
              ends.progress
              (serve_client-Progresses flags r.server r.client r.world ends.progress.witnessed
                (ends.bytes on)))
      | inl (false, off) ↦ rw (off, serve_client) ends.progress
    ]

abbrev pub SessionBytes : Session → Type 0
SessionBytes session = IsBytes session.connection.incoming

-- Over any sessions of the server whose connections bring bytes, wherever calls fail or running is
-- cleared: if each watermark is the id of a message of its client in the output, or 0, then so it
-- is afterwards; the output keeps all its messages, and no watermark falls.
pub serve_clients-Progresses :
    (sessions : List Session) (server : Server) (w : World)
    → IsWitnessed server
    → All SessionBytes sessions
    → Progresses server (serve_clients sessions server w).1
unfolding serve_clients
serve_clients-Progresses [] server w h bytes = Progresses-refl server h
serve_clients-Progresses (session ∷ sessions) server w h bytes =
    let q = serve_client session.flags (connected server) (some session.connection) w in
    let first =
      serve_client-Progresses session.flags (connected server) (some session.connection) w h
        bytes.0 in
    let later = serve_clients-Progresses sessions q.0 q.1 first.witnessed bytes.1 in
    let both =
      Progresses-trans (connected server) q.0 (serve_clients sessions q.0 q.1).1 first later in
    elim (Bool-cases session.running) [
      | inr off ↦ rw (off, serve_clients) (Progresses-refl server h)
      | inl on ↦ elim (Result-cases session.accepts) [
        | inr (e, thrown) ↦ rw (on, thrown, serve_clients) (Progresses-refl server h)
        | inl (false, none_left) ↦ rw (on, none_left, serve_clients) (Progresses-refl server h)
        | inl (true, accepted) ↦
            rw (on, accepted, serve_clients)
              (record {
                printed = both.printed;
                no_lower = both.no_lower;
                witnessed = both.witnessed;
              })
      ]
    ]
