-- ===== src/Server/Sessions.antt =====
-- The loops of `main` in src/ServerMain.cpp around the handling of a batch. What `acceptClient` returns
-- and when `running` is cleared is read from a list of sessions.
use log_bridge.Base.{Bool, true, false, List, [], ◌∷◌, Option, some, Result, ok, err}
use log_bridge.Storage.World.{World}
use log_bridge.Network.Socket.{Socket}
use log_bridge.Server.Loop.{Server, plus, serve_round}

-- A round of the outer loop: `running` at its head, what `acceptClient` returns or throws, the
-- connection, and `running` at the heads of the inner loop, which is cleared where the list ends.
pub record Session : Type 0 where
  pub running : Bool
  pub accepts : Result Bool
  pub connection : Socket
  pub flags : List Bool

-- The inner loop; what it throws is caught behind it.
unfoldable pub serve_client : List Bool → Server → Option Socket → World → Server × World
serve_client [] server client w = (server, w)
serve_client (flag ∷ flags) server client w = elim flag [
  | false ↦ (server, w)
  | true ↦
      let r = serve_round server client w in
      elim (r.result) [
        | ok goes_on ↦ elim goes_on [
          | true ↦ serve_client flags r.server r.client r.world
          | false ↦ (r.server, r.world)
        ]
        | err e ↦ (r.server, r.world)
      ]
]

abbrev pub connected : Server → Server
connected server = record server {
  metrics = record (server.metrics) { connections = plus server.metrics.connections 1 };
}

-- The outer loop: what `acceptClient` throws ends the program.
unfoldable pub serve_clients : List Session → Server → World → Result (Unit {0}) × Server × World
serve_clients [] server w = (ok tt, server, w)
serve_clients (session ∷ sessions) server w = elim (session.running) [
  | false ↦ (ok tt, server, w)
  | true ↦ elim (session.accepts) [
    | err e ↦ (err e, server, w)
    | ok is_client ↦ elim is_client [
      | false ↦ (ok tt, server, w)
      | true ↦
          let (after, w') =
            serve_client session.flags (connected server) (some session.connection) w in
          serve_clients sessions after w'
    ]
  ]
]
