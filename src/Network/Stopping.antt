-- ===== src/Network/Stopping.antt =====
-- `acceptClient` and `stop` of src/TcpServer.cpp, which two threads call at the same time: each atomic
-- operation and each system call is a step, and a run is any interleaving of them.
pub mod Accounts
pub mod Steps
pub mod Closed
mod Tests
use log_bridge.Base.{ℕ, Bool, true, false, if◌then◌else◌, List, [], ◌∷◌, Option, some, none}

-- Where `acceptClient` stands. `releasing` has taken a descriptor that it has yet to close.
pub data AcceptAt : Type 0 where
  outside : AcceptAt
  releasing : Option ℕ → AcceptAt
  released : AcceptAt
  listening : AcceptAt
  holding : ℕ → AcceptAt
  stored : AcceptAt
  overtaken : AcceptAt
  releasing_last : Option ℕ → AcceptAt
  returned : Bool → AcceptAt
  threw : ℕ → AcceptAt

-- Where `stop` stands.
pub data StopAt : Type 0 where
  not_called : StopAt
  flagged : StopAt
  closing_client : Option ℕ → StopAt
  client_closed : StopAt
  closing_listener : Option ℕ → StopAt
  finished : StopAt

-- `none` is the descriptor -1. `opened` and `closed` are all descriptors that were.
pub record Descriptors : Type 0 where
  pub listen_fd : Option ℕ
  pub client_fd : Option ℕ
  pub stopped : Bool
  pub accept_at : AcceptAt
  pub stop_at : StopAt
  pub opened : List ℕ
  pub closed : List ℕ

-- What `accept` answers.
pub data Answer : Type 0 where
  accepted : ℕ → Answer
  interrupted : Answer
  failed : ℕ → Answer

-- The second half of `closeSocket`; the first takes the descriptor and leaves -1.
abbrev pub close_socket : Option ℕ → List ℕ → List ℕ
close_socket none closed = closed
close_socket (some fd) closed = fd ∷ closed

abbrev pub if_stopped : Bool → AcceptAt → AcceptAt → AcceptAt
if_stopped stopped then_at else_at = if stopped then then_at else else_at

unfoldable pub accept_client : AcceptAt → Answer → Descriptors → Descriptors
accept_client outside answer s = record s { client_fd = none; accept_at = releasing s.client_fd }
accept_client (returned r) answer s = record s {
  client_fd = none;
  accept_at = releasing s.client_fd;
}
accept_client (threw e) answer s = record s { client_fd = none; accept_at = releasing s.client_fd }
accept_client (releasing fd) answer s = record s {
  closed = close_socket fd s.closed;
  accept_at = released;
}
accept_client released answer s = record s {
  accept_at = if_stopped s.stopped (returned false) listening;
}
accept_client listening (accepted fd) s = record s {
  opened = fd ∷ s.opened;
  accept_at = holding fd;
}
accept_client listening interrupted s = record s {
  accept_at = if_stopped s.stopped (returned false) listening;
}
accept_client listening (failed e) s = record s {
  accept_at = if_stopped s.stopped (returned false) (threw e);
}
accept_client (holding fd) answer s = record s { client_fd = some fd; accept_at = stored }
accept_client stored answer s = record s {
  accept_at = if_stopped s.stopped overtaken (returned true);
}
accept_client overtaken answer s = record s {
  client_fd = none;
  accept_at = releasing_last s.client_fd;
}
accept_client (releasing_last fd) answer s = record s {
  closed = close_socket fd s.closed;
  accept_at = returned false;
}

unfoldable pub stop : StopAt → Descriptors → Descriptors
stop not_called s = record s { stopped = true; stop_at = flagged }
stop flagged s = record s { client_fd = none; stop_at = closing_client s.client_fd }
stop (closing_client fd) s = record s { closed = close_socket fd s.closed; stop_at = client_closed }
stop client_closed s = record s { listen_fd = none; stop_at = closing_listener s.listen_fd }
stop (closing_listener fd) s = record s { closed = close_socket fd s.closed; stop_at = finished }
stop finished s = record s { stopped = true; stop_at = flagged }

-- Whose turn it is; the thread of `acceptClient` calls it again when it has returned.
pub data Turn : Type 0 where
  accepting : Answer → Turn
  stopping : Turn

abbrev pub step : Turn → Descriptors → Descriptors
step (accepting answer) s = accept_client s.accept_at answer s
step stopping s = stop s.stop_at s

unfoldable pub run : List Turn → Descriptors → Descriptors
run [] s = s
run (turn ∷ turns) s = run turns (step turn s)
