-- ===== src/Network/Socket.antt =====
-- src/SocketIO.cpp. A connected socket is the bytes that have yet to be received, behind which the
-- peer has closed, and the bytes that were sent. How many bytes a call moves, and whether it fails,
-- is read from two schedules.
use log_bridge.Base.{
  ℕ, zero, suc, ◌-◌, ◌==◌, min, List, [], ◌∷◌, ◌++◌, Option, none, some, length, take, drop, Result,
  ok, err, Exception, system, closed_in_frame, closed_before_payload, if◌then◌else◌,
}
use log_bridge.Message.{Bytes}
use log_bridge.Storage.Persistence.{eintr}
use log_bridge.Protocol.Format.{frame_header_size}
use log_bridge.Protocol.Codec.{parse_frame_header}

abbrev pub epipe : ℕ
epipe = 32

-- An answer of `recv`: `chunk n` is a transfer of at most `n + 1` bytes, so that a zero is the end of
-- the stream only.
pub data Arrival : Type 0 where
  chunk : ℕ → Arrival
  broken : ℕ → Arrival

-- An answer of `send`: at most so many bytes, perhaps none, or an error.
pub data Departure : Type 0 where
  taken : ℕ → Departure
  refused : ℕ → Departure

pub record Socket : Type 0 where
  pub incoming : Bytes
  pub arrivals : List Arrival
  pub sent : Bytes
  pub departures : List Departure

abbrev pub Io : Type 0 → Type 0
Io A = Socket → Result A × Socket

module _ {A : Type 0} where
  unfoldable pub return : A → Io A
  return a s = (ok a, s)

  unfoldable pub throw : Exception → Io A
  throw e s = (err e, s)

  -- A function without a socket that returns or throws.
  unfoldable pub lift : Result A → Io A
  lift r s = (r, s)

module _ {A B : Type 0} where
  abbrev pub continue : Result A × Socket → (A → Io B) → Result B × Socket
  continue (ok a, s) f = f a s
  continue (err e, s) f = (err e, s)

  infixl 5 ◌>>=◌
  unfoldable pub ◌>>=◌ : Io A → (A → Io B) → Io B
  ◌>>=◌ m f s = continue (m s) f

infixl 5 ◌>>◌
abbrev pub ◌>>◌ : {B : Type 0} → Io (Unit {0}) → Io B → Io B
m >> k = m >>= λ _. k

-- A zero of `recv`: `false` where nothing was received before, else an exception.
abbrev pub closed : Bytes → Result (Option Bytes)
closed [] = ok none
closed (b ∷ received) = err closed_in_frame

-- The loop of `receiveExact`, with what was received and how much is missing: `none` is its `false`.
-- Where the schedule ends, bytes arrive one at a time.
unfoldable pub receive_loop :
    List Arrival → Bytes → ℕ → Bytes → Result (Option Bytes) × Bytes × List Arrival
receive_loop arrivals received zero incoming = (ok (some received), incoming, arrivals)
receive_loop [] received (suc missing) [] = (closed received, [], [])
receive_loop [] received (suc missing) (b ∷ rest) =
    receive_loop [] (received ++ b ∷ []) missing rest
receive_loop (chunk n ∷ arrivals) received (suc missing) [] = (closed received, [], arrivals)
receive_loop (chunk n ∷ arrivals) received (suc missing) (b ∷ rest) =
    let got = take (min n missing) rest in
    receive_loop arrivals (received ++ b ∷ got) (missing - length got) (drop (min n missing) rest)
receive_loop (broken e ∷ arrivals) received (suc missing) incoming =
    let again = receive_loop arrivals received (suc missing) incoming in
    if e == eintr then again else (err (system e), incoming, arrivals)

abbrev pub received_on :
    Socket → Result (Option Bytes) × Bytes × List Arrival → Result (Option Bytes) × Socket
received_on s (r, incoming, arrivals) = (r, record s { incoming = incoming; arrivals = arrivals })

unfoldable pub receive_exact : ℕ → Io (Option Bytes)
unfolding receive_loop
receive_exact count s = received_on s (receive_loop s.arrivals [] count s.incoming)

-- The loop of `sendAll`, with the data that is left. Where the schedule ends, all of it is taken.
unfoldable pub send_loop :
    List Departure → Bytes → Bytes → Result (Unit {0}) × Bytes × List Departure
send_loop departures [] sent = (ok tt, sent, departures)
send_loop [] (b ∷ rest) sent = (ok tt, sent ++ b ∷ rest, [])
send_loop (taken zero ∷ departures) (b ∷ rest) sent = (err (system epipe), sent, departures)
send_loop (taken (suc n) ∷ departures) (b ∷ rest) sent =
    send_loop departures (drop n rest) (sent ++ b ∷ take n rest)
send_loop (refused e ∷ departures) (b ∷ rest) sent =
    let again = send_loop departures (b ∷ rest) sent in
    if e == eintr then again else (err (system e), sent, departures)

abbrev pub sent_on :
    Socket → Result (Unit {0}) × Bytes × List Departure → Result (Unit {0}) × Socket
sent_on s (r, sent, departures) = (r, record s { sent = sent; departures = departures })

unfoldable pub send_all : Bytes → Io (Unit {0})
unfolding send_loop
send_all bytes s = sent_on s (send_loop s.departures bytes s.sent)

-- The frame is the header's bytes and the payload behind them.
abbrev pub with_payload : Bytes → Option Bytes → Io (Option Bytes)
with_payload header_bytes none = throw closed_before_payload
with_payload header_bytes (some payload) = return (some (header_bytes ++ payload))

abbrev pub with_header : Option Bytes → Io (Option Bytes)
with_header none = return none
with_header (some header_bytes) = do
  header ← lift (parse_frame_header header_bytes)
  payload ← receive_exact header.payload_length
  with_payload header_bytes payload

unfoldable pub receive_frame : Io (Option Bytes)
unfolding return throw lift ◌>>=◌ receive_exact
receive_frame = do header_bytes ← receive_exact frame_header_size; with_header header_bytes
