-- ===== src/Network/Stopping/Accounts.antt =====
-- Where each descriptor is while `acceptClient` and `stop` run.
use log_bridge.Base.{InAll, ℕ, ◌≡◌, Bool, true, inl, inr, List, ◌∷◌, Option, some, none}
use log_bridge.Network.Stopping.{
  AcceptAt, releasing, listening, holding, stored, overtaken, releasing_last, returned, StopAt,
  not_called, flagged, closing_client, closing_listener, finished, Descriptors, close_socket,
}

-- The descriptor that a thread has taken and will close or store.
abbrev pub Holds : Option ℕ → ℕ → Type 0
Holds none fd = ⊥
Holds (some held) fd = fd ≡ held

abbrev pub AcceptHolds : AcceptAt → ℕ → Type 0
AcceptHolds (releasing held) fd = Holds held fd
AcceptHolds (releasing_last held) fd = Holds held fd
AcceptHolds (holding held) fd = fd ≡ held
AcceptHolds _ fd = ⊥

abbrev pub StopHolds : StopAt → ℕ → Type 0
StopHolds (closing_client held) fd = Holds held fd
StopHolds (closing_listener held) fd = Holds held fd
StopHolds _ fd = ⊥

-- Where an opened descriptor is.
pub data Place (listen_fd client_fd : Option ℕ) (at : AcceptAt) (stop_at : StopAt) (closed : List ℕ)
    (fd : ℕ) : Type 0 where
  is_closed : InAll fd closed → Place listen_fd client_fd at stop_at closed fd
  is_client : Holds client_fd fd → Place listen_fd client_fd at stop_at closed fd
  is_listener : Holds listen_fd fd → Place listen_fd client_fd at stop_at closed fd
  by_accept : AcceptHolds at fd → Place listen_fd client_fd at stop_at closed fd
  by_stop : StopHolds stop_at fd → Place listen_fd client_fd at stop_at closed fd

-- `stop` has read the client's descriptor, and not begun again.
abbrev pub IsPast : StopAt → Type 0
IsPast not_called = ⊥
IsPast flagged = ⊥
IsPast _ = Unit {0}

-- Where `acceptClient` may stand while a client's descriptor is stored.
abbrev pub MayServe : AcceptAt → StopAt → Type 0
MayServe stored at = Unit {0}
MayServe overtaken at = Unit {0}
MayServe (returned true) at = IsPast at → ⊥
MayServe _ at = ⊥

abbrev pub IsServing : Option ℕ → AcceptAt → StopAt → Type 0
IsServing none at stop_at = Unit {0}
IsServing (some fd) at stop_at = MayServe at stop_at

abbrev pub IsFlagged : StopAt → Bool → Type 0
IsFlagged not_called stopped = Unit {0}
IsFlagged _ stopped = stopped ≡ true

abbrev pub IsDeaf : StopAt → Option ℕ → Type 0
IsDeaf (closing_listener fd) listen_fd = listen_fd ≡ none
IsDeaf finished listen_fd = listen_fd ≡ none
IsDeaf _ listen_fd = Unit {0}

-- Over the fields of `Descriptors`.
pub record AccountsOf (listen_fd client_fd : Option ℕ) (stopped : Bool) (at : AcceptAt)
    (stop_at : StopAt) (opened closed : List ℕ) : Type 0 where
  pub places : (fd : ℕ) → InAll fd opened → Place listen_fd client_fd at stop_at closed fd
  pub serving : IsServing client_fd at stop_at
  pub flag : IsFlagged stop_at stopped
  pub deaf : IsDeaf stop_at listen_fd

abbrev pub Accounts : Descriptors → Type 0
Accounts s = AccountsOf s.listen_fd s.client_fd s.stopped s.accept_at s.stop_at s.opened s.closed

pub closed_now :
    (held : Option ℕ) (fd : ℕ) (closed : List ℕ)
    → Holds held fd
    → InAll fd (close_socket held closed)
closed_now none fd closed h = absurd h
closed_now (some x) fd closed h = inl h

pub closed_still :
    (held : Option ℕ) (fd : ℕ) (closed : List ℕ)
    → InAll fd closed
    → InAll fd (close_socket held closed)
closed_still none fd closed h = h
closed_still (some x) fd closed h = inr h

module _ (l c : Option ℕ) (stopped : Bool) (stop_at : StopAt) (opened closed : List ℕ) where
  abbrev pub At : AcceptAt → Descriptors
  At at = record {
    listen_fd = l;
    client_fd = c;
    stopped = stopped;
    accept_at = at;
    stop_at = stop_at;
    opened = opened;
    closed = closed;
  }

  -- `closeSocket` takes the client's descriptor, and nothing else was held.
  pub taken_by_accept :
      (at at' : AcceptAt)
      → ((fd : ℕ) → AcceptHolds at fd → ⊥)
      → ((fd : ℕ) → Holds c fd → AcceptHolds at' fd)
      → Accounts (At at)
      → Accounts (record (At at) { client_fd = none; accept_at = at' })
  taken_by_accept at at' empty takes a = record {
    places = λ fd here. go fd (a.places fd here);
    serving = tt;
    flag = a.flag;
    deaf = a.deaf;
  }
    where
      go : (fd : ℕ) → Place l c at stop_at closed fd → Place l none at' stop_at closed fd
      go fd (is_closed h) = is_closed h
      go fd (is_client h) = by_accept (takes fd h)
      go fd (is_listener h) = is_listener h
      go fd (by_accept h) = absurd (empty fd h)
      go fd (by_stop h) = by_stop h

  -- It closes what it took.
  pub closed_by_accept :
      (held : Option ℕ) (at at' : AcceptAt)
      → ((fd : ℕ) → AcceptHolds at fd → Holds held fd)
      → IsServing c at' stop_at
      → Accounts (At at)
      → Accounts (record (At at) { closed = close_socket held closed; accept_at = at' })
  closed_by_accept held at at' holds serving a = record {
    places = λ fd here. go fd (a.places fd here);
    serving = serving;
    flag = a.flag;
    deaf = a.deaf;
  }
    where
      go :
          (fd : ℕ)
          → Place l c at stop_at closed fd
          → Place l c at' stop_at (close_socket held closed) fd
      go fd (is_closed h) = is_closed (closed_still held fd closed h)
      go fd (is_client h) = is_client h
      go fd (is_listener h) = is_listener h
      go fd (by_accept h) = is_closed (closed_now held fd closed (holds fd h))
      go fd (by_stop h) = by_stop h

  -- It goes on without a descriptor.
  pub moved_on :
      (at at' : AcceptAt)
      → ((fd : ℕ) → AcceptHolds at fd → ⊥)
      → IsServing c at' stop_at
      → Accounts (At at)
      → Accounts (At at')
  moved_on at at' empty serving a = record {
    places = λ fd here. go fd (a.places fd here);
    serving = serving;
    flag = a.flag;
    deaf = a.deaf;
  }
    where
      go : (fd : ℕ) → Place l c at stop_at closed fd → Place l c at' stop_at closed fd
      go fd (is_closed h) = is_closed h
      go fd (is_client h) = is_client h
      go fd (is_listener h) = is_listener h
      go fd (by_accept h) = absurd (empty fd h)
      go fd (by_stop h) = by_stop h

  pub opened_now :
      (x : ℕ)
      → IsServing c (holding x) stop_at
      → Accounts (At listening)
      → Accounts (record (At listening) { opened = x ∷ opened; accept_at = holding x })
  opened_now x serving a = record { places = go; serving = serving; flag = a.flag; deaf = a.deaf }
    where
      further :
          (fd : ℕ) → Place l c listening stop_at closed fd → Place l c (holding x) stop_at closed fd
      further fd (is_closed h) = is_closed h
      further fd (is_client h) = is_client h
      further fd (is_listener h) = is_listener h
      further fd (by_accept h) = absurd h
      further fd (by_stop h) = by_stop h

      go : (fd : ℕ) → InAll fd (x ∷ opened) → Place l c (holding x) stop_at closed fd
      go fd (inl e) = by_accept e
      go fd (inr h) = further fd (a.places fd h)

  -- While a descriptor is held, none is stored.
  pub stored_now :
      (x : ℕ)
      → Accounts (At (holding x))
      → Accounts (record (At (holding x)) { client_fd = some x; accept_at = stored })
  stored_now x a = record {
    places = λ fd here. go fd a.serving (a.places fd here);
    serving = tt;
    flag = a.flag;
    deaf = a.deaf;
  }
    where
      none_stored : (o : Option ℕ) (fd : ℕ) → IsServing o (holding x) stop_at → Holds o fd → ⊥
      none_stored none fd h k = k
      none_stored (some y) fd h k = h

      go :
          (fd : ℕ)
          → IsServing c (holding x) stop_at
          → Place l c (holding x) stop_at closed fd
          → Place l (some x) stored stop_at closed fd
      go fd s (is_closed h) = is_closed h
      go fd s (is_client h) = absurd (none_stored c fd s h)
      go fd s (is_listener h) = is_listener h
      go fd s (by_accept h) = is_client h
      go fd s (by_stop h) = by_stop h
