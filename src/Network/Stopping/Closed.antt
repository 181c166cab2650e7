-- ===== src/Network/Stopping/Closed.antt =====
-- After `stop` no descriptor stays open.
use log_bridge.Base.{
  InAll, ℕ, ◌≡◌, refl, Bool, true, false, inl, inr, List, [], ◌∷◌, Option, some, none,
}
use mathlib.Core.Path.{subst}
use log_bridge.Network.Stopping.{
  AcceptAt, outside, releasing, released, listening, holding, stored, overtaken, releasing_last,
  returned, threw, StopAt, not_called, finished, Descriptors, Turn, run,
}
use log_bridge.Network.Stopping.Accounts.{
  Holds, AcceptHolds, StopHolds, Place, is_closed, is_client, is_listener, by_accept, by_stop,
  MayServe, IsServing, IsDeaf, AccountsOf, Accounts,
}
use log_bridge.Network.Stopping.Steps.{run-Accounts}

-- No call is under way.
abbrev pub IsOutside : AcceptAt → Type 0
IsOutside outside = Unit {0}
IsOutside (returned r) = Unit {0}
IsOutside (threw e) = Unit {0}
IsOutside _ = ⊥

-- A server behind its constructor.
abbrev pub listening_on : ℕ → Descriptors
listening_on fd = record {
  listen_fd = some fd;
  client_fd = none;
  stopped = false;
  accept_at = outside;
  stop_at = not_called;
  opened = fd ∷ [];
  closed = [];
}

listening_on-Accounts : (fd : ℕ) → Accounts (listening_on fd)
listening_on-Accounts fd = record {
  places = λ x here. is_listener (only x here);
  serving = tt;
  flag = tt;
  deaf = tt;
}
  where
    only : (x : ℕ) → InAll x (fd ∷ []) → x ≡ fd
    only x (inl e) = e
    only x (inr h) = absurd h

pub record IsShut (s : Descriptors) : Type 0 where
  pub no_client : s.client_fd ≡ none
  pub no_listener : s.listen_fd ≡ none
  pub all_closed : (fd : ℕ) → InAll fd s.opened → InAll fd s.closed

-- Outside of a call nothing is held, and behind `stop` no client is served.
record IsFree (at : AcceptAt) : Type 0 where
  serves_none : MayServe at finished → ⊥
  holds_none : (fd : ℕ) → AcceptHolds at fd → ⊥

IsOutside-IsFree : (at : AcceptAt) → IsOutside at → IsFree at
IsOutside-IsFree outside out = record { serves_none = λ h. h; holds_none = λ fd h. h }
IsOutside-IsFree (returned true) out = record { serves_none = λ h. h tt; holds_none = λ fd h. h }
IsOutside-IsFree (returned false) out = record { serves_none = λ h. h; holds_none = λ fd h. h }
IsOutside-IsFree (threw e) out = record { serves_none = λ h. h; holds_none = λ fd h. h }
IsOutside-IsFree (releasing held) out = absurd out
IsOutside-IsFree released out = absurd out
IsOutside-IsFree listening out = absurd out
IsOutside-IsFree (holding held) out = absurd out
IsOutside-IsFree stored out = absurd out
IsOutside-IsFree overtaken out = absurd out
IsOutside-IsFree (releasing_last held) out = absurd out

none_served :
    (o : Option ℕ) (at : AcceptAt) → (MayServe at finished → ⊥) → IsServing o at finished → o ≡ none
none_served none at free h = refl
none_served (some fd) at free h = absurd (free h)

Holds-nothing : (o : Option ℕ) (fd : ℕ) → o ≡ none → Holds o fd → ⊥
Holds-nothing none fd e h = h
Holds-nothing (some x) fd e h = absurd (nothing e)
  where
    nothing : {y : ℕ} → some y ≡ none → ⊥
    nothing e = cc

finished_lem :
    (l c : Option ℕ) (stopped : Bool) (at : AcceptAt) (stop_at : StopAt) (opened closed : List ℕ)
    → AccountsOf l c stopped at stop_at opened closed
    → stop_at ≡ finished
    → IsFree at
    → (c ≡ none) × ((l ≡ none) × ((fd : ℕ) → InAll fd opened → InAll fd closed))
finished_lem l c stopped at stop_at opened closed a done free =
    let served : c ≡ none =
      none_served c at free.serves_none (subst (IsServing c at) done a.serving) in
    let deaf : l ≡ none = subst (λ t. IsDeaf t l) done a.deaf in
    (served, (deaf, λ fd here. place served deaf fd (a.places fd here)))
  where
    place : c ≡ none → l ≡ none → (fd : ℕ) → Place l c at stop_at closed fd → InAll fd closed
    place served deaf fd (is_closed h) = h
    place served deaf fd (is_client h) = absurd (Holds-nothing c fd served h)
    place served deaf fd (is_listener h) = absurd (Holds-nothing l fd deaf h)
    place served deaf fd (by_accept h) = absurd (free.holds_none fd h)
    place served deaf fd (by_stop h) = absurd (subst (λ t. StopHolds t fd) done h)

-- Over any interleaving of the steps of acceptClient and stop, from a server that listens: when
-- stop has ended and no call of acceptClient is under way, both descriptors are -1, and the
-- listener and every connection that was accepted are closed.
pub run-IsShut :
    (turns : List Turn) (fd : ℕ)
    → (run turns (listening_on fd)).stop_at ≡ finished
    → IsOutside (run turns (listening_on fd)).accept_at
    → IsShut (run turns (listening_on fd))
run-IsShut turns fd done out =
    let s = run turns (listening_on fd) in
    let a = run-Accounts turns (listening_on fd) (listening_on-Accounts fd) in
    let (no_client, (no_listener, all_closed)) =
      finished_lem s.listen_fd s.client_fd s.stopped s.accept_at s.stop_at s.opened s.closed a done
        (IsOutside-IsFree s.accept_at out) in
    record { no_client = no_client; no_listener = no_listener; all_closed = all_closed }
