-- ===== src/Network/Stopping/Steps.antt =====
-- Every step of `acceptClient` and `stop` keeps account of the descriptors.
use log_bridge.Base.{
  ℕ, ◌≡◌, refl, sym, ◌∙◌, Bool, true, false, Bool-cases, inl, inr, List, [], ◌∷◌, Option, some,
  none,
}
use mathlib.Core.Path.{subst}
use log_bridge.Network.Stopping.{
  AcceptAt, outside, releasing, released, listening, holding, stored, overtaken, releasing_last,
  returned, threw, StopAt, not_called, flagged, closing_client, client_closed, closing_listener,
  finished, Descriptors, Answer, accepted, interrupted, failed, close_socket, if_stopped,
  accept_client, stop, Turn, accepting, stopping, step, run,
}
use log_bridge.Network.Stopping.Accounts.{
  Holds, AcceptHolds, StopHolds, Place, is_closed, is_client, is_listener, by_accept, by_stop,
  IsPast, MayServe, IsServing, IsFlagged, Accounts, closed_now, closed_still, At, taken_by_accept,
  closed_by_accept, moved_on, opened_now, stored_now,
}

IsServing-idle :
    (o : Option ℕ) (at at' : AcceptAt) (stop_at : StopAt)
    → (MayServe at stop_at → ⊥)
    → IsServing o at stop_at
    → IsServing o at' stop_at
IsServing-idle none at at' stop_at idle h = tt
IsServing-idle (some fd) at at' stop_at idle h = absurd (idle h)

IsServing-any :
    (o : Option ℕ) (at : AcceptAt) (stop_at : StopAt) → MayServe at stop_at → IsServing o at stop_at
IsServing-any none at stop_at h = tt
IsServing-any (some fd) at stop_at h = h

past_flagged :
    (stop_at : StopAt) (stopped : Bool)
    → IsPast stop_at
    → IsFlagged stop_at stopped
    → stopped ≡ true
past_flagged not_called stopped past flag = absurd past
past_flagged flagged stopped past flag = absurd past
past_flagged (closing_client fd) stopped past flag = flag
past_flagged client_closed stopped past flag = flag
past_flagged (closing_listener fd) stopped past flag = flag
past_flagged finished stopped past flag = flag

true-ne-false : true ≡ false → ⊥
true-ne-false h = cc

module _ (l c : Option ℕ) (stopped : Bool) (stop_at : StopAt) (opened closed : List ℕ) where
  abbrev Here : AcceptAt → Descriptors
  Here = At l c stopped stop_at opened closed

  -- Behind a test of the flag.
  tested :
      (at then_at else_at : AcceptAt)
      → ((fd : ℕ) → AcceptHolds at fd → ⊥)
      → IsServing c then_at stop_at
      → (stopped ≡ false → IsServing c else_at stop_at)
      → Accounts (Here at)
      → Accounts (Here (if_stopped stopped then_at else_at))
  tested at then_at else_at empty on off a = elim (Bool-cases stopped) [
    | inl h ↦
        subst (λ b. Accounts (Here (if_stopped b then_at else_at))) (sym h)
          (moved_on l c stopped stop_at opened closed at then_at empty on a)
    | inr h ↦
        subst (λ b. Accounts (Here (if_stopped b then_at else_at))) (sym h)
          (moved_on l c stopped stop_at opened closed at else_at empty (off h) a)
  ]

  accept_client-Accounts :
      (at : AcceptAt) (answer : Answer)
      → Accounts (Here at)
      → Accounts (accept_client at answer (Here at))
  unfolding accept_client
  accept_client-Accounts outside answer a =
      taken_by_accept l c stopped stop_at opened closed outside (releasing c) (λ fd h. h)
        (λ fd h. h) a
  accept_client-Accounts (returned r) answer a =
      taken_by_accept l c stopped stop_at opened closed (returned r) (releasing c) (λ fd h. h)
        (λ fd h. h) a
  accept_client-Accounts (threw e) answer a =
      taken_by_accept l c stopped stop_at opened closed (threw e) (releasing c) (λ fd h. h)
        (λ fd h. h) a
  accept_client-Accounts (releasing fd) answer a =
      closed_by_accept l c stopped stop_at opened closed fd (releasing fd) released (λ x h. h)
        (IsServing-idle c (releasing fd) released stop_at (λ h. h) a.serving) a
  accept_client-Accounts released answer a =
      tested released (returned false) listening (λ fd h. h)
        (IsServing-idle c released (returned false) stop_at (λ h. h) a.serving)
        (λ _. IsServing-idle c released listening stop_at (λ h. h) a.serving) a
  accept_client-Accounts listening (accepted fd) a =
      opened_now l c stopped stop_at opened closed fd
        (IsServing-idle c listening (holding fd) stop_at (λ h. h) a.serving) a
  accept_client-Accounts listening interrupted a =
      tested listening (returned false) listening (λ fd h. h)
        (IsServing-idle c listening (returned false) stop_at (λ h. h) a.serving) (λ _. a.serving) a
  accept_client-Accounts listening (failed e) a =
      tested listening (returned false) (threw e) (λ fd h. h)
        (IsServing-idle c listening (returned false) stop_at (λ h. h) a.serving)
        (λ _. IsServing-idle c listening (threw e) stop_at (λ h. h) a.serving) a
  accept_client-Accounts (holding fd) answer a = stored_now l c stopped stop_at opened closed fd a
  accept_client-Accounts stored answer a =
      tested stored overtaken (returned true) (λ fd h. h) (IsServing-any c overtaken stop_at tt)
        (λ off.
          IsServing-any c (returned true) stop_at
            (λ past. true-ne-false (sym (past_flagged stop_at stopped past a.flag) ∙ off)))
        a
  accept_client-Accounts overtaken answer a =
      taken_by_accept l c stopped stop_at opened closed overtaken (releasing_last c) (λ fd h. h)
        (λ fd h. h) a
  accept_client-Accounts (releasing_last fd) answer a =
      closed_by_accept l c stopped stop_at opened closed fd (releasing_last fd) (returned false)
        (λ x h. h)
        (IsServing-idle c (releasing_last fd) (returned false) stop_at (λ h. h) a.serving) a

MayServe-later :
    (at : AcceptAt) (stop_at stop_at' : StopAt)
    → (IsPast stop_at' → IsPast stop_at)
    → MayServe at stop_at
    → MayServe at stop_at'
MayServe-later outside stop_at stop_at' f h = h
MayServe-later (releasing fd) stop_at stop_at' f h = h
MayServe-later released stop_at stop_at' f h = h
MayServe-later listening stop_at stop_at' f h = h
MayServe-later (holding fd) stop_at stop_at' f h = h
MayServe-later stored stop_at stop_at' f h = h
MayServe-later overtaken stop_at stop_at' f h = h
MayServe-later (releasing_last fd) stop_at stop_at' f h = h
MayServe-later (returned true) stop_at stop_at' f h = λ past. h (f past)
MayServe-later (returned false) stop_at stop_at' f h = h
MayServe-later (threw e) stop_at stop_at' f h = h

IsServing-later :
    (o : Option ℕ) (at : AcceptAt) (stop_at stop_at' : StopAt)
    → (IsPast stop_at' → IsPast stop_at)
    → IsServing o at stop_at
    → IsServing o at stop_at'
IsServing-later none at stop_at stop_at' f h = tt
IsServing-later (some fd) at stop_at stop_at' f h = MayServe-later at stop_at stop_at' f h

module _ (l c : Option ℕ) (stopped : Bool) (at : AcceptAt) (opened closed : List ℕ) where
  abbrev Now : StopAt → Descriptors
  Now stop_at = At l c stopped stop_at opened closed at

  -- What `stop` does to the places: it takes descriptors, or closes what it took.
  Place-stop :
      (l' c' held : Option ℕ) (stop_at stop_at' : StopAt) (fd : ℕ)
      → (Holds c fd → Place l' c' at stop_at' (close_socket held closed) fd)
      → (Holds l fd → Place l' c' at stop_at' (close_socket held closed) fd)
      → (StopHolds stop_at fd → Holds held fd)
      → Place l c at stop_at closed fd
      → Place l' c' at stop_at' (close_socket held closed) fd
  Place-stop l' c' held stop_at stop_at' fd on_client on_listener holds (is_closed h) =
      is_closed (closed_still held fd closed h)
  Place-stop l' c' held stop_at stop_at' fd on_client on_listener holds (is_client h) = on_client h
  Place-stop l' c' held stop_at stop_at' fd on_client on_listener holds (is_listener h) =
      on_listener h
  Place-stop l' c' held stop_at stop_at' fd on_client on_listener holds (by_accept h) = by_accept h
  Place-stop l' c' held stop_at stop_at' fd on_client on_listener holds (by_stop h) =
      is_closed (closed_now held fd closed (holds h))

  stop-Accounts :
      (stop_at : StopAt) → Accounts (Now stop_at) → Accounts (stop stop_at (Now stop_at))
  unfolding stop
  stop-Accounts not_called a = record {
    places = λ fd here.
        Place-stop l c none not_called flagged fd is_client is_listener (λ h. h) (a.places fd here);
    serving = IsServing-later c at not_called flagged (λ h. h) a.serving;
    flag = refl;
    deaf = tt;
  }
  stop-Accounts flagged a = record {
    places = λ fd here.
        Place-stop l none none flagged (closing_client c) fd by_stop is_listener (λ h. h)
          (a.places fd here);
    serving = tt;
    flag = a.flag;
    deaf = tt;
  }
  stop-Accounts (closing_client held) a = record {
    places = λ fd here.
        Place-stop l c held (closing_client held) client_closed fd is_client is_listener (λ h. h)
          (a.places fd here);
    serving = IsServing-later c at (closing_client held) client_closed (λ h. h) a.serving;
    flag = a.flag;
    deaf = tt;
  }
  stop-Accounts client_closed a = record {
    places = λ fd here.
        Place-stop none c none client_closed (closing_listener l) fd is_client by_stop (λ h. h)
          (a.places fd here);
    serving = IsServing-later c at client_closed (closing_listener l) (λ h. h) a.serving;
    flag = a.flag;
    deaf = refl;
  }
  stop-Accounts (closing_listener held) a = record {
    places = λ fd here.
        Place-stop l c held (closing_listener held) finished fd is_client is_listener (λ h. h)
          (a.places fd here);
    serving = IsServing-later c at (closing_listener held) finished (λ h. h) a.serving;
    flag = a.flag;
    deaf = a.deaf;
  }
  stop-Accounts finished a = record {
    places = λ fd here.
        Place-stop l c none finished flagged fd is_client is_listener (λ h. h) (a.places fd here);
    serving = IsServing-later c at finished flagged (λ h. absurd h) a.serving;
    flag = refl;
    deaf = tt;
  }

pub run-Accounts : (turns : List Turn) (s : Descriptors) → Accounts s → Accounts (run turns s)
unfolding run
run-Accounts [] s a = a
run-Accounts (accepting answer ∷ turns) s a = run-Accounts turns (step (accepting answer) s) (
    accept_client-Accounts s.listen_fd s.client_fd s.stopped s.stop_at s.opened s.closed s.accept_at
      answer a)
run-Accounts (stopping ∷ turns) s a =
    run-Accounts turns (step stopping s)
      (stop-Accounts s.listen_fd s.client_fd s.stopped s.accept_at s.opened s.closed s.stop_at a)
