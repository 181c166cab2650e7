-- ===== src/Network/Sending.antt =====
-- `sendAll`: what stands on the wire, however many bytes each call of `send` takes.
use log_bridge.Base.{
  ℕ, zero, suc, ◌==◌, ◌≡◌, refl, sym, ap, ◌∙◌, List, [], ◌∷◌, ◌++◌, append-nil, append_assoc, take,
  drop, take-append-drop, All, Result, ok, err, system, Bool-cases, inl, inr,
}
use mathlib.Core.Path.{subst}
use log_bridge.Message.{Bytes}
use log_bridge.Storage.Persistence.{eintr}
use log_bridge.Network.Socket.{Departure, taken, refused, Socket, epipe, send_loop, send_all}

-- All was sent, or a call failed.
abbrev pub SendMeans : Bytes → Result (Unit {0}) → Type 0
SendMeans back (ok _) = back ≡ []
SendMeans back (err e) = (n : ℕ) × (e ≡ system n)

-- The wire has a front of the data behind what was sent before.
pub record Sent (before bytes wire : Bytes) (r : Result (Unit {0})) : Type 0 where
  pub front : Bytes
  pub back : Bytes
  pub split : bytes ≡ front ++ back
  pub on_wire : wire ≡ before ++ front
  pub means : SendMeans back r

Sent-later :
    (before piece rest wire : Bytes) (r : Result (Unit {0}))
    → Sent (before ++ piece) rest wire r
    → Sent before (piece ++ rest) wire r
Sent-later before piece rest wire r h = record {
  front = piece ++ h.front;
  back = h.back;
  split = ap (λ t. piece ++ t) h.split ∙ sym (append_assoc piece h.front h.back);
  on_wire = h.on_wire ∙ append_assoc before piece h.front;
  means = h.means;
}

Sent-nothing : (before bytes : Bytes) (n : ℕ) → Sent before bytes before (err (system n))
Sent-nothing before bytes n = record {
  front = [];
  back = bytes;
  split = refl;
  on_wire = sym (append-nil before);
  means = (n, refl);
}

send_loop-Sent :
    (departures : List Departure) (bytes before : Bytes)
    → let r = send_loop departures bytes before in Sent before bytes r.1 r.0
unfolding send_loop
send_loop-Sent departures [] before = record {
  front = [];
  back = [];
  split = refl;
  on_wire = sym (append-nil before);
  means = refl;
}
send_loop-Sent [] (b ∷ rest) before = record {
  front = b ∷ rest;
  back = [];
  split = sym (append-nil (b ∷ rest));
  on_wire = refl;
  means = refl;
}
send_loop-Sent (taken zero ∷ departures) (b ∷ rest) before = Sent-nothing before (b ∷ rest) epipe
send_loop-Sent (taken (suc n) ∷ departures) (b ∷ rest) before =
    subst
      (λ t.
        let r = send_loop departures (drop n rest) (before ++ b ∷ take n rest) in
        Sent before t r.1 r.0)
      (ap (λ t. b ∷ t) (take-append-drop n rest))
      (Sent-later before (b ∷ take n rest) (drop n rest) _ _
        (send_loop-Sent departures (drop n rest) (before ++ b ∷ take n rest)))
send_loop-Sent (refused e ∷ departures) (b ∷ rest) before = elim (Bool-cases (e == eintr)) [
  | inl same ↦ rw (same, send_loop) (send_loop-Sent departures (b ∷ rest) before)
  | inr other ↦ rw (other, send_loop) (Sent-nothing before (b ∷ rest) e)
]

-- With any answers of send, sendAll has put a front of the bytes on the wire, behind what was sent
-- before: all of them if it returns; if it throws, then the error of a call.
pub send_all-Sent :
    (bytes : Bytes) (s : Socket) → let r = send_all bytes s in Sent s.sent bytes r.1.sent r.0
unfolding send_all
send_all-Sent bytes s = send_loop-Sent s.departures bytes s.sent

-- A call that takes a byte at least, or that is interrupted.
abbrev pub Accepting : Departure → Type 0
Accepting (taken zero) = ⊥
Accepting (taken (suc n)) = Unit {0}
Accepting (refused e) = e ≡ eintr

send_loop-ok :
    (departures : List Departure) (bytes before : Bytes)
    → All Accepting departures
    → let r = send_loop departures bytes before in (r.0 ≡ ok tt) × (r.1 ≡ before ++ bytes)
unfolding send_loop
send_loop-ok departures [] before steady = (refl, sym (append-nil before))
send_loop-ok [] (b ∷ rest) before steady = (refl, refl)
send_loop-ok (taken zero ∷ departures) (b ∷ rest) before steady = absurd steady.0
send_loop-ok (taken (suc n) ∷ departures) (b ∷ rest) before steady =
    let (done, wire) = send_loop-ok departures (drop n rest) (before ++ b ∷ take n rest) steady.1 in
    (
      done,
      wire
          ∙ append_assoc before (b ∷ take n rest) (drop n rest)
          ∙ ap (λ t. before ++ b ∷ t) (take-append-drop n rest),
    )
send_loop-ok (refused e ∷ departures) (b ∷ rest) before steady =
    rw (steady.0, send_loop) (send_loop-ok departures (b ∷ rest) before steady.1)

pub send_all-ok :
    (bytes : Bytes) (s : Socket)
    → All Accepting s.departures
    → let r = send_all bytes s in
      (r.0 ≡ ok tt)
      × (r.1.sent ≡ s.sent ++ bytes)
      × (r.1.incoming ≡ s.incoming)
      × (r.1.arrivals ≡ s.arrivals)
unfolding send_all
send_all-ok bytes s steady =
    let (done, wire) = send_loop-ok s.departures bytes s.sent steady in (done, wire, refl, refl)
