-- ===== src/WriteAheadLog/Confirm.antt =====
-- What `confirm` keeps, and the frames that `rewriteLocked` writes.
use log_bridge.Base.{
  ℕ, ◌≤◌, ◌≡◌, refl, sym, ap, ◌∙◌, arith, List, [], ◌∷◌, ◌++◌, append-nil, append_assoc, length,
  All, ok, leb, Bool-cases, inl, inr,
}
use mathlib.Core.Path.{subst}
use log_bridge.Message.{Bytes, LogMessage, IsTyped}
use log_bridge.Protocol.Single.{log_frame, serialize_log_message-ok}
use log_bridge.Protocol.Batch.{IsRun}
use log_bridge.WriteAheadLog.{unconfirmed, frames_of}
use log_bridge.WriteAheadLog.Load.{file_bytes, IsLog}

pub IsRun-lower :
    (client_id : Bytes) (low previous_id : ℕ) (ms : List LogMessage)
    → low ≤ previous_id
    → IsRun client_id previous_id ms
    → IsRun client_id low ms
IsRun-lower client_id low previous_id [] h run = tt
IsRun-lower client_id low previous_id (m ∷ rest) h run = (run.0, omega arith, run.2, run.3)

pub IsLog_of_IsRun : (client_id : Bytes) (ms : List LogMessage) → IsRun client_id 0 ms → IsLog ms
IsLog_of_IsRun client_id [] run = tt
IsLog_of_IsRun client_id (m ∷ rest) run = subst (λ c. IsRun c 0 (m ∷ rest)) (sym run.0) run

pub unconfirmed-IsRun :
    (confirmed_id : ℕ) (client_id : Bytes) (previous_id : ℕ) (ms : List LogMessage)
    → IsRun client_id previous_id ms
    → IsRun client_id previous_id (unconfirmed confirmed_id ms)
unfolding unconfirmed
unconfirmed-IsRun confirmed_id client_id previous_id [] run = tt
unconfirmed-IsRun confirmed_id client_id previous_id (m ∷ rest) run =
    elim (Bool-cases (leb m.id confirmed_id)) [
      | inl gone ↦ rw gone (
          IsRun-lower client_id previous_id m.id (unconfirmed confirmed_id rest) (omega arith)
            (unconfirmed-IsRun confirmed_id client_id m.id rest run.3))
      | inr kept ↦
          rw kept (run.0, run.1, run.2, unconfirmed-IsRun confirmed_id client_id m.id rest run.3)
    ]

pub unconfirmed-IsLog :
    (confirmed_id : ℕ) (ms : List LogMessage) → IsLog ms → IsLog (unconfirmed confirmed_id ms)
unconfirmed-IsLog confirmed_id [] run = unfold unconfirmed in tt
unconfirmed-IsLog confirmed_id (m ∷ rest) run =
    IsLog_of_IsRun m.client_id (unconfirmed confirmed_id (m ∷ rest))
      (unconfirmed-IsRun confirmed_id m.client_id 0 (m ∷ rest) run)

pub unconfirmed-IsTyped :
    (confirmed_id : ℕ) (ms : List LogMessage)
    → All IsTyped ms
    → All IsTyped (unconfirmed confirmed_id ms)
unfolding unconfirmed
unconfirmed-IsTyped confirmed_id [] typed = tt
unconfirmed-IsTyped confirmed_id (m ∷ rest) typed = elim (Bool-cases (leb m.id confirmed_id)) [
  | inl gone ↦ rw gone (unconfirmed-IsTyped confirmed_id rest typed.1)
  | inr kept ↦ rw kept (typed.0, unconfirmed-IsTyped confirmed_id rest typed.1)
]

length-unconfirmed :
    (confirmed_id : ℕ) (ms : List LogMessage) → length (unconfirmed confirmed_id ms) ≤ length ms
unfolding unconfirmed
length-unconfirmed confirmed_id [] = omega arith
length-unconfirmed confirmed_id (m ∷ rest) = ground (arith, length-unconfirmed confirmed_id rest)

-- Where as many stay, all stay.
pub unconfirmed_all :
    (confirmed_id : ℕ) (ms : List LogMessage)
    → length (unconfirmed confirmed_id ms) ≡ length ms
    → unconfirmed confirmed_id ms ≡ ms
unfolding unconfirmed
unconfirmed_all confirmed_id [] h = refl
unconfirmed_all confirmed_id (m ∷ rest) h =
    ground (arith, length-unconfirmed confirmed_id rest, unconfirmed_all confirmed_id rest)

frames_of-run :
    (client_id : Bytes) (previous_id : ℕ) (output : Bytes) (ms : List LogMessage)
    → IsRun client_id previous_id ms
    → frames_of output ms ≡ ok (output ++ file_bytes ms)
unfolding frames_of
frames_of-run client_id previous_id output [] run = ap ok (sym (append-nil output))
frames_of-run client_id previous_id output (m ∷ rest) run = rw (serialize_log_message-ok m run.2) (
    frames_of-run client_id m.id (output ++ log_frame m) rest run.3
    ∙ ap ok (append_assoc output (log_frame m) (file_bytes rest)))

pub frames_of-log : (ms : List LogMessage) → IsLog ms → frames_of [] ms ≡ ok (file_bytes ms)
frames_of-log [] run = unfold frames_of in refl
frames_of-log (m ∷ rest) run = frames_of-run m.client_id 0 [] (m ∷ rest) run
