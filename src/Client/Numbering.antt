-- ===== src/Client/Numbering.antt =====
-- What a round of the producer leaves, whether it returns or throws.
use log_bridge.Base.{
  ℕ, suc, ◌+◌, ◌≡◌, refl, sym, ap, ◌∙◌, arith, ◌==◌, ◌&&◌, Bool-cases, Result-cases, inl, inr, List,
  [], ◌∷◌, ◌++◌, append-nil, append_assoc, length, take, Result, ok, err, Exception,
}
use mathlib.Core.Path.{subst, ap₂}
use log_bridge.Message.{Bytes, LogMessage}
use log_bridge.Storage.World.{World}
use log_bridge.WriteAheadLog as Log
use log_bridge.WriteAheadLog.{WriteAheadLog}
use log_bridge.Delivery.Moments.{append-Alike}
use log_bridge.ClientState as State
use log_bridge.ClientState.{
  ClientState, next_message_id, update_file_checkpoint, saved, persist, greatest_id,
}
use log_bridge.Server.Loop.{plus}
use log_bridge.Client.Producer.{
  Producer, Line, message_for, logged, with_id, produce_line, produce_lines, checkpointed,
  Checkpoint, with_lines, produce_round,
}

-- The messages of lines, with ids in a row.
abbrev pub numbered : Bytes → Bytes → ℕ → List Line → List LogMessage
numbered source client_id id [] = []
numbered source client_id id (line ∷ lines) =
    message_for source client_id id line ∷ numbered source client_id (id + 1) lines

-- A state without its checkpoint.
record SameClient (before after : ClientState) (next_id : ℕ) : Type 0 where
  client : after.client_id ≡ before.client_id
  next : after.next_id ≡ next_id

abbrev pub IsAt : Checkpoint → ClientState → Type 0
IsAt c state = (state.file_offset ≡ c.0) × ((state.file_device_id ≡ c.1) × (state.file_inode ≡ c.2))

abbrev pub checkpoint_of : ClientState → Checkpoint
checkpoint_of state = (state.file_offset, state.file_device_id, state.file_inode)

abbrev IdEnds : ClientState → State.Outcome ℕ → Type 0
IdEnds state (ok id, after, w) =
    (id ≡ state.next_id) × (after ≡ record state { next_id = state.next_id + 1 })
IdEnds state (err e, after, w) = after ≡ state

saved-IdEnds :
    (state : ClientState) (r : Result (Unit {0}) × World)
    → IdEnds state (saved state.next_id (record state { next_id = state.next_id + 1 }) state r)
saved-IdEnds state (ok _, w) = (refl, refl)
saved-IdEnds state (err e, w) = refl

next_message_id-IdEnds : (state : ClientState) (w : World) → IdEnds state (next_message_id state w)
unfolding next_message_id
next_message_id-IdEnds state w = elim (Bool-cases (state.next_id == greatest_id)) [
  | inl full ↦ rw full refl
  | inr room ↦
      rw room (saved-IdEnds state (persist (record state { next_id = state.next_id + 1 }) w))
]

abbrev MoveEnds : Checkpoint → ClientState → State.Outcome (Unit {0}) → Type 0
MoveEnds c state (ok _, after, w) = IsAt c after × SameClient state after state.next_id
MoveEnds c state (err e, after, w) = after ≡ state

saved-MoveEnds :
    (c : Checkpoint) (state : ClientState) (r : Result (Unit {0}) × World)
    → let moved = record state { file_offset = c.0; file_device_id = c.1; file_inode = c.2 } in
      MoveEnds c state (saved tt moved state r)
saved-MoveEnds c state (ok _, w) = ((refl, (refl, refl)), record { client = refl; next = refl })
saved-MoveEnds c state (err e, w) = refl

update_file_checkpoint-MoveEnds :
    (c : Checkpoint) (state : ClientState) (w : World)
    → MoveEnds c state (update_file_checkpoint (c.0) (c.1) (c.2) state w)
unfolding update_file_checkpoint
update_file_checkpoint-MoveEnds c state w =
    elim (Bool-cases
      (c.0 == state.file_offset && (c.1 == state.file_device_id && c.2 == state.file_inode))) [
        | inl same ↦
            rw same
              ((ground arith, (ground arith, ground arith)), record { client = refl; next = refl })
        | inr differ ↦ rw differ (
            saved-MoveEnds c state (
              persist (record state { file_offset = c.0; file_device_id = c.1; file_inode = c.2 })
                w))
      ]

-- One line: a message for it, or the log as it was.
abbrev LineEnds : Bytes → Line → Producer → Result LogMessage × Producer → Type 0
LineEnds source line p (ok m, after) =
    (m ≡ message_for source p.state.client_id p.state.next_id line)
    × ((after.wal.pending ≡ p.wal.pending ++ m ∷ [])
        × (after.state ≡ record (p.state) { next_id = p.state.next_id + 1 }))
LineEnds source line p (err e, after) =
    (after.wal.pending ≡ p.wal.pending) × (checkpoint_of after.state ≡ checkpoint_of p.state)

logged-LineEnds :
    (source : Bytes) (line : Line) (p : Producer) (m : LogMessage) (state : ClientState)
    (o : Log.Outcome)
    → m ≡ message_for source p.state.client_id p.state.next_id line
    → state ≡ record (p.state) { next_id = p.state.next_id + 1 }
    → (o.0 ≡ ok tt → o.1 ≡ record (p.wal) { pending = p.wal.pending ++ m ∷ [] })
    → ((e : Exception) → o.0 ≡ err e → o.1 ≡ p.wal)
    → LineEnds source line p (logged m state p o)
logged-LineEnds source line p m state (ok _, wal, w) is_message is_next returned thrown =
    (is_message, (ap (λ (l : WriteAheadLog). l.pending) (returned refl), is_next))
logged-LineEnds source line p m state (err e, wal, w) is_message is_next returned thrown =
    (ap (λ (l : WriteAheadLog). l.pending) (thrown e refl), ap checkpoint_of is_next)

with_id-LineEnds :
    (source : Bytes) (line : Line) (p : Producer) (q : State.Outcome ℕ)
    → IdEnds p.state q
    → LineEnds source line p (with_id source line p q)
with_id-LineEnds source line p (ok id, state, w) (is_id, is_next) =
    let m = message_for source state.client_id id line in
    let alike = append-Alike m p.wal p.wal.pending w in
    logged-LineEnds source line p m state (Log.append m p.wal w)
      (ap₂ (λ c k. message_for source c k line) (ap (λ (s : ClientState). s.client_id) is_next)
        is_id)
      is_next alike.returned alike.thrown
with_id-LineEnds source line p (err e, state, w) same = (refl, ap checkpoint_of same)

produce_line-LineEnds :
    (source : Bytes) (line : Line) (p : Producer)
    → LineEnds source line p (produce_line source line p)
unfolding produce_line
produce_line-LineEnds source line p =
    with_id-LineEnds source line p (next_message_id p.state p.world)
      (next_message_id-IdEnds p.state p.world)

module _ (source : Bytes) where
  abbrev new_messages : List Line → Producer → List LogMessage
  new_messages lines p = numbered source p.state.client_id p.state.next_id lines

  record LinesDone (lines : List Line) (before : List LogMessage) (p : Producer)
      (ms : List LogMessage) (after : Producer) : Type 0 where
    messages : ms ≡ before ++ new_messages lines p
    pending : after.wal.pending ≡ p.wal.pending ++ new_messages lines p
    state : after.state ≡ record (p.state) { next_id = p.state.next_id + length lines }

  -- Some front of the lines is in the log, and the checkpoint did not move.
  pub record LinesCut (lines : List Line) (p after : Producer) : Type 0 where
    pub count : ℕ
    pub pending : after.wal.pending ≡ p.wal.pending ++ new_messages (take count lines) p
    pub unmoved : checkpoint_of after.state ≡ checkpoint_of p.state

  abbrev LinesEnd :
      List Line → List LogMessage → Producer → Result (List LogMessage) × Producer → Type 0
  LinesEnd lines before p (ok ms, after) = LinesDone lines before p ms after
  LinesEnd lines before p (err e, after) = LinesCut lines p after

  module _ (line : Line) (lines : List Line) (before : List LogMessage) (p : Producer) where
    LinesEnd-later :
        (m : LogMessage) (mid : Producer) (q : Result (List LogMessage) × Producer)
        → LineEnds source line p (ok m, mid)
        → LinesEnd lines (before ++ m ∷ []) mid q
        → LinesEnd (line ∷ lines) before p q
    LinesEnd-later m mid (ok ms, after) (is_message, (grown, next)) d = record {
      messages =
          d.messages
          ∙ append_assoc before (m ∷ []) (new_messages lines mid)
          ∙ ap (λ t. before ++ t) all;
      pending =
          d.pending
          ∙ ap (λ t. t ++ new_messages lines mid) grown
          ∙ append_assoc p.wal.pending (m ∷ []) (new_messages lines mid)
          ∙ ap (λ t. p.wal.pending ++ t) all;
      state =
          d.state
          ∙ ap (λ (s : ClientState). record s { next_id = s.next_id + length lines }) next
          ∙ ap (λ n. record (p.state) { next_id = n }) (omega arith);
    }
      where
        all : m ∷ new_messages lines mid ≡ new_messages (line ∷ lines) p
        all =
            ap₂ (λ x (s : ClientState). x ∷ numbered source s.client_id s.next_id lines) is_message
              next
    LinesEnd-later m mid (err e, after) (is_message, (grown, next)) d = record {
      count = suc d.count;
      pending =
          d.pending
          ∙ ap (λ t. t ++ new_messages (take d.count lines) mid) grown
          ∙ append_assoc p.wal.pending (m ∷ []) (new_messages (take d.count lines) mid)
          ∙ ap (λ t. p.wal.pending ++ t)
              (ap₂
                (λ x (s : ClientState).
                  x ∷ numbered source s.client_id s.next_id (take d.count lines))
                is_message next);
      unmoved = d.unmoved ∙ ap checkpoint_of next;
    }

  produce_lines-LinesEnd :
      (lines : List Line) (before : List LogMessage) (p : Producer)
      → LinesEnd lines before p (produce_lines source lines before p)
  unfolding produce_lines
  produce_lines-LinesEnd [] before p = record {
    messages = sym (append-nil before);
    pending = sym (append-nil p.wal.pending);
    state = ap (λ n. record (p.state) { next_id = n }) (omega arith);
  }
  produce_lines-LinesEnd (line ∷ lines) before p =
      let q = produce_line source line p in
      let first = produce_line-LineEnds source line p in
      elim (Result-cases q.0) [
        | inr (e, thrown) ↦ rw (thrown, produce_lines) (stopped q e thrown first)
        | inl (m, done) ↦
            rw (done, produce_lines)
              (LinesEnd-later line lines before p m q.1
                (produce_lines source lines (before ++ m ∷ []) q.1)
                (subst (λ r. LineEnds source line p (r, q.1)) done first)
                (produce_lines-LinesEnd lines (before ++ m ∷ []) q.1))
      ]
    where
      stopped :
          (q : Result LogMessage × Producer) (e : Exception)
          → q.0 ≡ err e
          → LineEnds source line p q
          → LinesCut (line ∷ lines) p q.1
      stopped (ok m, after) e h ends = absurd (no h)
        where
          no : ok m ≡ err e → ⊥
          no h = cc
      stopped (err x, after) e h ends = record {
        count = 0;
        pending = ends.0 ∙ sym (append-nil p.wal.pending);
        unmoved = ends.1;
      }

  -- Every line is in the log before the checkpoint moves.
  pub record RoundDone (lines : List Line) (c : Checkpoint) (p : Producer) (ms : List LogMessage)
      (after : Producer) : Type 0 where
    pub messages : ms ≡ new_messages lines p
    pub pending : after.wal.pending ≡ p.wal.pending ++ new_messages lines p
    pub at : IsAt c after.state
    pub next_id : after.state.next_id ≡ p.state.next_id + length lines

  abbrev pub RoundEnds :
      List Line → Checkpoint → Producer → Result (List LogMessage) × Producer → Type 0
  RoundEnds lines c p (ok ms, after) = RoundDone lines c p ms after
  RoundEnds lines c p (err e, after) = LinesCut lines p after

  take-length : (lines : List Line) → take (length lines) lines ≡ lines
  take-length [] = refl
  take-length (line ∷ lines) = ap (λ t. line ∷ t) (take-length lines)

  checkpointed-RoundEnds :
      (lines : List Line) (c : Checkpoint) (p : Producer) (ms : List LogMessage) (mid : Producer)
      (o : State.Outcome (Unit {0}))
      → LinesDone lines [] p ms mid
      → MoveEnds c mid.state o
      → RoundEnds lines c p (checkpointed ms mid o)
  checkpointed-RoundEnds lines c p ms mid (ok _, state, w) d (at, same) = record {
    messages = d.messages;
    pending = d.pending;
    at = at;
    next_id = same.next ∙ ap (λ (s : ClientState). s.next_id) d.state;
  }
  checkpointed-RoundEnds lines c p ms mid (err e, state, w) d same = record {
    count = length lines;
    pending = d.pending ∙ ap (λ ls. p.wal.pending ++ new_messages ls p) (sym (take-length lines));
    unmoved = ap checkpoint_of same ∙ ap checkpoint_of d.state;
  }

  with_lines-RoundEnds :
      (lines : List Line) (c : Checkpoint) (p : Producer) (q : Result (List LogMessage) × Producer)
      → LinesEnd lines [] p q
      → RoundEnds lines c p (with_lines c q)
  with_lines-RoundEnds lines c p (ok ms, mid) d =
      checkpointed-RoundEnds lines c p ms mid
        (update_file_checkpoint (c.0) (c.1) (c.2) mid.state mid.world) d
        (update_file_checkpoint-MoveEnds c mid.state mid.world)
  with_lines-RoundEnds lines c p (err e, after) d = d

  -- The counter of lines read makes no difference.
  counted-LinesEnd :
      (n : ℕ) (lines : List Line) (p : Producer) (q : Result (List LogMessage) × Producer)
      → LinesEnd lines [] (record p { read_messages = n }) q
      → LinesEnd lines [] p q
  counted-LinesEnd n lines p (ok ms, after) d = record {
    messages = d.messages;
    pending = d.pending;
    state = d.state;
  }
  counted-LinesEnd n lines p (err e, after) d = record {
    count = d.count;
    pending = d.pending;
    unmoved = d.unmoved;
  }

  -- If a round of the producer returns, the messages that it pushes are those of the lines in
  -- order, with consecutive ids from the next id on, the log grew by exactly these, the checkpoint
  -- is the new one, and the next id is behind them. If it throws, the log grew by the messages of a
  -- front of the lines, and the checkpoint is the old one.
  pub produce_round-RoundEnds :
      (lines : List Line) (c : Checkpoint) (p : Producer)
      → RoundEnds lines c p (produce_round source lines c p)
  unfolding produce_round
  produce_round-RoundEnds lines c p =
      let n = plus p.read_messages (length lines) in
      let q = produce_lines source lines [] (record p { read_messages = n }) in
      with_lines-RoundEnds lines c p q (
        counted-LinesEnd n lines p q
          (produce_lines-LinesEnd lines [] (record p { read_messages = n })))
