-- ===== src/ClientState/Lives.antt =====
-- Any number of runs of the client over one state file: calls that return or throw, processes that die
-- at any moment of a call, and starts that return or throw.
pub mod Steps
use log_bridge.Base.{
  ℕ, ◌^◌, ◌<◌, ◌≤◌, ◌≡◌, refl, sym, ap, ◌∙◌, arith, ◌⊎◌, List, [], ◌∷◌, length, All, Option, some,
  none, Result, ok, err, inl, inr,
}
use mathlib.Core.Path.{subst}
use log_bridge.Message.{Bytes, LogMessage}
use log_bridge.Storage.World.{World, Files}
use log_bridge.ClientState.{
  ClientState, Outcome, state_text, next_message_id, update_file_checkpoint, open_state,
}
use log_bridge.ClientState.Load.{IsLine, IsWritable}
use log_bridge.ClientState.Durable.{
  IsSaved, IsUnchanged, next_state, OldOrNext, Allocates, next_message_id-Allocates, moved_state,
  OldOrMoved, Moves, update_file_checkpoint-Moves,
}
use log_bridge.ClientState.Open.{Corrects}
use log_bridge.ClientState.Correct.{IsId, Unchanged, UnchangedOrCorrected}
use log_bridge.ClientState.Reopen.{ReopenEnds, open_state-Reopens}

-- A state of the files that a call went through.
pub data Moment (files : Files) : List Files → Type 0 where
  now : (rest : List Files) → Moment files (files ∷ rest)
  before : (f : Files) (rest : List Files) → Moment files rest → Moment files (f ∷ rest)

pub All-Moment :
    (P : Files → Type 0) (files : Files) (history : List Files)
    → Moment files history
    → All P history
    → P files
All-Moment P files _ (now rest) h = h.0
All-Moment P files _ (before f rest m) h = All-Moment P files rest m h.1

-- What stays of a world when a process dies or a call ends: the files. A new call has a history of
-- its own.
abbrev pub fresh : World → World
fresh w = record w { history = [] }

abbrev pub Checkpoint : Type 0
Checkpoint = ℕ × ℕ × ℕ

pub record IsCheckpoint (c : Checkpoint) : Type 0 where
  pub offset_fits : c.0 < 2 ^ 64
  pub device_fits : c.1 < 2 ^ 64
  pub inode_fits : c.2 < 2 ^ 64

abbrev pub move : Checkpoint → ClientState → World → Outcome (Unit {0})
move c state w = update_file_checkpoint (c.0) (c.1) (c.2) state (fresh w)

-- The arguments of a start.
pub record Start (path : Bytes) : Type 0 where
  pub random : ℕ → ℕ
  pub source : Bytes
  pub recovered : List LogMessage
  pub named : 1 ≤ length path
  pub sourced : 1 ≤ length source
  pub line : IsLine source
  pub ids : All IsId recovered

abbrev pub starts : {path : Bytes} → Start path → World → Result ClientState × World
starts {path} a w = open_state a.random path a.source a.recovered (fresh w)

-- The ids that `nextMessageId` returned, the last one first; the object, while the process is alive;
-- and the files.
pub data Lives (path : Bytes) : List ℕ → Option ClientState → Files → Type 0 where
  begun :
      (state : ClientState) (files : Files)
      → state.path ≡ path
      → IsSaved state files
      → Lives path [] (some state) files
  allocated :
      {ids : List ℕ} (state : ClientState) (w : World) (id : ℕ)
      → Lives path ids (some state) w.files
      → (next_message_id state (fresh w)).0 ≡ ok id
      → Lives path
          (id ∷ ids)
          (some (next_message_id state (fresh w)).1)
          (next_message_id state (fresh w)).2.files
  refused :
      {ids : List ℕ} (state : ClientState) (w : World) (e : log_bridge.Base.Exception)
      → Lives path ids (some state) w.files
      → (next_message_id state (fresh w)).0 ≡ err e
      → Lives path ids
          (some (next_message_id state (fresh w)).1)
          (next_message_id state (fresh w)).2.files
  died_allocating :
      {ids : List ℕ} (state : ClientState) (w : World) (files : Files)
      → Lives path ids (some state) w.files
      → Moment files (next_message_id state (fresh w)).2.history
      → Lives path ids none files
  moved :
      {ids : List ℕ} (state : ClientState) (w : World) (c : Checkpoint)
      → Lives path ids (some state) w.files
      → IsCheckpoint c
      → Lives path ids (some (move c state w).1) (move c state w).2.files
  died_moving :
      {ids : List ℕ} (state : ClientState) (w : World) (c : Checkpoint) (files : Files)
      → Lives path ids (some state) w.files
      → IsCheckpoint c
      → Moment files (move c state w).2.history
      → Lives path ids none files
  died :
      {ids : List ℕ} (state : ClientState) (files : Files)
      → Lives path ids (some state) files
      → Lives path ids none files
  started :
      {ids : List ℕ} (a : Start path) (w : World) (state : ClientState)
      → Lives path ids none w.files
      → (starts a w).0 ≡ ok state
      → Lives path ids (some state) (starts a w).1.files
  not_started :
      {ids : List ℕ} (a : Start path) (w : World) (e : log_bridge.Base.Exception)
      → Lives path ids none w.files
      → (starts a w).0 ≡ err e
      → Lives path ids none (starts a w).1.files
  died_starting :
      {ids : List ℕ} (a : Start path) (w : World) (files : Files)
      → Lives path ids none w.files
      → Moment files (starts a w).1.history
      → Lives path ids none files

-- Each id is above those that were returned before it.
abbrev pub Rising : List ℕ → Type 0
Rising [] = Unit {0}
Rising (id ∷ earlier) = All (λ e. e < id) earlier × Rising earlier

abbrev pub IsAhead : List ℕ → ClientState → Type 0
IsAhead ids state = All (λ e. e < state.next_id) ids

-- A state in the file whose next id is above all of them.
pub record Stored (path : Bytes) (ids : List ℕ) (files : Files) : Type 0 where
  pub state : ClientState
  pub same_path : state.path ≡ path
  pub is_saved : IsSaved state files
  pub ahead : IsAhead ids state

pub record IsLive (path : Bytes) (ids : List ℕ) (state : ClientState) : Type 0 where
  pub same_path : state.path ≡ path
  pub writable : IsWritable state
  pub ahead : IsAhead ids state

abbrev pub LiveIf : Bytes → List ℕ → Option ClientState → Type 0
LiveIf path ids none = Unit {0}
LiveIf path ids (some state) = IsLive path ids state

pub record Invariant (path : Bytes) (ids : List ℕ) (object : Option ClientState) (files : Files)
    : Type 0 where
  pub rising : Rising ids
  pub stored : Stored path ids files
  pub live : LiveIf path ids object

pub All-raise : (ids : List ℕ) (n m : ℕ) → n ≤ m → All (λ e. e < n) ids → All (λ e. e < m) ids
All-raise [] n m le h = tt
All-raise (id ∷ ids) n m le h = (omega (arith, h.0), All-raise ids n m le h.1)

-- The file as it was, or with a state that is further.
module _ (path : Bytes) (ids : List ℕ) (w : World) (s : Stored path ids w.files) where
  pub Stored-unchanged : (files : Files) → files path ≡ w.files path → Stored path ids files
  Stored-unchanged files h = record {
    state = s.state;
    same_path = s.same_path;
    is_saved = record {
      stored = ap files s.same_path ∙ h ∙ sym (ap w.files s.same_path) ∙ s.is_saved.stored;
      writable = s.is_saved.writable;
    };
    ahead = s.ahead;
  }

  pub Stored-either :
      (state changed : ClientState) (files : Files)
      → state.path ≡ path
      → changed.path ≡ path
      → IsAhead ids changed
      → IsUnchanged state w files ⊎ IsSaved changed files
      → Stored path ids files
  Stored-either state changed files same here ahead (inl h) =
      Stored-unchanged files (subst (λ p. files p ≡ w.files p) same h)
  Stored-either state changed files same here ahead (inr h) = record {
    state = changed;
    same_path = here;
    is_saved = h;
    ahead = ahead;
  }

  pub Stored-corrected :
      (a : Start path) (files : Files)
      → UnchangedOrCorrected a.source a.recovered s.state w files
      → Stored path ids files
  Stored-corrected a files (inl h) =
      Stored-unchanged files (subst (λ p. files p ≡ w.files p) s.same_path h)
  Stored-corrected a files (inr c) = record {
    state = c.state;
    same_path = c.corrects.same_path ∙ s.same_path;
    is_saved = c.is_saved;
    ahead = All-raise ids s.state.next_id c.state.next_id c.corrects.no_lower s.ahead;
  }
