-- ===== src/ClientState/Lives/Steps.antt =====
-- Every step of a client's life keeps the ids apart.
use log_bridge.Base.{
  ℕ, ◌+◌, ◌<◌, ◌≤◌, ◌≡◌, sym, ap, ◌∙◌, arith, List, ◌∷◌, length, All, Option, some, none, Result,
  ok, err, Exception,
}
use mathlib.Core.Path.{subst}
use log_bridge.Message.{Bytes}
use log_bridge.Storage.World.{World, Files}
use log_bridge.ClientState.{ClientState, Outcome, next_message_id, open_state}
use log_bridge.ClientState.Load.{IsWritable}
use log_bridge.ClientState.Durable.{
  IsSaved, IsUnchanged, next_state, OldOrNext, Allocates, next_message_id-Allocates, moved_state,
  OldOrMoved, Moves, update_file_checkpoint-Moves,
}
use log_bridge.ClientState.Correct.{UnchangedOrCorrected}
use log_bridge.ClientState.Reopen.{ReopenEnds, open_state-Reopens}
use log_bridge.ClientState.Lives.{
  All-Moment, fresh, Checkpoint, IsCheckpoint, move, Start, starts, Lives, begun, allocated,
  refused, died_allocating, moved, died_moving, died, started, not_started, died_starting, Rising,
  IsAhead, Stored, IsLive, Invariant, All-raise, Stored-either, Stored-corrected,
}

module _ (path : Bytes) (ids : List ℕ) (state : ClientState) (w : World)
    (i : Invariant path ids (some state) w.files) where
  IsAhead-next : IsAhead ids (record state { next_id = state.next_id + 1 })
  IsAhead-next = All-raise ids state.next_id (state.next_id + 1) (omega arith) i.live.ahead

  Stored-next : (files : Files) → OldOrNext state w i.live.writable files → Stored path ids files
  Stored-next files =
      Stored-either path ids w i.stored state (next_state state w i.live.writable) files
        i.live.same_path i.live.same_path IsAhead-next

  step-refused :
      (q : Outcome ℕ) (e : Exception)
      → q.0 ≡ err e
      → Allocates state w i.live.writable q
      → Invariant path ids (some q.1) q.2.files
  step-refused (ok id, after, w') e h a = absurd (no h)
    where
      no : ok id ≡ err e → ⊥
      no h = cc
  step-refused (err x, after, w') e h (same, files) = record {
    rising = i.rising;
    stored = Stored-next w'.files files;
    live = subst (IsLive path ids) (sym same) i.live;
  }

  step-allocated :
      (q : Outcome ℕ) (id : ℕ)
      → q.0 ≡ ok id
      → Allocates state w i.live.writable q
      → Invariant path (id ∷ ids) (some q.1) q.2.files
  step-allocated (err e, after, w') id h a = absurd (no h)
    where
      no : err e ≡ ok id → ⊥
      no h = cc
  step-allocated (ok n, after, w') id h (here, next, is_saved) = record {
    rising = (subst (λ k. All (λ e. e < k) ids) same i.live.ahead, i.rising);
    stored = record {
      state = after;
      same_path = after_path;
      is_saved = is_saved;
      ahead = ahead_after;
    };
    live = record { same_path = after_path; writable = is_saved.writable; ahead = ahead_after };
  }
    where
      unwrapped : n ≡ id
      unwrapped = cc

      same : state.next_id ≡ id
      same = sym here ∙ unwrapped

      after_path : after.path ≡ path
      after_path = ap (λ (s : ClientState). s.path) next ∙ i.live.same_path

      ahead_after : IsAhead (id ∷ ids) after
      ahead_after = subst (IsAhead (id ∷ ids)) (sym next) (omega (arith, same), IsAhead-next)

  module _ (c : Checkpoint) (fits : IsCheckpoint c) where
    Stored-moved :
        (files : Files)
        → OldOrMoved
            (c.0)
            (c.1)
            (c.2)
            state
            w
            i.live.writable
            fits.offset_fits
            fits.device_fits
            fits.inode_fits
            files
        → Stored path ids files
    Stored-moved files =
        Stored-either path ids w i.stored state
          (moved_state (c.0) (c.1) (c.2) state w i.live.writable fits.offset_fits fits.device_fits
            fits.inode_fits)
          files i.live.same_path i.live.same_path i.live.ahead

    step-moved :
        (q : Outcome (Unit {0}))
        → Moves
            (c.0)
            (c.1)
            (c.2)
            state
            w
            i.live.writable
            fits.offset_fits
            fits.device_fits
            fits.inode_fits
            q
        → Invariant path ids (some q.1) q.2.files
    step-moved (err e, after, w') (same, files) = record {
      rising = i.rising;
      stored = Stored-moved w'.files files;
      live = subst (IsLive path ids) (sym same) i.live;
    }
    step-moved (ok u, after, w') (next, files) = record {
      rising = i.rising;
      stored =
          Stored-either path ids w i.stored state after w'.files i.live.same_path after_path
            (subst (IsAhead ids) (sym next) i.live.ahead) files;
      live = record {
        same_path = after_path;
        writable = subst IsWritable (sym next) (
            log_bridge.ClientState.Durable.moved_state-IsWritable (c.0) (c.1) (c.2) state w
              i.live.writable fits.offset_fits fits.device_fits fits.inode_fits);
        ahead = subst (IsAhead ids) (sym next) i.live.ahead;
      };
    }
      where
        after_path : after.path ≡ path
        after_path = ap (λ (s : ClientState). s.path) next ∙ i.live.same_path

Invariant-died :
    (path : Bytes) (ids : List ℕ) (object : Option ClientState) (files after : Files)
    → Invariant path ids object files
    → Stored path ids after
    → Invariant path ids none after
Invariant-died path ids object files after i s = record { rising = i.rising; stored = s; live = tt }

module _ (path : Bytes) (ids : List ℕ) (w : World) (a : Start path)
    (i : Invariant path ids none w.files) where
  abbrev found : ClientState
  found = i.stored.state

  abbrev StartEnds : Result ClientState × World → Type 0
  StartEnds q =
      All (UnchangedOrCorrected a.source a.recovered found w) q.1.history
      × ReopenEnds a.source a.recovered found w i.stored.is_saved a.line a.ids q

  starts-ends : StartEnds (starts a w)
  starts-ends =
      subst (λ p. StartEnds (open_state a.random p a.source a.recovered (fresh w)))
        i.stored.same_path
        (open_state-Reopens a.source a.recovered found w i.stored.is_saved a.line a.ids a.random
          (subst (λ p. 1 ≤ length p) (sym i.stored.same_path) a.named) a.sourced)

  step-started :
      (q : Result ClientState × World) (state : ClientState)
      → q.0 ≡ ok state
      → StartEnds q
      → Invariant path ids (some state) q.1.files
  step-started (err e, w') state h _ = absurd (no h)
    where
      no : err e ≡ ok state → ⊥
      no h = cc
  step-started (ok s, w') state h (_, (corrects, is_saved)) =
      subst (λ t. Invariant path ids (some t) w'.files) same
        (record {
          rising = i.rising;
          stored = record { state = s; same_path = here; is_saved = is_saved; ahead = ahead };
          live = record { same_path = here; writable = is_saved.writable; ahead = ahead };
        })
    where
      same : s ≡ state
      same = cc

      here : s.path ≡ path
      here = corrects.same_path ∙ i.stored.same_path

      ahead : IsAhead ids s
      ahead = All-raise ids found.next_id s.next_id corrects.no_lower i.stored.ahead

  step-not_started :
      (q : Result ClientState × World) (e : Exception)
      → q.0 ≡ err e
      → StartEnds q
      → Invariant path ids none q.1.files
  step-not_started (ok s, w') e h _ = absurd (no h)
    where
      no : ok s ≡ err e → ⊥
      no h = cc
  step-not_started (err x, w') e h (_, files) =
      Invariant-died path ids none w.files w'.files i
        (Stored-corrected path ids w i.stored a w'.files files)

Lives-Invariant :
    (path : Bytes) (ids : List ℕ) (object : Option ClientState) (files : Files)
    → Lives path ids object files
    → Invariant path ids object files
Lives-Invariant path _ _ _ (begun state files same at) = record {
  rising = tt;
  stored = record { state = state; same_path = same; is_saved = at; ahead = tt };
  live = record { same_path = same; writable = at.writable; ahead = tt };
}
Lives-Invariant path _ _ _ (allocated {ids} state w id l h) =
    let i = Lives-Invariant path ids (some state) w.files l in
    step-allocated path ids state w i (next_message_id state (fresh w)) id h
      (next_message_id-Allocates state w i.live.writable).1
Lives-Invariant path _ _ _ (refused {ids} state w e l h) =
    let i = Lives-Invariant path ids (some state) w.files l in
    step-refused path ids state w i (next_message_id state (fresh w)) e h
      (next_message_id-Allocates state w i.live.writable).1
Lives-Invariant path ids _ _ (died_allocating state w files l m) =
    let i = Lives-Invariant path ids (some state) w.files l in
    Invariant-died path ids (some state) w.files files i (
      Stored-next path ids state w i files (
        All-Moment (OldOrNext state w i.live.writable) files
          (next_message_id state (fresh w)).2.history m
          (next_message_id-Allocates state w i.live.writable).0))
Lives-Invariant path ids _ _ (moved state w c l fits) =
    let i = Lives-Invariant path ids (some state) w.files l in
    step-moved path ids state w i c fits (move c state w)
      (update_file_checkpoint-Moves (c.0) (c.1) (c.2) state w i.live.writable fits.offset_fits
        fits.device_fits fits.inode_fits).1
Lives-Invariant path ids _ _ (died_moving state w c files l fits m) =
    let i = Lives-Invariant path ids (some state) w.files l in
    Invariant-died path ids (some state) w.files files i (
      Stored-moved path ids state w i c fits files (
        All-Moment
          (OldOrMoved (c.0) (c.1) (c.2) state w i.live.writable fits.offset_fits fits.device_fits
            fits.inode_fits)
          files (move c state w).2.history m
          (update_file_checkpoint-Moves (c.0) (c.1) (c.2) state w i.live.writable fits.offset_fits
            fits.device_fits fits.inode_fits).0))
Lives-Invariant path ids _ _ (died state files l) =
    let i = Lives-Invariant path ids (some state) files l in
    Invariant-died path ids (some state) files files i i.stored
Lives-Invariant path ids _ _ (started a w state l h) =
    let i = Lives-Invariant path ids none w.files l in
    step-started path ids w a i (starts a w) state h (starts-ends path ids w a i)
Lives-Invariant path ids _ _ (not_started a w e l h) =
    let i = Lives-Invariant path ids none w.files l in
    step-not_started path ids w a i (starts a w) e h (starts-ends path ids w a i)
Lives-Invariant path ids _ _ (died_starting a w files l m) =
    let i = Lives-Invariant path ids none w.files l in
    Invariant-died path ids none w.files files i (
      Stored-corrected path ids w i.stored a files (
        All-Moment (UnchangedOrCorrected a.source a.recovered i.stored.state w) files
          (starts a w).1.history m (starts-ends path ids w a i).0))

-- Over any number of runs of the client on one state file, in which calls of nextMessageId and
-- updateFileCheckpoint return or throw, processes die at any moment of a call, and starts return,
-- throw or die, from an object whose file holds its text: each id that nextMessageId returns is
-- above all that it returned before. The first state has a client id, texts without a newline,
-- numbers of 64 bits and a next id that is not 0; checkpoints and recovered ids have 64 bits, and
-- the path and the sources are not empty and the sources without a newline.
pub Lives-Rising :
    (path : Bytes) (ids : List ℕ) (object : Option ClientState) (files : Files)
    → Lives path ids object files
    → Rising ids
Lives-Rising path ids object files l = (Lives-Invariant path ids object files l).rising
