-- ===== src/ClientState/Durable.antt =====
-- The state and its file together: a process may die, or a call fail, at any moment of a method.
use log_bridge.Base.{
  ℕ, ◌+◌, ◌^◌, ◌<◌, ◌≡◌, refl, arith, true, false, ◌==◌, ◌&&◌, Bool-cases, ◌⊎◌, [], All, some,
  Result, ok, err, inl, inr,
}
use mathlib.Core.Path.{subst}
use log_bridge.Storage.World.{World, Files}
use log_bridge.Storage.Triples.{Ends}
use log_bridge.Storage.Atomic.{OldOrNew, New, write_atomically_lem}
use log_bridge.WriteAheadLog.Crash.{All-map}
use log_bridge.ClientState.{
  ClientState, Outcome, state_text, persist, saved, greatest_id, next_message_id,
  update_file_checkpoint,
}
use log_bridge.ClientState.Load.{IsWritable}

-- The file holds the text of the state.
pub record IsSaved (state : ClientState) (files : Files) : Type 0 where
  pub stored : files state.path ≡ some (state_text state)
  pub writable : IsWritable state

-- The file of the state is what it was in the world before.
abbrev pub IsUnchanged : ClientState → World → Files → Type 0
IsUnchanged state w files = files state.path ≡ w.files state.path

-- A change that leaves the path and is written before it counts.
module _ {A : Type 0} (value : A) (changed previous : ClientState) (w : World)
    (same_path : changed.path ≡ previous.path) (writable : IsWritable changed) where
  abbrev pub OldOrChanged : Files → Type 0
  OldOrChanged files = IsUnchanged previous w files ⊎ IsSaved changed files

  abbrev pub SavedEnds : Outcome A → Type 0
  SavedEnds (ok a, state, w') = (a ≡ value) × (state ≡ changed) × IsSaved state w'.files
  SavedEnds (err e, state, w') = (state ≡ previous) × OldOrChanged w'.files

  saved_new :
      (files : Files) → files changed.path ≡ some (state_text changed) → IsSaved changed files
  saved_new files h = record { stored = h; writable = writable }

  saved_either :
      (files : Files)
      → OldOrNew w.files changed.path (state_text changed) files
      → OldOrChanged files
  saved_either files (inl old) = inl (subst (λ p. files p ≡ w.files p) same_path old.target)
  saved_either files (inr new) = inr (saved_new files new.target)

  saved_settles :
      (r : Result (Unit {0}) × World)
      → All (OldOrNew w.files changed.path (state_text changed)) r.1.history
        × Ends r
            (New w.files changed.path (state_text changed))
            (OldOrNew w.files changed.path (state_text changed))
      → All OldOrChanged (saved value changed previous r).2.history
        × SavedEnds (saved value changed previous r)
  saved_settles (ok _, w') (history, h) =
      (All-map w'.history saved_either history, (refl, refl, saved_new w'.files h.target))
  saved_settles (err e, w') (history, h) =
      (All-map w'.history saved_either history, (refl, saved_either w'.files h))

  pub persist_settles :
      let q = saved value changed previous (persist changed (record w { history = [] })) in
      All OldOrChanged q.2.history × SavedEnds q
  unfolding persist
  persist_settles =
      saved_settles (persist changed (record w { history = [] }))
        (write_atomically_lem w changed.path (state_text changed))

module _ (state : ClientState) (w : World) (writable : IsWritable state) where
  abbrev pub next_state : ClientState
  next_state = record state { next_id = state.next_id + 1 }

  abbrev pub Allocates : Outcome ℕ → Type 0
  Allocates (ok id, after, w') =
      (id ≡ state.next_id) × (after ≡ next_state) × IsSaved after w'.files
  Allocates (err e, after, w') =
      (after ≡ state) × (IsUnchanged state w w'.files ⊎ IsSaved next_state w'.files)

  abbrev pub OldOrNext : Files → Type 0
  OldOrNext files = IsUnchanged state w files ⊎ IsSaved next_state files

  next_state-IsWritable : (state.next_id == greatest_id) ≡ false → IsWritable next_state
  next_state-IsWritable h = record {
    named = writable.named;
    client_line = writable.client_line;
    source_line = writable.source_line;
    next_id_fits = ground (arith, writable.next_id_fits);
    next_id_counts = omega arith;
    offset_fits = writable.offset_fits;
    device_fits = writable.device_fits;
    inode_fits = writable.inode_fits;
  }

  Allocates-saved :
      (r : Result (Unit {0}) × World) (fits : IsWritable next_state)
      → SavedEnds state.next_id next_state state w refl fits
          (saved state.next_id next_state state r)
      → Allocates (saved state.next_id next_state state r)
  Allocates-saved (ok _, w') fits h = h
  Allocates-saved (err e, w') fits h = h

  -- For a state with a client id, texts without a newline, numbers of 64 bits and a next id that is
  -- not 0: at every moment of nextMessageId the file is as it was or holds the text of the state
  -- with the following id. If it returns, it returns the next id, and the object is that state and
  -- in the file; if it throws, the object is unchanged.
  pub next_message_id-Allocates :
      let q = next_message_id state (record w { history = [] }) in
      All OldOrNext q.2.history × Allocates q
  unfolding next_message_id
  next_message_id-Allocates = elim (Bool-cases (state.next_id == greatest_id)) [
    | inl full ↦ rw full (tt, (refl, inl refl))
    | inr room ↦ rw room (
        let fits = next_state-IsWritable room in
        let (history, ends) = persist_settles state.next_id next_state state w refl fits in
        (history, Allocates-saved (persist next_state (record w { history = [] })) fits ends))
  ]

module _ (offset device_id inode : ℕ) (state : ClientState) (w : World)
    (writable : IsWritable state) (offset_fits : offset < 2 ^ 64) (device_fits : device_id < 2 ^ 64)
    (inode_fits : inode < 2 ^ 64) where
  abbrev pub moved_state : ClientState
  moved_state = record state {
    file_offset = offset;
    file_device_id = device_id;
    file_inode = inode;
  }

  pub moved_state-IsWritable : IsWritable moved_state
  moved_state-IsWritable = record {
    named = writable.named;
    client_line = writable.client_line;
    source_line = writable.source_line;
    next_id_fits = writable.next_id_fits;
    next_id_counts = writable.next_id_counts;
    offset_fits = offset_fits;
    device_fits = device_fits;
    inode_fits = inode_fits;
  }

  unmoved :
      (offset == state.file_offset
          && (device_id == state.file_device_id && inode == state.file_inode))
        ≡ true
      → state ≡ moved_state
  unmoved h = cc (same_offset, same_device, same_inode)
    where
      same_offset : offset ≡ state.file_offset
      same_offset = ground arith

      same_device : device_id ≡ state.file_device_id
      same_device = ground arith

      same_inode : inode ≡ state.file_inode
      same_inode = ground arith

  abbrev pub OldOrMoved : Files → Type 0
  OldOrMoved files = IsUnchanged state w files ⊎ IsSaved moved_state files

  abbrev pub Moves : Outcome (Unit {0}) → Type 0
  Moves (ok _, after, w') =
      (after ≡ moved_state) × (IsUnchanged state w w'.files ⊎ IsSaved after w'.files)
  Moves (err e, after, w') = (after ≡ state) × OldOrMoved w'.files

  Moves-saved :
      (r : Result (Unit {0}) × World)
      → SavedEnds tt moved_state state w refl moved_state-IsWritable (saved tt moved_state state r)
      → Moves (saved tt moved_state state r)
  Moves-saved (ok _, w') h = (h.1, inr h.2)
  Moves-saved (err e, w') h = h

  -- For such a state and a checkpoint of 64-bit numbers: at every moment of updateFileCheckpoint the
  -- file is as it was or holds the text of the state with the new checkpoint. If it returns, the
  -- object has the new checkpoint, and so has the file unless nothing was to change; if it throws,
  -- the object is unchanged.
  pub update_file_checkpoint-Moves :
      let q = update_file_checkpoint offset device_id inode state (record w { history = [] }) in
      All OldOrMoved q.2.history × Moves q
  unfolding update_file_checkpoint
  update_file_checkpoint-Moves =
      elim (Bool-cases (
        offset == state.file_offset
        && (device_id == state.file_device_id && inode == state.file_inode))) [
          | inl same ↦ rw same (tt, (unmoved same, inl refl))
          | inr differ ↦ rw differ (
              let (history, ends) =
                persist_settles tt moved_state state w refl moved_state-IsWritable in
              (history, Moves-saved (persist moved_state (record w { history = [] })) ends))
        ]
