-- ===== src/ClientState/Reopen.antt =====
-- The whole constructor: on a file that `persist` wrote, and on the first start.
use log_bridge.Base.{
  ℕ, zero, suc, ◌%◌, ◌<◌, ◌≤◌, ◌≡◌, refl, sym, ap, ◌∙◌, arith, true, false, ◌==◌, ◌⊎◌, List, [],
  ◌∷◌, length, All, some, none, Result, ok, err, inl, inr,
}
use mathlib.Core.Path.{subst}
use log_bridge.Message.{Bytes, LogMessage}
use log_bridge.Storage.World.{World, Files}
use log_bridge.Storage.Persistence.{read_file, content_of}
use log_bridge.WriteAheadLog.Crash.{All-map}
use log_bridge.WriteAheadLog.Restart.{Reads, read_file-Reads}
use log_bridge.ClientState.{
  ClientState, state_text, correct, correct_loaded, open_state, load_state, hex_digit, hex_digits,
  generate_client_id, first_client_id, new_state,
}
use log_bridge.ClientState.Load.{IsLine, IsWritable, load_state-state_text, is_empty-named}
use log_bridge.ClientState.Durable.{IsSaved}
use log_bridge.ClientState.Open.{Corrects}
use log_bridge.ClientState.Correct.{
  IsId, Unchanged, UnchangedOrCorrected, IsCorrect, CorrectEnds, correct-settles,
}

-- The constructor on a file that holds the text of a state.
module _ (source : Bytes) (recovered : List LogMessage) (before : ClientState) (w : World)
    (at : IsSaved before w.files) (line : IsLine source) (ids : All IsId recovered) where
  empty_history : World
  empty_history = record w { history = [] }

  module _ (w' : World) (same : w'.files ≡ w.files) where
    moved_back :
        (files : Files)
        → UnchangedOrCorrected source recovered before w' files
        → UnchangedOrCorrected source recovered before w files
    moved_back files (inl h) = inl (h ∙ ap (λ (f : Files). f before.path) same)
    moved_back files (inr c) =
        inr (record { state = c.state; corrects = c.corrects; is_saved = c.is_saved })

    IsCorrect-back :
        (state : ClientState) (files : Files)
        → IsCorrect source recovered before w' false state files
        → IsSaved state files
    IsCorrect-back state files c = disk c.on_disk
      where
        disk :
            IsSaved state files
              ⊎ ((false ≡ false) × (state ≡ before) × Unchanged source recovered before w' files)
            → IsSaved state files
        disk (inl h) = h
        disk (inr (_, e, h)) = record {
          stored =
              subst (λ (s : ClientState). files s.path ≡ some (state_text s)) (sym e)
                (h ∙ ap (λ (f : Files). f before.path) same ∙ at.stored);
          writable = subst IsWritable (sym e) at.writable;
        }

  abbrev pub ReopenEnds : Result ClientState × World → Type 0
  ReopenEnds (ok state, w') = Corrects source recovered before state × IsSaved state w'.files
  ReopenEnds (err e, w') = UnchangedOrCorrected source recovered before w w'.files

  correct-Reopens :
      (w' : World)
      → w'.files ≡ w.files
      → w'.history ≡ []
      → let q = correct false source recovered before w' in
        All (UnchangedOrCorrected source recovered before w) q.1.history × ReopenEnds q
  correct-Reopens w' same none_yet =
      let (history, ends) =
        correct-settles source recovered before w' none_yet false at.writable line ids in
      let q = correct false source recovered before w' in
      (All-map q.1.history (moved_back w' same) history, settle q ends)
    where
      settle :
          (q : Result ClientState × World)
          → CorrectEnds source recovered before w' false q
          → ReopenEnds q
      settle (ok state, w₂) c = (c.corrects, IsCorrect-back w' same state w₂.files c)
      settle (err e, w₂) h = moved_back w' same w₂.files h

  loaded-Reopens :
      (r : Result Bytes × World)
      → Reads before.path empty_history r
      → let q = correct_loaded before.path source recovered r in
        All (UnchangedOrCorrected source recovered before w) q.1.history × ReopenEnds q
  unfolding empty_history
  loaded-Reopens (err e, w') reads =
      (rw (reads.history) tt, inl (ap (λ (f : Files). f before.path) reads.files))
  loaded-Reopens (ok text, w') reads =
      rw
        (ap (load_state before.path) (reads.content text refl ∙ ap content_of at.stored)
          ∙ load_state-state_text before at.writable)
        (correct-Reopens w' reads.files reads.history)

  -- On a file that holds the text of a state with a client id, texts without a newline, numbers of
  -- 64 bits and a next id that is not 0, for a path and a source that are not empty, a source
  -- without a newline and recovered messages with ids of 64 bits: at every moment of the
  -- constructor the file is as it was or holds the text of a corrected state. If the constructor
  -- returns, the object is one and in the file. A corrected state has the client of the file, which
  -- is that of all recovered messages, the source, a next id that is not below that of the file and
  -- above all recovered ids, and the offset of the file for the same source and 0 for another.
  pub open_state-Reopens :
      (random : ℕ → ℕ)
      → 1 ≤ length before.path
      → 1 ≤ length source
      → let q = open_state random before.path source recovered (record w { history = [] }) in
        All (UnchangedOrCorrected source recovered before w) q.1.history × ReopenEnds q
  unfolding open_state empty_history
  open_state-Reopens random named sourced = rw (is_empty-named before.path named) (
      rw (is_empty-named source sourced) (
        rw (at.stored) (
          loaded-Reopens (read_file before.path empty_history)
            (read_file-Reads before.path empty_history))))

-- The first start: there is no file yet.
hex_digit-IsPlain : (n : ℕ) → n < 16 → (hex_digit n == 10) ≡ false
hex_digit-IsPlain n h = ground (arith, h)

hex_digits-IsLine : (n : ℕ) (random : ℕ → ℕ) → IsLine (hex_digits n random)
unfolding hex_digits
hex_digits-IsLine zero random = tt
hex_digits-IsLine (suc n) random =
    (hex_digit-IsPlain (random n % 16) (omega arith), hex_digits-IsLine n random)

length-hex_digits : (n : ℕ) (random : ℕ → ℕ) → length (hex_digits n random) ≡ n
unfolding hex_digits
length-hex_digits zero random = refl
length-hex_digits (suc n) random = ap suc (length-hex_digits n random)

-- A client id that the file can hold.
abbrev pub IsNamed : LogMessage → Type 0
IsNamed m = (1 ≤ length m.client_id) × IsLine m.client_id

module _ (path source : Bytes) (recovered : List LogMessage) (random : ℕ → ℕ) (w : World)
    (line : IsLine source) (ids : All IsId recovered) (names : All IsNamed recovered) where
  abbrev pub first_state : ClientState
  first_state = new_state path (first_client_id (generate_client_id random) recovered)

  first_state-named :
      (ms : List LogMessage)
      → All IsNamed ms
      → let c = first_client_id (generate_client_id random) ms in (1 ≤ length c) × IsLine c
  unfolding generate_client_id
  first_state-named [] h = (omega (arith, length-hex_digits 32 random), hex_digits-IsLine 32 random)
  first_state-named (m ∷ rest) h = h.0

  first_state-IsWritable : IsWritable first_state
  first_state-IsWritable =
      let (named, client_line) = first_state-named recovered names in
      record {
        named = named;
        client_line = client_line;
        source_line = tt;
        next_id_fits = omega arith;
        next_id_counts = omega arith;
        offset_fits = omega arith;
        device_fits = omega arith;
        inode_fits = omega arith;
      }

  abbrev pub StartEnds : Result ClientState × World → Type 0
  StartEnds (ok state, w') = Corrects source recovered first_state state × IsSaved state w'.files
  StartEnds (err e, w') = UnchangedOrCorrected source recovered first_state w w'.files

  start_settles :
      (q : Result ClientState × World)
      → CorrectEnds source recovered first_state (record w { history = [] }) true q
      → StartEnds q
  start_settles (ok state, w') c = (c.corrects, disk c.on_disk)
    where
      disk :
          IsSaved state w'.files
            ⊎ ((true ≡ false)
                × (state ≡ first_state)
                × Unchanged source recovered first_state (record w { history = [] }) w'.files)
          → IsSaved state w'.files
      disk (inl h) = h
      disk (inr (clash, _, _)) = absurd (no clash)
        where
          no : true ≡ false → ⊥
          no h = cc
  start_settles (err e, w') (inl h) = inl h
  start_settles (err e, w') (inr c) =
      inr (record { state = c.state; corrects = c.corrects; is_saved = c.is_saved })

  -- Without a file, for recovered messages with ids of 64 bits and client ids that a line can hold: at
  -- every moment of the constructor there is no file yet or it holds the text of a state; if the
  -- constructor returns, the object is in the file, with the client of the recovered messages, or a
  -- generated one, and a next id above all of them.
  pub open_state-Starts :
      1 ≤ length path
      → 1 ≤ length source
      → w.files path ≡ none
      → let q = open_state random path source recovered (record w { history = [] }) in
        All (UnchangedOrCorrected source recovered first_state w) q.1.history × StartEnds q
  unfolding open_state
  open_state-Starts named sourced missing = rw (is_empty-named path named) (
      rw (is_empty-named source sourced) (
        rw missing (
          let (history, ends) =
            correct-settles source recovered first_state (record w { history = [] }) refl true
              first_state-IsWritable line ids in
          let q = correct true source recovered first_state (record w { history = [] }) in
          (All-map q.1.history back history, start_settles q ends))))
    where
      back :
          (files : Files)
          → UnchangedOrCorrected source recovered first_state (record w { history = [] }) files
          → UnchangedOrCorrected source recovered first_state w files
      back files (inl h) = inl h
      back files (inr c) =
          inr (record { state = c.state; corrects = c.corrects; is_saved = c.is_saved })
