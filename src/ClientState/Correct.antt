-- ===== src/ClientState/Correct.antt =====
-- The constructor behind `load`.
use log_bridge.Base.{
  ℕ, ◌^◌, ◌<◌, ◌≤◌, ◌≡◌, refl, sym, ap, ◌∙◌, arith, Bool, true, false, not, ◌==◌, ◌||◌, bytes_eq,
  bytes_eq→eq, Bool-cases, Result-cases, ◌⊎◌, List, [], ◌∷◌, length, All, some, none, Option,
  Result, ok, err, inl, inr, file_unreadable,
}
use mathlib.Core.Path.{subst}
use log_bridge.Message.{Bytes, LogMessage}
use log_bridge.Storage.World.{World, Files}
use log_bridge.Storage.Triples.{Ends}
use log_bridge.Storage.Atomic.{OldOrNew, New, Triple-write_atomically}
use log_bridge.WriteAheadLog.Crash.{All-map}
use log_bridge.ClientState.{
  ClientState, state_text, persist, greatest_id, maximum_recovered_id, for_source, above_recovered,
  persisted, persist_if, corrected, correct,
}
use log_bridge.ClientState.Load.{IsLine, IsWritable}
use log_bridge.ClientState.Durable.{IsSaved}
use log_bridge.ClientState.Open.{
  Corrects, Maximum, maximum_recovered_id-Maximum, for_source-Sourced, above_recovered-Corrects,
}

abbrev pub IsId : LogMessage → Type 0
IsId m = m.id < 2 ^ 64

or-false : (a b : Bool) → (a || b) ≡ false → (a ≡ false) × (b ≡ false)
or-false true b h = cc
or-false false b h = (refl, h)

not-false : (a : Bool) → not a ≡ false → a ≡ true
not-false true h = refl
not-false false h = cc

module _ (source : Bytes) (recovered : List LogMessage) (loaded : ClientState) (w : World) where
  -- The file is as before, or holds the corrected state.
  abbrev pub Unchanged : Files → Type 0
  Unchanged files = files loaded.path ≡ w.files loaded.path

  pub record Corrected (files : Files) : Type 0 where
    pub state : ClientState
    pub corrects : Corrects source recovered loaded state
    pub is_saved : IsSaved state files

  abbrev pub UnchangedOrCorrected : Files → Type 0
  UnchangedOrCorrected files = Unchanged files ⊎ Corrected files

  -- The object, in the file too unless there was nothing to correct.
  pub record IsCorrect (changed : Bool) (state : ClientState) (files : Files) : Type 0 where
    pub corrects : Corrects source recovered loaded state
    pub on_disk : IsSaved state files ⊎ ((changed ≡ false) × (state ≡ loaded) × Unchanged files)

  abbrev pub CorrectEnds : Bool → Result ClientState × World → Type 0
  CorrectEnds changed (ok state, w') = IsCorrect changed state w'.files
  CorrectEnds changed (err e, w') = UnchangedOrCorrected w'.files

  module _ (none_yet : w.history ≡ []) (changed : Bool) (final : ClientState)
      (corrects : Corrects source recovered loaded final) where
    either :
        (files : Files)
        → OldOrNew w.files final.path (state_text final) files
        → UnchangedOrCorrected files
    either files (inl old) = inl (subst (λ p. files p ≡ w.files p) (corrects.same_path) old.target)
    either files (inr new) = inr (record {
      state = final;
      corrects = corrects;
      is_saved = record { stored = new.target; writable = corrects.writable };
    })

    persisted_settles :
        (r : Result (Unit {0}) × World)
        → All (OldOrNew w.files final.path (state_text final)) r.1.history
          × Ends r
              (New w.files final.path (state_text final))
              (OldOrNew w.files final.path (state_text final))
        → All UnchangedOrCorrected (persisted final r).1.history
          × CorrectEnds changed (persisted final r)
    persisted_settles (ok _, w') (history, h) = (
      All-map w'.history either history,
      record {
        corrects = corrects;
        on_disk = inl (record { stored = h.target; writable = corrects.writable });
      },
    )
    persisted_settles (err e, w') (history, h) =
        (All-map w'.history either history, either w'.files h)

    persist_if-true :
        All UnchangedOrCorrected (persist_if true final w).1.history
        × CorrectEnds changed (persist_if true final w)
    unfolding persist
    persist_if-true = persisted_settles (persist final w) (
        (Triple-write_atomically w.files final.path (state_text final)).at w
          (record { target = refl; elsewhere = λ q _ _. refl }) (rw none_yet tt))

    persist_if-false :
        (changed ≡ false) × (final ≡ loaded)
        → All UnchangedOrCorrected (persist_if false final w).1.history
          × CorrectEnds changed (persist_if false final w)
    persist_if-false (same, h) =
        (rw none_yet tt, record { corrects = corrects; on_disk = inr (same, h, refl) })

    persist_if-settles :
        (b : Bool)
        → (b ≡ false → (changed ≡ false) × (final ≡ loaded))
        → All UnchangedOrCorrected (persist_if b final w).1.history
          × CorrectEnds changed (persist_if b final w)
    persist_if-settles true h = persist_if-true
    persist_if-settles false h = persist_if-false (h refl)

  module _ (none_yet : w.history ≡ []) (changed : Bool) (fits : IsWritable loaded)
      (line : IsLine source) (ids : All IsId recovered) where
    above_recovered-unchanged :
        (maximum : ℕ) (state : ClientState)
        → (above_recovered maximum state).0 ≡ false
        → (above_recovered maximum state).1 ≡ state
    unfolding above_recovered
    above_recovered-unchanged maximum state =
        elim (Bool-cases (log_bridge.Base.leb state.next_id maximum)) [
          | inl low ↦ rw low (λ h. cc)
          | inr high ↦ rw high (λ h. refl)
        ]

    for_source-same : bytes_eq loaded.source_path source ≡ true → for_source source loaded ≡ loaded
    unfolding for_source
    for_source-same h = rw h refl

    nothing_changed :
        (maximum : ℕ)
        → let r = above_recovered maximum (for_source source loaded) in
          ((changed || not (bytes_eq loaded.source_path source)) || r.0) ≡ false
          → (changed ≡ false) × (r.1 ≡ loaded)
    nothing_changed maximum h =
        let r = above_recovered maximum (for_source source loaded) in
        let (front, raised) =
          or-false (changed || not (bytes_eq loaded.source_path source)) (r.0) h in
        let (same, unsourced) = or-false changed (not (bytes_eq loaded.source_path source)) front in
        (
          same,
          above_recovered-unchanged maximum (for_source source loaded) raised
              ∙ for_source-same (not-false (bytes_eq loaded.source_path source) unsourced),
        )

    corrected-settles :
        (r : Result ℕ)
        → ((m : ℕ) → r ≡ ok m → Maximum loaded.client_id 0 recovered m)
        → let q =
            corrected
              (changed || not (bytes_eq loaded.source_path source))
              (for_source source loaded)
              r
              w in
          All UnchangedOrCorrected q.1.history × CorrectEnds changed q
    corrected-settles (err e) h = (rw none_yet tt, inl refl)
    corrected-settles (ok maximum) h = elim (Bool-cases (maximum == greatest_id)) [
      | inl full ↦ rw full (rw none_yet tt, inl refl)
      | inr room ↦ rw room (
          let m = h maximum refl in
          let r = above_recovered maximum (for_source source loaded) in
          persist_if-settles none_yet changed (r.1)
            (above_recovered-Corrects source recovered loaded fits line maximum m
              (m.fits (omega arith) ids) room)
            ((changed || not (bytes_eq loaded.source_path source)) || r.0)
            (nothing_changed maximum))
    ]

    pub correct-settles :
        let q = correct changed source recovered loaded w in
        All UnchangedOrCorrected q.1.history × CorrectEnds changed q
    unfolding correct
    correct-settles =
        let s = for_source-Sourced source recovered loaded fits line in
        corrected-settles (maximum_recovered_id (for_source source loaded).client_id 0 recovered)
          (λ m h.
            maximum_recovered_id-Maximum loaded.client_id 0 recovered {maximum = m}
              (subst (λ c. maximum_recovered_id c 0 recovered ≡ ok m) (s.same_client) h))
