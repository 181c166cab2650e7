-- ===== src/Dedup/Durable.antt =====
-- The watermarks and their file together: `confirm` writes before it changes the object.
use log_bridge.Base.{
  ℕ, ◌≡◌, refl, sym, leb, ◌==◌, ◌||◌, Bool-cases, ◌⊎◌, [], All, none, some, Result, ok, err, inl,
  inr,
}
use mathlib.Core.Path.{subst}
use log_bridge.Message.{Bytes}
use log_bridge.Storage.World.{World, Files}
use log_bridge.Storage.Triples.{Ends}
use log_bridge.Storage.Atomic.{OldOrNew, New, write_atomically_lem}
use log_bridge.WriteAheadLog.Crash.{All-map}
use log_bridge.Dedup.Text.{text_of}
use log_bridge.Dedup.Store.{
  DedupStore, put, highest_confirmed, moved, persist, is_empty, confirm, Outcome,
}

-- The file holds the text of the watermarks; none is there before the first of them.
abbrev pub IsSaved : DedupStore → Files → Type 0
IsSaved store files =
    (files store.path ≡ some (text_of store.confirmed))
    ⊎ ((files store.path ≡ none) × (store.confirmed ≡ []))

module _ (client_id : Bytes) (n : ℕ) (store : DedupStore) (w : World)
    (saved : IsSaved store w.files) where
  abbrev pub newer : DedupStore
  newer = record store { confirmed = put client_id n store.confirmed }

  abbrev pub OldOrNewer : Files → Type 0
  OldOrNewer files = IsSaved store files ⊎ IsSaved newer files

  abbrev pub ConfirmEnds : Outcome → Type 0
  ConfirmEnds (ok _, store', w') = IsSaved store' w'.files
  ConfirmEnds (err e, store', w') = (store' ≡ store) × OldOrNewer w'.files

  saved_either :
      (files : Files)
      → OldOrNew w.files store.path (text_of newer.confirmed) files
      → OldOrNewer files
  saved_either files (inl old) = inl (
      subst (λ t. (t ≡ some (text_of store.confirmed)) ⊎ ((t ≡ none) × (store.confirmed ≡ [])))
        (sym old.target) saved)
  saved_either files (inr new) = inr (inl new.target)

  moved_settles :
      (r : Result (Unit {0}) × World)
      → All (OldOrNew w.files store.path (text_of newer.confirmed)) r.1.history
        × Ends r
            (New w.files store.path (text_of newer.confirmed))
            (OldOrNew w.files store.path (text_of newer.confirmed))
      → All OldOrNewer (moved n newer.confirmed store r).2.history
        × ConfirmEnds (moved n newer.confirmed store r)
  moved_settles (ok _, w') (history, h) = (All-map w'.history saved_either history, inl h.target)
  moved_settles (err e, w') (history, h) =
      (All-map w'.history saved_either history, (refl, saved_either w'.files h))

  -- From watermarks whose file holds their text: at every moment of DedupStore::confirm the file
  -- holds the text of the old watermarks or of the new ones. If it returns, the file holds the text
  -- of the watermarks of the object; if it throws, the object is unchanged.
  pub confirm-IsSaved :
      let q = confirm client_id n store (record w { history = [] }) in
      All OldOrNewer q.2.history × ConfirmEnds q
  unfolding confirm persist
  confirm-IsSaved = elim (Bool-cases (is_empty client_id || n == 0)) [
    | inl nothing ↦ rw nothing (tt, (refl, inl saved))
    | inr something ↦ elim (Bool-cases (leb n (highest_confirmed client_id store))) [
      | inl old ↦ rw something (rw old (tt, saved))
      | inr new ↦ rw something (
          rw new (
            moved_settles (persist store.path newer.confirmed (record w { history = [] }))
              (write_atomically_lem w store.path (text_of newer.confirmed))))
    ]
  ]
