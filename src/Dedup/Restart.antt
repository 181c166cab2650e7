-- ===== src/Dedup/Restart.antt =====
-- The constructor on the file that `confirm` leaves.
use log_bridge.Base.{
  ℕ, ◌≡◌, refl, sym, ap, ◌∙◌, [], ◌∷◌, All, Option, none, some, Result, ok, err, inl, inr,
  file_unreadable,
}
use log_bridge.Message.{Bytes}
use log_bridge.Storage.World as World
use log_bridge.Storage.World.{World, Outcome, done, short, fail}
use log_bridge.Storage.Persistence.{
  read_file, read_content, read_existing, stream_call, judge_stream, content_of,
}
use log_bridge.WriteAheadLog.Restart.{read_file-Reads}
use log_bridge.Dedup.Text.{Entries, text_of}
use log_bridge.Dedup.Store.{DedupStore}
use log_bridge.Dedup.Load.{load_text, loaded_store, load_existing, open_store}
use log_bridge.Dedup.Durable.{IsSaved}
use log_bridge.Dedup.RoundTrip.{IsEntry, IsMap, load_text-text_of}

-- `readFile` throws where a call of its stream fails.
abbrev pub ReadsOrFails : Result Bytes → Type 0
ReadsOrFails (ok bytes) = Unit {0}
ReadsOrFails (err e) = e ≡ file_unreadable

module _ (k : World.Io Bytes) (later_reads : (w : World) → ReadsOrFails (k w).0) where
  judged : (o : Outcome) (w : World) → ReadsOrFails (World.continue (judge_stream o, w) (λ _. k)).0
  judged done w = later_reads w
  judged (short n) w = later_reads w
  judged (fail e) w = refl

  stream_call-ReadsOrFails : (w : World) → ReadsOrFails (World.◌>>=◌ stream_call (λ _. k) w).0
  unfolding stream_call World.◌>>=◌
  stream_call-ReadsOrFails w =
      judged (World.answer w.schedule) (record w { schedule = World.later w.schedule })

read_existing-ReadsOrFails : (bytes : Bytes) (w : World) → ReadsOrFails (read_existing bytes w).0
unfolding read_existing World.return
read_existing-ReadsOrFails [] =
    stream_call-ReadsOrFails _ (stream_call-ReadsOrFails (World.return []) (λ w. tt))
read_existing-ReadsOrFails (b ∷ rest) =
    stream_call-ReadsOrFails _
      (stream_call-ReadsOrFails _ (stream_call-ReadsOrFails (World.return (b ∷ rest)) (λ w. tt)))

read_content-ReadsOrFails :
    (found : Option Bytes) (w : World) → ReadsOrFails (read_content found w).0
unfolding World.return
read_content-ReadsOrFails none w = tt
read_content-ReadsOrFails (some bytes) w = read_existing-ReadsOrFails bytes w

read_file-ReadsOrFails : (path : Bytes) (w : World) → ReadsOrFails (read_file path w).0
unfolding read_file
read_file-ReadsOrFails path w = read_content-ReadsOrFails (w.files path) w

module _ (path : Bytes) (entries : Entries) (all_entries : All IsEntry entries)
    (ordered : IsMap entries) where
  abbrev pub saved_store : DedupStore
  saved_store = record { path = path; confirmed = entries }

  -- The store that was saved, or the error of a read.
  abbrev pub Reopens : Result DedupStore → Type 0
  Reopens (ok store) = store ≡ saved_store
  Reopens (err e) = e ≡ file_unreadable

  loaded-Reopens :
      (r : Result Bytes) (w : World)
      → ReadsOrFails r
      → ((bytes : Bytes) → r ≡ ok bytes → bytes ≡ text_of entries)
      → Reopens (loaded_store path (r, w)).0
  loaded-Reopens (err e) w h content = h
  loaded-Reopens (ok text) w h content =
      rw (ap load_text (content text refl) ∙ load_text-text_of entries all_entries ordered) refl

  existing-Reopens :
      (found : Option Bytes) (w : World)
      → w.files path ≡ found
      → IsSaved saved_store w.files
      → Reopens (load_existing path found w).0
  existing-Reopens none w e (inl h) = absurd (nothing (sym e ∙ h))
    where
      nothing : {text : Bytes} → none ≡ some text → ⊥
      nothing h = cc
  existing-Reopens none w e (inr h) = ap (λ t. record { path = path; confirmed = t }) (sym h.1)
  existing-Reopens (some text) w e (inr h) = absurd (nothing (sym e ∙ h.0))
    where
      nothing : {text : Bytes} → some text ≡ none → ⊥
      nothing h = cc
  existing-Reopens (some text) w e (inl h) =
      loaded-Reopens (read_file path w).0 (read_file path w).1 (read_file-ReadsOrFails path w)
        (λ bytes k. (read_file-Reads path w).content bytes k ∙ ap content_of h)

-- If the file holds the text of watermarks, or none is there and there are no watermarks, the
-- clients have ids without blanks, the watermarks are message ids and the entries stand in the
-- order of the map: the constructor of DedupStore returns the store with these watermarks, or
-- throws the error of reading the file.
pub open_store-Reopens :
    (c : ℕ) (path : Bytes) (entries : Entries) (w : World) (all_entries : All IsEntry entries)
    (ordered : IsMap entries)
    → IsSaved (saved_store (c ∷ path) entries all_entries ordered) w.files
    → Reopens (c ∷ path) entries all_entries ordered (open_store (c ∷ path) w).0
unfolding open_store
open_store-Reopens c path entries w all_entries ordered saved =
    existing-Reopens (c ∷ path) entries all_entries ordered (w.files (c ∷ path)) w refl saved
