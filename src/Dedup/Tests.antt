-- ===== src/Dedup/Tests.antt =====
-- Watermarks on a small file, and the theorems on them.
use log_bridge.Base.{
  ◌≡◌, refl, [], ◌∷◌, bytes_eq, if◌then◌else◌, some, none, inl, All, ok, err, system,
  unparsed_dedup, invalid_dedup_file, arith,
}
use log_bridge.Storage.World.{World, done, short, fail, call, modify, return, ◌>>=◌, on_error}
use log_bridge.Storage.Persistence.{
  write_atomically, write_all, write_loop, close_ignored, sync_and_close, sync_parent_directory,
  remove_ignored, rename, open_truncate, ensure_parent_directory,
}
use log_bridge.Dedup.Text.{text_of, entry_lines, decimal, digits}
use log_bridge.Dedup.Store.{DedupStore, find, put, bytes_lt, highest_confirmed, persist, confirm}
use log_bridge.Dedup.Load.{
  skip_spaces, take_word, take_digits, take_unsigned, take_number, load_round, load_entries,
  take_line, load_text, open_store,
}
use log_bridge.Dedup.RoundTrip.{IsEntry, IsMap}
use log_bridge.Protocol.Errors.{Answers}
use log_bridge.Dedup.Errors.{IsDedupError, load_text-Answers}
use log_bridge.Dedup.Restart.{Reopens, open_store-Reopens}
use log_bridge.Dedup.Lookup.{Advances, confirm-Advances}
use log_bridge.Dedup.Durable.{IsSaved, OldOrNewer, ConfirmEnds, confirm-IsSaved}

abbrev store : DedupStore
store = record { path = b'd' ∷ []; confirmed = (b'a' ∷ [], 3) ∷ (b'c' ∷ [], 12) ∷ [] }

-- All that `confirm` calls.
saving : Unit {0}
unfolding confirm persist find put bytes_lt highest_confirmed text_of entry_lines decimal digits
    bytes_eq write_atomically write_all write_loop close_ignored sync_and_close
    sync_parent_directory remove_ignored rename open_truncate ensure_parent_directory call modify
    return ◌>>=◌ on_error
saving = tt

text :
    text_of store.confirmed
    ≡ b'L' ∷ b'G' ∷ b'B' ∷ b'D' ∷ b'E' ∷ b'D' ∷ b'U' ∷ b'P' ∷ b'1' ∷ 10 ∷ b'a' ∷ 32 ∷ b'3' ∷ 10
      ∷ b'c' ∷ 32 ∷ b'1' ∷ b'2' ∷ 10 ∷ []
unfolding saving
text = refl

-- A disk that takes five bytes of a write and is then interrupted.
abbrev world : World
world = record {
  files = λ q. if bytes_eq store.path q then some (text_of store.confirmed) else none;
  history = [];
  schedule = done ∷ done ∷ short 5 ∷ fail 4 ∷ [];
}

risen : (confirm (b'b' ∷ []) 7 store world).0 ≡ ok 7
unfolding saving
risen = refl

stays : (confirm (b'c' ∷ []) 7 store world).0 ≡ ok 12
unfolding saving
stays = refl

disk_full :
    (confirm (b'c' ∷ []) 13 store (record world { schedule = done ∷ done ∷ fail 28 ∷ [] })).0
    ≡ err (system 28)
unfolding saving
disk_full = refl

confirm-Advances_example : Advances (b'b' ∷ []) 7 store 7 (confirm (b'b' ∷ []) 7 store world).1
confirm-Advances_example = confirm-Advances (b'b' ∷ []) 7 store world risen

store-IsSaved : IsSaved store world.files
unfolding bytes_eq
store-IsSaved = inl refl

confirm-IsSaved_example :
    let q = confirm (b'b' ∷ []) 7 store (record world { history = [] }) in
    All (OldOrNewer (b'b' ∷ []) 7 store world store-IsSaved) q.2.history
    × ConfirmEnds (b'b' ∷ []) 7 store world store-IsSaved q
confirm-IsSaved_example = confirm-IsSaved (b'b' ∷ []) 7 store world store-IsSaved

-- All that `load` calls.
loading : Unit {0}
unfolding saving skip_spaces take_word take_digits take_unsigned take_number load_round load_entries
    take_line load_text
loading = tt

-- A client id with a blank is written, and then the file is refused; so is an empty file.
refused :
    (load_text (text_of ((b'a' ∷ 32 ∷ b'b' ∷ [], 5) ∷ [])) ≡ err unparsed_dedup)
    × (load_text [] ≡ err invalid_dedup_file)
unfolding loading
refused = (refl, refl)

store-IsEntry : All IsEntry store.confirmed
store-IsEntry = (
  record {
    name = record { named = omega arith; solid = (refl, tt) };
    confirmed = omega arith;
    small = omega arith;
  },
  (
    record {
      name = record { named = omega arith; solid = (refl, tt) };
      confirmed = omega arith;
      small = omega arith;
    },
    tt,
  ),
)

store-IsMap : IsMap store.confirmed
unfolding bytes_eq bytes_lt
store-IsMap = (((refl, refl), tt), (tt, tt))

open_store-Reopens_example :
    Reopens store.path store.confirmed store-IsEntry store-IsMap (open_store store.path world).0
open_store-Reopens_example =
    open_store-Reopens b'd' [] store.confirmed world store-IsEntry store-IsMap store-IsSaved

load_text-Answers_example : Answers IsDedupError (load_text (b'L' ∷ 10 ∷ b'a' ∷ []))
load_text-Answers_example = load_text-Answers (b'L' ∷ 10 ∷ b'a' ∷ [])
