-- ===== src/Storage/Append.antt =====
-- `appendDurably`: at every moment the file is the old one with a part of the data behind it.
use log_bridge.Base.{◌≡◌, refl, sym, ap, ◌∙◌, [], ◌++◌, append-nil, ◌⊎◌, inl, inr, some, All}
use log_bridge.Message.{Bytes}
use log_bridge.Storage.World.{Files, World, call, modify, on_error}
use log_bridge.Storage.Persistence.{
  content_of, append_to, write_all, close_ignored, sync_and_close, sync_parent_directory,
  ensure_parent_directory, open_append, append_durably,
}
use log_bridge.Storage.Triples.{
  Ends, Triple, Triple-modify, Triple-bind, Triple-on_error, Triple-weaken, Triple-call,
  Triple-close_ignored, Triple-sync_and_close, Triple-sync_parent_directory,
  Triple-ensure_parent_directory,
}
use log_bridge.Storage.Writing.{Holds, Partial, Triple-write_all, update_self, update_other}

module _ (before : Files) (path bytes : Bytes) where
  abbrev base : Bytes
  base = content_of (before path)

  abbrev pub Same : Files → Type 0
  Same files = (q : Bytes) → files q ≡ before q

  -- Not opened yet, or a prefix of `bytes` is behind the old content.
  abbrev pub SameOrPartial : Files → Type 0
  SameOrPartial files = Same files ⊎ Partial before path base bytes files

  abbrev pub Appended : Files → Type 0
  Appended = Holds before path (base ++ bytes)

  Holds-open : (files : Files) → Same files → Holds before path base (append_to path [] files)
  Holds-open files s = record {
    here =
        update_self files path (some (content_of (files path) ++ []))
        ∙ ap (λ c. some (content_of c ++ [])) (s path)
        ∙ ap some (append-nil base);
    others = λ q ne. update_other files path q _ ne ∙ s q;
  }

  Partial-Holds :
      (files : Files) → Holds before path base files → Partial before path base bytes files
  Partial-Holds files h = record { front = []; back = bytes; split = refl; holds = rw append-nil h }

  Partial-Appended : (files : Files) → Appended files → Partial before path base bytes files
  Partial-Appended files h = record {
    front = bytes;
    back = [];
    split = sym (append-nil bytes);
    holds = h;
  }

  Triple-open_append :
      Triple SameOrPartial Same (open_append path) (Holds before path base) SameOrPartial
  unfolding open_append
  Triple-open_append =
      Triple-bind call (modify (append_to path []))
        (Triple-weaken call (λ f q. q) (λ f q. q) (λ f q. inl q) Triple-call)
        (Triple-modify _ (λ f s. let h = Holds-open f s in (inr (Partial-Holds _ h), h)))

  write_data :
      Triple SameOrPartial
        (Holds before path base)
        (on_error (write_all path bytes) close_ignored)
        Appended
        SameOrPartial
  write_data =
      Triple-on_error (write_all path bytes) close_ignored
        (Triple-write_all before path base bytes SameOrPartial (λ f p. inr p))
        (Triple-weaken close_ignored (λ f q. inr q) (λ f q. q) (λ f q. q) Triple-close_ignored)

  settled : (files : Files) → Appended files → SameOrPartial files
  settled f h = inr (Partial-Appended f h)

  pub Triple-append_durably :
      Triple SameOrPartial Same (append_durably path bytes) Appended SameOrPartial
  unfolding append_durably
  Triple-append_durably =
      Triple-bind (ensure_parent_directory path) _
        (Triple-weaken (ensure_parent_directory path) (λ f q. q) (λ f q. q) (λ f q. inl q)
          (Triple-ensure_parent_directory path))
        (Triple-bind (open_append path) _ Triple-open_append (
          Triple-bind (on_error (write_all path bytes) close_ignored) _ write_data (
            Triple-bind sync_and_close _
              (Triple-weaken sync_and_close (λ f q. q) (λ f q. q) settled Triple-sync_and_close)
              (Triple-weaken (sync_parent_directory path) (λ f q. q) (λ f q. q) settled
                (Triple-sync_parent_directory path)))))

-- From any files and with any answers of the system calls: at each moment of appendDurably the file
-- holds what it held and a prefix of the data, a return means all of it, and no other file is
-- touched.
pub append_durably_lem :
    (w : World) (path bytes : Bytes)
    → let r = append_durably path bytes (record w { history = [] }) in
      All (SameOrPartial w.files path bytes) r.1.history
      × Ends r (Appended w.files path bytes) (SameOrPartial w.files path bytes)
append_durably_lem w path bytes =
    (Triple-append_durably w.files path bytes).at (record w { history = [] }) (λ q. refl) tt
