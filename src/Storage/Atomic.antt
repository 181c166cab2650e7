-- ===== src/Storage/Atomic.antt =====
-- `writeAtomically`: at every moment the target is the old file or the whole new one.
use log_bridge.Base.{
  ◌≡◌, refl, ap, ◌∙◌, arith, [], ◌∷◌, ◌++◌, ◌⊎◌, inl, inr, some, none, Option, All, bytes_eq,
  bytes_eq→eq, true, false, Bool-cases, length, length-append,
}
use mathlib.Core.Path.{subst}
use log_bridge.Message.{Bytes}
use log_bridge.Storage.World.{
  Files, Outcome, done, short, fail, World, Io, update, answer, later, ◌>>◌, call, modify, on_error,
}
use log_bridge.Storage.Persistence.{
  write_all, close_ignored, removal, remove_ignored, rename, sync_and_close, sync_parent_directory,
  ensure_parent_directory, open_truncate, temporary_of, write_atomically,
}
use log_bridge.Storage.Triples.{
  Ends, Triple, Triple-modify, Triple-bind, Triple-on_error, Triple-weaken, Triple-call,
  Triple-close_ignored, Triple-sync_and_close, Triple-sync_parent_directory,
  Triple-ensure_parent_directory,
}
use log_bridge.Storage.Writing.{Holds, Partial, Triple-write_all, update_self, update_other}

temporary-ne : (path : Bytes) → bytes_eq (temporary_of path) path ≡ false
temporary-ne path = elim (Bool-cases (bytes_eq (temporary_of path) path)) [
  | inl same ↦ absurd (
      omega (
        arith,
        ap length (bytes_eq→eq (temporary_of path) path same),
        length-append path (b'.' ∷ b't' ∷ b'm' ∷ b'p' ∷ []),
      ))
  | inr differ ↦ differ
]

module _ (before : Files) (path bytes : Bytes) where
  abbrev temporary : Bytes
  temporary = temporary_of path

  -- Files other than the target and its temporary are as before.
  abbrev pub Elsewhere : Files → Type 0
  Elsewhere files =
      (q : Bytes) → bytes_eq path q ≡ false → bytes_eq temporary q ≡ false → files q ≡ before q

  pub record Old (files : Files) : Type 0 where
    pub target : files path ≡ before path
    pub elsewhere : Elsewhere files

  pub record New (files : Files) : Type 0 where
    pub target : files path ≡ some bytes
    pub elsewhere : Elsewhere files

  abbrev pub OldOrNew : Files → Type 0
  OldOrNew files = Old files ⊎ New files

  Old-Holds : (c : Bytes) (files : Files) → Holds before temporary c files → Old files
  Old-Holds c files h = record {
    target = h.others path (temporary-ne path);
    elsewhere = λ q _ ne. h.others q ne;
  }

  Old-Partial : (files : Files) → Partial before temporary [] bytes files → Old files
  Old-Partial files p = Old-Holds ([] ++ p.front) files p.holds

  -- The temporary file may come and go.
  Old-update : (c : Option Bytes) (files : Files) → Old files → Old (update files temporary c)
  Old-update c files o = record {
    target = update_other files temporary path c (temporary-ne path) ∙ o.target;
    elsewhere = λ q ne ne'. update_other files temporary q c ne' ∙ o.elsewhere q ne ne';
  }

  New-update : (c : Option Bytes) (files : Files) → New files → New (update files temporary c)
  New-update c files o = record {
    target = update_other files temporary path c (temporary-ne path) ∙ o.target;
    elsewhere = λ q ne ne'. update_other files temporary q c ne' ∙ o.elsewhere q ne ne';
  }

  OldOrNew-update :
      (c : Option Bytes) (files : Files) → OldOrNew files → OldOrNew (update files temporary c)
  OldOrNew-update c files (inl o) = inl (Old-update c files o)
  OldOrNew-update c files (inr o) = inr (New-update c files o)

  Holds-Old :
      (c : Bytes) (files : Files)
      → Old files
      → Holds before temporary c (update files temporary (some c))
  Holds-Old c files o = record {
    here = update_self files temporary (some c);
    others = λ q ne.
        update_other files temporary q (some c) ne ∙ unchanged q ne (Bool-cases (bytes_eq path q));
  }
    where
      unchanged :
          (q : Bytes)
          → bytes_eq temporary q ≡ false
          → (bytes_eq path q ≡ true) ⊎ (bytes_eq path q ≡ false)
          → files q ≡ before q
      unchanged q ne (inl same) = subst (λ p. files p ≡ before p) (bytes_eq→eq path q same) o.target
      unchanged q ne (inr differ) = o.elsewhere q differ ne

  New-rename :
      (files : Files)
      → Holds before temporary bytes files
      → New (update (update files path (files temporary)) temporary none)
  New-rename files h = New-update none (update files path (files temporary)) (record {
    target = update_self files path (files temporary) ∙ h.here;
    elsewhere = λ q ne ne'. update_other files path q (files temporary) ne ∙ h.others q ne';
  })

  Triple-open_truncate :
      Triple OldOrNew Old (open_truncate temporary) (Holds before temporary []) Old
  unfolding open_truncate
  Triple-open_truncate =
      Triple-bind call (modify (λ files. update files temporary (some []))) Triple-call
        (Triple-modify _ (λ files o. let h = Holds-Old [] files o in (inl (Old-Holds [] _ h), h)))

  Triple-remove_ignored :
      {Q R : Files → Type 0}
      → ((files : Files)
          → Q files
          → OldOrNew (update files temporary none) × R (update files temporary none))
      → ((files : Files) → Q files → R files)
      → Triple OldOrNew Q (remove_ignored temporary) R R
  unfolding remove_ignored
  Triple-remove_ignored {Q} {R} removed kept = record {
    at = λ w q h. go (answer w.schedule) (record w { schedule = later w.schedule }) q h;
  }
    where
      go :
          (o : Outcome) (w' : World)
          → Q w'.files
          → All OldOrNew w'.history
          → All OldOrNew (removal o temporary w').history × R (removal o temporary w').files
      go done w' q h = let (p, r) = removed w'.files q in ((p, h), r)
      go (short n) w' q h = let (p, r) = removed w'.files q in ((p, h), r)
      go (fail e) w' q h = (h, kept w'.files q)

  Triple-rename :
      Triple OldOrNew
        (Holds before temporary bytes)
        (rename temporary path)
        New
        (Holds before temporary bytes)
  unfolding rename
  Triple-rename =
      Triple-bind call
        (modify (λ files. update (update files path (files temporary)) temporary none)) Triple-call
        (Triple-modify _ (λ files h. let n = New-rename files h in (inr n, n)))

  clean_up :
      Triple OldOrNew
        (Partial before temporary [] bytes)
        (close_ignored >> remove_ignored temporary)
        Old
        Old
  clean_up =
      Triple-bind close_ignored (remove_ignored temporary)
        (Triple-weaken close_ignored (λ f q. q) (λ f q. q) (λ f q. Old-Partial f q)
          Triple-close_ignored)
        (Triple-remove_ignored (λ f q. let o = Old-update none f (Old-Partial f q) in (inl o, o))
          Old-Partial)

  write_temporary :
      Triple OldOrNew
        (Holds before temporary [])
        (on_error (write_all temporary bytes) (close_ignored >> remove_ignored temporary))
        (Holds before temporary bytes)
        Old
  write_temporary =
      Triple-on_error (write_all temporary bytes) (close_ignored >> remove_ignored temporary)
        (Triple-write_all before temporary [] bytes OldOrNew (λ f p. inl (Old-Partial f p)))
        clean_up

  publish : Io (Unit {0})
  publish = sync_and_close >> (rename temporary path >> sync_parent_directory path)

  publish_lem : Triple OldOrNew (Holds before temporary bytes) publish New OldOrNew
  unfolding publish
  publish_lem =
      Triple-bind sync_and_close (rename temporary path >> sync_parent_directory path)
        (Triple-weaken sync_and_close (λ f q. q) (λ f q. q) (λ f q. inl (Old-Holds bytes f q))
          Triple-sync_and_close)
        (Triple-bind (rename temporary path) (sync_parent_directory path)
          (Triple-weaken (rename temporary path) (λ f q. q) (λ f q. q)
            (λ f q. inl (Old-Holds bytes f q)) Triple-rename)
          (Triple-weaken (sync_parent_directory path) (λ f q. q) (λ f q. q) (λ f q. inr q)
            (Triple-sync_parent_directory path)))

  pub Triple-write_atomically : Triple OldOrNew Old (write_atomically path bytes) New OldOrNew
  unfolding write_atomically publish
  Triple-write_atomically =
      Triple-bind (ensure_parent_directory path) _
        (Triple-weaken (ensure_parent_directory path) (λ f q. q) (λ f q. q) (λ f q. inl q)
          (Triple-ensure_parent_directory path))
        (Triple-bind (open_truncate temporary) _
          (Triple-weaken (open_truncate temporary) (λ f q. q) (λ f q. q) (λ f q. inl q)
            Triple-open_truncate)
          (Triple-bind
            (on_error (write_all temporary bytes) (close_ignored >> remove_ignored temporary)) _
            (Triple-weaken _ (λ f q. q) (λ f q. q) (λ f q. inl q) write_temporary)
            (Triple-on_error publish (remove_ignored temporary) publish_lem (
              Triple-remove_ignored (λ f q. let o = OldOrNew-update none f q in (o, o))
                (λ f q. q)))))

-- From any files and with any answers of the system calls: at each moment of writeAtomically the
-- target is what it was or all of the new bytes, a return means that it is the new bytes, and no
-- file but the target and its temporary is touched.
pub write_atomically_lem :
    (w : World) (path bytes : Bytes)
    → let r = write_atomically path bytes (record w { history = [] }) in
      All (OldOrNew w.files path bytes) r.1.history
      × Ends r (New w.files path bytes) (OldOrNew w.files path bytes)
write_atomically_lem w path bytes =
    (Triple-write_atomically w.files path bytes).at (record w { history = [] })
      (record { target = refl; elsewhere = λ q _ _. refl }) tt
