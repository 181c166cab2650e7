-- ===== src/Storage/Writing.antt =====
-- `writeAll`: whatever the calls of `write` answer, the file grows by pieces of the data in order.
use log_bridge.Base.{
  zero, suc, ◌≡◌, refl, sym, ap, ◌∙◌, List, [], ◌∷◌, ◌++◌, append_assoc, append-nil, take, drop,
  take-append-drop, some, Option, All, bytes_eq, bytes_eq_refl, false, Bool-cases, inl, inr, ◌==◌,
}
use log_bridge.Message.{Bytes}
use log_bridge.Storage.World.{Files, Outcome, done, short, fail, World, update, change}
use log_bridge.Storage.Persistence.{append_to, content_of, write_loop, write_all, eintr}
use log_bridge.Storage.Triples.{Ends, Triple}

-- `path` holds `content`, and every other file is as in `before`.
pub record Holds (before : Files) (path content : Bytes) (files : Files) : Type 0 where
  pub here : files path ≡ some content
  pub others : (q : Bytes) → bytes_eq path q ≡ false → files q ≡ before q

pub update_self : (files : Files) (path : Bytes) (c : Option Bytes) → update files path c path ≡ c
update_self files path c = rw (bytes_eq_refl path)

pub update_other :
    (files : Files) (path q : Bytes) (c : Option Bytes)
    → bytes_eq path q ≡ false
    → update files path c q ≡ files q
update_other files path q c h = rw h

-- Every piece on the way is a prefix of `bytes` behind `base`.
pub record Partial (before : Files) (path base bytes : Bytes) (files : Files) : Type 0 where
  pub front : Bytes
  pub back : Bytes
  pub split : bytes ≡ front ++ back
  pub holds : Holds before path (base ++ front) files

module _ (before : Files) (path base bytes : Bytes) where
  pub Holds-append_to :
      (front more : Bytes) (files : Files)
      → Holds before path (base ++ front) files
      → Holds before path (base ++ (front ++ more)) (append_to path more files)
  Holds-append_to front more files h = record {
    here =
        update_self files path (some (content_of (files path) ++ more))
        ∙ ap (λ c. some (content_of c ++ more)) h.here
        ∙ ap some (append_assoc base front more);
    others = λ q ne. update_other files path q _ ne ∙ h.others q ne;
  }

  abbrev Reached : Files → Type 0
  Reached = Holds before path (base ++ bytes)

  module _ (P : Files → Type 0)
      (keeps : (files : Files) → Partial before path base bytes files → P files) where
    abbrev Goal : List Outcome → Bytes → World → Type 0
    Goal schedule rest w =
        All P (write_loop schedule path rest w).1.history
        × Ends (write_loop schedule path rest w) Reached (Partial before path base bytes)

    -- The last piece was written.
    finished :
        (front rest : Bytes) (w : World)
        → bytes ≡ front ++ rest
        → Holds before path (base ++ front) w.files
        → All P w.history
        → All P (append_to path rest w.files ∷ w.history) × Reached (append_to path rest w.files)
    finished front rest w split h kept =
        let reached : Reached (append_to path rest w.files) =
          rw split (Holds-append_to front rest w.files h) in
        (
          (
            keeps _ (record {
              front = bytes;
              back = [];
              split = sym (append-nil bytes);
              holds = reached;
            }),
            kept,
          ),
          reached,
        )

    write_loop_lem :
        (schedule : List Outcome) (front rest : Bytes) (w : World)
        → bytes ≡ front ++ rest
        → Holds before path (base ++ front) w.files
        → All P w.history
        → Goal schedule rest w
    unfolding write_loop
    write_loop_lem schedule front [] w split h kept = (kept, rw (split ∙ append-nil front) h)
    write_loop_lem [] front (b ∷ rest) w split h kept = finished front (b ∷ rest) w split h kept
    write_loop_lem (done ∷ schedule) front (b ∷ rest) w split h kept =
        finished front (b ∷ rest) w split h kept
    write_loop_lem (short zero ∷ schedule) front (b ∷ rest) w split h kept =
        (kept, record { front = front; back = b ∷ rest; split = split; holds = h })
    write_loop_lem (short (suc n) ∷ schedule) front (b ∷ rest) w split h kept =
        let piece : Bytes = b ∷ take n rest in
        let split' : bytes ≡ (front ++ piece) ++ drop n rest =
          split
          ∙ ap (λ t. front ++ b ∷ t) (sym (take-append-drop n rest))
          ∙ sym (append_assoc front piece (drop n rest)) in
        let h' : Holds before path (base ++ (front ++ piece)) (append_to path piece w.files) =
          Holds-append_to front piece w.files h in
        write_loop_lem schedule (front ++ piece) (drop n rest)
          (change (append_to path piece w.files) w) split' h'
          (
            keeps _
                (record { front = front ++ piece; back = drop n rest; split = split'; holds = h' }),
            kept,
          )
    write_loop_lem (fail e ∷ schedule) front (b ∷ rest) w split h kept =
        elim (Bool-cases (e == eintr)) [
          | inl again ↦ rw again (write_loop_lem schedule front (b ∷ rest) w split h kept)
          | inr stop ↦
              rw stop (kept, record { front = front; back = b ∷ rest; split = split; holds = h })
        ]

    -- `writeAll` from a file with `base`: all of `bytes` behind it, or an error behind a prefix.
    pub Triple-write_all :
        Triple P
          (Holds before path base)
          (write_all path bytes)
          Reached
          (Partial before path base bytes)
    unfolding write_all
    Triple-write_all = record {
      at = λ w q kept. write_loop_lem w.schedule [] bytes w refl (rw append-nil q) kept;
    }
