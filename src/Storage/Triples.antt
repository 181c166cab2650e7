-- ===== src/Storage/Triples.antt =====
-- What holds of the files after an action, and at every moment of it: a rule for each way to build
-- an action.
use log_bridge.Base.{All, Result, ok, err}
use log_bridge.Message.{Bytes}
use log_bridge.Storage.World.{
  Files, Outcome, done, short, fail, World, Io, continue, handle, ◌>>=◌, ◌>>◌, on_error, call,
  modify, answer, later, judge,
}
use log_bridge.Storage.Persistence.{
  close_ignored, sync_and_close, sync_parent_directory, ensure_parent_directory,
}

abbrev pub Ends : Result (Unit {0}) × World → (Files → Type 0) → (Files → Type 0) → Type 0
Ends (ok _, w) R E = R w.files
Ends (err _, w) R E = E w.files

-- From files where `Q` holds: `R` holds where `m` returns, `E` where it throws, and `P` at each
-- state on the way.
pub record Triple (P Q : Files → Type 0) (m : Io (Unit {0})) (R E : Files → Type 0) : Type 0 where
  pub at : (w : World) → Q w.files → All P w.history → All P (m w).1.history × Ends (m w) R E

module _ {P Q R E : Files → Type 0} where
  pub Triple-modify :
      (f : Files → Files)
      → ((files : Files) → Q files → P (f files) × R (f files))
      → Triple P Q (modify f) R E
  unfolding modify
  Triple-modify f step = record { at = λ w q h. let (p, r) = step w.files q in ((p, h), r) }

  pub Triple-bind :
      {S : Files → Type 0} (m n : Io (Unit {0}))
      → Triple P Q m S E
      → Triple P S n R E
      → Triple P Q (m >> n) R E
  unfolding ◌>>=◌
  Triple-bind {S} m n first second = record { at = λ w q h. go (m w) (first.at w q h) }
    where
      go :
          (r : Result (Unit {0}) × World)
          → All P r.1.history × Ends r S E
          → All P (continue r (λ _. n)).1.history × Ends (continue r (λ _. n)) R E
      go (ok _, w') (h, s) = second.at w' s h
      go (err e, w') (h, s) = (h, s)

  pub Triple-on_error :
      {F : Files → Type 0} (m cleanup : Io (Unit {0}))
      → Triple P Q m R F
      → Triple P F cleanup E E
      → Triple P Q (on_error m cleanup) R E
  unfolding on_error
  Triple-on_error {F} m cleanup body after = record { at = λ w q h. go (m w) (body.at w q h) }
    where
      settle : (r : Result (Unit {0}) × World) → Ends r E E → E r.1.files
      settle (ok _, w') s = s
      settle (err e, w') s = s

      go :
          (r : Result (Unit {0}) × World)
          → All P r.1.history × Ends r R F
          → All P (handle r cleanup).1.history × Ends (handle r cleanup) R E
      go (ok _, w') (h, s) = (h, s)
      go (err e, w') (h, s) = let (kept, ends) = after.at w' s h in (kept, settle (cleanup w') ends)

  pub Triple-weaken :
      {Q' R' E' : Files → Type 0} (m : Io (Unit {0}))
      → ((files : Files) → Q files → Q' files)
      → ((files : Files) → R' files → R files)
      → ((files : Files) → E' files → E files)
      → Triple P Q' m R' E'
      → Triple P Q m R E
  Triple-weaken {Q'} {R'} {E'} m fq fr fe t = record {
    at = λ w q h. let (kept, ends) = t.at w (fq w.files q) h in (kept, go (m w) ends);
  }
    where
      go : (r : Result (Unit {0}) × World) → Ends r R' E' → Ends r R E
      go (ok _, w') s = fr w'.files s
      go (err e, w') s = fe w'.files s

-- The calls that leave the files alone.
module _ {P Q : Files → Type 0} where
  pub Triple-call : Triple P Q call Q Q
  unfolding call
  Triple-call = record { at = λ w q h. (h, go (answer w.schedule) w q) }
    where
      go :
          (o : Outcome) (w : World)
          → Q w.files
          → Ends (judge o, record w { schedule = later w.schedule }) Q Q
      go done w q = q
      go (short n) w q = q
      go (fail e) w q = q

  pub Triple-close_ignored : Triple P Q close_ignored Q Q
  unfolding close_ignored
  Triple-close_ignored = record { at = λ w q h. (h, q) }

  pub Triple-sync_and_close : Triple P Q sync_and_close Q Q
  unfolding sync_and_close
  Triple-sync_and_close =
      Triple-bind (on_error call close_ignored) call
        (Triple-on_error call close_ignored Triple-call Triple-close_ignored) Triple-call

  pub Triple-sync_parent_directory : (path : Bytes) → Triple P Q (sync_parent_directory path) Q Q
  unfolding sync_parent_directory
  Triple-sync_parent_directory path =
      Triple-bind call sync_and_close Triple-call Triple-sync_and_close

  pub Triple-ensure_parent_directory :
      (path : Bytes) → Triple P Q (ensure_parent_directory path) Q Q
  unfolding ensure_parent_directory
  Triple-ensure_parent_directory path = Triple-call
