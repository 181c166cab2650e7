-- ===== src/Storage/World.antt =====
-- The operating system as the storage code sees it. What each system call does to the files is
-- its documented effect; whether it succeeds is read from a schedule, so that a theorem over all
-- worlds is one over all failures. `history` holds every state that the files went through, newest
-- first: a process that dies leaves one of them behind.
use log_bridge.Base.{
  ℕ, List, [], ◌∷◌, Option, Result, ok, err, Exception, system, bytes_eq, if◌then◌else◌,
}
use log_bridge.Message.{Bytes}

-- A path is its bytes; `none` is a file that does not exist.
abbrev pub Files : Type 0
Files = Bytes → Option Bytes

-- What the next call answers. `short n` is a transfer of at most `n` bytes.
pub data Outcome : Type 0 where
  done : Outcome
  short : ℕ → Outcome
  fail : ℕ → Outcome

pub record World : Type 0 where
  pub files : Files
  pub history : List Files
  pub schedule : List Outcome

abbrev pub Io : Type 0 → Type 0
Io A = World → Result A × World

abbrev pub update : Files → Bytes → Option Bytes → Files
update files path content q = if bytes_eq path q then content else files q

-- A change of the files, which the history keeps.
abbrev pub change : Files → World → World
change files w = record w { files = files; history = files ∷ w.history }

module _ {A : Type 0} where
  unfoldable pub return : A → Io A
  return a w = (ok a, w)

  unfoldable pub throw : Exception → Io A
  throw e w = (err e, w)

module _ {A B : Type 0} where
  abbrev pub continue : Result A × World → (A → Io B) → Result B × World
  continue (ok a, w) f = f a w
  continue (err e, w) f = (err e, w)

  infixl 5 ◌>>=◌
  unfoldable pub ◌>>=◌ : Io A → (A → Io B) → Io B
  ◌>>=◌ m f w = continue (m w) f

infixl 5 ◌>>◌
abbrev pub ◌>>◌ : {B : Type 0} → Io (Unit {0}) → Io B → Io B
m >> k = m >>= λ _. k

module _ {A : Type 0} where
  abbrev pub handle : Result A × World → Io (Unit {0}) → Result A × World
  handle (ok a, w) cleanup = (ok a, w)
  handle (err e, w) cleanup = (err e, (cleanup w).1)

  -- `try { m } catch (...) { cleanup; throw; }`
  unfoldable pub on_error : Io A → Io (Unit {0}) → Io A
  on_error m cleanup w = handle (m w) cleanup

abbrev pub answer : List Outcome → Outcome
answer [] = done
answer (o ∷ rest) = o

abbrev pub later : List Outcome → List Outcome
later [] = []
later (o ∷ rest) = rest

abbrev pub judge : Outcome → Result (Unit {0})
judge (fail e) = err (system e)
judge _ = ok tt

-- A call that throws `std::system_error` when it fails. Where the schedule ends, calls succeed.
unfoldable pub call : Io (Unit {0})
call w = (judge (answer w.schedule), record w { schedule = later w.schedule })

unfoldable pub modify : (Files → Files) → Io (Unit {0})
modify f w = (ok tt, change (f w.files) w)
