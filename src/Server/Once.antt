-- ===== src/Server/Once.antt =====
-- No message is processed twice, and a resent batch changes nothing.
use log_bridge.Base.{
  ℕ, max, ◌≤◌, ◌<◌, ◌≡◌, sym, ap, ◌∙◌, arith, true, false, leb, Bool-cases, bytes_eq, bytes_eq→eq,
  bytes_eq_refl, List, [], ◌∷◌, ◌++◌, All, All-append, ok, inl, inr,
}
use mathlib.Core.Path.{subst}
use log_bridge.Message.{Bytes, LogMessage}
use log_bridge.Protocol.Batch.{IsRun}
use log_bridge.Storage.World.{World}
use log_bridge.WriteAheadLog.Load.{last_id, last_id-last_or}
use log_bridge.Dedup.Store.{DedupStore, highest_confirmed}
use log_bridge.Server.Loop.{Server, handle_batch}
use log_bridge.Server.Batch.{fresh, watermark, Handled, HandleEnds, handle_batch-HandleEnds}

-- If both are of one client, the first was numbered before the second.
abbrev pub Earlier : LogMessage → LogMessage → Type 0
Earlier x y = x.client_id ≡ y.client_id → x.id < y.id

-- The messages of each client stand in the order of their ids, each of them once.
abbrev pub Increasing : List LogMessage → Type 0
Increasing [] = Unit {0}
Increasing (x ∷ rest) = All (Earlier x) rest × Increasing rest

-- No message is above its client's watermark.
abbrev pub Covered : DedupStore → LogMessage → Type 0
Covered store m = m.id ≤ highest_confirmed m.client_id store

pub record IsOnce (server : Server) : Type 0 where
  pub increasing : Increasing server.output
  pub covered : All (Covered server.store) server.output

true-ne-false : true ≡ false → ⊥
true-ne-false h = cc

pub IsRun-last_id :
    (client_id : Bytes) (previous_id : ℕ) (ms : List LogMessage)
    → IsRun client_id previous_id ms
    → previous_id ≤ last_id previous_id ms
IsRun-last_id client_id previous_id [] run = omega arith
IsRun-last_id client_id previous_id (m ∷ rest) run =
    omega (arith, run.1, IsRun-last_id client_id m.id rest run.3)

-- What is known of a fresh message of a run.
pub record IsFresh (client_id : Bytes) (low previous_id last : ℕ) (m : LogMessage) : Type 0 where
  pub same_client : m.client_id ≡ client_id
  pub above : low < m.id
  pub behind : previous_id < m.id
  pub within : m.id ≤ last

pub All-imp :
    {P Q : LogMessage → Type 0} (ms : List LogMessage)
    → ((m : LogMessage) → P m → Q m)
    → All P ms
    → All Q ms
All-imp [] g h = tt
All-imp (m ∷ rest) g h = (g m h.0, All-imp rest g h.1)

fresh-IsFresh :
    (client_id : Bytes) (low previous_id : ℕ) (ms : List LogMessage)
    → IsRun client_id previous_id ms
    → All (IsFresh client_id low previous_id (last_id previous_id ms)) (fresh low ms)
fresh-IsFresh client_id low previous_id [] run = tt
fresh-IsFresh client_id low previous_id (m ∷ rest) run =
    let later =
      All-imp (fresh low rest) (λ o h. further o h) (fresh-IsFresh client_id low m.id rest run.3) in
    elim (Bool-cases (leb m.id low)) [
      | inl old ↦ rw old later
      | inr new ↦ rw new (
        record {
          same_client = run.0;
          above = ground arith;
          behind = run.1;
          within = IsRun-last_id client_id m.id rest run.3;
        },
        later,
      )
    ]
  where
    further :
        (o : LogMessage)
        → IsFresh client_id low m.id (last_id m.id rest) o
        → IsFresh client_id low previous_id (last_id m.id rest) o
    further o h = record {
      same_client = h.same_client;
      above = h.above;
      behind = omega (arith, h.behind, run.1);
      within = h.within;
    }

fresh-Increasing :
    (client_id : Bytes) (low previous_id : ℕ) (ms : List LogMessage)
    → IsRun client_id previous_id ms
    → Increasing (fresh low ms)
fresh-Increasing client_id low previous_id [] run = tt
fresh-Increasing client_id low previous_id (m ∷ rest) run = elim (Bool-cases (leb m.id low)) [
  | inl old ↦ rw old (fresh-Increasing client_id low m.id rest run.3)
  | inr new ↦ rw new (
    All-imp (fresh low rest) (λ o h _. h.behind) (fresh-IsFresh client_id low m.id rest run.3),
    fresh-Increasing client_id low m.id rest run.3,
  )
]

Increasing-append :
    (xs ys : List LogMessage)
    → Increasing xs
    → Increasing ys
    → All (λ x. All (Earlier x) ys) xs
    → Increasing (xs ++ ys)
Increasing-append [] ys hx hy h = hy
Increasing-append (x ∷ xs) ys hx hy h =
    (All-append (Earlier x) xs ys hx.0 h.0, Increasing-append xs ys hx.1 hy h.1)

module _ (front : LogMessage) (rest : List LogMessage) (server : Server) (w : World) (id : ℕ)
    (run : IsRun front.client_id 0 (front ∷ rest))
    (returned : (handle_batch front rest server w).0 ≡ ok id) where
  abbrev after : Server
  after = (handle_batch front rest server w).1

  abbrev low : ℕ
  low = watermark front rest server

  ends : HandleEnds front rest server (ok id) after.store
  ends =
      subst (λ r. HandleEnds front rest server r after.store) returned
        (handle_batch-HandleEnds front rest server w run).1

  risen : highest_confirmed front.client_id after.store ≡ max low id
  risen = Handled.risen ends

  -- The watermark of no client goes down.
  no_lower : (c : Bytes) → highest_confirmed c server.store ≤ highest_confirmed c after.store
  no_lower c = elim (Bool-cases (bytes_eq c front.client_id)) [
    | inl same ↦
        subst (λ t. highest_confirmed t server.store ≤ highest_confirmed t after.store)
          (sym (bytes_eq→eq c front.client_id same)) (omega (arith, risen))
    | inr different ↦ omega (arith, Handled.others ends c (λ e. differs c e different))
  ]
    where
      differs : (c : Bytes) → c ≡ front.client_id → bytes_eq c front.client_id ≡ false → ⊥
      differs c e h = true-ne-false (sym (bytes_eq_refl c) ∙ ap (bytes_eq c) e ∙ h)

  top : id ≡ last_id 0 (front ∷ rest)
  top = Handled.acked ends ∙ last_id-last_or front rest

  all_fresh :
      All (IsFresh front.client_id low 0 (last_id 0 (front ∷ rest))) (fresh low (front ∷ rest))
  all_fresh = fresh-IsFresh front.client_id low 0 (front ∷ rest) run

  -- An old message of the client is at most at the watermark, and a fresh one above it.
  old_before_fresh :
      (o : LogMessage) → Covered server.store o → All (Earlier o) (fresh low (front ∷ rest))
  old_before_fresh o h =
      All-imp (fresh low (front ∷ rest))
        (λ m f e.
          omega (arith, h, f.above, ap (λ c. highest_confirmed c server.store) (e ∙ f.same_client)))
        all_fresh

  Covered-fresh :
      (m : LogMessage)
      → IsFresh front.client_id low 0 (last_id 0 (front ∷ rest)) m
      → Covered after.store m
  Covered-fresh m f =
      omega (arith, f.within, top, risen, ap (λ c. highest_confirmed c after.store) f.same_client)

  Covered-old : (m : LogMessage) → Covered server.store m → Covered after.store m
  Covered-old m h = omega (arith, h, no_lower m.client_id)

  pub handle_batch-IsOnce : IsOnce server → IsOnce after
  handle_batch-IsOnce once = record {
    increasing = subst Increasing (sym grown) (
        Increasing-append server.output (fresh low (front ∷ rest)) once.increasing
          (fresh-Increasing front.client_id low 0 (front ∷ rest) run)
          (All-imp server.output old_before_fresh once.covered));
    covered = subst (All (Covered after.store)) (sym grown) (
        All-append (Covered after.store) server.output (fresh low (front ∷ rest))
          (All-imp server.output Covered-old once.covered)
          (All-imp (fresh low (front ∷ rest)) Covered-fresh all_fresh));
  }
    where
      grown : after.output ≡ server.output ++ fresh low (front ∷ rest)
      grown = (handle_batch-HandleEnds front rest server w run).0

-- The server after any number of batches that it handled without an exception.
pub data Serves (server : Server) : Server → Type 0 where
  start : Serves server server
  then_batch :
      {s : Server} (front : LogMessage) (rest : List LogMessage) (w : World) (id : ℕ)
      → Serves server s
      → IsRun front.client_id 0 (front ∷ rest)
      → (handle_batch front rest s w).0 ≡ ok id
      → Serves server (handle_batch front rest s w).1

-- If a server handles any number of batches without an exception, each of one client with growing
-- ids, and at the start the output has the messages of each client in the order of their ids, none
-- twice and none above its watermark, then so has it at the end.
pub Serves-IsOnce : (server s : Server) → Serves server s → IsOnce server → IsOnce s
Serves-IsOnce server s start once = once
Serves-IsOnce server _ (then_batch {s} front rest w id before run returned) once =
    handle_batch-IsOnce front rest s w id run returned (Serves-IsOnce server s before once)
