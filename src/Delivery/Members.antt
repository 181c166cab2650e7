-- ===== src/Delivery/Members.antt =====
-- Membership in lists.
use log_bridge.Base.{
  InAll, ℕ, ◌<◌, ◌≡◌, refl, ap, true, false, arith, leb, Bool-cases, ◌⊎◌, inl, inr, List, [], ◌∷◌,
  last_or,
}
use log_bridge.Message.{LogMessage}
use log_bridge.WriteAheadLog.{unconfirmed}
use log_bridge.Server.Batch.{fresh}

abbrev pub In : LogMessage → List LogMessage → Type 0
In = InAll {A = LogMessage}

pub In-last : (front : LogMessage) (rest : List LogMessage) → In (last_or rest front) (front ∷ rest)
In-last front [] = inl refl
In-last front (m ∷ rest) = inr (In-last m rest)

-- A message above the watermark is fresh.
pub In-fresh :
    (watermark : ℕ) (m : LogMessage) (ms : List LogMessage)
    → watermark < m.id
    → In m ms
    → In m (fresh watermark ms)
In-fresh watermark m [] above h = absurd h
In-fresh watermark m (x ∷ rest) above (inl e) = elim (Bool-cases (leb x.id watermark)) [
  | inl old ↦ absurd (ground (arith, above, old, ap (λ (o : LogMessage). o.id) e))
  | inr new ↦ rw new (inl e)
]
In-fresh watermark m (x ∷ rest) above (inr h) =
    let later = In-fresh watermark m rest above h in
    elim (Bool-cases (leb x.id watermark)) [ inl old ↦ rw old later | inr new ↦ rw new (inr later) ]

-- What `confirm` keeps.
pub In-unconfirmed :
    (id : ℕ) (m : LogMessage) (ms : List LogMessage)
    → id < m.id
    → In m ms
    → In m (unconfirmed id ms)
unfolding unconfirmed
In-unconfirmed id m [] above h = absurd h
In-unconfirmed id m (x ∷ rest) above (inl e) = elim (Bool-cases (leb x.id id)) [
  | inl old ↦ absurd (ground (arith, above, old, ap (λ (o : LogMessage). o.id) e))
  | inr new ↦ rw new (inl e)
]
In-unconfirmed id m (x ∷ rest) above (inr h) =
    let later = In-unconfirmed id m rest above h in
    elim (Bool-cases (leb x.id id)) [ inl old ↦ rw old later | inr new ↦ rw new (inr later) ]

pub unconfirmed-In :
    (id : ℕ) (m : LogMessage) (ms : List LogMessage) → In m (unconfirmed id ms) → In m ms
unfolding unconfirmed
unconfirmed-In id m [] h = h
unconfirmed-In id m (x ∷ rest) h =
    kept_or_later (unconfirmed-In id m rest) (Bool-cases (leb x.id id)) h
  where
    kept_or_later :
        (In m (unconfirmed id rest) → In m rest)
        → (leb x.id id ≡ true) ⊎ (leb x.id id ≡ false)
        → In m (unconfirmed id (x ∷ rest))
        → In m (x ∷ rest)
    kept_or_later further (inl old) = rw old (λ h. inr (further h))
    kept_or_later further (inr new) = rw new (λ h. in_rest further h)
      where
        in_rest :
            (In m (unconfirmed id rest) → In m rest)
            → In m (x ∷ unconfirmed id rest)
            → In m (x ∷ rest)
        in_rest further (inl e) = inl e
        in_rest further (inr h) = inr (further h)
