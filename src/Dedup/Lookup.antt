-- ===== src/Dedup/Lookup.antt =====
-- What `confirm` does to the watermarks.
use log_bridge.Base.{
  ℕ, max, ◌≤◌, ◌≡◌, ◌≢◌, refl, sym, ap, ◌∙◌, arith, false, leb, ◌==◌, ◌||◌, bytes_eq, bytes_eq_refl,
  bytes_eq→eq, Bool-cases, [], ◌∷◌, some, Result, ok, err, inl, inr, invalid_argument,
}
use mathlib.Core.Path.{subst}
use log_bridge.Message.{Bytes}
use log_bridge.Storage.World.{World}
use log_bridge.Dedup.Text.{Entries}
use log_bridge.Dedup.Store.{
  DedupStore, bytes_lt, find, put, value_or_zero, highest_confirmed, moved, persist, is_empty,
  confirm,
}

find-put_same :
    (client_id : Bytes) (n : ℕ) (entries : Entries)
    → find client_id (put client_id n entries) ≡ some n
unfolding find put
find-put_same client_id n [] = rw (bytes_eq_refl client_id) refl
find-put_same client_id n ((key, value) ∷ rest) = elim (Bool-cases (bytes_eq client_id key)) [
  | inl same ↦ rw (same, put) (rw (bytes_eq_refl client_id, find) refl)
  | inr other ↦ elim (Bool-cases (bytes_lt client_id key)) [
    | inl before ↦ rw (other, before, put) (rw (bytes_eq_refl client_id, find) refl)
    | inr behind ↦ rw (other, behind, put) (rw (other, find) (find-put_same client_id n rest))
  ]
]

bytes_eq-other : (a b : Bytes) → a ≢ b → bytes_eq a b ≡ false
bytes_eq-other a b other = elim (Bool-cases (bytes_eq a b)) [
  | inl same ↦ absurd (other (bytes_eq→eq a b same))
  | inr different ↦ different
]

find-put_other :
    (client_id other : Bytes) (n : ℕ) (entries : Entries)
    → other ≢ client_id
    → find other (put client_id n entries) ≡ find other entries
unfolding find put
find-put_other client_id other n [] h = rw (bytes_eq-other other client_id h, find) refl
find-put_other client_id other n ((key, value) ∷ rest) h =
    elim (Bool-cases (bytes_eq client_id key)) [
      | inl same ↦
          let differs : bytes_eq other key ≡ false =
            bytes_eq-other other key (λ e. h (e ∙ sym (bytes_eq→eq client_id key same))) in
          rw (same, put) (rw (bytes_eq-other other client_id h, differs, find) refl)
      | inr different ↦ elim (Bool-cases (bytes_lt client_id key)) [
        | inl before ↦
            rw (different, before, put) (rw (bytes_eq-other other client_id h, find) refl)
        | inr behind ↦
            rw (different, behind, put) (rw (find-put_other client_id other n rest h) refl)
      ]
    ]

-- The watermark of one client rises to `n` where it was lower, and those of the others stay.
pub record Advances (client_id : Bytes) (n : ℕ) (before : DedupStore) (r : ℕ) (after : DedupStore)
    : Type 0 where
  pub returned : r ≡ max (highest_confirmed client_id before) n
  pub watermark : highest_confirmed client_id after ≡ r
  pub others :
      (other : Bytes)
      → other ≢ client_id
      → highest_confirmed other after ≡ highest_confirmed other before
  pub path : after.path ≡ before.path

module _ (client_id : Bytes) (n : ℕ) (store : DedupStore)
    (lower : highest_confirmed client_id store ≤ n) where
  Advances-put :
      Advances client_id n store n (record store { confirmed = put client_id n store.confirmed })
  unfolding highest_confirmed
  Advances-put = record {
    returned = omega arith;
    watermark = ap value_or_zero (find-put_same client_id n store.confirmed);
    others = λ other h. ap value_or_zero (find-put_other client_id other n store.confirmed h);
    path = refl;
  }

moved-Advances :
    (client_id : Bytes) (n : ℕ) (store : DedupStore) (x : Result (Unit {0}) × World) {r : ℕ}
    → highest_confirmed client_id store ≤ n
    → let q = moved n (put client_id n store.confirmed) store x in
      q.0 ≡ ok r → Advances client_id n store r q.1
moved-Advances client_id n store (ok _, w) {r} lower h =
    subst
      (λ k.
        Advances client_id n store k (record store { confirmed = put client_id n store.confirmed }))
      (value-of h) (Advances-put client_id n store lower)
  where
    value-of : (ok n ≡ ok r) → n ≡ r
    value-of e = cc
moved-Advances client_id n store (err e, w) lower h = cc

-- If DedupStore::confirm returns, the result and the watermark of the client are the maximum of its
-- watermark before and the id, and the watermarks of all other clients are as before.
pub confirm-Advances :
    (client_id : Bytes) (n : ℕ) (store : DedupStore) (w : World) {r : ℕ}
    → let q = confirm client_id n store w in q.0 ≡ ok r → Advances client_id n store r q.1
unfolding confirm
confirm-Advances client_id n store w {r} = elim (Bool-cases (is_empty client_id || n == 0)) [
  | inl nothing ↦ rw nothing (λ h. absurd (refused h))
  | inr something ↦ elim (Bool-cases (leb n (highest_confirmed client_id store))) [
    | inl old ↦ rw (something) (
        rw old (λ h.
          let same : highest_confirmed client_id store ≡ r = cc in
          record {
            returned = ground arith;
            watermark = same;
            others = λ other _. refl;
            path = refl;
          }))
    | inr new ↦ rw something (
        rw new (
          moved-Advances client_id n store (persist store.path (put client_id n store.confirmed) w)
            (ground arith)))
  ]
]
  where
    refused : (err invalid_argument ≡ ok r) → ⊥
    refused e = cc
