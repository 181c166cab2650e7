-- ===== src/Tail/Lines.antt =====
-- Splitting into lines, piece by piece and at once.
use log_bridge.Base.{
  ℕ, ◌≡◌, refl, sym, ap, ◌∙◌, ◌==◌, true, false, Bool-cases, List, [], ◌∷◌, ◌++◌, append-nil,
  append_assoc, inl, inr,
}
use log_bridge.Message.{Bytes}
use log_bridge.Tail.Reader.{split_lines, strip_return}

-- Lines of a second piece, behind those of the first.
abbrev pub behind : List Bytes → List Bytes × Bytes → List Bytes × Bytes
behind lines r = (lines ++ r.0, r.1)

-- The bytes that are left from the first piece go before the second.
pub split_lines-append :
    (start xs ys : Bytes)
    → let r = split_lines start xs in split_lines start (xs ++ ys) ≡ behind r.0 (split_lines r.1 ys)
unfolding split_lines
split_lines-append start [] ys = refl
split_lines-append start (b ∷ rest) ys = elim (Bool-cases (b == 10)) [
  | inl newline ↦
      rw (newline, split_lines)
        (ap (behind (strip_return start ∷ [])) (split_lines-append [] rest ys))
  | inr other ↦ rw (other, split_lines) (split_lines-append (start ++ b ∷ []) rest ys)
]

-- No newline: it is all left.
pub record IsPartial (start : Bytes) : Type 0 where
  pub left : split_lines [] start ≡ ([], start)

pub IsPartial-nil : IsPartial []
unfolding split_lines
IsPartial-nil = record { left = refl }

IsPartial-snoc :
    (start : Bytes) (b : ℕ) → (b == 10) ≡ false → IsPartial start → IsPartial (start ++ b ∷ [])
unfolding split_lines
IsPartial-snoc start b other h = record {
  left =
      split_lines-append [] start (b ∷ [])
      ∙ ap (λ r. behind r.0 (split_lines r.1 (b ∷ []))) h.left
      ∙ rw other refl;
}

pub split_lines-IsPartial :
    (start xs : Bytes) → IsPartial start → IsPartial (split_lines start xs).1
unfolding split_lines
split_lines-IsPartial start [] h = h
split_lines-IsPartial start (b ∷ rest) h = elim (Bool-cases (b == 10)) [
  | inl newline ↦ rw (newline, split_lines) (split_lines-IsPartial [] rest IsPartial-nil)
  | inr other ↦
      rw (other, split_lines)
        (split_lines-IsPartial (start ++ b ∷ []) rest (IsPartial-snoc start b other h))
]

-- What the code does, splitting what was left and the new chunk, is to go on where it stopped.
pub split_lines-pending :
    (pending chunk : Bytes)
    → IsPartial pending
    → split_lines [] (pending ++ chunk) ≡ split_lines pending chunk
split_lines-pending pending chunk h =
    split_lines-append [] pending chunk ∙ ap (λ r. behind r.0 (split_lines r.1 chunk)) h.left

-- The bytes are those of the lines, newlines included, and the ones that are left.
pub record Cuts (start xs : Bytes) (r : List Bytes × Bytes) : Type 0 where
  pub front : Bytes
  pub split : start ++ xs ≡ front ++ r.1
  pub whole : split_lines [] front ≡ (r.0, [])

-- A line and what follows it.
line-first :
    (start front : Bytes) (b : ℕ)
    → (b == 10) ≡ true
    → IsPartial start
    → split_lines [] (start ++ b ∷ front) ≡ behind (strip_return start ∷ []) (split_lines [] front)
unfolding split_lines
line-first start front b newline h =
    split_lines-pending start (b ∷ front) h ∙ rw (newline, split_lines) refl

pub split_lines-Cuts : (start xs : Bytes) → IsPartial start → Cuts start xs (split_lines start xs)
unfolding split_lines
split_lines-Cuts start [] h = record { front = []; split = append-nil start; whole = refl }
split_lines-Cuts start (b ∷ rest) h = elim (Bool-cases (b == 10)) [
  | inl newline ↦
      let c = split_lines-Cuts [] rest IsPartial-nil in
      rw (newline, split_lines)
        (record {
          front = start ++ b ∷ c.front;
          split =
              ap (λ t. start ++ b ∷ t) c.split
              ∙ sym (append_assoc start (b ∷ c.front) (split_lines [] rest).1);
          whole =
              line-first start c.front b newline h ∙ ap (behind (strip_return start ∷ [])) c.whole;
        })
  | inr other ↦
      let c = split_lines-Cuts (start ++ b ∷ []) rest (IsPartial-snoc start b other h) in
      rw (other, split_lines)
        (record {
          front = c.front;
          split = sym (append_assoc start (b ∷ []) rest) ∙ c.split;
          whole = c.whole;
        })
]
