-- ===== src/Queue/Operations.antt =====
-- What each method of `BoundedBlockingQueue` does while it holds the mutex. A method that waits is its
-- predicate, and its body from where the predicate holds.
use log_bridge.Base.{
  ℕ, zero, suc, ltb, ◌==◌, ◌||◌, not, Bool, true, false, if◌then◌else◌, List, [], ◌∷◌, ◌++◌, length,
  Option, none, some, Result, ok, err, invalid_argument, throw_if, ◌>>◌,
}

module _ {ℓ} (A : Type ℓ) where
  pub record BoundedBlockingQueue : Type ℓ where
    pub capacity : ℕ
    pub queue : List A
    pub closed : Bool

module _ {ℓ} {A : Type ℓ} where
  abbrev pub is_empty : List A → Bool
  is_empty [] = true
  is_empty (x ∷ rest) = false

  -- The constructor.
  unfoldable pub new_queue : ℕ → Result (BoundedBlockingQueue A)
  new_queue capacity =
      if capacity == 0
      then err invalid_argument
      else ok (record { capacity = capacity; queue = []; closed = false })

  unfoldable pub push_ready : BoundedBlockingQueue A → Bool
  push_ready q = ltb (length q.queue) q.capacity || q.closed

  unfoldable pub push_body : A → BoundedBlockingQueue A → Bool × BoundedBlockingQueue A
  push_body value q =
      if q.closed then (false, q) else (true, record q { queue = q.queue ++ value ∷ [] })

  -- The predicate of `pop`, and of both waits of `popBatch`.
  unfoldable pub pop_ready : BoundedBlockingQueue A → Bool
  pop_ready q = not (is_empty q.queue) || q.closed

  abbrev pub pop_front : BoundedBlockingQueue A → List A → Option A × BoundedBlockingQueue A
  pop_front q [] = (none, q)
  pop_front q (value ∷ rest) = (some value, record q { queue = rest })

  unfoldable pub pop_body : BoundedBlockingQueue A → Option A × BoundedBlockingQueue A
  pop_body q = pop_front q q.queue

  -- The loop of `popBatch` up to where it would wait or break: `room` items are missing, and the result
  -- is the batch and what stays in the queue.
  unfoldable pub gather : ℕ → List A → List A → List A × List A
  gather zero batch items = (batch, items)
  gather (suc room) batch [] = (batch, [])
  gather (suc room) batch (item ∷ rest) = gather room (batch ++ item ∷ []) rest

  unfoldable pub close_body : BoundedBlockingQueue A → BoundedBlockingQueue A
  close_body q = record q { closed = true }

  unfoldable pub size : BoundedBlockingQueue A → ℕ
  size q = length q.queue

-- The checks of `popBatch`; the wait time is a signed number of milliseconds, here its sign.
unfoldable pub check_batch : ℕ → Bool → Result (Unit {0})
check_batch max_items negative_wait = do
  throw_if (max_items == 0) invalid_argument
  throw_if negative_wait invalid_argument
