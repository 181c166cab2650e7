-- ===== src/Queue/System.antt =====
-- Producers and a consumer on one queue, as the interleavings of what they do under the mutex.
use log_bridge.Base.{
  ℕ, ◌-◌, ◌≤◌, ◌≡◌, Bool, true, false, List, [], ◌∷◌, ◌++◌, length, Option, none, some,
}
use log_bridge.Queue.Operations.{
  BoundedBlockingQueue, push_ready, push_body, pop_ready, pop_body, gather, close_body,
}

module _ {ℓ} (A : Type ℓ) where
  -- A `popBatch` in progress: how many items it may return, and those that it has.
  pub data Consumer : Type ℓ where
    idle : Consumer
    gathering : ℕ → List A → Consumer

  -- The queue with its history: the items whose `push` returned true, in this order, and the results
  -- of the consumer's calls, one behind the other.
  pub record System : Type ℓ where
    pub shared : BoundedBlockingQueue A
    pub consumer : Consumer
    pub accepted : List A
    pub delivered : List A

module _ {ℓ} {A : Type ℓ} where
  abbrev pub in_hand : Consumer A → List A
  in_hand idle = []
  in_hand (gathering max_items batch) = batch

  -- A push that was let in, and one that found the queue closed.
  abbrev pub pushed : A → Bool × BoundedBlockingQueue A → System A → System A
  pushed value (true, q) s = record s { shared = q; accepted = s.accepted ++ value ∷ [] }
  pushed value (false, q) s = record s { shared = q }

  abbrev pub popped : Option A × BoundedBlockingQueue A → System A → System A
  popped (some value, q) s = record s { shared = q; delivered = s.delivered ++ value ∷ [] }
  popped (none, q) s = record s { shared = q }

  abbrev pub gathered : ℕ → List A × List A → System A → System A
  gathered max_items (batch, items) s = record s {
    shared = record (s.shared) { queue = items };
    consumer = gathering max_items batch;
  }

  -- `popBatch` behind its first wait: it returns an empty batch where the queue is empty, and takes
  -- the first item otherwise.
  abbrev pub batch_started : ℕ → List A → System A → System A
  batch_started max_items [] s = s
  batch_started max_items (first ∷ rest) s =
      gathered max_items (gather (max_items - 1) (first ∷ []) rest) s

  abbrev pub batch_returned : System A → System A
  batch_returned s = record s { consumer = idle; delivered = s.delivered ++ in_hand s.consumer }

  -- One thread holds the mutex at a time, so that the steps interleave and do not overlap. A thread
  -- that waits takes its step when its predicate holds; a `popBatch` returns when its batch is full, when
  -- the queue is empty and closed, or when its time is over, which may be at any moment.
  pub data Step : System A → System A → Type ℓ where
    push :
        {s : System A} (value : A)
        → push_ready s.shared ≡ true
        → Step s (pushed value (push_body value s.shared) s)
    pop :
        {s : System A}
        → s.consumer ≡ idle
        → pop_ready s.shared ≡ true
        → Step s (popped (pop_body s.shared) s)
    batch_start :
        {s : System A} (max_items : ℕ)
        → s.consumer ≡ idle
        → 1 ≤ max_items
        → pop_ready s.shared ≡ true
        → Step s (batch_started max_items s.shared.queue s)
    batch_woken :
        {s : System A} (max_items : ℕ) (batch : List A)
        → s.consumer ≡ gathering max_items batch
        → pop_ready s.shared ≡ true
        → Step s (gathered max_items (gather (max_items - length batch) batch s.shared.queue) s)
    batch_return :
        {s : System A} (max_items : ℕ) (batch : List A)
        → s.consumer ≡ gathering max_items batch
        → Step s (batch_returned s)
    close : {s : System A} → Step s (record s { shared = close_body s.shared })

  pub data Steps (s : System A) : System A → Type ℓ where
    here : Steps s s
    more : {t u : System A} → Steps s t → Step t u → Steps s u

  -- At the start nothing was pushed.
  pub record IsInitial (s : System A) : Type ℓ where
    pub empty : s.shared.queue ≡ []
    pub resting : s.consumer ≡ idle
    pub nothing_accepted : s.accepted ≡ []
    pub nothing_delivered : s.delivered ≡ []
