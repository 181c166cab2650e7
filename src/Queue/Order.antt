-- ===== src/Queue/Order.antt =====
-- No item is lost, doubled or reordered, and the queue keeps within its capacity.
use log_bridge.Base.{
  ℕ, zero, suc, ◌+◌, ◌-◌, ◌≤◌, ◌≡◌, refl, sym, ap, ◌∙◌, arith, ltb, true, Bool-cases, List, [], ◌∷◌,
  ◌++◌, append_assoc, length, length-append, inl, inr,
}
use mathlib.Core.Path.{subst}
use log_bridge.Queue.Operations.{push_ready, push_body, pop_body, pop_front, gather, close_body}
use log_bridge.Queue.System.{
  Consumer, idle, gathering, in_hand, System, pushed, popped, gathered, batch_started, Step, push,
  pop, batch_start, batch_woken, batch_return, close, Steps, here, more, IsInitial,
}

module _ {ℓ} {A : Type ℓ} where
  -- A batch in progress has no more items than were asked for.
  abbrev pub Fits : Consumer A → Type 0
  Fits idle = Unit {0}
  Fits (gathering max_items batch) = length batch ≤ max_items

  pub record IsFifo (s : System A) : Type ℓ where
    pub order : s.accepted ≡ s.delivered ++ (in_hand s.consumer ++ s.shared.queue)
    pub bounded : length s.shared.queue ≤ s.shared.capacity
    pub fits : Fits s.consumer

  gather-append :
      (room : ℕ) (batch items : List A)
      → let r = gather room batch items in r.0 ++ r.1 ≡ batch ++ items
  unfolding gather
  gather-append zero batch items = refl
  gather-append (suc room) batch [] = refl
  gather-append (suc room) batch (item ∷ rest) =
      gather-append room (batch ++ item ∷ []) rest ∙ append_assoc batch (item ∷ []) rest

  gather-length :
      (room : ℕ) (batch items : List A)
      → let r = gather room batch items in
        (length r.0 ≤ length batch + room) × (length r.1 ≤ length items)
  unfolding gather
  gather-length zero batch items = (omega arith, omega arith)
  gather-length (suc room) batch [] = (omega arith, omega arith)
  gather-length (suc room) batch (item ∷ rest) =
      let (short, left) = gather-length room (batch ++ item ∷ []) rest in
      (omega (arith, short, length-append batch (item ∷ [])), omega (arith, left))

  -- The items of an idle consumer are all in the queue.
  order-idle :
      (s : System A) → IsFifo s → s.consumer ≡ idle → s.accepted ≡ s.delivered ++ s.shared.queue
  order-idle s fifo e = fifo.order ∙ ap (λ c. s.delivered ++ (in_hand c ++ s.shared.queue)) e

  push-IsFifo :
      (s : System A) (value : A)
      → IsFifo s
      → push_ready s.shared ≡ true
      → IsFifo (pushed value (push_body value s.shared) s)
  unfolding push_ready push_body
  push-IsFifo s value fifo ready = elim (Bool-cases s.shared.closed) [
    | inl shut ↦ rw shut (record { order = fifo.order; bounded = fifo.bounded; fits = fifo.fits })
    | inr opened ↦ rw opened (record {
      order =
          ap (λ t. t ++ value ∷ []) fifo.order
          ∙ append_assoc s.delivered (in_hand s.consumer ++ s.shared.queue) (value ∷ [])
          ∙ ap (λ t. s.delivered ++ t)
              (append_assoc (in_hand s.consumer) s.shared.queue (value ∷ []));
      bounded =
          let room : ltb (length s.shared.queue) s.shared.capacity ≡ true = ground arith in
          ground (arith, length-append s.shared.queue (value ∷ []));
      fits = fifo.fits;
    })
  ]

  pop-IsFifo :
      (s : System A) (items : List A)
      → IsFifo s
      → s.consumer ≡ idle
      → s.shared.queue ≡ items
      → IsFifo (popped (pop_front s.shared items) s)
  pop-IsFifo s [] fifo resting e = record {
    order = fifo.order;
    bounded = fifo.bounded;
    fits = fifo.fits;
  }
  pop-IsFifo s (x ∷ rest) fifo resting e = record {
    order =
        order-idle s fifo resting
        ∙ ap (λ t. s.delivered ++ t) e
        ∙ sym (append_assoc s.delivered (x ∷ []) rest)
        ∙ ap (λ c. (s.delivered ++ x ∷ []) ++ (in_hand c ++ rest)) (sym resting);
    bounded = omega (arith, fifo.bounded, ap length e);
    fits = fifo.fits;
  }

  start-IsFifo :
      (s : System A) (max_items : ℕ) (items : List A)
      → IsFifo s
      → s.consumer ≡ idle
      → 1 ≤ max_items
      → s.shared.queue ≡ items
      → IsFifo (batch_started max_items items s)
  start-IsFifo s max_items [] fifo resting some_items e = fifo
  start-IsFifo s max_items (x ∷ rest) fifo resting some_items e =
      let (short, left) = gather-length (max_items - 1) (x ∷ []) rest in
      record {
        order =
            order-idle s fifo resting
            ∙ ap (λ t. s.delivered ++ t) (e ∙ sym (gather-append (max_items - 1) (x ∷ []) rest));
        bounded = omega (arith, fifo.bounded, ap length e, left);
        fits = omega (arith, short, some_items);
      }

  woken-IsFifo :
      (s : System A) (max_items : ℕ) (batch : List A)
      → IsFifo s
      → s.consumer ≡ gathering max_items batch
      → IsFifo (gathered max_items (gather (max_items - length batch) batch s.shared.queue) s)
  woken-IsFifo s max_items batch fifo busy =
      let (short, left) = gather-length (max_items - length batch) batch s.shared.queue in
      record {
        order =
            fifo.order
            ∙ ap (λ c. s.delivered ++ (in_hand c ++ s.shared.queue)) busy
            ∙ ap (λ t. s.delivered ++ t)
                (sym (gather-append (max_items - length batch) batch s.shared.queue));
        bounded = omega (arith, fifo.bounded, left);
        fits = omega (arith, short, subst Fits busy fifo.fits);
      }

  Step-IsFifo : (s t : System A) → Step s t → IsFifo s → IsFifo t
  unfolding pop_body close_body
  Step-IsFifo s _ (push value ready) fifo = push-IsFifo s value fifo ready
  Step-IsFifo s _ (pop resting ready) fifo = pop-IsFifo s s.shared.queue fifo resting refl
  Step-IsFifo s _ (batch_start max_items resting some_items ready) fifo =
      start-IsFifo s max_items s.shared.queue fifo resting some_items refl
  Step-IsFifo s _ (batch_woken max_items batch busy ready) fifo =
      woken-IsFifo s max_items batch fifo busy
  Step-IsFifo s _ (batch_return max_items batch busy) fifo = record {
    order = fifo.order ∙ sym (append_assoc s.delivered (in_hand s.consumer) s.shared.queue);
    bounded = fifo.bounded;
    fits = tt;
  }
  Step-IsFifo s _ close fifo = record {
    order = fifo.order;
    bounded = fifo.bounded;
    fits = fifo.fits;
  }

  -- After any interleaving of pushes, pops, batches and closes, from a queue that was empty and an
  -- idle consumer: the items that were accepted are those delivered, those of the batch in
  -- progress, and those in the queue, in this order; the queue holds at most as many items as its
  -- capacity, and the batch in progress at most as many as were asked for.
  pub Steps-IsFifo : (s t : System A) → IsInitial s → Steps s t → IsFifo t
  Steps-IsFifo s _ initial here = record {
    order =
        initial.nothing_accepted
        ∙ sym (
            ap (λ t. t ++ (in_hand s.consumer ++ s.shared.queue)) initial.nothing_delivered
            ∙ ap (λ c. in_hand c ++ s.shared.queue) initial.resting
            ∙ initial.empty);
    bounded = omega (arith, ap length initial.empty);
    fits = subst Fits (sym initial.resting) tt;
  }
  Steps-IsFifo s t initial (more {t = mid} before step) =
      Step-IsFifo mid t step (Steps-IsFifo s mid initial before)
