-- ===== src/Queue/Tests.antt =====
-- A producer and a consumer that takes a batch of three, and the theorems on their run.
use log_bridge.Base.{ℕ, ◌≡◌, refl, arith, true, false, [], ◌∷◌, err, invalid_argument}
use log_bridge.Queue.Operations.{
  new_queue, push_ready, push_body, pop_ready, pop_body, gather, check_batch, close_body, size,
}
use log_bridge.Queue.System.{
  idle, gathering, System, push, batch_start, batch_woken, batch_return, Steps, here, more,
  IsInitial,
}
use log_bridge.Queue.Order.{IsFifo, Steps-IsFifo}

abbrev begin : System ℕ
begin = record {
  shared = record { capacity = 2; queue = []; closed = false };
  consumer = idle;
  accepted = [];
  delivered = [];
}

-- All that the steps compute with.
methods : Unit {0}
unfolding new_queue push_ready push_body pop_ready pop_body gather check_batch close_body size
methods = tt

limits :
    (new_queue {A = ℕ} 0 ≡ err invalid_argument)
    × (check_batch 0 false ≡ err invalid_argument)
    × (check_batch 3 true ≡ err invalid_argument)
    × (push_ready {A = ℕ} (record { capacity = 1; queue = 5 ∷ []; closed = false }) ≡ false)
unfolding methods
limits = (refl, refl, refl, refl)

-- Both pushes fill the queue, the batch takes them and waits, and a third push completes it.
abbrev waiting : System ℕ
waiting = record {
  shared = record { capacity = 2; queue = []; closed = false };
  consumer = gathering 3 (1 ∷ 2 ∷ []);
  accepted = 1 ∷ 2 ∷ [];
  delivered = [];
}

abbrev done : System ℕ
done = record {
  shared = record { capacity = 2; queue = []; closed = false };
  consumer = idle;
  accepted = 1 ∷ 2 ∷ 3 ∷ [];
  delivered = 1 ∷ 2 ∷ 3 ∷ [];
}

to_waiting : Steps begin waiting
unfolding methods
to_waiting =
    more (more (more here (push 1 refl)) (push 2 refl)) (batch_start 3 refl (omega arith) refl)

to_done : Steps begin done
unfolding methods
to_done =
    more (more (more to_waiting (push 3 refl)) (batch_woken 3 (1 ∷ 2 ∷ []) refl refl))
      (batch_return 3 (1 ∷ 2 ∷ 3 ∷ []) refl)

begin-IsInitial : IsInitial begin
begin-IsInitial = record {
  empty = refl;
  resting = refl;
  nothing_accepted = refl;
  nothing_delivered = refl;
}

Steps-IsFifo_example : IsFifo done
Steps-IsFifo_example = Steps-IsFifo begin done begin-IsInitial to_done

abbrev shut : System ℕ
shut = record done { shared = record (done.shared) { closed = true } }

-- The queue is closed: the push returns false.
after_close : Steps shut shut
unfolding methods
after_close = more here (push 4 refl)
