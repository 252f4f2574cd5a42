-- ===== src/Dispatcher/PrioQueue/Tests.antt =====
-- Runs of dispatcher/common/prioqueue.c, and its theorems at concrete queues.
use jiufeng.Prelude.{ℕ, ◌+◌, ◌≤◌, ◌≡◌, refl, some, [], ◌∷◌, arith, length}
use jiufeng.Jiutai.Err.{Err, Code}
use jiufeng.Jiutai.Queue
use jiufeng.Dispatcher.PrioQueue.{
  Msg, PrioQueue, prio_low, prio_high, create_prio_queue, enqueue_prio_queue, dequeue_prio_queue,
  can_evict, get_num_of_msg,
}
use jiufeng.Dispatcher.PrioQueue.Bounds.{
  IsValid, bounded_enqueue, enqueue_refines, dequeue_refines, put, get, run, run_bounded,
}
use jiufeng.Dispatcher.PrioQueue.Counters.{IsExact, count_high, count_low, evict_miscounts}

abbrev msg : ℕ → ℕ → Msg
msg prio body = record { prio = prio; body = body }

-- Full, with one low message behind a limit of 1.
abbrev one_low : PrioQueue
one_low = record { msgs = msg prio_low 7 ∷ []; num_high = 0; num_mid = 0; num_low = 1; max_num = 1 }

abbrev two_of_three : PrioQueue
two_of_three = record {
  msgs = msg prio_low 7 ∷ msg prio_high 8 ∷ [];
  num_high = 1;
  num_mid = 0;
  num_low = 1;
  max_num = 3;
}

one_low-IsValid : IsValid one_low
unfolding get_num_of_msg
one_low-IsValid = omega arith

two_of_three-IsValid : IsValid two_of_three
unfolding get_num_of_msg
two_of_three-IsValid = omega arith

one_low-IsExact : IsExact one_low
one_low-IsExact = omega arith

two_of_three-IsExact : IsExact two_of_three
two_of_three-IsExact = omega arith

-- The low message takes the place of the high one that took the place of a low one.
low_pushes_out_high :
    run (create_prio_queue 1) (
      put Err.no_error (msg prio_low 1)
      ∷ put Err.no_error (msg prio_high 2)
      ∷ put Err.no_error (msg prio_low 3)
      ∷ [])
    ≡ some
        (record { msgs = msg prio_low 3 ∷ []; num_high = 0; num_mid = 0; num_low = 1; max_num = 1 })
unfolding run create_prio_queue enqueue_prio_queue
low_pushes_out_high = refl

enqueue_refines_example :
    (e : Err) × (q' : PrioQueue) × (enqueue_prio_queue
        (Err.failed Code.jiukun_out_of_memory)
        one_low
        (msg prio_high 8)
      ≡ some (e, q'))
    × ((e, q'.msgs)
        ≡ bounded_enqueue
            (Err.failed Code.jiukun_out_of_memory)
            1
            (can_evict one_low prio_high)
            one_low.msgs
            (msg prio_high 8))
    × IsValid q'
    × (q'.max_num ≡ 1)
enqueue_refines_example =
    enqueue_refines (Err.failed Code.jiukun_out_of_memory) one_low (msg prio_high 8) one_low-IsValid

dequeue_refines_example :
    let r = dequeue_prio_queue two_of_three in
    ((r.0, r.1.msgs) ≡ Queue.dequeue two_of_three.msgs) × IsValid r.1 × (r.1.max_num ≡ 3)
dequeue_refines_example = dequeue_refines two_of_three two_of_three-IsValid

run_bounded_example :
    (q : PrioQueue) × (run
        (create_prio_queue 1)
        (put Err.no_error (msg prio_low 7) ∷ get ∷ get ∷ [])
      ≡ some q)
    × (length q.msgs ≤ 1)
run_bounded_example =
    run_bounded 1 (put Err.no_error (msg prio_low 7) ∷ get ∷ get ∷ []) (omega arith) (omega arith)

evict_miscounts_example :
    (q' : PrioQueue) × (enqueue_prio_queue Err.no_error one_low (msg prio_high 8)
      ≡ some (Err.no_error, q'))
    × (count_high q'.msgs ≡ q'.num_high + 1)
    × (q'.num_low ≡ count_low q'.msgs + 1)
evict_miscounts_example =
    evict_miscounts one_low (msg prio_high 8) (msg prio_low 7) [] one_low-IsValid one_low-IsExact
      refl refl refl refl
