-- ===== src/Dispatcher/PrioQueue/Bounds.antt =====
-- dispatcher/common/prioqueue.c: the counters add up to the messages held, and the queue is bounded.
use jiufeng.Prelude.{
  ℕ, ◌+◌, ◌-◌, ◌%◌, ◌^◌, ◌≤◌, ◌<◌, ◌≡◌, refl, ap, ◌∙◌, Bool-cases, inl, inr, ltb→lt, Bool, true,
  false, Option, none, some, List, [], ◌∷◌, ◌++◌, arith, length, length-append, drop, ltb,
  if◌then◌else◌,
}
use jiufeng.Jiutai.Err.{Err, Code}
use jiufeng.Jiutai.Queue
use jiufeng.Dispatcher.PrioQueue.{
  Msg, PrioQueue, get_num_of_msg, can_evict, evict, can_msg_be_queued, create_prio_queue,
  enqueue_if, enqueue_prio_queue, dequeue_prio_queue, inc_num_of_msg, dec_num_of_msg,
}

-- The queue is within its limit, which a `u32` holds, and the counters add up to its length.
pub record IsValid (q : PrioQueue) : Type 0 where
  pub limited : q.max_num < 2 ^ 32
  pub bounded : length q.msgs ≤ q.max_num
  pub counted : get_num_of_msg q ≡ length q.msgs
  pub room : 0 < q.max_num

num-inc :
    (q : PrioQueue) (p : ℕ) → get_num_of_msg (inc_num_of_msg q p) ≡ (get_num_of_msg q + 1) % 2 ^ 32
unfolding get_num_of_msg inc_num_of_msg
num-inc q p = ground arith

num-dec :
    (q : PrioQueue) (p : ℕ)
    → get_num_of_msg (dec_num_of_msg q p) ≡ (get_num_of_msg q + 2 ^ 32 - 1) % 2 ^ 32
unfolding get_num_of_msg dec_num_of_msg
num-dec q p = ground arith

-- What an enqueue does to a bounded queue: `full` when the message may not push out the oldest.
abbrev pub bounded_enqueue : Err → ℕ → Bool → List Msg → Msg → Err × List Msg
bounded_enqueue alloc max_num evicts msgs m =
    if ltb (length msgs) max_num
    then Queue.enqueue alloc msgs m
    else if evicts
    then Queue.enqueue alloc (drop 1 msgs) m
    else (Err.failed Code.msg_queue_full, msgs)

msgs-inc :
    (q : PrioQueue) (p : ℕ)
    → ((inc_num_of_msg q p).msgs ≡ q.msgs) × ((inc_num_of_msg q p).max_num ≡ q.max_num)
unfolding inc_num_of_msg
msgs-inc q p = ground arith

msgs-dec :
    (q : PrioQueue) (p : ℕ)
    → ((dec_num_of_msg q p).msgs ≡ q.msgs) × ((dec_num_of_msg q p).max_num ≡ q.max_num)
unfolding dec_num_of_msg
msgs-dec q p = ground arith

enqueue_if-true :
    (alloc : Err) (q : PrioQueue) (m : Msg)
    → length q.msgs < q.max_num
    → q.max_num < 2 ^ 32
    → get_num_of_msg q ≡ length q.msgs
    → let r = enqueue_if alloc true q m in
      ((r.0, r.1.msgs) ≡ Queue.enqueue alloc q.msgs m) × IsValid r.1 × (r.1.max_num ≡ q.max_num)
unfolding enqueue_if
enqueue_if-true Err.no_error q m h k c =
    let q' = record q { msgs = q.msgs ++ (m ∷ []) } in
    let same : get_num_of_msg q' ≡ get_num_of_msg q = unfold get_num_of_msg in refl in
    ground (arith, same, msgs-inc q' m.prio, num-inc q' m.prio, length-append q.msgs (m ∷ []))
enqueue_if-true (Err.failed e) q m h k c = ground arith

-- What `_canDispatcherMsgBeQueued` leaves when it makes room.
evict_lem :
    (q : PrioQueue) (p : ℕ)
    → IsValid q
    → q.max_num ≤ length q.msgs
    → (q' : PrioQueue) × (evict q p ≡ some (true, q'))
      × (q'.msgs ≡ drop 1 q.msgs)
      × (q'.max_num ≡ q.max_num)
      × (get_num_of_msg q' ≡ length q'.msgs)
      × (length q'.msgs < q'.max_num)
unfolding evict
evict_lem q p v h = go q.msgs refl
  where
    go :
        (l : List Msg)
        → q.msgs ≡ l
        → (q' : PrioQueue) × (evict q p ≡ some (true, q'))
          × (q'.msgs ≡ drop 1 q.msgs)
          × (q'.max_num ≡ q.max_num)
          × (get_num_of_msg q' ≡ length q'.msgs)
          × (length q'.msgs < q'.max_num)
    go [] e = absurd (omega (arith, ap length e, v.room))
    go (x ∷ rest) e =
        let q1 = record q { msgs = rest } in
        let same : get_num_of_msg q1 ≡ get_num_of_msg q = unfold get_num_of_msg in refl in
        (
          dec_num_of_msg q1 p,
          ground arith,
          ground (arith, msgs-dec q1 p),
          ground (arith, msgs-dec q1 p),
          ground (arith, msgs-dec q1 p, num-dec q1 p, same),
          ground (arith, msgs-dec q1 p),
        )

pub enqueue_of_can :
    (alloc : Err) (q q' : PrioQueue) (m : Msg) (b : Bool)
    → can_msg_be_queued q m.prio ≡ some (b, q')
    → enqueue_prio_queue alloc q m ≡ some (enqueue_if alloc b q' m)
unfolding enqueue_prio_queue
enqueue_of_can alloc q q' m b h = rw (h, enqueue_prio_queue)

-- An enqueue on a valid queue does not fault. Its code and the messages it leaves are those of a
-- queue of at most `max_num` messages, in which a message finds room or pushes out the oldest one if
-- the counters allow it; and the queue stays valid.
pub enqueue_refines :
    (alloc : Err) (q : PrioQueue) (m : Msg)
    → IsValid q
    → (e : Err) × (q' : PrioQueue) × (enqueue_prio_queue alloc q m ≡ some (e, q'))
      × ((e, q'.msgs) ≡ bounded_enqueue alloc q.max_num (can_evict q m.prio) q.msgs m)
      × IsValid q'
      × (q'.max_num ≡ q.max_num)
unfolding can_msg_be_queued enqueue_if
enqueue_refines alloc q m v = elim (Bool-cases (ltb (length q.msgs) q.max_num)) [
  | inl room ↦
      let done = enqueue_if-true alloc q m (ltb→lt _ _ room) v.limited v.counted in
      let r = enqueue_if alloc true q m in
      (
        r.0,
        r.1,
        enqueue_of_can alloc q q m true (rw (v.counted, room)),
        rw room done.0,
        done.1,
        done.2,
      )
  | inr full ↦ elim (Bool-cases (can_evict q m.prio)) [
    | inl can ↦
        let (q1, e, msgs, max_num, counted, room) = evict_lem q m.prio v (ground arith) in
        let done = enqueue_if-true alloc q1 m room (ground (arith, v.limited)) counted in
        let r = enqueue_if alloc true q1 m in
        (
          r.0,
          r.1,
          enqueue_of_can alloc q q1 m true (rw (v.counted, full, can) e),
          rw (full, can, ← msgs) done.0,
          done.1,
          done.2 ∙ max_num,
        )
    | inr cannot ↦ (
      Err.failed Code.msg_queue_full,
      q,
      enqueue_of_can alloc q q m false (rw (v.counted, full, cannot)),
      rw (full, cannot),
      v,
      refl,
    )
  ]
]

-- A dequeue takes the oldest message, gives NULL on the empty queue, and keeps the queue valid.
pub dequeue_refines :
    (q : PrioQueue)
    → IsValid q
    → let r = dequeue_prio_queue q in
      ((r.0, r.1.msgs) ≡ Queue.dequeue q.msgs) × IsValid r.1 × (r.1.max_num ≡ q.max_num)
unfolding dequeue_prio_queue
dequeue_refines q v = go q.msgs refl
  where
    go :
        (l : List Msg)
        → q.msgs ≡ l
        → let r = dequeue_prio_queue q in
          ((r.0, r.1.msgs) ≡ Queue.dequeue q.msgs) × IsValid r.1 × (r.1.max_num ≡ q.max_num)
    go [] e =
        let q1 = record q { msgs = [] } in
        let same : get_num_of_msg q1 ≡ get_num_of_msg q = unfold get_num_of_msg in refl in
        ground (arith, same)
    go (x ∷ rest) e =
        let q1 = record q { msgs = rest } in
        let same : get_num_of_msg q1 ≡ get_num_of_msg q = unfold get_num_of_msg in refl in
        ground (arith, same, msgs-dec q1 x.prio, num-dec q1 x.prio)

-- What a client calls, with the code of the allocator in an enqueue.
pub data Op : Type 0 where
  put : Err → Msg → Op
  get : Op

-- The calls of a client in order; `none` is a fault.
unfoldable pub run : PrioQueue → List Op → Option PrioQueue
run q [] = some q
run q (put alloc m ∷ ops) = elim (enqueue_prio_queue alloc q m) [
  | none ↦ none
  | some (e, q') ↦ run q' ops
]
run q (get ∷ ops) = run (dequeue_prio_queue q).1 ops

create-IsValid :
    (max_num : ℕ) → 0 < max_num → max_num < 2 ^ 32 → IsValid (create_prio_queue max_num)
unfolding create_prio_queue get_num_of_msg
create-IsValid max_num h k = record { limited = k; bounded = omega arith; counted = refl; room = h }

run-IsValid :
    (q : PrioQueue) (ops : List Op)
    → IsValid q
    → (q' : PrioQueue) × (run q ops ≡ some q') × IsValid q' × (q'.max_num ≡ q.max_num)
unfolding run
run-IsValid q [] v = (q, refl, v, refl)
run-IsValid q (put alloc m ∷ ops) v =
    let (e, q1, done, same, v1, max_num) = enqueue_refines alloc q m v in
    let (q2, runs, v2, max_num2) = run-IsValid q1 ops v1 in
    (q2, rw (done, run) runs, v2, max_num2 ∙ max_num)
run-IsValid q (get ∷ ops) v =
    let done = dequeue_refines q v in
    let (q2, runs, v2, max_num2) = run-IsValid (dequeue_prio_queue q).1 ops done.1 in
    (q2, runs, v2, max_num2 ∙ done.2)

-- From a new queue with a positive limit no sequence of calls faults or leaves more messages than the
-- limit.
pub run_bounded :
    (max_num : ℕ) (ops : List Op)
    → 0 < max_num
    → max_num < 2 ^ 32
    → (q : PrioQueue) × (run (create_prio_queue max_num) ops ≡ some q) × (length q.msgs ≤ max_num)
unfolding create_prio_queue
run_bounded max_num ops h k =
    let (q, runs, v, same) =
      run-IsValid (create_prio_queue max_num) ops (create-IsValid max_num h k) in
    (q, runs, omega (arith, v.bounded, same))
