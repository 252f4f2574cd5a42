-- ===== src/Dispatcher/PrioQueue.antt =====
-- dispatcher/common/prioqueue.c: the bounded message queue of the dispatcher.
-- Every function but the two helpers on counters runs under the mutex of the queue, so a call is one
-- step. The code of the call of jf_jiukun_allocMemory inside the queue is an argument.
pub mod Bounds
pub mod Counters
mod Tests
use jiufeng.Prelude.{
  ℕ, ◌+◌, ◌%◌, ◌^◌, Bool, true, false, ◌&&◌, Option, none, some, List, [], ◌∷◌, ltb, ◌==◌,
  if◌then◌else◌,
}
use jiufeng.Prelude.Word.{inc_u32, dec_u32}
use jiufeng.Jiutai.Err.{Err, Code}
use jiufeng.Jiutai.Queue

-- `dispatcher_msg_t`: the priority in the header of its message, and the message.
pub record Msg : Type 0 where
  pub prio : ℕ
  pub body : ℕ

-- JF_MESSAGING_PRIO_LOW, JF_MESSAGING_PRIO_MID and JF_MESSAGING_PRIO_HIGH
abbrev pub prio_low : ℕ
prio_low = 0

abbrev pub prio_mid : ℕ
prio_mid = 1

abbrev pub prio_high : ℕ
prio_high = 2

-- `internal_dispatcher_prio_queue_t`, less its mutex; the counters are `u32`.
pub record PrioQueue : Type 0 where
  pub msgs : List Msg
  pub num_high : ℕ
  pub num_mid : ℕ
  pub num_low : ℕ
  pub max_num : ℕ

-- `_getNumOfMsgInDispatcherPrioQueue`
pub get_num_of_msg : PrioQueue → ℕ
get_num_of_msg q = ((q.num_high + q.num_mid) % 2 ^ 32 + q.num_low) % 2 ^ 32

-- `_incNumOfMsgInDispatcherPrioQueue`
pub inc_num_of_msg : PrioQueue → ℕ → PrioQueue
inc_num_of_msg q prio =
    if prio == prio_high
    then record q { num_high = inc_u32 q.num_high }
    else if prio == prio_mid
    then record q { num_mid = inc_u32 q.num_mid }
    else record q { num_low = inc_u32 q.num_low }

-- `_decNumOfMsgInDispatcherPrioQueue`
pub dec_num_of_msg : PrioQueue → ℕ → PrioQueue
dec_num_of_msg q prio =
    if prio == prio_high
    then record q { num_high = dec_u32 q.num_high }
    else if prio == prio_mid
    then record q { num_mid = dec_u32 q.num_mid }
    else record q { num_low = dec_u32 q.num_low }

-- The tests of `_canDispatcherMsgBeQueued` on a full queue that set `bDequeue`.
pub can_evict : PrioQueue → ℕ → Bool
can_evict q prio =
    if prio == prio_high
    then true
    else if prio == prio_mid
    then q.num_high == 0
    else (q.num_high == 0) && (q.num_mid == 0)

-- `if (bDequeue) …` in `_canDispatcherMsgBeQueued`. `none` is the fault of `freeDispatcherMsg` on the
-- NULL that an empty queue gives.
pub evict : PrioQueue → ℕ → Option (Bool × PrioQueue)
unfolding dec_num_of_msg Queue.dequeue
evict q prio =
    let (oldest, rest) = Queue.dequeue q.msgs in
    elim oldest [
      | none ↦ none
      | some _ ↦ some (true, dec_num_of_msg (record q { msgs = rest }) prio)
    ]

-- `_canDispatcherMsgBeQueued`: the answer and the queue, from which the oldest message may be gone.
pub can_msg_be_queued : PrioQueue → ℕ → Option (Bool × PrioQueue)
unfolding get_num_of_msg can_evict evict
can_msg_be_queued q prio =
    if ltb (get_num_of_msg q) q.max_num
    then some (true, q)
    else if can_evict q prio
    then evict q prio
    else some (false, q)

-- `createDispatcherPrioQueue`, when its allocations do not fail.
pub create_prio_queue : ℕ → PrioQueue
create_prio_queue max_num = record {
  msgs = [];
  num_high = 0;
  num_mid = 0;
  num_low = 0;
  max_num = max_num;
}

-- `isEmptyDispatcherPrioQueue`
pub is_empty_prio_queue : PrioQueue → Bool
unfolding Queue.is_empty
is_empty_prio_queue q = Queue.is_empty q.msgs

-- The rest of `enqueueDispatcherPrioQueue` behind the answer.
pub enqueue_if : Err → Bool → PrioQueue → Msg → Err × PrioQueue
unfolding inc_num_of_msg Queue.enqueue
enqueue_if alloc true q m =
    let (e, msgs) = Queue.enqueue alloc q.msgs m in
    let q' = record q { msgs = msgs } in
    elim e [
      | Err.no_error ↦ (Err.no_error, inc_num_of_msg q' m.prio)
      | Err.failed c ↦ (Err.failed c, q')
    ]
enqueue_if alloc false q m = (Err.failed Code.msg_queue_full, q)

-- `enqueueDispatcherPrioQueue`
pub enqueue_prio_queue : Err → PrioQueue → Msg → Option (Err × PrioQueue)
unfolding can_msg_be_queued enqueue_if
enqueue_prio_queue alloc q m = elim (can_msg_be_queued q m.prio) [
  | none ↦ none
  | some (can, q') ↦ some (enqueue_if alloc can q' m)
]

-- `dequeueDispatcherPrioQueue`
pub dequeue_prio_queue : PrioQueue → Option Msg × PrioQueue
unfolding dec_num_of_msg Queue.dequeue
dequeue_prio_queue q =
    let (m, rest) = Queue.dequeue q.msgs in
    let q' = record q { msgs = rest } in
    elim m [ none ↦ (none, q') | some m' ↦ (some m', dec_num_of_msg q' m'.prio) ]

-- `peekDispatcherPrioQueue`
pub peek_prio_queue : PrioQueue → Option Msg
unfolding Queue.peek
peek_prio_queue q = Queue.peek q.msgs
