-- ===== src/Dispatcher/PrioQueue/Counters.antt =====
-- dispatcher/common/prioqueue.c: when the counters of the priorities are those of the messages held,
-- and when they are not.
use jiufeng.Prelude.{
  ℕ, ◌+◌, ◌^◌, ◌≤◌, ◌<◌, ◌≡◌, refl, ap, true, false, ◌||◌, some, List, [], ◌∷◌, ◌++◌, arith, length,
  ltb, lt→ltb, drop, sym, ◌∙◌, ◌==◌, if◌then◌else◌,
}
use jiufeng.Jiutai.Err.{Err}
use jiufeng.Dispatcher.PrioQueue.{
  Msg, PrioQueue, prio_mid, prio_high, prio_low, inc_num_of_msg, dec_num_of_msg, enqueue_prio_queue,
  dequeue_prio_queue, enqueue_if, can_evict, can_msg_be_queued, evict,
}
use jiufeng.Dispatcher.PrioQueue.Bounds.{IsValid, enqueue_of_can}

-- The messages of a priority. Every other than mid and high counts as low.
abbrev pub count_high : List Msg → ℕ
count_high [] = 0
count_high (m ∷ ms) = (if m.prio == prio_high then 1 else 0) + count_high ms

abbrev pub count_mid : List Msg → ℕ
count_mid [] = 0
count_mid (m ∷ ms) = (if m.prio == prio_mid then 1 else 0) + count_mid ms

abbrev pub count_low : List Msg → ℕ
count_low [] = 0
count_low (m ∷ ms) = (if (m.prio == prio_high) || (m.prio == prio_mid) then 0 else 1) + count_low ms

-- Each counter is the number of the messages of its priority.
pub record IsExact (q : PrioQueue) : Type 0 where
  pub high : q.num_high ≡ count_high q.msgs
  pub mid : q.num_mid ≡ count_mid q.msgs
  pub low : q.num_low ≡ count_low q.msgs

counts-append :
    (ms : List Msg) (m : Msg)
    → (count_high (ms ++ (m ∷ [])) ≡ count_high (m ∷ ms))
      × (count_mid (ms ++ (m ∷ [])) ≡ count_mid (m ∷ ms))
      × (count_low (ms ++ (m ∷ [])) ≡ count_low (m ∷ ms))
counts-append [] m = (refl, refl, refl)
counts-append (x ∷ ms) m = omega (arith, counts-append ms m)

counts_le :
    (ms : List Msg)
    → (count_high ms ≤ length ms) × (count_mid ms ≤ length ms) × (count_low ms ≤ length ms)
counts_le [] = omega arith
counts_le (x ∷ ms) = ground (arith, counts_le ms)

-- A dequeue from a valid queue keeps exact counters exact.
pub dequeue-IsExact : (q : PrioQueue) → IsValid q → IsExact q → IsExact (dequeue_prio_queue q).1
unfolding dequeue_prio_queue dec_num_of_msg
dequeue-IsExact q v x = go q.msgs refl
  where
    go : (l : List Msg) → q.msgs ≡ l → IsExact (dequeue_prio_queue q).1
    go [] e = ground arith
    go (m ∷ ms) e = ground (arith, counts_le ms)

-- With room an enqueue counts the message that it adds.
enqueue_room :
    (q : PrioQueue) (m : Msg)
    → IsValid q
    → length q.msgs < q.max_num
    → enqueue_prio_queue Err.no_error q m
      ≡ some (Err.no_error, inc_num_of_msg (record q { msgs = q.msgs ++ (m ∷ []) }) m.prio)
unfolding can_msg_be_queued enqueue_if
enqueue_room q m v h = enqueue_of_can Err.no_error q q m true (rw (v.counted, lt→ltb _ _ h))

-- An enqueue that finds room keeps exact counters exact.
pub enqueue-IsExact :
    (q : PrioQueue) (m : Msg)
    → IsValid q
    → IsExact q
    → length q.msgs < q.max_num
    → (q' : PrioQueue) × (enqueue_prio_queue Err.no_error q m ≡ some (Err.no_error, q'))
      × IsExact q'
unfolding inc_num_of_msg
enqueue-IsExact q m v x h = (
  inc_num_of_msg (record q { msgs = q.msgs ++ (m ∷ []) }) m.prio,
  enqueue_room q m v h,
  ground (arith, counts-append q.msgs m, counts_le q.msgs, v.limited),
)

inc-dec :
    (q : PrioQueue) (m : Msg) (p : ℕ)
    → q.num_high < 2 ^ 32
    → q.num_mid < 2 ^ 32
    → q.num_low < 2 ^ 32
    → let q' = dec_num_of_msg q p in
      inc_num_of_msg (record q' { msgs = q'.msgs ++ (m ∷ []) }) p
      ≡ record q { msgs = q.msgs ++ (m ∷ []) }
unfolding inc_num_of_msg dec_num_of_msg
inc-dec q m p h k l = ground arith

-- On a full queue with exact counters, an enqueue that pushes out the oldest message changes no
-- counter, whatever the priorities of the two messages.
pub enqueue_evicts :
    (q : PrioQueue) (m : Msg)
    → IsValid q
    → IsExact q
    → length q.msgs ≡ q.max_num
    → can_evict q m.prio ≡ true
    → enqueue_prio_queue Err.no_error q m
      ≡ some (Err.no_error, record q { msgs = drop 1 q.msgs ++ (m ∷ []) })
unfolding can_msg_be_queued enqueue_if evict
enqueue_evicts q m v x full can = go q.msgs refl
  where
    kept : ltb (length q.msgs) q.max_num ≡ false
    kept = ground arith

    go :
        (l : List Msg)
        → q.msgs ≡ l
        → enqueue_prio_queue Err.no_error q m
          ≡ some (Err.no_error, record q { msgs = drop 1 q.msgs ++ (m ∷ []) })
    go [] e = absurd (omega (arith, ap length e, v.room))
    go (y ∷ rest) e =
        let q1 = record q { msgs = rest } in
        let made : can_msg_be_queued q m.prio ≡ some (true, dec_num_of_msg q1 m.prio) =
          rw (v.counted, kept, can) (ground arith) in
        enqueue_of_can Err.no_error q _ m true made
        ∙ ap (λ r. some (Err.no_error, r))
            (inc-dec q1 m m.prio (omega (arith, counts_le q.msgs, v.limited))
                (omega (arith, counts_le q.msgs, v.limited))
                (omega (arith, counts_le q.msgs, v.limited))
              ∙ ap (λ l. record q { msgs = drop 1 l ++ (m ∷ []) }) (sym e))

-- So a high message that pushes out a low one is not counted as high, and one low message too many
-- stays counted.
pub evict_miscounts :
    (q : PrioQueue) (m x : Msg) (rest : List Msg)
    → IsValid q
    → IsExact q
    → length q.msgs ≡ q.max_num
    → q.msgs ≡ x ∷ rest
    → x.prio ≡ prio_low
    → m.prio ≡ prio_high
    → (q' : PrioQueue) × (enqueue_prio_queue Err.no_error q m ≡ some (Err.no_error, q'))
      × (count_high q'.msgs ≡ q'.num_high + 1)
      × (q'.num_low ≡ count_low q'.msgs + 1)
unfolding can_evict
evict_miscounts q m x rest v exact full e low high = (
  record q { msgs = drop 1 q.msgs ++ (m ∷ []) },
  enqueue_evicts q m v exact full (ground arith),
  ground (arith, counts-append rest m),
  ground (arith, counts-append rest m),
)
