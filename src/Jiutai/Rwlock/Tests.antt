-- ===== src/Jiutai/Rwlock/Tests.antt =====
-- jiutai/jf_rwlock.c: runs and examples of the lock.
use jiufeng.Prelude.{◌≡◌, ◌⊎◌, refl, arith, true, false, [], ◌∷◌}
use jiufeng.Jiutai.Rwlock.{
  Rwlock, init_rwlock, try_read, try_write, release_writelock, idle, writing, read_asleep, reads,
  writes, write_ends, Reached, fresh, moved,
}
use jiufeng.Jiutai.Rwlock.Moves.{Reached-alone}
use jiufeng.Jiutai.Rwlock.Served.{Served, Reached-Served}
use jiufeng.Jiutai.Rwlock.Tally.{tally, reads_now, writes_now}

-- A writer has the lock, a reader waits, the writer releases it.
abbrev with_writer : Rwlock
with_writer = (try_write false init_rwlock).1

abbrev with_waiter : Rwlock
with_waiter = (try_read false with_writer).1

abbrev left_free : Rwlock
left_free = release_writelock with_waiter

one_writes : Reached 2 with_writer (writing ∷ idle ∷ [])
unfolding try_write init_rwlock
one_writes = moved 0 idle writing fresh refl (writes false init_rwlock)

one_waits : Reached 2 with_waiter (writing ∷ read_asleep ∷ [])
unfolding try_read try_write init_rwlock
one_waits = moved 1 idle read_asleep one_writes refl (reads false with_writer)

one_released : Reached 2 left_free (idle ∷ read_asleep ∷ [])
one_released = moved 0 writing idle one_waits refl (write_ends with_waiter)

-- The release sets the event of the readers.
event_set : Rwlock.read_green left_free ≡ true
unfolding release_writelock try_read try_write init_rwlock
event_set = refl

Reached-alone_example :
    ((tally writes_now (writing ∷ read_asleep ∷ []) ≡ 0)
      ⊎ ((tally writes_now (writing ∷ read_asleep ∷ []) ≡ 1)
          × (tally reads_now (writing ∷ read_asleep ∷ []) ≡ 0)))
    × (Rwlock.read_count with_waiter ≡ 0)
    × (Rwlock.write_count with_waiter ≡ 1)
    × (Rwlock.read_waiting with_waiter ≡ 1)
    × (Rwlock.write_waiting with_waiter ≡ 0)
Reached-alone_example =
    Reached-alone 2 (omega arith) with_waiter (writing ∷ read_asleep ∷ []) one_waits

Reached-Served_example : Served left_free (idle ∷ read_asleep ∷ [])
Reached-Served_example =
    Reached-Served 2 (omega arith) left_free (idle ∷ read_asleep ∷ []) one_released refl refl
      (omega arith)
