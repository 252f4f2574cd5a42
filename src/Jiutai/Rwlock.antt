-- ===== src/Jiutai/Rwlock.antt =====
-- jiutai/jf_rwlock.c: the lock of readers and writers as it is built on events (WINDOWS).
-- A critical section is one step on the counters. The events reset themselves when a wait on them
-- ends; a thread is the phase that it is in.
pub mod Tally
pub mod Moves
pub mod Served
mod Tests
use jiufeng.Prelude.{
  ℕ, zero, suc, ◌+◌, ◌-◌, ◌%◌, ◌^◌, ◌≡◌, Bool, true, false, not, ◌&&◌, ◌==◌, ◌||◌, if◌then◌else◌,
  Option, some, List, get_elem?, set, replicate,
}
use jiufeng.Prelude.Word.{inc_u32, dec_u32}

-- `jf_rwlock_t`
pub record Rwlock : Type 0 where
  pub write_priority : Bool
  pub read_count : ℕ
  pub read_waiting : ℕ
  pub write_count : ℕ
  pub write_waiting : ℕ
  pub read_green : Bool
  pub write_green : Bool

-- `jf_rwlock_init`
unfoldable pub init_rwlock : Rwlock
init_rwlock = record {
  write_priority = true;
  read_count = 0;
  read_waiting = 0;
  write_count = 0;
  write_waiting = 0;
  read_green = true;
  write_green = true;
}

-- The conditions of `_acquireSyncReadlock` and `_acquireSyncWritelock`.
abbrev pub may_read : Rwlock → Bool
may_read l = (l.write_count == 0) && (not l.write_priority || (l.write_waiting == 0))

abbrev pub may_write : Rwlock → Bool
may_write l =
    (l.read_count == 0) && (l.write_count == 0) && (l.write_priority || (l.read_waiting == 0))

-- The critical section of `_acquireSyncReadlock`, with `wait` before and after it.
pub try_read : Bool → Rwlock → Bool × Rwlock
try_read wait l =
    if may_read l
    then (
      false,
      record l {
        read_waiting = if wait then dec_u32 l.read_waiting else l.read_waiting;
        read_count = inc_u32 l.read_count;
      },
    )
    else (
      true,
      record l {
        read_waiting = if wait then l.read_waiting else inc_u32 l.read_waiting;
        read_green = false;
      },
    )

-- The critical section of `_acquireSyncWritelock`.
pub try_write : Bool → Rwlock → Bool × Rwlock
try_write wait l =
    if may_write l
    then (
      false,
      record l {
        write_waiting = if wait then dec_u32 l.write_waiting else l.write_waiting;
        write_count = inc_u32 l.write_count;
      },
    )
    else (
      true,
      record l {
        write_waiting = if wait then l.write_waiting else inc_u32 l.write_waiting;
        write_green = false;
      },
    )

-- What both do when WaitForSingleObject does not return WAIT_OBJECT_0.
pub fail_read : Rwlock → Rwlock
fail_read l = record l {
  read_waiting = dec_u32 l.read_waiting;
  read_green = true;
  write_green = true;
}

pub fail_write : Rwlock → Rwlock
fail_write l = record l {
  write_waiting = dec_u32 l.write_waiting;
  read_green = true;
  write_green = true;
}

-- The events that the two functions of release set.
pub signal_next : Rwlock → Rwlock
signal_next l =
    if l.write_priority
    then (if not (l.write_waiting == 0)
        then record l { write_green = true }
        else if not (l.read_waiting == 0)
        then record l { read_green = true }
        else l)
    else if not (l.read_waiting == 0)
    then record l { read_green = true }
    else if not (l.write_waiting == 0)
    then record l { write_green = true }
    else l

-- `jf_rwlock_releaseReadlock`
pub release_readlock : Rwlock → Rwlock
unfolding signal_next
release_readlock l = signal_next (record l { read_count = dec_u32 l.read_count })

-- `jf_rwlock_releaseWritelock`
pub release_writelock : Rwlock → Rwlock
unfolding signal_next
release_writelock l = signal_next (record l { write_count = dec_u32 l.write_count })

-- Where a thread is: without the lock, with it, or in the loop of an acquisition with `wait` set, at
-- the wait for the event or behind it.
pub data Phase : Type 0 where
  idle : Phase
  reading : Phase
  writing : Phase
  read_asleep : Phase
  read_awake : Phase
  write_asleep : Phase
  write_awake : Phase

-- Where the critical sections are entered with a value of `wait`, and where they leave with it.
abbrev pub read_from : Bool → Phase
read_from wait = if wait then read_awake else idle

abbrev pub read_to : Bool → Phase
read_to wait = if wait then read_asleep else reading

abbrev pub write_from : Bool → Phase
write_from wait = if wait then write_awake else idle

abbrev pub write_to : Bool → Phase
write_to wait = if wait then write_asleep else writing

-- The steps of a thread. A wait ends by its event, which is reset, or fails at any time.
pub data Move : Phase → Rwlock → Phase → Rwlock → Type 0 where
  reads :
      (wait : Bool) (l : Rwlock)
      → Move (read_from wait) l (read_to ((try_read wait l).0)) ((try_read wait l).1)
  read_wakes :
      (l : Rwlock)
      → l.read_green ≡ true
      → Move read_asleep l read_awake (record l { read_green = false })
  read_fails : (l : Rwlock) → Move read_asleep l idle (fail_read l)
  read_ends : (l : Rwlock) → Move reading l idle (release_readlock l)
  writes :
      (wait : Bool) (l : Rwlock)
      → Move (write_from wait) l (write_to ((try_write wait l).0)) ((try_write wait l).1)
  write_wakes :
      (l : Rwlock)
      → l.write_green ≡ true
      → Move write_asleep l write_awake (record l { write_green = false })
  write_fails : (l : Rwlock) → Move write_asleep l idle (fail_write l)
  write_ends : (l : Rwlock) → Move writing l idle (release_writelock l)

-- The states that `n` threads reach, one step of one thread after the other.
pub data Reached (n : ℕ) : Rwlock → List Phase → Type 0 where
  fresh : Reached n init_rwlock (replicate n idle)
  moved :
      {l l' : Rwlock} {ts : List Phase} (i : ℕ) (a b : Phase)
      → Reached n l ts
      → get_elem? ts i ≡ some a
      → Move a l b l'
      → Reached n l' (set ts i b)
