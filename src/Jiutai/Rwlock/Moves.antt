-- ===== src/Jiutai/Rwlock/Moves.antt =====
-- jiutai/jf_rwlock.c: the counters and events in every state that threads reach.
use jiufeng.Prelude.{
  ℕ, ◌+◌, ◌^◌, ◌≤◌, ◌<◌, ◌≡◌, ◌⊎◌, inl, inr, refl, ◌∙◌, arith, true, false, ◌==◌, if◌then◌else◌,
  some, List, get_elem?, set, length, length-replicate, length-set, Bool-cases,
}
use jiufeng.Jiutai.Rwlock.{
  Rwlock, init_rwlock, may_read, may_write, try_read, try_write, fail_read, fail_write, signal_next,
  release_readlock, release_writelock, Phase, idle, Move, reads, read_wakes, read_fails, read_ends,
  writes, write_wakes, write_fails, write_ends, Reached, fresh, moved,
}
use jiufeng.Jiutai.Rwlock.Tally.{
  tally, tally-set, tally_le_length, tally_idle, reads_now, writes_now, waits_to_read,
  waits_to_write, woken_to_read, woken_to_write,
}

-- The counters against the numbers of threads, given as numbers; `signalled` is that a free lock that
-- somebody waits for has an event set or a thread awake: for a writer when one waits, else a reader.
abbrev pub IsCounted : Rwlock → (r w wr ww ar aw : ℕ) → Type 0
IsCounted l r w wr ww ar aw =
    (l.write_priority ≡ true)
    × (l.read_count ≡ r)
    × (l.write_count ≡ w)
    × (l.read_waiting ≡ wr)
    × (l.write_waiting ≡ ww)
    × (w + (if r == 0 then 0 else 1) ≤ 1)
    × (0
        < r
          + w
          + (if ww == 0
              then (if wr == 0 then 1 else ar) + (if l.read_green then 1 else 0)
              else aw + (if l.write_green then 1 else 0)))

abbrev pub IsRwlock : Rwlock → List Phase → Type 0
IsRwlock l ts =
    IsCounted l (tally reads_now ts) (tally writes_now ts) (tally waits_to_read ts)
      (tally waits_to_write ts) (tally woken_to_read ts) (tally woken_to_write ts)

-- One move, on the numbers of threads before and after it.
module _ (r w wr ww ar aw r' w' wr' ww' ar' aw' : ℕ) where
  abbrev pub Changes : Phase → Phase → Type 0
  Changes a b =
      (r' + reads_now a ≡ r + reads_now b)
      × (w' + writes_now a ≡ w + writes_now b)
      × (wr' + waits_to_read a ≡ wr + waits_to_read b)
      × (ww' + waits_to_write a ≡ ww + waits_to_write b)
      × (ar' + woken_to_read a ≡ ar + woken_to_read b)
      × (aw' + woken_to_write a ≡ aw + woken_to_write b)

  abbrev pub Small : Type 0
  Small =
      (r' < 2 ^ 32)
      × (w' < 2 ^ 32)
      × (wr' < 2 ^ 32)
      × (ww' < 2 ^ 32)
      × (wr < 2 ^ 32)
      × (ww < 2 ^ 32)
      × (r < 2 ^ 32)

  pub Move-IsCounted :
      (l l' : Rwlock) (a b : Phase)
      → Move a l b l'
      → IsCounted l r w wr ww ar aw
      → Changes a b
      → Small
      → IsCounted l' r' w' wr' ww' ar' aw'
  unfolding try_read try_write fail_read fail_write signal_next release_readlock release_writelock
  Move-IsCounted l l' a b (reads true _) v c s = elim (Bool-cases (may_read l)) [
    | inl e ↦ rw e (ground (arith, v, c, s, e))
    | inr e ↦ rw e (ground (arith, v, c, s, e))
  ]
  Move-IsCounted l l' a b (reads false _) v c s = elim (Bool-cases (may_read l)) [
    | inl e ↦ rw e (ground (arith, v, c, s, e))
    | inr e ↦ rw e (ground (arith, v, c, s, e))
  ]
  Move-IsCounted l l' a b (read_wakes _ g) v c s = ground (arith, v, c, s, g)
  Move-IsCounted l l' a b (read_fails _) v c s = ground (arith, v, c, s)
  Move-IsCounted l l' a b (read_ends _) v c s = ground (arith, v, c, s)
  Move-IsCounted l l' a b (writes true _) v c s = elim (Bool-cases (may_write l)) [
    | inl e ↦ rw e (ground (arith, v, c, s, e))
    | inr e ↦ rw e (ground (arith, v, c, s, e))
  ]
  Move-IsCounted l l' a b (writes false _) v c s = elim (Bool-cases (may_write l)) [
    | inl e ↦ rw e (ground (arith, v, c, s, e))
    | inr e ↦ rw e (ground (arith, v, c, s, e))
  ]
  Move-IsCounted l l' a b (write_wakes _ g) v c s = ground (arith, v, c, s, g)
  Move-IsCounted l l' a b (write_fails _) v c s = ground (arith, v, c, s)
  Move-IsCounted l l' a b (write_ends _) v c s = ground (arith, v, c, s)

reads_now_le : (a : Phase) → reads_now a ≤ 1
reads_now_le a = ground arith

writes_now_le : (a : Phase) → writes_now a ≤ 1
writes_now_le a = ground arith

waits_to_read_le : (a : Phase) → waits_to_read a ≤ 1
waits_to_read_le a = ground arith

waits_to_write_le : (a : Phase) → waits_to_write a ≤ 1
waits_to_write_le a = ground arith

module _ (n : ℕ) (small : n < 2 ^ 32) where
  tally_small :
      (w : Phase → ℕ)
      → ((a : Phase) → w a ≤ 1)
      → (ts : List Phase) → length ts ≡ n
      → tally w ts < 2 ^ 32
  tally_small w h ts e = omega (arith, tally_le_length w h ts, small, e)

  moved-IsRwlock :
      (l l' : Rwlock) (ts : List Phase) (i : ℕ) (a b : Phase)
      → IsRwlock l ts
      → length ts ≡ n
      → get_elem? ts i ≡ some a
      → Move a l b l'
      → IsRwlock l' (set ts i b)
  moved-IsRwlock l l' ts i a b v e h m =
      let us = set ts i b in
      let f = length-set ts i b ∙ e in
      Move-IsCounted (tally reads_now ts) (tally writes_now ts) (tally waits_to_read ts)
        (tally waits_to_write ts) (tally woken_to_read ts) (tally woken_to_write ts)
        (tally reads_now us) (tally writes_now us) (tally waits_to_read us)
        (tally waits_to_write us) (tally woken_to_read us) (tally woken_to_write us) l l' a b m v
        (
          tally-set reads_now ts i a b h,
          tally-set writes_now ts i a b h,
          tally-set waits_to_read ts i a b h,
          tally-set waits_to_write ts i a b h,
          tally-set woken_to_read ts i a b h,
          tally-set woken_to_write ts i a b h,
        )
        (
          tally_small reads_now reads_now_le us f,
          tally_small writes_now writes_now_le us f,
          tally_small waits_to_read waits_to_read_le us f,
          tally_small waits_to_write waits_to_write_le us f,
          tally_small waits_to_read waits_to_read_le ts e,
          tally_small waits_to_write waits_to_write_le ts e,
          tally_small reads_now reads_now_le ts e,
        )

  pub Reached-IsRwlock :
      (l : Rwlock) (ts : List Phase) → Reached n l ts → IsRwlock l ts × (length ts ≡ n)
  unfolding init_rwlock
  Reached-IsRwlock l ts fresh = ground (
    arith,
    tally_idle reads_now refl n,
    tally_idle writes_now refl n,
    tally_idle waits_to_read refl n,
    tally_idle waits_to_write refl n,
    tally_idle woken_to_read refl n,
    tally_idle woken_to_write refl n,
    length-replicate n idle,
  )
  Reached-IsRwlock l ts (moved {l = k} {ts = us} i a b r h m) =
      let (v, e) = Reached-IsRwlock k us r in
      (moved-IsRwlock k l us i a b v e h m, length-set us i b ∙ e)

  -- In every state that fewer than 2^32 threads reach by the steps of the code, one thread at most
  -- holds the lock for writing, and then none for reading; and the four counters are the numbers of
  -- threads that read, write, wait to read and wait to write.
  pub Reached-alone :
      (l : Rwlock) (ts : List Phase)
      → Reached n l ts
      → ((tally writes_now ts ≡ 0) ⊎ ((tally writes_now ts ≡ 1) × (tally reads_now ts ≡ 0)))
        × (l.read_count ≡ tally reads_now ts)
        × (l.write_count ≡ tally writes_now ts)
        × (l.read_waiting ≡ tally waits_to_read ts)
        × (l.write_waiting ≡ tally waits_to_write ts)
  Reached-alone l ts r =
      let (p, x, y, z, u, al, si) = (Reached-IsRwlock l ts r).0 in (ground (arith, al), x, y, z, u)
