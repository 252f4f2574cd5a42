-- ===== src/Jiutai/Rwlock/Tally.antt =====
-- jiutai/jf_rwlock.c: threads counted by their phases.
use jiufeng.Prelude.{
  ℕ, zero, suc, ◌+◌, ◌≤◌, ◌≡◌, refl, ap, arith, some, List, [], ◌∷◌, get_elem?, set, replicate,
  length, some_injective,
}
use jiufeng.Jiutai.Rwlock.{
  Phase, idle, reading, writing, read_asleep, read_awake, write_asleep, write_awake,
}

-- The sum of a weight over the threads.
abbrev pub tally : (Phase → ℕ) → List Phase → ℕ
tally w [] = 0
tally w (a ∷ ts) = w a + tally w ts

-- One thread goes from `a` to `b`.
pub tally-set :
    (w : Phase → ℕ) (ts : List Phase) (i : ℕ) (a b : Phase)
    → get_elem? ts i ≡ some a
    → tally w (set ts i b) + w a ≡ tally w ts + w b
tally-set w [] i a b h = absurd (ground (arith, h))
tally-set w (c ∷ ts) zero a b h = let e = ap w (some_injective c a h) in omega (arith, e)
tally-set w (c ∷ ts) (suc i) a b h = omega (arith, tally-set w ts i a b h)

pub tally_le_length :
    (w : Phase → ℕ) → ((a : Phase) → w a ≤ 1) → (ts : List Phase) → tally w ts ≤ length ts
tally_le_length w h [] = omega arith
tally_le_length w h (a ∷ ts) = omega (arith, h a, tally_le_length w h ts)

pub tally_idle : (w : Phase → ℕ) → w idle ≡ 0 → (n : ℕ) → tally w (replicate n idle) ≡ 0
tally_idle w h zero = refl
tally_idle w h (suc n) = omega (arith, h, tally_idle w h n)

-- The weights: who holds the lock, who is counted as waiting, and who has been woken.
abbrev pub reads_now : Phase → ℕ
reads_now reading = 1
reads_now _ = 0

abbrev pub writes_now : Phase → ℕ
writes_now writing = 1
writes_now _ = 0

abbrev pub waits_to_read : Phase → ℕ
waits_to_read read_asleep = 1
waits_to_read read_awake = 1
waits_to_read _ = 0

abbrev pub waits_to_write : Phase → ℕ
waits_to_write write_asleep = 1
waits_to_write write_awake = 1
waits_to_write _ = 0

abbrev pub woken_to_read : Phase → ℕ
woken_to_read read_awake = 1
woken_to_read _ = 0

abbrev pub woken_to_write : Phase → ℕ
woken_to_write write_awake = 1
woken_to_write _ = 0
