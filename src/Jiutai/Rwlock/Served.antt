-- ===== src/Jiutai/Rwlock/Served.antt =====
-- jiutai/jf_rwlock.c: a free lock wakes a thread that waits for it.
use jiufeng.Prelude.{
  ℕ, suc, ◌+◌, ◌^◌, ◌<◌, ◌≡◌, inl, inr, refl, sym, ap, subst, arith, true, false, some, List, [],
  ◌∷◌, get_elem?, Bool-cases, ltb,
}
use jiufeng.Jiutai.Rwlock.{
  Rwlock, may_read, may_write, try_read, try_write, Phase, idle, reading, writing, read_asleep,
  read_awake, write_asleep, write_awake, Reached,
}
use jiufeng.Jiutai.Rwlock.Moves.{IsRwlock, Reached-IsRwlock}
use jiufeng.Jiutai.Rwlock.Tally.{
  tally, reads_now, writes_now, waits_to_read, waits_to_write, woken_to_read, woken_to_write,
}

-- A waiting thread of a phase gets the lock without a new call and before its wait fails: the
-- critical section lets it pass, when it has been woken, or behind the wait that its event ends.
abbrev pub Gains : Phase → Rwlock → Type 0
Gains read_awake l = (try_read true l).0 ≡ false
Gains read_asleep l =
    (l.read_green ≡ true) × ((try_read true (record l { read_green = false })).0 ≡ false)
Gains write_awake l = (try_write true l).0 ≡ false
Gains write_asleep l =
    (l.write_green ≡ true) × ((try_write true (record l { write_green = false })).0 ≡ false)
Gains idle l = ⊥
Gains reading l = ⊥
Gains writing l = ⊥

-- A thread of a list gets the lock so.
abbrev pub Served : Rwlock → List Phase → Type 0
Served l ts =
    (i : ℕ) × (a : Phase) × (get_elem? ts i ≡ some a)
    × (0 < waits_to_read a + waits_to_write a)
    × Gains a l

find_phase :
    (w : Phase → ℕ) (ts : List Phase)
    → 0 < tally w ts
    → (i : ℕ) × (a : Phase) × (get_elem? ts i ≡ some a) × (0 < w a)
find_phase w [] h = absurd (omega (arith, h))
find_phase w (a ∷ ts) h = elim (Bool-cases (ltb 0 (w a))) [
  | inl e ↦ (0, a, refl, ground (arith, e))
  | inr e ↦ let (i, b, f, g) = find_phase w ts (ground (arith, e, h)) in (suc i, b, f, g)
]

reader-Gains : (l : Rwlock) → may_read l ≡ true → Gains read_awake l
unfolding try_read
reader-Gains l e = ground (arith, e)

writer-Gains : (l : Rwlock) → may_write l ≡ true → Gains write_awake l
unfolding try_write
writer-Gains l e = ground (arith, e)

reader_wakes-Gains :
    (l : Rwlock)
    → may_read l ≡ true
    → l.read_green ≡ true
    → (a : Phase) → 0 < waits_to_read a
    → Gains a l
reader_wakes-Gains l e g read_asleep h = (g, reader-Gains (record l { read_green = false }) e)
reader_wakes-Gains l e g read_awake h = reader-Gains l e
reader_wakes-Gains l e g idle h = absurd (omega (arith, h))
reader_wakes-Gains l e g reading h = absurd (omega (arith, h))
reader_wakes-Gains l e g writing h = absurd (omega (arith, h))
reader_wakes-Gains l e g write_asleep h = absurd (omega (arith, h))
reader_wakes-Gains l e g write_awake h = absurd (omega (arith, h))

writer_wakes-Gains :
    (l : Rwlock)
    → may_write l ≡ true
    → l.write_green ≡ true
    → (a : Phase) → 0 < waits_to_write a
    → Gains a l
writer_wakes-Gains l e g write_asleep h = (g, writer-Gains (record l { write_green = false }) e)
writer_wakes-Gains l e g write_awake h = writer-Gains l e
writer_wakes-Gains l e g idle h = absurd (omega (arith, h))
writer_wakes-Gains l e g reading h = absurd (omega (arith, h))
writer_wakes-Gains l e g writing h = absurd (omega (arith, h))
writer_wakes-Gains l e g read_asleep h = absurd (omega (arith, h))
writer_wakes-Gains l e g read_awake h = absurd (omega (arith, h))

is_read_awake : (a : Phase) → 0 < woken_to_read a → a ≡ read_awake
is_read_awake idle h = absurd (omega (arith, h))
is_read_awake reading h = absurd (omega (arith, h))
is_read_awake writing h = absurd (omega (arith, h))
is_read_awake read_asleep h = absurd (omega (arith, h))
is_read_awake read_awake h = refl
is_read_awake write_asleep h = absurd (omega (arith, h))
is_read_awake write_awake h = absurd (omega (arith, h))

is_write_awake : (a : Phase) → 0 < woken_to_write a → a ≡ write_awake
is_write_awake idle h = absurd (omega (arith, h))
is_write_awake reading h = absurd (omega (arith, h))
is_write_awake writing h = absurd (omega (arith, h))
is_write_awake read_asleep h = absurd (omega (arith, h))
is_write_awake read_awake h = absurd (omega (arith, h))
is_write_awake write_asleep h = absurd (omega (arith, h))
is_write_awake write_awake h = refl

woken_waits_to_read : (a : Phase) → 0 < woken_to_read a → 0 < waits_to_read a
woken_waits_to_read a h = let e = ap waits_to_read (is_read_awake a h) in omega (arith, e)

woken_waits_to_write : (a : Phase) → 0 < woken_to_write a → 0 < waits_to_write a
woken_waits_to_write a h = let e = ap waits_to_write (is_write_awake a h) in omega (arith, e)

awake_reader-Gains :
    (l : Rwlock) → may_read l ≡ true → (a : Phase) → 0 < woken_to_read a → Gains a l
awake_reader-Gains l e a h = subst (λ b. Gains b l) (sym (is_read_awake a h)) (reader-Gains l e)

awake_writer-Gains :
    (l : Rwlock) → may_write l ≡ true → (a : Phase) → 0 < woken_to_write a → Gains a l
awake_writer-Gains l e a h = subst (λ b. Gains b l) (sym (is_write_awake a h)) (writer-Gains l e)

Served-reader :
    (l : Rwlock) (ts : List Phase)
    → IsRwlock l ts
    → tally reads_now ts ≡ 0
    → tally writes_now ts ≡ 0
    → tally waits_to_write ts ≡ 0
    → 0 < tally waits_to_read ts
    → Served l ts
Served-reader l ts (p, x, y, z, u, al, si) r w ww h =
    let may : may_read l ≡ true = ground (arith, y, u, w, ww) in
    elim (Bool-cases (l.read_green)) [
      | inl g ↦
          let (i, a, e, k) = find_phase waits_to_read ts h in
          (i, a, e, omega (arith, k), reader_wakes-Gains l may g a k)
      | inr g ↦
          let (i, a, e, k) = find_phase woken_to_read ts (ground (arith, si, r, w, ww, h, g)) in
          let k' = woken_waits_to_read a k in
          (i, a, e, omega (arith, k'), awake_reader-Gains l may a k)
    ]

Served-writer :
    (l : Rwlock) (ts : List Phase)
    → IsRwlock l ts
    → tally reads_now ts ≡ 0
    → tally writes_now ts ≡ 0
    → 0 < tally waits_to_write ts
    → Served l ts
Served-writer l ts (p, x, y, z, u, al, si) r w h =
    let may : may_write l ≡ true = ground (arith, p, x, y, r, w) in
    elim (Bool-cases (l.write_green)) [
      | inl g ↦
          let (i, a, e, k) = find_phase waits_to_write ts h in
          (i, a, e, omega (arith, k), writer_wakes-Gains l may g a k)
      | inr g ↦
          let (i, a, e, k) = find_phase woken_to_write ts (ground (arith, si, r, w, h, g)) in
          let k' = woken_waits_to_write a k in
          (i, a, e, omega (arith, k'), awake_writer-Gains l may a k)
    ]

-- In every state that fewer than 2^32 threads reach by the steps of the code, if no thread holds the
-- lock and some thread waits for it, then some waiting thread has been woken, or waits at an event
-- that is set, and the critical section that it enters next lets it pass, if no other thread comes
-- before it. So the free lock is not left with all waiting threads asleep at events that are not set.
pub Reached-Served :
    (n : ℕ)
    → n < 2 ^ 32
    → (l : Rwlock) (ts : List Phase) → Reached n l ts
    → tally reads_now ts ≡ 0
    → tally writes_now ts ≡ 0
    → 0 < tally waits_to_read ts + tally waits_to_write ts
    → Served l ts
Reached-Served n small l ts s r w h =
    let v = (Reached-IsRwlock n small l ts s).0 in
    elim (Bool-cases (ltb 0 (tally waits_to_write ts))) [
      | inl e ↦ Served-writer l ts v r w (ground (arith, e))
      | inr e ↦ Served-reader l ts v r w (ground (arith, e)) (ground (arith, e, h))
    ]
