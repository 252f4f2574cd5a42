-- ===== src/Jiukun/Slab/Chain.antt =====
-- jiukun/slab.c: the free objects of a slab as a chain through the array of `slab_bufctl_t`.
use jiufeng.Prelude.{
  ℕ, zero, suc, ◌+◌, ◌-◌, ◌≤◌, ◌<◌, ◌≡◌, inl, inr, refl, ap, subst, arith, true, false, List, [],
  ◌∷◌, ◌==◌, ltb, if◌then◌else◌, length, All, Bool-cases,
}
use jiufeng.Prelude.Counts.{update, count}
use jiufeng.Jiukun.Slab.{Slab, bufctl_end, fill, init_objs}

-- The array leads from a head through the numbers of a list to its end.
abbrev pub Linked : (ℕ → ℕ) → ℕ → List ℕ → Type 0
Linked b h [] = h ≡ bufctl_end
Linked b h (x ∷ xs) = (h ≡ x) × Linked b (b x) xs

-- A write to an entry that the chain does not pass.
pub Linked-update :
    (b : ℕ → ℕ) (y v h : ℕ) (xs : List ℕ)
    → count y xs ≡ 0
    → Linked b h xs
    → Linked (update b y v) h xs
Linked-update b y v h [] n l = l
Linked-update b y v h (x ∷ xs) n (e, l) = elim (Bool-cases (x == y)) [
  | inl f ↦ let n' = rw f at n in absurd (omega (arith, n'))
  | inr f ↦ let n' = rw f at n in (e, rw f (Linked-update b y v (b x) xs (omega (arith, n')) l))
]

-- The state of a slab of `num` objects with the free objects in the order of their chain.
pub record IsSlab (num : ℕ) (s : Slab) (xs : List ℕ) : Type 0 where
  pub linked : Linked s.bufctl s.free_head xs
  pub once : (x : ℕ) → count x xs ≤ 1
  pub below : All (λ x. x < num) xs
  pub used : s.in_use + length xs ≡ num

-- The numbers from `i` on, `n` of them.
abbrev pub upto : ℕ → ℕ → List ℕ
upto i zero = []
upto i (suc n) = i ∷ upto (i + 1) n

fill_lem : (n i : ℕ) (b : ℕ → ℕ) → i < n → fill n b i ≡ i + 1
unfolding fill
fill_lem zero i b h = absurd (omega (arith, h))
fill_lem (suc n) i b h = ground (arith, fill_lem n i b)

count-upto :
    (x i n : ℕ) → count x (upto i n) ≡ (if ltb x i then 0 else if ltb x (i + n) then 1 else 0)
count-upto x i zero = ground arith
count-upto x i (suc n) = ground (arith, count-upto x (i + 1) n)

pub count-upto_le : (x i n : ℕ) → count x (upto i n) ≤ 1
count-upto_le x i n = ground (arith, count-upto x i n)

pub length-upto : (i n : ℕ) → length (upto i n) ≡ n
length-upto i zero = refl
length-upto i (suc n) = ap suc (length-upto (i + 1) n)

upto-below : (i n m : ℕ) → i + n ≤ m → All (λ x. x < m) (upto i n)
upto-below i zero m h = tt
upto-below i (suc n) m h = (omega (arith, h), upto-below (i + 1) n m (omega (arith, h)))

-- The chain of a new slab from `i` on.
init-Linked :
    (num : ℕ) (b : ℕ → ℕ) (i n : ℕ)
    → i + suc n ≡ num
    → Linked (update (fill num b) (num - 1) bufctl_end) i (upto i (suc n))
init-Linked num b i zero e =
    let last : (i == num - 1) ≡ true = ground (arith, e) in (refl, rw last refl)
init-Linked num b i (suc n) e =
    let other : (i == num - 1) ≡ false = ground (arith, e) in
    (
      refl,
      rw (other, fill_lem num i b (omega (arith, e)))
          (init-Linked num b (i + 1) n (omega (arith, e))),
    )

-- A new slab has all its objects free, in the order of their numbers.
pub init_objs-IsSlab :
    (num : ℕ) (s : Slab) → 0 < num → s.in_use ≡ 0 → IsSlab num (init_objs num s) (upto 0 num)
unfolding init_objs
init_objs-IsSlab num s pos e =
    let l = init-Linked num s.bufctl 0 (num - 1) (omega (arith, pos)) in
    let same : suc (num - 1) ≡ num = omega (arith, pos) in
    record {
      linked =
          subst (λ n. Linked (update (fill num s.bufctl) (num - 1) bufctl_end) 0 (upto 0 n)) same l;
      once = λ x. count-upto_le x 0 num;
      below = upto-below 0 num num (omega arith);
      used = omega (arith, e, length-upto 0 num);
    }

pub init_objs-mem : (num : ℕ) (s : Slab) → (init_objs num s).mem ≡ s.mem
unfolding init_objs
init_objs-mem num s = refl
