-- ===== src/Jiukun/Buddy/Aligned.antt =====
-- jiukun/buddy.c: blocks that begin at multiples of their sizes.
use native.Mathlib.Nat.{mul-le-mul_right, lt_of_mul-lt-mul_right}
use jiufeng.Prelude.{
  ℕ, zero, suc, ◌+◌, ◌-◌, ◌*◌, ◌/◌, ◌%◌, ◌^◌, ◌≤◌, ◌<◌, ◌≡◌, ◌⊎◌, inl, inr, refl, sym, ap, subst,
  ◌∙◌, arith, ◌==◌, ltb, Bool-cases,
}
use jiufeng.Jiukun.Buddy.{get_buddy_index}
use jiufeng.Jiukun.Buddy.Counts.{covers, pow_pos}
use jiufeng.Jiukun.Buddy.Index.{get_buddy_index_lem, other_of}

double_pow : (k : ℕ) → 2 ^ suc k ≡ 2 ^ k + 2 ^ k
double_pow k = grind arith

halved : (k q p : ℕ) → p ≡ q * 2 ^ k → (r : ℕ) → q ≡ 2 * r → p ≡ r * 2 ^ suc k
halved k q p e r h =
    let d : r * 2 ^ suc k ≡ r * (2 ^ k + 2 ^ k) = ap (λ x. r * x) (double_pow k) in
    let f : p ≡ 2 * r * 2 ^ k = e ∙ ap (λ x. x * 2 ^ k) h in
    let g : 2 * r * 2 ^ k ≡ r * (2 ^ k + 2 ^ k) = twice r (2 ^ k) in omega (arith, d, f, g)
  where
    twice : (r s : ℕ) → 2 * r * s ≡ r * (s + s)
    twice r s = grind arith

-- `p` is a multiple of `2 ^ k`.
abbrev pub Aligned : ℕ → ℕ → Type 0
Aligned k p = (q : ℕ) × (p ≡ q * 2 ^ k)

-- Blocks of an order that begin at multiples are apart or the same.
below_next : (a c k : ℕ) → a * 2 ^ k < c * 2 ^ k → a + 1 ≤ c
below_next a c k h = omega (arith, lt_of_mul-lt-mul_right (2 ^ k) h)

step_up : (a c k : ℕ) → a + 1 ≤ c → a * 2 ^ k + 2 ^ k ≤ c * 2 ^ k
step_up a c k h =
    let m : (a + 1) * 2 ^ k ≤ c * 2 ^ k = mul-le-mul_right (2 ^ k) h in
    let e : (a + 1) * 2 ^ k ≡ a * 2 ^ k + 2 ^ k = grind arith in omega (arith, m, e)

-- A block that begins before the end of a larger multiple ends there at the latest.
pub ends_by : (k p e : ℕ) → Aligned k p → Aligned k e → p < e → p + 2 ^ k ≤ e
ends_by k p e (a, x) (c, y) h =
    let m = step_up a c k (below_next a c k (omega (arith, x, y, h))) in omega (arith, x, y, m)

pub Aligned-end : (k p : ℕ) → Aligned k p → Aligned k (p + 2 ^ k)
Aligned-end k p (a, x) = (a + 1, grind (arith, x))

pub Aligned-pred : (k p : ℕ) → Aligned (suc k) p → Aligned k p
Aligned-pred k p (a, x) = (2 * a, grind (arith, x))

pub Aligned-lower : (j d p : ℕ) → Aligned (j + d) p → Aligned j p
Aligned-lower j zero p h = subst (λ k. Aligned k p) (omega arith) h
Aligned-lower j (suc d) p h =
    Aligned-lower j d p (Aligned-pred (j + d) p (subst (λ k. Aligned k p) (omega arith) h))

pub Aligned-le : (j k p : ℕ) → j ≤ k → Aligned k p → Aligned j p
Aligned-le j k p h a = Aligned-lower j (k - j) p (subst (λ i. Aligned i p) (omega (arith, h)) a)

pub covers-bounds : (x k p : ℕ) → covers x k p ≡ 1 → (p ≤ x) × (x < p + 2 ^ k)
covers-bounds x k p e = ground arith

pub covers-at : (x k p : ℕ) → p ≤ x → x < p + 2 ^ k → covers x k p ≡ 1
covers-at x k p l u = ground arith

-- The first page of a block of an order up to `k` that holds the multiple `b` is `b`.
pub covers-first : (j k b q : ℕ) → j ≤ k → Aligned k b → Aligned j q → covers b j q ≡ 1 → q ≡ b
covers-first j k b q h a c e = elim (Bool-cases (ltb q b)) [
  | inl i ↦
      let (l, u) = covers-bounds b j q e in
      let n = ends_by j q b c (Aligned-le j k b h a) (ground (arith, i)) in
      absurd (omega (arith, u, n))
  | inr i ↦ let (l, u) = covers-bounds b j q e in ground (arith, i, l)
]

-- A larger block that has the lower half of a pair has the upper half, and the other way round.
pub covers-pair :
    (j k low q : ℕ)
    → k < j
    → Aligned (suc k) low
    → Aligned j q
    → (covers low j q ≡ 1 → covers (low + 2 ^ k) j q ≡ 1)
      × (covers (low + 2 ^ k) j q ≡ 1 → covers low j q ≡ 1)
covers-pair j k low q h a c =
    let d = double_pow k in
    let pos = pow_pos k in
    let end = Aligned-le (suc k) j (q + 2 ^ j) (omega (arith, h)) (Aligned-end j q c) in
    (
      λ e.
          let (l, u) = covers-bounds low j q e in
          let m = ends_by (suc k) low (q + 2 ^ j) a end u in
          covers-at (low + 2 ^ k) j q (omega (arith, l)) (omega (arith, m, d, pos)),
      λ e.
          let (l, u) = covers-bounds (low + 2 ^ k) j q e in
          elim (Bool-cases (ltb low q)) [
            | inl i ↦
                let m =
                  ends_by (suc k) low q a (Aligned-le (suc k) j q (omega (arith, h)) c)
                    (ground (arith, i)) in
                absurd (omega (arith, m, d, pos, l))
            | inr i ↦ covers-at low j q (ground (arith, i)) (omega (arith, u))
          ],
    )

next_block : (r k : ℕ) → (r + 1) * 2 ^ k ≡ r * 2 ^ k + 2 ^ k
next_block r k = grind arith

-- The pair of blocks of order `k` that a multiple belongs to.
pub record Pair (k p b : ℕ) : Type 0 where
  pub low : ℕ
  pub pair_low : Aligned (suc k) low
  pub sides : ((p ≡ low) × (b ≡ low + 2 ^ k)) ⊎ ((b ≡ low) × (p ≡ low + 2 ^ k))

pub buddy-Pair : (k p : ℕ) → Aligned k p → Pair k p (get_buddy_index p k)
buddy-Pair k p (q, e) =
    let b : get_buddy_index p k ≡ other_of q * 2 ^ k =
      ap (λ x. get_buddy_index x k) e ∙ get_buddy_index_lem q k in
    elim (Bool-cases (q % 2 == 0)) [
      | inl i ↦
          let o : other_of q ≡ q + 1 = rw i refl in
          let b' = b ∙ ap (λ x. x * 2 ^ k) o in
          let h : q ≡ 2 * (q / 2) = ground (arith, i) in
          record {
            low = p;
            pair_low = (q / 2, halved k q p e (q / 2) h);
            sides = inl (refl, grind (arith, b', e));
          }
      | inr i ↦
          let o : other_of q ≡ q - 1 = rw i refl in
          let b' = b ∙ ap (λ x. x * 2 ^ k) o in
          let h : q ≡ 2 * (q / 2) + 1 = ground (arith, i) in
          let g : q - 1 ≡ 2 * (q / 2) = omega (arith, h) in
          let e' : p ≡ (q - 1) * 2 ^ k + 2 ^ k =
            e ∙ ap (λ x. x * 2 ^ k) (omega (arith, h, g)) ∙ next_block (q - 1) k in
          record {
            low = get_buddy_index p k;
            pair_low = (q / 2, halved k (q - 1) (get_buddy_index p k) b' (q / 2) g);
            sides = inr (refl, omega (arith, b', e'));
          }
    ]

-- A block is the buddy of its buddy.
pub get_buddy_index_twice : (k p : ℕ) → Aligned k p → get_buddy_index (get_buddy_index p k) k ≡ p
get_buddy_index_twice k p (q, e) =
    let b : get_buddy_index p k ≡ other_of q * 2 ^ k =
      ap (λ x. get_buddy_index x k) e ∙ get_buddy_index_lem q k in
    let o : other_of (other_of q) ≡ q = ground arith in
    ap (λ x. get_buddy_index x k) b
    ∙ get_buddy_index_lem (other_of q) k
    ∙ ap (λ x. x * 2 ^ k) o
    ∙ sym e

-- The buddy of the upper half is the lower half.
pub get_buddy_index_upper : (k p : ℕ) → Aligned (suc k) p → get_buddy_index (p + 2 ^ k) k ≡ p
get_buddy_index_upper k p a =
    let lower = Aligned-pred k p a in
    let pair = buddy-Pair k p lower in
    let pos = pow_pos k in
    elim pair.sides [
      | inl (x, y) ↦
          let e : get_buddy_index p k ≡ p + 2 ^ k = omega (arith, x, y) in
          ap (λ i. get_buddy_index i k) (sym e) ∙ get_buddy_index_twice k p lower
      | inr (x, y) ↦
          let m = ends_by (suc k) pair.low p pair.pair_low a (omega (arith, y, pos)) in
          let d = double_pow k in absurd (omega (arith, m, y, d, pos))
    ]
