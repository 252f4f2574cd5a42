-- ===== src/Jiukun/Buddy/Heads.antt =====
-- jiukun/buddy.c: blocks in free lists by the index of their first page.
use jiufeng.Prelude.{
  ℕ, zero, suc, ◌+◌, ◌^◌, ◌≤◌, ◌<◌, ◌≡◌, inl, inr, refl, ap, subst, arith, false, List, [], ◌∷◌,
  ◌==◌, ltb, leb, ◌&&◌, if◌then◌else◌, length, All, Bool-cases, ==_iff,
}
use jiufeng.Prelude.Counts.{erase}
use jiufeng.Jiukun.Buddy.Counts.{weigh, total, covers, pow_pos}

-- Whether a block begins at the page `b`, as 0 or 1.
abbrev pub heads : ℕ → ℕ → ℕ → ℕ
heads b k p = if p == b then 1 else 0

heads_le_covers : (b k p : ℕ) → heads b k p ≤ covers b k p
heads_le_covers b k p = ground (arith, pow_pos k)

weigh_mono :
    (v w : ℕ → ℕ → ℕ)
    → ((k p : ℕ) → v k p ≤ w k p)
    → (k : ℕ) (l : List ℕ) → weigh v k l ≤ weigh w k l
weigh_mono v w h k [] = omega arith
weigh_mono v w h k (p ∷ ps) = omega (arith, h k p, weigh_mono v w h k ps)

total_mono :
    (v w : ℕ → ℕ → ℕ)
    → ((k p : ℕ) → v k p ≤ w k p)
    → (f : ℕ → List ℕ) (n : ℕ) → total v f n ≤ total w f n
total_mono v w h f zero = omega arith
total_mono v w h f (suc n) = omega (arith, weigh_mono v w h n (f n), total_mono v w h f n)

-- A page that no block covers begins none.
pub heads_le : (b : ℕ) (f : ℕ → List ℕ) (n : ℕ) → total (heads b) f n ≤ total (covers b) f n
heads_le b f n = total_mono (heads b) (covers b) (heads_le_covers b) f n

pub weigh_le_total :
    (w : ℕ → ℕ → ℕ) (f : ℕ → List ℕ) (k n : ℕ) → k < n → weigh w k (f k) ≤ total w f n
weigh_le_total w f k zero h = absurd (omega (arith, h))
weigh_le_total w f k (suc n) h = grind (arith, h, weigh_le_total w f k n)

-- Two lists of a family weigh at most the total.
pub weigh_two_le :
    (w : ℕ → ℕ → ℕ) (f : ℕ → List ℕ) (j k n : ℕ)
    → ¬ (j ≡ k)
    → j < n
    → k < n
    → weigh w j (f j) + weigh w k (f k) ≤ total w f n
weigh_two_le w f j k zero d h i = absurd (omega (arith, h))
weigh_two_le w f j k (suc n) d h i = elim (Bool-cases (j == n)) [
  | inl e ↦
      let s : j ≡ n = (==_iff j n).0 e in
      let r = weigh_le_total w f k n (omega (arith, i, d, s)) in
      let t : weigh w j (f j) ≡ weigh w n (f n) = ap (λ x. weigh w x (f x)) s in omega (arith, r, t)
  | inr e ↦ elim (Bool-cases (k == n)) [
    | inl e' ↦
        let s : k ≡ n = (==_iff k n).0 e' in
        let r = weigh_le_total w f j n (omega (arith, h, d, s)) in
        let t : weigh w k (f k) ≡ weigh w n (f n) = ap (λ x. weigh w x (f x)) s in
        omega (arith, r, t)
    | inr e' ↦
        let r = weigh_two_le w f j k n d (ground (arith, h, e)) (ground (arith, i, e')) in
        omega (arith, r)
  ]
]

module _ (b : ℕ) where
  pub erase_absent : (k : ℕ) (l : List ℕ) → weigh (heads b) k l ≡ 0 → erase b l ≡ l
  erase_absent k [] h = refl
  erase_absent k (p ∷ ps) h = ground (arith, erase_absent k ps)

  erase_present :
      (w : ℕ → ℕ → ℕ) (k : ℕ) (l : List ℕ)
      → 0 < weigh (heads b) k l
      → weigh w k (erase b l) + w k b ≡ weigh w k l
  erase_present w k [] h = absurd (omega (arith, h))
  erase_present w k (p ∷ ps) h = elim (Bool-cases (p == b)) [
    | inl e ↦ let s : w k p ≡ w k b = ap (w k) ((==_iff p b).0 e) in rw e (omega (arith, s))
    | inr e ↦ let h' = rw e at h in rw e (omega (arith, erase_present w k ps (omega (arith, h'))))
  ]

  -- A block of a list weighs at most the list.
  pub heads-weigh_le :
      (w : ℕ → ℕ → ℕ) (k : ℕ) (l : List ℕ) → 0 < weigh (heads b) k l → w k b ≤ weigh w k l
  heads-weigh_le w k l h = omega (arith, erase_present w k l h)

  pub All-erase : (P : ℕ → Type 0) (l : List ℕ) → All P l → All P (erase b l)
  All-erase P [] h = h
  All-erase P (p ∷ ps) (h, a) = elim (Bool-cases (p == b)) [
    | inl e ↦ rw e a
    | inr e ↦ rw e (h, All-erase P ps a)
  ]

  pub All-heads : (P : ℕ → Type 0) (k : ℕ) (l : List ℕ) → All P l → 0 < weigh (heads b) k l → P b
  All-heads P k [] a h = absurd (omega (arith, h))
  All-heads P k (p ∷ ps) (q, a) h = elim (Bool-cases (p == b)) [
    | inl e ↦ subst P ((==_iff p b).0 e) q
    | inr e ↦ let h' = rw e at h in All-heads P k ps a (omega (arith, h'))
  ]

  -- What holds of pages other than `b` holds of a list that has not `b`.
  pub All-avoid :
      (P Q : ℕ → Type 0)
      → ((p : ℕ) → (p == b) ≡ false → P p → Q p)
      → (k : ℕ) (l : List ℕ) → weigh (heads b) k l ≡ 0
      → All P l
      → All Q l
  All-avoid P Q f k [] h a = a
  All-avoid P Q f k (p ∷ ps) h (q, a) = elim (Bool-cases (p == b)) [
    | inl e ↦ let h' = rw e at h in absurd (omega (arith, h'))
    | inr e ↦ let h' = rw e at h in (f p e q, All-avoid P Q f k ps (omega (arith, h')) a)
  ]

  pub length-erase :
      (k : ℕ) (l : List ℕ) → 0 < weigh (heads b) k l → length (erase b l) + 1 ≡ length l
  length-erase k [] h = absurd (omega (arith, h))
  length-erase k (p ∷ ps) h = ground (arith, length-erase k ps)

  pub length-erase_absent :
      (k : ℕ) (l : List ℕ) → weigh (heads b) k l ≡ 0 → length (erase b l) ≡ length l
  length-erase_absent k l h = ap length (erase_absent k l h)

  total-erase_absent :
      (w : ℕ → ℕ → ℕ) (f : ℕ → List ℕ) (n : ℕ)
      → total (heads b) f n ≡ 0
      → total w (λ j. erase b (f j)) n ≡ total w f n
  total-erase_absent w f zero h = refl
  total-erase_absent w f (suc n) h =
      let e : weigh w n (erase b (f n)) ≡ weigh w n (f n) =
        ap (weigh w n) (erase_absent n (f n) (omega (arith, h))) in
      omega (arith, e, total-erase_absent w f n (omega (arith, h)))

  -- The block is taken out of its list, and the other lists stay.
  pub total-erase :
      (w : ℕ → ℕ → ℕ) (f : ℕ → List ℕ) (k n : ℕ)
      → total (heads b) f n ≤ 1
      → k < n
      → 0 < weigh (heads b) k (f k)
      → total w (λ j. erase b (f j)) n + w k b ≡ total w f n
  total-erase w f k zero h l i = absurd (omega (arith, l))
  total-erase w f k (suc n) h l i = elim (Bool-cases (k == n)) [
    | inl e ↦
        let s : k ≡ n = (==_iff k n).0 e in
        let i' : 0 < weigh (heads b) n (f n) = subst (λ j. 0 < weigh (heads b) j (f j)) s i in
        let p = erase_present w n (f n) i' in
        let r = total-erase_absent w f n (omega (arith, h, i')) in
        let c : w k b ≡ w n b = ap (λ j. w j b) s in omega (arith, p, r, c)
    | inr e ↦
        let lt : k < n = ground (arith, l, e) in
        let le = weigh_le_total (heads b) f k n lt in
        let a : weigh w n (erase b (f n)) ≡ weigh w n (f n) =
          ap (weigh w n) (erase_absent n (f n) (omega (arith, h, le, i))) in
        omega (arith, a, total-erase w f k n (omega (arith, h)) lt i)
  ]

-- A covered page lies in some block.
abbrev pub InBlock : ℕ → (ℕ → List ℕ) → ℕ → Type 0
InBlock x f n = (k : ℕ) × (p : ℕ) × (k < n) × (0 < weigh (heads p) k (f k)) × (covers x k p ≡ 1)

block_in_list :
    (x k : ℕ) (l : List ℕ)
    → 0 < weigh (covers x) k l
    → (p : ℕ) × (0 < weigh (heads p) k l) × (covers x k p ≡ 1)
block_in_list x k [] h = absurd (omega (arith, h))
block_in_list x k (p ∷ ps) h = elim (Bool-cases (leb p x && ltb x (p + 2 ^ k))) [
  | inl e ↦ (p, ground arith, rw e refl)
  | inr e ↦
      let h' = rw e at h in
      let (q, i, c) = block_in_list x k ps (omega (arith, h')) in (q, omega (arith, i), c)
]

pub block_of_page : (x : ℕ) (f : ℕ → List ℕ) (n : ℕ) → 0 < total (covers x) f n → InBlock x f n
block_of_page x f zero h = absurd (omega (arith, h))
block_of_page x f (suc n) h = elim (Bool-cases (ltb 0 (weigh (covers x) n (f n)))) [
  | inl e ↦ let (p, i, c) = block_in_list x n (f n) (ground (arith, e)) in (n, p, omega arith, i, c)
  | inr e ↦
      let (k, p, l, i, c) = block_of_page x f n (ground (arith, h, e)) in
      (k, p, omega (arith, l), i, c)
]
