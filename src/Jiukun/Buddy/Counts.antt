-- ===== src/Jiukun/Buddy/Counts.antt =====
-- jiukun/buddy.c: sums over the free lists of a zone.
use jiufeng.Prelude.{
  ℕ, zero, suc, ◌+◌, ◌-◌, ◌/◌, ◌^◌, ◌≤◌, ◌<◌, ◌≡◌, refl, ◌∙◌, ap, arith, List, [], ◌∷◌, ltb, leb,
  if◌then◌else◌, ◌&&◌, length,
}
use jiufeng.Prelude.Counts.{update}
use jiufeng.Jiukun.Buddy.{Zone, add_free, split_page_list}

-- The sum of the weights of the blocks in a free list of order `k`.
abbrev pub weigh : (ℕ → ℕ → ℕ) → ℕ → List ℕ → ℕ
weigh w k [] = 0
weigh w k (p ∷ ps) = w k p + weigh w k ps

-- The sum over the free lists of the first `n` orders.
abbrev pub total : (ℕ → ℕ → ℕ) → (ℕ → List ℕ) → ℕ → ℕ
total w free zero = 0
total w free (suc n) = weigh w n (free n) + total w free n

-- A block weighs as much as its two halves.
abbrev pub IsHalving : (ℕ → ℕ → ℕ) → Type 0
IsHalving w = (k p : ℕ) → w (suc k) p ≡ w k p + w k (p + 2 ^ k)

-- The number of pages in a block.
abbrev pub pages : ℕ → ℕ → ℕ
pages k p = 2 ^ k

-- Whether the page `x` lies in a block, as 0 or 1.
abbrev pub covers : ℕ → ℕ → ℕ → ℕ
covers x k p = if leb p x && ltb x (p + 2 ^ k) then 1 else 0

pub pages-IsHalving : IsHalving pages
pages-IsHalving k p = ground arith

pub pow_pos : (k : ℕ) → 0 < 2 ^ k
pow_pos zero = omega arith
pow_pos (suc k) = omega (arith, pow_pos k)

pub pow_le : (a b : ℕ) → a ≤ b → 2 ^ a ≤ 2 ^ b
pow_le a zero h = grind arith
pow_le a (suc b) h = grind (arith, pow_le a b, pow_pos b)

pub covers-IsHalving : (x : ℕ) → IsHalving (covers x)
covers-IsHalving x k p = ground (arith, pow_pos k)

pub half_pow : (m size : ℕ) → size ≡ 2 ^ suc m → size / 2 ≡ 2 ^ m
half_pow m size h = omega arith

module _ (w : ℕ → ℕ → ℕ) where
  update_here : (f : ℕ → List ℕ) (k : ℕ) (v : List ℕ) → update f k v k ≡ v
  update_here f k v = ground arith

  update_other : (f : ℕ → List ℕ) (k : ℕ) (v : List ℕ) (n : ℕ) → ¬ (n ≡ k) → update f k v n ≡ f n
  update_other f k v n h = ground (arith, h)

  total-update_above :
      (f : ℕ → List ℕ) (k : ℕ) (v : List ℕ) (n : ℕ) → n ≤ k → total w (update f k v) n ≡ total w f n
  total-update_above f k v zero h = refl
  total-update_above f k v (suc n) h =
      grind (arith, total-update_above f k v n, update_other f k v n)

  -- A write to one list replaces the weight of that list.
  pub total-update :
      (f : ℕ → List ℕ) (k : ℕ) (v : List ℕ) (n : ℕ)
      → k < n
      → total w (update f k v) n + weigh w k (f k) ≡ total w f n + weigh w k v
  total-update f k v zero h = omega (arith, h)
  total-update f k v (suc n) h = grind (
    arith,
    total-update_above f k v n,
    update_other f k v n,
    update_here f k v,
    total-update f k v n,
  )

  -- A split hands out one block of order `low` and leaves the rest of the big one.
  pub total-split_page_list :
      IsHalving w
      → (n : ℕ) (z : Zone) (page low high size : ℕ) → high ≡ low + n
      → size ≡ 2 ^ high
      → high ≤ z.max_order
      → total w (Zone.free (split_page_list n z page high size)) z.max_order + w low page
        ≡ total w z.free z.max_order + w high page
  unfolding split_page_list add_free
  total-split_page_list half zero z page low high size e s h =
      let e' : low ≡ high = omega (arith, e) in ap (λ k. total w z.free z.max_order + w k page) e'
  total-split_page_list half (suc n) z page low high size e s h =
      let e0 : high ≡ suc (high - 1) = omega (arith, e) in
      let m = high - 1 in
      let s' = half_pow m size (s ∙ ap (λ k. 2 ^ k) e0) in
      let z1 = add_free z m (page + size / 2) in
      let left = Zone.free (split_page_list n z1 page m (size / 2)) in
      let added = update z.free m ((page + size / 2) ∷ z.free m) in
      let IH : total w left z.max_order + w low page ≡ total w added z.max_order + w m page =
        total-split_page_list half n z1 page low m (size / 2) (omega (arith, e)) s'
          (omega (arith, e, h)) in
      let step : total w added z.max_order + weigh w m (z.free m)
          ≡ total w z.free z.max_order + (w m (page + size / 2) + weigh w m (z.free m)) =
        total-update z.free m ((page + size / 2) ∷ z.free m) z.max_order (omega (arith, e, h)) in
      let halves : w high page ≡ w m page + w m (page + 2 ^ m) =
        ap (λ k. w k page) e0 ∙ half m page in
      let e'' : w m (page + size / 2) ≡ w m (page + 2 ^ m) = ap (λ x. w m (page + x)) s' in
      let done : total w left z.max_order + w low page ≡ total w z.free z.max_order + w high page =
        omega (arith, IH, step, halves, e'') in
      done

weigh_le_length : (k : ℕ) (ps : List ℕ) → length ps ≤ weigh pages k ps
weigh_le_length k [] = omega arith
weigh_le_length k (p ∷ ps) = omega (arith, pow_pos k, weigh_le_length k ps)

pub total_le_length : (f : ℕ → List ℕ) (k n : ℕ) → k < n → length (f k) ≤ total pages f n
total_le_length f k zero h = omega (arith, h)
total_le_length f k (suc n) h = grind (arith, total_le_length f k n, weigh_le_length n (f n))
