-- ===== src/Jiukun/Buddy/Merge.antt =====
-- jiukun/buddy.c: the loop of `_freeOnePage`.
use jiufeng.Prelude.{
  ℕ, zero, suc, ◌+◌, ◌-◌, ◌^◌, ◌≤◌, ◌<◌, ◌≡◌, inl, inr, refl, sym, ap, subst, arith, true, List,
  leb, ltb, if◌then◌else◌, All, Bool-cases,
}
use jiufeng.Jiukun.Buddy.{Zone, add_free, get_buddy_index, is_buddy_page, merge_page, take_buddy}
use jiufeng.Jiukun.Buddy.Aligned.{
  Aligned, Pair, Aligned-end, Aligned-pred, Aligned-le, buddy-Pair, covers-at, covers-first,
  covers-pair, ends_by,
}
use jiufeng.Jiukun.Buddy.Blocks.{IsBlock}
use jiufeng.Jiukun.Buddy.Counts.{weigh, total, covers, pow_pos}
use jiufeng.Jiukun.Buddy.Heads.{heads, weigh_le_total, All-heads, heads-weigh_le, block_of_page}
use jiufeng.Jiukun.Buddy.Tiles.{
  Tiled, FreeAt, UsedAt, all_pages, one_piece, add_free-Tiled, take_buddy-Tiled, hand-Tiled,
}

double_pow : (k : ℕ) → 2 ^ suc k ≡ 2 ^ k + 2 ^ k
double_pow k = grind arith

-- A block in hand below the last order, and its buddy.
module _ (m k p b : ℕ) (block : IsBlock (all_pages m) k p) (up : suc k < m)
    (pair : Pair k p b) where
  low_end : pair.low + 2 ^ suc k ≤ all_pages m
  low_end =
      let all = Aligned-le (suc k) (m - 1) (all_pages m) (omega (arith, up)) (1, omega arith) in
      let pos = pow_pos k in
      ends_by (suc k) pair.low (all_pages m) pair.pair_low all (elim pair.sides [
        | inl (x, y) ↦ omega (arith, x, block.1, pos)
        | inr (x, y) ↦ omega (arith, y, block.1, pos)
      ])

  pub low-IsBlock : IsBlock (all_pages m) (suc k) pair.low
  low-IsBlock = (pair.pair_low, low_end)

  pub buddy-IsBlock : IsBlock (all_pages m) k b
  buddy-IsBlock =
      let a = Aligned-pred k pair.low pair.pair_low in
      let c = Aligned-end k pair.low a in
      let d = double_pow k in
      let e = low_end in
      elim pair.sides [
        | inl (x, y) ↦ (subst (Aligned k) (sym y) c, omega (arith, y, d, e))
        | inr (x, y) ↦ (subst (Aligned k) (sym x) a, omega (arith, x, d, e))
      ]

  buddy_apart : covers b k p ≡ 0
  buddy_apart =
      let pos = pow_pos k in
      elim pair.sides [
        | inl (x, y) ↦ ground (arith, x, y, pos)
        | inr (x, y) ↦ ground (arith, x, y, pos)
      ]

  -- A bigger block that has the buddy has the block in hand.
  pub covers_both : (j q : ℕ) → k < j → Aligned j q → covers b j q ≡ 1 → covers p j q ≡ 1
  covers_both j q h a c =
      let (up_to, down_to) = covers-pair j k pair.low q h pair.pair_low a in
      elim pair.sides [
        | inl (x, y) ↦
            subst (λ i. covers i j q ≡ 1) (sym x) (down_to (subst (λ i. covers i j q ≡ 1) y c))
        | inr (x, y) ↦
            subst (λ i. covers i j q ≡ 1) (sym y) (up_to (subst (λ i. covers i j q ≡ 1) x c))
      ]

  -- If the buddy lies in a piece of a family and the block in hand does not, then it begins one.
  module _ (f : ℕ → List ℕ) (P : ℕ → ℕ → Type 0) (all : (j : ℕ) → All (P j) (f j))
      (blocks : (j q : ℕ) → P j q → IsBlock (all_pages m) j q) where
    buddy_begins :
        0 < total (covers b) f m
        → total (covers p) f m ≡ 0
        → (j : ℕ) × (0 < weigh (heads b) j (f j)) × P j b
    buddy_begins h none =
        let (j, q, lt, i, c) = block_of_page b f m h in
        let at = All-heads q (P j) j (f j) (all j) i in
        let a = (blocks j q at).0 in
        elim (Bool-cases (leb j k)) [
          | inl le ↦
              let e = covers-first j k b q (ground (arith, le)) (buddy-IsBlock.0) a c in
              (j, subst (λ x. 0 < weigh (heads x) j (f j)) e i, subst (P j) e at)
          | inr gt ↦
              let both = covers_both j q (ground (arith, gt)) a c in
              absurd (
                omega (
                  arith,
                  both,
                  none,
                  heads-weigh_le q (covers p) j (f j) i,
                  weigh_le_total (covers p) f j m lt,
                ))
        ]

  -- A page that `_isBuddyPage` takes for the buddy begins a free block of the order.
  buddy_is_free :
      (z : Zone) (held : ℕ → List ℕ)
      → Tiled m z held (λ w. w k p)
      → is_buddy_page z b k ≡ true
      → 0 < weigh (heads b) k (z.free k)
  unfolding is_buddy_page
  buddy_is_free z held t e =
      let pos = pow_pos k in
      let at_b = one_piece m held z (λ w. w k p) b t (omega (arith, buddy-IsBlock.1, pos)) in
      let at_p = one_piece m held z (λ w. w k p) p t (omega (arith, block.1, pos)) in
      let own = covers-at p k p (omega arith) (omega (arith, pos)) in
      let apart = buddy_apart in
      elim (Bool-cases (ltb 0 (total (covers b) z.free m))) [
        | inl h ↦
            let (j, i, (q, o)) =
              buddy_begins z.free (FreeAt m z) t.frees (λ j q x. x.0) (ground (arith, h))
                (omega (arith, at_p, own)) in
            let o' : j ≡ k = ground (arith, o, e) in
            subst (λ x. 0 < weigh (heads b) x (z.free x)) o' i
        | inr h ↦
            let (j, i, (q, o)) =
              buddy_begins held (UsedAt m z) t.helds (λ j q x. x.0) (ground (arith, h, at_b, apart))
                (omega (arith, at_p, own)) in
            absurd (ground (arith, o, e))
      ]

  -- One round of the loop.
  pub round-Tiled :
      (z : Zone) (held : ℕ → List ℕ)
      → Tiled m z held (λ w. w k p)
      → is_buddy_page z b k ≡ true
      → Tiled m (take_buddy z b k) held (λ w. w (suc k) pair.low)
  round-Tiled z held t e =
      let pos = pow_pos k in
      let lt : k < m = omega (arith, up) in
      let taken =
        take_buddy-Tiled m held z (λ w. w k p) (λ w. 0) k p t lt b (buddy_is_free z held t e)
          (omega (arith, buddy-IsBlock.1, pos)) in
      hand-Tiled m held (take_buddy z b k) (λ w. w k p + w k b) (λ w. w (suc k) pair.low) taken
        (λ w half. elim pair.sides [
          | inl (x, y) ↦
              let u = ap (w k) x in let v = ap (w k) y in omega (arith, half k pair.low, u, v)
          | inr (x, y) ↦
              let u = ap (w k) x in let v = ap (w k) y in omega (arith, half k pair.low, u, v)
        ])

  -- The page that the next round starts from.
  pub next_page : (if ltb p b then p else b) ≡ pair.low
  next_page =
      let pos = pow_pos k in
      elim pair.sides [
        | inl (x, y) ↦ ground (arith, x, y, pos)
        | inr (x, y) ↦ ground (arith, x, y, pos)
      ]

put_back-Tiled :
    (m : ℕ) (z : Zone) (held : ℕ → List ℕ) (k p : ℕ)
    → k < m
    → IsBlock (all_pages m) k p
    → Tiled m z held (λ w. w k p)
    → Tiled m (add_free z k p) held (λ w. 0)
put_back-Tiled m z held k p lt block t =
    add_free-Tiled m held z (λ w. w k p) (λ w. 0) k p t lt block (λ w half. omega arith)

-- The loop from a block in hand on: it puts one block into a free list.
pub merge_page-Tiled :
    (m n : ℕ) (z : Zone) (held : ℕ → List ℕ) (k p : ℕ)
    → suc (k + n) ≡ m
    → IsBlock (all_pages m) k p
    → Tiled m z held (λ w. w k p)
    → Tiled m (merge_page n z p p k) held (λ w. 0)
unfolding merge_page
merge_page-Tiled m zero z held k p e block t =
    put_back-Tiled m z held k p (omega (arith, e)) block t
merge_page-Tiled m (suc n) z held k p e block t =
    let b = get_buddy_index p k in
    let pair = buddy-Pair k p (block.0) in
    let up : suc k < m = omega (arith, e) in
    let same : p + b - p ≡ b = omega arith in
    let next = next_page m k p b block up pair in
    elim (Bool-cases (is_buddy_page z b k)) [
      | inl i ↦
          let more =
            merge_page-Tiled m n (take_buddy z b k) held (suc k) pair.low (omega (arith, e))
              (low-IsBlock m k p b block up pair) (round-Tiled m k p b block up pair z held t i) in
          rw (same, i, next)
            (subst
              (λ x. Tiled m (merge_page n (take_buddy z b k) pair.low pair.low x) held (λ w. 0))
              (omega arith) more)
      | inr i ↦ rw (same, i) (put_back-Tiled m z held k p (omega (arith, e)) block t)
    ]

-- The loop leaves the counter of free pages and the measures of the zone alone.
pub merge_page-keeps :
    (n : ℕ) (z : Zone) (p i k : ℕ)
    → (Zone.free_pages (merge_page n z p i k) ≡ z.free_pages)
      × (Zone.max_order (merge_page n z p i k) ≡ z.max_order)
      × (Zone.num_of_page (merge_page n z p i k) ≡ z.num_of_page)
unfolding merge_page add_free take_buddy
merge_page-keeps zero z p i k = (refl, refl, refl)
merge_page-keeps (suc n) z p i k =
    let b = p + get_buddy_index i k - i in
    let next = if ltb i (get_buddy_index i k) then p else b in
    elim (Bool-cases (is_buddy_page z b k)) [
      | inl e ↦ rw e (merge_page-keeps n (take_buddy z b k) next next (k + 1))
      | inr e ↦ rw e (refl, refl, refl)
    ]
