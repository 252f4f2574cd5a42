-- ===== src/Jiukun/Buddy/Rmqueue.antt =====
-- jiukun/buddy.c: what `_rmqueue` hands out and what it leaves in the zone.
use jiufeng.Prelude.{
  ℕ, suc, ◌+◌, ◌-◌, ◌%◌, ◌^◌, ◌≤◌, ◌<◌, ◌≡◌, refl, ap, subst, arith, Option, none, some, List, [],
  ◌∷◌, length, All, Option-cases, inl, inr,
}
use jiufeng.Prelude.Counts.{update}
use jiufeng.Prelude.Word.{dec_u32_pos}
use jiufeng.Jiukun.Buddy.{Zone, first_area, take_block, rm_found, rmqueue, split_page_list}
use jiufeng.Jiukun.Buddy.Counts.{
  total, weigh, IsHalving, total-update, total-split_page_list, pages, covers, total_le_length,
  pages-IsHalving, covers-IsHalving,
}
use jiufeng.Jiukun.Buddy.Blocks.{
  IsExact, HasBlocks, IsBlock, first_area-some, first_area-none, update-All,
  split_page_list-IsExact, split_page_list-HasBlocks, split_page_list-keeps,
}

-- The invariant of a zone: the counter of free pages is the sum of the sizes of the free blocks and
-- each area counts its list; a free block begins at a multiple of its size and lies in the zone; and
-- no page lies in two free blocks.
pub record IsZone (z : Zone) : Type 0 where
  pub counted : z.free_pages ≡ total pages z.free z.max_order
  pub small : z.free_pages < 2 ^ 32
  pub exact : IsExact z
  pub blocks : HasBlocks z
  pub once : (x : ℕ) → total (covers x) z.free z.max_order ≤ 1

-- What may come back: no block is free at the order or above; or the block is well placed, the
-- zone is whole, and the free blocks were those of the new zone and the block, page by page.
abbrev pub Handed : Zone → ℕ → Option (ℕ × Zone) → Type 0
Handed z order none = (k : ℕ) → order ≤ k → k < z.max_order → z.free k ≡ []
Handed z order (some (p, z')) =
    IsZone z'
    × IsBlock z.num_of_page order p
    × (z.free_pages ≡ z'.free_pages + 2 ^ order)
    × (z'.max_order ≡ z.max_order)
    × (z'.num_of_page ≡ z.num_of_page)
    × ((x : ℕ)
        → total (covers x) z.free z.max_order
          ≡ total (covers x) z'.free z'.max_order + covers x order p)

module _ (z : Zone) (order k p : ℕ) (rest : List ℕ) (v : IsZone z) (e : z.free k ≡ p ∷ rest)
    (low : order ≤ k) (high : k < z.max_order) where
  taken : Zone
  taken = take_block z order k p rest

  left : Zone
  left = split_page_list (k - order) taken p k (2 ^ k)

  -- Each halving weight of the free blocks is split between the block and the rest.
  total-left :
      (w : ℕ → ℕ → ℕ)
      → IsHalving w
      → total w left.free z.max_order + w order p ≡ total w z.free z.max_order
  unfolding left taken take_block
  total-left w half =
      let step : total w (update z.free k rest) z.max_order + weigh w k (z.free k)
          ≡ total w z.free z.max_order + weigh w k rest =
        total-update w z.free k rest z.max_order high in
      let at : weigh w k (z.free k) ≡ w k p + weigh w k rest = ap (weigh w k) e in
      let split : total w left.free z.max_order + w order p
          ≡ total w (update z.free k rest) z.max_order + w k p =
        total-split_page_list w half (k - order) taken p order k (2 ^ k) (omega (arith, low)) refl
          (omega (arith, high)) in
      omega (arith, step, at, split)

  taken-IsExact : IsExact taken
  unfolding taken take_block
  taken-IsExact i =
      let n : length (z.free k) ≡ suc (length rest) = ap length e in
      let le = total_le_length z.free k z.max_order high in
      let c = v.counted in
      let s = v.small in
      let d = dec_u32_pos (z.num_free k) in grind (arith, n, le, c, s, d, v.exact i, v.exact k)

  taken-HasBlocks : HasBlocks taken × IsBlock z.num_of_page k p
  unfolding taken take_block
  taken-HasBlocks =
      let all : All (IsBlock z.num_of_page k) (p ∷ rest) =
        subst (All (IsBlock z.num_of_page k)) e (v.blocks k) in
      (update-All (IsBlock z.num_of_page) z.free k rest (all.1) v.blocks, all.0)

  taken-total : total pages (Zone.free taken) z.max_order + 2 ^ k ≡ z.free_pages
  unfolding taken take_block
  taken-total =
      let step = total-update pages z.free k rest z.max_order high in
      let at : weigh pages k (z.free k) ≡ 2 ^ k + weigh pages k rest = ap (weigh pages k) e in
      let c = v.counted in omega (arith, step, at, c)

  left-free_pages : z.free_pages ≡ Zone.free_pages left + 2 ^ order
  unfolding left taken take_block
  left-free_pages =
      let keep : Zone.free_pages left ≡ (z.free_pages + 2 ^ 32 - 2 ^ order) % 2 ^ 32 =
        (split_page_list-keeps (k - order) taken p k (2 ^ k)).0 in
      let t = total-left pages pages-IsHalving in
      let c = v.counted in let s = v.small in omega (arith, keep, t, c, s)

  left-max_order : Zone.max_order left ≡ z.max_order
  unfolding left taken take_block
  left-max_order = (split_page_list-keeps (k - order) taken p k (2 ^ k)).1

  left-num_of_page : Zone.num_of_page left ≡ z.num_of_page
  unfolding left taken take_block
  left-num_of_page = (split_page_list-keeps (k - order) taken p k (2 ^ k)).2

  left-total :
      (w : ℕ → ℕ → ℕ)
      → IsHalving w
      → total w z.free z.max_order ≡ total w left.free left.max_order + w order p
  left-total w half =
      let t = total-left w half in
      let m = ap (λ n. total w left.free n) left-max_order in omega (arith, t, m)

  left-IsExact : IsExact left
  unfolding left taken take_block
  left-IsExact =
      let t = taken-total in
      let s = v.small in
      split_page_list-IsExact order (k - order) taken p k (2 ^ k) (omega (arith, low)) refl
        (omega (arith, high)) (omega (arith, t, s)) taken-IsExact

  left-blocks : HasBlocks left × IsBlock z.num_of_page order p
  unfolding left taken take_block
  left-blocks =
      split_page_list-HasBlocks order (k - order) taken p k (2 ^ k) (omega (arith, low)) refl
        (taken-HasBlocks.1) (taken-HasBlocks.0)

  left-IsZone : IsZone left
  left-IsZone =
      let f = left-free_pages in
      let c = v.counted in
      let s = v.small in
      let t = left-total pages pages-IsHalving in
      record {
        counted = omega (arith, f, c, t);
        small = omega (arith, f, s);
        exact = left-IsExact;
        blocks = left-blocks.0;
        once = λ x. omega (arith, left-total (covers x) (covers-IsHalving x), v.once x);
      }

  left-Handed : Handed z order (some (p, left))
  left-Handed = (
    left-IsZone,
    left-blocks.1,
    left-free_pages,
    left-max_order,
    left-num_of_page,
    λ x. left-total (covers x) (covers-IsHalving x),
  )

-- `_rmqueue` on a zone whose counters and free lists agree and whose free blocks do not overlap:
-- it returns NULL only when no area of the order or above has a free block; else the block begins
-- at a multiple of its size and lies in the zone, `bz_u32FreePages` falls by its size, each page
-- that was free is now in the block or in exactly the free blocks that remain, and the zone is
-- whole again.
pub rmqueue_lem : (z : Zone) (order : ℕ) → IsZone z → Handed z order (rmqueue z order)
unfolding rmqueue rm_found left taken
rmqueue_lem z order v = elim (Option-cases (first_area (z.max_order - order) z order)) [
  | inl e ↦
      rw e (λ i a b. first_area-none (z.max_order - order) z order i e a (omega (arith, a, b)))
  | inr ((k, q, rest), e) ↦
      let (f, low, high) = first_area-some (z.max_order - order) z order k q rest e in
      rw e (left-Handed z order k q rest v f low (omega (arith, low, high)))
]
