-- ===== src/Jiukun/Buddy/Whole.antt =====
-- jiukun/buddy.c: a zone that gets all its blocks back is as new.
use jiufeng.Prelude.{
  ℕ, zero, suc, ◌+◌, ◌-◌, ◌/◌, ◌%◌, ◌^◌, ◌≤◌, ◌<◌, ◌≡◌, inl, inr, refl, sym, ap, subst, ◌∙◌, arith,
  Option, none, some, List, [], ◌∷◌, ◌==◌, Bool-cases, ==_iff, Option-cases, length,
}
use jiufeng.Prelude.Counts.{update}
use jiufeng.Jiukun.Buddy.{
  num_of_area, Zone, add_free, create_buddy_zone, first_area, free_one_page, get_buddy_index,
  mark_block, rm_found, rmqueue, split_page_list, take_block,
}
use jiufeng.Jiukun.Buddy.Aligned.{Aligned, get_buddy_index_upper, covers-at}
use jiufeng.Jiukun.Buddy.Blocks.{IsBlock, first_area-some}
use jiufeng.Jiukun.Buddy.Coalesce.{
  IsMerged, IsMerged-shorter, add_free-IsMerged, merge_page-IsMerged,
}
use jiufeng.Jiukun.Buddy.Counts.{weigh, total, pages, pow_pos, pages-IsHalving}
use jiufeng.Jiukun.Buddy.Free.{
  IsTiled, free_one_page-max_order, held-IsBlock, released, rest, release-Tiled, page_in_range,
}
use jiufeng.Jiukun.Buddy.Heads.{heads, heads_le}
use jiufeng.Jiukun.Buddy.Hold.{split_step, take_block-Tiled, front-IsBlock}
use jiufeng.Jiukun.Buddy.OneBlock.{new_list, total_of_none}
use jiufeng.Jiukun.Buddy.Runs.{Run, created, gotten, put, Run-max_order, Run-IsTiled}
use jiufeng.Jiukun.Buddy.Tiles.{Tiled, all_pages, one_piece, absent}

-- Each half that a split frees is the buddy of a block that is not free.
split_page_list-IsMerged :
    (m : ℕ) (held : ℕ → List ℕ) (low n : ℕ) (z : Zone) (page high size : ℕ)
    → high ≡ low + n
    → size ≡ 2 ^ high
    → high < m
    → IsBlock (all_pages m) high page
    → Tiled m z held (λ w. w high page)
    → IsMerged m z
    → IsMerged m (split_page_list n z page high size)
unfolding split_page_list
split_page_list-IsMerged m held low zero z page high size e s lt block t v = v
split_page_list-IsMerged m held low (suc n) z page high size e s lt block t v =
    let c = high - 1 in
    let e0 : high ≡ suc c = omega (arith, e) in
    let (s', lower, there, added) =
      split_step m held z page high size (omega (arith, e)) s lt block t in
    let pos = pow_pos high in
    let one = one_piece m held z (λ w. w high page) page t (omega (arith, block.1, pos)) in
    let own = covers-at page high page (omega arith) (omega (arith, pos)) in
    let gone : total (heads page) z.free m ≡ 0 = omega (arith, one, own, heads_le page z.free m) in
    let back : get_buddy_index (page + size / 2) c ≡ page =
      ap (λ x. get_buddy_index (page + x) c) s'
      ∙ get_buddy_index_upper c page (subst (λ k. Aligned k page) e0 (block.0)) in
    let alone : weigh (heads (get_buddy_index (page + size / 2) c)) c (z.free c) ≡ 0 =
      rw back (absent m held page z.free c gone (λ h. (t.outside c h).0)) in
    split_page_list-IsMerged m held low n (add_free z c (page + size / 2)) page c (size / 2)
      (omega (arith, e)) s' (omega (arith, lt)) lower added
      (add_free-IsMerged m z c (page + size / 2) (there.0) (t.frees c) v (λ h. alone))

shorter_front :
    (z : Zone) (order k p : ℕ) (rest : List ℕ)
    → z.free k ≡ p ∷ rest
    → (j b : ℕ)
    → weigh (heads b) j (Zone.free (take_block z order k p rest) j) ≤ weigh (heads b) j (z.free j)
unfolding take_block
shorter_front z order k p rest e j b = elim (Bool-cases (j == k)) [
  | inl x ↦
      let s : z.free j ≡ p ∷ rest = ap z.free ((==_iff j k).0 x) ∙ e in
      let w : weigh (heads b) j (z.free j) ≡ weigh (heads b) j (p ∷ rest) =
        ap (weigh (heads b) j) s in
      rw x (omega (arith, w))
  | inr x ↦ rw x (omega arith)
]

-- What comes back of a zone without free buddies has none.
abbrev IsMergedAfter : ℕ → Option (ℕ × Zone) → Type 0
IsMergedAfter m none = Unit
IsMergedAfter m (some (p, z')) = IsMerged m z'

rmqueue-IsMergedAfter :
    (z : Zone) (held : ℕ → List ℕ) (order : ℕ)
    → Tiled z.max_order z held (λ w. 0)
    → IsMerged z.max_order z
    → IsMergedAfter z.max_order (rmqueue z order)
unfolding rmqueue rm_found
rmqueue-IsMergedAfter z held order t v =
    elim (Option-cases (first_area (z.max_order - order) z order)) [
      | inl e ↦ rw e tt
      | inr ((k, q, rest), e) ↦
          let m = z.max_order in
          let (f, low, high) = first_area-some (m - order) z order k q rest e in
          let lt : k < m = omega (arith, low, high) in
          let taken = take_block z order k q rest in
          rw e (
            split_page_list-IsMerged m held order (k - order) taken q k (2 ^ k) (omega (arith, low))
              refl lt (front-IsBlock m held z t order k q rest lt f)
              (take_block-Tiled m held z t order k q rest lt f)
              (IsMerged-shorter m z taken (shorter_front z order k q rest f) v))
    ]

free_one_page-IsMerged :
    (z : Zone) (held : ℕ → List ℕ) (k p : ℕ)
    → IsTiled z held
    → k < z.max_order
    → 0 < weigh (heads p) k (held k)
    → IsMerged z.max_order z
    → IsMerged z.max_order (free_one_page z p k)
unfolding free_one_page
free_one_page-IsMerged z held k p v lt at merged =
    let m = z.max_order in
    let n = (z.free_pages + 2 ^ k) % 2 ^ 32 in
    let t = v.tiled in
    let block = held-IsBlock m n z held k p t lt at in
    rw (page_in_range m k p block) (
      merge_page-IsMerged m (m - 1 - k) (released m n z held k p t lt at)
        (rest m n z held k p t lt at) k p (omega (arith, lt)) block
        (release-Tiled m n z held k p t lt at) merged)

-- No state that calls lead to has a free block beside its free buddy.
Run-IsMerged :
    (m pool : ℕ) (z : Zone) (held : ℕ → List ℕ)
    → 0 < m
    → m ≤ num_of_area
    → Run m pool z held
    → IsMerged z.max_order z
unfolding create_buddy_zone
Run-IsMerged m pool z held pos top created = λ j p lt h. ground (arith, lt, h)
Run-IsMerged m pool z held pos top (gotten {z = y} {z' = y'} {held = before} k p r h) =
    let w = Run-IsTiled m pool y before pos top r in
    let e = Run-max_order m pool y before pos top r in
    let e' =
      Run-max_order m pool (mark_block y' p k) (update before k (p ∷ before k)) pos top
        (gotten k p r h) in
    subst (λ n. IsMerged n y') (e ∙ sym e')
      (subst (IsMergedAfter y.max_order) h
        (rmqueue-IsMergedAfter y before k w.tiled (Run-IsMerged m pool y before pos top r)))
Run-IsMerged m pool z held pos top (put {z = y} {held = before} k p r lt at) =
    let w = Run-IsTiled m pool y before pos top r in
    subst (λ n. IsMerged n (free_one_page y p k)) (sym (free_one_page-max_order y p k))
      (free_one_page-IsMerged y before k p w lt at (Run-IsMerged m pool y before pos top r))

-- A zone from `_createBuddyZone` with a maximum order of 1 to 15, after any sequence of calls that
-- has given back all blocks, is as it was made: the counter of free pages, the free lists and their
-- counters are those of the new zone, and no page is marked as allocated. So `_freeOnePage` undoes
-- every split, in whatever order the blocks come back.
pub Run-new :
    (m pool : ℕ) (z : Zone) (held : ℕ → List ℕ)
    → 0 < m
    → m ≤ num_of_area
    → Run m pool z held
    → ((j : ℕ) → held j ≡ [])
    → let new = create_buddy_zone m pool in
      (z.free_pages ≡ new.free_pages)
      × ((j : ℕ) → (z.free j ≡ new.free j) × (z.num_free j ≡ new.num_free j))
      × ((q : ℕ) → z.allocated q ≡ new.allocated q)
unfolding create_buddy_zone
Run-new m pool z held pos top r back =
    let w = Run-IsTiled m pool z held pos top r in
    let new = create_buddy_zone m pool in
    let e = Run-max_order m pool z held pos top r in
    let v = Run-IsMerged m pool z held pos top r in
    let t = subst (λ n. Tiled n z held (λ w. 0)) e w.tiled in
    let v' = subst (λ n. IsMerged n z) e v in
    let unused : (w : ℕ → ℕ → ℕ) → total w held m ≡ 0 = λ w. total_of_none w held back m in
    let lists : (j : ℕ) → z.free j ≡ new.free j = λ j. new_list m z held t v' unused pos j in
    (
      w.counted
          ∙ ap (total pages z.free) e
          ∙ omega (arith, t.balance pages pages-IsHalving, unused pages),
      λ j. (lists j, t.exact j ∙ ap length (lists j) ∙ ground arith),
      λ q. t.marks q (unused (heads q)),
    )
