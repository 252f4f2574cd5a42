-- ===== src/Jiukun/Buddy/Runs.antt =====
-- jiukun/buddy.c: a zone under any sequence of calls.
use jiufeng.Prelude.{
  ℕ, ◌+◌, ◌-◌, ◌^◌, ◌≤◌, ◌<◌, ◌≡◌, refl, sym, ap, subst, ◌∙◌, arith, some, List, [], ◌∷◌, All,
  All-map,
}
use jiufeng.Prelude.Counts.{erase, update}
use jiufeng.Jiukun.Buddy.{num_of_area, Zone, create_buddy_zone, free_one_page, mark_block, rmqueue}
use jiufeng.Jiukun.Buddy.Blocks.{IsBlock, update-All}
use jiufeng.Jiukun.Buddy.Counts.{
  weigh, total, pages, covers, pages-IsHalving, covers-IsHalving, pow_le,
}
use jiufeng.Jiukun.Buddy.Create.{create_buddy_zone-IsZone, total_none, total_one, covers_le_one}
use jiufeng.Jiukun.Buddy.Free.{IsTiled, IsTiled-at, free_one_page_lem, free_one_page-max_order}
use jiufeng.Jiukun.Buddy.Heads.{heads}
use jiufeng.Jiukun.Buddy.Hold.{InHand, rmqueue-InHand, mark_block-Tiled}
use jiufeng.Jiukun.Buddy.Rmqueue.{IsZone, Handed, rmqueue_lem}
use jiufeng.Jiukun.Buddy.Tiles.{Tiled, FreeAt, UsedAt, one_piece}

-- The states of a zone that calls lead to, with the blocks in use by order: `getJiukunPage` marks
-- what `_rmqueue` finds, and `putJiukunPage` gives a block that is in use to `_freeOnePage`.
pub data Run (max_order pool : ℕ) : Zone → (ℕ → List ℕ) → Type 0 where
  created : Run max_order pool (create_buddy_zone max_order pool) (λ k. [])
  gotten :
      {z z' : Zone} {held : ℕ → List ℕ} (k p : ℕ)
      → Run max_order pool z held
      → rmqueue z k ≡ some (p, z')
      → Run max_order pool (mark_block z' p k) (update held k (p ∷ held k))
  put :
      {z : Zone} {held : ℕ → List ℕ} (k p : ℕ)
      → Run max_order pool z held
      → k < z.max_order
      → 0 < weigh (heads p) k (held k)
      → Run max_order pool (free_one_page z p k) (λ j. erase p (held j))

pub IsTiled-IsZone : (z : Zone) (held : ℕ → List ℕ) → IsTiled z held → IsZone z
IsTiled-IsZone z held v =
    let t = v.tiled in
    record {
      counted = v.counted;
      small = omega (
        arith,
        v.counted,
        t.balance pages pages-IsHalving,
        pow_le (z.max_order - 1) 31 (omega (arith, t.top)),
      );
      exact = t.exact;
      blocks = λ j.
          All-map (FreeAt z.max_order z j) (IsBlock z.num_of_page j)
            (λ q x. subst (λ n. IsBlock n j q) (sym v.width) (x.0)) (z.free j) (t.frees j);
      once = λ x.
          omega
            (arith, t.balance (covers x) (covers-IsHalving x), covers_le_one x (z.max_order - 1) 0);
    }

-- `_rmqueue` and the marking of its block by `getJiukunPage` keep what `_freeOnePage` keeps, with
-- the block among those in use.
pub rmqueue-IsTiled :
    (z z' : Zone) (held : ℕ → List ℕ) (k p : ℕ)
    → IsTiled z held
    → rmqueue z k ≡ some (p, z')
    → IsTiled (mark_block z' p k) (update held k (p ∷ held k))
rmqueue-IsTiled z z' held k p v h =
    let m = z.max_order in
    let (t, block, lt) = subst (InHand m held k) h (rmqueue-InHand z held k v.tiled) in
    let (whole, place, count, same, width, cover) =
      subst (Handed z k) h (rmqueue_lem z k (IsTiled-IsZone z held v)) in
    IsTiled-at m (mark_block z' p k) (update held k (p ∷ held k)) same (width ∙ v.width)
      (whole.counted ∙ ap (total pages z'.free) same) (mark_block-Tiled m z' held k p t block lt)

create_buddy_zone-IsTiled :
    (m pool : ℕ) → 0 < m → m ≤ num_of_area → IsTiled (create_buddy_zone m pool) (λ k. [])
unfolding create_buddy_zone
create_buddy_zone-IsTiled m pool pos top =
    let whole = create_buddy_zone-IsZone m pool pos top in
    let z = create_buddy_zone m pool in
    IsTiled-at m z (λ k. []) refl refl whole.counted
      (record {
        top = omega (arith, top);
        balance = λ w half. omega (arith, total_one w m 0 pos, total_none w m);
        exact = whole.exact;
        outside = λ j h. (ground (arith, h, pos), refl);
        frees =
            update-All (FreeAt m z) (λ k. []) (m - 1) (0 ∷ [])
              ((((0, omega arith), omega arith), refl), tt) (λ k. tt);
        helds = λ j. tt;
        marks = λ q h. refl;
      })

-- Every state that calls lead to, from a maximum order of 1 to 15 on, is such a cut.
pub Run-IsTiled :
    (m pool : ℕ) (z : Zone) (held : ℕ → List ℕ)
    → 0 < m
    → m ≤ num_of_area
    → Run m pool z held
    → IsTiled z held
Run-IsTiled m pool z held pos top created = create_buddy_zone-IsTiled m pool pos top
Run-IsTiled m pool z held pos top (gotten k p r h) =
    rmqueue-IsTiled _ _ _ k p (Run-IsTiled m pool _ _ pos top r) h
Run-IsTiled m pool z held pos top (put k p r lt at) =
    free_one_page_lem _ _ k p (Run-IsTiled m pool _ _ pos top r) lt at

pub Run-max_order :
    (m pool : ℕ) (z : Zone) (held : ℕ → List ℕ)
    → 0 < m
    → m ≤ num_of_area
    → Run m pool z held
    → z.max_order ≡ m
unfolding create_buddy_zone
Run-max_order m pool z held pos top created = refl
Run-max_order m pool z held pos top (gotten {z = y} {z' = y'} {held = before} k p r h) =
    let w = Run-IsTiled m pool y before pos top r in
    let (whole, place, count, same, width, cover) =
      subst (Handed y k) h (rmqueue_lem y k (IsTiled-IsZone y before w)) in
    same ∙ Run-max_order m pool y before pos top r
Run-max_order m pool z held pos top (put {z = y} {held = before} k p r lt at) =
    free_one_page-max_order y p k ∙ Run-max_order m pool y before pos top r

-- In every state of a zone that calls lead to, from `_createBuddyZone` with a maximum order of 1 to
-- 15 on, each page of the zone lies in exactly one block, which is free or in use; the counter of
-- free pages and the pages in use add up to all pages; each block in use begins at a multiple of its
-- size, lies in the zone and is marked as allocated; and no area from the maximum order on has an
-- entry, so that the array of 15 areas is not overrun.
pub Run-one_piece :
    (m pool : ℕ) (z : Zone) (held : ℕ → List ℕ) (x k : ℕ)
    → 0 < m
    → m ≤ num_of_area
    → Run m pool z held
    → x < 2 ^ (m - 1)
    → (total (covers x) z.free m + total (covers x) held m ≡ 1)
      × (z.free_pages + total pages held m ≡ 2 ^ (m - 1))
      × All (UsedAt m z k) (held k)
      × ((j : ℕ) → m ≤ j → z.free j ≡ [])
Run-one_piece m pool z held x k pos top r lt =
    let w = Run-IsTiled m pool z held pos top r in
    let e = Run-max_order m pool z held pos top r in
    let t = subst (λ n. Tiled n z held (λ w. 0)) e w.tiled in
    let c = w.counted ∙ ap (total pages z.free) e in
    let one = one_piece m held z (λ w. 0) x t lt in
    (
      omega (arith, one),
      omega (arith, c, t.balance pages pages-IsHalving),
      t.helds k,
      λ j h. (t.outside j h).0,
    )
