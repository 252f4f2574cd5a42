-- ===== src/Jiukun/Buddy/Tests.antt =====
-- jiukun/buddy.c: runs and examples of one zone.
use jiufeng.Prelude.{
  ℕ, ◌+◌, ◌-◌, ◌^◌, All, ◌≤◌, ◌<◌, ◌≡◌, refl, arith, Option, none, some, List, [], ◌∷◌,
}
use jiufeng.Prelude.Counts.{update, erase}
use jiufeng.Jiukun.Buddy.{Zone, create_buddy_zone, rmqueue, free_one_page, mark_block}
use jiufeng.Jiukun.Buddy.Counts.{total, covers, pages}
use jiufeng.Jiukun.Buddy.Tiles.{UsedAt}
use jiufeng.Jiukun.Buddy.Free.{IsTiled, free_one_page_lem}
use jiufeng.Jiukun.Buddy.Runs.{
  Run, created, gotten, put, Run-IsTiled, Run-one_piece, rmqueue-IsTiled,
}
use jiufeng.Jiukun.Buddy.Whole.{Run-new}
use jiufeng.Jiukun.Buddy.Rmqueue.{Handed, rmqueue_lem}
use jiufeng.Jiukun.Buddy.Create.{create_buddy_zone-IsZone}

rmqueue_lem_example : Handed (create_buddy_zone 4 65536) 1 (rmqueue (create_buddy_zone 4 65536) 1)
rmqueue_lem_example =
    rmqueue_lem (create_buddy_zone 4 65536) 1
      (create_buddy_zone-IsZone 4 65536 (omega arith) (omega arith))

-- The first block of two pages that a zone of eight pages hands out.
abbrev first_two : Option (ℕ × Zone)
first_two = rmqueue (create_buddy_zone 4 65536) 1

free_lists : Option (ℕ × Zone) → List (List ℕ)
free_lists none = []
free_lists (some (p, z)) = z.free 0 ∷ z.free 1 ∷ z.free 2 ∷ z.free 3 ∷ []

split_in_halves : free_lists first_two ≡ [] ∷ (2 ∷ []) ∷ (4 ∷ []) ∷ [] ∷ []
unfolding free_lists rmqueue create_buddy_zone
split_in_halves = refl

given_back : Option (ℕ × Zone) → List (List ℕ)
unfolding free_lists
given_back none = []
given_back (some (p, z)) = free_lists (some (p, free_one_page z p 1))

-- The freed block merges with its buddies into the block that it came from.
merged_again : given_back first_two ≡ [] ∷ [] ∷ [] ∷ (0 ∷ []) ∷ []
unfolding given_back free_lists rmqueue create_buddy_zone free_one_page
merged_again = refl

-- The zone without those two pages, and the list of them.
abbrev zone_left : Zone
zone_left = elim first_two [ none ↦ create_buddy_zone 4 65536 | some (p, z) ↦ z ]

abbrev in_use : ℕ → List ℕ
in_use = update (λ k. []) 1 (0 ∷ [])

two_gotten : first_two ≡ some (0, zone_left)
unfolding rmqueue create_buddy_zone
two_gotten = refl

abbrev new_run : Run 4 65536 (create_buddy_zone 4 65536) (λ k. [])
new_run = created

abbrev one_gotten : Run 4 65536 (mark_block zone_left 0 1) in_use
one_gotten = gotten 1 0 new_run two_gotten

new_IsTiled : IsTiled (create_buddy_zone 4 65536) (λ k. [])
new_IsTiled =
    Run-IsTiled 4 65536 (create_buddy_zone 4 65536) (λ k. []) (omega arith) (omega arith) new_run

Run-one_piece_example :
    (total (covers 5) (Zone.free (mark_block zone_left 0 1)) 4 + total (covers 5) in_use 4 ≡ 1)
    × (Zone.free_pages (mark_block zone_left 0 1) + total pages in_use 4 ≡ 2 ^ (4 - 1))
    × All (UsedAt 4 (mark_block zone_left 0 1) 1) (in_use 1)
    × ((j : ℕ) → 4 ≤ j → Zone.free (mark_block zone_left 0 1) j ≡ [])
Run-one_piece_example =
    Run-one_piece 4 65536 (mark_block zone_left 0 1) in_use 5 1 (omega arith) (omega arith)
      one_gotten (omega arith)

two_IsTiled : IsTiled (mark_block zone_left 0 1) in_use
two_IsTiled =
    rmqueue-IsTiled (create_buddy_zone 4 65536) zone_left (λ k. []) 1 0 new_IsTiled two_gotten

order_in_range : 1 < Zone.max_order (mark_block zone_left 0 1)
unfolding rmqueue create_buddy_zone
order_in_range = omega arith

free_one_page_lem_example :
    IsTiled (free_one_page (mark_block zone_left 0 1) 0 1) (λ j. erase 0 (in_use j))
free_one_page_lem_example =
    free_one_page_lem (mark_block zone_left 0 1) in_use 1 0 two_IsTiled order_in_range (omega arith)

none_in_use : (j : ℕ) → erase 0 (in_use j) ≡ []
none_in_use j = ground arith

Run-new_example :
    let z = free_one_page (mark_block zone_left 0 1) 0 1 in
    let new = create_buddy_zone 4 65536 in
    (z.free_pages ≡ new.free_pages)
    × ((j : ℕ) → (z.free j ≡ new.free j) × (z.num_free j ≡ new.num_free j))
    × ((q : ℕ) → z.allocated q ≡ new.allocated q)
Run-new_example =
    Run-new 4 65536 (free_one_page (mark_block zone_left 0 1) 0 1) (λ j. erase 0 (in_use j))
      (omega arith) (omega arith) (put 1 0 one_gotten order_in_range (omega arith)) none_in_use
