-- ===== src/Jiukun/Pages/Tests.antt =====
-- jiukun/buddy.c: runs and examples of the page allocator.
use jiufeng.Prelude.{
  ℕ, zero, suc, ◌+◌, ◌≡◌, refl, arith, false, some, [], ◌∷◌, inl, some_injective, ap,
}
use jiufeng.Jiukun.Buddy.{Zone, create_buddy_zone}
use jiufeng.Jiutai.Err.{ok}
use jiufeng.Jiukun.Buddy.Create.{
  create_buddy_zone-place, create_buddy_zone-IsZone, create_buddy_zone-max_order,
}
use jiufeng.Jiukun.Pages.{Buddy, jiukun_page_to_addr, addr_to_jiukun_page, alloc_pages}
use jiufeng.Jiukun.Pages.Alloc.{IsBuddy, Answer, alloc_pages_lem}
use jiufeng.Jiukun.Pages.Address.{ArePoolsApart, addr_to_jiukun_page-page_to_addr}

-- Two zones of eight pages, in different places of memory.
abbrev two_zones : Buddy
two_zones = record {
  no_grow = false;
  max_order = 4;
  zones = create_buddy_zone 4 65536 ∷ create_buddy_zone 4 262144 ∷ [];
}

two_zones-ArePoolsApart : ArePoolsApart two_zones.zones
two_zones-ArePoolsApart zero (suc zero) y z l e f =
    let y' = some_injective _ y e in
    let z' = some_injective _ z f in
    let (a, b) = create_buddy_zone-place 4 65536 in
    let (c, d) = create_buddy_zone-place 4 262144 in
    inl (
      omega (
        arith,
        ap Zone.pool y',
        ap Zone.num_of_page y',
        ap Zone.pool z',
        ap Zone.num_of_page z',
        a,
        b,
        c,
      ))
two_zones-ArePoolsApart (suc i) (suc (suc j)) y z l e f = ground arith
two_zones-ArePoolsApart zero zero y z l e f = absurd (omega (arith, l))
two_zones-ArePoolsApart zero (suc (suc j)) y z l e f = ground arith
two_zones-ArePoolsApart (suc i) zero y z l e f = absurd (omega (arith, l))
two_zones-ArePoolsApart (suc i) (suc zero) y z l e f = absurd (omega (arith, l))

addr_to_jiukun_page-page_to_addr_example :
    (addr : ℕ) × (jiukun_page_to_addr two_zones (1, 3) ≡ some addr)
    × (addr_to_jiukun_page two_zones (addr + 100) ≡ some (1, 3))
addr_to_jiukun_page-page_to_addr_example =
    addr_to_jiukun_page-page_to_addr two_zones 1 3 100 (create_buddy_zone 4 262144)
      two_zones-ArePoolsApart refl (omega (arith, create_buddy_zone-place 4 262144)) (omega arith)

two_zones-IsBuddy : IsBuddy two_zones
two_zones-IsBuddy = (
  (
    (
      create_buddy_zone-IsZone 4 65536 (omega arith) (omega arith),
      create_buddy_zone-max_order 4 65536,
    ),
    (
      (
        create_buddy_zone-IsZone 4 262144 (omega arith) (omega arith),
        create_buddy_zone-max_order 4 262144,
      ),
      tt,
    ),
  ),
  omega arith,
  omega arith,
  omega arith,
)

alloc_pages_lem_example : Answer (ok 393216) two_zones 2 (alloc_pages (ok 393216) two_zones 2)
alloc_pages_lem_example = alloc_pages_lem (ok 393216) two_zones 2 two_zones-IsBuddy (omega arith)
