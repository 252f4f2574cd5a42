-- ===== src/Jiukun/Pages.antt =====
-- jiukun/buddy.c: the page allocator over its zones.
-- A page is the index of its zone and its index in the zone. Memory from outside (jf_mem) is what the
-- calls of `_createBuddyZone` get: the start of the pool, or the code of the call that failed.
pub mod Choice
pub mod Alloc
pub mod Address
mod Tests
use jiufeng.Prelude.{
  ℕ, zero, suc, ◌+◌, ◌-◌, ◌*◌, ◌/◌, ◌^◌, Bool, true, false, not, ◌&&◌, ◌||◌, Option, none, some,
  List, [], ◌∷◌, ◌++◌, ltb, leb, ◌==◌, if◌then◌else◌, length, get_elem?, set,
}
use jiufeng.Prelude.Counts.{update}
use jiufeng.Jiutai.Err.{Code, Result, ok, err}
use jiufeng.Jiukun.Buddy.{Zone, mark_block, rmqueue, free_one_page, create_buddy_zone}

-- `internal_jiukun_buddy_t`
pub record Buddy : Type 0 where
  pub no_grow : Bool
  pub max_order : ℕ
  pub zones : List Zone

-- MAX_BUDDY_ZONES
abbrev pub max_buddy_zones : ℕ
max_buddy_zones = 20

-- `_createBuddyZone` with what its allocations return.
pub create_zone : Result ℕ → ℕ → Result Zone
create_zone (err e) max_order = err e
create_zone (ok pool) max_order = ok (create_buddy_zone max_order pool)

-- The search of `_allocPages` from zone `index` on; `left` and `id` are its variables, U32_MAX at
-- first.
pub find_zone : List Zone → ℕ → ℕ → ℕ → ℕ → ℕ
find_zone [] index pages left id = id
find_zone (z ∷ zs) index pages left id =
    let fits = leb pages z.free_pages && ltb (z.free_pages - pages) left in
    find_zone zs (index + 1) pages (if fits then z.free_pages - pages else left)
      (if fits then index else id)

-- `_rmqueue` on the zone with the index `id`, written back to the array.
pub alloc_from : Buddy → ℕ → ℕ → Option Zone → Option (ℕ × ℕ × Buddy)
alloc_from b id order none = none
alloc_from b id order (some z) = elim (rmqueue z order) [
  | none ↦ none
  | some (p, z') ↦ some (id, p, record b { zones = set b.zones id z' })
]

-- `_allocPages` from the creation of a zone on: the new zone is the last one.
pub grow : Buddy → ℕ → Result Zone → Option (ℕ × ℕ) × Buddy
unfolding alloc_from
grow b order (err e) = (none, b)
grow b order (ok z) =
    let b' = record b { zones = b.zones ++ z ∷ [] } in
    elim (alloc_from b' (length b.zones) order (some z)) [
      | none ↦ (none, b')
      | some (id, p, b'') ↦ (some (id, p), b'')
    ]

-- `_allocPages`; `none` is NULL.
pub alloc_pages : Result ℕ → Buddy → ℕ → Option (ℕ × ℕ) × Buddy
unfolding find_zone alloc_from create_zone grow
alloc_pages memory b order =
    let id = find_zone b.zones 0 (2 ^ order) (2 ^ 32 - 1) (2 ^ 32 - 1) in
    let found = if id == 2 ^ 32 - 1 then none else alloc_from b id order (get_elem? b.zones id) in
    let grown = grow b order (create_zone memory b.max_order) in
    let or_null = if length b.zones == max_buddy_zones || b.no_grow then (none, b) else grown in
    elim found [ none ↦ or_null | some (id', p, b') ↦ (some (id', p), b') ]

-- `initJiukunBuddy`, when the mutex can be made.
pub init_jiukun_buddy : Result ℕ → ℕ → Bool → Result Buddy
unfolding create_zone
init_jiukun_buddy memory max_order no_grow = elim (create_zone memory (max_order + 1)) [
  | err e ↦ err e
  | ok z ↦ ok (record { no_grow = no_grow; max_order = max_order + 1; zones = z ∷ [] })
]

-- `putJiukunPage` on a page of a zone; `none` is its `abort ()`.
pub put_page : Buddy → ℕ → ℕ → Option Zone → Option Buddy
put_page b id p none = none
put_page b id p (some z) =
    let done = some (record b { zones = set b.zones id (free_one_page z p (z.order p)) }) in
    if z.allocated p then done else none

-- `putJiukunPage`
pub put_jiukun_page : Buddy → ℕ × ℕ → Option Buddy
unfolding put_page
put_jiukun_page b (id, p) = put_page b id p (get_elem? b.zones id)

-- BUDDY_PAGE_SIZE
abbrev pub buddy_page_size : ℕ
buddy_page_size = 2 ^ 12

-- `jiukunPageToAddr`; `none` when there is no such zone.
pub jiukun_page_to_addr : Buddy → ℕ × ℕ → Option ℕ
jiukun_page_to_addr b (id, p) = elim (get_elem? b.zones id) [
  | none ↦ none
  | some z ↦ some (z.pool + p * buddy_page_size)
]

-- The loop of `addrToJiukunPage` from zone `index` on, and the lines behind it; `none` is `abort ()`.
pub addr_to_page : List Zone → ℕ → ℕ → Option (ℕ × ℕ)
addr_to_page [] index addr = none
addr_to_page (z ∷ zs) index addr =
    let next = addr_to_page zs (index + 1) addr in
    let here = leb z.pool addr && ltb addr (z.pool + z.num_of_page * buddy_page_size) in
    if here then some (index, (addr - z.pool) / buddy_page_size) else next

-- `addrToJiukunPage`
pub addr_to_jiukun_page : Buddy → ℕ → Option (ℕ × ℕ)
unfolding addr_to_page
addr_to_jiukun_page b addr = addr_to_page b.zones 0 addr
