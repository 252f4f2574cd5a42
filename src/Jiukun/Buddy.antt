-- ===== src/Jiukun/Buddy.antt =====
-- jiukun/buddy.c: one zone of the buddy system.
-- A page is its index in `bz_papPage`. The lists of free blocks are lists of such indices, front
-- first; the fields of a page are functions of its index.
pub mod Index
pub mod Aligned
pub mod Heads
pub mod Blocks
pub mod Rmqueue
pub mod Tiles
pub mod Merge
pub mod Free
pub mod Hold
pub mod Runs
pub mod Coalesce
pub mod OneBlock
pub mod Whole
pub mod Create
pub mod Counts
mod Tests
use Prim.Native.Nat.{bit_xor}
use jiufeng.Prelude.{
  ℕ, zero, suc, ◌+◌, ◌-◌, ◌*◌, ◌/◌, ◌%◌, ◌^◌, Bool, true, false, not, ◌&&◌, Option, none, some,
  List, [], ◌∷◌, ltb, ◌==◌, if◌then◌else◌,
}
use jiufeng.Prelude.Counts.{update, erase}
use jiufeng.Prelude.Word.{inc_u32, dec_u32}

-- The entries of `bz_faFreeArea`, JF_JIUKUN_MAX_PAGE_ORDER + 1.
abbrev pub num_of_area : ℕ
num_of_area = 15

-- `buddy_zone_t` with the `free_area_t` and the flags of its pages. `pool` is `bz_pu8Pool`. The free
-- areas are tables by order, of which the array has the first `num_of_area` entries.
pub record Zone : Type 0 where
  pub free_pages : ℕ
  pub free : ℕ → List ℕ
  pub num_free : ℕ → ℕ
  pub max_order : ℕ
  pub num_of_page : ℕ
  pub allocated : ℕ → Bool
  pub order : ℕ → ℕ
  pub pool : ℕ

-- `jf_listhead_add` to the free list of an area, `fa_u32Free ++` and `_setPageOrder`.
pub add_free : Zone → ℕ → ℕ → Zone
add_free z k page = record z {
  free = update z.free k (page ∷ z.free k);
  num_free = update z.num_free k (inc_u32 (z.num_free k));
  order = update z.order page k;
}

-- `_splitPageList` with `n` rounds left, until `high` is `low`.
pub split_page_list : ℕ → Zone → ℕ → ℕ → ℕ → Zone
unfolding add_free
split_page_list zero z page high size = z
split_page_list (suc n) z page high size =
    let high' = high - 1 in
    let size' = size / 2 in split_page_list n (add_free z high' (page + size')) page high' size'

-- The search of `_rmqueue` over the areas with `n` rounds left: the order of the first that has a
-- free block, that block, and the others of the area.
pub first_area : ℕ → Zone → ℕ → Option (ℕ × ℕ × List ℕ)
first_area zero z current = none
first_area (suc n) z current =
    let next = first_area n z (current + 1) in
    elim (z.free current) [ [] ↦ next | page ∷ rest ↦ some (current, page, rest) ]

-- What `_rmqueue` does to the zone and to the first block it finds, before the split.
pub take_block : Zone → ℕ → ℕ → ℕ → List ℕ → Zone
take_block z order current page rest = record z {
  free = update z.free current rest;
  order = update z.order page 0;
  num_free = update z.num_free current (dec_u32 (z.num_free current));
  free_pages = (z.free_pages + 2 ^ 32 - 2 ^ order) % 2 ^ 32;
}

-- `_rmqueue` behind its search; `none` is NULL.
pub rm_found : Zone → ℕ → Option (ℕ × ℕ × List ℕ) → Option (ℕ × Zone)
unfolding take_block split_page_list
rm_found z order none = none
rm_found z order (some (current, page, rest)) = some (
  page,
  split_page_list (current - order) (take_block z order current page rest) page current
      (2 ^ current),
)

-- `_rmqueue`
pub rmqueue : Zone → ℕ → Option (ℕ × Zone)
unfolding first_area rm_found
rmqueue z order = rm_found z order (first_area (z.max_order - order) z order)

-- `_getBuddyIndex`
pub get_buddy_index : ℕ → ℕ → ℕ
get_buddy_index page_idx order = bit_xor page_idx (2 ^ order)

-- `_isBuddyPage`
pub is_buddy_page : Zone → ℕ → ℕ → Bool
is_buddy_page z page order = not (z.allocated page) && (z.order page == order)

-- One round of the loop of `_freeOnePage` on a buddy that is free: `jf_listhead_del` takes it from
-- the list that it is in.
pub take_buddy : Zone → ℕ → ℕ → Zone
take_buddy z buddy order = record z {
  free = λ k. erase buddy (z.free k);
  num_free = update z.num_free order (dec_u32 (z.num_free order));
  order = update z.order buddy 0;
}

-- The loop of `_freeOnePage` with `n` rounds to `bz_u32MaxOrder - 1`, and the lines behind it.
-- `page_idx` is the index of the page at the head of the loop.
pub merge_page : ℕ → Zone → ℕ → ℕ → ℕ → Zone
unfolding get_buddy_index is_buddy_page take_buddy add_free
merge_page zero z page page_idx order = add_free z order page
merge_page (suc n) z page page_idx order =
    let buddy_idx = get_buddy_index page_idx order in
    let buddy = page + buddy_idx - page_idx in
    let page' = if ltb page_idx buddy_idx then page else buddy in
    let more = merge_page n (take_buddy z buddy order) page' page' (order + 1) in
    if is_buddy_page z buddy order then more else add_free z order page

-- `_freeOnePage`
pub free_one_page : Zone → ℕ → ℕ → Zone
unfolding merge_page
free_one_page z page order =
    let z' = record z {
      allocated = update z.allocated page false;
      free_pages = (z.free_pages + 2 ^ order) % 2 ^ 32;
    } in
    merge_page (z.max_order - 1 - order) z' page (page % 2 ^ z.max_order) order

-- What `getJiukunPage` writes to the first page of the block that it returns, behind its loop.
abbrev pub mark_block : Zone → ℕ → ℕ → Zone
mark_block z page order = record z {
  order = update z.order page order;
  allocated = update z.allocated page true;
}

-- `_createBuddyZone`, when its allocations do not fail: `pool` is the memory that jf_mem_alloc gave.
-- Its write to the last area is one to the array for a `max_order` from 1 to `num_of_area`.
pub create_buddy_zone : ℕ → ℕ → Zone
create_buddy_zone max_order pool = record {
  free_pages = 2 ^ (max_order - 1);
  free = update (λ k. []) (max_order - 1) (0 ∷ []);
  num_free = update (λ k. 0) (max_order - 1) 1;
  max_order = max_order;
  num_of_page = 2 ^ (max_order - 1);
  allocated = λ p. false;
  order = update (λ p. 0) 0 (max_order - 1);
  pool = pool;
}
