-- ===== src/Jiukun/Slab/Sizes.antt =====
-- jiukun/slab.c: the number of objects of a slab, the order of its pages, and the general caches.
-- The sizes are `olsize_t`, signed, and stay far below 2^31, so that they are natural numbers here;
-- the size of a `slab_t` is an argument.
pub mod Estimate
pub mod Orders
pub mod Large
pub mod Create
pub mod General
use jiufeng.Prelude.{
  ℕ, zero, suc, ◌+◌, ◌-◌, ◌*◌, ◌/◌, ◌^◌, Bool, true, false, ◌&&◌, Option, none, some, List, [], ◌∷◌,
  ◌==◌, ltb, leb, if◌then◌else◌,
}
use jiufeng.Prelude.Word.{dec_u32}
use jiufeng.Jiutai.Err.{Code, Result, ok, err}
use jiufeng.Jiukun.Slab.{Slab, Cache, Supply, align_ceil, alloc_obj}

-- `BUDDY_PAGE_SIZE`
abbrev pub page_size : ℕ
page_size = 4096

-- `MAX_JP_ORDER`
abbrev pub max_jp_order : ℕ
max_jp_order = 11

-- `SLAB_LIMIT`
abbrev pub slab_limit : ℕ
slab_limit = 2 ^ 32 - 3

-- `SLAB_ALIGN_SIZE`
abbrev pub slab_align_size : ℕ
slab_align_size = 8

-- The bytes of `i` objects with what stands on the slab, in `_slabCacheEstimate`.
abbrev pub slab_bytes : ℕ → ℕ → ℕ → ℕ → ℕ
slab_bytes size base extra i = i * size + align_ceil slab_align_size (base + i * extra)

-- The loop of `_slabCacheEstimate`, on fuel.
pub estimate_loop : ℕ → ℕ → ℕ → ℕ → ℕ → ℕ → ℕ
estimate_loop zero size base extra wastage i = i
estimate_loop (suc fuel) size base extra wastage i =
    elim (leb (slab_bytes size base extra i) wastage) [
      | true ↦ estimate_loop fuel size base extra wastage (i + 1)
      | false ↦ i
    ]

-- `_slabCacheEstimate`: the number of objects and the bytes left over.
pub slab_cache_estimate : ℕ → ℕ → ℕ → Bool → ℕ × ℕ
unfolding estimate_loop
slab_cache_estimate size_of_slab jporder size off_slab =
    let wastage = page_size * 2 ^ jporder in
    let base = if off_slab then 0 else size_of_slab in
    let extra = if off_slab then 0 else 4 in
    let i = estimate_loop (wastage + 1) size base extra wastage 0 in
    let less = if ltb 0 i then i - 1 else i in
    let num = if ltb slab_limit less then slab_limit else less in
    (num, wastage - slab_bytes size base extra num)

-- The tests of a round of the loop of `_createSlabCache`: the order of the next round, or `none`
-- when the loop ends. `break_flag` is 0 in each round where it is tested.
pub next_order : ℕ → Bool → ℕ → ℕ × ℕ → Option ℕ
next_order off_slab_limit off_slab order (num, left_over) =
    if leb max_jp_order order
    then none
    else if num == 0
    then some (order + 1)
    else if off_slab && ltb off_slab_limit num
    then some (dec_u32 order)
    else if leb (left_over * 8) (page_size * 2 ^ order)
    then none
    else some order

-- That loop, on fuel: the order, the number of objects and the bytes left over; `none` when it has
-- not ended.
pub create_slab_loop : ℕ → ℕ → ℕ → ℕ → Bool → ℕ → Option (ℕ × ℕ × ℕ)
unfolding slab_cache_estimate next_order
create_slab_loop zero size_of_slab off_slab_limit size off_slab order = none
create_slab_loop (suc fuel) size_of_slab off_slab_limit size off_slab order =
    let e = slab_cache_estimate size_of_slab order size off_slab in
    elim (next_order off_slab_limit off_slab order e) [
      | none ↦ some (order, e.0, e.1)
      | some o ↦ create_slab_loop fuel size_of_slab off_slab_limit size off_slab o
    ]

-- The description of a new cache, where `blank` has what `ol_bzero` leaves.
abbrev pub new_cache : ℕ → Cache → ℕ → Bool → Bool → ℕ × ℕ × ℕ → Cache
new_cache size_of_slab blank size no_reap off_slab (order, num, left_over) = record blank {
  obj_size = size;
  num = num;
  order = order;
  off_slab = off_slab && ltb left_over (align_ceil slab_align_size (num * 4 + size_of_slab));
  no_reap = no_reap;
  grown = false;
  locked = false;
  full = [];
  partial = [];
  free = [];
}

-- `_createSlabCache` behind its loop.
pub create_with : ℕ → Cache → ℕ → Bool → Bool → ℕ × ℕ × ℕ → Result Cache
create_with size_of_slab blank size no_reap off_slab (order, num, left_over) =
    if num == 0
    then err Code.fail_create_jiukun_cache
    else ok (new_cache size_of_slab blank size no_reap off_slab (order, num, left_over))

-- `_createSlabCache` behind the allocation of the cache's description, on fuel, without the mutex.
unfoldable pub create_slab_cache : ℕ → ℕ → ℕ → Cache → ℕ → Bool → Option (Result Cache)
unfolding create_slab_loop create_with
create_slab_cache fuel size_of_slab off_slab_limit blank size_obj no_reap =
    let size = align_ceil slab_align_size size_obj in
    let off_slab = leb (page_size / 8) size in
    elim (create_slab_loop fuel size_of_slab off_slab_limit size off_slab 0) [
      | none ↦ none
      | some r ↦ some (create_with size_of_slab blank size no_reap off_slab r)
    ]

-- `ls_sCacheSize` without its end.
abbrev pub cache_sizes : List ℕ
cache_sizes =
    32 ∷ 64 ∷ 128 ∷ 256 ∷ 512 ∷ 1024 ∷ 2048 ∷ 4096 ∷ 8192 ∷ 16384 ∷ 32768 ∷ 65536 ∷ 131072 ∷ 262144
    ∷ 524288 ∷ 1048576 ∷ 2097152 ∷ 4194304 ∷ 8388608 ∷ []

-- The loop of `jf_jiukun_allocMemory` on the general caches: the size of the cache that it takes.
pub find_general : ℕ → List ℕ → Option ℕ
find_general size [] = none
find_general size (s ∷ ss) = if ltb s size then find_general size ss else some s
