-- ===== src/Jiukun/Slab.antt =====
-- jiukun/slab.c: one cache of objects of the same size.
-- A slab is the address of its `slab_t`; the lists of a cache are lists of such addresses, front
-- first. The model is that of a build without DEBUG_JIUKUN. Pages come from the buddy allocator:
-- what its calls return is an argument, and so is the page of an address.
pub mod Sizes
pub mod Chain
pub mod Objects
pub mod Caches
pub mod Alloc
pub mod Grow
pub mod Given
pub mod Rounds
pub mod Free
pub mod Owned
pub mod Runs
pub mod Shrink
mod Tests
use jiufeng.Prelude.{
  ℕ, zero, suc, ◌+◌, ◌-◌, ◌*◌, ◌/◌, ◌%◌, ◌^◌, Bool, true, false, ◌||◌, Option, none, some, List, [],
  ◌∷◌, ◌++◌, ◌==◌, ltb, leb, if◌then◌else◌, length,
}
use jiufeng.Prelude.Counts.{update, erase}
use jiufeng.Prelude.Word.{inc_u32, dec_u32}
use jiufeng.Jiutai.Err.{Code, Err, Result, ok, err}

-- `BUFCTL_END`
abbrev pub bufctl_end : ℕ
bufctl_end = 2 ^ 32 - 1

-- `slab_t` and the array of `slab_bufctl_t` behind it.
pub record Slab : Type 0 where
  pub mem : ℕ
  pub in_use : ℕ
  pub free_head : ℕ
  pub bufctl : ℕ → ℕ

-- `slab_cache_t`, with the slabs and the slab that each page has in `jp_jlLru`.
pub record Cache : Type 0 where
  pub obj_size : ℕ
  pub num : ℕ
  pub order : ℕ
  pub off_slab : Bool
  pub no_reap : Bool
  pub grown : Bool
  pub locked : Bool
  pub full : List ℕ
  pub partial : List ℕ
  pub free : List ℕ
  pub slabs : ℕ → Slab
  pub page_slab : ℕ → ℕ

-- `ALIGN_CEIL(x, SLAB_ALIGN_SIZE)`, where `align` is a power of two.
abbrev pub align_ceil : ℕ → ℕ → ℕ
align_ceil align x = (x + align - 1) - (x + align - 1) % align

-- `jf_listhead_del` of a slab: it is taken from the list that it is in.
abbrev pub unlink : ℕ → Cache → Cache
unlink s c = record c { full = erase s c.full; partial = erase s c.partial; free = erase s c.free }

-- `_allocOneObjFromTail`
pub alloc_one_obj : Cache → ℕ → ℕ × Cache
alloc_one_obj c s =
    let slab = c.slabs s in
    let next = slab.bufctl slab.free_head in
    let c' = record c {
      slabs = update c.slabs s (record slab { in_use = inc_u32 slab.in_use; free_head = next });
    } in
    (
      slab.mem + slab.free_head * c.obj_size % 2 ^ 32,
      if next == bufctl_end then record (unlink s c') { full = s ∷ erase s c.full } else c',
    )

-- The loop of `_initSlabCacheObjs`, with `n` entries of the array written.
pub fill : ℕ → (ℕ → ℕ) → ℕ → ℕ
fill zero b = b
fill (suc n) b = update (fill n b) n (n + 1)

-- `_initSlabCacheObjs`
pub init_objs : ℕ → Slab → Slab
unfolding fill
init_objs num slab = record slab {
  bufctl = update (fill num slab.bufctl) (num - 1) bufctl_end;
  free_head = 0;
}

-- The loop of `_growSlabCache` over the pages of a new slab.
pub set_page_slabs : ℕ → ℕ → ℕ → (ℕ → ℕ) → ℕ → ℕ
set_page_slabs zero page s f = f
set_page_slabs (suc n) page s f = set_page_slabs n (page + 1) s (update f page s)

-- The first slab of the free list goes to the partial list and gives an object. The list is not
-- empty where the code gets here.
pub alloc_from_free : Cache → List ℕ → Result ℕ × Cache
unfolding alloc_one_obj
alloc_from_free c [] = (err (Code.other 0), c)
alloc_from_free c (s ∷ rest) =
    let (p, c') = alloc_one_obj (record (unlink s c) { partial = s ∷ erase s c.partial }) s in
    (ok p, c')

-- The rest of a round after `_growSlabCache`.
pub alloc_grown : Err × Cache → Result ℕ × Cache
unfolding alloc_from_free
alloc_grown (Err.failed e, c) = (err e, c)
alloc_grown (Err.no_error, c) = alloc_from_free c c.free

-- What `_growSlabCache` gets: the address or the code of `jf_jiukun_allocPage`, and the address or
-- the code of the `_allocObj` for a `slab_t` off the slab.
pub record Supply : Type 0 where
  pub pages : Result ℕ
  pub mgmt : Result ℕ

-- How a round of the loop of `_allocObj` ends, with the rounds behind it.
abbrev pub round_end : Result ℕ × Cache → Option (Result ℕ × Cache) → Option (Result ℕ × Cache)
round_end (err e, c) next = some (err e, c)
round_end (ok p, c) next = if p == 0 then next else some (ok p, c)

-- `_unlockCache` behind the loop.
abbrev pub unlock_cache : Option (Result ℕ × Cache) → Option (Result ℕ × Cache)
unlock_cache none = none
unlock_cache (some (r, c)) = some (r, record c { locked = false })

module _ (size_of_slab align : ℕ) (page_of : ℕ → ℕ) where
  -- `_slabMgmt`: the address of the `slab_t` and of the objects.
  pub slab_mgmt : Cache → Result ℕ → ℕ → Option (ℕ × ℕ)
  slab_mgmt c mgmt addr =
      if c.off_slab
      then elim mgmt [ ok p ↦ some (p, addr) | err e ↦ none ]
      else some (addr, addr + align_ceil align (c.num * 4 + size_of_slab))

  -- The end of `_growSlabCache` with the new slab.
  pub add_slab : Cache → ℕ → ℕ × ℕ → Cache
  unfolding init_objs set_page_slabs
  add_slab c addr (s, mem) = record c {
    grown = false;
    page_slab = set_page_slabs (2 ^ c.order) (page_of addr) s c.page_slab;
    slabs = update c.slabs s (init_objs c.num (record (c.slabs s) { in_use = 0; mem = mem }));
    free = c.free ++ (s ∷ []);
  }

  -- `_growSlabCache` behind `_slabMgmt`.
  pub grow_at : Cache → ℕ → Option (ℕ × ℕ) → Err × Cache
  unfolding add_slab
  grow_at c addr none = (Err.failed Code.fail_grow_jiukun_cache, record c { grown = false })
  grow_at c addr (some m) = (Err.no_error, add_slab c addr m)

  -- `_growSlabCache` behind the allocation of the pages.
  pub grow_pages : Cache → Result ℕ → Result ℕ → Err × Cache
  unfolding slab_mgmt grow_at
  grow_pages c mgmt (err e) = (Err.failed e, record c { grown = false })
  grow_pages c mgmt (ok addr) = grow_at c addr (slab_mgmt c mgmt addr)

  -- `_growSlabCache`
  pub grow_slab_cache : Supply → Cache → Err × Cache
  unfolding grow_pages
  grow_slab_cache supply c = grow_pages c supply.mgmt supply.pages

  -- A round of `_allocObj` without partial slabs, by the free list.
  pub alloc_new_slab : Supply → Cache → List ℕ → Result ℕ × Cache
  unfolding grow_slab_cache alloc_grown alloc_from_free
  alloc_new_slab supply c [] = alloc_grown (grow_slab_cache supply c)
  alloc_new_slab supply c (s ∷ rest) = alloc_from_free c (s ∷ rest)

  -- A round of `_allocObj`, by the partial list.
  pub alloc_by_partial : Supply → Cache → List ℕ → Result ℕ × Cache
  unfolding alloc_one_obj alloc_new_slab
  alloc_by_partial supply c [] = alloc_new_slab supply c c.free
  alloc_by_partial supply c (s ∷ rest) = let (p, c') = alloc_one_obj c s in (ok p, c')

  -- One round of the loop of `_allocObj`.
  pub alloc_round : Supply → Cache → Result ℕ × Cache
  unfolding alloc_by_partial
  alloc_round supply c = alloc_by_partial supply c c.partial

  -- The loop of `_allocObj`, with what the rounds may use; `none` when it has not ended with them.
  pub alloc_loop : List Supply → Cache → Option (Result ℕ × Cache)
  unfolding alloc_round
  alloc_loop [] c = none
  alloc_loop (supply ∷ more) c =
      let r = alloc_round supply c in let next = alloc_loop more (r.1) in round_end r next

  -- `_allocObj`
  pub alloc_obj : List Supply → Cache → Option (Result ℕ × Cache)
  unfolding alloc_loop
  alloc_obj supplies c = unlock_cache (alloc_loop supplies (record c { locked = true }))

-- `_freeOneObj` behind its search for the slab.
pub free_in_slab : Cache → ℕ → ℕ → Cache
free_in_slab c s p =
    let slab = c.slabs s in
    let objnr = (p - slab.mem) / c.obj_size in
    let slab' = record slab {
      bufctl = update slab.bufctl objnr slab.free_head;
      free_head = objnr;
      in_use = dec_u32 slab.in_use;
    } in
    let c' = record c { slabs = update c.slabs s slab' } in
    if slab'.in_use == 0
    then record (unlink s c') { free = s ∷ erase s c.free }
    else if slab.in_use == c.num
    then record (unlink s c') { partial = s ∷ erase s c.partial }
    else c'

-- `_freeObj`, `_freeOneObj`
pub free_obj : (ℕ → ℕ) → Cache → ℕ → Cache
unfolding free_in_slab
free_obj page_of c p = record (free_in_slab c (c.page_slab (page_of p)) p) { locked = false }

-- The last entry of a list and those before it.
pub split_last : ℕ → List ℕ → List ℕ × ℕ
split_last s [] = ([], s)
split_last s (t ∷ ts) = let (front, last) = split_last t ts in (s ∷ front, last)

-- The loop of `_shrinkSlabCache` on the free list, with `n` rounds left: the slabs that
-- `_destroySlab` gets, in turn, and the list that is left.
pub shrink_rounds : ℕ → List ℕ → List ℕ × List ℕ
unfolding split_last
shrink_rounds zero ss = ([], ss)
shrink_rounds (suc n) [] = ([], [])
shrink_rounds (suc n) (s ∷ ss) =
    let (front, last) = split_last s ss in
    let (gone, left) = shrink_rounds n front in (last ∷ gone, left)

-- `_shrinkSlabCache`: the slabs that are destroyed, whose number it returns, and the cache.
pub shrink : Cache → List ℕ × Cache
unfolding shrink_rounds
shrink c =
    let (gone, left) = shrink_rounds (length c.free) c.free in (gone, record c { free = left })

-- `reapJiukunSlab` on the caches of the system, when it has the lock: its result and the caches.
pub reap : List Cache → ℕ × List Cache
unfolding shrink
reap [] = (0, [])
reap (c ∷ cs) =
    let (n, cs') = reap cs in
    let (gone, c') = shrink c in
    if c.no_reap || c.grown || c.locked then (n, c ∷ cs') else (length gone + n, c' ∷ cs')
