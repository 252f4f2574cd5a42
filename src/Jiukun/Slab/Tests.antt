-- ===== src/Jiukun/Slab/Tests.antt =====
-- jiukun/slab.c: a cache of two objects a slab, and examples.
use jiufeng.Prelude.{
  inl, inr, ℕ, ◌+◌, ◌*◌, ◌/◌, ◌^◌, ◌≤◌, ◌<◌, ◌≡◌, refl, ap, arith, true, false, Option, none, some,
  List, [], ◌∷◌, some_injective,
}
use jiufeng.Prelude.Counts.{update}
use jiufeng.Jiutai.Err.{Code, Result, ok, err}
use jiufeng.Jiukun.Slab.{Slab, Cache, Supply, bufctl_end, slab_mgmt, alloc_obj, free_obj, shrink}
use jiufeng.Jiukun.Slab.Chain.{IsSlab}
use jiufeng.Jiukun.Slab.Caches.{IsCache}
use jiufeng.Jiukun.Slab.Given.{Allocs}
use jiufeng.Jiukun.Slab.Rounds.{IsFreshSupply, alloc_obj-Allocs}
use jiufeng.Jiukun.Slab.Free.{free_obj-IsCache}
use jiufeng.Jiukun.Slab.Owned.{IsOwned}
use jiufeng.Jiukun.Slab.Runs.{gets, gives, started, stepped, Reached-IsOwned}
use jiufeng.Jiukun.Slab.Shrink.{Shrinks, shrink-Shrinks}
use jiufeng.Jiukun.Slab.Sizes.{
  slab_cache_estimate, create_slab_loop, create_slab_cache, find_general, cache_sizes, page_size,
  slab_align_size,
}
use jiufeng.Jiukun.Slab.Sizes.Estimate.{IsEstimate, slab_cache_estimate_lem}
use jiufeng.Jiukun.Slab.Sizes.Large.{create_slab_loop_lem}
use jiufeng.Jiukun.Slab.Sizes.Create.{IsNew, create_slab_cache_lem, new-IsCache, objects_on_pages}
use jiufeng.Jiukun.Slab.Sizes.General.{Fits, find_general_lem}

abbrev page_of : ℕ → ℕ
page_of a = a / 4096

abbrev no_slab : Slab
no_slab = record { mem = 0; in_use = 0; free_head = 0; bufctl = λ i. 0 }

abbrev empty_cache : Cache
empty_cache = record {
  obj_size = 1024;
  num = 2;
  order = 0;
  off_slab = false;
  no_reap = false;
  grown = false;
  locked = false;
  full = [];
  partial = [];
  free = [];
  slabs = λ s. no_slab;
  page_slab = λ p. 0;
}

empty-IsNew : IsNew 40 1020 empty_cache
empty-IsNew = record {
  sized = record {
    size_pos = omega arith;
    num_pos = omega arith;
    num_small = omega arith;
    bytes = omega arith;
  };
  large_enough = omega arith;
  waste = omega arith;
  room = omega arith;
  in_range = omega arith;
  no_full = refl;
  no_partial = refl;
  no_free = refl;
}

empty-IsCache : IsCache page_of empty_cache (λ s. [])
empty-IsCache = new-IsCache page_of 40 1020 empty_cache (λ s. []) empty-IsNew

abbrev page_one : Supply
page_one = record { pages = ok 4096; mgmt = err (Code.other 1) }

ok_injective : (a b : ℕ) → ok a ≡ ok b → a ≡ b
ok_injective a b e = ap (λ (r : Result ℕ). elim r [ ok x ↦ x | err x ↦ a ]) e

page_one-IsFreshSupply : IsFreshSupply page_of 40 8 empty_cache page_one
unfolding slab_mgmt
page_one-IsFreshSupply addr s mem e g =
    let a : 4096 ≡ addr = ok_injective 4096 addr e in
    let m : addr + 48 ≡ mem =
      ap (λ (t : ℕ × ℕ). t.1) (some_injective (addr, addr + 48) (s, mem) g) in
    record {
      unlisted = refl;
      positive = omega (arith, m);
      own = λ x h. (omega (arith, a, m, h), omega (arith, a, m, h));
      apart = λ t x h k. absurd (omega (arith, h));
    }

alloc_obj-Allocs_example :
    (r : Result ℕ × Cache) × (alloc_obj 40 8 page_of (page_one ∷ []) empty_cache ≡ some r)
    × Allocs page_of 40 8 page_one empty_cache (λ s. []) r
    × ((r.1).locked ≡ false)
alloc_obj-Allocs_example =
    alloc_obj-Allocs page_of 40 8 empty_cache (λ s. []) page_one [] empty-IsCache
      page_one-IsFreshSupply

abbrev first_result : Option (Result ℕ × Cache)
first_result = alloc_obj 40 8 page_of (page_one ∷ []) empty_cache

abbrev cache_left : Cache
cache_left = elim first_result [ none ↦ empty_cache | some (r, c) ↦ c ]

first_gotten : first_result ≡ some (ok 4144, cache_left)
unfolding alloc_obj
first_gotten = refl

Reached-IsOwned_example : IsOwned page_of (free_obj page_of cache_left 4144, [])
Reached-IsOwned_example =
    Reached-IsOwned 40 8 page_of empty_cache (λ s. []) empty-IsCache
      (free_obj page_of cache_left 4144, [])
      (stepped (cache_left, 4144 ∷ []) (free_obj page_of cache_left 4144, [])
        (stepped (empty_cache, []) (cache_left, 4144 ∷ []) started
          (gets empty_cache cache_left [] page_one [] 4144 page_one-IsFreshSupply first_gotten))
        (gives cache_left (4144 ∷ []) 4144 (omega arith)))

-- A slab with its first object used.
abbrev half_slab : Slab
half_slab = record { mem = 4144; in_use = 1; free_head = 1; bufctl = λ i. bufctl_end }

abbrev half_cache : Cache
half_cache = record empty_cache {
  partial = 4096 ∷ [];
  slabs = λ s. half_slab;
  page_slab = λ p. 4096;
}

abbrev half_free : ℕ → List ℕ
half_free s = 1 ∷ []

half-IsSlab : IsSlab 2 half_slab (1 ∷ [])
half-IsSlab = record {
  linked = (refl, refl);
  once = λ x. ground arith;
  below = (omega arith, tt);
  used = refl;
}

half-IsCache : IsCache page_of half_cache half_free
half-IsCache = record {
  sized = record {
    size_pos = omega arith;
    num_pos = omega arith;
    num_small = omega arith;
    bytes = omega arith;
  };
  once = λ s. ground arith;
  fulls = tt;
  partials = ((omega arith, omega arith), tt);
  empties = tt;
  chains = λ s h. (half-IsSlab, (omega arith, λ x k. ground (arith, h)));
}

freed-IsCache :
    IsCache page_of (free_obj page_of half_cache 4144) (update half_free 4096 (0 ∷ 1 ∷ []))
freed-IsCache =
    free_obj-IsCache page_of half_cache half_free 4096 0 half-IsCache (omega arith) (omega arith)
      (ground arith)

free_obj-IsCache_example :
    IsCache page_of (free_obj page_of half_cache 4144) (update half_free 4096 (0 ∷ 1 ∷ []))
free_obj-IsCache_example =
    free_obj-IsCache page_of half_cache half_free 4096 0 half-IsCache (omega arith) (omega arith)
      (ground arith)

abbrev freed_cache : Cache
freed_cache = free_obj page_of half_cache 4144

freed_listed : freed_cache.free ≡ 4096 ∷ []
unfolding free_obj
freed_listed = refl

shrink-Shrinks_example :
    Shrinks page_of freed_cache
      (update half_free 4096 (0 ∷ 1 ∷ []))
      ((shrink freed_cache).0)
      ((shrink freed_cache).1)
shrink-Shrinks_example =
    shrink-Shrinks page_of freed_cache (update half_free 4096 (0 ∷ 1 ∷ [])) freed-IsCache

slab_cache_estimate_lem_example :
    IsEstimate 64 40 4
      (page_size * 2 ^ 0)
      ((slab_cache_estimate 40 0 64 false).0)
      ((slab_cache_estimate 40 0 64 false).1)
slab_cache_estimate_lem_example =
    slab_cache_estimate_lem 40 0 64 false (omega arith) (omega arith) (omega arith)

-- A cache of objects of 3000 bytes is never made.
create_slab_loop_lem_example : create_slab_loop 5 40 108 3000 true 0 ≡ none
create_slab_loop_lem_example =
    create_slab_loop_lem 40 108 3000 0 (omega arith) (omega arith) (omega arith) (omega arith)
      (omega arith) (omega arith) 5 (omega arith)

abbrev made_64 : Result Cache
made_64 = elim (create_slab_cache 2 40 108 empty_cache 60 false) [
  | none ↦ err (Code.other 0)
  | some r ↦ r
]

made_64_lem : create_slab_cache 2 40 108 empty_cache 60 false ≡ some made_64
unfolding create_slab_cache
made_64_lem = refl

create_slab_cache_lem_example :
    (c : Cache) × (create_slab_cache 12 40 108 empty_cache 1020 false ≡ some (ok c))
    × IsNew 40 1020 c
create_slab_cache_lem_example =
    create_slab_cache_lem 40 1020 empty_cache false (omega arith) (omega arith) (omega arith) 12 108
      (omega arith) (omega arith) (inr (inl (4, omega arith, omega arith, omega arith)))

mgmt_on_slab :
    slab_mgmt 40 slab_align_size
      (λ a. a / page_size)
      empty_cache
      (err (Code.other 1))
      (1 * page_size)
    ≡ some (4096, 4144)
unfolding slab_mgmt
mgmt_on_slab = refl

objects_on_pages_example :
    (1 ≤ (4144 + 1 * 1024) / page_size) × ((4144 + 1 * 1024) / page_size < 1 + 2 ^ 0)
objects_on_pages_example =
    objects_on_pages 40 1020 empty_cache empty_cache (err (Code.other 1)) 1 4096 4144 1 empty-IsNew
      refl refl refl mgmt_on_slab (omega arith)

find_general_lem_example : Fits 8388608 100 (find_general 100 cache_sizes)
find_general_lem_example = find_general_lem 100
