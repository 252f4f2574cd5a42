-- ===== src/Jiukun/Slab/Sizes/Create.antt =====
-- jiukun/slab.c: the caches that `_createSlabCache` makes.
use native.Mathlib.Nat.{mul-le-mul_right}
use jiufeng.Prelude.{
  ℕ, zero, suc, ◌+◌, ◌*◌, ◌/◌, ◌^◌, ◌≤◌, ◌<◌, ◌≡◌, ◌⊎◌, ◌-◌, true, none, inl, inr, refl, sym, ap,
  subst, ◌∙◌, arith, Bool, false, ◌&&◌, some, List, [], ◌==◌, ltb, leb, if◌then◌else◌, All,
  Bool-cases, some_injective,
}
use jiufeng.Prelude.Counts.{count}
use jiufeng.Jiutai.Err.{Result, ok, err}
use jiufeng.Jiukun.Slab.{Cache, align_ceil, slab_mgmt}
use jiufeng.Jiukun.Slab.Caches.{listed, IsFull, IsPartial, IsEmpty, IsSized, IsCache}
use jiufeng.Jiukun.Slab.Sizes.{
  page_size, max_jp_order, slab_align_size, slab_bytes, next_order, slab_cache_estimate,
  create_slab_loop, new_cache, create_with, create_slab_cache,
}
use jiufeng.Jiukun.Slab.Sizes.Estimate.{IsEstimate, slab_cache_estimate_lem, wastage_small}
use jiufeng.Jiukun.Slab.Sizes.Large.{create_slab_loop_lem}
use jiufeng.Jiukun.Slab.Sizes.Orders.{few_large, none_not_some, IsChosen, create_slab_loop-IsChosen}

-- The bytes in front of the objects on the pages of a slab.
abbrev pub front : ℕ → Cache → ℕ
front size_of_slab c =
    if c.off_slab then 0 else align_ceil slab_align_size (c.num * 4 + size_of_slab)

-- A new cache: it has no slab, and its objects, of at least the size that was asked for, fit on the
-- pages of a slab behind what stands in front of them.
pub record IsNew (size_of_slab size_obj : ℕ) (c : Cache) : Type 0 where
  pub sized : IsSized c.obj_size c.num
  pub large_enough : size_obj ≤ c.obj_size
  pub waste : c.obj_size < size_obj + slab_align_size
  pub room : front size_of_slab c + c.num * c.obj_size ≤ page_size * 2 ^ c.order
  pub in_range : c.order ≤ max_jp_order
  pub no_full : c.full ≡ []
  pub no_partial : c.partial ≡ []
  pub no_free : c.free ≡ []

-- There is an object on the pages of the order that was chosen.
some_object :
    (size_of_slab size order num left_over : ℕ) (off_slab : Bool)
    → size ≤ page_size * 2 ^ max_jp_order
    → size_of_slab ≤ 4088
    → off_slab ≡ leb (page_size / 8) size
    → IsChosen size_of_slab size off_slab order num left_over
    → 0 < num
some_object size_of_slab size order zero left_over off_slab le fits f c =
    let e = c.estimate in
    let m = e.most in
    elim (c.good) [
      | inl h ↦
          let w : page_size * 2 ^ order ≡ page_size * 2 ^ max_jp_order =
            ap (λ o. page_size * 2 ^ o) h in
          absurd (ground (arith, m, w, le, fits, f))
      | inr (h, l) ↦ absurd (omega (arith, h))
    ]
some_object size_of_slab size order (suc num) left_over off_slab le fits f c = omega arith

-- An estimate has an object when one fits.
has_one :
    (size base extra wastage num left_over : ℕ)
    → IsEstimate size base extra wastage num left_over
    → slab_bytes size base extra 1 ≤ wastage
    → 0 < num
has_one size base extra wastage zero left_over e h = let m = e.most in absurd (omega (arith, m, h))
has_one size base extra wastage (suc num) left_over e h = omega arith

-- With `k` objects of a size on the pages there are at least `k` in an estimate without `slab_t`.
has_many :
    (size wastage num left_over k : ℕ)
    → IsEstimate size 0 0 wastage num left_over
    → k * size ≤ wastage
    → k ≤ num
has_many size wastage num left_over k e h = elim (Bool-cases (ltb num k)) [
  | inl f ↦
      let m : (num + 1) * size ≤ k * size = mul-le-mul_right size (ground (arith, f)) in
      let o = e.most in absurd (omega (arith, m, o, h))
  | inr f ↦ ground (arith, f)
]

-- The aligned sizes of objects for which the loop of `_createSlabCache` is shown to end: those that
-- leave the `slab_t` on the slab; those of which some number fills a page but for at most an eighth;
-- and those of more than half of a block of up to 4 MiB that fill it so.
abbrev pub Settles : ℕ → Type 0
Settles size =
    (size < page_size / 8)
    ⊎ ((k : ℕ) × (0 < k) × (k * size ≤ page_size) × ((page_size - k * size) * 8 ≤ page_size))
    ⊎ ((o : ℕ) × (o < max_jp_order)
        × (size ≤ page_size * 2 ^ o)
        × (page_size * 2 ^ o < 2 * size)
        × ((page_size * 2 ^ o - size) * 8 ≤ page_size * 2 ^ o))

module _ (size_of_slab size_obj : ℕ) (blank : Cache) (no_reap : Bool) (pos : 0 < size_obj)
    (le : size_obj ≤ page_size * 2 ^ max_jp_order) (fits : size_of_slab ≤ 1024) where
  abbrev size : ℕ
  size = align_ceil slab_align_size size_obj

  abbrev off_slab : Bool
  off_slab = leb (page_size / 8) size

  made :
      (order num left_over : ℕ)
      → IsChosen size_of_slab size off_slab order num left_over
      → 0 < num
      → (c : Cache) × (create_with size_of_slab blank size no_reap off_slab (order, num, left_over)
          ≡ ok c)
        × IsNew size_of_slab size_obj c
  unfolding create_with
  made order num left_over h some_num =
      let e = h.estimate in
      let w = wastage_small order h.in_range in
      let n : (num == 0) ≡ false = ground (arith, some_num) in
      let exact = e.exact in
      let few = e.few in
      let room : (if off_slab && ltb left_over (align_ceil slab_align_size (num * 4 + size_of_slab))
              then 0
              else align_ceil slab_align_size (num * 4 + size_of_slab))
            + num * size
          ≤ page_size * 2 ^ order =
        ground (arith, exact) in
      (
        new_cache size_of_slab blank size no_reap off_slab (order, num, left_over),
        rw n refl,
        record {
          sized = record {
            size_pos = omega (arith, pos);
            num_pos = some_num;
            num_small = omega (arith, few, w);
            bytes = omega (arith, exact, w);
          };
          large_enough = omega arith;
          waste = omega arith;
          room = room;
          in_range = h.in_range;
          no_full = refl;
          no_partial = refl;
          no_free = refl;
        },
      )

  -- The round at the first order, when it ends the loop.
  first_round :
      (fuel limit : ℕ)
      → next_order limit off_slab 0 (slab_cache_estimate size_of_slab 0 size off_slab) ≡ none
      → (r : ℕ × ℕ × ℕ) × (create_slab_loop (suc fuel) size_of_slab limit size off_slab 0 ≡ some r)
  unfolding create_slab_loop
  first_round fuel limit e =
      let est = slab_cache_estimate size_of_slab 0 size off_slab in
      ((0, est.0, est.1), rw (e, create_slab_loop) refl)

  -- An object that leaves the `slab_t` on the slab.
  small_ends :
      (limit : ℕ)
      → off_slab ≡ false
      → next_order limit off_slab 0 (slab_cache_estimate size_of_slab 0 size off_slab) ≡ none
  unfolding next_order
  small_ends limit f =
      let s =
        slab_cache_estimate_lem size_of_slab 0 size false (omega (arith, pos)) (omega arith)
          (omega (arith, fits)) in
      let num = (slab_cache_estimate size_of_slab 0 size false).0 in
      let step : (num + 1) * size ≡ num * size + size = omega arith in
      let below : size < 512 = ground (arith, f) in
      let m = s.most in
      let x = s.exact in
      let some_num =
        has_one size size_of_slab 4 (page_size * 2 ^ 0) num _ s (omega (arith, below, fits)) in
      let left : (slab_cache_estimate size_of_slab 0 size false).1 * 8 ≤ 4096 =
        omega (arith, m, x, step, below) in
      rw f (ground (arith, left, some_num))

  -- An object of a page that is nearly filled.
  page_ends :
      (limit k : ℕ)
      → off_slab ≡ true
      → 8 ≤ limit
      → 0 < k
      → k * size ≤ page_size
      → (page_size - k * size) * 8 ≤ page_size
      → next_order limit off_slab 0 (slab_cache_estimate size_of_slab 0 size off_slab) ≡ none
  unfolding next_order
  page_ends limit k f enough some_k le_page near =
      let s =
        slab_cache_estimate_lem size_of_slab 0 size true (omega (arith, pos)) (omega arith)
          (omega (arith, fits)) in
      let num = (slab_cache_estimate size_of_slab 0 size true).0 in
      let left = (slab_cache_estimate size_of_slab 0 size true).1 in
      let many = has_many size (page_size * 2 ^ 0) num left k s (omega (arith, le_page)) in
      let few = few_large size 0 0 num left (ground (arith, f)) s in
      let m : k * size ≤ num * size = mul-le-mul_right size many in
      let x = s.exact in
      let small : left * 8 ≤ 4096 = omega (arith, x, m, near) in
      rw f (ground (arith, small, many, few, enough, some_k))

  loop_ends :
      (fuel limit : ℕ)
      → max_jp_order < fuel
      → 8 ≤ limit
      → Settles size
      → (r : ℕ × ℕ × ℕ) × (create_slab_loop fuel size_of_slab limit size off_slab 0 ≡ some r)
  loop_ends zero limit h enough s = absurd (omega (arith, h))
  loop_ends (suc fuel) limit h enough s = elim (Bool-cases off_slab) [
    | inr f ↦ first_round fuel limit (small_ends limit f)
    | inl f ↦ elim s [
      | inl below ↦ absurd (ground (arith, f, below))
      | inr (inl (k, some_k, le_page, near)) ↦
          first_round fuel limit (page_ends limit k f enough some_k le_page near)
      | inr (inr (o, in_range, le_block, half, near)) ↦
          let near' : leb ((page_size * 2 ^ o - size) * 8) (page_size * 2 ^ o) ≡ true =
            ground (arith, near) in
          let e =
            create_slab_loop_lem size_of_slab limit size o (omega (arith, fits))
              (omega (arith, enough)) (omega (arith, pos)) in_range le_block half (suc fuel)
              (omega (arith, h, in_range)) in
          ((o, 1, page_size * 2 ^ o - size), rw f (e ∙ rw near' refl))
    ]
  ]

  -- `_createSlabCache` for objects of a size up to 8 MiB that is not 0, a `slab_t` of at most 1024 bytes
  -- and a limit of at least 8 objects for slabs with the `slab_t` elsewhere, with 12 rounds for its
  -- loop, makes a cache for each size that settles: one that leaves the `slab_t` on the slab; of which,
  -- aligned, some number fills a page but for at most an eighth; or that fills a block of up to 4 MiB
  -- so by itself. The cache is without slabs, its objects have at least the size that was asked for and
  -- less than 8 bytes more, at least one fits a slab, and all of a slab fit its pages behind the
  -- `slab_t` that may stand there.
  pub create_slab_cache_lem :
      (fuel limit : ℕ)
      → max_jp_order < fuel
      → 8 ≤ limit
      → Settles size
      → (c : Cache) × (create_slab_cache fuel size_of_slab limit blank size_obj no_reap
          ≡ some (ok c))
        × IsNew size_of_slab size_obj c
  unfolding create_slab_cache
  create_slab_cache_lem fuel limit h enough s =
      let ((order, num, left_over), e) = loop_ends fuel limit h enough s in
      let chosen =
        create_slab_loop-IsChosen size_of_slab limit size off_slab (omega (arith, pos))
          (omega (arith, fits)) (λ g. ground (arith, g)) enough fuel 0 order num left_over
          (omega arith) e in
      let some_num =
        some_object size_of_slab size order num left_over off_slab (omega (arith, le))
          (omega (arith, fits)) refl chosen in
      let (c, m, new) = made order num left_over chosen some_num in
      (c, rw (e, create_slab_cache) (ap some m), new)

-- The invariant of a cache holds of a new one.
pub new-IsCache :
    (page_of : ℕ → ℕ) (size_of_slab size_obj : ℕ) (c : Cache) (frees : ℕ → List ℕ)
    → IsNew size_of_slab size_obj c
    → IsCache page_of c frees
new-IsCache page_of size_of_slab size_obj c frees new =
    let none : (t : ℕ) → listed t c ≡ 0 = λ t.
      omega
        (arith, ap (count t) new.no_full, ap (count t) new.no_partial, ap (count t) new.no_free) in
    record {
      sized = new.sized;
      once = λ t. omega (arith, none t);
      fulls = subst (All (IsFull frees)) (sym new.no_full) tt;
      partials = subst (All (IsPartial c.num frees)) (sym new.no_partial) tt;
      empties = subst (All (IsEmpty c.num frees)) (sym new.no_free) tt;
      chains = λ t h. absurd (omega (arith, h, none t));
    }

-- Where `_slabMgmt` puts the objects.
mgmt_place :
    (size_of_slab : ℕ) (page_of : ℕ → ℕ) (c : Cache) (mgmt : Result ℕ) (addr s mem : ℕ)
    → slab_mgmt size_of_slab slab_align_size page_of c mgmt addr ≡ some (s, mem)
    → mem ≡ addr + front size_of_slab c
unfolding slab_mgmt
mgmt_place size_of_slab page_of c (err x) addr s mem e = elim (Bool-cases c.off_slab) [
  | inl f ↦ let e' = rw (f, slab_mgmt) at e in absurd (none_not_some (s, mem) e')
  | inr f ↦
      let e' = rw (f, slab_mgmt) at e in
      let m = ap (λ (t : ℕ × ℕ). t.1) (some_injective _ _ e') in rw f (omega (arith, m))
]
mgmt_place size_of_slab page_of c (ok p) addr s mem e = elim (Bool-cases c.off_slab) [
  | inl f ↦
      let e' = rw (f, slab_mgmt) at e in
      let m = ap (λ (t : ℕ × ℕ). t.1) (some_injective _ _ e') in rw f (omega (arith, m))
  | inr f ↦
      let e' = rw (f, slab_mgmt) at e in
      let m = ap (λ (t : ℕ × ℕ). t.1) (some_injective _ _ e') in rw f (omega (arith, m))
]

-- The objects of a slab of such a cache lie on its pages: with the block of pages at page `p`, the
-- page of each is one of those that `_growSlabCache` gives the slab.
pub objects_on_pages :
    (size_of_slab size_obj : ℕ) (c d : Cache) (mgmt : Result ℕ) (p s mem x : ℕ)
    → IsNew size_of_slab size_obj c
    → d.num ≡ c.num
    → d.obj_size ≡ c.obj_size
    → d.off_slab ≡ c.off_slab
    → slab_mgmt size_of_slab slab_align_size (λ a. a / page_size) d mgmt (p * page_size)
      ≡ some (s, mem)
    → x < c.num
    → (p ≤ (mem + x * c.obj_size) / page_size)
      × ((mem + x * c.obj_size) / page_size < p + 2 ^ c.order)
unfolding slab_mgmt
objects_on_pages size_of_slab size_obj c d mgmt p s mem x new n z o e h =
    let z = new.sized in
    let m : (x + 1) * c.obj_size ≤ c.num * c.obj_size =
      mul-le-mul_right c.obj_size (omega (arith, h)) in
    let at' : mem ≡ p * page_size + front size_of_slab d =
      mgmt_place size_of_slab (λ a. a / page_size) d mgmt (p * page_size) s mem e in
    let same : front size_of_slab d ≡ front size_of_slab c = rw (o, n) refl in
    let at : mem ≡ p * page_size + front size_of_slab c = omega (arith, at', same) in
    omega (arith, m, at, new.room, z.size_pos)
