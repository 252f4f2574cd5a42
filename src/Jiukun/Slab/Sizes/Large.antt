-- ===== src/Jiukun/Slab/Sizes/Large.antt =====
-- jiukun/slab.c: the loop of `_createSlabCache` for objects of at least half of a block of pages.
use native.Mathlib.Nat.{mul-le-mul_right}
use jiufeng.Prelude.{
  ℕ, zero, suc, ◌+◌, ◌-◌, ◌*◌, ◌^◌, ◌≤◌, ◌<◌, ◌≡◌, inl, inr, refl, ap, subst, ◌∙◌, arith, true,
  none, some, leb, if◌then◌else◌, Bool-cases,
}
use jiufeng.Jiukun.Buddy.Counts.{pow_le}
use jiufeng.Jiukun.Slab.Sizes.{
  page_size, max_jp_order, slab_cache_estimate, next_order, create_slab_loop,
}
use jiufeng.Jiukun.Slab.Sizes.Estimate.{IsEstimate, slab_cache_estimate_lem}
use jiufeng.Jiukun.Slab.Sizes.Orders.{create_slab_loop-stays}

-- No object on pages that are smaller than it.
no_object : (size w num left_over : ℕ) → w < size → IsEstimate size 0 0 w num left_over → num ≡ 0
no_object size w zero left_over h e = refl
no_object size w (suc n) left_over h e =
    let m : 1 * size ≤ suc n * size = mul-le-mul_right size (omega arith) in
    absurd (omega (arith, m, e.exact, h))

one_object :
    (size w num left_over : ℕ)
    → size ≤ w
    → w < 2 * size
    → IsEstimate size 0 0 w num left_over
    → (num ≡ 1) × (left_over ≡ w - size)
one_object size w zero left_over h k e = let m = e.most in absurd (omega (arith, m, h))
one_object size w (suc zero) left_over h k e = (refl, omega (arith, e.exact))
one_object size w (suc (suc n)) left_over h k e =
    let m : 2 * size ≤ suc (suc n) * size = mul-le-mul_right size (omega arith) in
    absurd (omega (arith, m, e.exact, k))

module _ (size_of_slab limit size o : ℕ) (fits : size_of_slab ≤ 4088) (some_limit : 0 < limit)
    (pos : 0 < size) (in_range : o < max_jp_order) (le : size ≤ page_size * 2 ^ o)
    (more : page_size * 2 ^ o < 2 * size) where
  smaller :
      (j : ℕ)
      → j < o
      → next_order limit true j (slab_cache_estimate size_of_slab j size true) ≡ some (j + 1)
  unfolding next_order
  smaller j h =
      let s =
        slab_cache_estimate_lem size_of_slab j size true pos (omega (arith, h, in_range)) fits in
      let two : 2 ^ suc j ≤ 2 ^ o = pow_le (suc j) o (omega (arith, h)) in
      let half : 2 ^ suc j ≡ 2 * 2 ^ j = grind arith in
      let less : page_size * 2 ^ j < size = omega (arith, two, half, more) in
      let e =
        no_object size (page_size * 2 ^ j) ((slab_cache_estimate size_of_slab j size true).0)
          ((slab_cache_estimate size_of_slab j size true).1) less s in
      ground (arith, e, h, in_range)

  at_order :
      ((slab_cache_estimate size_of_slab o size true).0 ≡ 1)
      × ((slab_cache_estimate size_of_slab o size true).1 ≡ page_size * 2 ^ o - size)
  at_order =
      let s = slab_cache_estimate_lem size_of_slab o size true pos (omega (arith, in_range)) fits in
      one_object size (page_size * 2 ^ o) ((slab_cache_estimate size_of_slab o size true).0)
        ((slab_cache_estimate size_of_slab o size true).1) le more s

  found :
      next_order limit true o (slab_cache_estimate size_of_slab o size true)
      ≡ (if leb ((page_size * 2 ^ o - size) * 8) (page_size * 2 ^ o) then none else some o)
  unfolding next_order
  found = let (a, b) = at_order in rw (a, b) (ground (arith, in_range, some_limit))

  last_round :
      (fuel : ℕ)
      → create_slab_loop (suc fuel) size_of_slab limit size true o ≡ (
          if leb ((page_size * 2 ^ o - size) * 8) (page_size * 2 ^ o)
          then some (o, 1, page_size * 2 ^ o - size)
          else none)
  unfolding create_slab_loop
  last_round fuel =
      let (a, b) = at_order in
      elim (Bool-cases (leb ((page_size * 2 ^ o - size) * 8) (page_size * 2 ^ o))) [
        | inl h ↦
            let n : next_order limit true o (slab_cache_estimate size_of_slab o size true) ≡ none =
              found ∙ rw h refl in
            rw (n, create_slab_loop, a, h) (ap (λ l. some (o, 1, l)) (omega arith))
        | inr h ↦
            let n : next_order limit true o (slab_cache_estimate size_of_slab o size true)
                ≡ some o =
              found ∙ rw h refl in
            rw (n, create_slab_loop, h)
              (create_slab_loop-stays fuel size_of_slab limit size true o n)
      ]

  from_order :
      (k fuel j : ℕ)
      → j + k ≡ o
      → k < fuel
      → create_slab_loop fuel size_of_slab limit size true j ≡ (
          if leb ((page_size * 2 ^ o - size) * 8) (page_size * 2 ^ o)
          then some (o, 1, page_size * 2 ^ o - size)
          else none)
  unfolding create_slab_loop
  from_order k zero j e h = absurd (omega (arith, h))
  from_order zero (suc fuel) j e h =
      let same : o ≡ j = omega (arith, e) in
      subst
        (λ i. create_slab_loop (suc fuel) size_of_slab limit size true i ≡ (
          if leb ((page_size * 2 ^ o - size) * 8) (page_size * 2 ^ o)
          then some (o, 1, page_size * 2 ^ o - size)
          else none))
        same (last_round fuel)
  from_order (suc k) (suc fuel) j e h =
      rw (smaller j (omega (arith, e)), create_slab_loop)
        (from_order k fuel (j + 1) (omega (arith, e)) (omega (arith, h)))

  -- For an object of more than half of a block of pages of an order below 11 (up to 4 MiB) and at most
  -- the block, whose `slab_t` is elsewhere and takes at most 4088 bytes, with a limit of at least one
  -- such object on a slab: the loop of `_createSlabCache` ends with one object on the block when at most
  -- an eighth of the block is left over, and else has not ended after any number of rounds: the round
  -- for the block does not change the order.
  pub create_slab_loop_lem :
      (fuel : ℕ)
      → o < fuel
      → create_slab_loop fuel size_of_slab limit size true 0 ≡ (
          if leb ((page_size * 2 ^ o - size) * 8) (page_size * 2 ^ o)
          then some (o, 1, page_size * 2 ^ o - size)
          else none)
  create_slab_loop_lem fuel h = from_order o fuel 0 (omega arith) h
