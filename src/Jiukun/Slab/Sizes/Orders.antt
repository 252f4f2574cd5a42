-- ===== src/Jiukun/Slab/Sizes/Orders.antt =====
-- jiukun/slab.c: the loop of `_createSlabCache` that chooses the order of the pages of a slab.
use native.Mathlib.Nat.{mul-le-mul_right}
use jiufeng.Prelude.{
  ℕ, zero, suc, ◌*◌, ◌/◌, ◌^◌, ◌≤◌, ◌<◌, ◌≡◌, ◌⊎◌, refl, subst, arith, Bool, true, Option, none,
  some, if◌then◌else◌, some_injective,
}
use jiufeng.Jiukun.Slab.Sizes.{
  page_size, max_jp_order, slab_cache_estimate, next_order, create_slab_loop,
}
use jiufeng.Jiukun.Slab.Sizes.Estimate.{IsEstimate, slab_cache_estimate_lem}

next_order_bound :
    (limit order num left_over o : ℕ) (off_slab : Bool)
    → order ≤ max_jp_order
    → (order ≡ 0 → off_slab ≡ true → num ≤ limit)
    → next_order limit off_slab order (num, left_over) ≡ some o
    → o ≤ max_jp_order
unfolding next_order
next_order_bound limit order num left_over o off_slab h small e = ground arith

next_order_end :
    (limit order num left_over : ℕ) (off_slab : Bool)
    → order ≤ max_jp_order
    → next_order limit off_slab order (num, left_over) ≡ none
    → (order ≡ max_jp_order) ⊎ ((0 < num) × (left_over * 8 ≤ page_size * 2 ^ order))
unfolding next_order
next_order_end limit order num left_over off_slab h e = ground arith

-- What the loop may choose: an order up to the highest, with the estimate at it; below the highest
-- there is an object, and at most an eighth of the pages is left over.
pub record IsChosen (size_of_slab size : ℕ) (off_slab : Bool) (order num left_over : ℕ)
    : Type 0 where
  pub in_range : order ≤ max_jp_order
  pub estimate :
      IsEstimate size
        (if off_slab then 0 else size_of_slab)
        (if off_slab then 0 else 4)
        (page_size * 2 ^ order)
        num
        left_over
  pub good : (order ≡ max_jp_order) ⊎ ((0 < num) × (left_over * 8 ≤ page_size * 2 ^ order))

pub none_not_some : {A : Type 0} (a : A) → none ≡ some a → ⊥
none_not_some a e = ground arith

-- On one page there are few objects of a size that puts the `slab_t` off the slab.
pub few_large :
    (size base extra num left_over : ℕ)
    → page_size / 8 ≤ size
    → IsEstimate size base extra (page_size * 2 ^ 0) num left_over
    → num ≤ 8
few_large size base extra num left_over h e =
    let m : 512 * num ≤ size * num = mul-le-mul_right num (omega (arith, h)) in
    omega (arith, m, e.exact)

module _ (size_of_slab limit size : ℕ) (off_slab : Bool) (pos : 0 < size)
    (fits : size_of_slab ≤ 4088) (large : off_slab ≡ true → page_size / 8 ≤ size)
    (enough : 8 ≤ limit) where
  abbrev est : ℕ → ℕ × ℕ
  est order = slab_cache_estimate size_of_slab order size off_slab

  not_many :
      (order : ℕ) → order ≡ 0 → order ≤ max_jp_order → off_slab ≡ true → (est order).0 ≤ limit
  not_many order z h f =
      let s = slab_cache_estimate_lem size_of_slab order size off_slab pos h fits in
      let s' =
        subst
          (λ o.
            IsEstimate size (if off_slab then 0 else size_of_slab) (if off_slab then 0 else 4)
              (page_size * 2 ^ o) ((est order).0) ((est order).1))
          z s in
      let few =
        few_large size (if off_slab then 0 else size_of_slab) (if off_slab then 0 else 4)
          ((est order).0) ((est order).1) (large f) s' in
      omega (arith, few, enough)

  -- The end of a round, by what it calls for.
  round-IsChosen :
      (fuel order o num left_over : ℕ) (n : Option ℕ)
      → order ≤ max_jp_order
      → ((o' : ℕ)
          → o' ≤ max_jp_order
          → create_slab_loop fuel size_of_slab limit size off_slab o' ≡ some (o, num, left_over)
          → IsChosen size_of_slab size off_slab o num left_over)
      → next_order limit off_slab order (est order) ≡ n
      → (elim n as (λ k. Option (ℕ × ℕ × ℕ)) [
        | none ↦ some (order, (est order).0, (est order).1)
        | some o' ↦ create_slab_loop fuel size_of_slab limit size off_slab o'
      ])
        ≡ some (o, num, left_over)
      → IsChosen size_of_slab size off_slab o num left_over
  round-IsChosen fuel order o num left_over none h ih e r =
      let s = slab_cache_estimate_lem size_of_slab order size off_slab pos h fits in
      let same = some_injective (order, (est order).0, (est order).1) (o, num, left_over) r in
      subst (λ (t : ℕ × ℕ × ℕ). IsChosen size_of_slab size off_slab (t.0) (t.1) (t.2)) same
        (record {
          in_range = h;
          estimate = s;
          good = next_order_end limit order ((est order).0) ((est order).1) off_slab h e;
        })
  round-IsChosen fuel order o num left_over (some o') h ih e r =
      ih o'
        (next_order_bound limit order ((est order).0) ((est order).1) o' off_slab h
          (λ z f. not_many order z h f) e)
        r

  -- When the loop that chooses the order ends, the order is in range, the objects of the estimate fit
  -- its pages and no more would, and below the highest order there is an object and at most an eighth
  -- of the pages is left over.
  pub create_slab_loop-IsChosen :
      (fuel order o num left_over : ℕ)
      → order ≤ max_jp_order
      → create_slab_loop fuel size_of_slab limit size off_slab order ≡ some (o, num, left_over)
      → IsChosen size_of_slab size off_slab o num left_over
  unfolding create_slab_loop
  create_slab_loop-IsChosen zero order o num left_over h e =
      absurd (none_not_some (o, num, left_over) e)
  create_slab_loop-IsChosen (suc fuel) order o num left_over h e =
      round-IsChosen fuel order o num left_over (next_order limit off_slab order (est order)) h
        (λ o' k f. create_slab_loop-IsChosen fuel o' o num left_over k f) refl e

-- A round that calls for itself again is repeated for ever.
pub create_slab_loop-stays :
    (fuel size_of_slab limit size : ℕ) (off_slab : Bool) (order : ℕ)
    → next_order limit off_slab order (slab_cache_estimate size_of_slab order size off_slab)
      ≡ some order
    → create_slab_loop fuel size_of_slab limit size off_slab order ≡ none
unfolding create_slab_loop
create_slab_loop-stays zero size_of_slab limit size off_slab order e = refl
create_slab_loop-stays (suc fuel) size_of_slab limit size off_slab order e =
    rw (e, create_slab_loop) (create_slab_loop-stays fuel size_of_slab limit size off_slab order e)
