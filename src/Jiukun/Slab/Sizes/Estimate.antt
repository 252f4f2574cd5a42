-- ===== src/Jiukun/Slab/Sizes/Estimate.antt =====
-- jiukun/slab.c: `_slabCacheEstimate`.
use native.Mathlib.Nat.{mul-le-mul_right}
use jiufeng.Prelude.{
  ℕ, zero, suc, ◌+◌, ◌-◌, ◌*◌, ◌^◌, ◌≤◌, ◌<◌, ◌≡◌, inl, inr, subst, arith, Bool, ◌==◌, ltb, leb,
  if◌then◌else◌, Bool-cases,
}
use jiufeng.Jiukun.Buddy.Counts.{pow_pos, pow_le}
use jiufeng.Jiukun.Slab.Sizes.{
  page_size, max_jp_order, slab_limit, slab_bytes, estimate_loop, slab_cache_estimate,
}

-- What the loop leaves: the numbers before its end fit, and its end does not.
record Ends (size base extra wastage i r : ℕ) : Type 0 where
  over : wastage < slab_bytes size base extra r
  fit : (x : ℕ) → i ≤ x → x < r → slab_bytes size base extra x ≤ wastage

at_least : (size i : ℕ) → 0 < size → i ≤ i * size
at_least size i h =
    let m : 1 * i ≤ size * i = mul-le-mul_right i (omega (arith, h)) in omega (arith, m)

estimate_loop-Ends :
    (fuel size base extra wastage i : ℕ)
    → 0 < size
    → wastage < fuel + i
    → Ends size base extra wastage i (estimate_loop fuel size base extra wastage i)
unfolding estimate_loop
estimate_loop-Ends zero size base extra wastage i pos h = record {
  over = omega (arith, h, at_least size i pos);
  fit = λ x a b. absurd (omega (arith, a, b));
}
estimate_loop-Ends (suc fuel) size base extra wastage i pos h =
    elim (Bool-cases (leb (slab_bytes size base extra i) wastage)) [
      | inl e ↦
          let e' = estimate_loop-Ends fuel size base extra wastage (i + 1) pos (omega (arith, h)) in
          rw (e, estimate_loop)
            (record {
              over = e'.over;
              fit = λ x a b. elim (Bool-cases (x == i)) [
                | inl f ↦ ground (arith, e, f)
                | inr f ↦ e'.fit x (ground (arith, a, f)) b
              ];
            })
      | inr e ↦
          rw (e, estimate_loop)
            (record { over = ground (arith, e); fit = λ x a b. absurd (omega (arith, a, b)) })
    ]

pub wastage_small : (o : ℕ) → o ≤ max_jp_order → page_size * 2 ^ o ≤ 2 ^ 23
wastage_small o h = omega (arith, pow_le o 11 h)

-- The estimate: the objects and what stands in front of them fill the pages but for the bytes left
-- over, and one object more does not fit.
pub record IsEstimate (size base extra wastage num left_over : ℕ) : Type 0 where
  pub exact : slab_bytes size base extra num + left_over ≡ wastage
  pub most : wastage < slab_bytes size base extra (num + 1)
  pub few : num ≤ wastage

-- The number that the loop leaves, behind the two tests.
settle :
    (size base extra wastage i : ℕ)
    → 0 < size
    → wastage < slab_limit
    → slab_bytes size base extra 0 ≤ wastage
    → Ends size base extra wastage 0 i
    → ((if ltb slab_limit (if ltb 0 i then i - 1 else i)
          then slab_limit
          else if ltb 0 i
          then i - 1
          else i)
        ≡ i - 1)
      × IsEstimate size base extra wastage (i - 1) (wastage - slab_bytes size base extra (i - 1))
settle size base extra wastage zero pos small first e =
    let o = e.over in absurd (omega (arith, o, first))
settle size base extra wastage (suc i) pos small first e =
    let f = e.fit i (omega arith) (omega arith) in
    let n = at_least size i pos in
    let few : i ≤ wastage = omega (arith, f, n) in
    let same : suc i - 1 ≡ i = omega arith in
    (
      ground (arith, few, small),
      rw same (record {
        exact = omega (arith, f);
        most = subst (λ k. wastage < slab_bytes size base extra k) (omega arith) e.over;
        few = few;
      }),
    )

-- `_slabCacheEstimate`, for objects that are not empty, an order up to the highest and a `slab_t` of at
-- most 4088 bytes: the objects, what stands in front of them and the bytes left over are together the
-- bytes of the pages, and one object more does not fit.
pub slab_cache_estimate_lem :
    (size_of_slab jporder size : ℕ) (off_slab : Bool)
    → 0 < size
    → jporder ≤ max_jp_order
    → size_of_slab ≤ 4088
    → IsEstimate size
        (if off_slab then 0 else size_of_slab)
        (if off_slab then 0 else 4)
        (page_size * 2 ^ jporder)
        ((slab_cache_estimate size_of_slab jporder size off_slab).0)
        ((slab_cache_estimate size_of_slab jporder size off_slab).1)
unfolding slab_cache_estimate
slab_cache_estimate_lem size_of_slab jporder size off_slab pos ord fits =
    let w = page_size * 2 ^ jporder in
    let base : ℕ = if off_slab then 0 else size_of_slab in
    let extra : ℕ = if off_slab then 0 else 4 in
    let base_small : base ≤ 4088 = ground (arith, fits) in
    let small : w < slab_limit = omega (arith, wastage_small jporder ord) in
    let big : 4096 ≤ w = omega (arith, pow_pos jporder) in
    let first : slab_bytes size base extra 0 ≤ w = omega (arith, big, base_small) in
    let ends = estimate_loop-Ends (w + 1) size base extra w 0 pos (omega arith) in
    let (e, s) =
      settle size base extra w (estimate_loop (w + 1) size base extra w 0) pos small first ends in
    rw e s
