-- ===== src/Jiukun/Buddy/Tiles.antt =====
-- jiukun/buddy.c: the free blocks and the blocks in use cut a zone into pieces.
use jiufeng.Prelude.{
  ℕ, ◌+◌, ◌-◌, ◌^◌, ◌≤◌, ◌<◌, ◌≡◌, inl, inr, sym, ap, ◌∙◌, arith, true, false, List, [], ◌∷◌, ◌==◌,
  length, All, Bool-cases, ==_iff, ltb,
}
use jiufeng.Prelude.Counts.{erase, update}
use jiufeng.Prelude.Word.{dec_u32_pos}
use jiufeng.Jiukun.Buddy.{Zone, add_free, take_buddy}
use jiufeng.Jiukun.Buddy.Aligned.{covers-at}
use jiufeng.Jiukun.Buddy.Blocks.{IsBlock, IsExact, add_free-IsExact, update-All}
use jiufeng.Jiukun.Buddy.Counts.{
  weigh, total, IsHalving, covers, pages, covers-IsHalving, pages-IsHalving, total-update,
  total_le_length, pow_le, pow_pos,
}
use jiufeng.Jiukun.Buddy.Heads.{
  heads, heads_le, weigh_le_total, weigh_two_le, All-erase, All-avoid, length-erase,
  length-erase_absent, total-erase,
}

-- The number of pages of a zone with the maximum order `m`.
abbrev pub all_pages : ℕ → ℕ
all_pages m = 2 ^ (m - 1)

-- What is recorded of a free block and of a block in use.
abbrev pub FreeAt : ℕ → Zone → ℕ → ℕ → Type 0
FreeAt m z j q = IsBlock (all_pages m) j q × (z.order q ≡ j)

abbrev pub UsedAt : ℕ → Zone → ℕ → ℕ → Type 0
UsedAt m z j q = IsBlock (all_pages m) j q × (z.allocated q ≡ true)

-- A zone between two steps of the code. The lists `held` have the blocks in use, by order; `hand`
-- is the weight of the blocks that the code has taken from one side and not yet given to the other.
-- The pieces of all three are the zone, each page in one piece, which every weight that halves tells.
pub record Tiled (m : ℕ) (z : Zone) (held : ℕ → List ℕ) (hand : (ℕ → ℕ → ℕ) → ℕ) : Type 0 where
  pub top : m ≤ 32
  pub balance :
      (w : ℕ → ℕ → ℕ) → IsHalving w → total w z.free m + total w held m + hand w ≡ w (m - 1) 0
  pub exact : IsExact z
  pub outside : (j : ℕ) → m ≤ j → (z.free j ≡ []) × (held j ≡ [])
  pub frees : (j : ℕ) → All (FreeAt m z j) (z.free j)
  pub helds : (j : ℕ) → All (UsedAt m z j) (held j)
  pub marks : (q : ℕ) → total (heads q) held m ≡ 0 → z.allocated q ≡ false

module _ (m : ℕ) (held : ℕ → List ℕ) where
  -- A page of the zone is in one piece.
  pub one_piece :
      (z : Zone) (hand : (ℕ → ℕ → ℕ) → ℕ) (b : ℕ)
      → Tiled m z held hand
      → b < all_pages m
      → total (covers b) z.free m + total (covers b) held m + hand (covers b) ≡ 1
  one_piece z hand b t h =
      t.balance (covers b) (covers-IsHalving b)
      ∙ covers-at b (m - 1) 0 (omega arith) (omega (arith, h))

  -- The hand may be told in another way.
  pub hand-Tiled :
      (z : Zone) (hand hand' : (ℕ → ℕ → ℕ) → ℕ)
      → Tiled m z held hand
      → ((w : ℕ → ℕ → ℕ) → IsHalving w → hand w ≡ hand' w)
      → Tiled m z held hand'
  hand-Tiled z hand hand' t same = record {
    top = t.top;
    balance = λ w half. omega (arith, t.balance w half, same w half);
    exact = t.exact;
    outside = t.outside;
    frees = t.frees;
    helds = t.helds;
    marks = t.marks;
  }

  pub weigh-heads_none :
      (b : ℕ) (f : ℕ → List ℕ) (j : ℕ)
      → ((j < m) → weigh (heads b) j (f j) ≡ 0)
      → ((m ≤ j) → f j ≡ [])
      → weigh (heads b) j (f j) ≡ 0
  weigh-heads_none b f j h k = elim (Bool-cases (ltb j m)) [
    | inl e ↦ h (ground (arith, e))
    | inr e ↦ ap (weigh (heads b) j) (k (ground (arith, e)))
  ]

  pub absent :
      (b : ℕ) (f : ℕ → List ℕ) (j : ℕ)
      → total (heads b) f m ≡ 0
      → ((m ≤ j) → f j ≡ [])
      → weigh (heads b) j (f j) ≡ 0
  absent b f j h k =
      weigh-heads_none b f j (λ lt. omega (arith, h, weigh_le_total (heads b) f j m lt)) k

  -- Writing the order of a page that begins no block of a list.
  pub write_order-frees :
      (z : Zone) (b v j : ℕ) (l : List ℕ)
      → weigh (heads b) j l ≡ 0
      → All (FreeAt m z j) l
      → All (FreeAt m (record z { order = update z.order b v }) j) l
  write_order-frees z b v j l h a =
      All-avoid b (FreeAt m z j) (FreeAt m (record z { order = update z.order b v }) j)
        (λ q e x. (x.0, rw e (x.1))) j l h a

  module _ (z : Zone) (hand hand' : (ℕ → ℕ → ℕ) → ℕ) (k p : ℕ) (t : Tiled m z held hand)
      (lt : k < m) where
    -- A block in hand goes to the free list of its order.
    pub add_free-Tiled :
        IsBlock (all_pages m) k p
        → ((w : ℕ → ℕ → ℕ) → IsHalving w → hand w ≡ hand' w + w k p)
        → Tiled m (add_free z k p) held hand'
    unfolding add_free
    add_free-Tiled b give =
        let pos = pow_pos k in
        let one = one_piece z hand p t (omega (arith, b.1, pos)) in
        let cov : covers p k p ≡ 1 = covers-at p k p (omega arith) (omega (arith, pos)) in
        let none : total (heads p) z.free m ≡ 0 =
          omega (arith, one, cov, give (covers p) (covers-IsHalving p), heads_le p z.free m) in
        let len : length (z.free k) + 1 < 2 ^ 32 = omega (
          arith,
          t.balance pages pages-IsHalving,
          give pages pages-IsHalving,
          pos,
          total_le_length z.free k m lt,
          pow_le (m - 1) 31 (omega (arith, t.top)),
        ) in
        record {
          top = t.top;
          balance = λ w half.
              omega
                (arith, t.balance w half, give w half, total-update w z.free k (p ∷ z.free k) m lt);
          exact = add_free-IsExact z k p len t.exact;
          outside = λ j h. (ground (arith, lt, h, t.outside j h), (t.outside j h).1);
          frees =
              update-All (FreeAt m (add_free z k p)) z.free k (p ∷ z.free k)
                (
                  (b, ground arith),
                  write_order-frees z p k k (z.free k)
                      (absent p z.free k none (λ h. (t.outside k h).0)) (t.frees k),
                )
                (λ j.
                  write_order-frees z p k j (z.free j)
                    (absent p z.free j none (λ h. (t.outside j h).0)) (t.frees j));
          helds = t.helds;
          marks = t.marks;
        }

    -- A free block is taken out of its list.
    module _ (b : ℕ) (at : 0 < weigh (heads b) k (z.free k)) (in_zone : b < all_pages m) where
      take_buddy-IsExact : total (heads b) z.free m ≤ 1 → IsExact (take_buddy z b k)
      unfolding take_buddy
      take_buddy-IsExact once j = elim (Bool-cases (j == k)) [
        | inl e ↦
            let s : j ≡ k = (==_iff j k).0 e in
            let l = length-erase b k (z.free k) at in
            let l' : length (erase b (z.free j)) ≡ length (erase b (z.free k)) =
              ap (λ i. length (erase b (z.free i))) s in
            let n : length (z.free k) < 2 ^ 32 = omega (
              arith,
              t.balance pages pages-IsHalving,
              total_le_length z.free k m lt,
              pow_le (m - 1) 31 (omega (arith, t.top)),
            ) in
            let x = t.exact k in
            let d = dec_u32_pos (z.num_free k) (omega (arith, x, l)) (omega (arith, x, n)) in
            rw e (omega (arith, d, x, l, l'))
        | inr e ↦
            let ne : ¬ (j ≡ k) = ground (arith, e) in
            let two : (j < m) → weigh (heads b) j (z.free j) ≡ 0 =
              λ h. omega (arith, weigh_two_le (heads b) z.free j k m ne h lt, once, at) in
            let no = weigh-heads_none b z.free j two (λ h. (t.outside j h).0) in
            let same = length-erase_absent b j (z.free j) no in rw e (t.exact j ∙ sym same)
      ]

      pub take_buddy-Tiled : Tiled m (take_buddy z b k) held (λ w. hand w + w k b)
      unfolding take_buddy
      take_buddy-Tiled =
          let pos = pow_pos k in
          let le = weigh_le_total (heads b) z.free k m lt in
          let one = one_piece z hand b t in_zone in
          let once : total (heads b) z.free m ≤ 1 = omega (arith, one, heads_le b z.free m) in
          let self : heads b k b ≡ 1 = ground arith in
          let none : total (heads b) (λ j. erase b (z.free j)) m ≡ 0 =
            omega (arith, total-erase b (heads b) z.free k m once lt at, once, self) in
          let unheld : total (heads b) held m ≡ 0 =
            omega (arith, one, heads_le b z.free m, heads_le b held m, le, at) in
          record {
            top = t.top;
            balance =
                λ w half. omega (arith, t.balance w half, total-erase b w z.free k m once lt at);
            exact = take_buddy-IsExact once;
            outside = λ j h. (ap (erase b) ((t.outside j h).0), (t.outside j h).1);
            frees = λ j.
                write_order-frees z b 0 j (erase b (z.free j))
                  (absent b (λ i. erase b (z.free i)) j none
                    (λ h. ap (erase b) ((t.outside j h).0)))
                  (All-erase b (FreeAt m z j) (z.free j) (t.frees j));
            helds = t.helds;
            marks = t.marks;
          }
