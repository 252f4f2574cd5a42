-- ===== src/Jiukun/Buddy/Hold.antt =====
-- jiukun/buddy.c: a block that goes from the free lists to its user.
use jiufeng.Prelude.{
  ℕ, zero, suc, ◌+◌, ◌-◌, ◌/◌, ◌%◌, ◌^◌, ◌≤◌, ◌<◌, ◌≡◌, inl, inr, refl, ap, subst, ◌∙◌, arith, true,
  Option, none, some, List, ◌∷◌, ◌==◌, All, Bool-cases, ==_iff, Option-cases,
}
use jiufeng.Prelude.Counts.{erase, update}
use jiufeng.Jiukun.Buddy.{
  Zone, add_free, first_area, mark_block, rm_found, rmqueue, split_page_list, take_block,
  take_buddy,
}
use jiufeng.Jiukun.Buddy.Aligned.{covers-at}
use jiufeng.Jiukun.Buddy.Blocks.{IsBlock, IsBlock-halves, first_area-some, update-All}
use jiufeng.Jiukun.Buddy.Counts.{weigh, total, IsHalving, pow_pos, half_pow, total-update}
use jiufeng.Jiukun.Buddy.Heads.{heads, heads_le, All-avoid, erase_absent, weigh_two_le}
use jiufeng.Jiukun.Buddy.Tiles.{
  Tiled, FreeAt, UsedAt, all_pages, one_piece, absent, weigh-heads_none, write_order-frees,
  add_free-Tiled, take_buddy-Tiled, hand-Tiled,
}

module _ (m : ℕ) (held : ℕ → List ℕ) where
  with_free_pages-Tiled :
      (z : Zone) (hand : (ℕ → ℕ → ℕ) → ℕ) (n : ℕ)
      → Tiled m z held hand
      → Tiled m (record z { free_pages = n }) held hand
  with_free_pages-Tiled z hand n t = record {
    top = t.top;
    balance = t.balance;
    exact = t.exact;
    outside = t.outside;
    frees = t.frees;
    helds = t.helds;
    marks = t.marks;
  }

  with_free-Tiled :
      (z : Zone) (hand : (ℕ → ℕ → ℕ) → ℕ) (f : ℕ → List ℕ)
      → ((j : ℕ) → z.free j ≡ f j)
      → Tiled m z held hand
      → Tiled m (record z { free = f }) held hand
  with_free-Tiled z hand f h t =
      subst (λ g. Tiled m (record z { free = g }) held hand) (λ i j. h j i) t

  -- One round of a split: the upper half of the block in hand goes to its list.
  pub split_step :
      (z : Zone) (page high size : ℕ)
      → 0 < high
      → size ≡ 2 ^ high
      → high < m
      → IsBlock (all_pages m) high page
      → Tiled m z held (λ w. w high page)
      → (size / 2 ≡ 2 ^ (high - 1))
        × IsBlock (all_pages m) (high - 1) page
        × IsBlock (all_pages m) (high - 1) (page + size / 2)
        × Tiled m (add_free z (high - 1) (page + size / 2)) held (λ w. w (high - 1) page)
  split_step z page high size e s lt block t =
      let e0 : high ≡ suc (high - 1) = omega (arith, e) in
      let s' = half_pow (high - 1) size (s ∙ ap (λ k. 2 ^ k) e0) in
      let (lower, upper) =
        IsBlock-halves (all_pages m) (high - 1) page
          (subst (λ k. IsBlock (all_pages m) k page) e0 block) in
      let there : IsBlock (all_pages m) (high - 1) (page + size / 2) = rw s' upper in
      let give : (w : ℕ → ℕ → ℕ)
          → IsHalving w
          → w high page ≡ w (high - 1) page + w (high - 1) (page + size / 2) =
        λ w half.
          let a : w high page ≡ w (suc (high - 1)) page = ap (λ k. w k page) e0 in
          let c = ap (λ x. w (high - 1) (page + x)) s' in
          omega (arith, a, c, half (high - 1) page) in
      (
        s',
        lower,
        there,
        add_free-Tiled m held z (λ w. w high page) (λ w. w (high - 1) page) (high - 1)
            (page + size / 2) t (omega (arith, lt)) there give,
      )

  -- `_rmqueue` splits a block in hand down to the order asked for.
  pub split_page_list-Tiled :
      (low n : ℕ) (z : Zone) (page high size : ℕ)
      → high ≡ low + n
      → size ≡ 2 ^ high
      → high < m
      → IsBlock (all_pages m) high page
      → Tiled m z held (λ w. w high page)
      → Tiled m (split_page_list n z page high size) held (λ w. w low page)
        × IsBlock (all_pages m) low page
  unfolding split_page_list
  split_page_list-Tiled low zero z page high size e s lt block t =
      let e' : high ≡ low = omega (arith, e) in
      (
        subst (λ k. Tiled m z held (λ w. w k page)) e' t,
        subst (λ k. IsBlock (all_pages m) k page) e' block,
      )
  split_page_list-Tiled low (suc n) z page high size e s lt block t =
      let (s', lower, there, added) = split_step z page high size (omega (arith, e)) s lt block t in
      split_page_list-Tiled low n (add_free z (high - 1) (page + size / 2)) page (high - 1)
        (size / 2) (omega (arith, e)) s' (omega (arith, lt)) lower added

-- A block taken from the front of a free list.
module _ (m : ℕ) (held : ℕ → List ℕ) (z : Zone) (t : Tiled m z held (λ w. 0)) (order k p : ℕ)
    (rest : List ℕ) (lt : k < m) (e : z.free k ≡ p ∷ rest) where
  front : 0 < weigh (heads p) k (z.free k)
  front =
      let a : weigh (heads p) k (z.free k) ≡ weigh (heads p) k (p ∷ rest) =
        ap (weigh (heads p) k) e in
      ground (arith, a)

  pub front-IsBlock : IsBlock (all_pages m) k p
  front-IsBlock = (subst (All (FreeAt m z k)) e (t.frees k)).0.0

  front_in_zone : p < all_pages m
  front_in_zone = let pos = pow_pos k in omega (arith, front-IsBlock.1, pos)

  rest_lists : (j : ℕ) → erase p (z.free j) ≡ update z.free k rest j
  rest_lists j = elim (Bool-cases (j == k)) [
    | inl x ↦
        let s : z.free j ≡ p ∷ rest = ap z.free ((==_iff j k).0 x) ∙ e in
        let same : (p == p) ≡ true = ground arith in
        let head : erase p (p ∷ rest) ≡ rest = rw same refl in rw x (ap (erase p) s ∙ head)
    | inr x ↦
        let ne : ¬ (j ≡ k) = ground (arith, x) in
        let once : total (heads p) z.free m ≤ 1 =
          omega (arith, one_piece m held z (λ w. 0) p t front_in_zone, heads_le p z.free m) in
        let two : (j < m) → weigh (heads p) j (z.free j) ≡ 0 =
          λ h. omega (arith, weigh_two_le (heads p) z.free j k m ne h lt, once, front) in
        rw x (
          erase_absent p j (z.free j)
            (weigh-heads_none m held p z.free j two (λ h. (t.outside j h).0)))
  ]

  pub take_block-Tiled : Tiled m (take_block z order k p rest) held (λ w. w k p)
  unfolding take_block take_buddy
  take_block-Tiled =
      let taken = take_buddy-Tiled m held z (λ w. 0) (λ w. 0) k p t lt p front front_in_zone in
      let named =
        hand-Tiled m held (take_buddy z p k) (λ w. 0 + w k p) (λ w. w k p) taken
          (λ w half. omega arith) in
      with_free_pages-Tiled m held (record (take_buddy z p k) { free = update z.free k rest })
        (λ w. w k p) ((z.free_pages + 2 ^ 32 - 2 ^ order) % 2 ^ 32)
        (with_free-Tiled m held (take_buddy z p k) (λ w. w k p) (update z.free k rest) rest_lists
          named)

-- A block that comes back is in hand and well placed.
abbrev pub InHand : ℕ → (ℕ → List ℕ) → ℕ → Option (ℕ × Zone) → Type 0
InHand m held order none = Unit
InHand m held order (some (p, z')) =
    Tiled m z' held (λ w. w order p) × IsBlock (all_pages m) order p × (order < m)

pub rmqueue-InHand :
    (z : Zone) (held : ℕ → List ℕ) (order : ℕ)
    → Tiled z.max_order z held (λ w. 0)
    → InHand z.max_order held order (rmqueue z order)
unfolding rmqueue rm_found
rmqueue-InHand z held order t = elim (Option-cases (first_area (z.max_order - order) z order)) [
  | inl e ↦ rw e tt
  | inr ((k, q, rest), e) ↦
      let (f, low, high) = first_area-some (z.max_order - order) z order k q rest e in
      let lt : k < z.max_order = omega (arith, low, high) in
      let (left, block) =
        split_page_list-Tiled z.max_order held order (k - order) (take_block z order k q rest) q k
          (2 ^ k) (omega (arith, low)) refl lt
          (front-IsBlock z.max_order held z t order k q rest lt f)
          (take_block-Tiled z.max_order held z t order k q rest lt f) in
      rw e (left, block, omega (arith, low, lt))
]

-- `getJiukunPage` marks the block in hand, which is in use from then on.
pub mark_block-Tiled :
    (m : ℕ) (z : Zone) (held : ℕ → List ℕ) (k p : ℕ)
    → Tiled m z held (λ w. w k p)
    → IsBlock (all_pages m) k p
    → k < m
    → Tiled m (mark_block z p k) (update held k (p ∷ held k)) (λ w. 0)
mark_block-Tiled m z held k p t block lt =
    let pos = pow_pos k in
    let one = one_piece m held z (λ w. w k p) p t (omega (arith, block.1, pos)) in
    let own = covers-at p k p (omega arith) (omega (arith, pos)) in
    let no_free : total (heads p) z.free m ≡ 0 = omega (arith, one, own, heads_le p z.free m) in
    let no_held : total (heads p) held m ≡ 0 = omega (arith, one, own, heads_le p held m) in
    let z' = mark_block z p k in
    let marked : (j : ℕ) → All (UsedAt m z' j) (held j) = λ j.
      All-avoid p (UsedAt m z j) (UsedAt m z' j) (λ q e x. (x.0, rw e (x.1))) j (held j)
        (absent m held p held j no_held (λ h. (t.outside j h).1)) (t.helds j) in
    record {
      top = t.top;
      balance = λ w half. omega (arith, t.balance w half, total-update w held k (p ∷ held k) m lt);
      exact = t.exact;
      outside = λ j h. ((t.outside j h).0, ground (arith, lt, h, t.outside j h));
      frees = λ j.
          write_order-frees m held z p k j (z.free j)
            (absent m held p z.free j no_free (λ h. (t.outside j h).0)) (t.frees j);
      helds = update-All (UsedAt m z') held k (p ∷ held k) ((block, ground arith), marked k) marked;
      marks = λ q h.
          let u = total-update (heads q) held k (p ∷ held k) m lt in
          elim (Bool-cases (q == p)) [
            | inl e ↦
                let self : heads q k p ≡ 1 = ground (arith, e) in absurd (omega (arith, u, h, self))
            | inr e ↦ rw e (t.marks q (omega (arith, u, h)))
          ];
    }
