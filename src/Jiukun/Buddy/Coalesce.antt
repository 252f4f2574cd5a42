-- ===== src/Jiukun/Buddy/Coalesce.antt =====
-- jiukun/buddy.c: no two buddies stay free side by side.
use jiufeng.Prelude.{
  ℕ, zero, suc, ◌+◌, ◌-◌, ◌≤◌, ◌<◌, ◌≡◌, inl, inr, sym, ap, subst, ◌∙◌, arith, false, List, [], ◌∷◌,
  ◌==◌, All, Bool-cases, ==_iff, ltb,
}
use jiufeng.Prelude.Counts.{erase}
use jiufeng.Jiukun.Buddy.{Zone, add_free, get_buddy_index, is_buddy_page, merge_page, take_buddy}
use jiufeng.Jiukun.Buddy.Aligned.{Aligned, buddy-Pair, get_buddy_index_twice}
use jiufeng.Jiukun.Buddy.Blocks.{IsBlock}
use jiufeng.Jiukun.Buddy.Counts.{weigh, pow_pos}
use jiufeng.Jiukun.Buddy.Heads.{heads, heads_le, weigh_le_total, All-heads}
use jiufeng.Jiukun.Buddy.Merge.{round-Tiled, next_page, low-IsBlock, buddy-IsBlock}
use jiufeng.Jiukun.Buddy.Tiles.{Tiled, FreeAt, all_pages, one_piece}

-- No block below the last order is free together with its buddy.
abbrev pub IsMerged : ℕ → Zone → Type 0
IsMerged m z =
    (j p : ℕ)
    → suc j < m
    → 0 < weigh (heads p) j (z.free j)
    → weigh (heads (get_buddy_index p j)) j (z.free j) ≡ 0

not_own_buddy : (k p : ℕ) → Aligned k p → (p == get_buddy_index p k) ≡ false
not_own_buddy k p a =
    let pair = buddy-Pair k p a in
    let pos = pow_pos k in
    elim pair.sides [
      | inl (x, y) ↦ ground (arith, x, y, pos)
      | inr (x, y) ↦ ground (arith, x, y, pos)
    ]

module _ (m : ℕ) (z : Zone) (k p : ℕ) (a : Aligned k p)
    (aligned : All (FreeAt m z k) (z.free k)) where
  added :
      IsMerged m z
      → ((suc k < m) → weigh (heads (get_buddy_index p k)) k (z.free k) ≡ 0)
      → (q : ℕ) → suc k < m
      → 0 < weigh (heads q) k (p ∷ z.free k)
      → weigh (heads (get_buddy_index q k)) k (p ∷ z.free k) ≡ 0
  added v alone q lt h = elim (Bool-cases (p == q)) [
    | inl e ↦
        let s : p ≡ q = (==_iff p q).0 e in
        subst (λ x. weigh (heads (get_buddy_index x k)) k (p ∷ z.free k) ≡ 0) s
          (rw (not_own_buddy k p a) (omega (arith, alone lt)))
    | inr e ↦
        let h' = rw e at h in
        elim (Bool-cases (p == get_buddy_index q k)) [
          | inl f ↦
              let place =
                (All-heads q (FreeAt m z k) k (z.free k) aligned (omega (arith, h'))).0.0 in
              let back : get_buddy_index p k ≡ q =
                ap (λ x. get_buddy_index x k) ((==_iff p (get_buddy_index q k)).0 f)
                ∙ get_buddy_index_twice k q place in
              let none = subst (λ x. weigh (heads x) k (z.free k) ≡ 0) back (alone lt) in
              absurd (omega (arith, none, h'))
          | inr f ↦ rw f (omega (arith, v k q lt (omega (arith, h'))))
        ]
  ]

  -- A block whose buddy is not free may be freed.
  pub add_free-IsMerged :
      IsMerged m z
      → ((suc k < m) → weigh (heads (get_buddy_index p k)) k (z.free k) ≡ 0)
      → IsMerged m (add_free z k p)
  unfolding add_free
  add_free-IsMerged v alone j q lt h = elim (Bool-cases (j == k)) [
    | inl e ↦
        let s : k ≡ j = sym ((==_iff j k).0 e) in
        let h' = rw e at h in
        rw e (
          subst
            (λ i.
              suc i < m
              → 0 < weigh (heads q) i (p ∷ z.free k)
              → weigh (heads (get_buddy_index q i)) i (p ∷ z.free k) ≡ 0)
            s (added v alone q) lt h')
    | inr e ↦ let h' = rw e at h in rw e (v j q lt h')
  ]

-- A zone whose lists have become shorter.
pub IsMerged-shorter :
    (m : ℕ) (z z' : Zone)
    → ((j b : ℕ) → weigh (heads b) j (z'.free j) ≤ weigh (heads b) j (z.free j))
    → IsMerged m z
    → IsMerged m z'
IsMerged-shorter m z z' le v j p lt h =
    omega (arith, le j (get_buddy_index p j), v j p lt (omega (arith, le j p, h)))

erase_le : (b c k : ℕ) (l : List ℕ) → weigh (heads b) k (erase c l) ≤ weigh (heads b) k l
erase_le b c k [] = omega arith
erase_le b c k (p ∷ ps) = ground (arith, erase_le b c k ps)

-- A buddy that `_isBuddyPage` refuses is not free.
buddy_is_held :
    (m k b : ℕ) (z : Zone) (held : ℕ → List ℕ) (hand : (ℕ → ℕ → ℕ) → ℕ)
    → Tiled m z held hand
    → k < m
    → IsBlock (all_pages m) k b
    → is_buddy_page z b k ≡ false
    → weigh (heads b) k (z.free k) ≡ 0
unfolding is_buddy_page
buddy_is_held m k b z held hand t lt block e =
    elim (Bool-cases (ltb 0 (weigh (heads b) k (z.free k)))) [
      | inl h ↦
          let at : 0 < weigh (heads b) k (z.free k) = ground (arith, h) in
          let pos = pow_pos k in
          let (place, o) = All-heads b (FreeAt m z k) k (z.free k) (t.frees k) at in
          let one = one_piece m held z hand b t (omega (arith, block.1, pos)) in
          let f : z.allocated b ≡ false = t.marks b (
            omega (
              arith,
              one,
              at,
              heads_le b z.free m,
              heads_le b held m,
              weigh_le_total (heads b) z.free k m lt,
            )) in
          absurd (ground (arith, e, o, f))
      | inr h ↦ ground (arith, h)
    ]

-- The loop of `_freeOnePage` goes on as long as the buddy is free.
pub merge_page-IsMerged :
    (m n : ℕ) (z : Zone) (held : ℕ → List ℕ) (k p : ℕ)
    → suc (k + n) ≡ m
    → IsBlock (all_pages m) k p
    → Tiled m z held (λ w. w k p)
    → IsMerged m z
    → IsMerged m (merge_page n z p p k)
unfolding merge_page
merge_page-IsMerged m zero z held k p e block t v =
    add_free-IsMerged m z k p (block.0) (t.frees k) v (λ h. absurd (omega (arith, e, h)))
merge_page-IsMerged m (suc n) z held k p e block t v =
    let b = get_buddy_index p k in
    let pair = buddy-Pair k p (block.0) in
    let up : suc k < m = omega (arith, e) in
    let same : p + b - p ≡ b = omega arith in
    let next = next_page m k p b block up pair in
    elim (Bool-cases (is_buddy_page z b k)) [
      | inl i ↦
          let fewer =
            IsMerged-shorter m z (take_buddy z b k) (λ j c. erase_le c b j (z.free j)) v in
          let more =
            merge_page-IsMerged m n (take_buddy z b k) held (suc k) pair.low (omega (arith, e))
              (low-IsBlock m k p b block up pair) (round-Tiled m k p b block up pair z held t i)
              fewer in
          rw (same, i, next)
            (subst (λ x. IsMerged m (merge_page n (take_buddy z b k) pair.low pair.low x))
              (omega arith) more)
      | inr i ↦
          rw (same, i)
            (add_free-IsMerged m z k p (block.0) (t.frees k) v (λ h.
              buddy_is_held m k b z held (λ w. w k p) t (omega (arith, up))
                (buddy-IsBlock m k p b block up pair) i))
    ]
