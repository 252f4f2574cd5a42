-- ===== src/Jiukun/Buddy/OneBlock.antt =====
-- jiukun/buddy.c: without blocks in use and without free buddies there is one free block.
use jiufeng.Prelude.{
  ℕ, zero, suc, ◌+◌, ◌-◌, ◌^◌, ◌<◌, ◌≡◌, inl, inr, refl, ap, subst, ◌∙◌, arith, List, [], ◌∷◌, ◌==◌,
  ltb, if◌then◌else◌, All, Bool-cases, ==_iff, All-map,
}
use jiufeng.Jiukun.Buddy.{Zone, get_buddy_index}
use jiufeng.Jiukun.Buddy.Aligned.{buddy-Pair, covers-at, covers-first}
use jiufeng.Jiukun.Buddy.Blocks.{IsBlock}
use jiufeng.Jiukun.Buddy.Coalesce.{IsMerged}
use jiufeng.Jiukun.Buddy.Counts.{weigh, total, pages, covers, pow_pos, pages-IsHalving}
use jiufeng.Jiukun.Buddy.Heads.{heads, weigh_two_le, All-heads, heads-weigh_le, block_of_page}
use jiufeng.Jiukun.Buddy.Merge.{buddy-IsBlock, covers_both}
use jiufeng.Jiukun.Buddy.Tiles.{Tiled, FreeAt, all_pages, one_piece}

-- Without blocks in use and without free buddies, all is one free block.
module _ (m : ℕ) (z : Zone) (held : ℕ → List ℕ) (t : Tiled m z held (λ w. 0)) (v : IsMerged m z)
    (unused : (w : ℕ → ℕ → ℕ) → total w held m ≡ 0) where
  no_small_block :
      (k p : ℕ)
      → suc k < m
      → ((j : ℕ) → j < k → z.free j ≡ [])
      → 0 < weigh (heads p) k (z.free k)
      → ⊥
  no_small_block k p up lower at =
      let place = (All-heads p (FreeAt m z k) k (z.free k) (t.frees k) at).0 in
      let b = get_buddy_index p k in
      let pair = buddy-Pair k p (place.0) in
      let other = buddy-IsBlock m k p b place up pair in
      let pos = pow_pos k in
      let at_b = one_piece m held z (λ w. 0) b t (omega (arith, other.1, pos)) in
      let at_p = one_piece m held z (λ w. 0) p t (omega (arith, place.1, pos)) in
      let (j, q, lt, i, c) = block_of_page b z.free m (omega (arith, at_b, unused (covers b))) in
      let a = (All-heads q (FreeAt m z j) j (z.free j) (t.frees j) i).0.0 in
      elim (Bool-cases (ltb j k)) [
        | inl h ↦
            let n : weigh (heads q) j (z.free j) ≡ 0 =
              ap (weigh (heads q) j) (lower j (ground (arith, h))) in
            omega (arith, n, i)
        | inr h ↦ elim (Bool-cases (j == k)) [
          | inl e ↦
              let s : j ≡ k = (==_iff j k).0 e in
              let first = covers-first j k b q (omega (arith, s)) (other.0) a c in
              let i' : 0 < weigh (heads q) k (z.free k) =
                subst (λ x. 0 < weigh (heads q) x (z.free x)) s i in
              let i'' = subst (λ x. 0 < weigh (heads x) k (z.free k)) first i' in
              omega (arith, i'', v k p up at)
          | inr e ↦
              let gt : k < j = ground (arith, h, e) in
              let both = covers_both m k p b place up pair j q gt a c in
              let own = covers-at p k p (omega arith) (omega (arith, pos)) in
              let two =
                weigh_two_le (covers p) z.free j k m (omega (arith, gt)) lt (omega (arith, up)) in
              omega (
                arith,
                two,
                both,
                own,
                at_p,
                heads-weigh_le q (covers p) j (z.free j) i,
                heads-weigh_le p (covers p) k (z.free k) at,
              )
        ]
      ]

  lower_empty : (n : ℕ) → n < m → (j : ℕ) → j < n → z.free j ≡ []
  lower_empty zero lt j h = absurd (omega (arith, h))
  lower_empty (suc n) lt j h =
      let lower = lower_empty n (omega (arith, lt)) in
      elim (Bool-cases (j == n)) [
        | inl e ↦
            let s : j ≡ n = (==_iff j n).0 e in
            ap z.free s ∙ empty_or_block n (z.free n) refl (λ p at. no_small_block n p lt lower at)
        | inr e ↦ lower j (ground (arith, h, e))
      ]
    where
      empty_or_block :
          (n : ℕ) (l : List ℕ)
          → z.free n ≡ l
          → ((p : ℕ) → 0 < weigh (heads p) n (z.free n) → ⊥)
          → l ≡ []
      empty_or_block n [] e f = refl
      empty_or_block n (p ∷ ps) e f =
          let a : weigh (heads p) n (z.free n) ≡ weigh (heads p) n (p ∷ ps) =
            ap (weigh (heads p) n) e in
          absurd (f p (ground (arith, a)))

  -- The total over empty lists and the last one.
  total_lower : (w : ℕ → ℕ → ℕ) (n : ℕ) → n < m → total w z.free n ≡ 0
  total_lower w zero lt = refl
  total_lower w (suc n) lt =
      let e : weigh w n (z.free n) ≡ 0 = ap (weigh w n) (lower_empty (suc n) lt n (omega arith)) in
      omega (arith, e, total_lower w n (omega (arith, lt)))

  single : (k : ℕ) (l : List ℕ) → weigh pages k l ≡ 2 ^ k → All (IsBlock (2 ^ k) k) l → l ≡ 0 ∷ []
  single k [] e a = let pos = pow_pos k in absurd (omega (arith, e, pos))
  single k (p ∷ []) e ((x, h), a) = let z : p ≡ 0 = omega (arith, h) in ap (λ q. q ∷ []) z
  single k (p ∷ q ∷ l) e a = let pos = pow_pos k in absurd (omega (arith, e, pos))

  pub one_block : 0 < m → z.free (m - 1) ≡ 0 ∷ []
  one_block pos =
      let last : m ≡ suc (m - 1) = omega (arith, pos) in
      let e : total pages z.free m
          ≡ weigh pages (m - 1) (z.free (m - 1)) + total pages z.free (m - 1) =
        ap (total pages z.free) last in
      single (m - 1) (z.free (m - 1))
        (omega (
          arith,
          e,
          total_lower pages (m - 1) (omega (arith, pos)),
          t.balance pages pages-IsHalving,
          unused pages,
        ))
        (All-map (FreeAt m z (m - 1)) (IsBlock (all_pages m) (m - 1)) (λ q x. x.0) (z.free (m - 1))
          (t.frees (m - 1)))

  pub new_list : 0 < m → (j : ℕ) → z.free j ≡ (if j == m - 1 then 0 ∷ [] else [])
  new_list pos j = elim (Bool-cases (j == m - 1)) [
    | inl e ↦ let s : j ≡ m - 1 = (==_iff j (m - 1)).0 e in rw e (ap z.free s ∙ one_block pos)
    | inr e ↦ elim (Bool-cases (ltb j m)) [
      | inl l ↦ rw e (lower_empty (m - 1) (omega (arith, pos)) j (ground (arith, e, l)))
      | inr l ↦ rw e ((t.outside j (ground (arith, l))).0)
    ]
  ]

pub total_of_none :
    (w : ℕ → ℕ → ℕ) (f : ℕ → List ℕ) → ((j : ℕ) → f j ≡ []) → (n : ℕ) → total w f n ≡ 0
total_of_none w f h zero = refl
total_of_none w f h (suc n) =
    let e : weigh w n (f n) ≡ 0 = ap (weigh w n) (h n) in omega (arith, e, total_of_none w f h n)
