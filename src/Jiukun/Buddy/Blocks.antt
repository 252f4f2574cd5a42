-- ===== src/Jiukun/Buddy/Blocks.antt =====
-- jiukun/buddy.c: the search of `_rmqueue` and the blocks that a split leaves in the free lists.
use jiufeng.Prelude.{
  ℕ, zero, suc, ◌+◌, ◌-◌, ◌/◌, ◌^◌, ◌≤◌, ◌<◌, ◌≡◌, refl, ◌∙◌, ap, subst, arith, none, some, List,
  [], ◌∷◌, ◌==◌, length, Bool-cases, ==_iff, inl, inr, All, ◌*◌,
}
use jiufeng.Prelude.Counts.{update}
use jiufeng.Prelude.Word.{inc_u32}
use jiufeng.Jiukun.Buddy.{Zone, add_free, first_area, split_page_list}
use jiufeng.Jiukun.Buddy.Counts.{
  total, total-update, pages, total_le_length, pow_pos, half_pow, pages-IsHalving,
}

pub first_area-some :
    (n : ℕ) (z : Zone) (c k p : ℕ) (rest : List ℕ)
    → first_area n z c ≡ some (k, p, rest)
    → (z.free k ≡ p ∷ rest) × (c ≤ k) × (k < c + n)
unfolding first_area
first_area-some zero z c k p rest h = ground arith
first_area-some (suc n) z c k p rest h = ground (arith, first_area-some n z (c + 1) k p rest)

pub first_area-none :
    (n : ℕ) (z : Zone) (c k : ℕ) → first_area n z c ≡ none → c ≤ k → k < c + n → z.free k ≡ []
unfolding first_area
first_area-none zero z c k h a b = absurd (omega (arith, a, b))
first_area-none (suc n) z c k h a b = ground (arith, first_area-none n z (c + 1) k)

-- A block of order `k` begins at a multiple of its size and lies in the zone.
abbrev pub IsBlock : ℕ → ℕ → ℕ → Type 0
IsBlock num k p = ((q : ℕ) × (p ≡ q * 2 ^ k)) × (p + 2 ^ k ≤ num)

abbrev pub IsExact : Zone → Type 0
IsExact z = (k : ℕ) → z.num_free k ≡ length (z.free k)

abbrev pub HasBlocks : Zone → Type 0
HasBlocks z = (k : ℕ) → All (IsBlock z.num_of_page k) (z.free k)

inc_u32_small : (x : ℕ) → x + 1 < 2 ^ 32 → inc_u32 x ≡ x + 1
inc_u32_small x h = omega arith

pub add_free-IsExact :
    (z : Zone) (k p : ℕ) → length (z.free k) + 1 < 2 ^ 32 → IsExact z → IsExact (add_free z k p)
unfolding add_free
add_free-IsExact z k p h e i = grind (arith, e k, e i, inc_u32_small (z.num_free k))

pub update-All :
    (P : ℕ → ℕ → Type 0) (f : ℕ → List ℕ) (k : ℕ) (v : List ℕ)
    → All (P k) v
    → ((i : ℕ) → All (P i) (f i))
    → (i : ℕ) → All (P i) (update f k v i)
update-All P f k v a b i = elim (Bool-cases (i == k)) [
  | inl h ↦ let e : i ≡ k = (==_iff i k).0 h in rw h (rw e a)
  | inr h ↦ rw h (b i)
]

add_free-HasBlocks :
    (z : Zone) (k p : ℕ) → IsBlock z.num_of_page k p → HasBlocks z → HasBlocks (add_free z k p)
unfolding add_free
add_free-HasBlocks z k p b e = update-All (IsBlock z.num_of_page) z.free k (p ∷ z.free k) (b, e k) e

-- The fields that a split leaves alone.
pub split_page_list-keeps :
    (n : ℕ) (z : Zone) (page high size : ℕ)
    → (Zone.free_pages (split_page_list n z page high size) ≡ z.free_pages)
      × (Zone.max_order (split_page_list n z page high size) ≡ z.max_order)
      × (Zone.num_of_page (split_page_list n z page high size) ≡ z.num_of_page)
unfolding split_page_list add_free
split_page_list-keeps zero z page high size = (refl, refl, refl)
split_page_list-keeps (suc n) z page high size =
    split_page_list-keeps n (add_free z (high - 1) (page + size / 2)) page (high - 1) (size / 2)

pub IsBlock-halves :
    (num k p : ℕ) → IsBlock num (suc k) p → IsBlock num k p × IsBlock num k (p + 2 ^ k)
IsBlock-halves num k p ((q, e), h) =
    let d : p ≡ q * (2 ^ k + 2 ^ k) = e ∙ ap (λ x. q * x) (pages-IsHalving k p) in
    let pw = pages-IsHalving k p in
    (
      ((2 * q, grind (arith, d, pw, h)), grind (arith, d, pw, h)),
      ((2 * q + 1, grind (arith, d, pw, h)), grind (arith, d, pw, h)),
    )

module _ (low : ℕ) where
  pub split_page_list-IsExact :
      (n : ℕ) (z : Zone) (page high size : ℕ)
      → high ≡ low + n
      → size ≡ 2 ^ high
      → high ≤ z.max_order
      → total pages z.free z.max_order + 2 ^ high < 2 ^ 32
      → IsExact z
      → IsExact (split_page_list n z page high size)
  unfolding split_page_list
  split_page_list-IsExact zero z page high size e s h b x = x
  split_page_list-IsExact (suc n) z page high size e s h b x =
      let e0 : high ≡ suc (high - 1) = omega (arith, e) in
      let s' = half_pow (high - 1) size (s ∙ ap (λ k. 2 ^ k) e0) in
      let half =
        split_page_list-IsExact n (add_free z (high - 1) (page + size / 2)) page (high - 1)
          (size / 2) (omega (arith, e)) s' in
      let wt =
        total-update pages z.free (high - 1) ((page + size / 2) ∷ z.free (high - 1)) z.max_order
          (omega (arith, e, h)) in
      let le = total_le_length z.free (high - 1) z.max_order (omega (arith, e, h)) in
      let pw : 2 ^ high ≡ 2 ^ (high - 1) + 2 ^ (high - 1) =
        ap (λ k. 2 ^ k) e0 ∙ pages-IsHalving (high - 1) page in
      let pos = pow_pos (high - 1) in
      half (omega (arith, e, h)) (omega (arith, wt, b, pw))
        (add_free-IsExact z (high - 1) (page + size / 2) (omega (arith, le, b, pw, pos)) x)

  pub split_page_list-HasBlocks :
      (n : ℕ) (z : Zone) (page high size : ℕ)
      → high ≡ low + n
      → size ≡ 2 ^ high
      → IsBlock z.num_of_page high page
      → HasBlocks z
      → HasBlocks (split_page_list n z page high size) × IsBlock z.num_of_page low page
  unfolding split_page_list
  split_page_list-HasBlocks zero z page high size e s b x =
      let e' : high ≡ low = omega (arith, e) in (x, subst (λ k. IsBlock z.num_of_page k page) e' b)
  split_page_list-HasBlocks (suc n) z page high size e s b x =
      let e0 : high ≡ suc (high - 1) = omega (arith, e) in
      let s' = half_pow (high - 1) size (s ∙ ap (λ k. 2 ^ k) e0) in
      let b' = subst (λ k. IsBlock z.num_of_page k page) e0 b in
      let halves = IsBlock-halves z.num_of_page (high - 1) page b' in
      let other : IsBlock z.num_of_page (high - 1) (page + size / 2) = rw s' (halves.1) in
      split_page_list-HasBlocks n (add_free z (high - 1) (page + size / 2)) page (high - 1)
        (size / 2) (omega (arith, e)) s' (halves.0)
        (add_free-HasBlocks z (high - 1) (page + size / 2) other x)
