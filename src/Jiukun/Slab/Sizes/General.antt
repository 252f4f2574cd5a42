-- ===== src/Jiukun/Slab/Sizes/General.antt =====
-- jiukun/slab.c: the general cache that `jf_jiukun_allocMemory` takes.
use jiufeng.Prelude.{
  ℕ, ◌*◌, ◌≤◌, ◌<◌, ◌≡◌, ◌⊎◌, inl, inr, refl, arith, Bool, true, ◌&&◌, Option, none, some, List, [],
  ◌∷◌, ◌==◌, ltb, Bool-cases,
}
use jiufeng.Jiukun.Slab.Sizes.{cache_sizes, find_general}

-- Each size is twice the one in front of it.
abbrev doubles : ℕ → List ℕ → Bool
doubles p [] = true
doubles p (s ∷ ss) = s == 2 * p && doubles s ss

abbrev last_size : ℕ → List ℕ → ℕ
last_size p [] = p
last_size p (s ∷ ss) = last_size s ss

abbrev behind_first : List ℕ → List ℕ
behind_first [] = []
behind_first (s ∷ ss) = ss

-- What a size gets of sizes that double, when it is over the one in front of them.
abbrev pub Fits : ℕ → ℕ → Option ℕ → Type 0
Fits largest size none = largest < size
Fits largest size (some s) = (size ≤ s) × ((s ≡ 32) ⊎ (s < 2 * size))

find_doubles :
    (p size : ℕ) (ss : List ℕ)
    → p < size
    → doubles p ss ≡ true
    → Fits (last_size p ss) size (find_general size ss)
unfolding find_general
find_doubles p size [] h d = h
find_doubles p size (s ∷ ss) h d = elim (Bool-cases (ltb s size)) [
  | inl e ↦ rw (e, find_general) (find_doubles s size ss (ground (arith, e)) (ground (arith, d)))
  | inr e ↦ rw (e, find_general) (ground (arith, e), inr (ground (arith, d, h)))
]

-- Memory of up to 8388608 bytes is taken from a general cache with objects of at least that size,
-- which are the smallest ones or of less than twice the size; of more there is none.
pub find_general_lem : (size : ℕ) → Fits 8388608 size (find_general size cache_sizes)
unfolding find_general
find_general_lem size = elim (Bool-cases (ltb 32 size)) [
  | inl e ↦
      rw (e, find_general)
        (find_doubles 32 size (behind_first cache_sizes) (ground (arith, e)) refl)
  | inr e ↦ rw (e, find_general) (ground (arith, e), inl refl)
]
