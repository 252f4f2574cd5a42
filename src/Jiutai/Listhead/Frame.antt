-- ===== src/Jiutai/Listhead/Frame.antt =====
-- jiutai/jf_listhead.h: what a call leaves alone.
use jiufeng.Prelude.{
  ℕ, ◌<◌, ◌≡◌, inl, inr, refl, subst, ◌∙◌, arith, List, [], ◌∷◌, ◌==◌, Bool-cases, ==_iff,
}
use jiufeng.Prelude.Counts.{count}
use jiufeng.Jiutai.Listhead.{Links, set_next, set_prev}
use jiufeng.Jiutai.Listhead.Rings.{Leads, IsList}

-- The links of the entries that are not in a list are the same.
pub Kept : Links → Links → List ℕ → Type 0
Kept m m' l = (x : ℕ) → count x l ≡ 0 → (m'.next x ≡ m.next x) × (m'.prev x ≡ m.prev x)

module _ (m : Links) (l : List ℕ) where
  pub Kept-set_next :
      (c d : ℕ) (m' : Links) → 0 < count c l → Kept m m' l → Kept m (set_next c d m') l
  unfolding Kept
  Kept-set_next c d m' h k x n = elim (Bool-cases (x == c)) [
    | inl e ↦
        let n' = subst (λ y. count y l ≡ 0) ((==_iff x c).0 e) n in absurd (omega (arith, n', h))
    | inr e ↦ (rw e ((k x n).0), (k x n).1)
  ]

  pub Kept-set_prev :
      (c d : ℕ) (m' : Links) → 0 < count c l → Kept m m' l → Kept m (set_prev c d m') l
  unfolding Kept
  Kept-set_prev c d m' h k x n = elim (Bool-cases (x == c)) [
    | inl e ↦
        let n' = subst (λ y. count y l ≡ 0) ((==_iff x c).0 e) n in absurd (omega (arith, n', h))
    | inr e ↦ ((k x n).0, rw e ((k x n).1))
  ]

  pub Kept-same : Kept m m l
  unfolding Kept
  Kept-same x h = (refl, refl)

Leads-Kept :
    (m m' : Links) (l : List ℕ)
    → Kept m m' l
    → (a : ℕ) (xs : List ℕ) (b : ℕ) → ((x : ℕ) → 0 < count x (b ∷ a ∷ xs) → count x l ≡ 0)
    → Leads m a xs b
    → Leads m' a xs b
unfolding Kept
Leads-Kept m m' l k a [] b d (n, p) =
    ((k a (d a (ground arith))).0 ∙ n, (k b (d b (ground arith))).1 ∙ p)
Leads-Kept m m' l k a (x ∷ xs) b d (n, p, q) = (
  (k a (d a (ground arith))).0 ∙ n,
  (k x (d x (ground arith))).1 ∙ p,
  Leads-Kept m m' l k x xs b (λ y h. d y (omega (arith, h))) q,
)

-- A call on some entries leaves every list alone that has none of them.
pub IsList-Kept :
    (m m' : Links) (l : List ℕ) (head : ℕ) (xs : List ℕ)
    → Kept m m' l
    → IsList m head xs
    → ((x : ℕ) → 0 < count x (head ∷ xs) → count x l ≡ 0)
    → IsList m' head xs
IsList-Kept m m' l head xs k v d = record {
  leads = Leads-Kept m m' l k head xs head (λ x h. d x (ground (arith, h))) v.leads;
  once = v.once;
}

-- The first and the last entry of a list are entries of it or its head.
pub first_in :
    (m : Links) (a : ℕ) (xs : List ℕ) (b : ℕ) → Leads m a xs b → 0 < count (m.next a) (b ∷ xs)
first_in m a [] b (n, p) = ground (arith, n)
first_in m a (x ∷ xs) b (n, p, l) = ground (arith, n)

pub last_in :
    (m : Links) (a : ℕ) (xs : List ℕ) (b : ℕ) → Leads m a xs b → 0 < count (m.prev b) (a ∷ xs)
last_in m a [] b (n, p) = ground (arith, p)
last_in m a (x ∷ xs) b (n, p, l) = omega (arith, last_in m x xs b l)
