-- ===== src/Jiukun/Slab/Shrink.antt =====
-- jiukun/slab.c: a cache gives its free slabs back.
use jiufeng.Prelude.{
  ℕ, zero, suc, ◌+◌, ◌<◌, ◌≡◌, inl, inr, refl, sym, ap, subst, arith, Bool, ◌||◌, List, [], ◌∷◌,
  ◌==◌, if◌then◌else◌, length, All, Bool-cases,
}
use jiufeng.Prelude.Counts.{count, All-count}
use jiufeng.Jiukun.Slab.{Cache, split_last, shrink_rounds, shrink, reap}
use jiufeng.Jiukun.Slab.Caches.{listed, IsEmpty, IsCache}

split_last-length : (s : ℕ) (ss : List ℕ) → length ((split_last s ss).0) ≡ length ss
unfolding split_last
split_last-length s [] = refl
split_last-length s (t ∷ ts) = ap suc (split_last-length t ts)

split_last-count :
    (x s : ℕ) (ss : List ℕ)
    → (if (split_last s ss).1 == x then 1 else 0) + count x ((split_last s ss).0) ≡ count x (s ∷ ss)
unfolding split_last
split_last-count x s [] = refl
split_last-count x s (t ∷ ts) = omega (arith, split_last-count x t ts)

-- The rounds take all slabs of the list, and none is left.
shrink_rounds_lem :
    (n : ℕ) (ss : List ℕ)
    → length ss ≡ n
    → ((shrink_rounds n ss).1 ≡ [])
      × ((x : ℕ) → count x ((shrink_rounds n ss).0) ≡ count x ss)
      × (length ((shrink_rounds n ss).0) ≡ n)
unfolding shrink_rounds
shrink_rounds_lem zero [] h = (refl, λ x. refl, refl)
shrink_rounds_lem zero (s ∷ ss) h = absurd (omega (arith, h))
shrink_rounds_lem (suc n) [] h = absurd (omega (arith, h))
shrink_rounds_lem (suc n) (s ∷ ss) h =
    let (l, c, m) =
      shrink_rounds_lem n ((split_last s ss).0) (omega (arith, split_last-length s ss, h)) in
    (l, λ x. omega (arith, split_last-count x s ss, c x), ap suc m)

-- What a shrink does: it destroys the slabs of the free list, each as often as it is there, and
-- leaves the free list empty and the invariant of the cache as it was.
pub record Shrinks (page_of : ℕ → ℕ) (c : Cache) (frees : ℕ → List ℕ) (gone : List ℕ) (c' : Cache)
    : Type 0 where
  pub same_slabs : (s : ℕ) → count s gone ≡ count s c.free
  pub number : length gone ≡ length c.free
  pub none_left : c'.free ≡ []
  pub unused : (s : ℕ) → 0 < count s gone → (c.slabs s).in_use ≡ 0
  pub apart : (s : ℕ) → 0 < count s gone → listed s c' ≡ 0
  pub whole : IsCache page_of c' frees

-- `_shrinkSlabCache` destroys exactly the slabs of the free list, none of which has an object in use
-- and none of which is left in a list; the free list is empty and the invariant holds behind it.
pub shrink-Shrinks :
    (page_of : ℕ → ℕ) (c : Cache) (frees : ℕ → List ℕ)
    → IsCache page_of c frees
    → Shrinks page_of c frees ((shrink c).0) ((shrink c).1)
unfolding shrink
shrink-Shrinks page_of c frees v =
    let (l, n, m) = shrink_rounds_lem (length c.free) c.free refl in
    let left = (shrink_rounds (length c.free) c.free).1 in
    let none : (t : ℕ) → count t left ≡ 0 = λ t. ap (count t) l in
    record {
      same_slabs = n;
      number = m;
      none_left = l;
      unused = λ s h.
          let f : 0 < count s c.free = omega (arith, h, n s) in
          let e = All-count (IsEmpty c.num frees) s c.free v.empties f in
          let w = (v.chains s (omega (arith, f))).0 in let u = w.used in omega (arith, e, u);
      apart = λ s h. omega (arith, v.once s, n s, h, none s);
      whole = record {
        sized = v.sized;
        once = λ s. omega (arith, v.once s, none s);
        fulls = v.fulls;
        partials = v.partials;
        empties = subst (All (IsEmpty c.num frees)) (sym l) tt;
        chains = λ t h. v.chains t (omega (arith, h, none t));
      };
    }

-- The caches that `reapJiukunSlab` leaves alone.
abbrev pub spared : Cache → Bool
spared c = c.no_reap || c.grown || c.locked

-- The slabs that a reap may take.
abbrev pub reapable : List Cache → ℕ
reapable [] = 0
reapable (c ∷ cs) = (if spared c then 0 else length c.free) + reapable cs

-- What a reap makes of each cache.
abbrev pub reaped : List Cache → List Cache
reaped [] = []
reaped (c ∷ cs) = (if spared c then c else (shrink c).1) ∷ reaped cs

-- `reapJiukunSlab` returns the number of the slabs of the free lists of the caches that are neither
-- kept from it, nor grown just now, nor locked, and shrinks exactly these caches.
pub reap_lem : (cs : List Cache) → (reap cs).0 ≡ reapable cs × ((reap cs).1 ≡ reaped cs)
unfolding reap shrink
reap_lem [] = (refl, refl)
reap_lem (c ∷ cs) =
    let (n, e) = reap_lem cs in
    let (l, k, m) = shrink_rounds_lem (length c.free) c.free refl in
    elim (Bool-cases (spared c)) [
      | inl h ↦ rw h (omega (arith, n), ap (λ t. c ∷ t) e)
      | inr h ↦ rw h (omega (arith, n, m), ap (λ t. (shrink c).1 ∷ t) e)
    ]
