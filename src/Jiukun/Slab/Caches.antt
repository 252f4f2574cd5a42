-- ===== src/Jiukun/Slab/Caches.antt =====
-- jiukun/slab.c: the three lists of a cache.
use jiufeng.Prelude.{
  ℕ, ◌+◌, ◌*◌, ◌^◌, ◌≤◌, ◌<◌, ◌≡◌, inl, inr, sym, subst, ◌∙◌, arith, false, List, [], ◌==◌,
  if◌then◌else◌, length, All, Bool-cases, ==_iff,
}
use jiufeng.Prelude.Counts.{update, erase, count, count-erase, All-erased, All-other}
use jiufeng.Jiukun.Slab.{Slab, Cache, bufctl_end}
use jiufeng.Jiukun.Slab.Chain.{IsSlab}

-- How often a slab is in the lists.
abbrev pub listed : ℕ → Cache → ℕ
listed s c = count s c.full + count s c.partial + count s c.free

-- The qualities of the slabs of each list, by the free objects of the slabs.
abbrev pub IsFull : (ℕ → List ℕ) → ℕ → Type 0
IsFull frees s = frees s ≡ []

abbrev pub IsPartial : ℕ → (ℕ → List ℕ) → ℕ → Type 0
IsPartial num frees s = (0 < length (frees s)) × (length (frees s) < num)

abbrev pub IsEmpty : ℕ → (ℕ → List ℕ) → ℕ → Type 0
IsEmpty num frees s = length (frees s) ≡ num

-- Where the objects of a slab lie, and that their pages lead to it.
abbrev pub IsPlaced : (ℕ → ℕ) → Cache → ℕ → Type 0
IsPlaced page_of c s =
    (0 < (c.slabs s).mem)
    × ((x : ℕ) → x < c.num → c.page_slab (page_of ((c.slabs s).mem + x * c.obj_size)) ≡ s)

-- The numbers of a cache.
pub record IsSized (obj_size num : ℕ) : Type 0 where
  pub size_pos : 0 < obj_size
  pub num_pos : 0 < num
  pub num_small : num < bufctl_end
  pub bytes : num * obj_size < 2 ^ 32

-- The invariant of a cache: a slab is in one list; the slabs of the first list have no free object,
-- those of the last only free ones, those between some of both; each slab has a chain of its free
-- objects, counts the others, and is found by the pages of its objects.
pub record IsCache (page_of : ℕ → ℕ) (c : Cache) (frees : ℕ → List ℕ) : Type 0 where
  pub sized : IsSized c.obj_size c.num
  pub once : (s : ℕ) → listed s c ≤ 1
  pub fulls : All (IsFull frees) c.full
  pub partials : All (IsPartial c.num frees) c.partial
  pub empties : All (IsEmpty c.num frees) c.free
  pub chains : (s : ℕ) → 0 < listed s c → IsSlab c.num (c.slabs s) (frees s) × IsPlaced page_of c s

-- A cache between two steps: one slab of the partial list may have all its objects free.
pub record IsBetween (page_of : ℕ → ℕ) (c : Cache) (frees : ℕ → List ℕ) (s : ℕ) : Type 0 where
  pub sized : IsSized c.obj_size c.num
  pub once : (t : ℕ) → listed t c ≤ 1
  pub here : 0 < count s c.partial
  pub fulls : All (IsFull frees) c.full
  pub partials : All (IsPartial c.num frees) (erase s c.partial)
  pub empties : All (IsEmpty c.num frees) c.free
  pub chains : (t : ℕ) → 0 < listed t c → IsSlab c.num (c.slabs t) (frees t) × IsPlaced page_of c t

-- The slabs of a list but one, when the free objects of that one change.
pub others :
    (P Q : ℕ → Type 0) (s : ℕ) (l : List ℕ)
    → ((t : ℕ) → (t == s) ≡ false → P t → Q t)
    → count s l ≤ 1
    → All P l
    → All Q (erase s l)
others P Q s l f h a =
    All-other P Q s f (erase s l) (ground (arith, count-erase s s l, h)) (All-erased P s l a)

pub rest_same :
    (P : List ℕ → Type 0) (frees : ℕ → List ℕ) (s : ℕ) (ys : List ℕ) (t : ℕ)
    → (t == s) ≡ false
    → P (frees t)
    → P (update frees s ys t)
rest_same P frees s ys t e p = rw e p

-- A slab that is in one list is moved to another.
pub count-moved :
    (s t : ℕ) (F P E : List ℕ)
    → count s F + count s P + count s E ≡ 1
    → (if s == t then 1 else 0) + (count t (erase s F) + count t (erase s P) + count t (erase s E))
      ≡ count t F + count t P + count t E
count-moved s t F P E h = elim (Bool-cases (s == t)) [
  | inl e ↦
      let f : s ≡ t = (==_iff s t).0 e in
      let h' = subst (λ u. count u F + count u P + count u E ≡ 1) f h in
      ground (arith, count-erase t s F, count-erase t s P, count-erase t s E, h', e)
  | inr e ↦ ground (arith, count-erase t s F, count-erase t s P, count-erase t s E, e)
]

-- A cache in which one slab has changed, by its free objects.
module _ (page_of : ℕ → ℕ) (c : Cache) (frees : ℕ → List ℕ) (s : ℕ) (ys : List ℕ) (new : Slab)
    (v : (t : ℕ) → 0 < listed t c → IsSlab c.num (c.slabs t) (frees t) × IsPlaced page_of c t)
    (at : 0 < listed s c) (whole : IsSlab c.num new ys) (place : new.mem ≡ (c.slabs s).mem) where
  pub changed-chains :
      (t : ℕ)
      → 0 < listed t c
      → IsSlab c.num (update c.slabs s new t) (update frees s ys t)
        × IsPlaced page_of (record c { slabs = update c.slabs s new }) t
  changed-chains t h = elim (Bool-cases (t == s)) [
    | inl e ↦
        let f : t ≡ s = (==_iff t s).0 e in
        let (pos, found) = (v s at).1 in
        rw e (
          whole,
          (
            subst (λ m. 0 < m) (sym place) pos,
            λ x lt.
                subst (λ m. c.page_slab (page_of (m + x * c.obj_size)) ≡ t) (sym place)
                  (found x lt ∙ sym f),
          ),
        )
    | inr e ↦ rw e (v t h)
  ]
