-- ===== src/Jiukun/Slab/Given.antt =====
-- jiukun/slab.c: an object from a slab of the partial or of the free list.
use jiufeng.Prelude.{
  ℕ, ◌+◌, ◌<◌, ◌≡◌, ◌⊎◌, inl, inr, refl, sym, none, ap, subst, ◌∙◌, arith, true, false, List, [],
  ◌∷◌, ◌==◌, if◌then◌else◌, length, All,
}
use jiufeng.Prelude.Counts.{update, erase, count, All-erased}
use jiufeng.Jiutai.Err.{Code, Result, ok, err}
use jiufeng.Jiukun.Slab.{Cache, Supply, slab_mgmt, unlink, alloc_one_obj}
use jiufeng.Jiukun.Slab.Caches.{listed, IsFull, IsPartial, IsEmpty, IsCache, IsBetween, count-moved}
use jiufeng.Jiukun.Slab.Alloc.{
  Takes, Keeps, alloc_one_obj-IsCache, alloc_one_obj-Keeps, alloc_one_obj-Takes,
}

List-cases : (l : List ℕ) → (l ≡ []) ⊎ ((s : ℕ) × (rest : List ℕ) × (l ≡ s ∷ rest))
List-cases [] = inl refl
List-cases (s ∷ rest) = inr (s, rest, refl)

-- An object was handed out of a cache, which may have grown before.
pub record Given (page_of : ℕ → ℕ) (c : Cache) (frees : ℕ → List ℕ) (p : ℕ) (c' : Cache)
    : Type 0 where
  pub before : ℕ → List ℕ
  pub after : ℕ → List ℕ
  pub old_slabs : (t : ℕ) → 0 < listed t c → before t ≡ frees t
  pub whole : IsCache page_of c' after
  pub takes : Takes c' before after p
  pub keeps : Keeps c c'

-- A refused allocation: the cache has no slab with a free object, the pages or the `slab_t` of a new
-- slab were refused, with the code that goes with it, and only the flags of the cache have changed.
pub record Refused (page_of : ℕ → ℕ) (sl al : ℕ) (supply : Supply) (c : Cache) (e : Code)
    (c' : Cache) : Type 0 where
  pub no_partial : c.partial ≡ []
  pub no_free : c.free ≡ []
  pub refusal :
      (supply.pages ≡ err e)
      ⊎ ((addr : ℕ) × (supply.pages ≡ ok addr)
          × (slab_mgmt sl al page_of c supply.mgmt addr ≡ none)
          × (e ≡ Code.fail_grow_jiukun_cache))
  pub same : record c' { locked = false } ≡ record c { grown = false; locked = false }

-- What an allocation may leave.
abbrev pub Allocs : (ℕ → ℕ) → ℕ → ℕ → Supply → Cache → (ℕ → List ℕ) → Result ℕ × Cache → Type 0
Allocs page_of sl al supply c frees (err e, c') = Refused page_of sl al supply c e c'
Allocs page_of sl al supply c frees (ok p, c') = Given page_of c frees p c'

-- A refused allocation leaves the invariant, with the slabs at their places.
pub Refused-IsCache :
    (page_of : ℕ → ℕ) (sl al : ℕ) (supply : Supply) (c : Cache) (e : Code) (c' : Cache)
    (frees : ℕ → List ℕ)
    → IsCache page_of c frees
    → Refused page_of sl al supply c e c'
    → IsCache page_of c' frees × Keeps c c'
Refused-IsCache page_of sl al supply c e c' frees v r =
    let d = record c { grown = false; locked = false } in
    let w : IsCache page_of d frees = record {
      sized = v.sized;
      once = v.once;
      fulls = v.fulls;
      partials = v.partials;
      empties = v.empties;
      chains = v.chains;
    } in
    let k : Keeps c d = record {
      same_num = refl;
      same_size = refl;
      in_lists = λ t h. h;
      places = λ t h. refl;
    } in
    let w' = subst (λ x. IsCache page_of x frees) (sym r.same) w in
    let k' = subst (Keeps c) (sym r.same) k in
    (
      record {
        sized = w'.sized;
        once = w'.once;
        fulls = w'.fulls;
        partials = w'.partials;
        empties = w'.empties;
        chains = w'.chains;
      },
      record {
        same_num = k'.same_num;
        same_size = k'.same_size;
        in_lists = k'.in_lists;
        places = k'.places;
      },
    )

Keeps-trans : (c d e : Cache) → Keeps c d → Keeps d e → Keeps c e
Keeps-trans c d e a b = record {
  same_num = b.same_num ∙ a.same_num;
  same_size = b.same_size ∙ a.same_size;
  in_lists = λ t h. b.in_lists t (a.in_lists t h);
  places = λ t h. b.places t (a.in_lists t h) ∙ a.places t h;
}

-- The slab that goes from the free list to the partial list.
abbrev pub promoted : Cache → ℕ → Cache
promoted c s = record (unlink s c) { partial = s ∷ erase s c.partial }

module _ (page_of : ℕ → ℕ) where
  -- An object of a slab of the partial list.
  pub give_partial :
      (c : Cache) (frees : ℕ → List ℕ) (s : ℕ)
      → IsBetween page_of c frees s
      → 0 < length (frees s)
      → Given page_of c frees ((alloc_one_obj c s).0) ((alloc_one_obj c s).1)
  give_partial c frees s v some_free = elim (List-cases (frees s)) [
    | inl e ↦ let n = ap length e in absurd (omega (arith, n, some_free))
    | inr (x, xs, e) ↦ record {
      before = frees;
      after = update frees s xs;
      old_slabs = λ t h. refl;
      whole = alloc_one_obj-IsCache page_of c frees s x xs v e;
      takes = alloc_one_obj-Takes page_of c frees s x xs v e;
      keeps = alloc_one_obj-Keeps page_of c frees s x xs v e;
    }
  ]

  pub partial-IsBetween :
      (c : Cache) (frees : ℕ → List ℕ) (s : ℕ) (rest : List ℕ)
      → IsCache page_of c frees
      → c.partial ≡ s ∷ rest
      → IsBetween page_of c frees s × (0 < length (frees s))
  partial-IsBetween c frees s rest v e =
      let n : count s c.partial ≡ (if s == s then 1 else 0) + count s rest = ap (count s) e in
      let a = subst (All (IsPartial c.num frees)) e v.partials in
      (
        record {
          sized = v.sized;
          once = v.once;
          here = ground (arith, n);
          fulls = v.fulls;
          partials = All-erased (IsPartial c.num frees) s c.partial v.partials;
          empties = v.empties;
          chains = v.chains;
        },
        a.0.0,
      )

  promoted-listed : (c : Cache) (s t : ℕ) → listed s c ≡ 1 → listed t (promoted c s) ≡ listed t c
  promoted-listed c s t h = omega (arith, count-moved s t c.full c.partial c.free h)

  promoted-IsBetween :
      (c : Cache) (frees : ℕ → List ℕ) (s : ℕ) (rest : List ℕ)
      → IsCache page_of c frees
      → c.free ≡ s ∷ rest
      → IsBetween page_of (promoted c s) frees s × (0 < length (frees s)) × Keeps c (promoted c s)
  promoted-IsBetween c frees s rest v e =
      let n : count s c.free ≡ (if s == s then 1 else 0) + count s rest = ap (count s) e in
      let one : listed s c ≡ 1 = ground (arith, n, v.once s) in
      let a = subst (All (IsEmpty c.num frees)) e v.empties in
      let self : (s == s) ≡ true = ground arith in
      let z = v.sized in
      (
        record {
          sized = v.sized;
          once = λ t. omega (arith, promoted-listed c s t one, v.once t);
          here = ground arith;
          fulls = All-erased (IsFull frees) s c.full v.fulls;
          partials = rw self (All-erased (IsPartial c.num frees) s c.partial v.partials);
          empties = All-erased (IsEmpty c.num frees) s c.free v.empties;
          chains = λ t h. v.chains t (omega (arith, promoted-listed c s t one, h));
        },
        omega (arith, a.0, z.num_pos),
        record {
          same_num = refl;
          same_size = refl;
          in_lists = λ t h. omega (arith, promoted-listed c s t one, h);
          places = λ t h. refl;
        },
      )

  -- A cache that was made of another before.
  pub Given-later :
      (c d : Cache) (frees frees' : ℕ → List ℕ) (p : ℕ) (e : Cache)
      → Keeps c d
      → ((t : ℕ) → 0 < listed t c → frees' t ≡ frees t)
      → Given page_of d frees' p e
      → Given page_of c frees p e
  Given-later c d frees frees' p e k same g = record {
    before = g.before;
    after = g.after;
    old_slabs = λ t h. g.old_slabs t (k.in_lists t h) ∙ same t h;
    whole = g.whole;
    takes = g.takes;
    keeps = Keeps-trans c d e k g.keeps;
  }

  -- An object of the first slab of the free list.
  pub give_free :
      (c : Cache) (frees : ℕ → List ℕ) (s : ℕ) (rest : List ℕ)
      → IsCache page_of c frees
      → c.free ≡ s ∷ rest
      → Given page_of c frees
          ((alloc_one_obj (promoted c s) s).0)
          ((alloc_one_obj (promoted c s) s).1)
  give_free c frees s rest v e =
      let (b, some_free, keeps) = promoted-IsBetween c frees s rest v e in
      Given-later c (promoted c s) frees frees ((alloc_one_obj (promoted c s) s).0)
        ((alloc_one_obj (promoted c s) s).1) keeps (λ t i. refl)
        (give_partial (promoted c s) frees s b some_free)
