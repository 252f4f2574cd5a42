-- ===== src/Jiukun/Slab/Owned.antt =====
-- jiukun/slab.c: the objects that a user of a cache holds.
use native.Mathlib.Nat.{mul-div_cancel}
use jiufeng.Prelude.{
  ℕ, ◌+◌, ◌*◌, ◌/◌, ◌≤◌, ◌<◌, ◌≡◌, inl, inr, sym, ap, subst, ◌∙◌, arith, true, false, List, ◌∷◌,
  ◌==◌, All, All-map, Bool-cases, ==_iff,
}
use jiufeng.Prelude.Counts.{update, erase, count, count-erase, All-count}
use jiufeng.Jiukun.Slab.{Cache, free_obj}
use jiufeng.Jiukun.Slab.Caches.{listed, IsCache, others}
use jiufeng.Jiukun.Slab.Alloc.{Keeps}
use jiufeng.Jiukun.Slab.Given.{Given}
use jiufeng.Jiukun.Slab.Free.{free_obj-IsCache, free_obj-Keeps}

-- The address of an object that is not free.
pub record IsUsed (c : Cache) (frees : ℕ → List ℕ) (p : ℕ) : Type 0 where
  pub slab : ℕ
  pub nr : ℕ
  pub in_list : 0 < listed slab c
  pub below : nr < c.num
  pub used : count nr (frees slab) ≡ 0
  pub address : p ≡ (c.slabs slab).mem + nr * c.obj_size

-- The user holds distinct addresses of objects that are not free in the cache.
pub record IsOwned (page_of : ℕ → ℕ) (r : Cache × List ℕ) : Type 0 where
  pub frees : ℕ → List ℕ
  pub cache : IsCache page_of (r.0) frees
  pub objects : All (IsUsed (r.0) frees) (r.1)
  pub distinct : (p : ℕ) → count p (r.1) ≤ 1

mul_injective : (x y n : ℕ) → 0 < n → x * n ≡ y * n → x ≡ y
mul_injective x y n h e = sym (mul-div_cancel x h) ∙ (ap (λ k. k / n) e ∙ mul-div_cancel y h)

module _ (page_of : ℕ → ℕ) (c : Cache) (frees : ℕ → List ℕ) (v : IsCache page_of c frees) where
  -- An address is that of one object.
  one_object :
      (s t x y : ℕ)
      → 0 < listed s c
      → 0 < listed t c
      → x < c.num
      → y < c.num
      → (c.slabs s).mem + x * c.obj_size ≡ (c.slabs t).mem + y * c.obj_size
      → (s ≡ t) × (x ≡ y)
  one_object s t x y i j h k e =
      let z = v.sized in
      let a = (v.chains s i).1.1 x h in
      let b = (v.chains t j).1.1 y k in
      let same : s ≡ t = sym a ∙ (ap (λ m. c.page_slab (page_of m)) e ∙ b) in
      let m : (c.slabs s).mem ≡ (c.slabs t).mem = ap (λ u. (c.slabs u).mem) same in
      (same, mul_injective x y c.obj_size z.size_pos (omega (arith, e, m)))

still_used :
    (c c' : Cache) (frees frees' : ℕ → List ℕ)
    → Keeps c c'
    → (p : ℕ) (u : IsUsed c frees p) → count u.nr (frees' u.slab) ≡ 0
    → IsUsed c' frees' p
still_used c c' frees frees' k p u n = record {
  slab = u.slab;
  nr = u.nr;
  in_list = k.in_lists u.slab u.in_list;
  below = omega (arith, u.below, k.same_num);
  used = n;
  address = omega (arith, u.address, k.places u.slab u.in_list, ap (λ m. u.nr * m) k.same_size);
}

module _ (page_of : ℕ → ℕ) (c c' : Cache) (frees : ℕ → List ℕ) (p : ℕ)
    (g : Given page_of c frees p c') where
  -- A used object is used behind an allocation, and is not the one that was handed out.
  other_used : (q : ℕ) → IsUsed c frees q → IsUsed c' g.after q × ((q == p) ≡ false)
  unfolding still_used
  other_used q u =
      let t = g.takes in
      let old = g.old_slabs u.slab u.in_list in
      let n : count u.nr (g.before u.slab) ≡ 0 = ap (count u.nr) old ∙ u.used in
      let now = t.now_used u.slab in
      let k = g.keeps in
      let m : count u.nr (g.after u.slab) ≡ 0 = elim (Bool-cases (u.slab == t.slab)) [
        | inl f ↦
            let was : count u.nr (t.nr ∷ t.rest) ≡ 0 =
              ap (count u.nr) (sym t.was_free)
              ∙ subst (λ w. count u.nr (g.before w) ≡ 0) ((==_iff u.slab t.slab).0 f) n in
            ap (count u.nr) now ∙ rw f (omega (arith, was))
        | inr f ↦ ap (count u.nr) now ∙ rw f n
      ] in
      let u' = still_used c c' frees g.after k q u m in
      (
        u',
        elim (Bool-cases (q == p)) [
          | inl f ↦
              let e : q ≡ p = (==_iff q p).0 f in
              let (s, x) =
                one_object page_of c' g.after g.whole u.slab t.slab u.nr t.nr (u'.in_list) t.in_list
                  (u'.below) t.below (sym (u'.address) ∙ (e ∙ t.address)) in
              let free : g.before u.slab ≡ t.nr ∷ t.rest = ap g.before s ∙ t.was_free in
              let one = ap (count u.nr) free in absurd (ground (arith, one, n, x))
          | inr f ↦ f
        ],
      )

  given_used : IsUsed c' g.after p
  given_used =
      let t = g.takes in
      let self : (t.slab == t.slab) ≡ true = ground arith in
      record {
        slab = t.slab;
        nr = t.nr;
        in_list = t.in_list;
        below = t.below;
        used = ap (count t.nr) (t.now_used t.slab) ∙ rw self t.gone;
        address = t.address;
      }

  pub gets-IsOwned :
      (held : List ℕ)
      → All (IsUsed c frees) held
      → ((q : ℕ) → count q held ≤ 1)
      → IsOwned page_of (c', p ∷ held)
  gets-IsOwned held a d =
      let unheld : count p held ≡ 0 = elim (Bool-cases (count p held == 0)) [
        | inl f ↦ ground (arith, f)
        | inr f ↦
            let u = All-count (IsUsed c frees) p held a (ground (arith, f)) in
            let n = (other_used p u).1 in absurd (ground (arith, n))
      ] in
      record {
        frees = g.after;
        cache = g.whole;
        objects = (
          given_used,
          All-map (IsUsed c frees) (IsUsed c' g.after) (λ q u. (other_used q u).0) held a,
        );
        distinct = λ q. ground (arith, d q, unheld);
      }

module _ (page_of : ℕ → ℕ) (c : Cache) (frees : ℕ → List ℕ) (v : IsCache page_of c frees) (p : ℕ)
    (u : IsUsed c frees p) where
  abbrev now : ℕ → List ℕ
  now = update frees u.slab (u.nr ∷ frees u.slab)

  freed-IsCache : IsCache page_of (free_obj page_of c p) now
  freed-IsCache =
      subst (λ q. IsCache page_of (free_obj page_of c q) now) (sym u.address)
        (free_obj-IsCache page_of c frees u.slab u.nr v u.in_list u.below u.used)

  freed-Keeps : Keeps c (free_obj page_of c p)
  freed-Keeps =
      subst (λ q. Keeps c (free_obj page_of c q)) (sym u.address)
        (free_obj-Keeps page_of c frees u.slab u.nr v u.in_list u.below u.used)

  -- The other objects stay used.
  rest_used : (q : ℕ) → (q == p) ≡ false → IsUsed c frees q → IsUsed (free_obj page_of c p) now q
  rest_used q ne w =
      let m : count w.nr (now w.slab) ≡ 0 = elim (Bool-cases (w.slab == u.slab)) [
        | inl f ↦
            let s : w.slab ≡ u.slab = (==_iff w.slab u.slab).0 f in
            let n : count w.nr (frees u.slab) ≡ 0 =
              ap (λ t. count w.nr (frees t)) (sym s) ∙ w.used in
            elim (Bool-cases (u.nr == w.nr)) [
              | inl k ↦
                  let x : u.nr ≡ w.nr = (==_iff u.nr w.nr).0 k in
                  let e : q ≡ p =
                    w.address
                    ∙ (ap (λ t. (c.slabs t).mem + w.nr * c.obj_size) s
                        ∙ (ap (λ y. (c.slabs u.slab).mem + y * c.obj_size) (sym x)
                            ∙ sym u.address)) in
                  absurd (ground (arith, e, ne))
              | inr k ↦ rw f (ground (arith, n, k))
            ]
        | inr f ↦ rw f w.used
      ] in
      still_used c (free_obj page_of c p) frees now freed-Keeps q w m

pub gives-IsOwned :
    (page_of : ℕ → ℕ) (c : Cache) (held : List ℕ) (p : ℕ)
    → IsOwned page_of (c, held)
    → 0 < count p held
    → IsOwned page_of (free_obj page_of c p, erase p held)
gives-IsOwned page_of c held p o h =
    let u = All-count (IsUsed c o.frees) p held o.objects h in
    record {
      frees = now page_of c o.frees o.cache p u;
      cache = freed-IsCache page_of c o.frees o.cache p u;
      objects =
          others (IsUsed c o.frees)
            (IsUsed (free_obj page_of c p) (now page_of c o.frees o.cache p u)) p held
            (rest_used page_of c o.frees o.cache p u) (o.distinct p) o.objects;
      distinct = λ q. ground (arith, count-erase q p held, o.distinct q);
    }

pub fails-IsOwned :
    (page_of : ℕ → ℕ) (c c' : Cache) (held : List ℕ)
    → (o : IsOwned page_of (c, held)) → IsCache page_of c' o.frees
    → Keeps c c'
    → IsOwned page_of (c', held)
fails-IsOwned page_of c c' held o v k = record {
  frees = o.frees;
  cache = v;
  objects =
      All-map (IsUsed c o.frees) (IsUsed c' o.frees)
        (λ p u. still_used c c' o.frees o.frees k p u u.used) held o.objects;
  distinct = o.distinct;
}
