-- ===== src/Jiukun/Slab/Grow.antt =====
-- jiukun/slab.c: a cache gets a new slab.
use jiufeng.Prelude.{
  ℕ, zero, suc, ◌+◌, ◌*◌, ◌^◌, ◌≤◌, ◌<◌, ◌≡◌, inl, inr, refl, sym, subst, ◌∙◌, arith, false, ◌&&◌,
  List, [], ◌∷◌, ◌==◌, ltb, leb, if◌then◌else◌, Bool-cases, ==_iff,
}
use jiufeng.Prelude.Counts.{update, count-append, All-other, All-append}
use jiufeng.Jiukun.Slab.{Cache, set_page_slabs, add_slab}
use jiufeng.Jiukun.Slab.Chain.{upto, length-upto, init_objs-IsSlab, init_objs-mem}
use jiufeng.Jiukun.Slab.Caches.{listed, IsFull, IsPartial, IsEmpty, IsCache}
use jiufeng.Jiukun.Slab.Alloc.{Keeps}

set_page_slabs_lem :
    (n page s : ℕ) (f : ℕ → ℕ) (p : ℕ)
    → set_page_slabs n page s f p ≡ (if leb page p && ltb p (page + n) then s else f p)
unfolding set_page_slabs
set_page_slabs_lem zero page s f p = ground arith
set_page_slabs_lem (suc n) page s f p =
    ground (arith, set_page_slabs_lem n (page + 1) s (update f page s) p)

module _ (page_of : ℕ → ℕ) where
  -- The pages of a new slab: its `slab_t` is that of no slab, its objects lie on its pages, and no
  -- object of another slab does.
  pub record IsFresh (c : Cache) (addr s mem : ℕ) : Type 0 where
    pub unlisted : listed s c ≡ 0
    pub positive : 0 < mem
    pub own :
        (x : ℕ)
        → x < c.num
        → (page_of addr ≤ page_of (mem + x * c.obj_size))
          × (page_of (mem + x * c.obj_size) < page_of addr + 2 ^ c.order)
    pub apart :
        (t x : ℕ)
        → 0 < listed t c
        → x < c.num
        → (leb (page_of addr) (page_of ((c.slabs t).mem + x * c.obj_size))
            && ltb (page_of ((c.slabs t).mem + x * c.obj_size)) (page_of addr + 2 ^ c.order))
          ≡ false

  module _ (sl al : ℕ) (c : Cache) (frees : ℕ → List ℕ) (addr s mem : ℕ)
      (v : IsCache page_of c frees) (new : IsFresh c addr s mem) where
    abbrev pub added : Cache
    added = add_slab sl al page_of c addr (s, mem)

    added-listed : (t : ℕ) → listed t added ≡ listed t c + (if s == t then 1 else 0)
    unfolding add_slab
    added-listed t = omega (arith, count-append t c.free (s ∷ []))

    old_page :
        (t x : ℕ)
        → 0 < listed t c
        → x < c.num
        → set_page_slabs
            (2 ^ c.order)
            (page_of addr)
            s
            c.page_slab
            (page_of ((c.slabs t).mem + x * c.obj_size))
          ≡ t
    old_page t x h lt =
        set_page_slabs_lem (2 ^ c.order) (page_of addr) s c.page_slab
          (page_of ((c.slabs t).mem + x * c.obj_size))
        ∙ rw (new.apart t x h lt) ((v.chains t h).1.1 x lt)

    new_page :
        (x : ℕ)
        → x < c.num
        → set_page_slabs (2 ^ c.order) (page_of addr) s c.page_slab (page_of (mem + x * c.obj_size))
          ≡ s
    new_page x lt =
        let (l, u) = new.own x lt in
        set_page_slabs_lem (2 ^ c.order) (page_of addr) s c.page_slab
          (page_of (mem + x * c.obj_size))
        ∙ ground (arith, l, u)

    once_added : (t : ℕ) → listed t added ≤ 1
    once_added t = elim (Bool-cases (s == t)) [
      | inl e ↦
          let none = subst (λ u. listed u c ≡ 0) ((==_iff s t).0 e) new.unlisted in
          ground (arith, added-listed t, none, e)
      | inr e ↦ ground (arith, added-listed t, v.once t, e)
    ]

    pub add_slab-IsCache : IsCache page_of added (update frees s (upto 0 c.num))
    unfolding add_slab
    add_slab-IsCache =
        let z = v.sized in
        let no = new.unlisted in
        record {
          sized = z;
          once = λ t. once_added t;
          fulls =
              All-other (IsFull frees) (IsFull (update frees s (upto 0 c.num))) s (λ t f p. rw f p)
                c.full (omega (arith, no)) v.fulls;
          partials =
              All-other (IsPartial c.num frees) (IsPartial c.num (update frees s (upto 0 c.num))) s
                (λ t f p. rw f p) c.partial (omega (arith, no)) v.partials;
          empties =
              All-append (IsEmpty c.num (update frees s (upto 0 c.num))) c.free (s ∷ [])
                (All-other (IsEmpty c.num frees) (IsEmpty c.num (update frees s (upto 0 c.num))) s
                  (λ t f p. rw f p) c.free (omega (arith, no)) v.empties)
                ((ground (arith, length-upto 0 c.num)), tt);
          chains = λ t h. elim (Bool-cases (t == s)) [
            | inl e ↦
                let f : t ≡ s = (==_iff t s).0 e in
                let blank = record (c.slabs s) { in_use = 0; mem = mem } in
                let at = init_objs-mem c.num blank in
                rw e (
                  init_objs-IsSlab c.num blank z.num_pos refl,
                  (
                    subst (λ m. 0 < m) (sym at) new.positive,
                    λ x lt.
                        subst
                          (λ m.
                            set_page_slabs (2 ^ c.order) (page_of addr) s c.page_slab
                              (page_of (m + x * c.obj_size))
                            ≡ t)
                          (sym at) (new_page x lt ∙ sym f),
                  ),
                )
            | inr e ↦
                let e' : (s == t) ≡ false = ground (arith, e) in
                let h' : 0 < listed t c = ground (arith, added-listed t, h, e') in
                rw e ((v.chains t h').0, ((v.chains t h').1.0, λ x lt. old_page t x h' lt))
          ];
        }

    pub add_slab-Keeps : Keeps c added
    unfolding add_slab
    add_slab-Keeps =
        let no = new.unlisted in
        record {
          same_num = refl;
          same_size = refl;
          in_lists = λ t h. omega (arith, added-listed t, h);
          places = λ t h. elim (Bool-cases (t == s)) [
            | inl e ↦
                let f = subst (λ u. 0 < listed u c) ((==_iff t s).0 e) h in
                absurd (omega (arith, f, no))
            | inr e ↦ rw e refl
          ];
        }
