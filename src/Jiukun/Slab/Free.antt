-- ===== src/Jiukun/Slab/Free.antt =====
-- jiukun/slab.c: an object goes back to its slab.
use native.Mathlib.Nat.{mul-div_cancel}
use jiufeng.Prelude.{
  ℕ, ◌+◌, ◌-◌, ◌*◌, ◌/◌, ◌<◌, ◌≡◌, inl, inr, refl, sym, ap, subst, ◌∙◌, arith, List, ◌∷◌, ◌==◌,
  length, All, Bool-cases, ==_iff,
}
use jiufeng.Prelude.Counts.{update, erase, count, All-count, All-restore, erase-absent}
use jiufeng.Prelude.Word.{dec_u32}
use jiufeng.Jiukun.Slab.{Slab, Cache, free_in_slab, free_obj}
use jiufeng.Jiukun.Slab.Chain.{IsSlab}
use jiufeng.Jiukun.Slab.Alloc.{Keeps}
use jiufeng.Jiukun.Slab.Objects.{given, given-IsSlab, not_all_free}
use jiufeng.Jiukun.Slab.Caches.{
  listed, IsFull, IsPartial, IsEmpty, IsPlaced, IsCache, others, count-moved, changed-chains,
}

module _ (page_of : ℕ → ℕ) (c : Cache) (frees : ℕ → List ℕ) (s x : ℕ) (v : IsCache page_of c frees)
    (in_list : 0 < listed s c) (below : x < c.num) (used : count x (frees s) ≡ 0) where
  abbrev ys : List ℕ
  ys = x ∷ frees s

  abbrev frees' : ℕ → List ℕ
  frees' = update frees s ys

  room : length (frees s) < c.num
  room = not_all_free c.num x (c.slabs s) (frees s) ((v.chains s in_list).0) below used

  one : listed s c ≡ 1
  one = omega (arith, v.once s, in_list)

  other_fulls : All (IsFull frees') (erase s c.full)
  other_fulls =
      others (IsFull frees) (IsFull frees') s c.full (λ t f p. rw f p) (omega (arith, one)) v.fulls

  other_partials : All (IsPartial c.num frees') (erase s c.partial)
  other_partials =
      others (IsPartial c.num frees) (IsPartial c.num frees') s c.partial (λ t f p. rw f p)
        (omega (arith, one)) v.partials

  other_empties : All (IsEmpty c.num frees') (erase s c.free)
  other_empties =
      others (IsEmpty c.num frees) (IsEmpty c.num frees') s c.free (λ t f p. rw f p)
        (omega (arith, one)) v.empties

  self : frees' s ≡ ys
  self = ground arith

  -- A slab that keeps its list was in the partial one.
  stays : 0 < length (frees s) → (count s c.full ≡ 0) × (count s c.free ≡ 0)
  stays some_free = (
    elim (Bool-cases (count s c.full == 0)) [
      | inl e ↦ ground (arith, e)
      | inr e ↦
          let f : 0 < count s c.full = ground (arith, e) in
          let none = ap length (All-count (IsFull frees) s c.full v.fulls f) in
          absurd (omega (arith, none, some_free))
    ],
    elim (Bool-cases (count s c.free == 0)) [
      | inl e ↦ ground (arith, e)
      | inr e ↦
          let f : 0 < count s c.free = ground (arith, e) in
          let all = All-count (IsEmpty c.num frees) s c.free v.empties f in
          absurd (omega (arith, all, room))
    ],
  )

  chains' :
      (t : ℕ)
      → 0 < listed t c
      → IsSlab c.num (update c.slabs s (given (c.slabs s) x) t) (frees' t)
        × IsPlaced page_of (record c { slabs = update c.slabs s (given (c.slabs s) x) }) t
  chains' =
      let z = v.sized in
      changed-chains page_of c frees s ys (given (c.slabs s) x) v.chains in_list
        (given-IsSlab c.num (c.slabs s) x (frees s) z.num_small ((v.chains s in_list).0) below used)
        refl

  in_free :
      length ys ≡ c.num
      → IsCache page_of
          (record c {
            slabs = update c.slabs s (given (c.slabs s) x);
            full = erase s c.full;
            partial = erase s c.partial;
            free = s ∷ erase s c.free;
          })
          frees'
  in_free h =
      let moved = λ (t : ℕ). count-moved s t c.full c.partial c.free one in
      record {
        sized = v.sized;
        once = λ t. omega (arith, moved t, v.once t);
        fulls = other_fulls;
        partials = other_partials;
        empties = (ap length self ∙ h, other_empties);
        chains = λ t i. chains' t (omega (arith, moved t, i));
      }

  in_partial :
      length ys < c.num
      → IsCache page_of
          (record c {
            slabs = update c.slabs s (given (c.slabs s) x);
            full = erase s c.full;
            partial = s ∷ erase s c.partial;
            free = erase s c.free;
          })
          frees'
  in_partial h =
      let moved = λ (t : ℕ). count-moved s t c.full c.partial c.free one in
      record {
        sized = v.sized;
        once = λ t. omega (arith, moved t, v.once t);
        fulls = other_fulls;
        partials = (
          subst (λ l. (0 < length l) × (length l < c.num)) (sym self) (omega arith, h),
          other_partials,
        );
        empties = other_empties;
        chains = λ t i. chains' t (omega (arith, moved t, i));
      }

  in_place :
      0 < length (frees s)
      → length ys < c.num
      → IsCache page_of (record c { slabs = update c.slabs s (given (c.slabs s) x) }) frees'
  in_place some_free h =
      let (no_full, no_free) = stays some_free in
      record {
        sized = v.sized;
        once = v.once;
        fulls = subst (All (IsFull frees')) (erase-absent s c.full no_full) other_fulls;
        partials =
            All-restore (IsPartial c.num frees') s c.partial
              (subst (λ l. (0 < length l) × (length l < c.num)) (sym self) (omega arith, h))
              other_partials;
        empties = subst (All (IsEmpty c.num frees')) (erase-absent s c.free no_free) other_empties;
        chains = chains';
      }

  object_nr : ((c.slabs s).mem + x * c.obj_size - (c.slabs s).mem) / c.obj_size ≡ x
  object_nr =
      let z = v.sized in
      let e : (c.slabs s).mem + x * c.obj_size - (c.slabs s).mem ≡ x * c.obj_size = omega arith in
      ap (λ n. n / c.obj_size) e ∙ mul-div_cancel x z.size_pos

  -- The tests of `_freeOneObj` on the number of used objects.
  last_used : (dec_u32 (c.slabs s).in_use == 0) ≡ (length ys == c.num)
  last_used =
      let z = v.sized in
      let small = z.num_small in
      let whole = (v.chains s in_list).0 in let u = whole.used in ground (arith, u, room, small)

  was_full : ((c.slabs s).in_use == c.num) ≡ (length (frees s) == 0)
  was_full = let whole = (v.chains s in_list).0 in let u = whole.used in ground (arith, u)

  -- The slab of the object has it as its first free one.
  free_in_slab-IsCache :
      IsCache page_of (free_in_slab c s ((c.slabs s).mem + x * c.obj_size)) frees'
  unfolding free_in_slab
  free_in_slab-IsCache = elim (Bool-cases (length ys == c.num)) [
    | inl h ↦ rw (object_nr, last_used, h) (in_free (ground (arith, h)))
    | inr h ↦ elim (Bool-cases (length (frees s) == 0)) [
      | inl k ↦ rw (object_nr, last_used, h, was_full, k) (in_partial (ground (arith, h, room)))
      | inr k ↦
          rw (object_nr, last_used, h, was_full, k)
            (in_place (ground (arith, k)) (ground (arith, h, room)))
    ]
  ]

  -- `_freeObj` of an object that is not free makes it the first free one of its slab, which goes to the
  -- list for its number of free objects; the invariant of the cache holds again.
  pub free_obj-IsCache :
      IsCache page_of (free_obj page_of c ((c.slabs s).mem + x * c.obj_size)) frees'
  unfolding free_obj
  free_obj-IsCache =
      let found = (v.chains s in_list).1.1 x below in
      let w = free_in_slab-IsCache in
      let w' =
        subst (λ t. IsCache page_of (free_in_slab c t ((c.slabs s).mem + x * c.obj_size)) frees')
          (sym found) w in
      record {
        sized = w'.sized;
        once = w'.once;
        fulls = w'.fulls;
        partials = w'.partials;
        empties = w'.empties;
        chains = w'.chains;
      }

  free_in_slab-Keeps : (p : ℕ) → Keeps c (free_in_slab c s p)
  unfolding free_in_slab
  free_in_slab-Keeps p =
      let moved = λ (t : ℕ). count-moved s t c.full c.partial c.free one in
      let place : (new : Slab) (t : ℕ)
          → new.mem ≡ (c.slabs s).mem
          → (update c.slabs s new t).mem ≡ (c.slabs t).mem =
        λ new t h. elim (Bool-cases (t == s)) [
          | inl f ↦ rw f (h ∙ ap (λ u. (c.slabs u).mem) (sym ((==_iff t s).0 f)))
          | inr f ↦ rw f refl
        ] in
      elim (Bool-cases (dec_u32 (c.slabs s).in_use == 0)) [
        | inl h ↦ rw h (record {
          same_num = refl;
          same_size = refl;
          in_lists = λ t i. omega (arith, moved t, i);
          places = λ t i. place _ t refl;
        })
        | inr h ↦ elim (Bool-cases ((c.slabs s).in_use == c.num)) [
          | inl k ↦
              rw (h, k)
                (record {
                  same_num = refl;
                  same_size = refl;
                  in_lists = λ t i. omega (arith, moved t, i);
                  places = λ t i. place _ t refl;
                })
          | inr k ↦
              rw (h, k)
                (record {
                  same_num = refl;
                  same_size = refl;
                  in_lists = λ t i. i;
                  places = λ t i. place _ t refl;
                })
        ]
      ]

  pub free_obj-Keeps : Keeps c (free_obj page_of c ((c.slabs s).mem + x * c.obj_size))
  unfolding free_obj
  free_obj-Keeps =
      let found = (v.chains s in_list).1.1 x below in
      let k =
        subst (λ t. Keeps c (free_in_slab c t ((c.slabs s).mem + x * c.obj_size))) (sym found)
          (free_in_slab-Keeps ((c.slabs s).mem + x * c.obj_size)) in
      record {
        same_num = k.same_num;
        same_size = k.same_size;
        in_lists = k.in_lists;
        places = k.places;
      }
