-- ===== src/Jiukun/Slab/Alloc.antt =====
-- jiukun/slab.c: what `_allocObj` hands out.
use native.Mathlib.Nat.{mod-eq_of_lt, mul-le-mul_right}
use jiufeng.Prelude.{
  ℕ, suc, ◌+◌, ◌*◌, ◌%◌, ◌^◌, ◌≤◌, ◌<◌, ◌≡◌, inl, inr, refl, sym, ap, subst, arith, List, [], ◌∷◌,
  ◌==◌, length, All, Bool-cases, ==_iff,
}
use jiufeng.Prelude.Counts.{update, erase, count, count-erase, All-other, All-restore, erase-absent}
use jiufeng.Jiukun.Slab.{Cache, bufctl_end, alloc_one_obj}
use jiufeng.Jiukun.Slab.Chain.{IsSlab}
use jiufeng.Jiukun.Slab.Objects.{taken, taken-IsSlab, next-end}
use jiufeng.Jiukun.Slab.Caches.{
  listed, IsFull, IsPartial, IsEmpty, IsCache, IsBetween, others, count-moved, changed-chains,
}

-- An object that is handed out: it was free in its slab, which is in a list, and is at its place.
pub record Takes (c' : Cache) (frees frees' : ℕ → List ℕ) (p : ℕ) : Type 0 where
  pub slab : ℕ
  pub nr : ℕ
  pub rest : List ℕ
  pub in_list : 0 < listed slab c'
  pub below : nr < c'.num
  pub was_free : frees slab ≡ nr ∷ rest
  pub gone : count nr rest ≡ 0
  pub now_used : (t : ℕ) → frees' t ≡ update frees slab rest t
  pub address : p ≡ (c'.slabs slab).mem + nr * c'.obj_size

-- The slabs of a cache are slabs of the other, at the same places.
pub record Keeps (c c' : Cache) : Type 0 where
  pub same_num : c'.num ≡ c.num
  pub same_size : c'.obj_size ≡ c.obj_size
  pub in_lists : (t : ℕ) → 0 < listed t c → 0 < listed t c'
  pub places : (t : ℕ) → 0 < listed t c → (c'.slabs t).mem ≡ (c.slabs t).mem

small_product : (x num size : ℕ) → x < num → num * size < 2 ^ 32 → x * size % 2 ^ 32 ≡ x * size
small_product x num size h b =
    let le : x ≤ num = omega (arith, h) in mod-eq_of_lt (omega (arith, b, mul-le-mul_right size le))

module _ (page_of : ℕ → ℕ) (c : Cache) (frees : ℕ → List ℕ) (s x : ℕ) (xs : List ℕ)
    (v : IsBetween page_of c frees s) (e : frees s ≡ x ∷ xs) where
  -- The slab that gives an object stays in the partial list, or goes to the full list with its last.
  pub alloc_one_obj-IsCache : IsCache page_of ((alloc_one_obj c s).1) (update frees s xs)
  unfolding alloc_one_obj
  alloc_one_obj-IsCache =
      let z = v.sized in
      let at = v.here in
      let in_list : 0 < listed s c = omega (arith, at) in
      let o = v.once s in
      let slab = (v.chains s in_list).0 in
      let slab' = subst (IsSlab c.num (c.slabs s)) e slab in
      let len : length (frees s) ≡ suc (length xs) = ap length e in
      let full = slab.used in
      let chains =
        changed-chains page_of c frees s xs (taken (c.slabs s)) v.chains in_list
          (taken-IsSlab c.num (c.slabs s) x xs z.num_small slab') refl in
      let F =
        others (IsFull frees) (IsFull (update frees s xs)) s c.full (λ t f p. rw f p)
          (omega (arith, o)) v.fulls in
      let gone : count s (erase s c.partial) ≡ 0 = ground (arith, count-erase s s c.partial, o) in
      let P =
        All-other (IsPartial c.num frees) (IsPartial c.num (update frees s xs)) s (λ t f p. rw f p)
          (erase s c.partial) gone v.partials in
      let E =
        others (IsEmpty c.num frees) (IsEmpty c.num (update frees s xs)) s c.free (λ t f p. rw f p)
          (omega (arith, o)) v.empties in
      let absent_f = erase-absent s c.full (omega (arith, o, at)) in
      let absent_e = erase-absent s c.free (omega (arith, o, at)) in
      let end = next-end c.num (c.slabs s) x xs z.num_small slab' in
      elim (Bool-cases (length xs == 0)) [
        | inl h ↦
            let none : update frees s xs s ≡ [] = ground (arith, h) in
            let move =
              λ (t : ℕ). count-moved s t c.full c.partial c.free (omega (arith, o, in_list)) in
            rw (end, h)
              (record {
                sized = z;
                once = λ t. omega (arith, move t, v.once t);
                fulls = (none, F);
                partials = P;
                empties = E;
                chains = λ t i. chains t (omega (arith, move t, i));
              })
        | inr h ↦
            rw (end, h)
              (record {
                sized = z;
                once = v.once;
                fulls = subst (All (IsFull (update frees s xs))) absent_f F;
                partials =
                    All-restore (IsPartial c.num (update frees s xs)) s c.partial
                      (ground (arith, h, len, full)) P;
                empties = subst (All (IsEmpty c.num (update frees s xs))) absent_e E;
                chains = chains;
              })
      ]

  same_listed : (t : ℕ) → listed t ((alloc_one_obj c s).1) ≡ listed t c
  unfolding alloc_one_obj
  same_listed t =
      let in_list : 0 < listed s c = let at = v.here in omega (arith, at) in
      let move = count-moved s t c.full c.partial c.free (omega (arith, v.once s, in_list)) in
      elim (Bool-cases ((c.slabs s).bufctl (c.slabs s).free_head == bufctl_end)) [
        | inl h ↦ rw h (omega (arith, move))
        | inr h ↦ rw h refl
      ]

  same_place : (t : ℕ) → (((alloc_one_obj c s).1).slabs t).mem ≡ (c.slabs t).mem
  unfolding alloc_one_obj
  same_place t =
      let mem_at : (update c.slabs s (taken (c.slabs s)) t).mem ≡ (c.slabs t).mem =
        elim (Bool-cases (t == s)) [
          | inl f ↦ rw f (ap (λ u. (c.slabs u).mem) (sym ((==_iff t s).0 f)))
          | inr f ↦ rw f refl
        ] in
      elim (Bool-cases ((c.slabs s).bufctl (c.slabs s).free_head == bufctl_end)) [
        | inl h ↦ rw h mem_at
        | inr h ↦ rw h mem_at
      ]

  same_sizes :
      (((alloc_one_obj c s).1).num ≡ c.num) × (((alloc_one_obj c s).1).obj_size ≡ c.obj_size)
  unfolding alloc_one_obj
  same_sizes = elim (Bool-cases ((c.slabs s).bufctl (c.slabs s).free_head == bufctl_end)) [
    | inl h ↦ rw h (refl, refl)
    | inr h ↦ rw h (refl, refl)
  ]

  pub alloc_one_obj-Keeps : Keeps c ((alloc_one_obj c s).1)
  alloc_one_obj-Keeps = record {
    same_num = same_sizes.0;
    same_size = same_sizes.1;
    in_lists = λ t h. omega (arith, same_listed t, h);
    places = λ t h. same_place t;
  }

  object_address : (alloc_one_obj c s).0 ≡ (c.slabs s).mem + x * c.obj_size
  unfolding alloc_one_obj
  object_address =
      let in_list : 0 < listed s c = let at = v.here in omega (arith, at) in
      let slab' = subst (IsSlab c.num (c.slabs s)) e ((v.chains s in_list).0) in
      let z = v.sized in
      let bound = small_product x c.num c.obj_size (slab'.below.0) z.bytes in
      let head : (c.slabs s).free_head ≡ x = slab'.linked.0 in rw (head, bound) refl

  pub alloc_one_obj-Takes :
      Takes ((alloc_one_obj c s).1) frees (update frees s xs) ((alloc_one_obj c s).0)
  alloc_one_obj-Takes =
      let at = v.here in
      let in_list : 0 < listed s c = omega (arith, at) in
      let slab' = subst (IsSlab c.num (c.slabs s)) e ((v.chains s in_list).0) in
      let (num, size) = same_sizes in
      record {
        slab = s;
        nr = x;
        rest = xs;
        in_list = omega (arith, same_listed s, in_list);
        below = omega (arith, slab'.below.0, num);
        was_free = e;
        gone = ground (arith, slab'.once x);
        now_used = λ t. refl;
        address = omega (arith, object_address, same_place s, ap (λ k. x * k) size);
      }
