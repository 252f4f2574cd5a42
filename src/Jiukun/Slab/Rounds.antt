-- ===== src/Jiukun/Slab/Rounds.antt =====
-- jiukun/slab.c: the rounds of `_allocObj`.
use jiufeng.Prelude.{
  ℕ, ◌<◌, ◌≡◌, inl, inr, refl, ap, subst, arith, Bool, true, false, Option, none, some, List, [],
  ◌∷◌, ◌==◌, length, length-append, Bool-cases, ==_iff,
}
use jiufeng.Prelude.Counts.{update}
use jiufeng.Jiutai.Err.{Result, ok, err}
use jiufeng.Jiukun.Slab.{
  Cache, Supply, slab_mgmt, add_slab, grow_at, grow_pages, grow_slab_cache, alloc_new_slab,
  alloc_by_partial, alloc_one_obj, alloc_from_free, alloc_grown, alloc_round, round_end,
  unlock_cache, alloc_loop, alloc_obj,
}
use jiufeng.Jiukun.Slab.Chain.{upto}
use jiufeng.Jiukun.Slab.Caches.{listed, IsCache}
use jiufeng.Jiukun.Slab.Alloc.{Keeps}
use jiufeng.Jiukun.Slab.Grow.{IsFresh, add_slab-IsCache, add_slab-Keeps}
use jiufeng.Jiukun.Slab.Given.{
  Allocs, promoted, give_partial, partial-IsBetween, Given-later, give_free,
}

free_added :
    (sl al : ℕ) (page_of : ℕ → ℕ) (c : Cache) (addr s mem : ℕ)
    → 0 < length ((add_slab sl al page_of c addr (s, mem)).free)
unfolding add_slab
free_added sl al page_of c addr s mem = omega (arith, length-append c.free (s ∷ []))

module _ (page_of : ℕ → ℕ) where
  module _ (sl al : ℕ) where
    -- What the calls of a growth promise: a block of pages that no slab has.
    abbrev pub IsFreshSupply : Cache → Supply → Type 0
    IsFreshSupply c supply =
        (addr s mem : ℕ)
        → supply.pages ≡ ok addr
        → slab_mgmt sl al page_of c supply.mgmt addr ≡ some (s, mem)
        → IsFresh page_of c addr s mem

    give_from_free :
        (supply : Supply) (c d : Cache) (frees frees' : ℕ → List ℕ) (l : List ℕ)
        → IsCache page_of d frees'
        → d.free ≡ l
        → 0 < length l
        → Keeps c d
        → ((t : ℕ) → 0 < listed t c → frees' t ≡ frees t)
        → Allocs page_of sl al supply c frees (alloc_from_free d l)
    unfolding alloc_from_free
    give_from_free supply c d frees frees' [] v e h k same = absurd (omega (arith, h))
    give_from_free supply c d frees frees' (s ∷ rest) v e h k same =
        Given-later page_of c d frees frees' ((alloc_one_obj (promoted d s) s).0)
          ((alloc_one_obj (promoted d s) s).1) k same (give_free page_of d frees' s rest v e)

    give_at :
        (c : Cache) (frees : ℕ → List ℕ) (supply : Supply) (addr : ℕ) (m : Option (ℕ × ℕ))
        → IsCache page_of c frees
        → IsFreshSupply c supply
        → c.partial ≡ []
        → c.free ≡ []
        → supply.pages ≡ ok addr
        → slab_mgmt sl al page_of c supply.mgmt addr ≡ m
        → Allocs page_of sl al supply c frees (alloc_grown (grow_at sl al page_of c addr m))
    unfolding alloc_grown grow_at
    give_at c frees supply addr none v fresh np nf e f = record {
      no_partial = np;
      no_free = nf;
      refusal = inr (addr, e, f, refl);
      same = refl;
    }
    give_at c frees supply addr (some (s, mem)) v fresh np nf e f =
        let new = fresh addr s mem e f in
        let d = add_slab sl al page_of c addr (s, mem) in
        let frees' = update frees s (upto 0 c.num) in
        let unlisted = new.unlisted in
        let old : (t : ℕ) → 0 < listed t c → frees' t ≡ frees t = λ t h.
          elim (Bool-cases (t == s)) [
            | inl f ↦
                let g = subst (λ u. 0 < listed u c) ((==_iff t s).0 f) h in
                absurd (omega (arith, g, unlisted))
            | inr f ↦ rw f refl
          ] in
        give_from_free supply c d frees frees' d.free
          (add_slab-IsCache page_of sl al c frees addr s mem v new) refl
          (free_added sl al page_of c addr s mem)
          (add_slab-Keeps page_of sl al c frees addr s mem v new) old

    give_pages :
        (c : Cache) (frees : ℕ → List ℕ) (supply : Supply) (pages : Result ℕ)
        → IsCache page_of c frees
        → IsFreshSupply c supply
        → c.partial ≡ []
        → c.free ≡ []
        → supply.pages ≡ pages
        → Allocs page_of sl al supply c frees
            (alloc_grown (grow_pages sl al page_of c supply.mgmt pages))
    unfolding alloc_grown grow_pages
    give_pages c frees supply (err e) v fresh np nf f = record {
      no_partial = np;
      no_free = nf;
      refusal = inl f;
      same = refl;
    }
    give_pages c frees supply (ok addr) v fresh np nf f =
        give_at c frees supply addr (slab_mgmt sl al page_of c supply.mgmt addr) v fresh np nf f
          refl

    give_new :
        (c : Cache) (frees : ℕ → List ℕ) (supply : Supply) (l : List ℕ)
        → IsCache page_of c frees
        → IsFreshSupply c supply
        → c.partial ≡ []
        → c.free ≡ l
        → Allocs page_of sl al supply c frees (alloc_new_slab sl al page_of supply c l)
    unfolding alloc_new_slab grow_slab_cache
    give_new c frees supply [] v fresh np e =
        give_pages c frees supply supply.pages v fresh np e refl
    give_new c frees supply (s ∷ rest) v fresh np e =
        give_from_free supply c c frees frees (s ∷ rest) v e (omega arith)
          (record { same_num = refl; same_size = refl; in_lists = λ t h. h; places = λ t h. refl })
          (λ t h. refl)

    give_round :
        (c : Cache) (frees : ℕ → List ℕ) (supply : Supply) (l : List ℕ)
        → IsCache page_of c frees
        → IsFreshSupply c supply
        → c.partial ≡ l
        → Allocs page_of sl al supply c frees (alloc_by_partial sl al page_of supply c l)
    unfolding alloc_by_partial
    give_round c frees supply [] v fresh e = give_new c frees supply c.free v fresh e refl
    give_round c frees supply (s ∷ rest) v fresh e =
        let (b, some_free) = partial-IsBetween page_of c frees s rest v e in
        give_partial page_of c frees s b some_free

    -- A round hands out an object, or leaves the cache as it was with a code.
    pub round-Allocs :
        (c : Cache) (frees : ℕ → List ℕ) (supply : Supply)
        → IsCache page_of c frees
        → IsFreshSupply c supply
        → Allocs page_of sl al supply c frees (alloc_round sl al page_of supply c)
    unfolding alloc_round
    round-Allocs c frees supply v fresh = give_round c frees supply c.partial v fresh refl

    -- The loop ends with its first round, since no object has address 0.
    first_round_ends :
        (supply : Supply) (c : Cache) (frees : ℕ → List ℕ) (next : Option (Result ℕ × Cache))
        (r : Result ℕ × Cache)
        → Allocs page_of sl al supply c frees r
        → round_end r next ≡ some r
    first_round_ends supply c frees next (err e, d) a = refl
    first_round_ends supply c frees next (ok p, d) a =
        let t = a.takes in
        let w = a.whole in
        let mem_pos = (w.chains t.slab t.in_list).1.0 in
        let some_p : (p == 0) ≡ false = ground (arith, t.address, mem_pos) in rw some_p refl

    locked-IsFreshSupply :
        (c : Cache) (supply : Supply)
        → IsFreshSupply c supply
        → IsFreshSupply (record c { locked = true }) supply
    unfolding slab_mgmt
    locked-IsFreshSupply c supply f addr s mem e g =
        let new = f addr s mem e g in
        record {
          unlisted = new.unlisted;
          positive = new.positive;
          own = new.own;
          apart = new.apart;
        }

    locked-IsCache :
        (c : Cache) (b : Bool) (frees : ℕ → List ℕ)
        → IsCache page_of c frees
        → IsCache page_of (record c { locked = b }) frees
    locked-IsCache c b frees v = record {
      sized = v.sized;
      once = v.once;
      fulls = v.fulls;
      partials = v.partials;
      empties = v.empties;
      chains = v.chains;
    }

    locked-Keeps :
        (c d : Cache) → Keeps (record c { locked = true }) d → Keeps c (record d { locked = false })
    locked-Keeps c d k = record {
      same_num = k.same_num;
      same_size = k.same_size;
      in_lists = k.in_lists;
      places = k.places;
    }

    unlocked :
        (supply : Supply) (c : Cache) (frees : ℕ → List ℕ) (r : Result ℕ) (d : Cache)
        → Allocs page_of sl al supply (record c { locked = true }) frees (r, d)
        → Allocs page_of sl al supply c frees (r, record d { locked = false })
    unfolding slab_mgmt
    unlocked supply c frees (err e) d r = record {
      no_partial = r.no_partial;
      no_free = r.no_free;
      refusal = r.refusal;
      same = r.same;
    }
    unlocked supply c frees (ok p) d g =
        let t = g.takes in
        record {
          before = g.before;
          after = g.after;
          old_slabs = g.old_slabs;
          whole = locked-IsCache d false g.after g.whole;
          takes = record {
            slab = t.slab;
            nr = t.nr;
            rest = t.rest;
            in_list = t.in_list;
            below = t.below;
            was_free = t.was_free;
            gone = t.gone;
            now_used = t.now_used;
            address = t.address;
          };
          keeps = locked-Keeps c d g.keeps;
        }

    -- `_allocObj` on a cache in its invariant, when the pages that it gets are those of no slab of the
    -- cache, ends in its first round and leaves the cache unlocked. It hands out an object that was
    -- free in the cache or in the slab that it added, and the invariant holds; or it fails, and then
    -- the cache had no slab with a free object, the pages were refused with that code or the `slab_t`
    -- was, and nothing of the cache but its flags has changed.
    pub alloc_obj-Allocs :
        (c : Cache) (frees : ℕ → List ℕ) (supply : Supply) (more : List Supply)
        → IsCache page_of c frees
        → IsFreshSupply c supply
        → (r : Result ℕ × Cache) × (alloc_obj sl al page_of (supply ∷ more) c ≡ some r)
          × Allocs page_of sl al supply c frees r
          × ((r.1).locked ≡ false)
    unfolding alloc_obj alloc_loop
    alloc_obj-Allocs c frees supply more v fresh =
        let c' = record c { locked = true } in
        let a =
          round-Allocs c' frees supply (locked-IsCache c true frees v)
            (locked-IsFreshSupply c supply fresh) in
        let r = alloc_round sl al page_of supply c' in
        let e = first_round_ends supply c' frees (alloc_loop sl al page_of more (r.1)) r a in
        (
          (r.0, record (r.1) { locked = false }),
          ap unlock_cache e,
          unlocked supply c frees (r.0) (r.1) a,
          refl,
        )
