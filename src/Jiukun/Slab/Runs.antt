-- ===== src/Jiukun/Slab/Runs.antt =====
-- jiukun/slab.c: runs of `_allocObj` and `_freeObj` on a cache.
use jiufeng.Prelude.{ℕ, ◌<◌, ◌≡◌, sym, subst, ◌∙◌, arith, some, List, [], ◌∷◌, some_injective}
use jiufeng.Prelude.Counts.{erase, count}
use jiufeng.Jiutai.Err.{Code, Result, ok, err}
use jiufeng.Jiukun.Slab.{Cache, Supply, alloc_obj, free_obj}
use jiufeng.Jiukun.Slab.Caches.{IsCache}
use jiufeng.Jiukun.Slab.Given.{Refused-IsCache, Allocs}
use jiufeng.Jiukun.Slab.Rounds.{IsFreshSupply, alloc_obj-Allocs}
use jiufeng.Jiukun.Slab.Owned.{IsOwned, gets-IsOwned, fails-IsOwned, gives-IsOwned}

-- The steps of a user of the cache, with the addresses that it holds. The pages that a growth gets
-- are those of no slab of the cache.
pub data Step (sl al : ℕ) (page_of : ℕ → ℕ) : Cache × List ℕ → Cache × List ℕ → Type 0 where
  gets :
      (c c' : Cache) (held : List ℕ) (supply : Supply) (more : List Supply) (p : ℕ)
      → IsFreshSupply page_of sl al c supply
      → alloc_obj sl al page_of (supply ∷ more) c ≡ some (ok p, c')
      → Step sl al page_of (c, held) (c', p ∷ held)
  fails :
      (c c' : Cache) (held : List ℕ) (supply : Supply) (more : List Supply) (e : Code)
      → IsFreshSupply page_of sl al c supply
      → alloc_obj sl al page_of (supply ∷ more) c ≡ some (err e, c')
      → Step sl al page_of (c, held) (c', held)
  gives :
      (c : Cache) (held : List ℕ) (p : ℕ)
      → 0 < count p held
      → Step sl al page_of (c, held) (free_obj page_of c p, erase p held)

pub data Reached (sl al : ℕ) (page_of : ℕ → ℕ) (start : Cache × List ℕ)
    : Cache × List ℕ → Type 0 where
  started : Reached sl al page_of start start
  stepped :
      (r r' : Cache × List ℕ)
      → Reached sl al page_of start r
      → Step sl al page_of r r'
      → Reached sl al page_of start r'

module _ (sl al : ℕ) (page_of : ℕ → ℕ) where
  result-Allocs :
      (c : Cache) (frees : ℕ → List ℕ) (supply : Supply) (more : List Supply) (r : Result ℕ × Cache)
      → IsCache page_of c frees
      → IsFreshSupply page_of sl al c supply
      → alloc_obj sl al page_of (supply ∷ more) c ≡ some r
      → Allocs page_of sl al supply c frees r
  result-Allocs c frees supply more r v f e =
      let (r', e', a, u) = alloc_obj-Allocs page_of sl al c frees supply more v f in
      subst (Allocs page_of sl al supply c frees) (some_injective r' r (sym e' ∙ e)) a

  Step-IsOwned :
      (r r' : Cache × List ℕ) → Step sl al page_of r r' → IsOwned page_of r → IsOwned page_of r'
  Step-IsOwned r r' (gets c c' held supply more p f e) o =
      let g = result-Allocs c o.frees supply more (ok p, c') o.cache f e in
      gets-IsOwned page_of c c' o.frees p g held o.objects o.distinct
  Step-IsOwned r r' (fails c c' held supply more x f e) o =
      let refused = result-Allocs c o.frees supply more (err x, c') o.cache f e in
      let (v, k) = Refused-IsCache page_of sl al supply c x c' o.frees o.cache refused in
      fails-IsOwned page_of c c' held o v k
  Step-IsOwned r r' (gives c held p h) o = gives-IsOwned page_of c held p o h

  -- Along every run of allocations, failed ones included, and of releases of addresses that the user
  -- holds, from a cache in its invariant of which nothing is held, the held addresses are distinct
  -- and are those of objects that no slab of the cache has free, and the invariant of the cache
  -- holds: no object is handed out twice.
  pub Reached-IsOwned :
      (c : Cache) (frees : ℕ → List ℕ)
      → IsCache page_of c frees
      → (r : Cache × List ℕ) → Reached sl al page_of (c, []) r
      → IsOwned page_of r
  Reached-IsOwned c frees v r (started) = record {
    frees = frees;
    cache = v;
    objects = tt;
    distinct = λ p. omega arith;
  }
  Reached-IsOwned c frees v r (stepped q r' w s) =
      Step-IsOwned q r s (Reached-IsOwned c frees v q w)
