-- ===== src/Jiutai/Hashtable/Empty.antt =====
-- jiutai/jf_hashtable.c: a new table is the empty map.
use jiufeng.Prelude.{
  ℕ, suc, ◌≤◌, ◌<◌, ◌≡◌, ◌⊎◌, refl, ap, arith, Option, none, some, List, [], ◌∷◌, length, All, inl,
  inr, leb, Bool-cases,
}
use jiufeng.Jiutai.Err.{Err, Result, ok, err, on_alloc}
use jiufeng.Jiutai.Hashtable.{Keys, Hashtable, hash_table_primes}
use jiufeng.Jiutai.Hashtable.Create.{find_prime, new_hashtable, create_hashtable}
use jiufeng.Jiutai.Hashtable.Chains.{IsLawful}
use jiufeng.Jiutai.Hashtable.Resize.{replicate-IsTable, lookup-replicate, concat-replicate}
use jiufeng.Jiutai.Hashtable.Entries.{IsHashtable, view}

-- What the search for a size finds: the first prime that is large enough, or none is.
abbrev FindsPrime : ℕ → List ℕ → Option (ℕ × ℕ) → Type 0
FindsPrime min_size ps none = All (λ p. p < min_size) ps
FindsPrime min_size ps (some (i, p)) = (min_size ≤ p) × (0 < p)

FindsPrime-cons :
    (min_size p : ℕ) (ps : List ℕ) (o : Option (ℕ × ℕ))
    → p < min_size
    → FindsPrime min_size ps o
    → FindsPrime min_size (p ∷ ps) o
FindsPrime-cons min_size p ps none h v = (h, v)
FindsPrime-cons min_size p ps (some (i, q)) h v = v

find_prime_lem :
    (min_size i : ℕ) (ps : List ℕ)
    → All (λ p. 0 < p) ps
    → FindsPrime min_size ps (find_prime min_size i ps)
unfolding find_prime
find_prime_lem min_size i [] h = tt
find_prime_lem min_size i (p ∷ ps) h = elim (Bool-cases (leb min_size p)) [
  | inl x ↦ rw x (ground (arith, x), h.0)
  | inr x ↦ rw x (
      FindsPrime-cons min_size p ps (find_prime min_size (suc i) ps) (ground (arith, x))
        (find_prime_lem min_size (suc i) ps (h.1)))
]

module _ {K E : Type 0} (keys : Keys K E) (laws : IsLawful keys) where
  -- What a creation may leave: no prime is large enough, an allocation failed, or the empty map.
  abbrev pub Creates : Err → Err → ℕ → Option (Result (Hashtable E)) → Type 0
  Creates a a' min_size none = All {A = ℕ} (λ p. p < min_size) hash_table_primes
  Creates a a' min_size (some (err c)) = (a ≡ Err.failed c) ⊎ (a' ≡ Err.failed c)
  Creates a a' min_size (some (ok t)) =
      IsHashtable keys t
      × (min_size ≤ t.table_size)
      × (t.num_of_entry ≡ 0)
      × ((q : K) → view keys t q ≡ none)

  pub new_hashtable-IsHashtable :
      (i size : ℕ)
      → 0 < size
      → let t = new_hashtable {E = E} i size in
        IsHashtable keys t × ((q : K) → view keys t q ≡ none)
  unfolding new_hashtable
  new_hashtable-IsHashtable i size h = (
    record {
      table = replicate-IsTable keys laws size h;
      counted = omega (arith, ap length (concat-replicate keys laws size));
      small = omega arith;
    },
    λ q. lookup-replicate keys laws size q,
  )

  found-Creates :
      (a' : Err) (min_size : ℕ) (o : Option (ℕ × ℕ))
      → FindsPrime min_size hash_table_primes o
      → Creates Err.no_error a' min_size
          (elim o [ none ↦ none | some (i, size) ↦ some (on_alloc a' (new_hashtable i size)) ])
  unfolding new_hashtable
  found-Creates a' min_size none h = h
  found-Creates (Err.failed c) min_size (some (i, size)) h = inr refl
  found-Creates Err.no_error min_size (some (i, size)) (le, pos) =
      let (v, empty) = new_hashtable-IsHashtable i size pos in (v, le, refl, empty)

  -- `jf_hashtable_create`, when its callbacks keep their promises: it fails only with the code of an
  -- allocation, or it gives a table that holds nothing and has at least the size asked for. Its loop
  -- runs behind the primes only when all of them are smaller.
  pub create_hashtable_lem :
      (a a' : Err) (min_size : ℕ) → Creates a a' min_size (create_hashtable a a' min_size)
  unfolding create_hashtable
  create_hashtable_lem (Err.failed c) a' min_size = inl refl
  create_hashtable_lem Err.no_error a' min_size =
      found-Creates a' min_size (find_prime min_size 0 hash_table_primes)
        (find_prime_lem min_size 0 hash_table_primes (omega arith))
