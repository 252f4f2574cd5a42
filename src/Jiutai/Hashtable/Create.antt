-- ===== src/Jiutai/Hashtable/Create.antt =====
-- jiutai/jf_hashtable.c: the creation of a table.
use jiufeng.Prelude.{ℕ, suc, Option, none, some, List, [], ◌∷◌, leb, if◌then◌else◌, replicate}
use jiufeng.Jiutai.Err.{Err, Result, err, on_alloc}
use jiufeng.Jiutai.Hashtable.{Hashtable, hash_table_primes, threshold_of}

-- The loop of `jf_hashtable_create` over the primes from an index on; `none` when it runs behind
-- their array.
unfoldable pub find_prime : ℕ → ℕ → List ℕ → Option (ℕ × ℕ)
find_prime min_size i [] = none
find_prime min_size i (p ∷ ps) =
    let next = find_prime min_size (suc i) ps in if leb min_size p then some (i, p) else next

-- The table that `jf_hashtable_create` fills in.
unfoldable pub new_hashtable {ℓ} : {E : Type ℓ} → ℕ → ℕ → Hashtable E
unfolding threshold_of
new_hashtable index size = record {
  num_of_entry = 0;
  table_size = size;
  threshold = threshold_of size;
  resizes = 0;
  primes_index = index;
  buckets = replicate size [];
}

-- `jf_hashtable_create`, whose two allocations return the first two arguments.
unfoldable pub create_hashtable {ℓ} : {E : Type ℓ} → Err → Err → ℕ → Option (Result (Hashtable E))
unfolding find_prime new_hashtable
create_hashtable (Err.failed c) array min_size = some (err c)
create_hashtable Err.no_error array min_size = elim (find_prime min_size 0 hash_table_primes) [
  | none ↦ none
  | some (i, size) ↦ some (on_alloc array (new_hashtable i size))
]
