-- ===== src/Jiutai/Hashtable.antt =====
-- jiutai/jf_hashtable.c: chained hashing in an array of prime size.
-- A bucket is the list of the entries of its nodes. A `hash_table_bucket_t **` into a chain is the
-- index of the bucket and the number of nodes before the link. The functions of the user are the
-- fields of `Keys`; an allocation is the code that jf_jiukun_allocMemory returns.
pub mod Create
pub mod Chains
pub mod Buckets
pub mod Resize
pub mod Empty
pub mod Entries
pub mod Updates
pub mod Iterate
mod Tests
use jiufeng.Prelude.{
  ℕ, zero, suc, ◌+◌, ◌-◌, ◌*◌, ◌/◌, ◌%◌, ◌^◌, Bool, true, false, Option, none, some, List, [], ◌∷◌,
  ◌++◌, ltb, leb, ◌==◌, if◌then◌else◌, length, get_elem?, get_or, set, take, drop, remove_at,
  insert_at, replicate,
}
use jiufeng.Prelude.Int.{ℤ, pos_part, neg_part}
use jiufeng.Prelude.Word.{inc_u32, dec_u32}
use jiufeng.Jiutai.Err.{Code, Err, Result, ok, err}

-- The callbacks: whether `fnCmpKeys` gives 0, `fnHashKey` and `fnGetKeyFromEntry`.
pub record Keys {ℓ} (K E : Type ℓ) : Type ℓ where
  pub same_keys : K → K → Bool
  pub hash_key : K → ℤ
  pub get_key : E → K

-- `internal_hash_table_t`
pub record Hashtable {ℓ} (E : Type ℓ) : Type ℓ where
  pub num_of_entry : ℕ
  pub table_size : ℕ
  pub threshold : ℕ
  pub resizes : ℕ
  pub primes_index : ℕ
  pub buckets : List (List E)

-- `ls_nHashTablePrimes`
abbrev pub hash_table_primes : List ℕ
hash_table_primes =
    3 ∷ 7 ∷ 13 ∷ 31 ∷ 61 ∷ 127 ∷ 251 ∷ 509 ∷ 1021 ∷ 2039 ∷ 4093 ∷ 8191 ∷ 16381 ∷ 26209 ∷ 41941
    ∷ 67121 ∷ 107441 ∷ 171917 ∷ 275083 ∷ 440159 ∷ 704269 ∷ 1126831 ∷ 1802989 ∷ 2884787 ∷ 4615661
    ∷ 7385057 ∷ 11816111 ∷ 18905813 ∷ 30249367 ∷ 48399019 ∷ 77438437 ∷ 123901501 ∷ 198242441
    ∷ 317187907 ∷ 507500657 ∷ 812001067 ∷ 1299201731 ∷ 2078722769 ∷ []

-- `_setHashTableThreshold`: the value for a size.
pub threshold_of : ℕ → ℕ
threshold_of size = (size * 4 + 4) % 2 ^ 32 / 5

module _ {ℓ} {K E : Type ℓ} (keys : Keys K E) where
  -- The index of the bucket in `_getPositionOfKey`: |h| % size.
  pub bucket_of : K → ℕ → ℕ
  bucket_of k size = (pos_part (keys.hash_key k) + neg_part (keys.hash_key k)) % size

  -- The walk of `_getPositionOfKey` along a chain: the nodes before the link.
  pub link_of : K → List E → ℕ
  link_of k [] = 0
  link_of k (e ∷ es) =
      let next = link_of k es in if keys.same_keys k (keys.get_key e) then 0 else suc next

  -- `_getPositionOfKey`
  pub get_position_of_key : Hashtable E → K → ℕ × ℕ
  unfolding bucket_of link_of
  get_position_of_key t k =
      let i = bucket_of k t.table_size in (i, link_of k (get_or t.buckets i []))

  -- `*position`: the entry behind the link, `none` for NULL.
  pub entry_at : List (List E) → ℕ × ℕ → Option E
  entry_at bs (i, n) = get_elem? (get_or bs i []) n

  -- The body of the loops of `_resizeHashTable`: a node goes to its link in the new array and ends
  -- the chain there.
  pub move_entry : ℕ → List (List E) → E → List (List E)
  unfolding bucket_of link_of
  move_entry size bs e =
      let i = bucket_of (keys.get_key e) size in
      let chain = get_or bs i [] in
      set bs i (take (link_of (keys.get_key e) chain) chain ++ (e ∷ []))

  -- The loops of `_resizeHashTable`, over the nodes of a chain and over the old array.
  pub move_chain : ℕ → List (List E) → List E → List (List E)
  unfolding move_entry
  move_chain size bs [] = bs
  move_chain size bs (e ∷ es) = move_chain size (move_entry size bs e) es

  pub move_chains : ℕ → List (List E) → List (List E) → List (List E)
  unfolding move_chain
  move_chains size bs [] = bs
  move_chains size bs (c ∷ cs) = move_chains size (move_chain size bs c) cs

  -- `_resizeHashTable` with the next prime: what the allocation of the array decides.
  pub resize_to : Err → Hashtable E → ℕ → Err × Hashtable E
  unfolding move_chains threshold_of
  resize_to (Err.failed c) t size = (Err.failed c, t)
  resize_to Err.no_error t size = (
    Err.no_error,
    record {
      num_of_entry = t.num_of_entry;
      table_size = size;
      threshold = threshold_of size;
      resizes = inc_u32 t.resizes;
      primes_index = inc_u32 t.primes_index;
      buckets = move_chains size (replicate size []) t.buckets;
    },
  )

  -- `_resizeHashTable`; `none` when the index is behind the array of primes.
  pub resize : Err → Hashtable E → Option (Err × Hashtable E)
  unfolding resize_to
  resize alloc t = elim (get_elem? hash_table_primes (t.primes_index + 1)) [
    | none ↦ none
    | some size ↦ some (resize_to alloc t size)
  ]

  -- The end of `_insertAtPosition`: a new node in front of `*position`.
  pub insert_node : Err → Hashtable E → ℕ × ℕ → E → Err × Hashtable E
  insert_node (Err.failed c) t position e = (Err.failed c, t)
  insert_node Err.no_error t (i, n) e = (
    Err.no_error,
    record t {
      num_of_entry = inc_u32 t.num_of_entry;
      buckets = set t.buckets i (insert_at (get_or t.buckets i []) n e);
    },
  )

  -- `_insertAtPosition` behind the resize, which returned the code.
  pub insert_resized : Err → Err × Hashtable E → E → Err × Hashtable E
  unfolding insert_node get_position_of_key
  insert_resized alloc (Err.failed c, t) e = (Err.failed c, t)
  insert_resized alloc (Err.no_error, t) e =
      insert_node alloc t (get_position_of_key t (keys.get_key e)) e

  -- `_insertAtPosition`; the first code is that of the array, the second that of the node.
  pub insert_at_position : Err → Err → Hashtable E → ℕ × ℕ → E → Option (Err × Hashtable E)
  unfolding resize insert_resized insert_node
  insert_at_position array node t position e =
      if leb t.threshold t.num_of_entry
      then elim (resize array t) [ none ↦ none | some r ↦ some (insert_resized node r e) ]
      else some (insert_node node t position e)

  -- `_overwriteAtPosition`: the entry that goes to `fnFreeEntry` is lost.
  pub overwrite_at_position : Hashtable E → ℕ × ℕ → E → Err × Hashtable E
  overwrite_at_position t (i, n) e =
      (Err.no_error, record t { buckets = set t.buckets i (set (get_or t.buckets i []) n e) })

  -- `jf_hashtable_insertEntry`
  pub insert_entry : Err → Err → Hashtable E → E → Option (Err × Hashtable E)
  unfolding get_position_of_key entry_at insert_at_position
  insert_entry array node t e =
      let position = get_position_of_key t (keys.get_key e) in
      elim (entry_at t.buckets position) [
        | none ↦ insert_at_position array node t position e
        | some old ↦ some (Err.no_error, t)
      ]

  -- `jf_hashtable_overwriteEntry`
  pub overwrite_entry : Err → Err → Hashtable E → E → Option (Err × Hashtable E)
  unfolding get_position_of_key entry_at insert_at_position overwrite_at_position
  overwrite_entry array node t e =
      let position = get_position_of_key t (keys.get_key e) in
      elim (entry_at t.buckets position) [
        | none ↦ insert_at_position array node t position e
        | some old ↦ some (overwrite_at_position t position e)
      ]

  -- `jf_hashtable_removeEntry`, on the position of the key.
  pub remove_at_position : Hashtable E → ℕ × ℕ → Err × Hashtable E
  unfolding entry_at
  remove_at_position t (i, n) = elim (entry_at t.buckets (i, n)) [
    | none ↦ (Err.failed Code.hash_entry_not_found, t)
    | some old ↦ (
      Err.no_error,
      record t {
        num_of_entry = dec_u32 t.num_of_entry;
        buckets = set t.buckets i (remove_at (get_or t.buckets i []) n);
      },
    )
  ]

  -- `jf_hashtable_removeEntry`
  pub remove_hash_entry : Hashtable E → E → Err × Hashtable E
  unfolding get_position_of_key remove_at_position
  remove_hash_entry t e = remove_at_position t (get_position_of_key t (keys.get_key e))

  -- `jf_hashtable_getEntry`
  pub get_entry : Hashtable E → K → Result E
  unfolding get_position_of_key entry_at
  get_entry t k = elim (entry_at t.buckets (get_position_of_key t k)) [
    | none ↦ err Code.hash_entry_not_found
    | some e ↦ ok e
  ]

  -- `jf_hashtable_isKeyInTable`
  pub is_key_in_table : Hashtable E → K → Bool
  unfolding get_position_of_key entry_at
  is_key_in_table t k = elim (entry_at t.buckets (get_position_of_key t k)) [
    | none ↦ false
    | some e ↦ true
  ]

  -- `jf_hashtable_isEntryInTable`
  pub is_entry_in_table : Hashtable E → E → Bool
  unfolding get_position_of_key entry_at
  is_entry_in_table t e = elim (entry_at t.buckets (get_position_of_key t (keys.get_key e))) [
    | none ↦ false
    | some old ↦ true
  ]
