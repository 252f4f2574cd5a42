-- ===== src/Jiutai/Hashtable/Iterate.antt =====
-- jiutai/jf_hashtable.c: the iterator and the statistics.
use jiufeng.Prelude.{
  ℕ, zero, suc, ◌+◌, ◌-◌, ◌≡◌, refl, ap, arith, Bool, true, false, Option, none, some, List, [],
  ◌∷◌, ◌++◌, ltb, if◌then◌else◌, length, drop, concat, length-append,
}
use jiufeng.Jiutai.Hashtable.{Hashtable}

-- `jf_hashtable_iterator_t` on a table: `jhi_nPos + 1` and the entries from the cursor to the end of
-- its chain, none of them for NULL.
pub record Iterator {ℓ} (E : Type ℓ) : Type ℓ where
  pub next_pos : ℕ
  pub cursor : List E

-- The two sums of the loop of `jf_hashtable_getStat`.
pub record Sums : Type 0 where
  pub collisions : ℕ
  pub max_entries : ℕ

-- `jf_hashtable_stat_t`
pub record Stat : Type 0 where
  pub stat_entries : ℕ
  pub stat_size : ℕ
  pub sums : Sums
  pub count_of_resize : ℕ

module _ {ℓ} {E : Type ℓ} where
  -- The loop of `jf_hashtable_incrementIterator` from bucket `i` on; the second argument is the size.
  pub next_bucket : ℕ → ℕ → List (List E) → Iterator E
  next_bucket i size [] = record { next_pos = size + 1; cursor = [] }
  next_bucket i size ([] ∷ cs) = next_bucket (suc i) size cs
  next_bucket i size ((e ∷ es) ∷ cs) = record { next_pos = suc i; cursor = e ∷ es }

  -- `jf_hashtable_incrementIterator`, by the chain at the cursor.
  pub next_in : Hashtable E → ℕ → List E → Iterator E
  unfolding next_bucket
  next_in t i (e ∷ d ∷ es) = record { next_pos = i; cursor = d ∷ es }
  next_in t i (e ∷ []) = next_bucket i (length t.buckets) (drop i t.buckets)
  next_in t i [] = next_bucket i (length t.buckets) (drop i t.buckets)

  pub increment_iterator : Hashtable E → Iterator E → Iterator E
  unfolding next_in
  increment_iterator t it = next_in t it.next_pos it.cursor

  -- `jf_hashtable_setupIterator`
  pub setup_iterator : Hashtable E → Iterator E
  unfolding increment_iterator
  setup_iterator t = increment_iterator t (record { next_pos = 0; cursor = [] })

  -- `jf_hashtable_isEndOfIterator`
  pub is_end_of_iterator : Iterator E → Bool
  is_end_of_iterator it = elim it.cursor [ [] ↦ true | e ∷ es ↦ false ]

  -- `jf_hashtable_getEntryFromIterator`
  pub get_entry_from_iterator : Iterator E → Option E
  get_entry_from_iterator it = elim it.cursor [ [] ↦ none | e ∷ es ↦ some e ]

  -- The loop of `jf_hashtable_getStat`, with its two sums so far.
  pub count_stat : List (List E) → Sums → Sums
  count_stat [] s = s
  count_stat ([] ∷ cs) s = count_stat cs s
  count_stat ((e ∷ es) ∷ cs) s =
      let j = length es + 1 in
      count_stat cs (record {
        collisions = if ltb 1 j then s.collisions + (j - 1) else s.collisions;
        max_entries = if ltb s.max_entries j then j else s.max_entries;
      })

  -- `jf_hashtable_getStat`
  pub get_stat : Hashtable E → Stat
  unfolding count_stat
  get_stat t = record {
    stat_entries = t.num_of_entry;
    stat_size = t.table_size;
    sums = count_stat t.buckets (record { collisions = 0; max_entries = 0 });
    count_of_resize = t.resizes;
  }

  -- Iterating gives the entries of a list in turn, and then ends.
  abbrev pub Visits : Hashtable E → Iterator E → List E → Type ℓ
  Visits t it [] = (is_end_of_iterator it ≡ true) × (get_entry_from_iterator it ≡ none)
  Visits t it (e ∷ es) =
      (is_end_of_iterator it ≡ false)
      × (get_entry_from_iterator it ≡ some e)
      × Visits t (increment_iterator t it) es

  drop-suc :
      (i : ℕ) (c : List E) (cs bs : List (List E)) → drop i bs ≡ c ∷ cs → drop (suc i) bs ≡ cs
  drop-suc zero c cs [] h = absurd (ground (arith, h))
  drop-suc (suc i) c cs [] h = absurd (ground (arith, h))
  drop-suc zero c cs (b ∷ bs) h =
      ap (λ l. elim l as (λ x. List (List E)) [ [] ↦ [] | d ∷ ds ↦ ds ]) h
  drop-suc (suc i) c cs (b ∷ bs) h = drop-suc i c cs bs h

  -- The rest of a chain, and then what the next buckets give.
  Visits-chain :
      (t : Hashtable E) (i : ℕ) (e : E) (es fs : List E)
      → Visits t (next_bucket i (length t.buckets) (drop i t.buckets)) fs
      → Visits t (record { next_pos = i; cursor = e ∷ es }) (e ∷ (es ++ fs))
  unfolding increment_iterator is_end_of_iterator get_entry_from_iterator
  Visits-chain t i e [] fs h = (refl, refl, h)
  Visits-chain t i e (d ∷ es) fs h = (refl, refl, Visits-chain t i d es fs h)

  Visits-bucket :
      (t : Hashtable E) (i : ℕ) (cs : List (List E))
      → drop i t.buckets ≡ cs
      → Visits t (next_bucket i (length t.buckets) cs) (concat cs)
  unfolding next_bucket is_end_of_iterator get_entry_from_iterator
  Visits-bucket t i [] h = (refl, refl)
  Visits-bucket t i ([] ∷ cs) h = Visits-bucket t (suc i) cs (drop-suc i [] cs t.buckets h)
  Visits-bucket t i ((e ∷ es) ∷ cs) h =
      let behind = drop-suc i (e ∷ es) cs t.buckets h in
      Visits-chain t (suc i) e es (concat cs) (rw behind (Visits-bucket t (suc i) cs behind))

  -- From `jf_hashtable_setupIterator` on, `jf_hashtable_incrementIterator` goes through the entries
  -- of all chains, each node once, bucket by bucket and in the order of the chains, and ends with
  -- the last of them.
  pub setup_iterator-Visits : (t : Hashtable E) → Visits t (setup_iterator t) (concat t.buckets)
  unfolding setup_iterator
  setup_iterator-Visits t = Visits-bucket t 0 t.buckets refl

  -- The buckets that hold an entry.
  pub used_buckets : List (List E) → ℕ
  used_buckets [] = 0
  used_buckets ([] ∷ cs) = used_buckets cs
  used_buckets ((e ∷ es) ∷ cs) = suc (used_buckets cs)

  pub longest : List (List E) → ℕ
  longest [] = 0
  longest (c ∷ cs) = if ltb (longest cs) (length c) then length c else longest cs

  count_stat_lem :
      (cs : List (List E)) (s : Sums)
      → (Sums.collisions (count_stat cs s) + used_buckets cs ≡ s.collisions + length (concat cs))
        × (Sums.max_entries (count_stat cs s)
            ≡ (if ltb (longest cs) s.max_entries then s.max_entries else longest cs))
  unfolding count_stat used_buckets longest
  count_stat_lem [] s = ground arith
  count_stat_lem ([] ∷ cs) s = ground (arith, count_stat_lem cs s)
  count_stat_lem ((e ∷ es) ∷ cs) s = ground (
    arith,
    length-append (e ∷ es) (concat cs),
    count_stat_lem cs (record {
      collisions =
          if ltb 1 (length es + 1) then s.collisions + (length es + 1 - 1) else s.collisions;
      max_entries = if ltb s.max_entries (length es + 1) then length es + 1 else s.max_entries;
    }),
  )

  -- `jf_hashtable_getStat`: the collisions are the entries beyond the first of each bucket in use,
  -- and the maximum is the length of the longest chain.
  pub get_stat_lem :
      (t : Hashtable E)
      → (Sums.collisions (Stat.sums (get_stat t)) + used_buckets t.buckets
          ≡ length (concat t.buckets))
        × (Sums.max_entries (Stat.sums (get_stat t)) ≡ longest t.buckets)
  unfolding get_stat
  get_stat_lem t =
      ground (arith, count_stat_lem t.buckets (record { collisions = 0; max_entries = 0 }))
