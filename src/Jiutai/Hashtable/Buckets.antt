-- ===== src/Jiutai/Hashtable/Buckets.antt =====
-- jiutai/jf_hashtable.c: the array of chains as a map from keys to entries.
use jiufeng.Prelude.{
  ℕ, zero, suc, ◌+◌, ◌%◌, ◌≤◌, ◌<◌, ◌≡◌, refl, sym, ap, ◌∙◌, arith, true, false, Option, List, [],
  ◌∷◌, ◌==◌, if◌then◌else◌, length, get_or, set, concat, length-set, length-append, Bool-cases, inl,
  inr, ==_iff,
}
use jiufeng.Prelude.Int.{pos_part, neg_part}
use jiufeng.Jiutai.Hashtable.{Keys, bucket_of}
use jiufeng.Jiutai.Hashtable.Chains.{IsLawful, find_key, count_key}

module _ {ℓ} {A : Type ℓ} where
  pub get_or-set :
      (xs : List A) (i j : ℕ) (v d : A)
      → i < length xs
      → get_or (set xs i v) j d ≡ (if j == i then v else get_or xs j d)
  get_or-set [] i j v d h = absurd (omega (arith, h))
  get_or-set (x ∷ xs) zero zero v d h = ground arith
  get_or-set (x ∷ xs) zero (suc j) v d h = ground arith
  get_or-set (x ∷ xs) (suc i) zero v d h = ground arith
  get_or-set (x ∷ xs) (suc i) (suc j) v d h = ground (arith, get_or-set xs i j v d)

  pub length-concat-set :
      (xs : List (List A)) (i : ℕ) (v : List A)
      → i < length xs
      → length (concat (set xs i v)) + length (get_or xs i []) ≡ length (concat xs) + length v
  length-concat-set [] i v h = absurd (omega (arith, h))
  length-concat-set (x ∷ xs) zero v h =
      omega (arith, length-append x (concat xs), length-append v (concat xs))
  length-concat-set (x ∷ xs) (suc i) v h = omega (
    arith,
    length-concat-set xs i v (omega (arith, h)),
    length-append x (concat xs),
    length-append x (concat (set xs i v)),
  )

module _ {ℓ} {K E : Type ℓ} (keys : Keys K E) where
  -- Each key is at most once in the array, in the chain of its bucket.
  pub record IsTable (size : ℕ) (bs : List (List E)) : Type ℓ where
    pub width : length bs ≡ size
    pub positive : 0 < size
    pub once : (i : ℕ) (q : K) → count_key keys q (get_or bs i []) ≤ 1
    pub home :
        (i : ℕ) (q : K)
        → (bucket_of keys q size == i) ≡ false
        → count_key keys q (get_or bs i []) ≡ 0

  -- The entry of a key.
  unfoldable pub lookup : ℕ → List (List E) → K → Option E
  lookup size bs q = find_key keys q (get_or bs (bucket_of keys q size) [])

  pub bucket_of_lt : (k : K) (size : ℕ) → 0 < size → bucket_of keys k size < size
  unfolding bucket_of
  bucket_of_lt k size h = omega (arith, h)

  module _ (laws : IsLawful keys) where
    pub bucket_of_same :
        (a b : K) (size : ℕ)
        → keys.same_keys a b ≡ true
        → bucket_of keys a size ≡ bucket_of keys b size
    unfolding bucket_of
    bucket_of_same a b size h = ap (λ z. (pos_part z + neg_part z) % size) (laws.same_hash a b h)

    module _ (size : ℕ) (bs : List (List E)) (v : IsTable size bs) (k : K) where
      at-set :
          (c : List E) (i : ℕ)
          → get_or (set bs (bucket_of keys k size) c) i []
            ≡ (if i == bucket_of keys k size then c else get_or bs i [])
      at-set c i =
          get_or-set bs (bucket_of keys k size) i c []
            (omega (arith, v.width, bucket_of_lt k size v.positive))

      -- A write to the chain of a key that adds, changes or removes that key only.
      pub set-IsTable :
          (c : List E)
          → ((q : K) → count_key keys q c ≤ 1)
          → ((q : K)
              → keys.same_keys q k ≡ false
              → count_key keys q c ≤ count_key keys q (get_or bs (bucket_of keys k size) []))
          → IsTable size (set bs (bucket_of keys k size) c)
      set-IsTable c once few = record {
        width = length-set bs (bucket_of keys k size) c ∙ v.width;
        positive = v.positive;
        once = λ i q. rw (at-set c i) (ground (arith, once q, v.once i q));
        home =
            λ i q n. rw (at-set c i) (ground (arith, few q, v.home i q n, bucket_of_same q k size));
      }

      pub lookup-set :
          (c : List E) (q : K)
          → lookup size (set bs (bucket_of keys k size) c) q ≡ (
              if bucket_of keys q size == bucket_of keys k size
              then find_key keys q c
              else lookup size bs q)
      unfolding lookup
      lookup-set c q = rw (lookup, at-set c (bucket_of keys q size)) (ground arith)

      same_chain :
          (q : K)
          → (bucket_of keys q size == bucket_of keys k size) ≡ true
          → find_key keys q (get_or bs (bucket_of keys k size) []) ≡ lookup size bs q
      unfolding lookup
      same_chain q x =
          ap (λ i. find_key keys q (get_or bs i []))
            (sym ((==_iff (bucket_of keys q size) (bucket_of keys k size)).0 x))

      other_key :
          (q : K)
          → (bucket_of keys q size == bucket_of keys k size) ≡ false
          → keys.same_keys q k ≡ false
      other_key q x = ground (arith, x, bucket_of_same q k size)

      -- The map after a write that changes the entry of one key.
      pub lookup-put :
          (c : List E) (put : Option E)
          → ((q : K)
              → find_key keys q c ≡ (
                  if keys.same_keys q k
                  then put
                  else find_key keys q (get_or bs (bucket_of keys k size) [])))
          → (q : K)
          → lookup size (set bs (bucket_of keys k size) c) q
            ≡ (if keys.same_keys q k then put else lookup size bs q)
      lookup-put c put h q =
          lookup-set c q ∙ elim (Bool-cases (bucket_of keys q size == bucket_of keys k size)) [
            | inl x ↦ rw x (h q ∙ ap (λ o. if keys.same_keys q k then put else o) (same_chain q x))
            | inr x ↦ rw (x, other_key q x) refl
          ]
