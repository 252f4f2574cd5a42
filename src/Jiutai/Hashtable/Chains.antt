-- ===== src/Jiutai/Hashtable/Chains.antt =====
-- jiutai/jf_hashtable.c: one chain, by the keys of its entries.
use jiufeng.Prelude.{
  ℕ, ◌+◌, ◌≤◌, ◌≡◌, refl, arith, true, Option, none, some, List, [], ◌∷◌, ◌++◌, if◌then◌else◌,
  length, get_elem?, set, take, remove_at, insert_at,
}
use jiufeng.Jiutai.Hashtable.{Keys, link_of}

-- What the callbacks of a table promise: comparing equal is an equivalence, and equal keys hash to
-- the same number.
pub record IsLawful {ℓ} {K E : Type ℓ} (keys : Keys K E) : Type ℓ where
  pub same_refl : (a : K) → keys.same_keys a a ≡ true
  pub same_left : (a b c : K) → keys.same_keys a b ≡ true → keys.same_keys a c ≡ keys.same_keys b c
  pub same_right : (a b c : K) → keys.same_keys a b ≡ true → keys.same_keys c a ≡ keys.same_keys c b
  pub same_hash : (a b : K) → keys.same_keys a b ≡ true → keys.hash_key a ≡ keys.hash_key b

module _ {ℓ} {K E : Type ℓ} (keys : Keys K E) where
  -- The first entry of a chain with a key, and the number of its entries with the key.
  unfoldable pub find_key : K → List E → Option E
  find_key k [] = none
  find_key k (e ∷ es) = if keys.same_keys k (keys.get_key e) then some e else find_key k es

  unfoldable pub count_key : K → List E → ℕ
  count_key k [] = 0
  count_key k (e ∷ es) = (if keys.same_keys k (keys.get_key e) then 1 else 0) + count_key k es

  pub get_elem?-link_of : (k : K) (es : List E) → get_elem? es (link_of keys k es) ≡ find_key k es
  unfolding link_of find_key
  get_elem?-link_of k [] = refl
  get_elem?-link_of k (e ∷ es) = ground (arith, get_elem?-link_of k es)

  pub find_key-count_zero : (k : K) (es : List E) → count_key k es ≡ 0 → find_key k es ≡ none
  unfolding find_key count_key
  find_key-count_zero k [] h = refl
  find_key-count_zero k (e ∷ es) h = ground (arith, find_key-count_zero k es)

  pub count_key-find_none : (k : K) (es : List E) → find_key k es ≡ none → count_key k es ≡ 0
  unfolding find_key count_key
  count_key-find_none k [] h = refl
  count_key-find_none k (e ∷ es) h = ground (arith, count_key-find_none k es)

  pub count_key-append :
      (k : K) (es fs : List E) → count_key k (es ++ fs) ≡ count_key k es + count_key k fs
  unfolding count_key
  count_key-append k [] fs = omega arith
  count_key-append k (e ∷ es) fs = omega (arith, count_key-append k es fs)

  -- The link of an absent key is the end of the chain, where a node is added.
  pub insert_at-link_of :
      (k : K) (es : List E) (x : E)
      → find_key k es ≡ none
      → insert_at es (link_of keys k es) x ≡ es ++ (x ∷ [])
  unfolding link_of find_key
  insert_at-link_of k [] x h = refl
  insert_at-link_of k (e ∷ es) x h = ground (arith, insert_at-link_of k es x)

  pub take-link_of : (k : K) (es : List E) → find_key k es ≡ none → take (link_of keys k es) es ≡ es
  unfolding link_of find_key
  take-link_of k [] h = refl
  take-link_of k (e ∷ es) h = ground (arith, take-link_of k es)

  module _ (laws : IsLawful keys) where
    pub find_key-append_one :
        (q : K) (es : List E) (x : E)
        → find_key (keys.get_key x) es ≡ none
        → find_key q (es ++ (x ∷ []))
          ≡ (if keys.same_keys q (keys.get_key x) then some x else find_key q es)
    unfolding find_key
    find_key-append_one q [] x h = refl
    find_key-append_one q (e ∷ es) x h =
        ground
          (arith, find_key-append_one q es x, laws.same_left q (keys.get_key x) (keys.get_key e))

    pub find_key-remove_at :
        (q k : K) (es : List E)
        → count_key q es ≤ 1
        → find_key q (remove_at es (link_of keys k es))
          ≡ (if keys.same_keys q k then none else find_key q es)
    unfolding find_key count_key link_of
    find_key-remove_at q k [] h = ground arith
    find_key-remove_at q k (e ∷ es) h = ground (
      arith,
      find_key-remove_at q k es,
      find_key-count_zero q es,
      laws.same_left q k (keys.get_key e),
      laws.same_right k (keys.get_key e) q,
    )

    pub find_key-set :
        (q : K) (es : List E) (x old : E)
        → find_key (keys.get_key x) es ≡ some old
        → find_key q (set es (link_of keys (keys.get_key x) es) x)
          ≡ (if keys.same_keys q (keys.get_key x) then some x else find_key q es)
    unfolding find_key link_of
    find_key-set q [] x old h = absurd (ground (arith, h))
    find_key-set q (e ∷ es) x old h = ground (
      arith,
      find_key-set q es x old,
      laws.same_left q (keys.get_key x) (keys.get_key e),
      laws.same_right (keys.get_key x) (keys.get_key e) q,
    )

    pub count_key-set :
        (q : K) (es : List E) (x : E)
        → count_key q (set es (link_of keys (keys.get_key x) es) x) ≡ count_key q es
    unfolding count_key link_of
    count_key-set q [] x = refl
    count_key-set q (e ∷ es) x =
        ground (arith, count_key-set q es x, laws.same_right (keys.get_key x) (keys.get_key e) q)

    pub count_key-absent :
        (q k : K) (es : List E)
        → find_key k es ≡ none
        → keys.same_keys q k ≡ true
        → count_key q es ≡ 0
    unfolding count_key find_key
    count_key-absent q k [] h s = refl
    count_key-absent q k (e ∷ es) h s =
        ground (arith, count_key-absent q k es, laws.same_left q k (keys.get_key e))

  pub count_key-remove_at :
      (q k : K) (es : List E) → count_key q (remove_at es (link_of keys k es)) ≤ count_key q es
  unfolding count_key link_of
  count_key-remove_at q k [] = omega arith
  count_key-remove_at q k (e ∷ es) = ground (arith, count_key-remove_at q k es)

  pub length-remove_at :
      (k : K) (es : List E) (old : E)
      → find_key k es ≡ some old
      → length (remove_at es (link_of keys k es)) + 1 ≡ length es
  unfolding find_key link_of
  length-remove_at k [] old h = absurd (ground (arith, h))
  length-remove_at k (e ∷ es) old h = ground (arith, length-remove_at k es old)

  pub find_key_same :
      IsLawful keys
      → (a b : K) (es : List E) → keys.same_keys a b ≡ true
      → find_key a es ≡ find_key b es
  unfolding find_key
  find_key_same laws a b [] h = refl
  find_key_same laws a b (e ∷ es) h =
      ground (arith, find_key_same laws a b es h, laws.same_left a b (keys.get_key e) h)
