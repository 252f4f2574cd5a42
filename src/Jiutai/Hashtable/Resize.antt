-- ===== src/Jiutai/Hashtable/Resize.antt =====
-- jiutai/jf_hashtable.c: nodes added to a table and moved to a larger one.
use jiufeng.Prelude.{
  ℕ, zero, suc, ◌+◌, ◌≤◌, ◌<◌, ◌≡◌, refl, sym, ap, ◌∙◌, arith, false, Option, none, some, List, [],
  ◌∷◌, ◌++◌, ◌==◌, if◌then◌else◌, length, get_or, set, concat, replicate, length-replicate,
  length-append,
}
use jiufeng.Jiutai.Hashtable.{Keys, bucket_of, move_entry, move_chain, move_chains}
use jiufeng.Jiutai.Hashtable.Chains.{
  IsLawful, find_key, count_key, count_key-append, find_key-count_zero, take-link_of,
  find_key-append_one, count_key-absent,
}
use jiufeng.Jiutai.Hashtable.Buckets.{
  IsTable, lookup, lookup-set, set-IsTable, bucket_of_same, bucket_of_lt, length-concat-set,
}

-- The first of two entries.
abbrev pub or_entry {ℓ} : {E : Type ℓ} → Option E → Option E → Option E
or_entry none b = b
or_entry (some a) b = some a

module _ {ℓ} {K E : Type ℓ} (keys : Keys K E) (laws : IsLawful keys) where
  -- The array `bs` with the entry `e` more.
  pub record Added (size : ℕ) (bs : List (List E)) (e : E) (bs' : List (List E)) : Type ℓ where
    pub table : IsTable keys size bs'
    pub entries : length (concat bs') ≡ length (concat bs) + 1
    pub reads :
        (q : K)
        → lookup keys size bs' q
          ≡ (if keys.same_keys q (keys.get_key e) then some e else lookup keys size bs q)

  pub append-Added :
      (size : ℕ) (bs : List (List E)) (e : E)
      → IsTable keys size bs
      → lookup keys size bs (keys.get_key e) ≡ none
      → Added size bs e (
          set bs
            (bucket_of keys (keys.get_key e) size)
            (get_or bs (bucket_of keys (keys.get_key e) size) [] ++ (e ∷ [])))
  unfolding lookup count_key
  append-Added size bs e v h =
      let k = keys.get_key e in
      let old = get_or bs (bucket_of keys k size) [] in
      let c : List E = old ++ (e ∷ []) in
      record {
        table =
            set-IsTable keys laws size bs v k c
              (λ q. ground (
                arith,
                count_key-append keys q old (e ∷ []),
                v.once (bucket_of keys k size) q,
                count_key-absent keys laws q k old h,
              ))
              (λ q n. ground (arith, count_key-append keys q old (e ∷ [])));
        entries = omega (
          arith,
          length-concat-set bs (bucket_of keys k size) c
              (omega (arith, v.width, bucket_of_lt keys k size v.positive)),
          length-append old (e ∷ []),
        );
        reads = λ q. ground (
          arith,
          lookup-set keys laws size bs v k c q,
          find_key-append_one keys laws q old e h,
          bucket_of_same keys laws q k size,
        );
      }

  move_entry-Added :
      (size : ℕ) (bs : List (List E)) (e : E)
      → IsTable keys size bs
      → lookup keys size bs (keys.get_key e) ≡ none
      → Added size bs e (move_entry keys size bs e)
  unfolding move_entry lookup
  move_entry-Added size bs e v h =
      let k = keys.get_key e in
      rw (take-link_of keys k (get_or bs (bucket_of keys k size) []) h) (append-Added size bs e v h)

  -- The array `bs` with the entries of a list more.
  pub record Moved (size : ℕ) (bs : List (List E)) (es : List E) (bs' : List (List E))
      : Type ℓ where
    pub table : IsTable keys size bs'
    pub entries : length (concat bs') ≡ length (concat bs) + length es
    pub reads :
        (q : K) → lookup keys size bs' q ≡ or_entry (find_key keys q es) (lookup keys size bs q)

  move_chain-Moved :
      (size : ℕ) (es : List E) (bs : List (List E))
      → IsTable keys size bs
      → ((q : K) → count_key keys q es ≤ 1)
      → ((q : K) → 0 < count_key keys q es → lookup keys size bs q ≡ none)
      → Moved size bs es (move_chain keys size bs es)
  unfolding move_chain count_key find_key
  move_chain-Moved size [] bs v once apart = record {
    table = v;
    entries = omega arith;
    reads = λ q. refl;
  }
  move_chain-Moved size (e ∷ es) bs v once apart =
      let k = keys.get_key e in
      let step = move_entry-Added size bs e v (apart k (ground (arith, laws.same_refl k))) in
      let rest =
        move_chain-Moved size es (move_entry keys size bs e) step.table (λ q. omega (arith, once q))
          (λ q h. ground (arith, h, step.reads q, once q, apart q)) in
      record {
        table = rest.table;
        entries = omega (arith, rest.entries, step.entries);
        reads =
            λ q. ground (arith, rest.reads q, step.reads q, once q, find_key-count_zero keys q es);
      }

  move_chain-append :
      (size : ℕ) (bs : List (List E)) (es fs : List E)
      → move_chain keys size bs (es ++ fs) ≡ move_chain keys size (move_chain keys size bs es) fs
  unfolding move_chain
  move_chain-append size bs [] fs = refl
  move_chain-append size bs (e ∷ es) fs = move_chain-append size (move_entry keys size bs e) es fs

  -- The nested loops of the resize go through all entries in turn.
  move_chains-concat :
      (size : ℕ) (cs bs : List (List E))
      → move_chains keys size bs cs ≡ move_chain keys size bs (concat cs)
  unfolding move_chains move_chain
  move_chains-concat size [] bs = refl
  move_chains-concat size (c ∷ cs) bs =
      move_chains-concat size cs (move_chain keys size bs c)
      ∙ sym (move_chain-append size bs c (concat cs))

  concat_nowhere :
      (q : K) (cs : List (List E))
      → ((i : ℕ) → count_key keys q (get_or cs i []) ≡ 0)
      → count_key keys q (concat cs) ≡ 0
  unfolding count_key
  concat_nowhere q [] h = refl
  concat_nowhere q (c ∷ cs) h =
      omega
        (arith, count_key-append keys q c (concat cs), h 0, concat_nowhere q cs (λ i. h (suc i)))

  find_key-append :
      (q : K) (es fs : List E)
      → find_key keys q (es ++ fs) ≡ or_entry (find_key keys q es) (find_key keys q fs)
  unfolding find_key
  find_key-append q [] fs = refl
  find_key-append q (e ∷ es) fs = ground (arith, find_key-append q es fs)

  -- A key that stands in one chain only is found in all entries as in that chain.
  concat_only :
      (q : K) (cs : List (List E)) (j : ℕ)
      → ((i : ℕ) → (j == i) ≡ false → count_key keys q (get_or cs i []) ≡ 0)
      → (find_key keys q (concat cs) ≡ find_key keys q (get_or cs j []))
        × (count_key keys q (concat cs) ≡ count_key keys q (get_or cs j []))
  unfolding find_key count_key
  concat_only q [] j h = (refl, refl)
  concat_only q (c ∷ cs) zero h =
      let rest = concat_nowhere q cs (λ i. h (suc i) (ground arith)) in
      (
        ground
            (arith, find_key-append q c (concat cs), find_key-count_zero keys q (concat cs) rest),
        omega (arith, count_key-append keys q c (concat cs), rest),
      )
  concat_only q (c ∷ cs) (suc j) h =
      let here = h 0 (ground arith) in
      let (found, counted) = concat_only q cs j (λ i n. h (suc i) (ground (arith, n))) in
      (
        ground (arith, find_key-append q c (concat cs), find_key-count_zero keys q c here, found),
        omega (arith, count_key-append keys q c (concat cs), here, counted),
      )

  pub concat-lookup :
      (size : ℕ) (bs : List (List E)) (q : K)
      → IsTable keys size bs
      → (find_key keys q (concat bs) ≡ lookup keys size bs q) × (count_key keys q (concat bs) ≤ 1)
  unfolding lookup
  concat-lookup size bs q v =
      let (found, counted) = concat_only q bs (bucket_of keys q size) (λ i n. v.home i q n) in
      (found, omega (arith, counted, v.once (bucket_of keys q size) q))

  get_or-replicate : (n i : ℕ) → get_or {A = List E} (replicate n []) i [] ≡ []
  get_or-replicate zero i = refl
  get_or-replicate (suc n) zero = refl
  get_or-replicate (suc n) (suc i) = get_or-replicate n i

  pub concat-replicate : (n : ℕ) → concat {A = E} (replicate n []) ≡ []
  concat-replicate zero = refl
  concat-replicate (suc n) = concat-replicate n

  pub replicate-IsTable : (size : ℕ) → 0 < size → IsTable keys size (replicate size [])
  unfolding count_key
  replicate-IsTable size h = record {
    width = length-replicate size [];
    positive = h;
    once = λ i q. rw (get_or-replicate size i) (omega arith);
    home = λ i q n. rw (get_or-replicate size i) refl;
  }

  pub lookup-replicate : (size : ℕ) (q : K) → lookup keys size (replicate size []) q ≡ none
  unfolding lookup find_key
  lookup-replicate size q = rw (lookup, get_or-replicate size (bucket_of keys q size)) refl

  -- Moved to an array of any size, all entries are found as before.
  pub move_chains-Moved :
      (size size' : ℕ) (bs : List (List E))
      → IsTable keys size bs
      → 0 < size'
      → let bs' = move_chains keys size' (replicate size' []) bs in
        IsTable keys size' bs'
        × (length (concat bs') ≡ length (concat bs))
        × ((q : K) → lookup keys size' bs' q ≡ lookup keys size bs q)
  move_chains-Moved size size' bs v h =
      let fresh : List (List E) = replicate size' [] in
      let m =
        move_chain-Moved size' (concat bs) fresh (replicate-IsTable size' h)
          (λ q. (concat-lookup size bs q v).1) (λ q n. lookup-replicate size' q) in
      rw (move_chains-concat size' bs fresh) (
        m.table,
        omega (arith, m.entries, ap length (concat-replicate size')),
        λ q. ground (arith, m.reads q, lookup-replicate size' q, concat-lookup size bs q v),
      )
