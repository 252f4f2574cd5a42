-- ===== src/Jiutai/Hashtable/Entries.antt =====
-- jiutai/jf_hashtable.c: the operations of a table against the map from keys to entries.
use jiufeng.Prelude.{
  ℕ, ◌+◌, ◌^◌, ◌≤◌, ◌<◌, ◌≡◌, ◌⊎◌, refl, sym, ap, ◌∙◌, arith, true, Option, none, some, [], leb,
  if◌then◌else◌, length, get_or, get_elem?, concat, Bool-cases, inl, inr, Option-cases,
  All-get_elem?,
}
use jiufeng.Jiutai.Err.{Err}
use jiufeng.Jiutai.Hashtable.{
  Keys, Hashtable, hash_table_primes, bucket_of, get_position_of_key, entry_at, resize_to, resize,
  insert_node, insert_resized, insert_at_position, insert_entry,
}
use jiufeng.Jiutai.Hashtable.Chains.{
  IsLawful, find_key, get_elem?-link_of, insert_at-link_of, find_key_same,
}
use jiufeng.Jiutai.Hashtable.Buckets.{IsTable, lookup, bucket_of_same}
use jiufeng.Jiutai.Hashtable.Resize.{or_entry, append-Added, move_chains-Moved}

module _ {ℓ} {K E : Type ℓ} (keys : Keys K E) where
  -- The invariant of a table: no key twice, each in its bucket, and the counter counts the entries.
  pub record IsHashtable (t : Hashtable E) : Type ℓ where
    pub table : IsTable keys t.table_size t.buckets
    pub counted : t.num_of_entry ≡ length (concat t.buckets)
    pub small : t.num_of_entry < 2 ^ 32

  -- The map that a table stands for.
  abbrev pub view : Hashtable E → K → Option E
  view t q = lookup keys t.table_size t.buckets q

  -- What an insertion may leave, when a new entry is read as `put` by its key: the primes are used
  -- up; or an allocation failed and the map is as before; or the entry is there.
  abbrev pub Inserts : Err → Err → Hashtable E → E → Option E → Option (Err × Hashtable E) → Type ℓ
  Inserts array node t e put none =
      (view t (keys.get_key e) ≡ none)
      × (t.threshold ≤ t.num_of_entry)
      × (get_elem? hash_table_primes (t.primes_index + 1) ≡ none)
  Inserts array node t e put (some (Err.failed c, t')) =
      ((array ≡ Err.failed c) ⊎ (node ≡ Err.failed c))
      × IsHashtable t'
      × ((q : K) → view t' q ≡ view t q)
  Inserts array node t e put (some (Err.no_error, t')) =
      IsHashtable t'
      × ((q : K) → view t' q ≡ (if keys.same_keys q (keys.get_key e) then put else view t q))

  pub entry_at-position :
      (t : Hashtable E) (k : K) → entry_at keys t.buckets (get_position_of_key keys t k) ≡ view t k
  unfolding entry_at get_position_of_key lookup
  entry_at-position t k =
      get_elem?-link_of keys k (get_or t.buckets (bucket_of keys k t.table_size) [])

  primes_positive : (i p : ℕ) → get_elem? hash_table_primes i ≡ some p → 0 < p
  primes_positive i p h = All-get_elem? (λ x. 0 < x) hash_table_primes i p (omega arith) h

  module _ (laws : IsLawful keys) where
    insert_node-Inserts :
        (array node : Err) (t : Hashtable E) (e : E)
        → IsHashtable t
        → view t (keys.get_key e) ≡ none
        → t.num_of_entry + 1 < 2 ^ 32
        → Inserts array node t e
            (some e)
            (some (insert_node keys node t (get_position_of_key keys t (keys.get_key e)) e))
    unfolding insert_node get_position_of_key lookup
    insert_node-Inserts array (Err.failed c) t e v h small = (inr refl, v, λ q. refl)
    insert_node-Inserts array Err.no_error t e v h small =
        let k = keys.get_key e in
        let added = append-Added keys laws t.table_size t.buckets e v.table h in
        rw (insert_at-link_of keys k (get_or t.buckets (bucket_of keys k t.table_size) []) e h) (
          record {
            table = added.table;
            counted = omega (arith, v.counted, added.entries, small);
            small = omega (arith, small);
          },
          added.reads,
        )

    -- A table that reads as another one is extended to the same map.
    Inserts-change :
        (array node : Err) (t u : Hashtable E) (e : E) (put : Option E) (r : Err × Hashtable E)
        → ((q : K) → view u q ≡ view t q)
        → Inserts array node u e put (some r)
        → Inserts array node t e put (some r)
    Inserts-change array node t u e put (Err.failed c, r) same (by, v, reads) =
        (by, v, λ q. reads q ∙ same q)
    Inserts-change array node t u e put (Err.no_error, r) same (v, reads) =
        (v, λ q. reads q ∙ ap (λ o. if keys.same_keys q (keys.get_key e) then put else o) (same q))

    resize_to-IsHashtable :
        (t : Hashtable E) (size : ℕ)
        → IsHashtable t
        → 0 < size
        → let u = (resize_to keys Err.no_error t size).1 in
          IsHashtable u × ((q : K) → view u q ≡ view t q) × (u.num_of_entry ≡ t.num_of_entry)
    unfolding resize_to
    resize_to-IsHashtable t size v h =
        let (table, entries, reads) =
          move_chains-Moved keys laws t.table_size size t.buckets v.table h in
        (record { table = table; counted = v.counted ∙ sym entries; small = v.small }, reads, refl)

    insert_resized-Inserts :
        (array node : Err) (t : Hashtable E) (size : ℕ) (e : E)
        → IsHashtable t
        → 0 < size
        → view t (keys.get_key e) ≡ none
        → t.num_of_entry + 1 < 2 ^ 32
        → Inserts array node t e
            (some e)
            (some (insert_resized keys node (resize_to keys array t size) e))
    unfolding insert_resized resize_to
    insert_resized-Inserts (Err.failed c) node t size e v pos h small = (inl refl, v, λ q. refl)
    insert_resized-Inserts Err.no_error node t size e v pos h small =
        let (w, same, num) = resize_to-IsHashtable t size v pos in
        let u = (resize_to keys Err.no_error t size).1 in
        let k = keys.get_key e in
        Inserts-change Err.no_error node t u e (some e)
          (insert_node keys node u (get_position_of_key keys u k) e) same
          (insert_node-Inserts Err.no_error node u e w (same k ∙ h) (omega (arith, small, num)))

    pub insert_at_position-Inserts :
        (array node : Err) (t : Hashtable E) (e : E)
        → IsHashtable t
        → view t (keys.get_key e) ≡ none
        → t.num_of_entry + 1 < 2 ^ 32
        → Inserts array node t e
            (some e)
            (insert_at_position keys array node t (get_position_of_key keys t (keys.get_key e)) e)
    unfolding insert_at_position resize
    insert_at_position-Inserts array node t e v h small =
        elim (Bool-cases (leb t.threshold t.num_of_entry)) [
          | inl full ↦ elim (Option-cases (get_elem? hash_table_primes (t.primes_index + 1))) [
            | inl x ↦ rw (insert_at_position, full, x) (h, ground (arith, full), x)
            | inr (size, x) ↦
                rw (insert_at_position, full, x)
                  (insert_resized-Inserts array node t size e v
                    (primes_positive (t.primes_index + 1) size x) h small)
          ]
          | inr room ↦ rw (insert_at_position, room) (insert_node-Inserts array node t e v h small)
        ]

    pub view_same : (t : Hashtable E) (a b : K) → keys.same_keys a b ≡ true → view t a ≡ view t b
    unfolding lookup
    view_same t a b h =
        ap (λ i. find_key keys a (get_or t.buckets i []))
          (bucket_of_same keys laws a b t.table_size h)
        ∙ find_key_same keys laws a b (get_or t.buckets (bucket_of keys b t.table_size) []) h

    -- `jf_hashtable_insertEntry`, when the callbacks keep their promises, no key is twice in the table,
    -- each entry is in its bucket, the counter is the number of entries and stays below 2^32: the
    -- table has the same qualities afterwards. Either an allocation failed, its code comes back and
    -- no key reads differently; or the new entry is what its key reads, unless the key had an entry
    -- before, which then stays, and all other keys read as before, a resize included. It runs behind
    -- the array of primes only for a new key in a full table of the last size.
    pub insert_entry_lem :
        (array node : Err) (t : Hashtable E) (e : E)
        → IsHashtable t
        → t.num_of_entry + 1 < 2 ^ 32
        → Inserts array node t e
            (or_entry (view t (keys.get_key e)) (some e))
            (insert_entry keys array node t e)
    unfolding insert_entry
    insert_entry_lem array node t e v small =
        let k = keys.get_key e in
        let at = entry_at-position t k in
        elim (Option-cases (view t k)) [
          | inl x ↦ rw (insert_entry, at, x) (insert_at_position-Inserts array node t e v x small)
          | inr (old, x) ↦ rw (insert_entry, at, x) (v, λ q. ground (arith, x, view_same t q k))
        ]
