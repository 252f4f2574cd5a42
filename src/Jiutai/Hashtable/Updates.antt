-- ===== src/Jiutai/Hashtable/Updates.antt =====
-- jiutai/jf_hashtable.c: overwriting, removal and the lookups against the map from keys to entries.
use jiufeng.Prelude.{
  ◌+◌, ◌^◌, ◌<◌, ◌≡◌, refl, ap, arith, Bool, true, false, Option, none, some, [], if◌then◌else◌,
  get_or, set, remove_at, length-set, inl, inr, Option-cases,
}
use jiufeng.Prelude.Word.{dec_u32_pos}
use jiufeng.Jiutai.Err.{Code, Err, Result, ok, err}
use jiufeng.Jiutai.Hashtable.{
  Keys, Hashtable, bucket_of, link_of, get_position_of_key, overwrite_at_position, overwrite_entry,
  remove_at_position, remove_hash_entry, get_entry, is_key_in_table, is_entry_in_table,
}
use jiufeng.Jiutai.Hashtable.Chains.{
  IsLawful, find_key-remove_at, find_key-set, count_key-set, count_key-remove_at, length-remove_at,
}
use jiufeng.Jiutai.Hashtable.Buckets.{
  lookup, lookup-put, set-IsTable, bucket_of_lt, length-concat-set,
}
use jiufeng.Jiutai.Hashtable.Entries.{
  IsHashtable, view, Inserts, entry_at-position, insert_at_position-Inserts,
}

module _ {ℓ} {K E : Type ℓ} (keys : Keys K E) where
  -- What a removal may leave: the code for a missing key, or the map without the key.
  abbrev pub Removes : Hashtable E → E → Err × Hashtable E → Type ℓ
  Removes t e (Err.failed c, t') =
      (c ≡ Code.hash_entry_not_found)
      × (view keys t (keys.get_key e) ≡ none)
      × IsHashtable keys t'
      × ((q : K) → view keys t' q ≡ view keys t q)
  Removes t e (Err.no_error, t') =
      (t'.num_of_entry + 1 ≡ t.num_of_entry)
      × IsHashtable keys t'
      × ((q : K)
          → view keys t' q ≡ (if keys.same_keys q (keys.get_key e) then none else view keys t q))

  -- What a lookup returns for what the map has.
  abbrev pub result_of : Option E → Result E
  result_of none = err Code.hash_entry_not_found
  result_of (some e) = ok e

  abbrev pub is_some : Option E → Bool
  is_some none = false
  is_some (some e) = true

  -- `jf_hashtable_getEntry`, `jf_hashtable_isKeyInTable` and `jf_hashtable_isEntryInTable` tell what
  -- the map has for the key: its entry or the code for a missing key, and whether there is one.
  pub lookups_lem :
      (t : Hashtable E) (k : K) (e : E)
      → (get_entry keys t k ≡ result_of (view keys t k))
        × (is_key_in_table keys t k ≡ is_some (view keys t k))
        × (is_entry_in_table keys t e ≡ is_some (view keys t (keys.get_key e)))
  unfolding get_entry is_key_in_table is_entry_in_table
  lookups_lem t k e =
      let at = entry_at-position keys t in
      (
        ap (λ o. elim o as (λ x. Result E) [ none ↦ err Code.hash_entry_not_found | some e ↦ ok e ])
            (at k),
        ap (λ o. elim o as (λ x. Bool) [ none ↦ false | some e ↦ true ]) (at k),
        ap (λ o. elim o as (λ x. Bool) [ none ↦ false | some e ↦ true ]) (at (keys.get_key e)),
      )

  module _ (laws : IsLawful keys) where
    overwrite_at_position-IsHashtable :
        (t : Hashtable E) (e old : E)
        → IsHashtable keys t
        → view keys t (keys.get_key e) ≡ some old
        → let t' =
            (overwrite_at_position keys t (get_position_of_key keys t (keys.get_key e)) e).1 in
          IsHashtable keys t'
          × ((q : K)
              → view keys t' q
                ≡ (if keys.same_keys q (keys.get_key e) then some e else view keys t q))
    unfolding overwrite_at_position get_position_of_key lookup
    overwrite_at_position-IsHashtable t e old v h =
        let k = keys.get_key e in
        let i = bucket_of keys k t.table_size in
        let chain = get_or t.buckets i [] in
        let c = set chain (link_of keys k chain) e in
        let lt = bucket_of_lt keys k t.table_size v.table.positive in
        (
          record {
            table =
                set-IsTable keys laws t.table_size t.buckets v.table k c
                  (λ q. ground (arith, count_key-set keys laws q chain e, v.table.once i q))
                  (λ q n. omega (arith, count_key-set keys laws q chain e));
            counted = omega (
              arith,
              v.counted,
              length-concat-set t.buckets i c (omega (arith, lt, v.table.width)),
              length-set chain (link_of keys k chain) e,
            );
            small = v.small;
          },
          lookup-put keys laws t.table_size t.buckets v.table k c (some e)
              (λ q. find_key-set keys laws q chain e old h),
        )

    -- `jf_hashtable_overwriteEntry`, when the callbacks keep their promises, no key is twice in the
    -- table, each entry is in its bucket, the counter is the number of entries and stays below 2^32:
    -- the table has the same qualities afterwards. Either an allocation failed, its code comes back
    -- and no key reads differently; or the key reads the new entry, old or not, and all other keys
    -- read as before. It runs behind the array of primes only for a new key in a full table of the
    -- last size.
    pub overwrite_entry_lem :
        (array node : Err) (t : Hashtable E) (e : E)
        → IsHashtable keys t
        → t.num_of_entry + 1 < 2 ^ 32
        → Inserts keys array node t e (some e) (overwrite_entry keys array node t e)
    unfolding overwrite_entry overwrite_at_position
    overwrite_entry_lem array node t e v small =
        let k = keys.get_key e in
        let at = entry_at-position keys t k in
        elim (Option-cases (view keys t k)) [
          | inl x ↦
              rw (overwrite_entry, at, x)
                (insert_at_position-Inserts keys laws array node t e v x small)
          | inr (old, x) ↦
              rw (overwrite_entry, at, x) (overwrite_at_position-IsHashtable t e old v x)
        ]

    -- `jf_hashtable_removeEntry`, when the callbacks keep their promises, no key is twice in the
    -- table, each entry is in its bucket and the counter is the number of entries: the table has the
    -- same qualities afterwards. Either the key has no entry, the code says so and all keys read as
    -- before; or the counter falls by one, the key reads nothing and all other keys read as before.
    pub remove_hash_entry_lem :
        (t : Hashtable E) (e : E) → IsHashtable keys t → Removes t e (remove_hash_entry keys t e)
    unfolding remove_hash_entry remove_at_position get_position_of_key lookup
    remove_hash_entry_lem t e v =
        let k = keys.get_key e in
        let at = entry_at-position keys t k in
        let i = bucket_of keys k t.table_size in
        let chain = get_or t.buckets i [] in
        let c = remove_at chain (link_of keys k chain) in
        let lt = bucket_of_lt keys k t.table_size v.table.positive in
        elim (Option-cases (view keys t k)) [
          | inl x ↦ rw (remove_hash_entry, remove_at_position, at, x) (refl, x, v, λ q. refl)
          | inr (old, x) ↦
              let short = length-remove_at keys k chain old x in
              let sizes = length-concat-set t.buckets i c (omega (arith, lt, v.table.width)) in
              let count =
                dec_u32_pos t.num_of_entry (omega (arith, v.counted, short, sizes)) v.small in
              rw (remove_hash_entry, remove_at_position, at, x)
                (
                  omega (arith, v.counted, short, sizes, count),
                  record {
                    table =
                        set-IsTable keys laws t.table_size t.buckets v.table k c
                          (λ q. omega (arith, count_key-remove_at keys q k chain, v.table.once i q))
                          (λ q n. count_key-remove_at keys q k chain);
                    counted = omega (arith, v.counted, short, sizes, count);
                    small = omega (arith, v.small, v.counted, short, sizes, count);
                  },
                  lookup-put keys laws t.table_size t.buckets v.table k c none
                      (λ q. find_key-remove_at keys laws q k chain (v.table.once i q)),
                )
        ]
