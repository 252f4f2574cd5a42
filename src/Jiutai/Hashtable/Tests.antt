-- ===== src/Jiutai/Hashtable/Tests.antt =====
-- jiutai/jf_hashtable.c: runs and examples of the hash table.
use jiufeng.Prelude.{
  ℕ, ◌+◌, ◌^◌, ◌<◌, ◌≡◌, refl, arith, Option, none, some, List, [], ◌∷◌, ◌==◌, concat,
}
use jiufeng.Prelude.Int.{pos}
use jiufeng.Jiutai.Err.{Err}
use jiufeng.Jiutai.Hashtable.{
  Keys, Hashtable, insert_entry, overwrite_entry, remove_hash_entry, get_entry, is_key_in_table,
  is_entry_in_table,
}
use jiufeng.Jiutai.Hashtable.Create.{new_hashtable}
use jiufeng.Jiutai.Hashtable.Chains.{IsLawful}
use jiufeng.Jiutai.Hashtable.Resize.{or_entry}
use jiufeng.Jiutai.Hashtable.Empty.{new_hashtable-IsHashtable}
use jiufeng.Jiutai.Hashtable.Entries.{IsHashtable, view, Inserts, insert_entry_lem}
use jiufeng.Jiutai.Hashtable.Updates.{
  Removes, result_of, is_some, overwrite_entry_lem, remove_hash_entry_lem, lookups_lem,
}
use jiufeng.Jiutai.Hashtable.Iterate.{Visits, setup_iterator, setup_iterator-Visits}

-- Pairs with a number as their key.
abbrev numbered : Keys ℕ (ℕ × ℕ)
numbered = record { same_keys = λ a b. a == b; hash_key = λ a. pos a; get_key = λ e. e.0 }

numbered-IsLawful : IsLawful numbered
numbered-IsLawful = record {
  same_refl = λ a. ground arith;
  same_left = λ a b c h. ground arith;
  same_right = λ a b c h. ground arith;
  same_hash = λ a b h. ground arith;
}

abbrev small_table : Hashtable (ℕ × ℕ)
small_table = new_hashtable 0 3

small_table-IsHashtable : IsHashtable numbered small_table
small_table-IsHashtable = (new_hashtable-IsHashtable numbered numbered-IsLawful 0 3 (omega arith)).0

small_table_small : small_table.num_of_entry + 1 < 2 ^ 32
unfolding new_hashtable
small_table_small = omega arith

-- A table of size 3 after a number of insertions of colliding keys: it grows to size 7.
put_all : Option (Err × Hashtable (ℕ × ℕ)) → List (ℕ × ℕ) → List (List (ℕ × ℕ))
unfolding insert_entry
put_all none es = []
put_all (some (r, t)) [] = t.buckets
put_all (some (r, t)) (e ∷ es) = put_all (insert_entry numbered Err.no_error Err.no_error t e) es

grown :
    put_all (some (Err.no_error, small_table)) ((1, 10) ∷ (4, 11) ∷ (7, 12) ∷ (8, 13) ∷ [])
    ≡ ((7, 12) ∷ []) ∷ ((1, 10) ∷ (8, 13) ∷ []) ∷ [] ∷ [] ∷ ((4, 11) ∷ []) ∷ [] ∷ [] ∷ []
unfolding put_all insert_entry new_hashtable
grown = refl

-- The table that holds 4 only.
abbrev one_entry : Hashtable (ℕ × ℕ)
one_entry = record {
  num_of_entry = 1;
  table_size = 3;
  threshold = 3;
  resizes = 0;
  primes_index = 0;
  buckets = [] ∷ ((4, 11) ∷ []) ∷ [] ∷ [];
}

one_entry-IsHashtable : IsHashtable numbered one_entry
unfolding insert_entry new_hashtable
one_entry-IsHashtable =
    (insert_entry_lem numbered numbered-IsLawful Err.no_error Err.no_error small_table (4, 11)
      small_table-IsHashtable small_table_small).0

insert_entry_lem_example :
    Inserts numbered Err.no_error Err.no_error one_entry
      (7, 12)
      (or_entry (view numbered one_entry 7) (some (7, 12)))
      (insert_entry numbered Err.no_error Err.no_error one_entry (7, 12))
insert_entry_lem_example =
    insert_entry_lem numbered numbered-IsLawful Err.no_error Err.no_error one_entry (7, 12)
      one_entry-IsHashtable (omega arith)

overwrite_entry_lem_example :
    Inserts numbered Err.no_error Err.no_error one_entry
      (4, 11)
      (some (4, 11))
      (overwrite_entry numbered Err.no_error Err.no_error one_entry (4, 11))
overwrite_entry_lem_example =
    overwrite_entry_lem numbered numbered-IsLawful Err.no_error Err.no_error one_entry (4, 11)
      one_entry-IsHashtable (omega arith)

remove_hash_entry_lem_example :
    Removes numbered one_entry (4, 11) (remove_hash_entry numbered one_entry (4, 11))
remove_hash_entry_lem_example =
    remove_hash_entry_lem numbered numbered-IsLawful one_entry (4, 11) one_entry-IsHashtable

lookups_lem_example :
    (get_entry numbered one_entry 4 ≡ result_of numbered (view numbered one_entry 4))
    × (is_key_in_table numbered one_entry 4 ≡ is_some numbered (view numbered one_entry 4))
    × (is_entry_in_table numbered one_entry (4, 11) ≡ is_some numbered (view numbered one_entry 4))
lookups_lem_example = lookups_lem numbered one_entry 4 (4, 11)

setup_iterator-Visits_example :
    Visits one_entry (setup_iterator one_entry) (concat one_entry.buckets)
setup_iterator-Visits_example = setup_iterator-Visits one_entry
