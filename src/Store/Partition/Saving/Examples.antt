-- ===== src/Store/Partition/Saving/Examples.antt =====
-- A partition with one message to a file, after two stores and a restart.
use guble.Prelude.{◌≡◌, refl, codes, none, false, find, put, ℕ_comparable, length, arith, ℕ, ◌<◌}
use guble.Store.Index.{insert_elem, front, back}
use guble.Store.Partition.{
  Partition, new_partition, ok, Faults, store, ◌>>=◌, close_append_files, create_next_append_files,
  roll_over, rewrite_sorted_idx_file,
}
use guble.Store.Partition.Fetching.{initialize}
use guble.Store.Partition.Fetching.Restart.{reopened, at_rest}
use guble.Store.Partition.Saving.Restarts.{
  HasIndexFile, index_files, Reached, created, stored, initialize-Reached,
}

abbrev no_faults : Faults
no_faults call = false

unfoldable one : Partition
unfolding store
one = (store 1 no_faults 7 (codes "aa") new_partition).1

unfoldable two : Partition
unfolding store one
two = (store 1 no_faults 9 (codes "b") one).1

one_runs : store 1 no_faults 7 (codes "aa") new_partition ≡ (ok tt, one)
unfolding one ◌>>=◌ close_append_files create_next_append_files find put insert_elem
one_runs = refl

two_runs : store 1 no_faults 9 (codes "b") one ≡ (ok tt, two)
unfolding two one ◌>>=◌ close_append_files create_next_append_files find put roll_over
    rewrite_sorted_idx_file insert_elem front back
two_runs = refl

two-Reached : Reached no_faults (λ call. refl) 1 (omega arith) two
unfolding two one ◌>>=◌ close_append_files create_next_append_files find put roll_over
    rewrite_sorted_idx_file insert_elem front back
two-Reached =
    stored one two 9 (codes "b")
      (stored new_partition one 7 (codes "aa") created (omega arith) (omega arith) one_runs
        (omega arith))
      (omega arith) (omega arith) two_runs (omega arith)

two-HasIndexFile : HasIndexFile two
unfolding two one ◌>>=◌ close_append_files create_next_append_files find put roll_over
    rewrite_sorted_idx_file insert_elem front back
two-HasIndexFile = (_, refl)

initialize-Reached_example :
    (initialize 1 no_faults (index_files two) (reopened two) ≡ (ok tt, at_rest two))
    × ((k : ℕ) → length two.file_cache < k → find two.indexes k ≡ none)
initialize-Reached_example =
    initialize-Reached no_faults (λ call. refl) 1 (omega arith) two two-Reached two-HasIndexFile
