-- ===== src/Store/Partition/Examples.antt =====
-- Runs of a partition with two messages to a file.
use guble.Prelude.{
  ◌≤◌, ◌≡◌, refl, Bytes, codes, List, [], ◌∷◌, some, none, true, false, find, put, ℕ_comparable,
  length, arith,
}
use mathlib.Core.Logic.{inl}
use guble.Store.Fetch.{FetchRequest, forward}
use guble.Store.Index.{Index, insert_elem, insert_all, front, back, contains, search, extract}
use guble.Store.Index.Sorted.{IsSorted}
use guble.Store.Codec.{read_at}
use guble.Store.Partition.{
  Partition, new_partition, ok, err, Action, Faults, nil_file, write_data, store, contents, ◌>>=◌,
  ◌>>◌, close_append_files, create_next_append_files, roll_over, rewrite_sorted_idx_file, is_nil,
}
use guble.Store.Partition.Keeps.{Kept, store-Kept}
use guble.Store.Partition.Stored.{Ready, Stored, store-Stored}
use guble.Store.Partition.Succeeds.{store_succeeds}
use guble.Store.Partition.Losses.{index_fails, store_removes_messages}
use guble.Store.Partition.Fetching.{calculate_fetch_list, read_message_at, select}
use guble.Store.Partition.Fetching.Lists.{calculate_fetch_list-Selected}
use guble.Store.Partition.Fetching.Messages.{Holds, store-read}

abbrev no_faults : Faults
no_faults call = false

abbrev three : Action Unit
three = do
  store 2 no_faults 7 (codes "aa")
  store 2 no_faults 5 (codes "b")
  store 2 no_faults 9 (codes "ccc")

three_runs : (three new_partition).0 ≡ ok tt
unfolding store ◌>>=◌ close_append_files create_next_append_files find put roll_over
    rewrite_sorted_idx_file insert_elem front back
three_runs = refl

abbrev one : Partition
one = (store 2 no_faults 7 (codes "aa") new_partition).1

one_runs : store 2 no_faults 7 (codes "aa") new_partition ≡ (ok tt, one)
unfolding store ◌>>=◌ close_append_files create_next_append_files find put insert_elem
one_runs = refl

store-Kept_example : Kept one (store 2 no_faults 5 (codes "b") one).1
store-Kept_example = store-Kept 2 no_faults 5 (codes "b") one refl

store-Stored_example : Stored 7 (codes "aa") one
unfolding is_nil
store-Stored_example = store-Stored 2 no_faults 7 (codes "aa") new_partition one (inl refl) one_runs

store-read_example :
    (e : Index) × (l : List Index) × (one.list ≡ insert_elem e l)
    × (read_message_at no_faults one e ≡ ok (7, codes "aa"))
unfolding is_nil
store-read_example =
    store-read 2 no_faults no_faults 7 (codes "aa") new_partition one (inl refl) (omega arith)
      (omega arith) refl refl one_runs

-- A message file with a header and one message, as a restart finds it.
abbrev restarted : Partition
restarted = record new_partition {
  messages = put [] 0 (codes "header and message");
  entries_count = 1;
}

restarted_contents : contents restarted.messages 0 ≡ codes "header and message"
unfolding find put
restarted_contents = refl

store_removes_messages_example :
    ((store 2 index_fails 3 (codes "c") restarted).0 ≡ err nil_file)
    × (find (store 2 index_fails 3 (codes "c") restarted).1.messages 0 ≡ none)
store_removes_messages_example =
    store_removes_messages 2 3 (codes "c") restarted 104 (codes "eader and message") refl refl
      (λ e. omega arith) restarted_contents

abbrev data_fails : Faults
data_fails write_data = true
data_fails _ = false

-- A partition that is ready, its header written.
abbrev opened : Partition
opened = record new_partition {
  append_file = some 0;
  index_file = some 0;
  append_file_position = 3;
  messages = put [] 0 (codes "hdr");
}

opened-Ready : Ready opened
unfolding find put
opened-Ready = record { appends = refl; indexes_to = refl; at_end = refl }

abbrev from_five : FetchRequest
from_five = record {
  start_id = 5;
  end_id = 0;
  direction = forward;
  partition = codes "p";
  count = 2;
}

abbrev with_two : Partition
with_two = record new_partition {
  list =
      record { id = 5; offset = 36; size = 1; file_id = 0 }
      ∷ record { id = 7; offset = 21; size = 2; file_id = 0 }
      ∷ [];
}

from_five_runs : calculate_fetch_list no_faults from_five with_two ≡ (ok with_two.list, with_two)
unfolding calculate_fetch_list ◌>>=◌ select contains search extract insert_elem insert_all
from_five_runs = refl

calculate_fetch_list-Selected_example : IsSorted with_two.list × (length with_two.list ≤ 2)
calculate_fetch_list-Selected_example =
    calculate_fetch_list-Selected no_faults from_five with_two with_two with_two.list from_five_runs

abbrev on_disk : Partition
on_disk = record with_two { messages = put [] 0 (codes "---------------------aa-------------b") }

on_disk-Holds : Holds on_disk with_two.list (codes "b" ∷ codes "aa" ∷ [])
unfolding find put read_at
on_disk-Holds = ((disk, refl, refl), ((disk, refl, refl), tt))
  where
    disk : Bytes
    disk = codes "---------------------aa-------------b"

store_succeeds_example :
    (q : Partition) × (store 2 no_faults 7 (codes "aa") new_partition ≡ (ok tt, q))
store_succeeds_example =
    store_succeeds no_faults (λ call. refl) 2 7 (codes "aa") new_partition (λ e. absurd cc)
