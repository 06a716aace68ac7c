-- ===== src/Store/Index/Examples.antt =====
-- Index lists on small inputs, and the theorems at these.
use mathlib.Core.List.{Perm}
use guble.Prelude.{ℕ, ◌≡◌, refl, List, [], ◌∷◌, ◌++◌, some, none, arith}
use guble.Store.Fetch.{FetchRequest, Direction, forward}
use guble.Store.Index.{Index, done, insert_elem, insert_all, search, extract}
use guble.Store.Index.Sorted.{IsSorted, insert_all_correct}
use guble.Store.Index.Searching.{Finds, search-Finds}

abbrev entry : ℕ → Index
entry id = record { id = id; offset = 21; size = 3; file_id = 0 }

abbrev items : List Index
items = entry 2 ∷ entry 5 ∷ entry 9 ∷ entry 12 ∷ []

abbrev request : ℕ → ℕ → Direction → FetchRequest
request start count direction = record {
  partition = [];
  start_id = start;
  end_id = 0;
  direction = direction;
  count = count;
}

insert_runs : insert_all (entry 9 ∷ entry 2 ∷ entry 12 ∷ entry 5 ∷ []) [] ≡ items
unfolding insert_all insert_elem
insert_runs = refl

search_runs : search items 8 ≡ done (record { position = none; best_index = some 2 })
unfolding search
search_runs = refl

extract_runs : extract items (request 5 2 forward) ≡ entry 5 ∷ entry 9 ∷ []
unfolding extract insert_elem
extract_runs = refl

insert_all_correct_example :
    IsSorted (insert_all (entry 7 ∷ []) items)
    × Perm (insert_all (entry 7 ∷ []) items) ((entry 7 ∷ []) ++ items)
insert_all_correct_example = insert_all_correct (entry 7 ∷ []) items (omega arith)

search-Finds_example : Finds items 8 (search items 8)
search-Finds_example = search-Finds items 8 (omega arith)
