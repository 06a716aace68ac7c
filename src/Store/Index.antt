-- ===== src/Store/Index.antt =====
-- server/store/filestore/index_list.go: the sorted list of index entries. A method of `*indexList`
-- is a function of its `items`; the list's lock makes each one atomic. Search bounds are written
-- half-open (`hi` is Go's `h + 1`), since Go's `h` may become -1.
pub mod Sorted
pub mod Searching
mod Examples
use guble.Prelude.{
  ℕ, zero, suc, ◌+◌, ◌-◌, ◌/◌, List, [], ◌∷◌, ◌++◌, Bool, true, false, ◌&&◌, Option, none, some,
  ltb, leb, nat_eq, if◌then◌else◌, length, get_elem?, last?, last_or,
}
use guble.Store.Fetch.{FetchRequest, Direction, one_message, forward, backwards}

pub record Index : Type 0 where
  pub id : ℕ
  pub offset : ℕ
  pub size : ℕ
  pub file_id : ℕ

-- The loop `for i := 1; …` of insertElem: before the first item whose id is greater.
unfoldable pub insert_before : Index → List Index → List Index
insert_before elem [] = []
insert_before elem (x ∷ xs) = if ltb elem.id x.id then elem ∷ x ∷ xs else x ∷ insert_before elem xs

unfoldable pub insert_elem : Index → List Index → List Index
unfolding insert_before
insert_elem elem [] = elem ∷ []
insert_elem elem (x ∷ xs) =
    if leb elem.id x.id
    then elem ∷ x ∷ xs
    else if leb (last_or x xs).id elem.id
    then x ∷ xs ++ elem ∷ []
    else x ∷ insert_before elem xs

-- insert(items...): the elements one after the other.
unfoldable pub insert_all : List Index → List Index → List Index
insert_all [] items = items
insert_all (e ∷ es) items = insert_all es (insert_elem e items)

unfoldable pub front : List Index → Option Index
front [] = none
front (x ∷ xs) = some x

unfoldable pub back : List Index → Option Index
back [] = none
back (x ∷ xs) = some (last_or x xs)

-- `contains`: between the first and the last id; 0 is in every list that has an entry.
unfoldable pub contains : List Index → ℕ → Bool
contains [] id = false
contains (x ∷ xs) id = if nat_eq id 0 then true else leb x.id id && leb id (last_or x xs).id

unfoldable pub abs : ℕ → ℕ → ℕ
abs m1 m2 = if ltb m2 m1 then m1 - m2 else m2 - m1

-- What `search` returns: `none` stands for a position of -1 and for a nil entry.
pub record Search : Type 0 where
  pub position : Option ℕ
  pub best_index : Option ℕ

pub data Run {ℓ} (A : Type ℓ) : Type ℓ where
  done : A → Run A
  out_of_range : Run A
  out_of_fuel : Run A

closer : Index → Index → ℕ → Bool
unfolding abs
closer m b id = leb (abs m.id id) (abs b.id id)

-- One round reads `items[mid]`, and `items[bestIndex]` where the loop goes on as `rest`.
search_step : (ℕ → ℕ → ℕ → Run Search) → List Index → ℕ → ℕ → ℕ → ℕ → Run Search
search_step rest items id f hi best =
    let mid = (hi - 1 + f) / 2 in
    let next_best = λ (m b : Index). if closer m b id then mid else best in
    if ltb f hi
    then (elim (get_elem? items mid) [
      | none ↦ out_of_range
      | some m ↦
          if nat_eq m.id id
          then done (record { position = some mid; best_index = some best })
          else elim (get_elem? items best) [
            | none ↦ out_of_range
            | some b ↦
                if ltb m.id id
                then rest (mid + 1) hi (next_best m b)
                else rest f mid (next_best m b)
          ]
    ])
    else done (record { position = none; best_index = some best })

search_loop : ℕ → List Index → ℕ → ℕ → ℕ → ℕ → Run Search
search_loop zero items id f hi best = out_of_fuel
search_loop (suc fuel) items id f hi best =
    search_step (search_loop fuel items id) items id f hi best

unfoldable pub search : List Index → ℕ → Run Search
unfolding search_loop search_step closer
search [] id = done (record { position = none; best_index = none })
search (x ∷ xs) id = search_loop (suc (length xs) + 1) (x ∷ xs) id 0 (suc (length xs)) 0

-- `currentPos += int(req.Direction)`; `none` is a negative position.
unfoldable pub next_position : Direction → ℕ → Option ℕ
next_position one_message pos = some pos
next_position forward pos = some (suc pos)
next_position backwards zero = none
next_position backwards (suc pos) = some pos

-- The test of the `break`: `EndID` is set, and reached.
unfoldable pub reaches : FetchRequest → Index → Bool
reaches req e = ltb 0 req.end_id && leb req.end_id e.id

-- The first argument is `req.Count - potentialEntries.len()`: each round inserts one entry.
unfoldable pub extract_loop : ℕ → List Index → FetchRequest → Option ℕ → List Index → List Index
extract_loop zero items req pos found = found
extract_loop (suc left) items req none found = found
extract_loop (suc left) items req (some pos) found = elim (get_elem? items pos) [
  | none ↦ found
  | some e ↦
      let more =
        extract_loop left items req (next_position req.direction pos) (insert_elem e found) in
      if reaches req e then insert_elem e found else more
]

-- `currentPos`: where the search found the id, and else the closest entry.
unfoldable pub start_position : Run Search → Option ℕ
start_position (done r) = elim r.position [ some p ↦ some p | none ↦ r.best_index ]
start_position out_of_range = none
start_position out_of_fuel = none

unfoldable pub extract : List Index → FetchRequest → List Index
unfolding extract_loop next_position reaches start_position search
extract items req = extract_loop req.count items req (start_position (search items req.start_id)) []
