-- ===== src/Store/Partition/Fetching/Lists.antt =====
-- A fetch list ascends, and is no longer than the request asks.
use mathlib.Core.Path.{subst}
use guble.Prelude.{
  ℕ, zero, suc, ◌+◌, ◌≤◌, ◌≡◌, ◌∙◌, List, [], ◌∷◌, Option, none, some, true, ◌||◌, arith, length,
  length-append, get_elem?, Bool-cases, Option-cases, inl, inr,
}
use guble.Store.Fetch.{FetchRequest}
use guble.Store.Index.{
  Index, insert_before, insert_elem, insert_all, reaches, next_position, extract_loop, extract,
}
use guble.Store.Index.Sorted.{IsSorted, insert_elem-IsSorted}
use guble.Store.Partition.{Partition, CacheEntry, Result, ok, err, Faults, pure, get}
use guble.Store.Partition.Outcome.{Ensures, Ensures-bind, Ensures-imp}
use guble.Store.Partition.Fetching.{
  cache_contains, Scan, wants_more, scan_file, scan_files, start_scan, select, calculate_fetch_list,
  load_index_list,
}

length-insert_before-le :
    (e : Index) (xs : List Index) → length (insert_before e xs) ≤ suc (length xs)
unfolding insert_before
length-insert_before-le e [] = omega arith
length-insert_before-le e (x ∷ xs) = ground (arith, length-insert_before-le e xs)

length-insert_elem-le : (e : Index) (xs : List Index) → length (insert_elem e xs) ≤ suc (length xs)
unfolding insert_elem
length-insert_elem-le e [] = omega arith
length-insert_elem-le e (x ∷ xs) =
    ground (arith, length-insert_before-le e xs, length-append xs (e ∷ []))

abbrev pub Selected : ℕ → List Index → Type 0
Selected n l = IsSorted l × (length l ≤ n)

extract_loop-Selected :
    (left n : ℕ) (items : List Index) (req : FetchRequest) (pos : Option ℕ) (found : List Index)
    → IsSorted found
    → length found + left ≤ n
    → Selected n (extract_loop left items req pos found)
unfolding extract_loop
extract_loop-Selected zero n items req pos found s h = (s, omega arith)
extract_loop-Selected (suc left) n items req none found s h = (s, omega arith)
extract_loop-Selected (suc left) n items req (some pos) found s h =
    elim (Option-cases (get_elem? items pos)) [
      | inl e ↦ rw (e, extract_loop) (s, omega arith)
      | inr (x, e) ↦
          let more = insert_elem-IsSorted x found s in
          let fits = length-insert_elem-le x found in
          rw (e, extract_loop)
            (elim (Bool-cases (reaches req x)) [
              | inl t ↦ rw t (more, omega (arith, fits))
              | inr f ↦ rw f (
                  extract_loop-Selected left n items req (next_position req.direction pos)
                    (insert_elem x found) more (omega (arith, fits)))
            ])
    ]

pub extract-Selected :
    (items : List Index) (req : FetchRequest) → Selected req.count (extract items req)
unfolding extract
extract-Selected items req =
    extract_loop-Selected req.count req.count items req _ [] tt (omega arith)

cache_contains-count :
    (fce : CacheEntry) (req : FetchRequest) → (cache_contains fce req).1.count ≡ req.count
unfolding cache_contains
cache_contains-count fce req = ground arith

abbrev Counts : ℕ → Scan → Type 0
Counts n s = s.req.count ≡ n

abbrev Any : Partition → Type 0
Any p = Unit

module _ (faults : Faults) (n : ℕ) where
  scan_file-Counts :
      (fce : CacheEntry) (s : Scan) (p : Partition)
      → Counts n s
      → Ensures (λ t q. Counts n t) Any (scan_file faults fce s p)
  unfolding scan_file
  scan_file-Counts fce s p h = elim (Bool-cases ((cache_contains fce s.req).0 || wants_more s)) [
    | inl t ↦ rw t (
        Ensures-bind (λ t q. Counts n t) Any (load_index_list faults s.file) _ p
          (loaded (load_index_list faults s.file p)))
    | inr f ↦ rw f (unfold pure in same)
  ]
    where
      same : (cache_contains fce s.req).1.count ≡ n
      same = cache_contains-count fce s.req ∙ h

      loaded :
          (r : Result (List Index) × Partition)
          → Ensures
              (λ l q.
                Ensures
                  (λ t q. Counts n t)
                  Any
                  (pure
                    (record {
                      file = s.file + 1;
                      prev = true;
                      req = (cache_contains fce s.req).1;
                      potential = insert_all (extract l (cache_contains fce s.req).1) s.potential;
                    })
                    q))
              Any
              r
      loaded (ok l, q) = unfold pure in same
      loaded (err e, q) = tt

  scan_files-Counts :
      (entries : List CacheEntry) (s : Scan) (p : Partition)
      → Counts n s
      → Ensures (λ t q. Counts n t) Any (scan_files faults entries s p)
  unfolding scan_files
  scan_files-Counts [] s p h = unfold pure in h
  scan_files-Counts (fce ∷ entries) s p h =
      Ensures-bind (λ t q. Counts n t) Any (scan_file faults fce s) _ p
        (Ensures-imp (λ t q. Counts n t) _ Any Any (λ t q k. scan_files-Counts entries t q k)
          (λ q _. tt) _ (scan_file-Counts fce s p h))

select-Selected : (l : List Index) (s : Scan) → Selected s.req.count (select l s)
unfolding select
select-Selected l s = extract-Selected _ s.req

start_scan-count : (req : FetchRequest) → (start_scan req).req.count ≡ req.count
start_scan-count req = ground arith

calculate-Ensures :
    (faults : Faults) (req : FetchRequest) (p : Partition)
    → Ensures (λ m r. Selected req.count m) Any (calculate_fetch_list faults req p)
unfolding calculate_fetch_list get pure
calculate-Ensures faults req p =
    Ensures-bind (λ m r. Selected req.count m) Any get _ p
      (Ensures-bind (λ m r. Selected req.count m) Any
        (scan_files faults p.file_cache (start_scan req)) _ p
        (Ensures-imp (λ t r. Counts req.count t) _ Any Any
          (λ t r k. subst (λ c. Selected c (select p.list t)) k (select-Selected p.list t))
          (λ r _. tt) _
          (scan_files-Counts faults req.count p.file_cache (start_scan req) p
            (start_scan-count req))))

-- A fetch list that is calculated, whatever files it comes from, has ascending ids and at most
-- `Count` entries.
pub calculate_fetch_list-Selected :
    (faults : Faults) (req : FetchRequest) (p q : Partition) (l : List Index)
    → calculate_fetch_list faults req p ≡ (ok l, q)
    → IsSorted l × (length l ≤ req.count)
calculate_fetch_list-Selected faults req p q l e =
    subst (Ensures (λ m r. Selected req.count m) Any) e (calculate-Ensures faults req p)
