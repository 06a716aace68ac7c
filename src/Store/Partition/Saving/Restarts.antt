-- ===== src/Store/Partition/Saving/Restarts.antt =====
-- Stores of ascending ids and restarts, in any order.
use mathlib.Core.Path.{subst}
use guble.Prelude.{
  ℕ, ◌^◌, ◌<◌, ◌≡◌, refl, sym, ℕ_comparable, Bytes, find, none, some, List, [], ◌∷◌, length, false,
  arith,
}
use guble.Store.Index.{back}
use guble.Store.Partition.{Partition, Result, ok, Faults, IoCall, new_partition, store}
use guble.Store.Partition.Fetching.{initialize}
use guble.Store.Partition.Fetching.Restart.{later, IsSaved, reopened, at_rest, initialize-IsSaved}
use guble.Store.Partition.Saving.Kept.{IsKept, insert_all-Ascends, HeldAt-IsIndexFile}
use guble.Store.Partition.Saving.Runs.{store-IsKept}

-- The index file that the partition writes to next is there.
abbrev pub HasIndexFile : Partition → Type 0
HasIndexFile p = (file : Bytes) × (find p.indexes (length p.file_cache) ≡ some file)

-- The index files in the order of their names.
abbrev pub index_files : Partition → List ℕ
index_files p = 0 ∷ later 0 p.file_cache

module _ (faults : Faults) (works : (call : IoCall) → faults call ≡ false) (per_file : ℕ)
    (positive : 0 < per_file) where
  -- The partitions that stores of ascending ids and restarts lead to, while file positions fit a word
  -- of 64 bits.
  pub data Reached : Partition → Type 0 where
    created : Reached new_partition
    stored :
        (p q : Partition) (id : ℕ) (bytes : Bytes)
        → Reached p
        → p.max_message_id < id
        → id < 2 ^ 64
        → store per_file faults id bytes p ≡ (ok tt, q)
        → q.append_file_position < 2 ^ 64
        → Reached q
    restarted :
        (p q : Partition)
        → Reached p
        → HasIndexFile p
        → initialize per_file faults (index_files p) (reopened p) ≡ (ok tt, q)
        → Reached q

  IsKept-IsSaved : (p : Partition) → IsKept per_file p → HasIndexFile p → IsSaved per_file p
  IsKept-IsSaved p h f = record {
    appended = p.list;
    full = h.full;
    current = HeldAt-IsIndexFile p.indexes (length p.file_cache) p.list f h.held;
    sorted = sym (insert_all-Ascends per_file [] p.list h.ascends);
    count = h.count;
    total = h.total;
    max = h.max;
  }

  at_rest-IsKept : (p : Partition) → IsKept per_file p → IsKept per_file (at_rest p)
  at_rest-IsKept p h = record {
    full = h.full;
    held = h.held;
    beyond = h.beyond;
    current = λ k e. absurd (cc);
    ascends = h.ascends;
    count = h.count;
    total = h.total;
    max = h.max;
  }

  same :
      {p q : Partition} {r : Result (Unit {0}) × Partition}
      → r ≡ (ok tt, p)
      → r ≡ (ok tt, q)
      → p ≡ q
  same e f = cc

  Reached-IsKept : (p : Partition) → Reached p → IsKept per_file p
  unfolding find back
  Reached-IsKept p created = record {
    full = tt;
    held = (refl, tt);
    beyond = λ k h. refl;
    current = λ k e. absurd (cc);
    ascends = tt;
    count = refl;
    total = omega arith;
    max = refl;
  }
  Reached-IsKept q (stored p _ id bytes r above id_bits e position) =
      let (q', f, there, keeps) =
        store-IsKept faults works per_file positive id bytes p (Reached-IsKept p r) above id_bits in
      subst (IsKept per_file) (same f e)
        (keeps (subst (λ x. x.append_file_position < 2 ^ 64) (same e f) position))
  Reached-IsKept q (restarted p _ r there e) =
      let h = Reached-IsKept p r in
      subst (IsKept per_file)
        (same (initialize-IsSaved faults works per_file p (IsKept-IsSaved p h there)) e)
        (at_rest-IsKept p h)

  -- After stores of ascending ids and restarts, a new partition of the same directory is what the old
  -- one was, with its files closed: the list, the full files, the number of messages and the highest id
  -- are restored, and there is no index file beyond those that are read.
  pub initialize-Reached :
      (p : Partition)
      → Reached p
      → HasIndexFile p
      → (initialize per_file faults (index_files p) (reopened p) ≡ (ok tt, at_rest p))
        × ((k : ℕ) → length p.file_cache < k → find p.indexes k ≡ none)
  initialize-Reached p r there =
      let h = Reached-IsKept p r in
      (initialize-IsSaved faults works per_file p (IsKept-IsSaved p h there), h.beyond)

  -- Each store leaves the index file.
  pub stored-HasIndexFile :
      (p : Partition) (id : ℕ) (bytes : Bytes)
      → Reached p
      → p.max_message_id < id
      → id < 2 ^ 64
      → (q : Partition) × (store per_file faults id bytes p ≡ (ok tt, q)) × HasIndexFile q
  stored-HasIndexFile p id bytes r above id_bits =
      let (q, f, there, keeps) =
        store-IsKept faults works per_file positive id bytes p (Reached-IsKept p r) above id_bits in
      (q, f, there)
