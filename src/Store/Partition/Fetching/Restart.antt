-- ===== src/Store/Partition/Fetching/Restart.antt =====
-- A partition that is opened again, from the files that one before it left.
use mathlib.Core.Path.{subst}
use guble.Prelude.{
  ℕ, suc, ◌+◌, ◌-◌, ◌*◌, ◌/◌, ◌^◌, ◌<◌, ◌≡◌, refl, ap, sym, ◌∙◌, ℕ_comparable, Bytes, Dict, find,
  Option, none, some, List, [], ◌∷◌, ◌++◌, append_assoc, append-nil, false, leb, if◌then◌else◌,
  length, length-append, last_or, arith,
}
use guble.Store.Index.{Index, insert_elem, insert_all, back}
use guble.Store.Codec.{encode_entry, read_at}
use guble.Store.Codec.RoundTrip.{decode-encode}
use guble.Store.Partition.{
  Partition, CacheEntry, ok, Faults, IoCall, new_partition, attempt, modify, pure, get, ◌>>=◌,
}
use guble.Store.Partition.Fetching.{
  entry_of, read_index_entry, load_entries, load_file, load_index_list, read_cache_entry,
  read_idx_files, initialize,
}

-- The words of an entry fit, and it belongs to the file.
abbrev pub Fits : ℕ → Index → Type 0
Fits n e = (e.id < 2 ^ 64) × (e.offset < 2 ^ 64) × (e.size < 2 ^ 32) × (e.file_id ≡ n)

-- The entries at the places from `i` on in an index file.
abbrev pub Entries : ℕ → Bytes → ℕ → List Index → Type 0
Entries n file i [] = Unit
Entries n file i (e ∷ es) =
    (read_at file (i * 20) 20 ≡ some (encode_entry e.id e.offset e.size))
    × (Fits n e × Entries n file (i + 1) es)

pub record IsIndexFile (files : Dict ℕ Bytes) (n : ℕ) (es : List Index) : Type 0 where
  pub file : Bytes
  pub found : find files n ≡ some file
  pub size : length file ≡ 20 * length es
  pub entries : Entries n file 0 es

-- An index file of which the first and the last entry are those of the cache.
pub record IsFullFile (files : Dict ℕ Bytes) (n : ℕ) (c : CacheEntry) : Type 0 where
  pub first : Index
  pub more : List Index
  pub index_file : IsIndexFile files n (first ∷ more)
  pub min : first.id ≡ c.min
  pub max : (last_or first more).id ≡ c.max

abbrev pub FullFiles : Dict ℕ Bytes → ℕ → List CacheEntry → Type 0
FullFiles files n [] = Unit
FullFiles files n (c ∷ cache) = IsFullFile files n c × FullFiles files (n + 1) cache

-- The numbers of the index files of a partition with full files from number `n` on.
abbrev pub later : ℕ → List CacheEntry → List ℕ
later n [] = []
later n (c ∷ cache) = (n + 1) ∷ later (n + 1) cache

abbrev pub higher : ℕ → ℕ → ℕ
higher m n = if leb m n then n else m

abbrev pub highest : ℕ → List CacheEntry → ℕ
highest m [] = m
highest m (c ∷ cache) = highest (higher m c.max) cache

abbrev pub with_back : ℕ → Option Index → ℕ
with_back m none = m
with_back m (some e) = higher m e.id

-- The files of a partition hold its list and its cache, and its counters fit them. The current index
-- file has its entries in the order in which they were stored.
pub record IsSaved (per_file : ℕ) (p : Partition) : Type 0 where
  pub appended : List Index
  pub full : FullFiles p.indexes 0 p.file_cache
  pub current : IsIndexFile p.indexes (length p.file_cache) appended
  pub sorted : p.list ≡ insert_all appended []
  pub count : p.entries_count ≡ length p.list
  pub total : p.total_number_of_messages ≡ length p.file_cache * per_file + length p.list
  pub max : p.max_message_id ≡ with_back (highest 0 p.file_cache) (back p.list)

-- A new partition of the same directory.
abbrev pub reopened : Partition → Partition
reopened p = record new_partition { messages = p.messages; indexes = p.indexes }

-- The partition with its files closed, and its counter of ids of a millisecond as it is at first.
abbrev pub at_rest : Partition → Partition
at_rest p = record p {
  append_file = none;
  index_file = none;
  append_file_position = 0;
  sequence_number = 0;
}

module _ (faults : Faults) (works : (call : IoCall) → faults call ≡ false) (per_file : ℕ) where
  read_index_entry-Fits :
      (file : Bytes) (n i : ℕ) (e : Index) (p : Partition)
      → read_at file (i * 20) 20 ≡ some (encode_entry e.id e.offset e.size)
      → Fits n e
      → read_index_entry faults file n i p ≡ (ok e, p)
  unfolding read_index_entry entry_of ◌>>=◌ attempt pure
  read_index_entry-Fits file n i e p r (h, k, l, f) =
      rw (works IoCall.read_index, r, decode-encode e.id e.offset e.size h k l, f) refl

  load_entries-Entries :
      (file : Bytes) (n i : ℕ) (es l : List Index) (p : Partition)
      → Entries n file i es
      → load_entries faults file n (length es) i l p ≡ (ok (insert_all es l), p)
  unfolding load_entries insert_all ◌>>=◌ pure
  load_entries-Entries file n i [] l p h = refl
  load_entries-Entries file n i (e ∷ es) l p (r, (f, h)) =
      rw (read_index_entry-Fits file n i e p r f)
        (load_entries-Entries file n (i + 1) es (insert_elem e l) p h)

  last-Entries :
      (file : Bytes) (n i : ℕ) (x : Index) (l : List Index)
      → Entries n file i (x ∷ l)
      → (read_at file ((i + length l) * 20) 20
          ≡ some (encode_entry (last_or x l).id (last_or x l).offset (last_or x l).size))
        × Fits n (last_or x l)
  last-Entries file n i x [] (r, (f, h)) = (ap (λ k. read_at file (k * 20) 20) (omega arith) ∙ r, f)
  last-Entries file n i x (y ∷ l) (r, (f, h)) =
      let (q, g) = last-Entries file n (i + 1) y l h in
      (ap (λ k. read_at file (k * 20) 20) (omega arith) ∙ q, g)

  -- An index file is loaded as its entries, each inserted in turn.
  load_index_list-IsIndexFile :
      (n : ℕ) (es : List Index) (p : Partition)
      → IsIndexFile p.indexes n es
      → load_index_list faults n p ≡ (ok (insert_all es []), p)
  unfolding load_index_list load_file ◌>>=◌ attempt get
  load_index_list-IsIndexFile n es p h =
      rw (h.found, works IoCall.stat_index, works IoCall.open_index_read)
        (ap (λ k. load_entries faults h.file n k 0 [] p) count
          ∙ load_entries-Entries h.file n 0 es [] p h.entries)
    where
      count : length h.file / 20 ≡ length es
      count = omega (arith, h.size)

  read_cache_entry-IsFullFile :
      (n : ℕ) (c : CacheEntry) (p : Partition)
      → IsFullFile p.indexes n c
      → read_cache_entry faults n (find p.indexes n) p ≡ (ok c, p)
  unfolding read_cache_entry ◌>>=◌ attempt pure
  read_cache_entry-IsFullFile n c p h =
      rw
        (
          h.index_file.found,
          works IoCall.stat_index,
          works IoCall.open_index_read,
          read_index_entry-Fits file n 0 h.first p h.index_file.entries.0 h.index_file.entries.1.0,
          at_last,
        )
        (λ i. (ok (record { min = h.min i; max = h.max i }), p))
    where
      file : Bytes
      file = h.index_file.file

      place : 0 + length h.more ≡ length file / 20 - 1
      place = omega (arith, h.index_file.size)

      last :
          (read_at file ((0 + length h.more) * 20) 20
            ≡ some (
                encode_entry
                  (last_or h.first h.more).id
                  (last_or h.first h.more).offset
                  (last_or h.first h.more).size))
          × Fits n (last_or h.first h.more)
      last = last-Entries file n 0 h.first h.more h.index_file.entries

      at_last :
          read_index_entry faults file n (length file / 20 - 1) p ≡ (ok (last_or h.first h.more), p)
      at_last =
          read_index_entry-Fits file n (length file / 20 - 1) (last_or h.first h.more) p
            (ap (λ k. read_at file (k * 20) 20) (sym place) ∙ last.0) last.1

  abbrev with_list : List Index → Partition → Partition
  with_list l q = record q {
    list = l;
    entries_count = length l;
    total_number_of_messages = q.total_number_of_messages + length l;
    max_message_id = with_back q.max_message_id (back l);
  }

  abbrev with_full_file : CacheEntry → Partition → Partition
  with_full_file c q = record q {
    total_number_of_messages = q.total_number_of_messages + per_file;
    file_cache = q.file_cache ++ c ∷ [];
    max_message_id = higher q.max_message_id c.max;
  }

  -- The partition once the full files of a list and then the last one are read.
  abbrev read_all : List CacheEntry → List Index → Partition → Partition
  read_all [] l q = with_list l q
  read_all (c ∷ cache) l q = read_all cache l (with_full_file c q)

  read_last :
      (es : List Index) (q : Partition) (n : ℕ)
      → length q.file_cache ≡ n
      → IsIndexFile q.indexes n es
      → read_idx_files per_file faults (n ∷ []) q ≡ (ok tt, with_list (insert_all es []) q)
  unfolding read_idx_files ◌>>=◌ get modify
  read_last es q n e h =
      rw (ap (λ k. load_index_list faults k q) e ∙ load_index_list-IsIndexFile n es q h) refl

  read_idx_files-FullFiles :
      (cache : List CacheEntry) (es : List Index) (q : Partition) (n : ℕ)
      → length q.file_cache ≡ n
      → FullFiles q.indexes n cache
      → IsIndexFile q.indexes (n + length cache) es
      → read_idx_files per_file faults (n ∷ later n cache) q
        ≡ (ok tt, read_all cache (insert_all es []) q)
  unfolding read_idx_files ◌>>=◌ get modify
  read_idx_files-FullFiles [] es q n e f h =
      read_last es q n e (subst (λ k. IsIndexFile q.indexes k es) (omega arith) h)
  read_idx_files-FullFiles (c ∷ cache) es q n e (f, fs) h =
      rw (read_cache_entry-IsFullFile n c q f) (
        read_idx_files-FullFiles cache es (with_full_file c q) (n + 1)
          (omega (arith, length-append q.file_cache (c ∷ []))) fs
          (subst (λ k. IsIndexFile q.indexes k es) (omega arith) h))

  read_all-fields :
      (cache : List CacheEntry) (l : List Index) (q : Partition)
      → read_all cache l q ≡ record q {
        list = l;
        entries_count = length l;
        file_cache = q.file_cache ++ cache;
        total_number_of_messages = q.total_number_of_messages + length cache * per_file + length l;
        max_message_id = with_back (highest q.max_message_id cache) (back l);
      }
  read_all-fields [] l q = λ i. record (with_list l q) {
    file_cache = sym (append-nil q.file_cache) i;
    total_number_of_messages = none_full i;
  }
    where
      none_full :
          q.total_number_of_messages + length l
          ≡ q.total_number_of_messages + 0 * per_file + length l
      none_full = omega arith
  read_all-fields (c ∷ cache) l q = read_all-fields cache l (with_full_file c q) ∙ λ i. record q {
    list = l;
    entries_count = length l;
    file_cache = append_assoc q.file_cache (c ∷ []) cache i;
    total_number_of_messages = one_more i;
    max_message_id = with_back (highest (higher q.max_message_id c.max) cache) (back l);
  }
    where
      one_more :
          q.total_number_of_messages + per_file + length cache * per_file + length l
          ≡ q.total_number_of_messages + suc (length cache) * per_file + length l
      one_more = grind arith

  -- A partition whose files hold what it has in memory is restored from them: the list, the cache of
  -- full files, the number of messages and the highest id, where no call fails.
  pub initialize-IsSaved :
      (p : Partition)
      → IsSaved per_file p
      → initialize per_file faults (0 ∷ later 0 p.file_cache) (reopened p) ≡ (ok tt, at_rest p)
  unfolding initialize ◌>>=◌ modify
  initialize-IsSaved p s =
      read_idx_files-FullFiles p.file_cache s.appended (reopened p) 0 refl s.full
        (subst (λ k. IsIndexFile p.indexes k s.appended) (omega arith) s.current)
      ∙ ap (λ q. (ok tt, q))
          (read_all-fields p.file_cache (insert_all s.appended []) (reopened p) ∙ λ i.
            record (at_rest p) {
              list = sym s.sorted i;
              entries_count = (ap length (sym s.sorted) ∙ sym s.count) i;
              total_number_of_messages = total i;
              max_message_id =
                  (ap (λ l. with_back (highest 0 p.file_cache) (back l)) (sym s.sorted) ∙ sym s.max)
                    i;
            })
    where
      total :
          0 + length p.file_cache * per_file + length (insert_all s.appended [])
          ≡ p.total_number_of_messages
      total = omega (arith, s.total, ap length s.sorted)
