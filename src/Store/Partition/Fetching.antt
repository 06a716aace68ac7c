-- ===== src/Store/Partition/Fetching.antt =====
-- Reading a partition: index files, fetch lists and messages (message_partition.go, cache.go).
pub mod Lists
pub mod Messages
pub mod Restart
use guble.Prelude.{
  ℕ, zero, suc, ◌+◌, ◌-◌, ◌*◌, ◌/◌, ℕ_comparable, Bytes, Dict, find, Option, none, some, List, [],
  ◌∷◌, ◌++◌, Bool, true, false, ◌&&◌, ◌||◌, ltb, leb, nat_eq, if◌then◌else◌, length,
}
use guble.Store.Fetch.{FetchRequest, Direction, one_message, forward, backwards}
use guble.Store.Index.{Index, insert_elem, insert_all, contains, extract, back}
use guble.Store.Codec.{Entry, decode_entry, read_at}
use guble.Store.Partition.{
  Partition, CacheEntry, Failure, io, request_done, Result, ok, err, Action, Faults, IoCall,
  stat_index, open_index_read, read_index, open_message, read_message, attempt, modify, pure, fail,
  get, ◌>>=◌, ◌>>◌, file_number,
}

-- The index that loadIndexList makes of the 20 bytes read.
pub entry_of : ℕ → Option Bytes → Action Index
entry_of file_id none = fail (io read_index)
entry_of file_id (some buffer) =
    let d = decode_entry buffer in
    pure (record { id = d.id; offset = d.offset; size = d.size; file_id = file_id })

-- readIndexEntry
pub read_index_entry : Faults → Bytes → ℕ → ℕ → Action Index
unfolding entry_of
read_index_entry faults file file_id i = do
  attempt faults read_index
  entry_of file_id (read_at file (i * 20) 20)

-- The loop of loadIndexList, with the entries left, the position and the list so far.
pub load_entries : Faults → Bytes → ℕ → ℕ → ℕ → List Index → Action (List Index)
load_entries faults file file_id zero i l = pure l
load_entries faults file file_id (suc left) i l = read_index_entry faults file file_id i >>= λ e.
    load_entries faults file file_id left (i + 1) (insert_elem e l)

-- Entries in the file, by its size.
pub load_file : Faults → ℕ → Option Bytes → Action (List Index)
unfolding load_entries read_index_entry
load_file faults file_id none = fail (io stat_index)
load_file faults file_id (some file) = do
  attempt faults stat_index
  attempt faults open_index_read
  load_entries faults file file_id (length file / 20) 0 []

unfoldable pub load_index_list : Faults → ℕ → Action (List Index)
unfolding load_file
load_index_list faults file_id = do p ← get; load_file faults file_id (find p.indexes file_id)

-- cacheEntry.Contains; a request from 0 on is made a forward one.
unfoldable pub cache_contains : CacheEntry → FetchRequest → Bool × FetchRequest
cache_contains entry req =
    if nat_eq req.start_id 0
    then (true, record req { direction = forward })
    else elim req.direction [
      | backwards ↦ (leb entry.min req.start_id, req)
      | _ ↦ (leb entry.min req.start_id && leb req.start_id entry.max, req)
    ]

-- What the loop over the file cache carries: the number of the file, whether the one before was
-- used, the request and the entries so far.
pub record Scan : Type 0 where
  pub file : ℕ
  pub prev : Bool
  pub req : FetchRequest
  pub potential : List Index

-- The entries of a list for the request, after those so far.
abbrev pub add_extract : List Index → Scan → List Index
add_extract l s = insert_all (extract l s.req) s.potential

abbrev pub wants_more : Scan → Bool
wants_more s = s.prev && ltb (length s.potential) s.req.count

pub scan_file : Faults → CacheEntry → Scan → Action Scan
scan_file faults fce s =
    let (inside, req) = cache_contains fce s.req in
    if inside || wants_more s
    then (do
      l ← load_index_list faults s.file
      pure (record {
        file = s.file + 1;
        prev = true;
        req = req;
        potential = insert_all (extract l req) s.potential;
      }))
    else pure (record s { file = s.file + 1; prev = false; req = req })

pub scan_files : Faults → List CacheEntry → Scan → Action Scan
scan_files faults [] s = pure s
scan_files faults (fce ∷ entries) s = scan_file faults fce s >>= λ t. scan_files faults entries t

-- A request for one message becomes a forward one.
abbrev pub start_scan : FetchRequest → Scan
start_scan req = record {
  file = 0;
  prev = false;
  req = elim req.direction [ one_message ↦ record req { direction = forward } | _ ↦ req ];
  potential = [];
}

-- The current list comes last, and `Count` of all entries are selected.
unfoldable pub select : List Index → Scan → List Index
select list s =
    extract
      (if contains list s.req.start_id || wants_more s then add_extract list s else s.potential)
      s.req

unfoldable pub calculate_fetch_list : Faults → FetchRequest → Action (List Index)
unfolding scan_file scan_files load_index_list cache_contains select
calculate_fetch_list faults req = do
  p ← get
  s ← scan_files faults p.file_cache (start_scan req)
  pure (select p.list s)

-- What a message read gives: the failure, or the id and the bytes for `MessageC`.
unfoldable pub read_message_at : Faults → Partition → Index → Result (ℕ × Bytes)
read_message_at faults p e =
    if faults open_message
    then err (io open_message)
    else if faults read_message
    then err (io read_message)
    else elim (find p.messages e.file_id) [
      | none ↦ err (io open_message)
      | some file ↦ elim (read_at file e.offset e.size) [
        | none ↦ err (io read_message)
        | some bytes ↦ ok (e.id, bytes)
      ]
    ]

-- fetchByFetchlist: the messages sent, in order, and how it ended. `is_done i` is what `IsDone`
-- answers before message `i`.
unfoldable pub fetch_by_fetchlist :
    Faults → (ℕ → Bool) → Partition → ℕ → List Index → List (ℕ × Bytes) × Result (Unit {0})
fetch_by_fetchlist faults is_done p i [] = ([], ok tt)
fetch_by_fetchlist faults is_done p i (e ∷ es) =
    let rest = fetch_by_fetchlist faults is_done p (i + 1) es in
    if is_done i then ([], err request_done) else elim (read_message_at faults p e) [
      | err failure ↦ ([], err failure)
      | ok message ↦ (message ∷ rest.0, rest.1)
    ]

-- readCacheEntryFromIdxFile
pub read_cache_entry : Faults → ℕ → Option Bytes → Action CacheEntry
unfolding read_index_entry
read_cache_entry faults file_id none = fail (io stat_index)
read_cache_entry faults file_id (some file) = do
  attempt faults stat_index
  attempt faults open_index_read
  first ← read_index_entry faults file file_id 0
  last ← read_index_entry faults file file_id (length file / 20 - 1)
  pure (record { min = first.id; max = last.id })

-- The loop of readIdxFiles over all index files but the last, and then the last.
pub read_idx_files : ℕ → Faults → List ℕ → Action (Unit {0})
unfolding read_cache_entry load_index_list
read_idx_files per_file faults [] = pure tt
read_idx_files per_file faults (last ∷ []) = do
  p ← get
  l ← load_index_list faults (file_number p)
  modify λ q. record q {
    list = l;
    entries_count = length l;
    total_number_of_messages = q.total_number_of_messages + length l;
    max_message_id = elim (back l) [
      | none ↦ q.max_message_id
      | some e ↦ if leb q.max_message_id e.id then e.id else q.max_message_id
    ];
  }
read_idx_files per_file faults (n ∷ m ∷ files) =
    let rest = read_idx_files per_file faults (m ∷ files) in
    do
      p ← get
      entry ← read_cache_entry faults n (find p.indexes n)
      modify λ q. record q {
        total_number_of_messages = q.total_number_of_messages + per_file;
        file_cache = q.file_cache ++ entry ∷ [];
        max_message_id = if leb q.max_message_id entry.max then entry.max else q.max_message_id;
      }
      rest

-- initialize: the cache is reset, and the index files are read in the order of their names.
unfoldable pub initialize : ℕ → Faults → List ℕ → Action (Unit {0})
unfolding read_idx_files
initialize per_file faults files = do
  modify λ p. record p { file_cache = [] }
  read_idx_files per_file faults files
