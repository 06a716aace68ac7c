-- ===== src/Store/Partition.antt =====
-- server/store/filestore/message_partition.go and cache.go: storing messages. Each operation holds
-- the partition's lock, so it is one atomic step. `messagesPerFile` is the argument `per_file`.
mod Defs
pub mod Outcome
pub mod Keeps
pub mod Stored
pub mod Succeeds
pub mod Losses
pub mod Fetching
pub mod Held
pub mod Saving
mod Examples
pub use Defs.*
unfoldable pub use Defs.{◌>>=◌, pure, fail, modify, get, attempt}
use guble.Prelude.{
  ℕ, ℕ_comparable, zero, suc, ◌+◌, ◌*◌, ◌%◌, ◌^◌, Bytes, Dict, find, put, remove, Option, none,
  some, List, [], ◌∷◌, ◌++◌, Bool, true, false, ◌||◌, ltb, leb, nat_eq, if◌then◌else◌, length,
}
use guble.Store.Index.{Index, insert_elem, front, back}
use guble.Store.Codec.{encode_entry, size_and_id, write_at}

abbrev pub magic_number : Bytes
magic_number = 42 ∷ 249 ∷ 180 ∷ 108 ∷ 82 ∷ 75 ∷ 222 ∷ 182 ∷ []

abbrev pub file_format_version : Bytes
file_format_version = 1 ∷ []

abbrev pub new_partition : Partition
new_partition = record {
  append_file = none;
  index_file = none;
  append_file_position = 0;
  max_message_id = 0;
  sequence_number = 0;
  total_number_of_messages = 0;
  entries_count = 0;
  list = [];
  file_cache = [];
  messages = [];
  indexes = [];
}

pub close_index_file : Faults → Option ℕ → Action Unit
close_index_file faults none = pure tt
close_index_file faults (some n) = do
  modify λ p. record p { index_file = none }
  attempt faults close_index

pub close_append_file : Faults → Option ℕ → Action Unit
close_append_file faults none = pure tt
close_append_file faults (some n) = do
  attempt faults close_append
  modify λ p. record p { append_file = none }

unfoldable pub close_append_files : Faults → Action Unit
unfolding close_append_file close_index_file
close_append_files faults = do
  p ← get
  close_append_file faults p.append_file
  close_index_file faults p.index_file

-- writeIndexEntry: 20 bytes at `pos * indexEntrySize`.
pub write_index_entry : Faults → IoCall → ℕ → Index → ℕ → Action Unit
write_index_entry faults call file e pos = do
  attempt faults call
  modify λ p. record p {
    indexes =
        put p.indexes file
          (write_at (contents p.indexes file) (20 * pos) (encode_entry e.id e.offset e.size));
  }

-- The loop of rewriteSortedIdxFile; it ends without an error where the ids do not ascend.
pub dump_entries : Faults → ℕ → ℕ → ℕ → List Index → Action Unit
dump_entries faults file last_id i [] = pure tt
dump_entries faults file last_id i (item ∷ items) =
    let rest = dump_entries faults file item.id (i + 1) items in
    if leb item.id last_id
    then pure tt
    else do write_index_entry faults (dump_entry i) file item i; rest

unfoldable pub rewrite_sorted_idx_file : Faults → ℕ → Action Unit
unfolding dump_entries write_index_entry
rewrite_sorted_idx_file faults file = do
  attempt faults open_dump
  modify λ p. record p { indexes = put p.indexes file (contents p.indexes file) }
  p ← get
  dump_entries faults file 0 0 p.list

-- Files of a partition are numbered by the count of those that are full.
abbrev pub file_number : Partition → ℕ
file_number p = length p.file_cache

-- The header of a new message file: one whose size is 0.
pub write_file_header : Faults → ℕ → Bytes → Action Unit
write_file_header faults n (b ∷ bytes) = pure tt
write_file_header faults n [] = do
  modify λ p. record p { append_file_position = 0 }
  attempt faults write_magic
  modify λ p. record p { messages = append_to p.messages n magic_number }
  attempt faults write_version
  modify λ p. record p { messages = append_to p.messages n file_format_version }

-- After both files are open.
pub adopt_append_files : Faults → ℕ → Action Unit
adopt_append_files faults n = do
  modify λ p. record p { append_file = some n; index_file = some n }
  attempt faults stat_append
  modify λ p. record p { append_file_position = length (contents p.messages n) }

-- A failure to open the index file removes the message file, and is not returned: `err` is nil there.
pub open_index_file : Faults → ℕ → Action Unit
unfolding adopt_append_files
open_index_file faults n =
    if faults open_index then modify (λ p. record p { messages = remove p.messages n }) else (do
      modify λ p. record p { indexes = put p.indexes n (contents p.indexes n) }
      adopt_append_files faults n)

unfoldable pub create_next_append_files : Faults → Action Unit
unfolding write_file_header open_index_file
create_next_append_files faults = do
  p ← get
  let n = file_number p
  attempt faults open_append
  modify λ q. record q { messages = append_to q.messages n [] }
  q ← get
  write_file_header faults n (contents q.messages n)
  open_index_file faults n

-- The full file goes to the cache, and the next one starts.
pub add_to_cache : Option Index → Option Index → Action Unit
add_to_cache (some first) (some last) = modify λ p. record p {
  file_cache = p.file_cache ++ record { min = first.id; max = last.id } ∷ [];
  list = [];
  entries_count = 0;
}
add_to_cache (some first) none = fail nil_entry
add_to_cache none last = fail nil_entry

unfoldable pub roll_over : Faults → Action Unit
unfolding add_to_cache
roll_over faults = do
  p ← get
  rewrite_sorted_idx_file faults (file_number p)
  add_to_cache (front p.list) (back p.list)

pub is_nil : Option ℕ → Bool
is_nil none = true
is_nil (some n) = false

-- The current file is full, or there is none.
pub needs_file : ℕ → Partition → Bool
unfolding is_nil
needs_file per_file p =
    nat_eq p.entries_count per_file || (is_nil p.append_file || is_nil p.index_file)

-- Closes the files, hands a full one over to the cache, and opens the next.
pub renew : ℕ → Faults → Action Unit
renew per_file faults = do
  close_append_files faults
  p ← get
  (if nat_eq p.entries_count per_file then roll_over faults else pure tt)
  create_next_append_files faults

-- The first half of store: a message file to append to.
unfoldable pub prepare : ℕ → Faults → Action Unit
unfolding needs_file renew
prepare per_file faults = do
  p ← get
  (if needs_file per_file p then renew per_file faults else pure tt)

-- appendFile.Write: a nil file is refused.
pub write_append : Faults → IoCall → Bytes → Option ℕ → Action Unit
write_append faults call bytes none = fail nil_file
write_append faults call bytes (some n) = do
  attempt faults call
  modify λ p. record p { messages = append_to p.messages n bytes }

-- The entry of a message that starts behind its 12 bytes of size and id.
abbrev pub next_entry : Partition → ℕ → Bytes → Index
next_entry p id bytes = record {
  id = id;
  offset = p.append_file_position + 12;
  size = length bytes % 2 ^ 32;
  file_id = file_number p;
}

pub write_index_file : Faults → Index → ℕ → Option ℕ → Action Unit
unfolding write_index_entry
write_index_file faults e pos none = fail nil_file
write_index_file faults e pos (some n) = write_index_entry faults write_index n e pos

-- What store records once the message and its index entry are written.
pub record_entry : Index → Bytes → Partition → Partition
record_entry e bytes p = record p {
  entries_count = p.entries_count + 1;
  total_number_of_messages = p.total_number_of_messages + 1;
  list = insert_elem e p.list;
  append_file_position = p.append_file_position + (12 + length bytes);
  max_message_id = if ltb p.max_message_id e.id then e.id else p.max_message_id;
}

-- The size and the id, then the message.
pub write_message : Faults → ℕ → Bytes → Option ℕ → Action Unit
unfolding write_append
write_message faults id bytes file = do
  write_append faults write_header (size_and_id id bytes) file
  write_append faults write_data bytes file

-- The second half of store.
unfoldable pub append_message : Faults → ℕ → Bytes → Action Unit
unfolding write_message write_index_file record_entry
append_message faults id bytes = do
  p ← get
  write_message faults id bytes p.append_file
  write_index_file faults (next_entry p id bytes) p.entries_count p.index_file
  modify (record_entry (next_entry p id bytes) bytes)

unfoldable pub store : ℕ → Faults → ℕ → Bytes → Action Unit
unfolding prepare append_message
store per_file faults id bytes = do prepare per_file faults; append_message faults id bytes
