-- ===== src/Store/Partition/Saving.antt =====
-- What the parts of a store leave where no call fails, as equations.
pub mod Kept
pub mod Runs
pub mod Restarts
mod Examples
use guble.Prelude.{
  ℕ, zero, suc, ◌+◌, ◌*◌, ◌<◌, ◌≡◌, refl, ap, sym, ◌∙◌, ℕ_comparable, Bytes, Dict, put, remove,
  Option, none, some, List, [], ◌∷◌, ◌++◌, Bool, true, false, if◌then◌else◌, leb, length, last_or,
  arith,
}
use guble.Store.Index.{Index, front, back}
use guble.Store.Codec.{write_at, size_and_id}
use guble.Store.Partition.{
  Partition, CacheEntry, Result, ok, Action, Faults, IoCall, attempt, modify, pure, get, ◌>>=◌,
  ◌>>◌, append_to, magic_number, file_format_version, contents, file_number, close_index_file,
  close_append_file, close_append_files, write_index_entry, dump_entries, rewrite_sorted_idx_file,
  write_file_header, adopt_append_files, open_index_file, create_next_append_files, add_to_cache,
  roll_over, write_append, next_entry, write_message, write_index_file, record_entry,
  append_message,
}
use guble.Store.Partition.Held.{bytes_of}

-- Ids ascend strictly, and are above a number.
abbrev pub Ascends : ℕ → List Index → Type 0
Ascends n [] = Unit
Ascends n (x ∷ xs) = (n < x.id) × Ascends x.id xs

-- The index files after the entries were written from a place on.
abbrev pub dumped : ℕ → ℕ → List Index → Dict ℕ Bytes → Dict ℕ Bytes
dumped n i [] files = files
dumped n i (e ∷ es) files =
    dumped n (i + 1) es (put files n (write_at (contents files n) (20 * i) (bytes_of e)))

-- The index files with a file that is created if it is missing.
abbrev pub with_file : Dict ℕ Bytes → ℕ → Dict ℕ Bytes
with_file files n = put files n (contents files n)

abbrev pub rolled : Index → List Index → Partition → Partition
rolled x l p = record p {
  indexes = dumped (file_number p) 0 p.list (with_file p.indexes (file_number p));
  file_cache = p.file_cache ++ record { min = x.id; max = (last_or x l).id } ∷ [];
  list = [];
  entries_count = 0;
}

abbrev pub opened : ℕ → Dict ℕ Bytes → Partition → Partition
opened position messages p = record p {
  append_file = some (file_number p);
  index_file = some (file_number p);
  append_file_position = position;
  messages = messages;
  indexes = with_file p.indexes (file_number p);
}

abbrev pub appended : ℕ → Bytes → Dict ℕ Bytes → ℕ → Partition → Partition
appended id bytes messages n p = record_entry (next_entry p id bytes) bytes (record p {
  messages = messages;
  indexes =
      put p.indexes n
        (write_at (contents p.indexes n) (20 * p.entries_count) (bytes_of (next_entry p id bytes)));
})

module _ (faults : Faults) (works : (call : IoCall) → faults call ≡ false) where
  close_append_file_lem :
      (o : Option ℕ) (p : Partition)
      → p.append_file ≡ o
      → close_append_file faults o p ≡ (ok tt, record p { append_file = none })
  unfolding close_append_file ◌>>=◌ attempt modify pure
  close_append_file_lem none p e = λ i. (ok tt, record p { append_file = e i })
  close_append_file_lem (some n) p e = rw (works IoCall.close_append) refl

  close_index_file_lem :
      (o : Option ℕ) (p : Partition)
      → p.index_file ≡ o
      → close_index_file faults o p ≡ (ok tt, record p { index_file = none })
  unfolding close_index_file ◌>>=◌ attempt modify pure
  close_index_file_lem none p e = λ i. (ok tt, record p { index_file = e i })
  close_index_file_lem (some n) p e = rw (works IoCall.close_index) refl

  pub close_append_files_lem :
      (p : Partition)
      → close_append_files faults p ≡ (ok tt, record p { append_file = none; index_file = none })
  unfolding close_append_files ◌>>=◌ get
  close_append_files_lem p =
      rw (close_append_file_lem p.append_file p refl)
        (close_index_file_lem p.index_file (record p { append_file = none }) refl)

  write_index_entry_lem :
      (call : IoCall) (n : ℕ) (e : Index) (i : ℕ) (p : Partition)
      → write_index_entry faults call n e i p ≡ (
        ok tt,
        record p {
          indexes = put p.indexes n (write_at (contents p.indexes n) (20 * i) (bytes_of e));
        },
      )
  unfolding write_index_entry ◌>>=◌ attempt modify
  write_index_entry_lem call n e i p = rw (works call) refl

  dump_entries_lem :
      (n last_id i : ℕ) (items : List Index) (p : Partition)
      → Ascends last_id items
      → dump_entries faults n last_id i items p
        ≡ (ok tt, record p { indexes = dumped n i items p.indexes })
  unfolding dump_entries ◌>>=◌ pure
  dump_entries_lem n last_id i [] p a = refl
  dump_entries_lem n last_id i (x ∷ items) p (h, a) =
      rw (ascends, write_index_entry_lem (IoCall.dump_entry i) n x i p)
        (dump_entries_lem n x.id (i + 1) items
          (record p {
            indexes = put p.indexes n (write_at (contents p.indexes n) (20 * i) (bytes_of x));
          })
          a)
    where
      ascends : leb x.id last_id ≡ false
      ascends = ground arith

  add_to_cache_lem :
      (x : Index) (l k : List Index) (p : Partition)
      → k ≡ x ∷ l
      → add_to_cache (front k) (back k) p ≡ (
        ok tt,
        record p {
          file_cache = p.file_cache ++ record { min = x.id; max = (last_or x l).id } ∷ [];
          list = [];
          entries_count = 0;
        },
      )
  unfolding add_to_cache front back modify
  add_to_cache_lem x l k p e = rw e refl

  pub roll_over_lem :
      (x : Index) (l : List Index) (p : Partition)
      → p.list ≡ x ∷ l
      → Ascends 0 p.list
      → roll_over faults p ≡ (ok tt, rolled x l p)
  unfolding roll_over rewrite_sorted_idx_file ◌>>=◌ attempt modify get
  roll_over_lem x l p e a =
      rw
        (
          works IoCall.open_dump,
          dump_entries_lem (file_number p) 0 0 p.list
              (record p { indexes = with_file p.indexes (file_number p) }) a,
        )
        (add_to_cache_lem x l p.list
          (record p {
            indexes = dumped (file_number p) 0 p.list (with_file p.indexes (file_number p));
          })
          e)

  write_file_header_lem :
      (n : ℕ) (bytes : Bytes) (p : Partition)
      → (position : ℕ) × (messages : Dict ℕ Bytes) × (write_file_header faults n bytes p
          ≡ (ok tt, record p { append_file_position = position; messages = messages }))
  unfolding write_file_header ◌>>=◌ attempt modify pure
  write_file_header_lem n (b ∷ bytes) p = (p.append_file_position, p.messages, refl)
  write_file_header_lem n [] p = (
    0,
    append_to (append_to p.messages n magic_number) n file_format_version,
    rw (works IoCall.write_magic, works IoCall.write_version) refl,
  )

  pub create_next_append_files_lem :
      (p : Partition)
      → (position : ℕ) × (messages : Dict ℕ Bytes) × (create_next_append_files faults p
          ≡ (ok tt, opened position messages p))
  unfolding create_next_append_files open_index_file adopt_append_files ◌>>=◌ attempt modify get
  create_next_append_files_lem p =
      let messages = append_to p.messages (file_number p) [] in
      let (position, headed, e) =
        write_file_header_lem (file_number p) (contents messages (file_number p))
          (record p { messages = messages }) in
      (
        length (contents headed (file_number p)),
        headed,
        rw (works IoCall.open_append, e, works IoCall.open_index, works IoCall.stat_append) refl,
      )

  write_message_lem :
      (id : ℕ) (bytes : Bytes) (m : ℕ) (p : Partition)
      → (messages : Dict ℕ Bytes) × (write_message faults id bytes (some m) p
          ≡ (ok tt, record p { messages = messages }))
  unfolding write_message write_append ◌>>=◌ attempt modify
  write_message_lem id bytes m p = (
    append_to (append_to p.messages m (size_and_id id bytes)) m bytes,
    rw (works IoCall.write_header, works IoCall.write_data) refl,
  )

  -- A message is appended where both files are open.
  pub append_message_lem :
      (id : ℕ) (bytes : Bytes) (m n : ℕ) (p : Partition)
      → p.append_file ≡ some m
      → p.index_file ≡ some n
      → (messages : Dict ℕ Bytes) × (append_message faults id bytes p
          ≡ (ok tt, appended id bytes messages n p))
  unfolding append_message write_index_file ◌>>=◌ get modify
  append_message_lem id bytes m n p e f =
      let (messages, w) = write_message_lem id bytes m p in
      (
        messages,
        ap (λ o. ◌>>=◌ (write_message faults id bytes o) (λ _. finish p.index_file) p) e
            ∙ ap (λ o. ◌>>=◌ (write_message faults id bytes (some m)) (λ _. finish o) p) f
            ∙ rw
                (
                  w,
                  write_index_entry_lem IoCall.write_index n (next_entry p id bytes) p.entries_count
                      (record p { messages = messages }),
                )
                refl,
      )
    where
      finish : Option ℕ → Action Unit
      finish o =
          write_index_file faults (next_entry p id bytes) p.entries_count o
          >> modify (record_entry (next_entry p id bytes) bytes)
