-- ===== src/Store/Partition/Losses.antt =====
-- What a failed call leaves behind.
use guble.Prelude.{
  ℕ, ◌+◌, ℕ_comparable, nat_eq_iff, nat_eq, ◌≡◌, ◌≢◌, refl, ap, sym, ◌∙◌, Bytes, [], ◌∷◌, ◌++◌,
  append-nil, find, remove, find-remove, none, some, true, false, arith, if◌then◌else◌, length,
  length-append,
}
use guble.Store.Partition.{
  Partition, io, nil_file, Result, ok, err, Action, Faults, open_index, write_data, write_header,
  file_number, pure, contents, append_to, ◌>>=◌, close_index_file, close_append_file,
  close_append_files, write_file_header, open_index_file, create_next_append_files, needs_file,
  renew, prepare, write_append, write_message, append_message, store,
}
use guble.Store.Partition.Keeps.{contents-append_to}
use guble.Store.Codec.{size_and_id}
use guble.Store.Partition.Stored.{Ready, length-size_and_id}

-- The only call that fails is the opening of the index file.
abbrev pub index_fails : Faults
index_fails open_index = true
index_fails call = false

close_none :
    (faults : Faults) (p : Partition)
    → p.append_file ≡ none
    → p.index_file ≡ none
    → close_append_files faults p ≡ (ok tt, p)
unfolding close_append_files close_append_file close_index_file ◌>>=◌
close_none faults p a i = ground arith

module _ (p : Partition) where
  -- The message file after it was opened, and removed again.
  abbrev removed : Partition
  removed = record p { messages = remove (append_to p.messages (file_number p) []) (file_number p) }

  create_removes :
      (b : ℕ) (rest : Bytes)
      → contents (append_to p.messages (file_number p) []) (file_number p) ≡ b ∷ rest
      → create_next_append_files index_fails p ≡ (ok tt, removed)
  unfolding create_next_append_files open_index_file write_file_header ◌>>=◌
  create_removes b rest e = rw (e, write_file_header)

  opened :
      contents (append_to p.messages (file_number p) []) (file_number p)
      ≡ contents p.messages (file_number p)
  opened =
      rw
        (
          contents-append_to p.messages (file_number p) (file_number p) [],
          (nat_eq_iff (file_number p) (file_number p)).1 refl,
        )
        (append-nil _)

  prepare_removes :
      (per_file b : ℕ) (rest : Bytes)
      → p.append_file ≡ none
      → p.index_file ≡ none
      → nat_eq p.entries_count per_file ≡ false
      → contents p.messages (file_number p) ≡ b ∷ rest
      → prepare per_file index_fails p ≡ (ok tt, removed)
  unfolding prepare ◌>>=◌
  prepare_removes per_file b rest a i c f =
      rw (needs, renew, close_none index_fails p a i, c) (create_removes b rest (opened ∙ f))
    where
      needs : needs_file per_file p ≡ true
      needs = unfold needs_file in ground arith

bind_ok :
    {A B : Type 0} (first : Action A) (next : A → Action B) (p q : Partition) (a : A)
    → first p ≡ (ok a, q)
    → (first >>= next) p ≡ next a q
unfolding ◌>>=◌
bind_ok first next p q a e = rw e

append_none :
    (faults : Faults) (id : ℕ) (bytes : Bytes) (q : Partition)
    → q.append_file ≡ none
    → append_message faults id bytes q ≡ (err nil_file, q)
unfolding append_message write_message write_append ◌>>=◌
append_none faults id bytes q e = ground arith

append_short :
    (faults : Faults) (id n : ℕ) (bytes : Bytes) (q : Partition)
    → q.append_file ≡ some n
    → faults write_header ≡ false
    → faults write_data ≡ true
    → append_message faults id bytes q
      ≡ (err (io write_data), record q { messages = append_to q.messages n (size_and_id id bytes) })
unfolding append_message write_message write_append ◌>>=◌
append_short faults id n bytes q e w d = ground arith

prepare-Ready :
    (per_file : ℕ) (faults : Faults) (p : Partition)
    → Ready p
    → p.entries_count ≢ per_file
    → prepare per_file faults p ≡ (ok tt, p)
unfolding prepare ◌>>=◌
prepare-Ready per_file faults p r c = rw needs (unfold pure in refl)
  where
    needs : needs_file per_file p ≡ false
    needs = unfold needs_file in ground arith

-- A partition with no open file, whose current message file has contents and is not full, is asked
-- to store a message while the index file cannot be opened: the store fails on a nil file, and the
-- message file with all its messages is gone.
pub store_removes_messages :
    (per_file id : ℕ) (bytes : Bytes) (p : Partition) (b : ℕ) (rest : Bytes)
    → p.append_file ≡ none
    → p.index_file ≡ none
    → p.entries_count ≢ per_file
    → contents p.messages (file_number p) ≡ b ∷ rest
    → ((store per_file index_fails id bytes p).0 ≡ err nil_file)
      × (find (store per_file index_fails id bytes p).1.messages (file_number p) ≡ none)
store_removes_messages per_file id bytes p b rest a i c f = (
  ap (λ (r : Result Unit × Partition). r.0) fails,
  ap (λ (r : Result Unit × Partition). find r.1.messages n) fails
      ∙ find-remove (append_to p.messages n []) n n
      ∙ ap (λ t. if t then none else find (append_to p.messages n []) n) ((nat_eq_iff n n).1 refl),
)
  where
    n : ℕ
    n = file_number p

    fails : store per_file index_fails id bytes p ≡ (err nil_file, removed p)
    fails =
        unfold store in
        bind_ok (prepare per_file index_fails) _ p (removed p) tt
          (prepare_removes p per_file b rest a i (ground arith) f)
        ∙ append_none index_fails id bytes (removed p) a

-- A message whose bytes cannot be written behind its size and id: the store fails, and the recorded
-- position is 12 bytes short of the end of the file, where the next message will be appended.
pub store_leaves_position :
    (per_file : ℕ) (faults : Faults) (id : ℕ) (bytes : Bytes) (p : Partition)
    → Ready p
    → p.entries_count ≢ per_file
    → faults write_header ≡ false
    → faults write_data ≡ true
    → ((store per_file faults id bytes p).0 ≡ err (io write_data))
      × ((store per_file faults id bytes p).1.append_file_position + 12
          ≡ length (contents (store per_file faults id bytes p).1.messages (file_number p)))
store_leaves_position per_file faults id bytes p r c w d = (
  ap (λ (r : Result Unit × Partition). r.0) fails,
  ap (λ (r : Result Unit × Partition). r.1.append_file_position + 12) fails
      ∙ short
      ∙ ap (λ (r : Result Unit × Partition). length (contents r.1.messages n)) (sym fails),
)
  where
    n : ℕ
    n = file_number p

    q : Partition
    q = record p { messages = append_to p.messages n (size_and_id id bytes) }

    fails : store per_file faults id bytes p ≡ (err (io write_data), q)
    fails =
        unfold store in
        bind_ok (prepare per_file faults) _ p p tt (prepare-Ready per_file faults p r c)
        ∙ append_short faults id n bytes p r.appends w d

    short : p.append_file_position + 12 ≡ length (contents q.messages n)
    short =
        omega (
          arith,
          r.at_end,
          length-append (contents p.messages n) (size_and_id id bytes),
          length-size_and_id id bytes,
        )
        ∙ ap length (
            sym (
              contents-append_to p.messages n n (size_and_id id bytes)
              ∙ ap
                  (λ t.
                    if t
                    then contents p.messages n ++ size_and_id id bytes
                    else contents p.messages n)
                  ((nat_eq_iff n n).1 refl)))
