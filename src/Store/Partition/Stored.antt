-- ===== src/Store/Partition/Stored.antt =====
-- A store that succeeds: the message can be read where its index entry says, whatever calls
-- failed on the way.
use mathlib.Core.Path.{subst}
use guble.Prelude.{
  ℕ, ◌+◌, ◌%◌, ◌^◌, ◌≤◌, ℕ_comparable, nat_eq_iff, ◌≡◌, refl, ap, sym, ◌∙◌, Bytes, [], ◌∷◌, ◌++◌,
  put, Option, none, some, true, false, ◌||◌, List, arith, if◌then◌else◌, nat_eq, Bool-cases, ◌⊎◌,
  inl, inr, length, length-append,
}
use guble.Store.Index.{Index, insert_elem}
use guble.Store.Codec.{read_at, put_uint, size_and_id}
use guble.Store.Codec.RoundTrip.{length-put_uint}
use guble.Store.Codec.Files.{read_at-end}
use guble.Store.Partition.{
  new_partition, Partition, ok, Action, Faults, IoCall, open_index, write_header, write_data,
  next_entry, file_number, modify, pure, get, contents, append_to, ◌>>=◌, ◌>>◌, close_index_file,
  close_append_file, close_append_files, write_file_header, adopt_append_files, open_index_file,
  create_next_append_files, roll_over, is_nil, needs_file, renew, prepare, write_append,
  write_message, write_index_file, record_entry, append_message, store,
}
use guble.Store.Partition.Outcome.{
  Ensures, Ensures-bind, Ensures-attempt, Ensures-imp, Keeps, Keeps-bind, Keeps-pure, Keeps-get,
  Keeps-attempt, Keeps-modify, Keeps-if, Indifferent, roll_over-Keeps, write_index_file-Keeps,
}
use guble.Store.Partition.Keeps.{Readable, contents-append_to}

-- Both files are open, and the position is the end of the message file.
pub record Ready (p : Partition) : Type 0 where
  pub appends : p.append_file ≡ some (file_number p)
  pub indexes_to : p.index_file ≡ some (file_number p)
  pub at_end : p.append_file_position ≡ length (contents p.messages (file_number p))

-- What holds between operations: a file is missing, or the partition is ready.
abbrev pub Inv : Partition → Type 0
Inv p = ((is_nil p.append_file || is_nil p.index_file) ≡ true) ⊎ Ready p

pub new_partition-Inv : Inv new_partition
unfolding is_nil
new_partition-Inv = inl refl

-- What `prepare` leaves; a failure to open the index file leaves no file to append to.
abbrev Prepared : Partition → Type 0
Prepared p = (p.append_file ≡ none) ⊎ Ready p

abbrev Any : Partition → Type 0
Any p = Unit

abbrev Closed : ℕ → Partition → Type 0
Closed n p = (p.append_file ≡ none) × (file_number p ≡ n)

abbrev NoAppend : Partition → Type 0
NoAppend p = p.append_file ≡ none

-- What the first action keeps may be used by the rest.
module _ {A B : Type 0} (P : Partition → Type 0) (Good : B → Partition → Type 0) where
  after :
      (first : Action A) (next : A → Action B) (p : Partition)
      → Keeps P first
      → P p
      → ((a : A) (q : Partition) → P q → Ensures Good Any (next a q))
      → Ensures Good Any ((first >>= next) p)
  after first next p k h f =
      Ensures-bind Good Any first next p
        (Ensures-imp (λ a q. P q) _ P Any f (λ q _. tt) (first p) (k.at p h))

module _ (faults : Faults) where
  close_append_file-NoAppend :
      (o : Option ℕ) (p : Partition)
      → p.append_file ≡ o
      → Ensures (λ a q. NoAppend q) Any (close_append_file faults o p)
  unfolding close_append_file pure modify
  close_append_file-NoAppend none p e = e
  close_append_file-NoAppend (some n) p e =
      Ensures-bind (λ a q. NoAppend q) Any _ _ p (Ensures-attempt _ Any faults _ p refl tt)

  close_index_file-NoAppend : (o : Option ℕ) → Keeps NoAppend (close_index_file faults o)
  unfolding close_index_file
  close_index_file-NoAppend none = Keeps-pure tt
  close_index_file-NoAppend (some n) =
      Keeps-bind (Keeps-modify _ (λ p h. h)) (λ _. Keeps-attempt faults _)

  close_append_files-NoAppend :
      (p : Partition) → Ensures (λ a q. NoAppend q) Any (close_append_files faults p)
  unfolding close_append_files
  close_append_files-NoAppend p =
      Ensures-bind (λ a q. NoAppend q) Any get _ p
        (unfold get in
          Ensures-bind (λ a q. NoAppend q) Any (close_append_file faults p.append_file) _ p
            (Ensures-imp (λ a q. NoAppend q) _ Any Any
              (λ a q h.
                Ensures-imp (λ b r. NoAppend r) (λ b r. NoAppend r) NoAppend Any (λ b r k. k)
                  (λ r k. tt) _ ((close_index_file-NoAppend p.index_file).at q h))
              (λ q _. tt) _ (close_append_file-NoAppend p.append_file p refl)))

  adopt-Ready :
      (n : ℕ) (p : Partition)
      → file_number p ≡ n
      → Ensures (λ a q. Ready q) Any (adopt_append_files faults n p)
  unfolding adopt_append_files modify
  adopt-Ready n p e =
      Ensures-bind (λ a q. Ready q) Any _ _ p
        (Ensures-bind (λ a q. Ready q) Any _ _
          (record p { append_file = some n; index_file = some n })
          (Ensures-attempt _ Any faults _ _
            (record {
              appends = ap some (sym e);
              indexes_to = ap some (sym e);
              at_end = ap (λ m. length (contents p.messages m)) (sym e);
            })
            tt))

  open_index_file-Prepared :
      (n : ℕ) (p : Partition)
      → Closed n p
      → Ensures (λ a q. Prepared q) Any (open_index_file faults n p)
  unfolding open_index_file
  open_index_file-Prepared n p h = elim (Bool-cases (faults open_index)) [
    | inl t ↦ rw t (unfold modify in inl h.0)
    | inr f ↦ rw f (
        Ensures-bind (λ a q. Prepared q) Any _ _ p
          (unfold modify in
            Ensures-imp (λ a q. Ready q) (λ a q. Prepared q) Any Any (λ a q r. inr r) (λ q b. tt) _
              (adopt-Ready n (record p { indexes = put p.indexes n (contents p.indexes n) }) h.1)))
  ]

  write_file_header-Closed :
      (k n : ℕ) (bytes : Bytes) → Keeps (Closed k) (write_file_header faults n bytes)
  unfolding write_file_header
  write_file_header-Closed k n (b ∷ bytes) = Keeps-pure tt
  write_file_header-Closed k n [] = Keeps-bind (Keeps-modify _ (λ p h. h)) λ _.
      Keeps-bind (Keeps-attempt faults _) λ _.
        Keeps-bind (Keeps-modify _ (λ p h. h))
          λ _. Keeps-bind (Keeps-attempt faults _) λ _. Keeps-modify _ (λ p h. h)

  create-Prepared :
      (p : Partition)
      → NoAppend p
      → Ensures (λ a q. Prepared q) Any (create_next_append_files faults p)
  unfolding create_next_append_files
  create-Prepared p h =
      Ensures-bind (λ a q. Prepared q) Any get _ p
        (unfold get in
          after (Closed n) (λ a q. Prepared q) _ _ p (Keeps-attempt faults _) (h, refl)
            λ _ q hq.
              after (Closed n) (λ a q. Prepared q) _ _ q (Keeps-modify _ (λ r hr. hr)) hq
                λ _ r hr.
                  after (Closed n) (λ a q. Prepared q) _ _ r Keeps-get hr
                    λ t u hu.
                      after (Closed n) (λ a q. Prepared q) _ _ u (write_file_header-Closed n n _) hu
                        λ _ v hv. open_index_file-Prepared n v hv)
    where
      n : ℕ
      n = file_number p

  indifferent : Indifferent NoAppend
  indifferent = record { indexes = λ p files h. h; rolled = λ p cache h. h }

  renew-Prepared :
      (per_file : ℕ) (p : Partition) → Ensures (λ a q. Prepared q) Any (renew per_file faults p)
  unfolding renew
  renew-Prepared per_file p =
      Ensures-bind (λ a q. Prepared q) Any _ _ p
        (Ensures-imp (λ a q. NoAppend q) _ Any Any rest (λ q _. tt) _
          (close_append_files-NoAppend p))
    where
      rest :
          (a : Unit {0}) (q : Partition)
          → NoAppend q
          → Ensures
              (λ a r. Prepared r)
              Any
              ((do
                r ← get
                (if nat_eq r.entries_count per_file then roll_over faults else pure tt)
                create_next_append_files faults)
                q)
      rest _ q h =
          after NoAppend (λ a r. Prepared r) _ _ q Keeps-get h
            λ r s k.
              after NoAppend (λ a r. Prepared r) _ _ s
                (Keeps-if (nat_eq r.entries_count per_file) (roll_over-Keeps faults indifferent)
                  (Keeps-pure tt))
                k λ _ u l. create-Prepared u l

  prepare-Prepared :
      (per_file : ℕ) (p : Partition)
      → Inv p
      → Ensures (λ a q. Prepared q) Any (prepare per_file faults p)
  unfolding prepare
  prepare-Prepared per_file p v =
      Ensures-bind (λ a q. Prepared q) Any get _ p
        (unfold get in
          elim (Bool-cases (needs_file per_file p)) [
            | inl t ↦ rw t (renew-Prepared per_file p)
            | inr f ↦ rw f (unfold pure in inr (ready v f))
          ])
    where
      ready : Inv p → needs_file per_file p ≡ false → Ready p
      ready (inr r) f = r
      ready (inl missing) f = absurd (unfold needs_file in ground arith)

pub length-size_and_id : (id : ℕ) (bytes : Bytes) → length (size_and_id id bytes) ≡ 12
unfolding size_and_id
length-size_and_id id bytes = omega (
  arith,
  length-append (put_uint 4 (length bytes)) (put_uint 8 id),
  length-put_uint 4 (length bytes),
  length-put_uint 8 id,
)

-- What a successful store leaves: the partition is ready, its list holds an entry of the message's
-- id in place of no other, and the message can be read at that entry.
pub record Stored (id : ℕ) (bytes : Bytes) (p : Partition) : Type 0 where
  pub entry : Index
  pub others : List Index
  pub ready : Ready p
  pub listed : p.list ≡ insert_elem entry others
  pub has_id : entry.id ≡ id
  pub has_size : entry.size ≡ length bytes % 2 ^ 32
  pub readable : Readable p entry.file_id entry.offset (length bytes) bytes
  pub at_most_max : id ≤ p.max_message_id

module _ (faults : Faults) (id : ℕ) (bytes : Bytes) where
  -- The partition after the message is written, but for the index files.
  record Written (n : ℕ) (p q : Partition) : Type 0 where
    appends : q.append_file ≡ p.append_file
    indexes_to : q.index_file ≡ p.index_file
    position : q.append_file_position ≡ p.append_file_position
    list : q.list ≡ p.list
    cache : q.file_cache ≡ p.file_cache
    messages : q.messages ≡ append_to (append_to p.messages n (size_and_id id bytes)) n bytes

  write_append-some :
      (Good : Unit {0} → Partition → Type 0) (call : IoCall) (b : Bytes) (n : ℕ) (p : Partition)
      → Good tt (record p { messages = append_to p.messages n b })
      → Ensures Good Any (write_append faults call b (some n) p)
  unfolding write_append modify
  write_append-some Good call b n p g =
      Ensures-bind Good Any _ _ p (Ensures-attempt _ Any faults call p g tt)

  write_message-Written :
      (n : ℕ) (p : Partition)
      → Ensures (λ a q. Written n p q) Any (write_message faults id bytes (some n) p)
  unfolding write_message
  write_message-Written n p =
      Ensures-bind (λ a q. Written n p q) Any _ _ p
        (write_append-some _ write_header (size_and_id id bytes) n p (
          write_append-some (λ a q. Written n p q) write_data bytes n _
            (record {
              appends = refl;
              indexes_to = refl;
              position = refl;
              list = refl;
              cache = refl;
              messages = refl;
            })))

  write_message-none :
      (Good : Unit {0} → Partition → Type 0) (p : Partition)
      → Ensures Good Any (write_message faults id bytes none p)
  unfolding write_message write_append ◌>>=◌
  write_message-none Good p = tt

  contents-Written :
      (n : ℕ) (p q : Partition)
      → Written n p q
      → contents q.messages n ≡ contents p.messages n ++ size_and_id id bytes ++ bytes
  contents-Written n p q w = rw (
    w.messages,
    contents-append_to (append_to p.messages n (size_and_id id bytes)) n n bytes,
    contents-append_to p.messages n n (size_and_id id bytes),
    (nat_eq_iff n n).1 refl,
  )

  record_entry-Stored :
      (p q : Partition)
      → Ready p
      → Written (file_number p) p q
      → Stored id bytes (record_entry (next_entry p id bytes) bytes q)
  unfolding record_entry
  record_entry-Stored p q v w = record {
    entry = next_entry p id bytes;
    others = q.list;
    ready = record {
      appends = w.appends ∙ v.appends ∙ ap some (sym same);
      indexes_to = w.indexes_to ∙ v.indexes_to ∙ ap some (sym same);
      at_end = omega (arith, w.position, total);
    };
    listed = refl;
    has_id = refl;
    has_size = refl;
    readable =
        ap (λ f. read_at f (p.append_file_position + 12) (length bytes)) (contents-Written n p q w)
        ∙ read_at-end (contents p.messages n ++ size_and_id id bytes) bytes _ before;
    at_most_max = ground arith;
  }
    where
      n : ℕ
      n = file_number p

      same : length q.file_cache ≡ n
      same = ap length w.cache

      before : length (contents p.messages n ++ size_and_id id bytes) ≡ p.append_file_position + 12
      before = omega (
        arith,
        length-append (contents p.messages n) (size_and_id id bytes),
        length-size_and_id id bytes,
        v.at_end,
      )

      total :
          length (contents q.messages (length q.file_cache))
          ≡ p.append_file_position + 12 + length bytes
      total =
          ap length (ap (contents q.messages) same ∙ contents-Written n p q w)
          ∙ omega
              (arith, length-append (contents p.messages n ++ size_and_id id bytes) bytes, before)

  write_message-Prepared :
      (p : Partition)
      → Prepared p
      → Ensures
          (λ a q. Ready p × Written (file_number p) p q)
          Any
          (write_message faults id bytes p.append_file p)
  write_message-Prepared p (inl missing) =
      subst
        (λ o.
          Ensures (λ a q. Ready p × Written (file_number p) p q) Any
            (write_message faults id bytes o p))
        (sym missing) (write_message-none _ p)
  write_message-Prepared p (inr r) =
      subst
        (λ o.
          Ensures (λ a q. Ready p × Written (file_number p) p q) Any
            (write_message faults id bytes o p))
        (sym r.appends)
        (Ensures-imp (λ a q. Written (file_number p) p q) _ Any Any (λ a q w. (r, w)) (λ q _. tt) _
          (write_message-Written (file_number p) p))

  append_message-Stored :
      (p : Partition)
      → Prepared p
      → Ensures (λ a q. Stored id bytes q) Any (append_message faults id bytes p)
  unfolding append_message
  append_message-Stored p v =
      Ensures-bind (λ a q. Stored id bytes q) Any get _ p
        (unfold get in
          Ensures-bind (λ a q. Stored id bytes q) Any (write_message faults id bytes p.append_file)
            _ p
            (Ensures-imp (λ a q. Ready p × Written (file_number p) p q) _ Any Any
              (λ a q w. rest w.0 q w.1) (λ q _. tt) _ (write_message-Prepared p v)))
    where
      rest :
          Ready p
          → (q : Partition) → Written (file_number p) p q
          → Ensures
              (λ a r. Stored id bytes r)
              Any
              ((do
                write_index_file faults (next_entry p id bytes) p.entries_count p.index_file
                modify (record_entry (next_entry p id bytes) bytes))
                q)
      rest r q w =
          after (Written (file_number p) p) (λ a u. Stored id bytes u) _ _ q
            (write_index_file-Keeps faults
              (λ u files k. record {
                appends = k.appends;
                indexes_to = k.indexes_to;
                position = k.position;
                list = k.list;
                cache = k.cache;
                messages = k.messages;
              })
              (next_entry p id bytes) p.entries_count p.index_file)
            w λ _ u k. unfold modify in record_entry-Stored p u r k

  pub store-Ensures :
      (per_file : ℕ) (p : Partition)
      → Inv p
      → Ensures (λ a q. Stored id bytes q) Any (store per_file faults id bytes p)
  unfolding store
  store-Ensures per_file p v =
      Ensures-bind (λ a q. Stored id bytes q) Any _ _ p
        (Ensures-imp (λ a q. Prepared q) _ Any Any (λ _ q w. append_message-Stored q w) (λ q _. tt)
          _ (prepare-Prepared faults per_file p v))

-- If a store returns without an error, whatever calls failed, then the message can be read at the
-- entry that the list got for it, the entry holds its id and its size as a uint32, the highest id
-- is at least this id, and the partition is ready for the next message. The partition had no open
-- file before, or was ready.
pub store-Stored :
    (per_file : ℕ) (faults : Faults) (id : ℕ) (bytes : Bytes) (p q : Partition)
    → Inv p
    → store per_file faults id bytes p ≡ (ok tt, q)
    → Stored id bytes q
store-Stored per_file faults id bytes p q v e =
    subst (Ensures (λ a r. Stored id bytes r) Any) e (store-Ensures faults id bytes per_file p v)
