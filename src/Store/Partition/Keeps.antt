-- ===== src/Store/Partition/Keeps.antt =====
-- Which actions keep every stored message readable.
use guble.Prelude.{
  ℕ, ℕ_comparable, nat_eq_iff, ◌≡◌, refl, Bytes, [], ◌∷◌, ◌++◌, Dict, find-put, Option, none, some,
  false, arith, if◌then◌else◌, nat_eq, Bool-cases, inl, inr,
}
use guble.Store.Codec.{read_at}
use guble.Store.Codec.Files.{read_at-append}
use guble.Store.Partition.{
  Partition, Faults, IoCall, open_index, next_entry, modify, contents, append_to, close_index_file,
  close_append_file, close_append_files, write_file_header, adopt_append_files, open_index_file,
  create_next_append_files, needs_file, renew, prepare, write_append, write_message, record_entry,
  append_message, store,
}
use guble.Store.Partition.Outcome.{
  Keeps, Keeps-bind, Keeps-pure, Keeps-fail, Keeps-get, Keeps-attempt, Keeps-modify, Keeps-if,
  keeps_rules, Indifferent, roll_over-Keeps, write_index_file-Keeps, Ensures-both,
}

-- `size` bytes at `offset` of message file `file`.
abbrev pub Readable : Partition → ℕ → ℕ → ℕ → Bytes → Type 0
Readable p file offset size bytes = read_at (contents p.messages file) offset size ≡ some bytes

pub record Kept (p q : Partition) : Type 0 where
  pub still :
      (file offset size : ℕ) (bytes : Bytes)
      → Readable p file offset size bytes
      → Readable q file offset size bytes

Kept-refl : (p : Partition) → Kept p p
Kept-refl p = record { still = λ file offset size bytes h. h }

pub Kept-trans : (p q r : Partition) → Kept p q → Kept q r → Kept p r
Kept-trans p q r h k = record {
  still =
      λ file offset size bytes m. k.still file offset size bytes (h.still file offset size bytes m);
}

pub contents-append_to :
    (files : Dict ℕ Bytes) (n m : ℕ) (bytes : Bytes)
    → contents (append_to files n bytes) m
      ≡ (if nat_eq n m then contents files n ++ bytes else contents files m)
contents-append_to files n m bytes = ground (arith, find-put files n (contents files n ++ bytes) m)

Kept-append_to :
    (p : Partition) (n : ℕ) (bytes : Bytes) (q : Partition)
    → q.messages ≡ append_to p.messages n bytes
    → Kept p q
Kept-append_to p n bytes q e = record {
  still = λ file offset size b h.
      rw (e, contents-append_to p.messages n file bytes)
        (elim (Bool-cases (nat_eq n file)) [
          | inl t ↦
              rw (t, (nat_eq_iff n file).0 t)
                (read_at-append (contents p.messages file) bytes offset size h)
          | inr f ↦ rw f h
        ]);
}

-- Seen from the partition `p`, all that the store does before it appends and after.
module _ (p : Partition) (faults : Faults) where
  free : Indifferent (Kept p)
  free = record {
    indexes = λ q files h. record { still = h.still };
    rolled = λ q cache h. record { still = h.still };
  }

  appending :
      (n : ℕ) (bytes : Bytes)
      → Keeps (Kept p) (modify (λ q. record q { messages = append_to q.messages n bytes }))
  appending n bytes = Keeps-modify _ (λ q h. Kept-trans p q _ h (Kept-append_to q n bytes _ refl))

  close_index_file-Keeps : (n : Option ℕ) → Keeps (Kept p) (close_index_file faults n)
  unfolding close_index_file
  close_index_file-Keeps none = Keeps-pure tt
  close_index_file-Keeps (some n) =
      Keeps-bind (Keeps-modify _ (λ q h. record { still = h.still })) (λ _. Keeps-attempt faults _)

  close_append_file-Keeps : (n : Option ℕ) → Keeps (Kept p) (close_append_file faults n)
  unfolding close_append_file
  close_append_file-Keeps none = Keeps-pure tt
  close_append_file-Keeps (some n) =
      Keeps-bind (Keeps-attempt faults _) (λ _. Keeps-modify _ (λ q h. record { still = h.still }))

  close_append_files-Keeps : Keeps (Kept p) (close_append_files faults)
  unfolding close_append_files
  close_append_files-Keeps = search (keeps_rules, close_append_file-Keeps, close_index_file-Keeps)

  write_file_header-Keeps :
      (n : ℕ) (bytes : Bytes) → Keeps (Kept p) (write_file_header faults n bytes)
  unfolding write_file_header
  write_file_header-Keeps n (b ∷ bytes) = Keeps-pure tt
  write_file_header-Keeps n [] =
      Keeps-bind (Keeps-modify _ (λ q h. record { still = h.still }))
        (λ _. search (keeps_rules, appending) depth 12)

  adopt_append_files-Keeps : (n : ℕ) → Keeps (Kept p) (adopt_append_files faults n)
  unfolding adopt_append_files
  adopt_append_files-Keeps n = Keeps-bind (Keeps-modify _ (λ q h. record { still = h.still })) λ _.
      Keeps-bind (Keeps-attempt faults _) λ _. Keeps-modify _ (λ q h. record { still = h.still })

  write_append-Keeps :
      (call : IoCall) (bytes : Bytes) (n : Option ℕ)
      → Keeps (Kept p) (write_append faults call bytes n)
  unfolding write_append
  write_append-Keeps call bytes none = Keeps-fail _
  write_append-Keeps call bytes (some n) = search (keeps_rules, appending)

  write_message-Keeps :
      (id : ℕ) (bytes : Bytes) (n : Option ℕ) → Keeps (Kept p) (write_message faults id bytes n)
  unfolding write_message
  write_message-Keeps id bytes n = search (keeps_rules, write_append-Keeps)

  append_message-Keeps : (id : ℕ) (bytes : Bytes) → Keeps (Kept p) (append_message faults id bytes)
  unfolding append_message
  append_message-Keeps id bytes = Keeps-bind Keeps-get λ q.
      Keeps-bind (write_message-Keeps id bytes q.append_file) λ _.
        Keeps-bind
          (write_index_file-Keeps faults free.indexes (next_entry q id bytes) q.entries_count
            q.index_file)
          λ _. Keeps-modify _ (λ r h. record { still = unfold record_entry in h.still })

  module _ (opens : faults open_index ≡ false) where
    open_index_file-Keeps : (n : ℕ) → Keeps (Kept p) (open_index_file faults n)
    unfolding open_index_file
    open_index_file-Keeps n = rw opens (
        Keeps-bind (Keeps-modify _ (λ q h. record { still = h.still }))
          (λ _. adopt_append_files-Keeps n))

    create_next_append_files-Keeps : Keeps (Kept p) (create_next_append_files faults)
    unfolding create_next_append_files
    create_next_append_files-Keeps =
        search (keeps_rules, appending, write_file_header-Keeps, open_index_file-Keeps) depth 12

    renew-Keeps : (per_file : ℕ) → Keeps (Kept p) (renew per_file faults)
    unfolding renew
    renew-Keeps per_file = Keeps-bind close_append_files-Keeps λ _. Keeps-bind Keeps-get λ q.
        Keeps-bind
          (Keeps-if (nat_eq q.entries_count per_file) (roll_over-Keeps faults free) (Keeps-pure tt))
          λ _. create_next_append_files-Keeps

    prepare-Keeps : (per_file : ℕ) → Keeps (Kept p) (prepare per_file faults)
    unfolding prepare
    prepare-Keeps per_file =
        Keeps-bind Keeps-get
          λ q. Keeps-if (needs_file per_file q) (renew-Keeps per_file) (Keeps-pure tt)

    store-Keeps :
        (per_file id : ℕ) (bytes : Bytes) → Keeps (Kept p) (store per_file faults id bytes)
    unfolding store
    store-Keeps per_file id bytes =
        Keeps-bind (prepare-Keeps per_file) (λ _. append_message-Keeps id bytes)

-- Whatever calls fail, other than the opening of the index file, a store leaves every message
-- readable at its file, offset and size.
pub store-Kept :
    (per_file : ℕ) (faults : Faults) (id : ℕ) (bytes : Bytes) (p : Partition)
    → faults open_index ≡ false
    → Kept p (store per_file faults id bytes p).1
store-Kept per_file faults id bytes p opens =
    Ensures-both (Kept p) (store per_file faults id bytes p)
      ((store-Keeps p faults opens per_file id bytes).at p (Kept-refl p))
