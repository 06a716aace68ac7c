-- ===== src/Store/MessageStore/Storing.antt =====
-- A message that was stored can be read in the partition of its path.
use mathlib.Core.Path.{subst}
use guble.Prelude.{
  ℕ, ◌+◌, ◌/◌, ◌%◌, ◌^◌, ltb, ◌≡◌, refl, ap, sym, ◌∙◌, Bytes, bytes_comparable, find, put, find-put,
  ◌≟◌, ≟-refl, Option, none, some, Bool, true, false, ◌||◌, if◌then◌else◌, nat_eq, length,
  Bool-cases, Option-cases, inl, inr,
}
use guble.Protocol.Split.{partition}
use guble.Protocol.Decimal.{pos}
use guble.Protocol.Message.{Message, Json, message_bytes}
use guble.Store.Partition.{Partition, Result, ok, err, Action, Faults, store}
use guble.Store.Partition.Stored.{Inv, Stored, store-Ensures}
use guble.Store.Partition.Outcome.{Ensures, Ensures-imp}
use guble.Store.MessageId.{guble_epoch, compose_id, generate_next_msg_id}
use guble.Store.MessageStore.{
  FileMessageStore, get_partition, run_on, on_partition, store_in, sized, store_bytes,
  store_generated, store_message,
}

-- Every partition is as it is between operations.
pub record AllInv (fms : FileMessageStore) : Type 0 where
  pub each : (name : Bytes) (p : Partition) → find fms.partitions name ≡ some p → Inv p

-- A returned value, of which `Good` holds with the partition that its operation left.
abbrev After :
    {A : Type 0} → (A → Partition → Type 0) → Bytes → Result A × FileMessageStore → Type 0
After Good name (ok a, fms) =
    ((q : Partition) × ((find fms.partitions name ≡ some q) × Good a q)) × AllInv fms
After Good name (err e, fms) = Unit

abbrev Any : Partition → Type 0
Any p = Unit

put-AllInv :
    (fms : FileMessageStore) (name : Bytes) (p : Partition)
    → AllInv fms
    → Inv p
    → AllInv (record { partitions = put fms.partitions name p })
put-AllInv fms name p a i = record {
  each =
      λ other q e. chosen other q (name ≟ other) (sym (find-put fms.partitions name p other) ∙ e);
}
  where
    chosen :
        (other : Bytes) (q : Partition) (b : Bool)
        → (if b then some p else find fms.partitions other) ≡ some q
        → Inv q
    chosen other q true e = subst from e i
      where
        from : Option Partition → Type 0
        from none = Unit
        from (some r) = Inv r
    chosen other q false e = a.each other q e

-- A message of another node stays as it is. One that this node is the first to store, or that no node
-- of a cluster does, gets an id of the clock's reading, the node and a sequence number, the time of that
-- reading in seconds, and the node; all else stays.
abbrev pub Stamped : Bool → ℕ → ℕ → ℕ → Message → Message → Type 0
Stamped false nanos node_id sequence message stored = stored ≡ message
Stamped true nanos node_id sequence message stored = stored ≡ record message {
  id = compose_id nanos node_id sequence;
  time = pos (nanos / 1000000000);
  node_id = node_id;
}

-- The sequence number of the partition that the store has, or else opens, for a name.
abbrev pub sequence_held : Option Partition → Result Partition → ℕ
sequence_held (some p) r = p.sequence_number
sequence_held none (ok p) = p.sequence_number
sequence_held none (err e) = 0

abbrev pub sequence_of : (Bytes → Result Partition) → Bytes → FileMessageStore → ℕ
sequence_of opened name fms = sequence_held (find fms.partitions name) (opened name)

abbrev pub is_first : ℕ → Message → Bool
is_first node_id message = nat_eq node_id 0 || nat_eq message.node_id 0

-- Where a message is found that was stored.
abbrev pub StoredIn : Json → Result ℕ × (Message × FileMessageStore) → Type 0
StoredIn json (err e, (message, fms)) = Unit
StoredIn json (ok n, (message, fms)) =
    (n ≡ length (message_bytes json message))
    × ((q : Partition) × ((find fms.partitions (partition message.path) ≡ some q)
          × Stored message.id (message_bytes json message) q))

-- What was stored is the message that was handed in, with its stamp.
abbrev pub StampedIn : Json → ℕ → ℕ → ℕ → Message → Result ℕ × (Message × FileMessageStore) → Type 0
StampedIn json nanos node_id sequence message (err e, (stored, fms)) = Unit
StampedIn json nanos node_id sequence message (ok n, (stored, fms)) =
    Stamped (is_first node_id message) nanos node_id sequence message stored
    × StoredIn json (ok n, (stored, fms))

StampedIn-ok :
    (json : Json) (nanos node_id sequence : ℕ) (message : Message)
    (r : Result ℕ × (Message × FileMessageStore))
    → Stamped (is_first node_id message) nanos node_id sequence message r.1.0
    → StoredIn json r
    → StampedIn json nanos node_id sequence message r
StampedIn-ok json nanos node_id sequence message (err e, (stored, fms)) s h = tt
StampedIn-ok json nanos node_id sequence message (ok n, (stored, fms)) s h = (s, h)

module _ (opened : Bytes → Result Partition)
    (fresh : (name : Bytes) (p : Partition) → opened name ≡ ok p → Inv p) where
  abbrev Got : ℕ → Result Partition × FileMessageStore → Type 0
  Got sequence (ok p, fms) = (Inv p × (p.sequence_number ≡ sequence)) × AllInv fms
  Got sequence (err e, fms) = Unit

  get_partition-Got :
      (name : Bytes) (fms : FileMessageStore)
      → AllInv fms
      → Got (sequence_of opened name fms) (get_partition opened name fms)
  unfolding get_partition
  get_partition-Got name fms a = elim (Option-cases (find fms.partitions name)) [
    | inr (q, f) ↦ rw (get_partition, f) ((a.each name q f, refl), a)
    | inl f ↦ rw (get_partition, f) (of_opened (opened name) refl)
  ]
    where
      of_opened :
          (r : Result Partition)
          → opened name ≡ r
          → Got (sequence_held none r) (elim r [
            | err e ↦ (err e, fms)
            | ok p ↦ (ok p, record { partitions = put fms.partitions name p })
          ])
      of_opened (err e) h = tt
      of_opened (ok p) h = ((fresh name p h, refl), put-AllInv fms name p a (fresh name p h))

  on_partition-After :
      {A : Type 0} (Good : A → Partition → Type 0) (name : Bytes) (action : Action A)
      (fms : FileMessageStore)
      → ((p : Partition)
          → Inv p
          → p.sequence_number ≡ sequence_of opened name fms
          → Ensures (λ a q. Good a q × Inv q) Any (action p))
      → AllInv fms
      → After Good name (on_partition opened name action fms)
  unfolding on_partition
  on_partition-After {A} Good name action fms h a =
      go (get_partition opened name fms) (get_partition-Got name fms a)
    where
      ran :
          (fms' : FileMessageStore)
          → AllInv fms'
          → (r : Result A × Partition) → Ensures (λ a q. Good a q × Inv q) Any r
          → After Good name (r.0, record { partitions = put fms'.partitions name r.1 })
      ran fms' a' (err e, q) g = tt
      ran fms' a' (ok b, q) g = (
        (
          q,
          (
            find-put fms'.partitions name q name
                ∙ ap (λ t. if t then some q else find fms'.partitions name) (≟-refl name),
            g.0,
          ),
        ),
        put-AllInv fms' name q a' g.1,
      )

      go :
          (r : Result Partition × FileMessageStore)
          → Got (sequence_of opened name fms) r
          → After Good name (run_on opened name action r)
      go (err e, fms') g = tt
      go (ok p, fms') g = ran fms' g.1 (action p) (h p g.0.0 g.0.1)

  module _ (json : Json) (per_file : ℕ) (faults : Faults) where
    store_bytes-StoredIn :
        (message : Message) (fms : FileMessageStore)
        → AllInv fms
        → StoredIn json (store_bytes opened json per_file faults message fms)
    unfolding store_bytes store_in
    store_bytes-StoredIn message fms a =
        go
          (on_partition opened (partition message.path)
            (store per_file faults message.id (message_bytes json message)) fms)
          (on_partition-After (λ u q. Stored message.id (message_bytes json message) q) _ _ fms
            (λ p v e.
              Ensures-imp (λ u q. Stored message.id (message_bytes json message) q) _ Any Any
                (λ u q s. (s, inr s.ready)) (λ q u. u) _
                (store-Ensures faults message.id (message_bytes json message) per_file p v))
            a)
      where
        go :
            (r : Result (Unit {0}) × FileMessageStore)
            → After
                (λ u q. Stored message.id (message_bytes json message) q)
                (partition message.path)
                r
            → StoredIn json
                (sized opened json per_file faults (length (message_bytes json message)) message r)
        go (err e, fms') h = tt
        go (ok u, fms') h = (refl, h.0)

    -- What is generated: an id of the clock's reading, and the time in seconds.
    abbrev Generated : ℕ → ℕ → ℕ → ℕ × ℕ → Partition → Type 0
    Generated nanos node_id sequence g q =
        g ≡ (compose_id nanos node_id sequence, nanos / 1000000000)

    generate-Ensures :
        (nanos node_id sequence : ℕ) (p : Partition)
        → Inv p
        → p.sequence_number ≡ sequence
        → Ensures
            (λ a q. Generated nanos node_id sequence a q × Inv q)
            Any
            (generate_next_msg_id nanos node_id p)
    unfolding generate_next_msg_id
    generate-Ensures nanos node_id sequence p v e = elim (Bool-cases (ltb nanos guble_epoch)) [
      | inl t ↦ rw t tt
      | inr f ↦ rw f (ap (λ n. (compose_id nanos node_id n, nanos / 1000000000)) e, counted v)
    ]
      where
        counted : Inv p → Inv (record p { sequence_number = (p.sequence_number + 1) % 2 ^ 64 })
        counted (inl missing) = inl missing
        counted (inr r) =
            inr (record { appends = r.appends; indexes_to = r.indexes_to; at_end = r.at_end })

    store_bytes-message :
        (message : Message) (fms : FileMessageStore)
        → (store_bytes opened json per_file faults message fms).1.0 ≡ message
    unfolding store_bytes
    store_bytes-message message fms = kept (
        store_in opened json per_file faults (partition message.path) message.id
          (message_bytes json message) fms)
      where
        kept :
            (r : Result (Unit {0}) × FileMessageStore)
            → (sized opened json per_file faults
                (length (message_bytes json message))
                message
                r).1.0
              ≡ message
        kept (err e, fms') = refl
        kept (ok u, fms') = refl

    -- If storing a message returns without an error, whatever calls failed, then what was stored is the
    -- message that was handed in, with an id of the clock, the node and the sequence number of its partition,
    -- a new time and the node if this node is its first, and unchanged otherwise; the size is that of its text, and the text can be read in the partition of the path, at
    -- an entry of its id. Partitions had no open file before or were ready, also those opened now.
    pub store_message-StampedIn :
        (nanos node_id : ℕ) (message : Message) (fms : FileMessageStore)
        → AllInv fms
        → StampedIn json nanos node_id
            (sequence_of opened (partition message.path) fms)
            message
            (store_message opened json per_file faults nanos message node_id fms)
    unfolding store_message
    store_message-StampedIn nanos node_id message fms a = chosen (is_first node_id message) refl
      where
        sequence : ℕ
        sequence = sequence_of opened (partition message.path) fms

        generated :
            is_first node_id message ≡ true
            → (r : Result (ℕ × ℕ) × FileMessageStore)
            → After (Generated nanos node_id sequence) (partition message.path) r
            → StampedIn json nanos node_id sequence message
                (store_generated opened json per_file faults node_id message r)
        generated t (err e, fms') h = tt
        generated t (ok (id, timestamp), fms') ((q, (f, g)), h) =
            let stamped : Message = record message {
              id = id;
              time = pos timestamp;
              node_id = node_id;
            } in
            StampedIn-ok json nanos node_id sequence message
              (store_bytes opened json per_file faults stamped fms')
              (subst
                (λ b.
                  Stamped b nanos node_id sequence message
                    (store_bytes opened json per_file faults stamped fms').1.0)
                (sym t)
                (store_bytes-message stamped fms'
                  ∙ ap
                      (λ (p : ℕ × ℕ). record message {
                        id = p.0;
                        time = pos p.1;
                        node_id = node_id;
                      })
                      g))
              (store_bytes-StoredIn stamped fms' h)

        chosen :
            (b : Bool)
            → is_first node_id message ≡ b
            → StampedIn json nanos node_id sequence message (
                if b
                then store_generated opened json per_file faults node_id message (
                    on_partition opened
                      (partition message.path)
                      (generate_next_msg_id nanos node_id)
                      fms)
                else store_bytes opened json per_file faults message fms)
        chosen true t = generated t _ (
            on_partition-After (Generated nanos node_id sequence) (partition message.path)
              (generate_next_msg_id nanos node_id) fms (generate-Ensures nanos node_id sequence) a)
        chosen false t =
            StampedIn-ok json nanos node_id sequence message
              (store_bytes opened json per_file faults message fms)
              (subst
                (λ b.
                  Stamped b nanos node_id sequence message
                    (store_bytes opened json per_file faults message fms).1.0)
                (sym t) (store_bytes-message message fms))
              (store_bytes-StoredIn message fms a)
