-- ===== src/Store/MessageStore.antt =====
-- server/store/filestore/message_store.go: partitions by name, and the storing of messages. What the
-- opening of a partition from its directory gives is a parameter (`opened`), as is the clock.
pub mod Storing
mod Examples
use guble.Prelude.{
  ℕ, Bytes, bytes_comparable, Dict, find, put, Option, none, some, Bool, true, false, ◌||◌,
  if◌then◌else◌, nat_eq, length,
}
use guble.Protocol.Split.{partition}
use guble.Protocol.Decimal.{ℤ, pos}
use guble.Protocol.Message.{Message, Json, message_bytes}
use guble.Store.Partition.{Partition, Result, ok, err, Action, Faults, store}
use guble.Store.MessageId.{generate_next_msg_id}

pub record FileMessageStore : Type 0 where
  pub partitions : Dict Bytes Partition

module _ (opened : Bytes → Result Partition) where
  -- FileMessageStore.Partition: the partition in the map, or a new one, which the map gets.
  pub get_partition : Bytes → FileMessageStore → Result Partition × FileMessageStore
  get_partition name fms = elim (find fms.partitions name) [
    | some p ↦ (ok p, fms)
    | none ↦ elim (opened name) [
      | err e ↦ (err e, fms)
      | ok p ↦ (ok p, record { partitions = put fms.partitions name p })
    ]
  ]

  abbrev run_on :
      {A : Type 0}
      → Bytes
      → Action A
      → Result Partition × FileMessageStore
      → Result A × FileMessageStore
  run_on name action (err e, fms) = (err e, fms)
  run_on name action (ok p, fms) =
      let (r, q) = action p in (r, record { partitions = put fms.partitions name q })

  -- Gets the partition and calls its operation.
  pub on_partition :
      {A : Type 0} → Bytes → Action A → FileMessageStore → Result A × FileMessageStore
  unfolding get_partition
  on_partition name action fms = run_on name action (get_partition name fms)

  pub max_message_id : Bytes → FileMessageStore → Result ℕ × FileMessageStore
  max_message_id name = on_partition name (λ p. (ok p.max_message_id, p))

  module _ (json : Json) (per_file : ℕ) (faults : Faults) where
    pub store_in : Bytes → ℕ → Bytes → FileMessageStore → Result (Unit {0}) × FileMessageStore
    store_in name id bytes = on_partition name (store per_file faults id bytes)

    abbrev sized :
        ℕ → Message → Result (Unit {0}) × FileMessageStore → Result ℕ × (Message × FileMessageStore)
    sized n message (err e, fms) = (err e, (message, fms))
    sized n message (ok u, fms) = (ok n, (message, fms))

    -- The message is written with the id that it has.
    pub store_bytes : Message → FileMessageStore → Result ℕ × (Message × FileMessageStore)
    unfolding store_in
    store_bytes message fms =
        let data' = message_bytes json message in
        sized (length data') message (store_in (partition message.path) message.id data' fms)

    abbrev store_generated :
        ℕ → Message → Result (ℕ × ℕ) × FileMessageStore → Result ℕ × (Message × FileMessageStore)
    store_generated node_id message (err e, fms) = (err e, (message, fms))
    store_generated node_id message (ok (id, timestamp), fms) =
        store_bytes (record message { id = id; time = pos timestamp; node_id = node_id }) fms

    -- StoreMessage: the size stored, and the message, which gets an id if this node is its first.
    pub store_message : ℕ → Message → ℕ → FileMessageStore → Result ℕ × (Message × FileMessageStore)
    unfolding store_bytes on_partition
    store_message nanos message node_id fms =
        if nat_eq node_id 0 || nat_eq message.node_id 0
        then store_generated node_id message
            (on_partition (partition message.path) (generate_next_msg_id nanos node_id) fms)
        else store_bytes message fms
