-- ===== src/Store/Dummy.antt =====
-- server/store/dummystore/dummy_message_store.go: a message store that only counts, per partition,
-- and saves the counters in a key-value store. Each operation holds the lock for all it does, and a
-- pass of the saving loop takes it once for each topic, so `write_topic` is a step of its own.
pub mod Sequence
pub mod Saved
mod Examples
use guble.Prelude.{
  ℕ, ◌+◌, ◌-◌, ◌%◌, ◌^◌, Bytes, bytes_comparable, codes, Dict, find, put, List, [], ◌∷◌, Option,
  none, some, not, if◌then◌else◌, ltb, nat_eq, length,
}
use guble.Protocol.Split.{partition}
use guble.Protocol.Decimal.{ℤ, format_uint, parse_uint}
use guble.Protocol.Message.{Message, Json, message_bytes}
use guble.KvStore.Interface.{KvStore, Reply, answer, failure}

abbrev pub topic_schema : Bytes
topic_schema = codes "topic_sequence"

-- The error of the key-value store, that of ParseUint, or an id too far ahead: the next id and the
-- id given.
pub data DummyError : Type 0 where
  kv_failed invalid_sequence : DummyError
  invalid_message_id : ℕ → ℕ → DummyError

pub data Outcome (A : Type 0) : Type 0 where
  done : A → Outcome A
  failed : DummyError → Outcome A

-- ParseUint of what the key-value store has; 0 if it has nothing.
unfoldable pub sequence_of : Option ℕ → Outcome ℕ
sequence_of none = failed invalid_sequence
sequence_of (some n) = done n

unfoldable pub stored_sequence : Reply (Option Bytes) → Outcome ℕ
unfolding sequence_of
stored_sequence failure = failed kv_failed
stored_sequence (answer none) = done 0
stored_sequence (answer (some val)) = sequence_of (parse_uint (2 ^ 64 - 1) val)

abbrev pub or_zero : Option ℕ → ℕ
or_zero none = 0
or_zero (some n) = n

-- A `uint64` one larger.
abbrev pub next_id : ℕ → ℕ
next_id n = (n + 1) % 2 ^ 64

module _ (S : KvStore) where
  pub record DummyMessageStore : Type 0 where
    pub topic_sequences : Dict Bytes ℕ
    pub kv_store : S.State

  abbrev pub new_store : S.State → DummyMessageStore
  new_store kv = record { topic_sequences = []; kv_store = kv }

  unfoldable pub set_id : Bytes → ℕ → DummyMessageStore → DummyMessageStore
  set_id name id dms = record dms { topic_sequences = put dms.topic_sequences name id }

  abbrev pub remember : Bytes → Outcome ℕ × DummyMessageStore → Outcome ℕ × DummyMessageStore
  remember name (failed e, dms) = (failed e, dms)
  remember name (done n, dms) = (done n, set_id name n dms)

  abbrev pub read_sequence : Bytes → DummyMessageStore → Outcome ℕ × DummyMessageStore
  read_sequence name dms =
      let (reply, kv) = S.get dms.kv_store topic_schema name in
      (stored_sequence reply, record dms { kv_store = kv })

  abbrev pub max_or_read : Bytes → DummyMessageStore → Option ℕ → Outcome ℕ × DummyMessageStore
  max_or_read name dms (some n) = remember name (done n, dms)
  max_or_read name dms none = remember name (read_sequence name dms)

  -- maxMessageID: the counter in the map, or else the one saved, which the map gets.
  unfoldable pub max_message_id : Bytes → DummyMessageStore → Outcome ℕ × DummyMessageStore
  unfolding set_id
  max_message_id name dms = max_or_read name dms (find dms.topic_sequences name)

  -- After maxMessageID, the rest of the operation, unless it failed.
  abbrev pub and_then :
      {A : Type 0}
      → Outcome ℕ × DummyMessageStore
      → (ℕ → DummyMessageStore → Outcome A × DummyMessageStore)
      → Outcome A × DummyMessageStore
  and_then (failed e, dms) f = (failed e, dms)
  and_then (done n, dms) f = f n dms

  unfoldable pub generate_next_msg_id : Bytes → DummyMessageStore → Outcome ℕ × DummyMessageStore
  unfolding max_message_id
  generate_next_msg_id name dms =
      and_then (max_message_id name dms)
        (λ max s. (done (next_id max), set_id name (next_id max) s))

  -- An id may be at most the next one. The counter becomes the id, also if that is smaller.
  unfoldable pub store : Bytes → ℕ → DummyMessageStore → Outcome (Unit {0}) × DummyMessageStore
  unfolding max_message_id
  store name id dms = and_then (max_message_id name dms) (λ max s.
      if ltb (next_id max) id
      then (failed (invalid_message_id (next_id max) id), s)
      else (done tt, set_id name id s))

  abbrev pub call_with :
      {A X : Type 0}
      → X
      → (ℕ → X → Outcome A × X)
      → Outcome ℕ × DummyMessageStore
      → Outcome A × (DummyMessageStore × X)
  call_with x f (failed e, dms) = (failed e, (dms, x))
  call_with x f (done max, dms) = let (r, x') = f max x in (r, (dms, x'))

  -- DoInTx: the caller's function gets the largest id, unless that cannot be read.
  unfoldable pub do_in_tx :
      {A X : Type 0}
      → Bytes
      → (ℕ → X → Outcome A × X)
      → DummyMessageStore × X
      → Outcome A × (DummyMessageStore × X)
  unfolding max_message_id
  do_in_tx name f (dms, x) = call_with x f (max_message_id name dms)

  module _ (json : Json) where
    abbrev pub sized :
        ℕ
        → Message
        → Outcome (Unit {0}) × DummyMessageStore
        → Outcome ℕ × (Message × DummyMessageStore)
    sized n message (failed e, dms) = (failed e, (message, dms))
    sized n message (done u, dms) = (done n, (message, dms))

    abbrev pub store_with_id :
        ℤ → Message → ℕ → Outcome ℕ × DummyMessageStore → Outcome ℕ × (Message × DummyMessageStore)
    store_with_id ts message node_id (failed e, dms) = (failed e, (message, dms))
    store_with_id ts message node_id (done id, dms) =
        let stamped = record message { id = id; time = ts; node_id = node_id } in
        sized (length (message_bytes json stamped)) stamped (store (partition message.path) id dms)

    -- StoreMessage at the time `ts`: the size, and the message with its id, time and node.
    unfoldable pub store_message :
        ℤ → Message → ℕ → DummyMessageStore → Outcome ℕ × (Message × DummyMessageStore)
    unfolding generate_next_msg_id store
    store_message ts message node_id dms =
        store_with_id ts message node_id (generate_next_msg_id (partition message.path) dms)

  -- The saving loop: the store, and the values that it wrote last.
  pub record Saver : Type 0 where
    pub dms : DummyMessageStore
    pub last_sync_values : Dict Bytes ℕ

  -- A missing topic reads as 0.
  abbrev pub value_at : Dict Bytes ℕ → Bytes → ℕ
  value_at m topic = or_zero (find m topic)

  -- The topics whose counter is not the value written last.
  unfoldable pub topics_to_update : Dict Bytes ℕ → Dict Bytes ℕ → List Bytes
  topics_to_update last [] = []
  topics_to_update last ((topic, seq) ∷ sequences) =
      let rest = topics_to_update last sequences in
      if not (nat_eq (value_at last topic) seq) then topic ∷ rest else rest

  -- Whether Put succeeded is not looked at.
  unfoldable pub write_topic : Bytes → Saver → Saver
  write_topic topic saver =
      let latest = value_at saver.dms.topic_sequences topic in
      record {
        dms = record (saver.dms) {
          kv_store = (S.put saver.dms.kv_store topic_schema topic (format_uint latest)).1;
        };
        last_sync_values = put saver.last_sync_values topic latest;
      }

  unfoldable pub write_topics : List Bytes → Saver → Saver
  write_topics [] saver = saver
  write_topics (topic ∷ topics) saver = write_topics topics (write_topic topic saver)

  -- One round of the loop of startSequenceSync, with nothing done in between.
  unfoldable pub sync_round : Saver → Saver
  unfolding topics_to_update write_topics
  sync_round saver =
      write_topics (topics_to_update saver.last_sync_values saver.dms.topic_sequences) saver
