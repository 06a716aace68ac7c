-- ===== src/Cluster/Examples.antt =====
-- Two nodes with a codec that writes the fields one behind the other, and a store that keeps all.
use guble.Prelude.{
  ℕ, zero, suc, ◌≡◌, refl, ap, sym, ◌∙◌, Bytes, bytes_comparable, bytes_eq, codes, find, put, List,
  [], ◌∷◌, ◌++◌, Option, none, some, true, length, take, drop, take-append, drop-append, arith,
}
use guble.Protocol.Decimal.{pos, format_uint}
use guble.Protocol.Message.{Message, Json, message_bytes}
use guble.Protocol.Message.RoundTrip.{IsMessage}
use guble.Cluster.Codec.{
  MessageType, guble_message, sync_partitions, sync_message_request, sync_message, string_message,
  other_type, ClusterMessage, SyncMessageRequest, SyncMessage, Codec, IsFaithful,
}
use guble.Cluster.Members.{
  Config, broadcast_message, get_node_by_id, own_name, new_encoder_message, send_message_to_node_id,
}
use guble.Cluster.Members.Broadcast.{others, addressed}
use guble.Cluster.Synchronizer.{
  MessageStore, SyncPartition, Synchronizer, new_synchronizer, new_sync_partition, in_sync_id, sync,
  process_loop, request_loop, receive_sync_message,
}
use guble.Cluster.Delegate.{routed, notify_msg}
use guble.Cluster.Delegate.Routing.{broadcast_message-routed}
use guble.Cluster.Delegate.Transfer.{sync_messages, deliver, store_each, transfer-completes}

number_of : MessageType → ℕ
number_of guble_message = 0
number_of sync_partitions = 1
number_of sync_message_request = 2
number_of sync_message = 3
number_of string_message = 4
number_of (other_type t) = suc (suc (suc (suc (suc t))))

type_of : ℕ → MessageType
type_of zero = guble_message
type_of (suc zero) = sync_partitions
type_of (suc (suc zero)) = sync_message_request
type_of (suc (suc (suc zero))) = sync_message
type_of (suc (suc (suc (suc zero)))) = string_message
type_of (suc (suc (suc (suc (suc t))))) = other_type t

type_of-number_of : (t : MessageType) → type_of (number_of t) ≡ t
unfolding type_of number_of
type_of-number_of guble_message = refl
type_of-number_of sync_partitions = refl
type_of-number_of sync_message_request = refl
type_of-number_of sync_message = refl
type_of-number_of string_message = refl
type_of-number_of (other_type t) = refl

write_message : ClusterMessage → Bytes
write_message m = m.node_id ∷ number_of m.kind ∷ m.body

read_message : Bytes → Option ClusterMessage
read_message (n ∷ k ∷ body) = some (record { node_id = n; kind = type_of k; body = body })
read_message s = none

write_sync : SyncMessage → Bytes
write_sync m = m.id ∷ length m.partition ∷ (m.partition ++ m.message)

read_sync : Bytes → Option SyncMessage
read_sync (id ∷ n ∷ s) = some (record { partition = take n s; id = id; message = drop n s })
read_sync s = none

codec : Codec
unfolding write_message read_message write_sync read_sync
codec = record {
  encode_message = λ m. some (write_message m);
  decode_message = read_message;
  encode_partitions = λ ps. none;
  encode_no_partitions = none;
  decode_partitions = λ s. none;
  encode_request = λ r. none;
  decode_request = λ s. none;
  encode_sync = λ m. some (write_sync m);
  decode_sync = read_sync;
}

read-write_message : (m : ClusterMessage) → read_message (write_message m) ≡ some m
unfolding read_message write_message
read-write_message m =
    ap (λ t. some (record { node_id = m.node_id; kind = t; body = m.body }))
      (type_of-number_of m.kind)

read-write_sync : (m : SyncMessage) → read_sync (write_sync m) ≡ some m
unfolding read_sync write_sync
read-write_sync m =
    rw
      (
        take-append m.partition m.message (length m.partition) refl,
        drop-append m.partition m.message (length m.partition) refl,
      )
      refl

some-value {ℓ} : {A : Type ℓ} (a b : A) → some a ≡ some b → a ≡ b
some-value {A} a b e = ap value_or e
  where
    value_or : Option A → A
    value_or none = a
    value_or (some x) = x

codec-IsFaithful : IsFaithful codec
unfolding codec
codec-IsFaithful = record {
  decode-encode_message =
      λ m b e. ap read_message (sym (some-value (write_message m) b e)) ∙ read-write_message m;
  decode-encode_sync =
      λ m b e. ap read_sync (sym (some-value (write_sync m) b e)) ∙ read-write_sync m;
}

-- A store of any messages, for which every partition begins at 0.
memory_store : MessageStore
memory_store = record {
  State = List (ℕ × Bytes);
  max_id_of = λ name st. (some 0, st);
  store = λ name id message st. (true, st ++ ((id, message) ∷ []));
  fetch = λ req st. st;
  partitions = λ st. none;
}

no_json : Json
no_json = record { marshal = λ m. []; unmarshal = λ s. none }

hello : Message
hello = record {
  id = 42;
  path = codes "/a";
  user_id = [];
  application_id = [];
  filters = none;
  time = pos 5;
  header_json = [];
  body = codes "x";
  node_id = 1;
}

hello-IsMessage : IsMessage no_json hello
unfolding hello
hello-IsMessage = record {
  rest = codes "a";
  topic = refl;
  path_field =
      ((λ e. omega arith, (λ e. omega arith, tt)), (λ e. omega arith, (λ e. omega arith, tt)));
  user_field = (tt, tt);
  application_field = (tt, tt);
  filters = tt;
  header_line = tt;
  id_bits = omega arith;
  time_bits = omega arith;
  node_bits = omega arith;
}

two_members : List Bytes
two_members = codes "1" ∷ codes "2" ∷ []

node : ℕ → Config
node id = record { id = id; codec = codec }

-- What is sent to the second node.
to_second : List (Bytes × Bytes)
to_second =
    (
      codes "2",
      write_message
          (record { node_id = 1; kind = guble_message; body = message_bytes no_json hello }),
    )
    ∷ []

empty_synchronizer : Synchronizer memory_store
unfolding memory_store
empty_synchronizer = new_synchronizer memory_store []

broadcast_message-routed_example :
    (data' : Bytes) × ((to_second ≡ addressed data' (others (own_name (node 1)) two_members))
      × (notify_msg memory_store no_json (node 2) two_members (λ n d. true) data' empty_synchronizer
          ≡ routed hello))
unfolding to_second two_members node codec broadcast_message bytes_eq format_uint
broadcast_message-routed_example =
    broadcast_message-routed codec codec-IsFaithful memory_store no_json 1 2 two_members hello
      hello-IsMessage to_second refl (λ n d. true) empty_synchronizer

-- The first node is known to the second, which asks it for the ids up to 2.
joined : Synchronizer memory_store
unfolding empty_synchronizer
joined = sync memory_store 1 (record { name = codes "a"; max_id = 2 } ∷ []) empty_synchronizer

two_messages : List (ℕ × Bytes)
two_messages = (1, codes "x") ∷ (2, codes "y") ∷ []

request : SyncMessageRequest
request = record { partition = codes "a"; start_id = 0; end_id = 2 }

joined_partition : SyncPartition
joined_partition = record (new_sync_partition memory_store 0) {
  nodes = (1, record { name = codes "a"; max_id = 2 }) ∷ [];
}

transfer-completes_example :
    process_loop memory_store
      (codes "a")
      2
      (sync_messages (codes "a") two_messages)
      (joined_partition, joined.store)
    ≡ (
      true,
      (
        [],
        (
          record joined_partition { last_id = 2 },
          store_each memory_store (codes "a") two_messages joined.store,
        ),
      ),
    )
unfolding joined joined_partition two_messages request memory_store node codec two_members
    get_node_by_id bytes_eq format_uint in_sync_id find sync put deliver request_loop
    new_encoder_message send_message_to_node_id notify_msg type_of number_of receive_sync_message
transfer-completes_example =
    (transfer-completes memory_store no_json (node 2) two_members (λ n d. true) (node 1)
      codec-IsFaithful (λ m. (_, refl)) (λ m. (_, refl)) two_members (λ n d. true) (codes "2") refl
      (λ d. refl) request two_messages ((1, codes "x") ∷ []) 2 (codes "y") refl (omega arith, tt)
      (omega arith) joined_partition joined refl refl refl).1
