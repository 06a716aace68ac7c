-- ===== src/Cluster/Synchronizer.antt =====
-- server/cluster/synchronizer.go: which nodes have which messages, and the copying of those that are
-- missing here. The message store is a parameter with an unknown state. Each function holds the
-- lock of what it changes.
use guble.Prelude.{
  ℕ, ℕ_comparable, Bytes, bytes_comparable, Dict, find, put, List, [], ◌∷◌, ◌++◌, Option, none,
  some, Bool, true, false, if◌then◌else◌, ltb, leb,
}
use guble.Protocol.Decimal.{parse_uint}
use guble.Store.Fetch.{FetchRequest, forward, max_int32}
use guble.Cluster.Codec.{
  sync_message_request, PartitionInfo, SyncMessageRequest, SyncMessage, ClusterMessage, Codec,
  MessageType,
}
use guble.Cluster.Codec as Kinds
use guble.Cluster.Members.{
  Config, new_encoder_message, Sending, send_message_to_node, send_message_to_node_id,
}

-- Of the message store: the largest id of a partition, which may fail, Store, and the messages, with
-- their ids, that Fetch sends.
pub record MessageStore : Type 1 where
  pub State : Type 0
  pub max_id_of : Bytes → State → Option ℕ × State
  pub store : Bytes → ℕ → Bytes → State → Bool × State
  pub fetch : FetchRequest → State → List (ℕ × Bytes)
  pub partitions : State → Option (List PartitionInfo)

pub record SyncPartition : Type 0 where
  pub local_start_max_id : ℕ
  pub nodes : Dict ℕ PartitionInfo
  pub last_id : ℕ
  pub process : List SyncMessage
  pub running : Bool

-- The node with the largest id, and that id, from those so far.
unfoldable pub max_from : Dict ℕ PartitionInfo → ℕ × ℕ → ℕ × ℕ
max_from [] best = best
max_from ((nid, p) ∷ nodes) best =
    let better = max_from nodes (p.max_id, nid) in
    let same = max_from nodes best in if ltb best.0 p.max_id then better else same

unfoldable pub max_id_node : SyncPartition → ℕ × ℕ
unfolding max_from
max_id_node sp = max_from sp.nodes (0, 0)

module _ (S : MessageStore) where
  -- `started` has the partitions for which addNode started `run`.
  pub record Synchronizer : Type 0 where
    pub store : S.State
    pub sync_partitions : Dict Bytes SyncPartition
    pub nodes : Dict ℕ (List PartitionInfo)
    pub started : List Bytes

  abbrev pub new_synchronizer : S.State → Synchronizer
  new_synchronizer s = record { store = s; sync_partitions = []; nodes = []; started = [] }

  abbrev pub is_some : {A : Type 0} → Option A → Bool
  is_some none = false
  is_some (some a) = true

  unfoldable pub in_sync_id : ℕ → Synchronizer → Bool
  in_sync_id node_id s = is_some (find s.nodes node_id)

  unfoldable pub in_sync_parsed : Option ℕ → Synchronizer → ℕ × Bool
  unfolding in_sync_id
  in_sync_parsed none s = (0, false)
  in_sync_parsed (some id) s = (id, in_sync_id id s)

  unfoldable pub in_sync : Bytes → Synchronizer → ℕ × Bool
  unfolding in_sync_parsed
  in_sync node_id s = in_sync_parsed (parse_uint 255 node_id) s

  abbrev pub new_sync_partition : ℕ → SyncPartition
  new_sync_partition local_max_id = record {
    local_start_max_id = local_max_id;
    nodes = [];
    last_id = local_max_id;
    process = [];
    running = false;
  }

  -- The node's information gets into the partition, and its loop is started.
  abbrev pub add_info : ℕ → PartitionInfo → SyncPartition → Synchronizer → Synchronizer
  add_info node_id p sp s = record s {
    sync_partitions = put s.sync_partitions p.name (record sp { nodes = put sp.nodes node_id p });
    started = s.started ++ (p.name ∷ []);
  }

  abbrev pub opened_partition :
      Option ℕ × S.State → Synchronizer → Option SyncPartition × Synchronizer
  opened_partition (none, st) s = (none, record s { store = st })
  opened_partition (some local_max_id, st) s =
      (some (new_sync_partition local_max_id), record s { store = st })

  -- The partition known so far, or a new one with the largest id of the local store.
  abbrev pub sync_partition_of :
      Bytes → Option SyncPartition → Synchronizer → Option SyncPartition × Synchronizer
  sync_partition_of name (some sp) s = (some sp, s)
  sync_partition_of name none s = opened_partition (S.max_id_of name s.store) s

  abbrev pub add_or_stop :
      ℕ
      → PartitionInfo
      → Option SyncPartition × Synchronizer
      → (Synchronizer → Synchronizer)
      → Synchronizer
  add_or_stop node_id p (none, s) continue = s
  add_or_stop node_id p (some sp, s) continue = continue (add_info node_id p sp s)

  -- The loop of addNode ends at the first partition that cannot be opened.
  unfoldable pub add_partitions : ℕ → List PartitionInfo → Synchronizer → Synchronizer
  add_partitions node_id [] s = s
  add_partitions node_id (p ∷ ps) s =
      add_or_stop node_id p (sync_partition_of p.name (find s.sync_partitions p.name) s)
        (λ s'. add_partitions node_id ps s')

  unfoldable pub add_node : ℕ → List PartitionInfo → Synchronizer → Synchronizer
  unfolding add_partitions
  add_node node_id ps s = add_partitions node_id ps (record s { nodes = put s.nodes node_id ps })

  unfoldable pub sync : ℕ → List PartitionInfo → Synchronizer → Synchronizer
  unfolding add_node in_sync_id
  sync node_id ps s = if in_sync_id node_id s then s else add_node node_id ps s

  pub data SyncError : Type 0 where
    node_not_in_sync decode_failed missing_sync_partition : SyncError

  abbrev pub enqueue :
      SyncMessage → Option SyncPartition → Synchronizer → Option SyncError × Synchronizer
  enqueue sm none s = (some missing_sync_partition, s)
  enqueue sm (some sp) s = (
    none,
    record s {
      sync_partitions =
          put s.sync_partitions sm.partition (record sp { process = sp.process ++ (sm ∷ []) });
    },
  )

  abbrev pub enqueue_decoded : Option SyncMessage → Synchronizer → Option SyncError × Synchronizer
  enqueue_decoded none s = (some decode_failed, s)
  enqueue_decoded (some sm) s = enqueue sm (find s.sync_partitions sm.partition) s

  -- syncMessage: the message of another node goes into the channel of its partition.
  unfoldable pub receive_sync_message :
      Codec → ℕ → Bytes → Synchronizer → Option SyncError × Synchronizer
  unfolding in_sync_id
  receive_sync_message codec node_id data' s =
      if in_sync_id node_id s
      then enqueue_decoded (codec.decode_sync data') s
      else (some node_not_in_sync, s)

  -- The request with which `loop` begins, and the node it is for.
  unfoldable pub first_request : Bytes → SyncPartition → ℕ × SyncMessageRequest
  unfolding max_id_node
  first_request name sp =
      let (max, node_id) = max_id_node sp in
      (node_id, record { partition = name; start_id = sp.last_id; end_id = max })

  -- run: a partition that runs is left alone.
  unfoldable pub start_run : Bytes → SyncPartition → Option (ℕ × SyncMessageRequest) × SyncPartition
  unfolding first_request
  start_run name sp =
      if sp.running
      then (none, sp)
      else (some (first_request name sp), record sp { running = true })

  -- One message in the loop: it is stored, which may fail, and counts as fetched.
  unfoldable pub process_one :
      Bytes → SyncMessage → SyncPartition × S.State → SyncPartition × S.State
  process_one name sm (sp, st) =
      (record sp { last_id = sm.id }, (S.store name sm.id sm.message st).1)

  -- The loop takes messages until the largest id is reached: whether it has ended, and what is left.
  unfoldable pub process_loop :
      Bytes
      → ℕ
      → List SyncMessage
      → SyncPartition × S.State
      → Bool × (List SyncMessage × (SyncPartition × S.State))
  unfolding process_one
  process_loop name max [] s = (false, ([], s))
  process_loop name max (sm ∷ messages) s =
      let after = process_one name sm s in
      let rest = process_loop name max messages after in
      if leb max sm.id then (true, (messages, after)) else rest

  -- requestLoop: the request to the store, and what is sent of the messages that come.
  abbrev pub request_for : SyncMessageRequest → FetchRequest
  request_for smr = record {
    partition = smr.partition;
    start_id = smr.start_id;
    end_id = smr.end_id;
    direction = forward;
    count = max_int32;
  }

  module _ (c : Config) (members : List Bytes) (sends : Bytes → Bytes → Bool) where
    abbrev pub send_one : ℕ → Option ClusterMessage → List Sending
    send_one node_id none = []
    send_one node_id (some m) = send_message_to_node_id c members sends node_id m ∷ []

    -- A message that cannot be encoded or sent is left out.
    unfoldable pub send_fetched : ℕ → Bytes → List (ℕ × Bytes) → List Sending
    send_fetched node_id name [] = []
    send_fetched node_id name ((id, message) ∷ fetched) =
        send_one node_id (
          new_encoder_message c Kinds.sync_message
            (c.codec.encode_sync (record { partition = name; id = id; message = message })))
        ++ send_fetched node_id name fetched

    unfoldable pub request_loop : ℕ → SyncMessageRequest → S.State → List Sending
    unfolding send_fetched
    request_loop node_id smr st = send_fetched node_id smr.partition (S.fetch (request_for smr) st)

    abbrev pub request_decoded : ℕ → Option SyncMessageRequest → S.State → Option (List Sending)
    request_decoded node_id none st = none
    request_decoded node_id (some smr) st = some (request_loop node_id smr st)

    -- messageRequest: `none` is a request that cannot be decoded.
    unfoldable pub message_request : ℕ → Bytes → S.State → Option (List Sending)
    unfolding request_loop
    message_request node_id data' st = request_decoded node_id (c.codec.decode_request data') st

  -- sendPartitions, when a node joins: `none` if it is in sync or nothing can be encoded.
  abbrev pub encoded_partitions : Codec → Option (List PartitionInfo) → Option Bytes
  encoded_partitions codec none = codec.encode_no_partitions
  encoded_partitions codec (some ps) = codec.encode_partitions ps

  abbrev pub send_encoded :
      Config → (Bytes → Bytes → Bool) → Bytes → Option ClusterMessage → Option Sending
  send_encoded c sends node none = none
  send_encoded c sends node (some m) = some (send_message_to_node c sends node m)

  unfoldable pub send_partitions :
      Config → (Bytes → Bytes → Bool) → Bytes → Synchronizer → Option Sending
  unfolding in_sync
  send_partitions c sends node s =
      if (in_sync node s).1
      then none
      else send_encoded c sends node (
          new_encoder_message c Kinds.sync_partitions
            (encoded_partitions c.codec (S.partitions s.store)))
