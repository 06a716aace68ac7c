-- ===== src/Cluster/Delegate.antt =====
-- server/cluster/cluster_delegate.go: what a node does with a message of another one. The router and
-- the synchronizer are there, as they are after Start.
pub mod Routing
pub mod Transfer
use guble.Prelude.{ℕ, Bytes, Bool, List, Option, none, some}
use guble.Protocol.Message.{Message, Json, Parsed, parsed, failed, parse_message}
use guble.Cluster.Codec.{
  guble_message, sync_partitions, sync_message_request, sync_message, string_message, other_type,
  MessageType, ClusterMessage, PartitionInfo, Codec,
}
use guble.Cluster.Members.{Config, Sending}
use guble.Cluster.Synchronizer.{
  MessageStore, Synchronizer, SyncError, sync, receive_sync_message, message_request,
}

module _ (S : MessageStore) where
  -- A message for HandleMessage of the router, the synchronizer as it is then, with the error that
  -- is logged, what a request loop sends, or nothing.
  pub data Effect : Type 0 where
    dropped : Effect
    routed : Message → Effect
    synchronized : Option (SyncError S) → Synchronizer S → Effect
    answered : List Sending → Effect

  pub route_parsed : Parsed Message → Effect
  route_parsed (parsed m) = routed m
  route_parsed (failed e) = dropped

  pub sync_decoded : ℕ → Option (List PartitionInfo) → Synchronizer S → Effect
  sync_decoded node_id none s = dropped
  sync_decoded node_id (some ps) s = synchronized none (sync S node_id ps s)

  pub sync_received : Option (SyncError S) × Synchronizer S → Effect
  sync_received (e, s) = synchronized e s

  pub answer_request : Option (List Sending) → Effect
  answer_request none = dropped
  answer_request (some out) = answered out

  module _ (json : Json) (c : Config) (members : List Bytes) (sends : Bytes → Bytes → Bool) where
    pub dispatch : MessageType → ℕ → Bytes → Synchronizer S → Effect
    unfolding route_parsed sync_decoded sync_received answer_request
    dispatch guble_message node_id body s = route_parsed (parse_message json body)
    dispatch sync_partitions node_id body s =
        sync_decoded node_id (c.codec.decode_partitions body) s
    dispatch sync_message node_id body s =
        sync_received (receive_sync_message S c.codec node_id body s)
    dispatch sync_message_request node_id body s =
        answer_request (message_request S c members sends node_id body s.store)
    dispatch string_message node_id body s = dropped
    dispatch (other_type t) node_id body s = dropped

    pub notify_decoded : Option ClusterMessage → Synchronizer S → Effect
    unfolding dispatch
    notify_decoded none s = dropped
    notify_decoded (some m) s = dispatch m.kind m.node_id m.body s

    -- NotifyMsg
    unfoldable pub notify_msg : Bytes → Synchronizer S → Effect
    unfolding notify_decoded
    notify_msg data' s = notify_decoded (c.codec.decode_message data') s
