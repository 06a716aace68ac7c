-- ===== src/Cluster/Codec.antt =====
-- server/cluster/codec.go and the messages of synchronizer.go. The msgpack codec is a parameter.
use guble.Prelude.{ℕ, ◌≡◌, Bytes, List, Option, some}

pub data MessageType : Type 0 where
  guble_message sync_partitions sync_message_request sync_message string_message : MessageType
  other_type : ℕ → MessageType

pub record ClusterMessage : Type 0 where
  pub node_id : ℕ
  pub kind : MessageType
  pub body : Bytes

-- `partition`, what a node says of one of its partitions.
pub record PartitionInfo : Type 0 where
  pub name : Bytes
  pub max_id : ℕ

pub record SyncMessageRequest : Type 0 where
  pub partition : Bytes
  pub start_id : ℕ
  pub end_id : ℕ

pub record SyncMessage : Type 0 where
  pub partition : Bytes
  pub id : ℕ
  pub message : Bytes

-- Encode and Decode of the four types, and of a nil pointer to partitions; `none` is an error.
pub record Codec : Type 0 where
  pub encode_message : ClusterMessage → Option Bytes
  pub decode_message : Bytes → Option ClusterMessage
  pub encode_partitions : List PartitionInfo → Option Bytes
  pub encode_no_partitions : Option Bytes
  pub decode_partitions : Bytes → Option (List PartitionInfo)
  pub encode_request : SyncMessageRequest → Option Bytes
  pub decode_request : Bytes → Option SyncMessageRequest
  pub encode_sync : SyncMessage → Option Bytes
  pub decode_sync : Bytes → Option SyncMessage

-- What is encoded is decoded to itself.
pub record IsFaithful (codec : Codec) : Type 0 where
  pub decode-encode_message :
      (m : ClusterMessage) (b : Bytes)
      → codec.encode_message m ≡ some b
      → codec.decode_message b ≡ some m
  pub decode-encode_sync :
      (m : SyncMessage) (b : Bytes) → codec.encode_sync m ≡ some b → codec.decode_sync b ≡ some m
