-- ===== src/Cluster/Members.antt =====
-- server/cluster/cluster.go: the sending of messages to other nodes. The members are the names that
-- memberlist gives, and whether a message reaches a node over TCP is a parameter (`sends`).
pub mod Broadcast
use guble.Prelude.{
  ℕ, Bytes, bytes_comparable, ◌≟◌, List, [], ◌∷◌, Option, none, some, Bool, true, false,
  if◌then◌else◌,
}
use guble.Protocol.Decimal.{format_uint}
use guble.Protocol.Message.{Message, Json, message_bytes}
use guble.Cluster.Codec.{MessageType, guble_message, string_message, ClusterMessage, Codec}

pub record Config : Type 0 where
  pub id : ℕ
  pub codec : Codec

-- The name of this node, as New prints it.
abbrev pub own_name : Config → Bytes
own_name c = format_uint c.id

abbrev pub new_message : Config → MessageType → Bytes → ClusterMessage
new_message c t body = record { node_id = c.id; kind = t; body = body }

unfoldable pub new_encoder_message : Config → MessageType → Option Bytes → Option ClusterMessage
new_encoder_message c t none = none
new_encoder_message c t (some body) = some (new_message c t body)

-- The loop over the members: what is sent to whom, by a goroutine each, whose errors are dropped.
unfoldable pub to_others : Bytes → Bytes → List Bytes → List (Bytes × Bytes)
to_others name data' [] = []
to_others name data' (node ∷ members) =
    let rest = to_others name data' members in if name ≟ node then rest else (node, data') ∷ rest

unfoldable pub to_others_encoded :
    Config → List Bytes → Option Bytes → Option (List (Bytes × Bytes))
unfolding to_others
to_others_encoded c members none = none
to_others_encoded c members (some data') = some (to_others (own_name c) data' members)

-- `none` is an error.
unfoldable pub broadcast_cluster_message :
    Config → List Bytes → ClusterMessage → Option (List (Bytes × Bytes))
unfolding to_others_encoded
broadcast_cluster_message c members m = to_others_encoded c members (c.codec.encode_message m)

unfoldable pub broadcast_message :
    Json → Config → List Bytes → Message → Option (List (Bytes × Bytes))
unfolding broadcast_cluster_message
broadcast_message json c members m =
    broadcast_cluster_message c members (new_message c guble_message (message_bytes json m))

unfoldable pub broadcast_string : Config → List Bytes → Bytes → Option (List (Bytes × Bytes))
unfolding broadcast_cluster_message
broadcast_string c members s = broadcast_cluster_message c members (new_message c string_message s)

unfoldable pub find_member : Bytes → List Bytes → Option Bytes
find_member name [] = none
find_member name (node ∷ members) =
    let rest = find_member name members in if node ≟ name then some node else rest

unfoldable pub get_node_by_id : ℕ → List Bytes → Option Bytes
unfolding find_member
get_node_by_id id members = find_member (format_uint id) members

pub data SendError : Type 0 where
  node_not_found encode_failed send_failed : SendError

-- An error, or what was sent to which node.
pub data Sending : Type 0 where
  sent : Bytes → Bytes → Sending
  not_sent : SendError → Sending

abbrev pub over_tcp : (Bytes → Bytes → Bool) → Bytes → Option Bytes → Sending
over_tcp sends node none = not_sent encode_failed
over_tcp sends node (some data') =
    if sends node data' then sent node data' else not_sent send_failed

unfoldable pub send_message_to_node :
    Config → (Bytes → Bytes → Bool) → Bytes → ClusterMessage → Sending
send_message_to_node c sends node m = over_tcp sends node (c.codec.encode_message m)

unfoldable pub to_member : Config → (Bytes → Bytes → Bool) → ClusterMessage → Option Bytes → Sending
unfolding send_message_to_node
to_member c sends m none = not_sent node_not_found
to_member c sends m (some node) = send_message_to_node c sends node m

unfoldable pub send_message_to_node_id :
    Config → List Bytes → (Bytes → Bytes → Bool) → ℕ → ClusterMessage → Sending
unfolding to_member
send_message_to_node_id c members sends id m = to_member c sends m (get_node_by_id id members)
