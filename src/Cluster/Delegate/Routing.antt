-- ===== src/Cluster/Delegate/Routing.antt =====
-- A message that is broadcast and what the other nodes make of it.
use guble.Prelude.{ℕ, ◌≡◌, refl, ap, sym, ◌∙◌, Bytes, List, Option, none, some, Bool, arith}
use guble.Protocol.Message.{Message, Json, message_bytes}
use guble.Protocol.Message.RoundTrip.{IsMessage, parse_message-message_bytes}
use guble.Cluster.Codec.{guble_message, Codec, IsFaithful}
use guble.Cluster.Members.{
  Config, own_name, new_message, to_others_encoded, broadcast_cluster_message, broadcast_message,
}
use guble.Cluster.Members.Broadcast.{others, addressed, to_others-addressed}
use guble.Cluster.Synchronizer.{MessageStore, Synchronizer}
use guble.Cluster.Delegate.{routed, route_parsed, dispatch, notify_decoded, notify_msg}

abbrev config : ℕ → Codec → Config
config id codec = record { id = id; codec = codec }

module _ (codec : Codec) where
  -- What was broadcast is what the encoder gave.
  broadcast-encoded :
      (id : ℕ) (members : List Bytes) (encoded : Option Bytes) (out : List (Bytes × Bytes))
      → to_others_encoded (config id codec) members encoded ≡ some out
      → (data' : Bytes) × ((encoded ≡ some data')
          × (out ≡ addressed data' (others (own_name (config id codec)) members)))
  unfolding to_others_encoded
  broadcast-encoded id members none out e = absurd (grind arith)
  broadcast-encoded id members (some data') out e = (
    data',
    (
      refl,
      ap (value_or out) (sym e) ∙ to_others-addressed (own_name (config id codec)) data' members,
    ),
  )
    where
      value_or : List (Bytes × Bytes) → Option (List (Bytes × Bytes)) → List (Bytes × Bytes)
      value_or d none = d
      value_or d (some x) = x

  module _ (F : IsFaithful codec) (S : MessageStore) (json : Json) where
    notified :
        (here there : ℕ) (m : Message)
        → IsMessage json m
        → (data' : Bytes)
        → codec.encode_message
            (new_message (config here codec) guble_message (message_bytes json m))
          ≡ some data'
        → (members : List Bytes) (sends : Bytes → Bytes → Bool) (s : Synchronizer S)
        → notify_msg S json (config there codec) members sends data' s ≡ routed m
    unfolding notify_msg notify_decoded dispatch
    notified here there m i data' e members sends s =
        ap (λ d. notify_decoded S json (config there codec) members sends d s)
          (F.decode-encode_message _ data' e)
        ∙ ap (route_parsed S) (parse_message-message_bytes json m i)
        ∙ unfold route_parsed in refl

    -- A broadcast that can be encoded goes, with the same bytes, to each member but this node, and
    -- any of them hands the message to its router.
    pub broadcast_message-routed :
        (here there : ℕ) (members : List Bytes) (m : Message)
        → IsMessage json m
        → (out : List (Bytes × Bytes))
        → broadcast_message json (config here codec) members m ≡ some out
        → (sends : Bytes → Bytes → Bool) (s : Synchronizer S)
        → (data' : Bytes) × ((out ≡ addressed data' (others (own_name (config here codec)) members))
            × (notify_msg S json (config there codec) members sends data' s ≡ routed m))
    unfolding broadcast_message broadcast_cluster_message
    broadcast_message-routed here there members m i out e sends s =
        let (data', (x, o)) = broadcast-encoded here members _ out e in
        (data', (o, notified here there m i data' x members sends s))
