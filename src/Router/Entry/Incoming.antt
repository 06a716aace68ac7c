-- ===== src/Router/Entry/Incoming.antt =====
-- What is routed is what came in, and was stored before.
use mathlib.Core.Path.{subst}
use guble.Prelude.{
  ℕ, ◌≡◌, refl, sym, List, append-nil, Bytes, bytes_comparable, find, [], ◌∷◌, ◌++◌, some, Bool,
  true, false, not, if◌then◌else◌, Option, none, nat_eq,
}
use guble.Protocol.Split.{partition}
use guble.Protocol.Message.{Message, Json, message_bytes}
use guble.Store.Partition.{Partition, Result, ok, err, Faults}
use guble.Store.Partition.Stored.{Inv, Stored}
use guble.Store.MessageStore.{FileMessageStore, store_message}
use guble.Store.MessageStore.Storing.{
  AllInv, Stamped, is_first, sequence_of, StampedIn, store_message-StampedIn,
}
use guble.Router.Entry.{
  AccessType, write, Reply, accepted, stopping, permission_denied, store_failed, Router, node_id_of,
  is_local, after_store, handle_message,
}

-- The node of a router, or 0 without a cluster.
abbrev pub this_node : Option ℕ → ℕ
this_node none = 0
this_node (some node_id) = node_id

-- What the other nodes of a cluster get of a message that was stored: those of this node.
abbrev pub announced : Option ℕ → Message → List Message
announced none message = []
announced (some node_id) message = if nat_eq message.node_id node_id then message ∷ [] else []

-- What a reply says of the messages to route. If the message is accepted, then it is the next one, with
-- its stamp, it was stored, and it goes to the other nodes if it is of this one. If it is refused, then
-- for the reason that the reply gives, and nothing has changed; if it could not be stored, then nothing
-- is added.
abbrev pub Routed :
    Json
    → ℕ
    → ℕ
    → Message
    → Bool
    → Router FileMessageStore
    → Reply × Router FileMessageStore
    → Type 0
Routed json nanos sequence message allowed before (accepted, after) =
    ((before.is_stopping ≡ false) × (allowed ≡ true))
    × ((stored : Message) × (Stamped (is_first (this_node before.cluster) message) nanos
          (this_node before.cluster) sequence message stored)
        × (after.handle_c ≡ before.handle_c ++ (stored ∷ []))
        × (after.broadcasts ≡ before.broadcasts ++ announced before.cluster stored)
        × ((q : Partition) × (find after.message_store.partitions (partition stored.path) ≡ some q)
            × Stored stored.id (message_bytes json stored) q))
Routed json nanos sequence message allowed before (stopping, after) =
    (before.is_stopping ≡ true) × (after ≡ before)
Routed json nanos sequence message allowed before (permission_denied, after) =
    (allowed ≡ false) × (after ≡ before)
Routed json nanos sequence message allowed before (store_failed e, after) =
    (after.handle_c ≡ before.handle_c) × (after.broadcasts ≡ before.broadcasts)

node_id_of-this_node : (cluster : Option ℕ) → node_id_of cluster ≡ this_node cluster
unfolding node_id_of
node_id_of-this_node none = refl
node_id_of-this_node (some node_id) = refl

announced-broadcasts :
    (cluster : Option ℕ) (message : Message) (before : List Message)
    → (if is_local cluster message then before ++ (message ∷ []) else before)
      ≡ before ++ announced cluster message
unfolding is_local
announced-broadcasts none message before = sym (append-nil before)
announced-broadcasts (some node_id) message before = chosen (nat_eq message.node_id node_id)
  where
    chosen :
        (b : Bool)
        → (if b then before ++ (message ∷ []) else before)
          ≡ before ++ (if b then message ∷ [] else [])
    chosen true = refl
    chosen false = sym (append-nil before)

after_store-Routed :
    (json : Json) (nanos sequence : ℕ) (message : Message) (allowed : Bool)
    (router : Router FileMessageStore) (r : Result ℕ × (Message × FileMessageStore))
    → router.is_stopping ≡ false
    → allowed ≡ true
    → StampedIn json nanos (this_node router.cluster) sequence message r
    → Routed json nanos sequence message allowed router (after_store router r)
unfolding after_store
after_store-Routed json nanos sequence message allowed router (err e, (stored, s)) g p h =
    (refl, refl)
after_store-Routed json nanos sequence message allowed router (ok size, (stored, s)) g p
      (stamped, (n, (q, (f, there)))) =
    (
      (g, p),
      (
        stored,
        stamped,
        refl,
        announced-broadcasts router.cluster stored router.broadcasts,
        (q, f, there),
      ),
    )

guarded :
    (json : Json) (nanos sequence : ℕ) (message : Message) (allowed : Bool)
    (router : Router FileMessageStore) (stops allows : Bool) (r : Reply × Router FileMessageStore)
    → router.is_stopping ≡ stops
    → allowed ≡ allows
    → (router.is_stopping ≡ false
        → allowed ≡ true
        → Routed json nanos sequence message allowed router r)
    → Routed json nanos sequence message allowed router (
        if stops then (stopping, router) else if not allows then (permission_denied, router) else r)
guarded json nanos sequence message allowed router true allows r g p h = (g, refl)
guarded json nanos sequence message allowed router false false r g p h = (p, refl)
guarded json nanos sequence message allowed router false true r g p h = h g p

-- A message that is handed to the router with the message store, whatever calls failed. If it is
-- accepted, then the router was not stopping and the message was allowed; the message, with an id of the
-- clock, the node and the sequence number of its partition, a new time and the node if this node is its first, is the next to be routed, its text can be read in the partition of
-- its path at an entry of its id, and it is sent to the other nodes exactly if there are any and it is of
-- this one. If it is refused, then for the reason given, and nothing has changed; if it could not be
-- stored, then nothing is added to what is routed or sent. Partitions had no open file before or were
-- ready, also those that are opened now.
pub handle_message-Routed :
    (is_allowed : AccessType → Bytes → Bytes → Bool) (opened : Bytes → Result Partition)
    (json : Json) (per_file : ℕ) (faults : Faults) (nanos : ℕ) (message : Message)
    (router : Router FileMessageStore)
    → ((name : Bytes) (p : Partition) → opened name ≡ ok p → Inv p)
    → AllInv router.message_store
    → Routed json nanos
        (sequence_of opened (partition message.path) router.message_store)
        message
        (is_allowed write message.user_id message.path)
        router
        (handle_message is_allowed (store_message opened json per_file faults nanos) message router)
unfolding handle_message
handle_message-Routed is_allowed opened json per_file faults nanos message router fresh a =
    guarded json nanos _ message (is_allowed write message.user_id message.path) router
      router.is_stopping (is_allowed write message.user_id message.path) _ refl refl
      (λ g p.
        after_store-Routed json nanos _ message (is_allowed write message.user_id message.path)
          router
          (store_message opened json per_file faults nanos message (node_id_of router.cluster)
            router.message_store)
          g p
          (subst
            (λ n.
              StampedIn json nanos n
                (sequence_of opened (partition message.path) router.message_store) message
                (store_message opened json per_file faults nanos message (node_id_of router.cluster)
                  router.message_store))
            (node_id_of-this_node router.cluster)
            (store_message-StampedIn opened fresh json per_file faults nanos
              (node_id_of router.cluster) message router.message_store a)))
