-- ===== src/Router/Entry.antt =====
-- HandleMessage of server/router/router.go: what a message passes before it is routed. The access
-- manager and the message store are interfaces there, and parameters here; sending to handleC, which
-- waits while the channel is full, appends to the list of messages to route.
pub mod Incoming
mod Examples
use guble.Prelude.{
  ℕ, Bytes, List, [], ◌∷◌, ◌++◌, Option, none, some, Bool, true, false, not, if◌then◌else◌, nat_eq,
}
use guble.Protocol.Message.{Message}
use guble.Store.Partition.{Failure, Result, ok, err}

pub data AccessType : Type 0 where
  read write : AccessType

pub data Reply : Type 0 where
  accepted stopping permission_denied : Reply
  store_failed : Failure → Reply

-- The cluster's node id, if there is a cluster; `broadcasts` are the messages handed to it.
pub record Router (S : Type 0) : Type 0 where
  pub is_stopping : Bool
  pub cluster : Option ℕ
  pub message_store : S
  pub handle_c : List Message
  pub broadcasts : List Message

-- nodeID, which is 0 without a cluster
pub node_id_of : Option ℕ → ℕ
node_id_of none = 0
node_id_of (some node_id) = node_id

-- The messages of this node go to the others.
pub is_local : Option ℕ → Message → Bool
is_local none message = false
is_local (some node_id) message = nat_eq message.node_id node_id

module _ {S : Type 0} where
  -- What follows StoreMessage, which may have changed the message.
  pub after_store : Router S → Result ℕ × (Message × S) → Reply × Router S
  unfolding is_local
  after_store router (err e, (message, s)) = (store_failed e, record router { message_store = s })
  after_store router (ok size, (message, s)) = (
    accepted,
    record router {
      message_store = s;
      handle_c = router.handle_c ++ (message ∷ []);
      broadcasts =
          if is_local router.cluster message
          then router.broadcasts ++ (message ∷ [])
          else router.broadcasts;
    },
  )

  module _ (is_allowed : AccessType → Bytes → Bytes → Bool)
      (store_message : Message → ℕ → S → Result ℕ × (Message × S)) where
    pub handle_message : Message → Router S → Reply × Router S
    unfolding after_store node_id_of
    handle_message message router =
        if router.is_stopping
        then (stopping, router)
        else if not (is_allowed write message.user_id message.path)
        then (permission_denied, router)
        else after_store router
            (store_message message (node_id_of router.cluster) router.message_store)
