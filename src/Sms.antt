-- ===== src/Sms.antt =====
-- server/sms/sms_gateway.go: the gateway remembers the id of the last message that it sent in the
-- key-value store, and fetches from the id behind it when it starts again. The service that sends, and
-- encoding/json for one number, are parameters; the router has a key-value store.
pub mod Remembered
pub mod Nexmo
pub mod Running
mod Examples
use guble.Prelude.{
  ℕ, ◌+◌, ◌%◌, ◌^◌, Bytes, codes, List, [], ◌∷◌, Option, none, some, Bool, true, false,
  if◌then◌else◌, ltb,
}
use guble.Protocol.Split.{partition}
use guble.Protocol.Decimal.{negsuc}
use guble.Store.Fetch.{FetchRequest, forward, new_fetch_request}
use guble.KvStore.Interface.{KvStore, Reply, answer, failure}

abbrev pub sms_schema : Bytes
sms_schema = codes "sms_notifications"

-- What the select of the loop takes: a message by its id, with the error of the sender if it has one,
-- the end of the route's channel, or of the context.
pub data ProxyEvent (E : Type 0) : Type 0 where
  received : ℕ → Option E → ProxyEvent E
  route_closed context_done : ProxyEvent E

-- How the loop ends; `running` if it waits.
pub data ProxyEnd (E : Type 0) : Type 0 where
  running route_channel_closed stopped : ProxyEnd E
  not_sent : ℕ → E → ProxyEnd E

module _ (S : KvStore) (marshal : ℕ → Bytes) (unmarshal : Bytes → Option ℕ) where
  pub record Gateway : Type 0 where
    pub topic : Bytes
    pub last_id_sent : ℕ
    pub kv_store : S.State

  abbrev remembered : ℕ → Gateway → Bool × S.State → Bool × Gateway
  remembered id g (true, s) = (true, record g { kv_store = s; last_id_sent = id })
  remembered id g (false, s) = (false, record g { kv_store = s })

  -- SetLastSentID; it says whether it succeeded.
  unfoldable pub set_last_sent_id : ℕ → Gateway → Bool × Gateway
  set_last_sent_id id g = remembered id g (S.put g.kv_store sms_schema g.topic (marshal id))

  abbrev parsed_id : Gateway → Option ℕ → Bool × Gateway
  parsed_id g none = (false, g)
  parsed_id g (some id) = (true, record g { last_id_sent = id })

  abbrev read_reply : Gateway → Reply (Option Bytes) → Bool × Gateway
  read_reply g failure = (false, g)
  read_reply g (answer none) = (true, record g { last_id_sent = 0 })
  read_reply g (answer (some data')) = parsed_id g (unmarshal data')

  unfoldable pub read_last_id : Gateway → Bool × Gateway
  read_last_id g =
      let (reply, s) = S.get g.kv_store sms_schema g.topic in
      read_reply (record g { kv_store = s }) reply

  unfoldable pub fetch_request : Gateway → Option FetchRequest
  unfolding partition new_fetch_request
  fetch_request g =
      if ltb 0 g.last_id_sent
      then some (
          new_fetch_request (partition g.topic) ((g.last_id_sent + 1) % 2 ^ 64) 0 forward
            (negsuc 0))
      else none

  module _ {E : Type 0} where
    -- send, with the error of the sender; the error of SetLastSentID is dropped.
    unfoldable pub send : ℕ → Option E → Gateway → Gateway
    unfolding set_last_sent_id
    send id none g = (set_last_sent_id id g).1
    send id (some e) g = g

    unfoldable pub proxy_loop : List (ProxyEvent E) → Gateway → ProxyEnd E × Gateway
    unfolding send
    proxy_loop [] g = (running, g)
    proxy_loop (route_closed ∷ events) g = (route_channel_closed, g)
    proxy_loop (context_done ∷ events) g = (stopped, g)
    proxy_loop (received id none ∷ events) g = proxy_loop events (send id none g)
    proxy_loop (received id (some e) ∷ events) g = (not_sent id e, g)
