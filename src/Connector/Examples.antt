-- ===== src/Connector/Examples.antt =====
-- Subscribers without parameters, whose data is written as the last id and the topic, in the
-- key-value store in memory.
use guble.Prelude.{
  ℕ, ◌≡◌, refl, ap, sym, Bytes, bytes_comparable, codes, find, [], ◌∷◌, Option, none, some, arith,
}
use guble.Router.Params.{RouteParams}
use guble.KvStore.{new_memory_kv_store, get_value, get_schema}
use guble.KvStore.Memory.{memory_kv_store, memory_kv_store-IsLawful}
use guble.Connector.Subscriber.{
  SubscriberData, Subscriber, new_subscriber, new_subscriber_from_data,
}
use guble.Connector.Manager.{SubscriberJson, Manager, new_manager, add, load}
use guble.Connector.Manager.Mirror.{IsMirror, here, next, added, Reach-IsMirror}
use guble.Connector.Manager.Loading.{Restored, load-Restored}

write_data : SubscriberData → RouteParams → Option Bytes
write_data d [] = some (d.last_id ∷ d.topic)
write_data d (p ∷ params) = none

read_data : Bytes → Option SubscriberData
read_data [] = none
read_data (n ∷ topic) = some (record { topic = topic; params = []; last_id = n })

json : SubscriberJson
unfolding write_data
json = record { marshal = λ d. write_data d d.params; unmarshal = read_data }

read-written :
    (topic : Bytes) (params : RouteParams) (last_id : ℕ) (value : Bytes)
    → write_data (record { topic = topic; params = params; last_id = last_id }) params ≡ some value
    → read_data value ≡ some (record { topic = topic; params = params; last_id = last_id })
unfolding write_data read_data
read-written topic [] last_id value e = sym (ap read_option e)
  where
    read_option : Option Bytes → Option SubscriberData
    read_option none = none
    read_option (some v) = read_data v
read-written topic (p ∷ params) last_id value e = absurd (grind arith)

sha1 : Bytes → Bytes
sha1 s = s

abbrev empty_manager : Manager memory_kv_store json sha1
empty_manager = new_manager memory_kv_store json sha1 (codes "sms") new_memory_kv_store

anna : Subscriber
anna = new_subscriber (codes "/a") [] 3

one_subscriber : Manager memory_kv_store json sha1
one_subscriber = (add memory_kv_store json sha1 anna empty_manager).1

empty-IsMirror : IsMirror memory_kv_store json sha1 empty_manager
unfolding find get_value get_schema
empty-IsMirror key = refl

Reach-IsMirror_example : IsMirror memory_kv_store json sha1 one_subscriber
unfolding one_subscriber anna new_subscriber new_subscriber_from_data
Reach-IsMirror_example =
    Reach-IsMirror memory_kv_store json sha1 memory_kv_store-IsLawful
      (next here (added anna empty_manager refl)) empty-IsMirror

load-Restored_example :
    Restored memory_kv_store json sha1
      (find one_subscriber.subscribers (codes "/a"))
      (memory_kv_store.get one_subscriber.kv_store (codes "sms") (codes "/a")).0
      (find
        (load memory_kv_store json sha1 (
          new_manager memory_kv_store json sha1
            (codes "sms")
            one_subscriber.kv_store)).1.subscribers
        (codes "/a"))
unfolding one_subscriber write_data json add find anna new_subscriber
load-Restored_example =
    (load-Restored memory_kv_store json sha1 memory_kv_store-IsLawful
      (λ d value e. read-written d.topic d.params d.last_id value e) one_subscriber
      (memory_kv_store-IsLawful.put-IsValid new_memory_kv_store _ _ _ (λ schema. tt))
      Reach-IsMirror_example (codes "/a")).1
