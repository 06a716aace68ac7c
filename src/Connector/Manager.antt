-- ===== src/Connector/Manager.antt =====
-- server/connector/manager.go: the subscribers by key, in memory and in a key-value store. The map
-- holds pointers: what SetLastID changes in a subscriber is changed in the map, which is
-- `touch_last_id`. The JSON of a subscriber's data is a parameter, as is SHA-1.
pub mod Mirror
pub mod Loading
use guble.Prelude.{
  ℕ, Bytes, bytes_comparable, Dict, find, put, remove, List, [], ◌∷◌, Option, none, some, Bool,
  true, false, if◌then◌else◌,
}
use guble.Router.Params.{RouteParams}
use guble.KvStore.Interface.{KvStore}
use guble.Connector.Subscriber.{
  SubscriberData, Subscriber, new_subscriber_from_data, new_subscriber, set_last_id,
  subscriber_filter, generate_key, key_of, with_key,
}

-- json.Marshal and json.Unmarshal of a SubscriberData; `none` is an error.
pub record SubscriberJson : Type 0 where
  pub marshal : SubscriberData → Option Bytes
  pub unmarshal : Bytes → Option SubscriberData

pub data ManagerError : Type 0 where
  subscriber_exists subscriber_does_not_exist encode_failed decode_failed kv_failed : ManagerError

module _ (S : KvStore) (json : SubscriberJson) (sha1 : Bytes → Bytes) where
  pub record Manager : Type 0 where
    pub schema : Bytes
    pub kv_store : S.State
    pub subscribers : Dict Bytes Subscriber

  -- NewManager
  abbrev pub new_manager : Bytes → S.State → Manager
  new_manager schema kv = record { schema = schema; kv_store = kv; subscribers = [] }

  unfoldable pub put_subscriber : Subscriber → Manager → Manager
  put_subscriber s m = record m {
    subscribers = put m.subscribers (key_of sha1 s) (with_key sha1 s);
  }

  unfoldable pub delete_subscriber : Subscriber → Manager → Manager
  delete_subscriber s m = record m { subscribers = remove m.subscribers (key_of sha1 s) }

  abbrev pub is_some : Option Subscriber → Bool
  is_some none = false
  is_some (some s) = true

  -- Exists
  unfoldable pub exists_key : Bytes → Manager → Bool
  exists_key key m = is_some (find m.subscribers key)

  -- Find
  unfoldable pub find_subscriber : Bytes → Manager → Option Subscriber
  find_subscriber key m = find m.subscribers key

  -- List
  unfoldable pub list_all : Dict Bytes Subscriber → List Subscriber
  list_all [] = []
  list_all ((key, s) ∷ subscribers) = s ∷ list_all subscribers

  -- Filter
  unfoldable pub filter_all : Dict Bytes Bytes → Dict Bytes Subscriber → List Subscriber
  filter_all filters [] = []
  filter_all filters ((key, s) ∷ subscribers) =
      let rest = filter_all filters subscribers in
      if subscriber_filter s filters then s ∷ rest else rest

  -- The loop of Load: an error leaves what was loaded before.
  abbrev pub load_one :
      Option SubscriberData
      → Manager
      → (Manager → Option ManagerError × Manager)
      → Option ManagerError × Manager
  load_one none m continue = (some decode_failed, m)
  load_one (some d) m continue = continue (put_subscriber (new_subscriber_from_data d) m)

  unfoldable pub load_entries : Dict Bytes Bytes → Manager → Option ManagerError × Manager
  unfolding put_subscriber
  load_entries [] m = (none, m)
  load_entries ((key, value) ∷ entries) m =
      load_one (json.unmarshal value) m (λ m'. load_entries entries m')

  unfoldable pub load : Manager → Option ManagerError × Manager
  unfolding load_entries
  load m =
      let (entries, kv) = S.iterate m.kv_store m.schema [] in
      load_entries entries (record m { kv_store = kv })

  -- updateStore
  abbrev pub put_result : Bool × S.State → Manager → Option ManagerError × Manager
  put_result (true, kv) m = (none, record m { kv_store = kv })
  put_result (false, kv) m = (some kv_failed, record m { kv_store = kv })

  abbrev pub put_encoded : Bytes → Option Bytes → Manager → Option ManagerError × Manager
  put_encoded key none m = (some encode_failed, m)
  put_encoded key (some value) m = put_result (S.put m.kv_store m.schema key value) m

  unfoldable pub update_store : Subscriber → Manager → Option ManagerError × Manager
  update_store s m = put_encoded (key_of sha1 s) (json.marshal s.data') m

  -- The map is changed after the store, if that did not fail.
  abbrev pub unless_failed :
      (Manager → Manager) → Option ManagerError × Manager → Option ManagerError × Manager
  unless_failed f (some e, m) = (some e, m)
  unless_failed f (none, m) = (none, f m)

  unfoldable pub add : Subscriber → Manager → Option ManagerError × Manager
  unfolding update_store put_subscriber exists_key
  add s m =
      if exists_key (key_of sha1 s) m
      then (some subscriber_exists, m)
      else unless_failed (put_subscriber s) (update_store s m)

  -- Update
  unfoldable pub update_subscriber : Subscriber → Manager → Option ManagerError × Manager
  unfolding update_store put_subscriber exists_key
  update_subscriber s m =
      if exists_key (key_of sha1 s) m
      then unless_failed (put_subscriber s) (update_store s m)
      else (some subscriber_does_not_exist, m)

  -- Create gives the new subscriber with a nil error.
  unfoldable pub create : Bytes → RouteParams → Manager → Option ManagerError × Manager
  unfolding add
  create topic params m =
      if exists_key (generate_key sha1 topic params) m
      then (some subscriber_exists, m)
      else add (new_subscriber topic params 0) m

  -- removeStore
  unfoldable pub remove_store : Subscriber → Manager → Option ManagerError × Manager
  remove_store s m = put_result (S.delete m.kv_store m.schema (key_of sha1 s)) m

  -- Remove, with whether a running Loop was cancelled, which happens first.
  unfoldable pub remove_subscriber : Subscriber → Manager → Bool × (Option ManagerError × Manager)
  unfolding remove_store delete_subscriber exists_key
  remove_subscriber s m = (
    s.looping,
    if exists_key (key_of sha1 s) m
        then unless_failed (delete_subscriber s) (remove_store s m)
        else (some subscriber_does_not_exist, m),
  )

  -- SetLastID of the subscriber of a key, wherever it is called from.
  abbrev pub touch_in : Bytes → ℕ → Option Subscriber → Manager → Manager
  touch_in key id none m = m
  touch_in key id (some s) m = record m { subscribers = put m.subscribers key (set_last_id id s) }

  unfoldable pub touch_last_id : Bytes → ℕ → Manager → Manager
  touch_last_id key id m = touch_in key id (find m.subscribers key) m
