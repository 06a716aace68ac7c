-- ===== src/Connector/Subscriber.antt =====
-- server/connector/subscriber.go: what a subscriber is and its key. SHA-1 with its hexadecimal
-- printing is a parameter. The parameters of the data and of its route are one map.
use guble.Prelude.{
  ℕ, zero, suc, Bytes, bytes_comparable, Dict, put, List, [], ◌∷◌, ◌++◌, Option, none, some, Bool,
  true, false, ◌||◌, ◌&&◌, if◌then◌else◌, ltb, nat_eq,
}
use guble.Protocol.Split.{partition}
use guble.Protocol.Decimal.{negsuc}
use guble.Router.Params.{RouteParams}
use guble.Router.Params as Params
use guble.Router.Routes.{RouteConfig}
use guble.Store.Fetch.{FetchRequest, forward, new_fetch_request}

pub record SubscriberData : Type 0 where
  pub topic : Bytes
  pub params : RouteParams
  pub last_id : ℕ

-- The configuration of the subscriber's route, with the fetch that comes before its subscription.
pub record NewRoute : Type 0 where
  pub config : RouteConfig
  pub fetch_request : Option FetchRequest

-- The `fr` of newRoute: a fetch from the last id on, if there is one.
abbrev pub fetch_from : Bytes → ℕ → Option FetchRequest
fetch_from topic zero = none
fetch_from topic (suc n) = some (new_fetch_request (partition topic) (suc n) 0 forward (negsuc 0))

unfoldable pub new_route : SubscriberData → NewRoute
new_route sd = record {
  config = record { path = sd.topic; params = sd.params };
  fetch_request = fetch_from sd.topic sd.last_id;
}

-- `key` is empty until the key was asked for. `looping` is whether Loop runs, which has set `cancel`.
pub record Subscriber : Type 0 where
  pub data' : SubscriberData
  pub key : Bytes
  pub route : NewRoute
  pub looping : Bool

unfoldable pub new_subscriber_from_data : SubscriberData → Subscriber
unfolding new_route
new_subscriber_from_data d = record { data' = d; key = []; route = new_route d; looping = false }

unfoldable pub new_subscriber : Bytes → RouteParams → ℕ → Subscriber
unfolding new_subscriber_from_data
new_subscriber topic params last_id =
    new_subscriber_from_data (record { topic = topic; params = params; last_id = last_id })

unfoldable pub reset : Subscriber → Subscriber
unfolding new_route
reset s = record s { route = new_route s.data'; looping = false }

unfoldable pub set_last_id : ℕ → Subscriber → Subscriber
set_last_id id s = record s { data' = record (s.data') { last_id = id } }

-- Set of the subscriber's route, whose parameters are also those of the data. The key is kept.
unfoldable pub set_param : Bytes → Bytes → Subscriber → Subscriber
set_param name value s =
    let params = put s.route.config.params name value in
    record s {
      data' = record (s.data') { params = params };
      route = record (s.route) { config = record (s.route.config) { params = params } };
    }

-- Filter of the subscriber's route.
unfoldable pub subscriber_filter : Subscriber → Dict Bytes Bytes → Bool
subscriber_filter s filters = Params.filter s.route.config.params filters

-- The order of sort.Strings: bytes first to last, a beginning before what continues it.
unfoldable pub bytes_le : Bytes → Bytes → Bool
bytes_le [] t = true
bytes_le (b ∷ s) [] = false
bytes_le (b ∷ s) (c ∷ t) = ltb b c || (nat_eq b c && bytes_le s t)

unfoldable pub insert_sorted : Bytes → List Bytes → List Bytes
insert_sorted k [] = k ∷ []
insert_sorted k (j ∷ keys) =
    let rest = insert_sorted k keys in if bytes_le k j then k ∷ j ∷ keys else j ∷ rest

-- sort.Strings of the keys of a map
unfoldable pub sorted_keys : RouteParams → List Bytes
unfolding insert_sorted
sorted_keys [] = []
sorted_keys ((k, v) ∷ params) = insert_sorted k (sorted_keys params)

abbrev pub colon : ℕ
colon = 58

-- fmt.Sprintf("%s:%s", k, params[k]) for each key
unfoldable pub written_params : RouteParams → List Bytes → Bytes
written_params params [] = []
written_params params (k ∷ keys) = k ++ (colon ∷ Params.get params k) ++ written_params params keys

unfoldable pub generate_key : (Bytes → Bytes) → Bytes → RouteParams → Bytes
unfolding sorted_keys written_params
generate_key sha1 topic params = sha1 (topic ++ written_params params (sorted_keys params))

unfoldable pub subscriber_key : (Bytes → Bytes) → SubscriberData → Bytes
unfolding generate_key
subscriber_key sha1 d = generate_key sha1 d.topic d.params

-- Key, of the key kept so far: it is computed if there is none.
abbrev pub kept_or_generated : (Bytes → Bytes) → Bytes → SubscriberData → Bytes
kept_or_generated sha1 [] d = subscriber_key sha1 d
kept_or_generated sha1 (b ∷ key) d = b ∷ key

abbrev pub key_of : (Bytes → Bytes) → Subscriber → Bytes
key_of sha1 s = kept_or_generated sha1 s.key s.data'

-- The subscriber after Key, which keeps the key.
abbrev pub with_key : (Bytes → Bytes) → Subscriber → Subscriber
with_key sha1 s = record s { key = key_of sha1 s }
