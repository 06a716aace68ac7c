-- ===== src/Connector/Endpoint.antt =====
-- server/connector/connector.go and substitution.go: the HTTP handlers of a connector, without the
-- running of a new subscription. What gorilla/mux and the decoders make of a request is given.
use guble.Prelude.{
  ℕ, suc, Bytes, bytes_comparable, codes, Dict, find, put, remove, List, [], ◌∷◌, ◌++◌, Option,
  none, some, Bool, ◌||◌, if◌then◌else◌, nat_eq, length,
}
use guble.Router.Params.{RouteParams}
use guble.Protocol.Split.{without_slash}
use guble.KvStore.Interface.{KvStore}
use guble.Connector.Subscriber.{Subscriber, set_param, generate_key}
use guble.Connector.Manager.{
  SubscriberJson, ManagerError, subscriber_exists, Manager, put_subscriber, find_subscriber,
  filter_all, create, update_subscriber, remove_subscriber,
}

pub data Response : Type 0 where
  missing_filters missing_topic already_exists not_found bad_body missing_values : Response
  unknown_error : ManagerError → Response
  topics : List Bytes → Response
  subscribed unsubscribed : Bytes → Response
  modified : ℕ → Response

pub record Substitution : Type 0 where
  pub field_name : Bytes
  pub old_value : Bytes
  pub new_value : Bytes

abbrev pub is_empty : Bytes → Bool
is_empty s = nat_eq (length s) 0

-- Whether isValid does not hold.
abbrev pub lacks_value : Substitution → Bool
lacks_value s = is_empty s.field_name || (is_empty s.new_value || is_empty s.old_value)

-- The first value of each key of the query that has one.
unfoldable pub query_filters : Dict Bytes (List Bytes) → Dict Bytes Bytes
query_filters [] = []
query_filters ((key, []) ∷ query) = query_filters query
query_filters ((key, value ∷ values) ∷ query) = (key, value) ∷ query_filters query

unfoldable pub topics_of : List Subscriber → List Bytes
topics_of [] = []
topics_of (s ∷ subscribers) = without_slash s.route.config.path ∷ topics_of subscribers

abbrev pub topic_param : Bytes
topic_param = codes "topic"

module _ (S : KvStore) (json : SubscriberJson) (sha1 : Bytes → Bytes) (name : Bytes) where
  unfoldable pub get_list : Dict Bytes (List Bytes) → Manager S json sha1 → Response
  unfolding query_filters topics_of
  get_list query m = elim (query_filters query) [
    | [] ↦ missing_filters
    | filter ∷ filters ↦
        topics (topics_of (filter_all S json sha1 (filter ∷ filters) m.subscribers))
  ]

  -- The parameters of a subscription, from those of the URL.
  abbrev pub own_params : RouteParams → RouteParams
  own_params params = put (remove params topic_param) (codes "connector") name

  abbrev pub created :
      Bytes → Option ManagerError × Manager S json sha1 → Response × Manager S json sha1
  created topic (none, m) = (subscribed topic, m)
  created topic (some subscriber_exists, m) = (already_exists, m)
  created topic (some e, m) = (unknown_error e, m)

  abbrev pub post_topic :
      Option Bytes → RouteParams → Manager S json sha1 → Response × Manager S json sha1
  post_topic none params m = (missing_topic, m)
  post_topic (some topic) params m =
      created topic (create S json sha1 (codes "/" ++ topic) (own_params params) m)

  unfoldable pub post : RouteParams → Manager S json sha1 → Response × Manager S json sha1
  post params m = post_topic (find params topic_param) params m

  abbrev pub deleted :
      Bytes → Option ManagerError × Manager S json sha1 → Response × Manager S json sha1
  deleted topic (none, m) = (unsubscribed topic, m)
  deleted topic (some e, m) = (unknown_error e, m)

  abbrev pub delete_found :
      Bytes → Option Subscriber → Manager S json sha1 → Response × Manager S json sha1
  delete_found topic none m = (not_found, m)
  delete_found topic (some s) m = deleted topic (remove_subscriber S json sha1 s m).1

  abbrev pub delete_topic :
      Option Bytes → RouteParams → Manager S json sha1 → Response × Manager S json sha1
  delete_topic none params m = (missing_topic, m)
  delete_topic (some topic) params m =
      delete_found topic
        (find_subscriber S json sha1 (generate_key sha1 (codes "/" ++ topic) (own_params params)) m)
        m

  -- Delete
  unfoldable pub delete_subscription :
      RouteParams → Manager S json sha1 → Response × Manager S json sha1
  delete_subscription params m = delete_topic (find params topic_param) params m

  -- The loop of Substitute. The subscriber of the map is changed, also if its update fails.
  abbrev pub substituted :
      Option ManagerError × Manager S json sha1
      → (Manager S json sha1 → Response × Manager S json sha1)
      → Response × Manager S json sha1
  substituted (some e, m) continue = (unknown_error e, m)
  substituted (none, m) continue = continue m

  unfoldable pub substitute_all :
      Substitution → List Subscriber → ℕ → Manager S json sha1 → Response × Manager S json sha1
  substitute_all req [] updated m = (modified updated, m)
  substitute_all req (sub ∷ subscribers) updated m =
      let changed = set_param req.field_name req.new_value sub in
      substituted (update_subscriber S json sha1 changed (put_subscriber S json sha1 changed m))
        (λ m'. substitute_all req subscribers (suc updated) m')

  unfoldable pub substitute_body :
      Option Substitution → Manager S json sha1 → Response × Manager S json sha1
  unfolding substitute_all
  substitute_body none m = (bad_body, m)
  substitute_body (some req) m =
      if lacks_value req
      then (missing_values, m)
      else substitute_all req
          (filter_all S json sha1 ((req.field_name, req.old_value) ∷ []) m.subscribers) 0 m

  -- Substitute
  unfoldable pub substitute :
      Option Substitution → Manager S json sha1 → Response × Manager S json sha1
  unfolding substitute_body
  substitute body m = substitute_body body m
