-- ===== src/Websocket/Examples.antt =====
-- Receivers of one topic.
use guble.Prelude.{◌≡◌, refl, codes, List, [], ◌∷◌, some, true, false, arith, none, has_prefix}
use guble.Protocol.Message.{Message, Json, message_bytes}
use guble.Websocket.Commands.{check_access, extract_user_id}
use guble.Websocket.Commands.Access.{check_access-message_bytes}
use guble.Protocol.Decimal.{pos}
use guble.Websocket.Receiver.{
  Receiver, from_path, counted, fetched, closed, fetch_loop, delivered, route_closed,
  cancel_subscription, receive_loop, Round, subscribe_and_receive, run_round, subscription_loop,
}
use guble.Websocket.Receiver.Ascending.{sent_ids}

fetching : Receiver
fetching = record (from_path (codes "/a")) { do_fetch = true; start_id = pos 1 }

-- Two messages are fetched, the second is delivered again with a third, then the router closes the
-- route, and a fourth, which has not the id that follows, is fetched, with the third once more.
rounds : List Round
rounds =
    record {
      fetch_events = counted 2 ∷ fetched 1 (codes "a") ∷ fetched 2 (codes "b") ∷ closed ∷ [];
      max_message_id = some 2;
      accepted = true;
      receive_events = delivered 2 (codes "b") ∷ delivered 3 (codes "c") ∷ route_closed ∷ [];
    }
    ∷ record {
      fetch_events = fetched 3 (codes "c") ∷ fetched 5 (codes "d") ∷ closed ∷ [];
      max_message_id = some 5;
      accepted = true;
      receive_events = cancel_subscription ∷ [];
    }
    ∷ []

third_is_repeated : sent_ids (subscription_loop rounds fetching).0 ≡ 1 ∷ 2 ∷ 3 ∷ 3 ∷ 5 ∷ []
unfolding rounds fetching subscription_loop run_round subscribe_and_receive fetch_loop receive_loop
    sent_ids
third_is_repeated = refl

no_json : Json
no_json = record { marshal = λ m. []; unmarshal = λ s. none }

hello : Message
hello = record {
  id = 42;
  path = codes "/a";
  user_id = [];
  application_id = [];
  filters = none;
  time = pos 5;
  header_json = [];
  body = codes "x";
  node_id = 1;
}

check_access-message_bytes_example :
    check_access (λ path. false) (message_bytes no_json hello) ≡ some false
unfolding hello
check_access-message_bytes_example =
    check_access-message_bytes no_json (λ path. false) hello
      (record {
        rest = codes "a";
        topic = refl;
        path_field = (
          (λ e. omega arith, (λ e. omega arith, tt)),
          (λ e. omega arith, (λ e. omega arith, tt)),
        );
        user_field = (tt, tt);
        application_field = (tt, tt);
        filters = tt;
        header_line = tt;
        id_bits = omega arith;
        time_bits = omega arith;
        node_bits = omega arith;
      })

user_of_uri : extract_user_id (codes "http://example.com/user/user01") ≡ codes "user01"
unfolding extract_user_id has_prefix
user_of_uri = refl
