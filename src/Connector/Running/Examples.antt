-- ===== src/Connector/Running/Examples.antt =====
-- A subscriber whose route is closed after two messages, and one whose Provide fails at once.
use guble.Prelude.{◌≡◌, refl, codes, List, [], ◌∷◌, none, some, true}
use guble.Connector.Subscriber.{Subscriber, new_subscriber, new_subscriber_from_data, set_last_id}
use guble.Connector.Running.{
  fetch_failed, route_channel_closed, SubscriberRun, started, Event, provide_ends, loop_begins,
  route_closed, message, responded, step, run, run_end,
}
use guble.Connector.Running.Explained.{Reach, here, next, Explained, run_end-Explained}
use guble.Connector.Running.Waiting.{run_waits}

anna : Subscriber
anna = new_subscriber (codes "/a") [] 3

abbrev history : List Event
history = route_closed ∷ message 5 ∷ responded 4 ∷ message 4 ∷ loop_begins ∷ provide_ends none ∷ []

abbrev closed : SubscriberRun
closed = record (started anna) {
  subscriber = set_last_id 4 anna;
  provided = true;
  loop_end = some route_channel_closed;
  pushed = 5 ∷ 4 ∷ [];
}

closed-Reach : Reach anna history closed
unfolding step anna new_subscriber new_subscriber_from_data set_last_id
closed-Reach = next (next (next (next (next (next here refl) refl) refl) refl) refl) refl

run_end-Explained_example :
    Explained anna history (run_end route_channel_closed closed.provide_error closed.subscriber)
run_end-Explained_example = run_end-Explained anna route_channel_closed closed-Reach refl

abbrev waiting : SubscriberRun
waiting = record (started anna) {
  subscriber = record anna { looping = true };
  provided = true;
  provide_error = some fetch_failed;
  pushed = 4 ∷ [];
}

run_waits_example :
    (waiting.loop_end ≡ none)
    × (waiting.provide_error ≡ some fetch_failed)
    × (waiting.subscriber.looping ≡ true)
unfolding run step anna new_subscriber new_subscriber_from_data
run_waits_example = run_waits anna fetch_failed (message 4 ∷ []) waiting refl (tt, tt) refl
