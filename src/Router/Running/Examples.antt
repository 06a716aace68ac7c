-- ===== src/Router/Running/Examples.antt =====
-- A router that is told to stop with a subscription and a message in its channels; the state of the
-- routes is the list of those that got a message or were closed.
use guble.Prelude.{
  ℕ, ◌≡◌, refl, Bytes, bytes_comparable, bytes_eq, codes, ◌≟◌, find, put, List, [], ◌∷◌, ◌++◌, none,
  Bool, false, arith,
}
use guble.Protocol.Decimal.{pos}
use guble.Protocol.Message.{Message}
use guble.Router.Params.{get}
use guble.Router.Entry.{AccessType}
use guble.Router.Routes.{Route, subscribe, append_route}
use guble.Router.Running.{
  Running, Case, message, subscriber, done, waiting, request_stop, request_subscribe,
  get_subscribers, take_message, take_subscriber, run_case, run_loop, read_done,
}
use guble.Router.Running.Draining.{EndsEmpty, run_loop-EndsEmpty, run_loop-goes_on}

abbrev hello : Message
hello = record {
  id = 1;
  path = codes "/a/b";
  user_id = [];
  application_id = [];
  filters = none;
  time = pos 0;
  header_json = [];
  body = codes "x";
  node_id = 0;
}

abbrev anna : Route
anna = record {
  object = 7;
  config = record { path = codes "/a"; params = (codes "user_id", codes "anna") ∷ [] };
  matcher = none;
}

abbrev only_anna : AccessType → Bytes → Bytes → Bool
only_anna access user path = user ≟ codes "anna"

abbrev idle : Running (List ℕ)
idle = record {
  routes = [];
  state = [];
  handle_c = hello ∷ [];
  subscribe_c = [];
  unsubscribe_c = [];
  stop_c = false;
  stopping = false;
}

unfoldable asked : Running (List ℕ)
asked = request_stop (record idle { subscribe_c = anna ∷ [] })

anna_may_wait :
    request_subscribe only_anna anna idle ≡ (waiting, record idle { subscribe_c = anna ∷ [] })
unfolding request_subscribe get find bytes_eq
anna_may_wait = refl

abbrev log_message : Message → Route → List ℕ → List ℕ × Bool
log_message m r s = (s ++ (r.object ∷ []), false)

abbrev log_closed : Route → List ℕ → List ℕ
log_closed r s = s ++ (r.object ∷ [])

abbrev order : List Case
order = subscriber ∷ done ∷ message ∷ []

run_loop-EndsEmpty_example :
    EndsEmpty log_message log_closed (run_loop log_message log_closed order asked)
unfolding asked run_case take_subscriber take_message
run_loop-EndsEmpty_example =
    run_loop-EndsEmpty log_message log_closed order asked refl
      (omega arith, (refl, (omega arith, tt))) (omega arith)

anna_is_listed :
    get_subscribers (codes "/a") (run_case log_message log_closed subscriber asked)
    ≡ anna.config.params ∷ []
unfolding asked get_subscribers run_case take_subscriber subscribe append_route find put bytes_eq
anna_is_listed = refl

-- The route that fetches was quicker than the router.
run_loop-goes_on_example :
    (run_loop log_message log_closed order (read_done (request_stop idle))).1 ≡ false
run_loop-goes_on_example = run_loop-goes_on log_message log_closed order idle refl
