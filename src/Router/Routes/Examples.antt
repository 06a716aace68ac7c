-- ===== src/Router/Routes/Examples.antt =====
-- Tables with concrete routes; the state of the routes is the list of those that were delivered to.
use guble.Prelude.{
  ℕ, ◌≡◌, refl, Bytes, bytes_comparable, bytes_eq, codes, ◌≟◌, find, put, List, [], ◌∷◌, ◌++◌, none,
  some, Bool, true, false, if◌then◌else◌, arith,
}
use guble.Router.Params.{equal}
use guble.Router.Routes.{
  Route, route_equal, RouteTable, position_of, remove_if_matching, append_route, subscribe,
  unsubscribe, handle_message, paths_of,
}
use guble.Router.Routes.Slices.{remove_first}
use guble.Router.Routes.Table.{routes_at, IsTable, Kept, subscribe-routes_at, unsubscribe-routes_at}
use guble.Router.Routes.Handling.{deliver_all, recipients, handle_message-all}

abbrev news : Bytes
news = codes "/news"

abbrev route_of : ℕ → Bytes → Route
route_of object user = record {
  object = object;
  config = record { path = news; params = (codes "user_id", user) ∷ [] };
  matcher = none;
}

abbrev anna : Route
anna = route_of 1 (codes "anna")

abbrev ben : Route
ben = route_of 2 (codes "ben")

abbrev carl : Route
carl = route_of 3 (codes "carl")

abbrev three : RouteTable
three = (news, record { cells = anna ∷ ben ∷ carl ∷ []; len = 3 }) ∷ []

three_found : find three news ≡ some (record { cells = anna ∷ ben ∷ carl ∷ []; len = 3 })
unfolding find bytes_eq
three_found = refl

three-IsTable : IsTable three
unfolding find
three-IsTable = record { kept = kept }
  where
    at :
        (b : Bool)
        → Kept (if b then some (record { cells = anna ∷ ben ∷ carl ∷ []; len = 3 }) else none)
    at true = (omega arith, omega arith)
    at false = tt

    kept : (path : Bytes) → Kept (find three path)
    kept path = at (news ≟ path)

subscribe-routes_at_example :
    (routes_at (subscribe three ben) news ≡ (
      if news ≟ news
      then remove_first (routes_at three news) ben ++ (ben ∷ [])
      else routes_at three news))
    × IsTable (subscribe three ben)
subscribe-routes_at_example = subscribe-routes_at three ben news three-IsTable

ben_goes_last : routes_at (subscribe three ben) news ≡ anna ∷ carl ∷ ben ∷ []
unfolding subscribe remove_if_matching append_route position_of route_equal equal find put bytes_eq
ben_goes_last = refl

unsubscribe-routes_at_example :
    (routes_at (unsubscribe three anna) news
      ≡ (if news ≟ news then remove_first (routes_at three news) anna else routes_at three news))
    × IsTable (unsubscribe three anna)
unsubscribe-routes_at_example = unsubscribe-routes_at three anna news three-IsTable

abbrev record_all : Route → List ℕ → List ℕ × Bool
record_all r s = (s ++ (r.object ∷ []), false)

handle_message-all_example : handle_message record_all (codes "/news/local") three [] ≡ (
  three,
  deliver_all record_all (recipients record_all (codes "/news/local") three (paths_of three)) [],
)
handle_message-all_example =
    handle_message-all record_all (λ r s. refl) (codes "/news/local") three [] three-IsTable
