-- ===== src/Router/Closing/Examples.antt =====
-- A path with three routes; the state of the routes is the list of those that were closed.
use guble.Prelude.{
  ℕ, ◌≡◌, refl, Bytes, bytes_comparable, bytes_eq, codes, find, List, [], ◌∷◌, ◌++◌, some, none,
  true, false,
}
use guble.Router.Params.{equal}
use guble.Router.Routes.{Route, RouteTable, route_equal}
use guble.Router.Routes.Table.{routes_at}
use guble.Router.Closing.{close_path}
use guble.Router.Closing.Skipping.{close_path-skips}

abbrev news : Bytes
news = codes "/news"

abbrev route_of : ℕ → Bytes → Route
route_of object user = record {
  object = object;
  config = record { path = news; params = (codes "user_id", user) ∷ [] };
  matcher = none;
}

abbrev anna : Route
anna = route_of 1 (codes "anna")

abbrev ben : Route
ben = route_of 2 (codes "ben")

abbrev carl : Route
carl = route_of 3 (codes "carl")

abbrev three : RouteTable
three = (news, record { cells = anna ∷ ben ∷ carl ∷ []; len = 3 }) ∷ []

abbrev log_closed : Route → List ℕ → List ℕ
log_closed r closed = closed ++ (r.object ∷ [])

three_found : find three news ≡ some (record { cells = anna ∷ ben ∷ carl ∷ []; len = 3 })
unfolding find bytes_eq
three_found = refl

carl_is_carl : route_equal carl carl [] ≡ true
unfolding route_equal equal find bytes_eq
carl_is_carl = refl

ben_is_not_carl : route_equal ben carl [] ≡ false
unfolding route_equal equal find bytes_eq
ben_is_not_carl = refl

anna_is_anna : route_equal anna anna [] ≡ true
unfolding route_equal equal find bytes_eq
anna_is_anna = refl

-- Ben is not closed.
close_path-skips_example :
    ((close_path log_closed news three []).1 ≡ 1 ∷ 3 ∷ 3 ∷ [])
    × (routes_at (close_path log_closed news three []).0 news ≡ ben ∷ [])
close_path-skips_example =
    close_path-skips anna ben carl carl_is_carl ben_is_not_carl anna_is_anna log_closed three []
      refl three_found
