-- ===== src/Router/Params.antt =====
-- server/router/route_params.go and the filters of route_config.go: parameters of a route, how two
-- routes are compared, and which messages pass. The entries of a map stand in any order.
mod Examples
use guble.Prelude.{
  ℕ, Bytes, bytes_comparable, Dict, find, List, [], ◌∷◌, Option, none, some, Bool, true, false, not,
  ◌&&◌, ◌||◌, ◌≟◌, nat_eq, ltb, if◌then◌else◌, length,
}

abbrev pub RouteParams : Type 0
RouteParams = Dict Bytes Bytes

-- A missing key reads as the empty string.
unfoldable pub get : RouteParams → Bytes → Bytes
get rp key = elim (find rp key) [ none ↦ [] | some value ↦ value ]

-- v2, ok := other[k]; ok and v == v2
abbrev pub same_at : Option Bytes → Bytes → Bool
same_at none v = false
same_at (some v2) v = v ≟ v2

unfoldable pub partial_equal : RouteParams → RouteParams → List Bytes → Bool
partial_equal rp other [] = true
partial_equal rp other (key ∷ fields) =
    same_at (find other key) (get rp key) && partial_equal rp other fields

-- The loop over all parameters.
pub all_in : RouteParams → RouteParams → Bool
all_in [] other = true
all_in ((k, v) ∷ rp) other = same_at (find other k) v && all_in rp other

unfoldable pub equal : RouteParams → RouteParams → List Bytes → Bool
unfolding all_in partial_equal
equal rp other [] = if not (nat_eq (length rp) (length other)) then false else all_in rp other
equal rp other (key ∷ keys) = partial_equal rp other (key ∷ keys)

-- Filter: every filter has the route's value.
unfoldable pub filter : RouteParams → Dict Bytes Bytes → Bool
filter rp [] = true
filter rp ((key, value) ∷ filters) = (get rp key ≟ value) && filter rp filters

-- messageFilter: a message with no filters passes.
unfoldable pub message_filter : RouteParams → Option (Dict Bytes Bytes) → Bool
message_filter rp none = true
message_filter rp (some filters) = filter rp filters
