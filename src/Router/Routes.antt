-- ===== src/Router/Routes.antt =====
-- The routes of server/router/router.go by path, and their slices: Go's slices of one path share
-- an array, which `removeIfMatching` changes in place, also while `handleMessage` ranges over it.
-- Metrics and logs are left out.
pub mod Slices
pub mod Table
pub mod Handling
mod Examples
use guble.Prelude.{
  ℕ, zero, suc, ◌+◌, ◌-◌, Bytes, bytes_comparable, Dict, find, put, remove, List, [], ◌∷◌, ◌++◌,
  map, Option, none, some, Bool, true, false, ◌&&◌, ◌≟◌, nat_eq, if◌then◌else◌, length, take, drop,
  get_elem?,
}
use guble.Router.Topic.{matches_topic}
use guble.Router.Params.{RouteParams, equal}

-- What a Matcher compares.
pub record RouteConfig : Type 0 where
  pub path : Bytes
  pub params : RouteParams

-- A route, by the number of its object, with its Matcher if it has one.
pub record Route : Type 0 where
  pub object : ℕ
  pub config : RouteConfig
  pub matcher : Option (RouteConfig → RouteConfig → List Bytes → Bool)

-- Route.Equal, which is RouteConfig.Equal
unfoldable pub route_equal : Route → Route → List Bytes → Bool
route_equal r other keys = elim r.matcher [
  | some matcher ↦ matcher r.config other.config keys
  | none ↦ (r.config.path ≟ other.config.path) && equal r.config.params other.config.params keys
]

-- A slice that starts at the beginning of its array: the array's cells, and the slice's length.
pub record Slice : Type 0 where
  pub cells : List Route
  pub len : ℕ

abbrev pub empty_slice : Slice
empty_slice = record { cells = []; len = 0 }

abbrev pub view : Slice → List Route
view s = take s.len s.cells

-- The position of the first route that is equal to the one given.
unfoldable pub position_of : List Route → Route → Option ℕ
position_of [] route = none
position_of (r ∷ rs) route =
    let further = position_of rs route in
    if route_equal r route [] then some 0 else elim further [ none ↦ none | some p ↦ some (suc p) ]

-- append(slice[:position], slice[position+1:]...), which moves the cells behind the position in place
unfoldable pub cut : ℕ → Slice → Slice
cut position s = record {
  cells = take position s.cells ++ (drop (suc position) (view s) ++ drop (s.len - 1) s.cells);
  len = s.len - 1;
}

unfoldable pub remove_if_matching : Slice → Route → Slice × Bool
unfolding position_of cut
remove_if_matching slice route = elim (position_of (view slice) route) [
  | none ↦ (slice, false)
  | some position ↦ (cut position slice, true)
]

-- append(slice, r): into the next cell, or into a new array
unfoldable pub append_route : Slice → Route → Slice
append_route s r = record { cells = view s ++ (r ∷ drop (s.len + 1) s.cells); len = s.len + 1 }

abbrev pub RouteTable : Type 0
RouteTable = Dict Bytes Slice

unfoldable pub subscribe : RouteTable → Route → RouteTable
unfolding remove_if_matching append_route
subscribe table r = elim (find table r.config.path) [
  | some slice ↦ put table r.config.path (append_route (remove_if_matching slice r).0 r)
  | none ↦ put (put table r.config.path empty_slice) r.config.path (append_route empty_slice r)
]

-- The slice of the route's path after the route was removed from it.
unfoldable pub slice_without : RouteTable → Route → Option Slice
slice_without table r = elim (find table r.config.path) [
  | none ↦ none
  | some slice ↦ some (remove_if_matching slice r).0
]

unfoldable pub unsubscribe : RouteTable → Route → RouteTable
unfolding slice_without
unsubscribe table r = elim (slice_without table r) [
  | none ↦ table
  | some slice ↦
      let stored = put table r.config.path slice in
      if nat_eq slice.len 0 then remove stored r.config.path else stored
]

-- The cells of the array of `path` after the route was unsubscribed.
abbrev pub cells_after : Bytes → List Route → RouteTable → Route → List Route
cells_after path cells table route =
    if route.config.path ≟ path
    then elim (slice_without table route) [ none ↦ cells | some slice ↦ slice.cells ]
    else cells

abbrev pub paths_of : RouteTable → List Bytes
paths_of [] = []
paths_of ((path, slice) ∷ table) = path ∷ paths_of table

-- The table and the state of the routes, which a delivery changes; it says whether it failed with
-- ErrInvalidRoute.
module _ {S : Type 0} (deliver : Route → S → S × Bool) where
  -- The loop over the routes of a path: its length is fixed, its cells are read when their turn comes.
  unfoldable pub visit : Bytes → ℕ → ℕ → List Route → RouteTable → S → RouteTable × S
  visit path zero i cells table s = (table, s)
  visit path (suc left) i cells table s = elim (get_elem? cells i) [
    | none ↦ (table, s)
    | some route ↦
        let (s', invalid) = deliver route s in
        let cells' = if invalid then cells_after path cells table route else cells in
        let table' = if invalid then unsubscribe table route else table in
        visit path left (suc i) cells' table' s'
  ]

  -- The routes of a path that the topic matches, if the map still has the path.
  unfoldable pub visit_path : Bytes → Bytes → RouteTable → S → RouteTable × S
  unfolding visit
  visit_path topic path table s =
      if matches_topic topic path
      then elim (find table path) [
        | none ↦ (table, s)
        | some slice ↦ visit path slice.len 0 slice.cells table s
      ]
      else (table, s)

  -- The loop over the paths, in the order in which the map gives them.
  unfoldable pub visit_paths : Bytes → List Bytes → RouteTable → S → RouteTable × S
  unfolding visit_path
  visit_paths topic [] table s = (table, s)
  visit_paths topic (path ∷ paths) table s =
      let (table', s') = visit_path topic path table s in visit_paths topic paths table' s'

  unfoldable pub handle_message : Bytes → RouteTable → S → RouteTable × S
  unfolding visit_paths
  handle_message topic table s = visit_paths topic (paths_of table) table s
