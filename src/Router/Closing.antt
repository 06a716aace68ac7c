-- ===== src/Router/Closing.antt =====
-- What the router of server/router/router.go does when it stops: closeRoutes ranges over the slices
-- of the routes while `unsubscribe` changes their arrays. Close is an argument, on the state of the
-- routes.
pub mod Skipping
mod Examples
use guble.Prelude.{
  ℕ, zero, suc, Bytes, bytes_comparable, find, List, [], ◌∷◌, Option, none, some, get_elem?,
}
use guble.Router.Routes.{Route, RouteTable, unsubscribe, cells_after, paths_of}

module _ {S : Type 0} (close : Route → S → S) where
  -- The loop over the routes of a path: its length is fixed, its cells are read when their turn comes.
  unfoldable pub close_cells : Bytes → ℕ → ℕ → List Route → RouteTable → S → RouteTable × S
  close_cells path zero i cells table s = (table, s)
  close_cells path (suc left) i cells table s = elim (get_elem? cells i) [
    | none ↦ (table, s)
    | some route ↦
        close_cells path left (suc i) (cells_after path cells table route) (unsubscribe table route)
          (close route s)
  ]

  unfoldable pub close_path : Bytes → RouteTable → S → RouteTable × S
  unfolding close_cells
  close_path path table s = elim (find table path) [
    | none ↦ (table, s)
    | some slice ↦ close_cells path slice.len 0 slice.cells table s
  ]

  unfoldable pub close_paths : List Bytes → RouteTable → S → RouteTable × S
  unfolding close_path
  close_paths [] table s = (table, s)
  close_paths (path ∷ paths) table s =
      let (table', s') = close_path path table s in close_paths paths table' s'

  pub close_routes : RouteTable → S → RouteTable × S
  unfolding close_paths
  close_routes table s = close_paths (paths_of table) table s
