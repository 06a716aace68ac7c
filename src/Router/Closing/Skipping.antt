-- ===== src/Router/Closing/Skipping.antt =====
-- A path with three routes when the router stops.
use guble.Prelude.{
  ℕ, suc, ◌≡◌, refl, ap, sym, ◌∙◌, Bytes, bytes_comparable, ≟-refl, ◌≟◌, find, find-put, List, [],
  ◌∷◌, some, true, false, if◌then◌else◌, get_elem?, nat_eq,
}
use guble.Router.Routes.{
  Route, Slice, route_equal, RouteTable, unsubscribe, slice_without, remove_if_matching,
  position_of, cut, cells_after,
}
use guble.Router.Routes.Table.{routes_at, shown}
use guble.Router.Closing.{close_cells, close_path}

-- What is left of the path's slice after a route was unsubscribed.
slice_without-remove :
    (table : RouteTable) (r : Route) (slice : Slice)
    → find table r.config.path ≡ some slice
    → slice_without table r ≡ some (remove_if_matching slice r).0
unfolding slice_without
slice_without-remove table r slice f = rw (slice_without, f) refl

find-unsubscribe :
    (table : RouteTable) (r : Route) (slice : Slice)
    → slice_without table r ≡ some slice
    → nat_eq slice.len 0 ≡ false
    → find (unsubscribe table r) r.config.path ≡ some slice
unfolding unsubscribe
find-unsubscribe table r slice f e =
    rw (unsubscribe, f, e)
      (find-put table r.config.path slice r.config.path
        ∙ ap (λ b. if b then some slice else find table r.config.path) (≟-refl r.config.path))

cells_after-slice :
    (table : RouteTable) (path : Bytes) (cells : List Route) (r : Route) (slice : Slice)
    → (r.config.path ≟ path) ≡ true
    → slice_without table r ≡ some slice
    → cells_after path cells table r ≡ slice.cells
cells_after-slice table path cells r slice p f = rw (p, f) refl

module _ (a b c : Route) (reflexive : route_equal c c [] ≡ true)
    (differ : route_equal b c [] ≡ false) (itself : route_equal a a [] ≡ true) where
  abbrev of_len : List Route → ℕ → Slice
  of_len cells len = record { cells = cells; len = len }

  first_removed : (remove_if_matching (of_len (a ∷ b ∷ c ∷ []) 3) a).0 ≡ of_len (b ∷ c ∷ c ∷ []) 2
  unfolding remove_if_matching position_of cut
  first_removed = rw (remove_if_matching, itself) refl

  last_removed : (remove_if_matching (of_len (b ∷ c ∷ c ∷ []) 2) c).0 ≡ of_len (b ∷ c ∷ c ∷ []) 1
  unfolding remove_if_matching position_of cut
  last_removed = rw (remove_if_matching, differ, reflexive) refl

  none_removed : (remove_if_matching (of_len (b ∷ c ∷ c ∷ []) 1) c).0 ≡ of_len (b ∷ c ∷ c ∷ []) 1
  unfolding remove_if_matching position_of cut
  none_removed = rw (remove_if_matching, differ) refl

  module _ {S : Type 0} (close : Route → S → S) where
    -- One turn of the loop, for a route of the path that leaves some slice.
    turn :
        (path : Bytes) (left i : ℕ) (cells : List Route) (table : RouteTable) (s : S) (r : Route)
        (slice : Slice)
        → get_elem? cells i ≡ some r
        → (r.config.path ≟ path) ≡ true
        → slice_without table r ≡ some slice
        → close_cells close path (suc left) i cells table s
          ≡ close_cells close path left (suc i) slice.cells (unsubscribe table r) (close r s)
    unfolding close_cells
    turn path left i cells table s r slice g p f =
        rw (close_cells, g)
          (ap (λ cells. close_cells close path left (suc i) cells (unsubscribe table r) (close r s))
            (cells_after-slice table path cells r slice p f))

    started :
        (table : RouteTable) (path : Bytes) (s : S)
        → find table path ≡ some (of_len (a ∷ b ∷ c ∷ []) 3)
        → close_path close path table s ≡ close_cells close path 3 0 (a ∷ b ∷ c ∷ []) table s
    unfolding close_path
    started table path s f = rw (close_path, f) refl

    finished :
        (path : Bytes) (i : ℕ) (cells : List Route) (table : RouteTable) (s : S)
        → close_cells close path 0 i cells table s ≡ (table, s)
    unfolding close_cells
    finished path i cells table s = refl

    -- Of three routes of a path, whose Equal tells the last from the second, the second is not closed
    -- and stays in the table, and the last is closed twice.
    pub close_path-skips :
        (table : RouteTable) (s : S)
        → c.config.path ≡ a.config.path
        → find table a.config.path ≡ some (of_len (a ∷ b ∷ c ∷ []) 3)
        → ((close_path close a.config.path table s).1 ≡ close c (close c (close a s)))
          × (routes_at (close_path close a.config.path table s).0 a.config.path ≡ b ∷ [])
    close_path-skips table s q f = (
      ap (λ (x : RouteTable × S). x.1) run,
      ap (λ (x : RouteTable × S). routes_at x.0 path) run ∙ left,
    )
      where
        path : Bytes
        path = a.config.path

        after_a : RouteTable
        after_a = unsubscribe table a

        after_c : RouteTable
        after_c = unsubscribe after_a c

        after_both : RouteTable
        after_both = unsubscribe after_c c

        two_left : Slice
        two_left = of_len (b ∷ c ∷ c ∷ []) 2

        one_left : Slice
        one_left = of_len (b ∷ c ∷ c ∷ []) 1

        without_a : slice_without table a ≡ some two_left
        without_a = slice_without-remove table a _ f ∙ ap some first_removed

        without_c : slice_without after_a c ≡ some one_left
        without_c =
            slice_without-remove after_a c two_left
              (ap (find after_a) q ∙ find-unsubscribe table a two_left without_a refl)
            ∙ ap some last_removed

        again : slice_without after_c c ≡ some one_left
        again =
            slice_without-remove after_c c one_left
              (find-unsubscribe after_a c one_left without_c refl)
            ∙ ap some none_removed

        of_path : (c.config.path ≟ path) ≡ true
        of_path = ap (λ p. p ≟ path) q ∙ ≟-refl path

        run : close_path close path table s ≡ (after_both, close c (close c (close a s)))
        run =
            started table path s f
            ∙ turn path 2 0 (a ∷ b ∷ c ∷ []) table s a two_left refl (≟-refl path) without_a
            ∙ turn path 1 1 (b ∷ c ∷ c ∷ []) after_a (close a s) c one_left refl of_path without_c
            ∙ turn path 0 2 (b ∷ c ∷ c ∷ []) after_c (close c (close a s)) c one_left refl of_path
                again
            ∙ finished path 3 (b ∷ c ∷ c ∷ []) after_both (close c (close c (close a s)))

        left : routes_at after_both path ≡ b ∷ []
        left =
            ap shown (ap (find after_both) (sym q) ∙ find-unsubscribe after_c c one_left again refl)
