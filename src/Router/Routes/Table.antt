-- ===== src/Router/Routes/Table.antt =====
-- What subscribing and unsubscribing do to the routes of each path.
use mathlib.Core.Path.{subst}
use guble.Prelude.{
  ◌<◌, ◌≡◌, refl, ap, sym, ◌∙◌, Bytes, bytes_comparable, bytes_eq_iff, ◌≟◌, find, put, remove,
  find-put, find-remove, List, [], ◌∷◌, ◌++◌, Option, none, some, if◌then◌else◌, arith, nat_eq,
  nat_eq_iff, length, length-append, Bool-cases, Option-cases, inl, inr,
}
use guble.Router.Routes.{
  Route, Slice, view, empty_slice, remove_if_matching, append_route, RouteTable, subscribe,
  slice_without, unsubscribe,
}
use guble.Router.Routes.Slices.{
  Fits, remove_first, length-view, view-remove_if_matching, view-append_route,
}

-- The routes that the table shows at a path.
abbrev pub shown : Option Slice → List Route
shown none = []
shown (some slice) = view slice

abbrev pub routes_at : RouteTable → Bytes → List Route
routes_at table path = shown (find table path)

-- Each slice lies within its array, and no path is kept without a route.
abbrev pub Kept : Option Slice → Type 0
Kept none = Unit
Kept (some slice) = Fits slice × (0 < slice.len)

pub record IsTable (table : RouteTable) : Type 0 where
  pub kept : (path : Bytes) → Kept (find table path)

-- What an operation leaves at a path: the routes, in a slice as it should be.
abbrev Shows : List Route → Option Slice → Type 0
Shows l o = (shown o ≡ l) × Kept o

module _ (table : RouteTable) (r : Route) (t : IsTable table) where
  -- Only the route's path changes.
  elsewhere :
      (new : RouteTable) (o : Option Slice) (l : List Route)
      → ((path : Bytes) → find new path ≡ (if r.config.path ≟ path then o else find table path))
      → Shows l o
      → (path : Bytes)
      → Shows (if r.config.path ≟ path then l else routes_at table path) (find new path)
  elsewhere new o l h s path = elim (Bool-cases (r.config.path ≟ path)) [
    | inl e ↦ rw e (subst (Shows l) (sym (h path ∙ ap (λ b. if b then o else find table path) e)) s)
    | inr e ↦ rw e (
        subst (Shows (routes_at table path))
          (sym (h path ∙ ap (λ b. if b then o else find table path) e)) (refl, t.kept path))
  ]

  appended :
      (s : Slice) (l : List Route)
      → Fits s
      → view s ≡ l
      → Shows (l ++ (r ∷ [])) (some (append_route s r))
  appended s l f e =
      let (shows, fits) = view-append_route s r f in
      (
        shows ∙ ap (λ l. l ++ (r ∷ [])) e,
        (
          fits,
          omega (
            arith,
            length-view (append_route s r) fits,
            ap length shows,
            length-append (view s) (r ∷ []),
          ),
        ),
      )

  subscribe-Shows :
      (path : Bytes)
      → Shows
          (if r.config.path ≟ path
            then remove_first (routes_at table r.config.path) r ++ (r ∷ [])
            else routes_at table path)
          (find (subscribe table r) path)
  unfolding subscribe remove_first
  subscribe-Shows = elim (Option-cases (find table r.config.path)) [
    | inl e ↦
        rw (subscribe, e)
          (elsewhere _ (some (append_route empty_slice r)) _ replaced
            (appended empty_slice [] (omega arith) refl))
    | inr (slice, e) ↦
        let (shows, fits) =
          view-remove_if_matching slice r (subst Kept e (t.kept r.config.path)).0 in
        rw (subscribe, e)
          (elsewhere _ (some (append_route (remove_if_matching slice r).0 r)) _
            (find-put table r.config.path (append_route (remove_if_matching slice r).0 r))
            (appended (remove_if_matching slice r).0 (remove_first (view slice) r) fits shows))
  ]
    where
      replaced :
          (path : Bytes)
          → find
              (put (put table r.config.path empty_slice) r.config.path (append_route empty_slice r))
              path
            ≡ (if r.config.path ≟ path then some (append_route empty_slice r) else find table path)
      replaced path = ground (
        arith,
        find-put (put table r.config.path empty_slice) r.config.path (append_route empty_slice r)
            path,
        find-put table r.config.path empty_slice path,
      )

  stored :
      (s : Slice) (l : List Route)
      → Fits s
      → view s ≡ l
      → (path : Bytes)
      → Shows (if r.config.path ≟ path then l else routes_at table path) (
          find
            (let stored = put table r.config.path s in
              if nat_eq s.len 0 then remove stored r.config.path else stored)
            path)
  stored s l f e = elim (Bool-cases (nat_eq s.len 0)) [
    | inl q ↦ rw q (
        elsewhere _ none l removed
          (empty (view s) (omega (arith, length-view s f, (nat_eq_iff s.len 0).0 q)) ∙ e, tt))
    | inr q ↦ rw q (elsewhere _ (some s) l (find-put table r.config.path s) (e, (f, ground arith)))
  ]
    where
      empty : (v : List Route) → length v ≡ 0 → [] ≡ v
      empty [] h = refl
      empty (x ∷ v) h = absurd (omega arith)

      removed :
          (path : Bytes)
          → find (remove (put table r.config.path s) r.config.path) path
            ≡ (if r.config.path ≟ path then none else find table path)
      removed path = ground (
        arith,
        find-remove (put table r.config.path s) r.config.path path,
        find-put table r.config.path s path,
      )

  unsubscribe-Shows :
      (path : Bytes)
      → Shows
          (if r.config.path ≟ path
            then remove_first (routes_at table r.config.path) r
            else routes_at table path)
          (find (unsubscribe table r) path)
  unfolding unsubscribe slice_without remove_first
  unsubscribe-Shows = elim (Option-cases (find table r.config.path)) [
    | inl e ↦ rw (unsubscribe, e) (elsewhere table none [] (untouched e) (refl, tt))
    | inr (slice, e) ↦
        let (shows, fits) =
          view-remove_if_matching slice r (subst Kept e (t.kept r.config.path)).0 in
        rw (unsubscribe, e)
          (stored (remove_if_matching slice r).0 (remove_first (view slice) r) fits shows)
  ]
    where
      untouched :
          find table r.config.path ≡ none
          → (path : Bytes)
          → find table path ≡ (if r.config.path ≟ path then none else find table path)
      untouched e path = elim (Bool-cases (r.config.path ≟ path)) [
        | inl q ↦ rw q (sym (ap (find table) ((bytes_eq_iff r.config.path path).0 q)) ∙ e)
        | inr q ↦ rw q refl
      ]

-- The routes of a path after a route subscribed: its own path shows the routes without the first
-- equal one, and the new one at the end; other paths are as before. Each slice lies in its array
-- and no path is without routes, if it was so before.
pub subscribe-routes_at :
    (table : RouteTable) (r : Route) (path : Bytes)
    → IsTable table
    → (routes_at (subscribe table r) path ≡ (
        if r.config.path ≟ path
        then remove_first (routes_at table r.config.path) r ++ (r ∷ [])
        else routes_at table path))
      × IsTable (subscribe table r)
subscribe-routes_at table r path t =
    ((subscribe-Shows table r t path).0, record { kept = λ p. (subscribe-Shows table r t p).1 })

-- The routes of a path after a route unsubscribed: its own path shows the routes without the first
-- equal one, other paths are as before. Each slice lies in its array and no path is without
-- routes, if it was so before.
pub unsubscribe-routes_at :
    (table : RouteTable) (r : Route) (path : Bytes)
    → IsTable table
    → (routes_at (unsubscribe table r) path ≡ (
        if r.config.path ≟ path
        then remove_first (routes_at table r.config.path) r
        else routes_at table path))
      × IsTable (unsubscribe table r)
unsubscribe-routes_at table r path t =
    ((unsubscribe-Shows table r t path).0, record { kept = λ p. (unsubscribe-Shows table r t p).1 })
