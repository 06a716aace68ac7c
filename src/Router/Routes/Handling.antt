-- ===== src/Router/Routes/Handling.antt =====
-- Which routes `handleMessage` delivers a message to, and in which order.
use mathlib.Core.Path.{subst}
use guble.Prelude.{
  ℕ, zero, suc, ◌+◌, ◌≤◌, ◌<◌, ◌≡◌, refl, ap, sym, ◌∙◌, Bytes, bytes_comparable, find, List, [],
  ◌∷◌, ◌++◌, some, Bool, false, if◌then◌else◌, arith, length, take, drop, get_elem?, All,
  Bool-cases, Option-cases, inl, inr,
}
use guble.Router.Topic.{matches_topic}
use guble.Router.Routes.{
  Route, RouteTable, visit, visit_path, visit_paths, paths_of, handle_message,
}
use guble.Router.Routes.Table.{routes_at, IsTable, Kept}

cell :
    (i : ℕ) (cells : List Route)
    → i < length cells
    → (r : Route) × (get_elem? cells i ≡ some r) × (drop i cells ≡ r ∷ drop (suc i) cells)
cell i [] h = absurd (omega arith)
cell zero (r ∷ cells) h = (r, refl, refl)
cell (suc i) (r ∷ cells) h = cell i cells (omega arith)

module _ {S : Type 0} (deliver : Route → S → S × Bool) where
  -- The message is delivered to each route of a list, in order.
  abbrev pub deliver_all : List Route → S → S
  deliver_all [] s = s
  deliver_all (r ∷ l) s = deliver_all l (deliver r s).0

  -- The routes of the paths that the topic matches, path by path.
  abbrev pub recipients : Bytes → RouteTable → List Bytes → List Route
  recipients topic table [] = []
  recipients topic table (path ∷ paths) =
      (if matches_topic topic path then routes_at table path else [])
      ++ recipients topic table paths

  deliver_all-append :
      (l m : List Route) (s : S) → deliver_all (l ++ m) s ≡ deliver_all m (deliver_all l s)
  deliver_all-append [] m s = refl
  deliver_all-append (r ∷ l) m s = deliver_all-append l m (deliver r s).0

  abbrev pub Valid : Route → Type 0
  Valid r = (s : S) → (deliver r s).1 ≡ false

  visit-All :
      (path : Bytes) (left i : ℕ) (cells : List Route) (table : RouteTable) (s : S)
      → i + left ≤ length cells
      → All Valid (take left (drop i cells))
      → visit deliver path left i cells table s ≡ (table, deliver_all (take left (drop i cells)) s)
  unfolding visit
  visit-All path zero i cells table s h v = refl
  visit-All path (suc left) i cells table s h v =
      let (r, e, d) = cell i cells (omega arith) in
      let u = subst (λ l. All Valid (take (suc left) l)) d v in
      rw (visit, e, d, u.0 s)
        (visit-All path left (suc i) cells table (deliver r s).0 (omega arith) u.1)

  module _ (valid : (r : Route) → Valid r) where
    All-Valid : (l : List Route) → All Valid l
    All-Valid [] = tt
    All-Valid (r ∷ l) = (valid r, All-Valid l)

    visit_path_all :
        (topic path : Bytes) (table : RouteTable) (s : S)
        → IsTable table
        → visit_path deliver topic path table s
          ≡ (table, deliver_all (if matches_topic topic path then routes_at table path else []) s)
    unfolding visit_path
    visit_path_all topic path table s t = elim (Bool-cases (matches_topic topic path)) [
      | inr f ↦ rw f refl
      | inl m ↦ rw m (elim (Option-cases (find table path)) [
        | inl e ↦ rw e refl
        | inr (slice, e) ↦ rw e (
            visit-All path slice.len 0 slice.cells table s
              (omega (arith, (subst Kept e (t.kept path)).0)) (All-Valid _))
      ])
    ]

    visit_paths_all :
        (topic : Bytes) (paths : List Bytes) (table : RouteTable) (s : S)
        → IsTable table
        → visit_paths deliver topic paths table s
          ≡ (table, deliver_all (recipients topic table paths) s)
    unfolding visit_paths
    visit_paths_all topic [] table s t = refl
    visit_paths_all topic (path ∷ paths) table s t =
        let here = if matches_topic topic path then routes_at table path else [] in
        rw (visit_path_all topic path table s t) (
          visit_paths_all topic paths table (deliver_all here s) t
          ∙ ap (λ x. (table, x)) (sym (deliver_all-append here (recipients topic table paths) s)))

    -- Where no route is invalid, a message is delivered to all routes of the paths that its topic
    -- matches, each once, in the order of the paths and of their routes, and the table stays.
    pub handle_message-all :
        (topic : Bytes) (table : RouteTable) (s : S)
        → IsTable table
        → handle_message deliver topic table s
          ≡ (table, deliver_all (recipients topic table (paths_of table)) s)
    unfolding handle_message
    handle_message-all topic table s t = visit_paths_all topic (paths_of table) table s t
