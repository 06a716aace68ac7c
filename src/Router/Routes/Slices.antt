-- ===== src/Router/Routes/Slices.antt =====
-- What a slice's operations do to the routes that it shows.
use guble.Prelude.{
  ℕ, zero, suc, ◌+◌, ◌-◌, ◌≤◌, ◌<◌, ◌≡◌, refl, ap, sym, ◌∙◌, List, [], ◌∷◌, ◌++◌, append_assoc,
  Option, none, some, if◌then◌else◌, arith, length, length-append, length-take, length-drop, take,
  drop, take-append, Bool-cases, Option-cases, inl, inr,
}
use guble.Router.Routes.{
  Route, route_equal, Slice, view, position_of, cut, remove_if_matching, append_route,
}

-- The slice lies within its array.
abbrev pub Fits : Slice → Type 0
Fits s = s.len ≤ length s.cells

-- The list without its first route that is equal to the one given.
unfoldable pub remove_first : List Route → Route → List Route
remove_first [] route = []
remove_first (r ∷ rs) route =
    let rest = remove_first rs route in if route_equal r route [] then rs else r ∷ rest

without : Option ℕ → List Route → List Route
without none l = l
without (some p) l = take p l ++ drop (suc p) l

without-position_of :
    (l : List Route) (route : Route) → without (position_of l route) l ≡ remove_first l route
unfolding without position_of remove_first
without-position_of [] route = refl
without-position_of (r ∷ rs) route = elim (Bool-cases (route_equal r route [])) [
  | inl t ↦ rw t refl
  | inr f ↦ rw f (elim (Option-cases (position_of rs route)) [
    | inl e ↦ rw e (ap (◌∷◌ r) (sym (ap (λ o. without o rs) e) ∙ without-position_of rs route))
    | inr (p, e) ↦ rw e (ap (◌∷◌ r) (sym (ap (λ o. without o rs) e) ∙ without-position_of rs route))
  ])
]

position_of-lt :
    (l : List Route) (route : Route) {p : ℕ} → position_of l route ≡ some p → p < length l
unfolding position_of
position_of-lt [] route h = cc
position_of-lt (r ∷ rs) route {p} h = elim (Bool-cases (route_equal r route [])) [
  | inl t ↦ ground arith
  | inr f ↦ elim (Option-cases (position_of rs route)) [
    | inl e ↦ absurd (ground arith)
    | inr (q, e) ↦ let below = position_of-lt rs route e in ground arith
  ]
]

take-take : (p n : ℕ) (xs : List Route) → p ≤ n → take p (take n xs) ≡ take p xs
take-take zero n xs h = refl
take-take (suc p) zero xs h = absurd (omega arith)
take-take (suc p) (suc n) [] h = refl
take-take (suc p) (suc n) (x ∷ xs) h = ap (◌∷◌ x) (take-take p n xs (omega arith))

view-cut :
    (p : ℕ) (s : Slice)
    → Fits s
    → p < s.len
    → view (cut p s) ≡ take p (view s) ++ drop (suc p) (view s)
unfolding cut
view-cut p s f h =
    ap (take (s.len - 1)) (sym (append_assoc (take p s.cells) _ _))
    ∙ take-append (take p s.cells ++ drop (suc p) (view s)) _ (s.len - 1) (
        omega (
          arith,
          length-append (take p s.cells) (drop (suc p) (view s)),
          length-take p s.cells,
          length-drop (suc p) (view s),
          length-take s.len s.cells,
        ))
    ∙ ap (λ l. l ++ drop (suc p) (view s)) (sym (take-take p s.len s.cells (omega arith)))

cut-Fits : (p : ℕ) (s : Slice) → Fits s → p < s.len → Fits (cut p s)
unfolding cut
cut-Fits p s f h = omega (
  arith,
  length-append (take p s.cells) (drop (suc p) (view s) ++ drop (s.len - 1) s.cells),
  length-append (drop (suc p) (view s)) (drop (s.len - 1) s.cells),
  length-take p s.cells,
  length-drop (suc p) (view s),
  length-take s.len s.cells,
  length-drop (s.len - 1) s.cells,
)

pub length-view : (s : Slice) → Fits s → length (view s) ≡ s.len
length-view s f = omega (arith, length-take s.len s.cells)

-- Removing shows the routes without the first equal one, and the slice still lies within its array.
pub view-remove_if_matching :
    (s : Slice) (route : Route)
    → Fits s
    → (view (remove_if_matching s route).0 ≡ remove_first (view s) route)
      × Fits (remove_if_matching s route).0
unfolding remove_if_matching without
view-remove_if_matching s route f = elim (Option-cases (position_of (view s) route)) [
  | inl e ↦
      rw (remove_if_matching, e)
        (sym (ap (λ o. without o (view s)) e) ∙ without-position_of (view s) route, f)
  | inr (p, e) ↦
      let inside : p < s.len = omega (arith, position_of-lt (view s) route e, length-view s f) in
      rw (remove_if_matching, e)
        (
          view-cut p s f inside
              ∙ sym (ap (λ o. without o (view s)) e)
              ∙ without-position_of (view s) route,
          cut-Fits p s f inside,
        )
]

-- Appending shows the routes with the new one at the end.
pub view-append_route :
    (s : Slice) (r : Route)
    → Fits s
    → (view (append_route s r) ≡ view s ++ (r ∷ [])) × Fits (append_route s r)
unfolding append_route
view-append_route s r f = (
  ap (take (s.len + 1)) (sym (append_assoc (view s) (r ∷ []) (drop (s.len + 1) s.cells)))
      ∙ take-append (view s ++ (r ∷ [])) _ (s.len + 1)
          (omega (arith, length-append (view s) (r ∷ []), length-view s f)),
  omega (arith, length-append (view s) (r ∷ drop (s.len + 1) s.cells), length-view s f),
)
