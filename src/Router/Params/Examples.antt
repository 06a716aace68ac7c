-- ===== src/Router/Params/Examples.antt =====
-- Parameters at concrete routes.
use guble.Prelude.{◌≡◌, refl, bytes_comparable, codes, find, bytes_eq, [], ◌∷◌, true}
use guble.Router.Params.{RouteParams, get, equal}

abbrev phone : RouteParams
phone = (codes "user_id", codes "u1") ∷ (codes "device", codes "d1") ∷ []

abbrev phone_again : RouteParams
phone_again = (codes "device", codes "d1") ∷ (codes "user_id", codes "u1") ∷ []

any_order : equal phone phone_again [] ≡ true
unfolding equal find bytes_eq
any_order = refl

-- A key that the receiver lacks and the other has empty.
one_sided : equal [] ((codes "k", []) ∷ []) (codes "k" ∷ []) ≡ true
unfolding equal find bytes_eq get
one_sided = refl
