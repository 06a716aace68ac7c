-- ===== src/Cluster/Members/Broadcast.antt =====
-- To whom a broadcast and a message for one node are sent.
use guble.Prelude.{
  ◌≡◌, refl, ap, Bytes, bytes_comparable, ◌≟◌, List, [], ◌∷◌, if◌then◌else◌, Bool-cases, inl, inr,
}
use guble.Cluster.Members.{to_others}

-- The members other than a name.
unfoldable pub others : Bytes → List Bytes → List Bytes
others name [] = []
others name (node ∷ members) =
    let rest = others name members in if name ≟ node then rest else node ∷ rest

abbrev pub addressed : Bytes → List Bytes → List (Bytes × Bytes)
addressed data' [] = []
addressed data' (node ∷ nodes) = (node, data') ∷ addressed data' nodes

pub to_others-addressed :
    (name data' : Bytes) (members : List Bytes)
    → to_others name data' members ≡ addressed data' (others name members)
unfolding to_others others
to_others-addressed name data' [] = refl
to_others-addressed name data' (node ∷ members) = elim (Bool-cases (name ≟ node)) [
  | inl t ↦ rw t (to_others-addressed name data' members)
  | inr f ↦ rw f (ap (λ r. (node, data') ∷ r) (to_others-addressed name data' members))
]
