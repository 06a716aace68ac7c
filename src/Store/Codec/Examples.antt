-- ===== src/Store/Codec/Examples.antt =====
-- An index file with one entry.
use guble.Prelude.{◌≡◌, refl, Bytes, [], ◌∷◌, some}
use guble.Store.Codec.{read_at}

abbrev first : Bytes
first =
    1 ∷ 2 ∷ 3 ∷ 4 ∷ 5 ∷ 6 ∷ 7 ∷ 8 ∷ 9 ∷ 10 ∷ 11 ∷ 12 ∷ 13 ∷ 14 ∷ 15 ∷ 16 ∷ 17 ∷ 18 ∷ 19 ∷ 20 ∷ []

first_is_read : read_at first 0 20 ≡ some first
unfolding read_at
first_is_read = refl
