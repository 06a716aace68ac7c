-- ===== src/KvStore/Examples.antt =====
-- A store with one value.
use guble.Prelude.{◌≡◌, refl, bytes_comparable, codes, bytes_eq, find, put, has_prefix, [], ◌∷◌}
use guble.KvStore.{MemoryKvStore, new_memory_kv_store, put_value, iterate}

abbrev one_value : MemoryKvStore
one_value = put_value new_memory_kv_store (codes "s") (codes "k") (codes "v")

one_value_is_sent : (iterate one_value (codes "s") (codes "k")).0 ≡ (codes "k", codes "v") ∷ []
unfolding iterate put_value find put bytes_eq has_prefix
one_value_is_sent = refl
