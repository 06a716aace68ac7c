-- ===== src/KvStore.antt =====
-- server/kvstore/memory.go: the key-value store in memory, with a map of keys for each schema. Each
-- operation holds the lock. The values sent to a channel are the list of them, in the map's order.
pub mod Laws
pub mod Interface
pub mod Memory
mod Examples
use guble.Prelude.{
  ℕ, Bytes, bytes_comparable, Dict, find, put, remove, has_prefix, List, [], ◌∷◌, Option, none,
  some, Bool, true, false, if◌then◌else◌,
}

pub record MemoryKvStore : Type 0 where
  pub data' : Dict Bytes (Dict Bytes Bytes)

abbrev pub new_memory_kv_store : MemoryKvStore
new_memory_kv_store = record { data' = [] }

-- getSchema: the schema's map, and the store, which gets an empty one if there is none.
unfoldable pub get_schema : MemoryKvStore → Bytes → Dict Bytes Bytes × MemoryKvStore
get_schema kv_store schema = elim (find kv_store.data' schema) [
  | some s ↦ (s, kv_store)
  | none ↦ ([], record { data' = put kv_store.data' schema [] })
]

-- The map of a schema is shared: what is changed in it is changed in the store.
abbrev update :
    (Dict Bytes Bytes → Dict Bytes Bytes) → Bytes → Dict Bytes Bytes × MemoryKvStore → MemoryKvStore
update f schema (s, kv_store) = record { data' = put kv_store.data' schema (f s) }

unfoldable pub put_value : MemoryKvStore → Bytes → Bytes → Bytes → MemoryKvStore
unfolding get_schema
put_value kv_store schema key value =
    update (λ s. put s key value) schema (get_schema kv_store schema)

-- The value if it exists, and the store.
unfoldable pub get_value : MemoryKvStore → Bytes → Bytes → Option Bytes × MemoryKvStore
unfolding get_schema
get_value kv_store schema key =
    let (s, kv_store') = get_schema kv_store schema in (find s key, kv_store')

unfoldable pub delete_value : MemoryKvStore → Bytes → Bytes → MemoryKvStore
unfolding get_schema
delete_value kv_store schema key = update (λ s. remove s key) schema (get_schema kv_store schema)

-- The loop of Iterate.
pub with_prefix : Bytes → Dict Bytes Bytes → List (Bytes × Bytes)
with_prefix prefix [] = []
with_prefix prefix ((key, value) ∷ s) =
    let rest = with_prefix prefix s in if has_prefix key prefix then (key, value) ∷ rest else rest

unfoldable pub iterate : MemoryKvStore → Bytes → Bytes → List (Bytes × Bytes) × MemoryKvStore
unfolding with_prefix get_schema
iterate kv_store schema prefix =
    let (s, kv_store') = get_schema kv_store schema in (with_prefix prefix s, kv_store')

-- The loop of IterateKeys.
unfoldable pub keys_with_prefix : Bytes → Dict Bytes Bytes → List Bytes
keys_with_prefix prefix [] = []
keys_with_prefix prefix ((key, value) ∷ s) =
    let rest = keys_with_prefix prefix s in if has_prefix key prefix then key ∷ rest else rest

unfoldable pub iterate_keys : MemoryKvStore → Bytes → Bytes → List Bytes × MemoryKvStore
unfolding keys_with_prefix get_schema
iterate_keys kv_store schema prefix =
    let (s, kv_store') = get_schema kv_store schema in (keys_with_prefix prefix s, kv_store')
