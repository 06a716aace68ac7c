-- ===== src/KvStore/Laws.antt =====
-- What is read from the store after it was changed.
use guble.Prelude.{
  ◌≡◌, refl, ap, sym, ◌∙◌, Bytes, bytes_comparable, bytes_eq_iff, ◌≟◌, Dict, find, put, remove,
  find-put, find-remove, [], Option, none, some, Bool, true, false, ◌&&◌, if◌then◌else◌, Bool-cases,
  Option-cases, inl, inr,
}
use guble.KvStore.{MemoryKvStore, get_schema, update, put_value, get_value, delete_value}

-- What Get reads, from the map of the schema if there is one.
abbrev pub read_in : Option (Dict Bytes Bytes) → Bytes → Option Bytes
read_in none key = none
read_in (some s) key = find s key

pub get_value-read :
    (kv_store : MemoryKvStore) (schema key : Bytes)
    → (get_value kv_store schema key).0 ≡ read_in (find kv_store.data' schema) key
unfolding get_value get_schema
get_value-read kv_store schema key = elim (Option-cases (find kv_store.data' schema)) [
  | inl e ↦ rw (get_value, get_schema, e) (unfold find in refl)
  | inr (s, e) ↦ rw (get_value, get_schema, e) refl
]

pub get_schema-other :
    (kv_store : MemoryKvStore) (schema other : Bytes)
    → (schema ≟ other) ≡ false
    → find (get_schema kv_store schema).1.data' other ≡ find kv_store.data' other
unfolding get_schema
get_schema-other kv_store schema other f = elim (Option-cases (find kv_store.data' schema)) [
  | inl e ↦
      rw (get_schema, e)
        (find-put kv_store.data' schema [] other
          ∙ ap (λ b. if b then some [] else find kv_store.data' other) f)
  | inr (s, e) ↦ rw (get_schema, e) refl
]

-- A change of one map, as it is read: in its schema the changed map, in others what was there.
update-read :
    (f : Dict Bytes Bytes → Dict Bytes Bytes) (kv_store : MemoryKvStore) (schema other key : Bytes)
    → (get_value (update f schema (get_schema kv_store schema)) other key).0 ≡ (
        if schema ≟ other
        then find (f (get_schema kv_store schema).0) key
        else (get_value kv_store other key).0)
update-read f kv_store schema other key =
    get_value-read (update f schema (get_schema kv_store schema)) other key
    ∙ elim (Bool-cases (schema ≟ other)) [
      | inl t ↦ rw t (ap (λ o. read_in o key) (found t))
      | inr e ↦ rw e (
          ap (λ o. read_in o key) (found e ∙ get_schema-other kv_store schema other e)
          ∙ sym (get_value-read kv_store other key))
    ]
  where
    new : Dict Bytes (Dict Bytes Bytes)
    new = (get_schema kv_store schema).1.data'

    found :
        {b : Bool}
        → (schema ≟ other) ≡ b
        → find (put new schema (f (get_schema kv_store schema).0)) other
          ≡ (if b then some (f (get_schema kv_store schema).0) else find new other)
    found e =
        find-put new schema (f (get_schema kv_store schema).0) other
        ∙ ap (λ c. if c then some (f (get_schema kv_store schema).0) else find new other) e

-- A key is read from its schema's map.
get_value-schema :
    (kv_store : MemoryKvStore) (schema key : Bytes)
    → (get_value kv_store schema key).0 ≡ find (get_schema kv_store schema).0 key
get_value-schema kv_store schema key = unfold get_value in refl

same_schema :
    (kv_store : MemoryKvStore) (schema other key : Bytes)
    → (schema ≟ other) ≡ true
    → find (get_schema kv_store schema).0 key ≡ (get_value kv_store other key).0
same_schema kv_store schema other key t =
    sym (get_value-schema kv_store schema key)
    ∙ ap (λ o. (get_value kv_store o key).0) ((bytes_eq_iff schema other).0 t)

-- After Put, Get reads the new value at its schema and key, and what was there everywhere else.
pub get_value-put_value :
    (kv_store : MemoryKvStore) (schema key value other_schema other : Bytes)
    → (get_value (put_value kv_store schema key value) other_schema other).0 ≡ (
        if (schema ≟ other_schema) && (key ≟ other)
        then some value
        else (get_value kv_store other_schema other).0)
unfolding put_value
get_value-put_value kv_store schema key value other_schema other =
    update-read (λ s. put s key value) kv_store schema other_schema other
    ∙ elim (Bool-cases (schema ≟ other_schema)) [
      | inl t ↦ rw t (
          find-put (get_schema kv_store schema).0 key value other
          ∙ ap (λ o. if key ≟ other then some value else o)
              (same_schema kv_store schema other_schema other t))
      | inr f ↦ rw f refl
    ]

-- After Delete, Get finds nothing at the schema and key, and what was there everywhere else.
pub get_value-delete_value :
    (kv_store : MemoryKvStore) (schema key other_schema other : Bytes)
    → (get_value (delete_value kv_store schema key) other_schema other).0 ≡ (
        if (schema ≟ other_schema) && (key ≟ other)
        then none
        else (get_value kv_store other_schema other).0)
unfolding delete_value
get_value-delete_value kv_store schema key other_schema other =
    update-read (λ s. remove s key) kv_store schema other_schema other
    ∙ elim (Bool-cases (schema ≟ other_schema)) [
      | inl t ↦ rw t (
          find-remove (get_schema kv_store schema).0 key other
          ∙ ap (λ o. if key ≟ other then none else o)
              (same_schema kv_store schema other_schema other t))
      | inr f ↦ rw f refl
    ]
