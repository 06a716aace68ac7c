-- ===== src/KvStore/Memory.antt =====
-- The store in memory as an implementation of the interface KVStore: its operations never fail, and
-- its state is valid if no map of a schema has a key twice.
use guble.Prelude.{
  ◌≡◌, refl, ap, sym, ◌∙◌, Bytes, bytes_comparable, bytes_eq_iff, ◌≟◌, Dict, find, put, remove,
  find-put, find-remove, has_prefix, map, [], ◌∷◌, Option, none, some, Bool, true, false, ◌&&◌,
  if◌then◌else◌, Bool-cases, Option-cases, inl, inr, arith,
}
use guble.KvStore.{
  MemoryKvStore, get_schema, update, put_value, get_value, delete_value, with_prefix, iterate,
  keys_with_prefix, iterate_keys,
}
use guble.KvStore.Laws.{read_in, get_value-read, get_value-put_value, get_value-delete_value}
use guble.KvStore.Interface.{KvStore, Reply, answer, failure, IsLawful, Unique}

module _ {V : Type 0} where
  put-Unique : (m : Dict Bytes V) (key : Bytes) (v : V) → Unique m → Unique (put m key v)
  unfolding put find
  put-Unique [] key v u = (refl, u)
  put-Unique ((k, w) ∷ rest) key v u = elim (Bool-cases (k ≟ key)) [
    | inl t ↦ rw t u
    | inr f ↦ rw f (
      ground (arith, find-put rest key v k, bytes_eq_iff k key, bytes_eq_iff key k),
      put-Unique rest key v u.1,
    )
  ]

  remove-Unique : (m : Dict Bytes V) (key : Bytes) → Unique m → Unique (remove m key)
  unfolding remove find
  remove-Unique [] key u = u
  remove-Unique ((k, w) ∷ rest) key u = elim (Bool-cases (k ≟ key)) [
    | inl t ↦ rw t (remove-Unique rest key u.1)
    | inr f ↦ rw f (ground (arith, find-remove rest key k), remove-Unique rest key u.1)
  ]

find-with_prefix :
    (prefix : Bytes) (m : Dict Bytes Bytes) (key : Bytes)
    → find (with_prefix prefix m) key ≡ (if has_prefix key prefix then find m key else none)
unfolding find with_prefix
find-with_prefix prefix [] key = ground arith
find-with_prefix prefix ((k, v) ∷ m) key =
    ground (arith, find-with_prefix prefix m key, bytes_eq_iff k key)

with_prefix-Unique :
    (prefix : Bytes) (m : Dict Bytes Bytes) → Unique m → Unique (with_prefix prefix m)
unfolding with_prefix
with_prefix-Unique prefix [] u = u
with_prefix-Unique prefix ((k, v) ∷ m) u = elim (Bool-cases (has_prefix k prefix)) [
  | inl t ↦ rw t (find-with_prefix prefix m k ∙ rw (t, u.0) refl, with_prefix-Unique prefix m u.1)
  | inr f ↦ rw f (with_prefix-Unique prefix m u.1)
]

-- The map of a schema; a schema that is not there reads as an empty one.
abbrev pub map_of : Option (Dict Bytes Bytes) → Dict Bytes Bytes
map_of none = []
map_of (some s) = s

map_of-Unique :
    (b : Bool) (x y : Option (Dict Bytes Bytes))
    → Unique (map_of x)
    → Unique (map_of y)
    → Unique (map_of (if b then x else y))
map_of-Unique true x y u v = u
map_of-Unique false x y u v = v

abbrev pub IsValidMemory : MemoryKvStore → Type 0
IsValidMemory s = (schema : Bytes) → Unique (map_of (find s.data' schema))

abbrev pub memory_kv_store : KvStore
memory_kv_store = record {
  State = MemoryKvStore;
  put = λ s schema key value. (true, put_value s schema key value);
  get = λ s schema key. let (value, s') = get_value s schema key in (answer value, s');
  delete = λ s schema key. (true, delete_value s schema key);
  iterate = iterate;
  IsValid = IsValidMemory;
}

get_schema-map :
    (s : MemoryKvStore) (schema : Bytes) → (get_schema s schema).0 ≡ map_of (find s.data' schema)
unfolding get_schema
get_schema-map s schema = elim (Option-cases (find s.data' schema)) [
  | inl e ↦ rw (get_schema, e) refl
  | inr (m, e) ↦ rw (get_schema, e) refl
]

get_schema-IsValid :
    (s : MemoryKvStore) (schema : Bytes) → IsValidMemory s → IsValidMemory (get_schema s schema).1
unfolding get_schema
get_schema-IsValid s schema v other = elim (Option-cases (find s.data' schema)) [
  | inl e ↦
      rw (get_schema, e, find-put s.data' schema [] other)
        (map_of-Unique (schema ≟ other) (some []) (find s.data' other) tt (v other))
  | inr (m, e) ↦ rw (get_schema, e) (v other)
]

update-IsValid :
    (f : Dict Bytes Bytes → Dict Bytes Bytes)
    → ((m : Dict Bytes Bytes) → Unique m → Unique (f m))
    → (s : MemoryKvStore) (schema : Bytes) → IsValidMemory s
    → IsValidMemory (update f schema (get_schema s schema))
update-IsValid f h s schema v other = rw (find-put new schema (f (get_schema s schema).0) other) (
    map_of-Unique (schema ≟ other) (some (f (get_schema s schema).0)) (find new other)
      (h (get_schema s schema).0 (rw (get_schema-map s schema) (v schema)))
      (get_schema-IsValid s schema v other))
  where
    new : Dict Bytes (Dict Bytes Bytes)
    new = (get_schema s schema).1.data'

get_schema-read :
    (s : MemoryKvStore) (schema other key : Bytes)
    → read_in (find (get_schema s schema).1.data' other) key ≡ read_in (find s.data' other) key
unfolding get_schema
get_schema-read s schema other key = elim (Option-cases (find s.data' schema)) [
  | inl e ↦
      rw (get_schema, e, find-put s.data' schema [] other)
        (elim (Bool-cases (schema ≟ other)) [
          | inl t ↦ rw (t, sym ((bytes_eq_iff schema other).0 t), e) (unfold find in refl)
          | inr f ↦ rw f refl
        ])
  | inr (m, e) ↦ rw (get_schema, e) refl
]

abbrev answer_of : Option Bytes → Reply (Option Bytes) → Option Bytes
answer_of value (answer o) = o
answer_of value failure = value

get_value-get_value :
    (s : MemoryKvStore) (schema key other_schema other : Bytes)
    → (get_value (get_value s schema key).1 other_schema other).0
      ≡ (get_value s other_schema other).0
unfolding get_value get_schema
get_value-get_value s schema key other_schema other =
    get_value-read (get_value s schema key).1 other_schema other
    ∙ get_schema-read s schema other_schema other
    ∙ sym (get_value-read s other_schema other)

answer-if :
    (b : Bool) (x y : Option Bytes)
    → answer (if b then x else y) ≡ (if b then answer x else answer y)
answer-if true x y = refl
answer-if false x y = refl

find-iterate_memory :
    (s : MemoryKvStore) (schema prefix key : Bytes) (value : Option Bytes)
    → answer (get_value s schema key).0 ≡ answer value
    → find (iterate s schema prefix).0 key ≡ (if has_prefix key prefix then value else none)
unfolding iterate get_value
find-iterate_memory s schema prefix key value e =
    find-with_prefix prefix (get_schema s schema).0 key
    ∙ ap (λ o. if has_prefix key prefix then o else none) (ap (answer_of value) e)

pub memory_kv_store-IsLawful : IsLawful memory_kv_store
unfolding put_value delete_value iterate get_value find
memory_kv_store-IsLawful = record {
  put-IsValid = λ s schema key value v.
      update-IsValid (λ m. put m key value) (λ m. put-Unique m key value) s schema v;
  get-IsValid = λ s schema key. get_schema-IsValid s schema;
  delete-IsValid =
      λ s schema key v. update-IsValid (λ m. remove m key) (λ m. remove-Unique m key) s schema v;
  get-put = λ s schema key value other_schema other.
      ap answer (get_value-put_value s schema key value other_schema other)
      ∙ answer-if ((schema ≟ other_schema) && (key ≟ other)) (some value)
          (get_value s other_schema other).0;
  get-delete = λ s schema key other_schema other.
      ap answer (get_value-delete_value s schema key other_schema other)
      ∙ answer-if ((schema ≟ other_schema) && (key ≟ other)) none
          (get_value s other_schema other).0;
  get-get = λ s schema key other_schema other.
      ap answer (get_value-get_value s schema key other_schema other);
  find-iterate = λ s schema prefix key value v e. find-iterate_memory s schema prefix key value e;
  iterate-Unique = λ s schema prefix v.
      with_prefix-Unique prefix (get_schema s schema).0 (rw (get_schema-map s schema) (v schema));
}

-- The keys that IterateKeys sends are those of the entries that Iterate sends, in its order.
abbrev first_of : Bytes × Bytes → Bytes
first_of (key, value) = key

keys_with_prefix-with_prefix :
    (prefix : Bytes) (m : Dict Bytes Bytes)
    → keys_with_prefix prefix m ≡ map first_of (with_prefix prefix m)
unfolding keys_with_prefix with_prefix
keys_with_prefix-with_prefix prefix [] = refl
keys_with_prefix-with_prefix prefix ((key, value) ∷ m) = elim (Bool-cases (has_prefix key prefix)) [
  | inl t ↦ rw t (ap (◌∷◌ key) (keys_with_prefix-with_prefix prefix m))
  | inr f ↦ rw f (keys_with_prefix-with_prefix prefix m)
]

iterate_keys-iterate :
    (s : MemoryKvStore) (schema prefix : Bytes)
    → iterate_keys s schema prefix
      ≡ (map first_of (iterate s schema prefix).0, (iterate s schema prefix).1)
unfolding iterate_keys iterate
iterate_keys-iterate s schema prefix =
    ap (λ keys. (keys, (get_schema s schema).1))
      (keys_with_prefix-with_prefix prefix (get_schema s schema).0)
