-- ===== src/KvStore/Interface.antt =====
-- server/kvstore/kvstore.go: the interface KVStore over an unknown state, and its contract, which
-- the clients of a store rely on. An operation may fail. The entries sent to the channel of Iterate
-- are the list of them.
use guble.Prelude.{
  ◌≡◌, Bytes, bytes_comparable, ◌≟◌, Dict, find, has_prefix, [], ◌∷◌, Option, none, some, Bool,
  ◌&&◌, if◌then◌else◌,
}

-- A value with `err == nil`, or an error.
pub data Reply (A : Type 0) : Type 0 where
  answer : A → Reply A
  failure : Reply A

-- Put and Delete give whether they succeeded. IsValid is what an implementation keeps of its state.
pub record KvStore : Type 1 where
  pub State : Type 0
  pub put : State → Bytes → Bytes → Bytes → Bool × State
  pub get : State → Bytes → Bytes → Reply (Option Bytes) × State
  pub delete : State → Bytes → Bytes → Bool × State
  pub iterate : State → Bytes → Bytes → Dict Bytes Bytes × State
  pub IsValid : State → Type 0

-- Each key is in the list once.
abbrev pub Unique : {V : Type 0} → Dict Bytes V → Type 0
Unique [] = Unit
Unique ((k, v) ∷ rest) = (find rest k ≡ none) × Unique rest

-- The contract: a store acts like a map from a schema and a key to a value.
pub record IsLawful (S : KvStore) : Type 1 where
  pub put-IsValid :
      (s : S.State) (schema key value : Bytes)
      → S.IsValid s
      → S.IsValid (S.put s schema key value).1
  pub get-IsValid :
      (s : S.State) (schema key : Bytes) → S.IsValid s → S.IsValid (S.get s schema key).1
  pub delete-IsValid :
      (s : S.State) (schema key : Bytes) → S.IsValid s → S.IsValid (S.delete s schema key).1
  pub get-put :
      (s : S.State) (schema key value other_schema other : Bytes)
      → (S.get (S.put s schema key value).1 other_schema other).0 ≡ (
          if (S.put s schema key value).0 && ((schema ≟ other_schema) && (key ≟ other))
          then answer (some value)
          else (S.get s other_schema other).0)
  pub get-delete :
      (s : S.State) (schema key other_schema other : Bytes)
      → (S.get (S.delete s schema key).1 other_schema other).0 ≡ (
          if (S.delete s schema key).0 && ((schema ≟ other_schema) && (key ≟ other))
          then answer none
          else (S.get s other_schema other).0)
  pub get-get :
      (s : S.State) (schema key other_schema other : Bytes)
      → (S.get (S.get s schema key).1 other_schema other).0 ≡ (S.get s other_schema other).0
  pub find-iterate :
      (s : S.State) (schema prefix key : Bytes) (value : Option Bytes)
      → S.IsValid s
      → (S.get s schema key).0 ≡ answer value
      → find (S.iterate s schema prefix).0 key ≡ (if has_prefix key prefix then value else none)
  pub iterate-Unique :
      (s : S.State) (schema prefix : Bytes) → S.IsValid s → Unique (S.iterate s schema prefix).0
