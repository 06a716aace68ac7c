-- ===== src/Connector/Manager/Mirror.antt =====
-- The calls of the manager. The subscribers in memory are those in the key-value store, up to the last id, which is in the
-- store as it was when the subscriber was written last.
use guble.Prelude.{
  ℕ, ◌≡◌, refl, ap, sym, ◌∙◌, Bytes, bytes_comparable, bytes_eq_iff, ◌≟◌, ≟-refl, find, find-put,
  find-remove, [], ◌∷◌, Option, none, some, Bool, true, false, ◌&&◌, if◌then◌else◌, Bool-cases,
  Option-cases, inl, inr,
}
use mathlib.Core.Path.{subst}
use guble.Router.Params.{RouteParams}
use guble.KvStore.Interface.{KvStore, IsLawful, Reply, answer}
use guble.Connector.Subscriber.{
  Subscriber, new_subscriber, new_subscriber_from_data, set_last_id, generate_key, subscriber_key,
  kept_or_generated, key_of, with_key,
}
use guble.Connector.Manager.{
  SubscriberJson, Manager, put_subscriber, delete_subscriber, exists_key, put_result, update_store,
  unless_failed, add, update_subscriber, create, remove_store, remove_subscriber, touch_last_id,
}

module _ (S : KvStore) (json : SubscriberJson) (sha1 : Bytes → Bytes) where
  -- What one key has in memory and in the store.
  abbrev pub Mirrored : Bytes → Option Subscriber → Reply (Option Bytes) → Type 0
  Mirrored key none saved = saved ≡ answer none
  Mirrored key (some s) saved =
      ((key_of sha1 s ≡ key) × (subscriber_key sha1 s.data' ≡ key))
      × ((id : ℕ) × ((value : Bytes) × ((json.marshal (record (s.data') { last_id = id })
                ≡ some value)
              × (saved ≡ answer (some value)))))

  abbrev pub IsMirror : Manager S json sha1 → Type 0
  IsMirror m =
      (key : Bytes) → Mirrored key (find m.subscribers key) (S.get m.kv_store m.schema key).0

  -- The key that was kept, if any, is the one that the data has.
  abbrev pub HasOwnKey : Subscriber → Type 0
  HasOwnKey s = key_of sha1 s ≡ subscriber_key sha1 s.data'

  key_of-with_key : (s : Subscriber) → key_of sha1 (with_key sha1 s) ≡ key_of sha1 s
  key_of-with_key s = kept s.key
    where
      kept :
          (key : Bytes)
          → kept_or_generated sha1 (kept_or_generated sha1 key s.data') s.data'
            ≡ kept_or_generated sha1 key s.data'
      kept [] = again (subscriber_key sha1 s.data') refl
        where
          again :
              (k : Bytes) → k ≡ subscriber_key sha1 s.data' → kept_or_generated sha1 k s.data' ≡ k
          again [] e = sym e
          again (b ∷ k) e = refl
      kept (b ∷ key) = refl

  Mirrored-if :
      (key : Bytes) (b : Bool) (o p : Option Subscriber) (x y : Reply (Option Bytes))
      → (b ≡ true → Mirrored key o x)
      → Mirrored key p y
      → Mirrored key (if b then o else p) (if b then x else y)
  Mirrored-if key true o p x y h k = h refl
  Mirrored-if key false o p x y h k = k

  after_put :
      (s : Subscriber) (m : Manager S json sha1) (value : Bytes)
      → json.marshal s.data' ≡ some value
      → HasOwnKey s
      → IsMirror m
      → (p : Bool × S.State)
      → ((key : Bytes)
          → (S.get p.1 m.schema key).0 ≡ (
              if p.0 && (key_of sha1 s ≟ key)
              then answer (some value)
              else (S.get m.kv_store m.schema key).0))
      → IsMirror
          (unless_failed S json sha1 (put_subscriber S json sha1 s) (put_result S json sha1 p m)).1
  unfolding put_subscriber
  after_put s m value e o h (true, kv) reads key =
      rw (find-put m.subscribers (key_of sha1 s) (with_key sha1 s) key, reads key)
        (Mirrored-if key (key_of sha1 s ≟ key) _ _ _ _
          (λ t. (
            (
              key_of-with_key s ∙ (bytes_eq_iff (key_of sha1 s) key).0 t,
              sym o ∙ (bytes_eq_iff (key_of sha1 s) key).0 t,
            ),
            (s.data'.last_id, (value, (e, refl))),
          ))
          (h key))
  after_put s m value e o h (false, kv) reads key = rw (reads key) (h key)

  after_delete :
      (s : Subscriber) (m : Manager S json sha1)
      → IsMirror m
      → (p : Bool × S.State)
      → ((key : Bytes)
          → (S.get p.1 m.schema key).0 ≡ (
              if p.0 && (key_of sha1 s ≟ key)
              then answer none
              else (S.get m.kv_store m.schema key).0))
      → IsMirror
          (unless_failed S json sha1
            (delete_subscriber S json sha1 s)
            (put_result S json sha1 p m)).1
  unfolding delete_subscriber
  after_delete s m h (true, kv) reads key =
      rw (find-remove m.subscribers (key_of sha1 s) key, reads key)
        (Mirrored-if key (key_of sha1 s ≟ key) _ _ _ _ (λ t. refl) (h key))
  after_delete s m h (false, kv) reads key = rw (reads key) (h key)

  module _ (L : IsLawful S) where
    write-IsMirror :
        (s : Subscriber) (m : Manager S json sha1)
        → HasOwnKey s
        → IsMirror m
        → IsMirror
            (unless_failed S json sha1
              (put_subscriber S json sha1 s)
              (update_store S json sha1 s m)).1
    unfolding update_store
    write-IsMirror s m o h = elim (Option-cases (json.marshal s.data')) [
      | inl e ↦ rw e h
      | inr (value, e) ↦ rw e (
          after_put s m value e o h (S.put m.kv_store m.schema (key_of sha1 s) value) (λ key.
            L.get-put m.kv_store m.schema (key_of sha1 s) value m.schema key
            ∙ rw (≟-refl m.schema) refl))
    ]

    erase-IsMirror :
        (s : Subscriber) (m : Manager S json sha1)
        → IsMirror m
        → IsMirror
            (unless_failed S json sha1
              (delete_subscriber S json sha1 s)
              (remove_store S json sha1 s m)).1
    unfolding remove_store
    erase-IsMirror s m h = after_delete s m h (S.delete m.kv_store m.schema (key_of sha1 s)) (λ key.
        L.get-delete m.kv_store m.schema (key_of sha1 s) m.schema key ∙ rw (≟-refl m.schema) refl)

    pub add-IsMirror :
        (s : Subscriber) (m : Manager S json sha1)
        → HasOwnKey s
        → IsMirror m
        → IsMirror (add S json sha1 s m).1
    unfolding add
    add-IsMirror s m o h = elim (Bool-cases (exists_key S json sha1 (key_of sha1 s) m)) [
      | inl t ↦ rw t h
      | inr f ↦ rw f (write-IsMirror s m o h)
    ]

    pub update_subscriber-IsMirror :
        (s : Subscriber) (m : Manager S json sha1)
        → HasOwnKey s
        → IsMirror m
        → IsMirror (update_subscriber S json sha1 s m).1
    unfolding update_subscriber
    update_subscriber-IsMirror s m o h =
        elim (Bool-cases (exists_key S json sha1 (key_of sha1 s) m)) [
          | inl t ↦ rw t (write-IsMirror s m o h)
          | inr f ↦ rw f h
        ]

    pub create-IsMirror :
        (topic : Bytes) (params : RouteParams) (m : Manager S json sha1)
        → IsMirror m
        → IsMirror (create S json sha1 topic params m).1
    unfolding create
    create-IsMirror topic params m h =
        elim (Bool-cases (exists_key S json sha1 (generate_key sha1 topic params) m)) [
          | inl t ↦ rw t h
          | inr f ↦ rw f (
              add-IsMirror (new_subscriber topic params 0) m
                (unfold new_subscriber in unfold new_subscriber_from_data in refl) h)
        ]

    pub remove_subscriber-IsMirror :
        (s : Subscriber) (m : Manager S json sha1)
        → IsMirror m
        → IsMirror (remove_subscriber S json sha1 s m).1.1
    unfolding remove_subscriber
    remove_subscriber-IsMirror s m h =
        elim (Bool-cases (exists_key S json sha1 (key_of sha1 s) m)) [
          | inl t ↦ rw t (erase-IsMirror s m h)
          | inr f ↦ rw f h
        ]

  touched :
      (key : Bytes) (id : ℕ) (s : Subscriber) (saved : Reply (Option Bytes))
      → Mirrored key (some s) saved
      → Mirrored key (some (set_last_id id s)) saved
  unfolding set_last_id subscriber_key generate_key
  touched key id s saved h = ((kept s.key ∙ h.0.0, h.0.1), h.1)
    where
      kept :
          (k : Bytes)
          → kept_or_generated sha1 k (record (s.data') { last_id = id })
            ≡ kept_or_generated sha1 k s.data'
      kept [] = again
        where
          again :
              subscriber_key sha1 (record (s.data') { last_id = id }) ≡ subscriber_key sha1 s.data'
          again = refl
      kept (b ∷ k) = refl

  pub touch_last_id-IsMirror :
      (key : Bytes) (id : ℕ) (m : Manager S json sha1)
      → IsMirror m
      → IsMirror (touch_last_id S json sha1 key id m)
  unfolding touch_last_id
  touch_last_id-IsMirror key id m h other = elim (Option-cases (find m.subscribers key)) [
    | inl e ↦ rw e (h other)
    | inr (s, e) ↦
        rw (e, find-put m.subscribers key (set_last_id id s) other)
          (elim (Bool-cases (key ≟ other)) [
            | inl t ↦ rw t (
                touched other id s (S.get m.kv_store m.schema other).0 (
                  subst (λ o. Mirrored other o (S.get m.kv_store m.schema other).0)
                    (ap (find m.subscribers) (sym ((bytes_eq_iff key other).0 t)) ∙ e) (h other)))
            | inr f ↦ rw f (h other)
          ])
  ]

  -- The calls of the manager, in any order, from a new manager on.
  pub data Step : Manager S json sha1 → Manager S json sha1 → Type 0 where
    added :
        (s : Subscriber) (m : Manager S json sha1) → HasOwnKey s → Step m (add S json sha1 s m).1
    updated :
        (s : Subscriber) (m : Manager S json sha1)
        → HasOwnKey s
        → Step m (update_subscriber S json sha1 s m).1
    created :
        (topic : Bytes) (params : RouteParams) (m : Manager S json sha1)
        → Step m (create S json sha1 topic params m).1
    removed :
        (s : Subscriber) (m : Manager S json sha1) → Step m (remove_subscriber S json sha1 s m).1.1
    touched_last_id :
        (key : Bytes) (id : ℕ) (m : Manager S json sha1)
        → Step m (touch_last_id S json sha1 key id m)

  pub data Reach (m : Manager S json sha1) : Manager S json sha1 → Type 0 where
    here : Reach m m
    next : {n k : Manager S json sha1} → Reach m n → Step n k → Reach m k

  pub Step-IsMirror : IsLawful S → {m n : Manager S json sha1} → Step m n → IsMirror m → IsMirror n
  Step-IsMirror L (added s m o) h = add-IsMirror L s m o h
  Step-IsMirror L (updated s m o) h = update_subscriber-IsMirror L s m o h
  Step-IsMirror L (created topic params m) h = create-IsMirror L topic params m h
  Step-IsMirror L (removed s m) h = remove_subscriber-IsMirror L s m h
  Step-IsMirror L (touched_last_id key id m) h = touch_last_id-IsMirror key id m h

  -- What is in memory is in the store, whatever calls there were and whichever of them failed.
  pub Reach-IsMirror :
      IsLawful S → {m n : Manager S json sha1} → Reach m n → IsMirror m → IsMirror n
  Reach-IsMirror L here h = h
  Reach-IsMirror L (next r st) h = Step-IsMirror L st (Reach-IsMirror L r h)
