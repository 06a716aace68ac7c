-- ===== src/Push/Replacing.antt =====
-- A canonical id of FCM that has a subscriber already.
use guble.Prelude.{
  ◌≡◌, refl, ap, ◌∙◌, Bytes, bytes_comparable, ◌≟◌, ≟-refl, find, find-remove, put, none, some,
  Bool, true, false, if◌then◌else◌,
}
use guble.Router.Params.{RouteParams}
use guble.KvStore.Interface.{KvStore}
use guble.Connector.Subscriber.{Subscriber, generate_key, key_of}
use guble.Connector.Manager.{
  SubscriberJson, subscriber_exists, Manager, exists_key, find_subscriber, is_some,
  delete_subscriber, put_result, unless_failed, remove_store, remove_subscriber, create,
}
use guble.Push.{manager_failed, running, device_token_key, replace_canonical}

module _ (S : KvStore) (json : SubscriberJson) (sha1 : Bytes → Bytes) where
  delete_stored :
      (s : Subscriber) (m : Manager S json sha1) (p : Bool × S.State)
      → p.0 ≡ true
      → (unless_failed S json sha1 (delete_subscriber S json sha1 s) (put_result S json sha1 p m))
        ≡ (none, delete_subscriber S json sha1 s (record m { kv_store = p.1 }))
  delete_stored s m (true, kv) e = refl
  delete_stored s m (false, kv) e = absurd (cc)

  pub remove_subscriber-deleted :
      (s : Subscriber) (m : Manager S json sha1)
      → exists_key S json sha1 (key_of sha1 s) m ≡ true
      → (S.delete m.kv_store m.schema (key_of sha1 s)).0 ≡ true
      → (remove_subscriber S json sha1 s m).1 ≡ (
        none,
        delete_subscriber S json sha1 s
            (record m { kv_store = (S.delete m.kv_store m.schema (key_of sha1 s)).1 }),
      )
  unfolding remove_subscriber remove_store
  remove_subscriber-deleted s m e d =
      rw e (delete_stored s m (S.delete m.kv_store m.schema (key_of sha1 s)) d)

  -- The key of the subscriber that replaces one.
  abbrev pub canonical_key : Subscriber → Bytes → Bytes
  canonical_key s new_token =
      generate_key sha1 s.route.config.path (put s.route.config.params device_token_key new_token)

  -- The manager without a subscriber.
  abbrev pub without : Subscriber → Manager S json sha1 → Manager S json sha1
  without s m =
      delete_subscriber S json sha1 s
        (record m { kv_store = (S.delete m.kv_store m.schema (key_of sha1 s)).1 })

  still_exists :
      (s : Subscriber) (key : Bytes) (m : Manager S json sha1)
      → (key_of sha1 s ≟ key) ≡ false
      → exists_key S json sha1 key m ≡ true
      → exists_key S json sha1 key (without s m) ≡ true
  unfolding exists_key delete_subscriber
  still_exists s key m g f =
      ap (is_some S json sha1) (
        find-remove m.subscribers (key_of sha1 s) key
        ∙ ap (λ b. if b then none else find m.subscribers key) g)
      ∙ f

  pub is_gone :
      (s : Subscriber) (m : Manager S json sha1)
      → find_subscriber S json sha1 (key_of sha1 s) (without s m) ≡ none
  unfolding find_subscriber delete_subscriber
  is_gone s m =
      find-remove m.subscribers (key_of sha1 s) (key_of sha1 s)
      ∙ ap (λ b. if b then none else find m.subscribers (key_of sha1 s)) (≟-refl (key_of sha1 s))

  create-exists :
      (topic : Bytes) (params : RouteParams) (m : Manager S json sha1)
      → exists_key S json sha1 (generate_key sha1 topic params) m ≡ true
      → create S json sha1 topic params m ≡ (some subscriber_exists, m)
  unfolding create
  create-exists topic params m e = rw e refl

  -- If the canonical id has a subscriber already, of another key than the request's, which is there and
  -- whose Delete succeeds, then the request's is removed, an error is given, and a nil subscriber is run.
  pub replace_canonical-nil :
      (s : Subscriber) (new_token : Bytes) (m : Manager S json sha1)
      → exists_key S json sha1 (key_of sha1 s) m ≡ true
      → exists_key S json sha1 (canonical_key s new_token) m ≡ true
      → (key_of sha1 s ≟ canonical_key s new_token) ≡ false
      → (S.delete m.kv_store m.schema (key_of sha1 s)).0 ≡ true
      → ((replace_canonical S json sha1 s new_token m).0
          ≡ record { error = some (manager_failed subscriber_exists); started = running none })
        × (find_subscriber S json sha1
              (key_of sha1 s)
              (replace_canonical S json sha1 s new_token m).1
            ≡ none)
  unfolding replace_canonical
  replace_canonical-nil s new_token m e f g d =
      rw
        (
          remove_subscriber-deleted s m e d,
          create-exists s.route.config.path (put s.route.config.params device_token_key new_token)
              (without s m) (still_exists s (canonical_key s new_token) m g f),
        )
        (refl, is_gone s m)
