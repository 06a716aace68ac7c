-- ===== src/Push/Outcome.antt =====
-- What a response leaves of the subscriber of its request, in memory and in the store, where the calls
-- of the store succeed.
use mathlib.Core.Path.{subst}
use guble.Prelude.{
  ℕ, ◌≡◌, refl, ap, sym, ◌∙◌, Bytes, bytes_comparable, codes, ◌≟◌, ≟-refl, find, find-put, nat_eq,
  [], ◌∷◌, Option, none, some, Bool, true, false, ◌&&◌, ◌||◌, ◌⊎◌, inl, inr, if◌then◌else◌,
}
use guble.KvStore.Interface.{KvStore, IsLawful, answer}
use guble.Connector.Subscriber.{
  Subscriber, set_last_id, generate_key, subscriber_key, kept_or_generated, key_of, with_key,
}
use guble.Connector.Manager.{
  SubscriberJson, ManagerError, Manager, exists_key, find_subscriber, is_some, put_subscriber,
  delete_subscriber, put_result, unless_failed, update_store, update_subscriber, remove_subscriber,
  touch_in, touch_last_id,
}
use guble.Push.{
  not_registered, Handled, done, failed, FcmResponse, ApnsResponse, is_valid_response_error,
  is_refused, replace_canonical, record_delivery, handle_fcm_error, handle_fcm_response,
  handle_apns_response,
}
use guble.Push.Replacing.{remove_subscriber-deleted, without, is_gone}

-- An error of the sender that HandleResponse of FCM takes for a response, or none.
abbrev pub IsAnswered : Option Bytes → Type 0
IsAnswered none = Unit
IsAnswered (some text) = (text ≡ codes "InvalidRegistration") ⊎ (text ≡ codes "NotRegistered")

module _ (S : KvStore) (json : SubscriberJson) (sha1 : Bytes → Bytes) where
  -- The subscriber has the id, in memory and as it is written in the store.
  abbrev pub Kept : Subscriber → ℕ → Bytes → Manager S json sha1 → Type 0
  Kept s id value m =
      (find_subscriber S json sha1 (key_of sha1 s) m
        ≡ some (record s { key = key_of sha1 s; data' = record (s.data') { last_id = id } }))
      × ((S.get m.kv_store m.schema (key_of sha1 s)).0 ≡ answer (some value))

  abbrev pub Gone : Subscriber → Manager S json sha1 → Type 0
  Gone s m =
      (find_subscriber S json sha1 (key_of sha1 s) m ≡ none)
      × ((S.get m.kv_store m.schema (key_of sha1 s)).0 ≡ answer none)

  -- Of a response of FCM: after NotRegistered the subscriber is removed and the error given, after any
  -- other it has the id of the message.
  abbrev pub FcmOutcome :
      Bool → Bool → Subscriber → ℕ → Bytes → Handled × Manager S json sha1 → Type 0
  FcmOutcome true unregistered s id value (h, m) = (h ≡ done) × Kept s id value m
  FcmOutcome false true s id value (h, m) = (h ≡ failed not_registered) × Gone s m
  FcmOutcome false false s id value (h, m) = (h ≡ done) × Kept s id value m

  -- Of a response of APNS, where `sent` and `about_token` are its tests.
  abbrev pub ApnsOutcome :
      Bool → Bool → Subscriber → ℕ → Bytes → Handled × Manager S json sha1 → Type 0
  ApnsOutcome true about_token s id value (h, m) = (h ≡ done) × Kept s id value m
  ApnsOutcome false true s id value (h, m) = (h ≡ done) × Gone s m
  ApnsOutcome false false s id value (h, m) = (h ≡ done) × Kept s id value m

  key_of-set_last_id : (id : ℕ) (s : Subscriber) → key_of sha1 (set_last_id id s) ≡ key_of sha1 s
  unfolding set_last_id subscriber_key generate_key
  key_of-set_last_id id s = kept s.key
    where
      kept :
          (k : Bytes)
          → kept_or_generated sha1 k (record (s.data') { last_id = id })
            ≡ kept_or_generated sha1 k s.data'
      kept [] = refl
      kept (b ∷ k) = refl

  touched_exists :
      (key : Bytes) (id : ℕ) (m : Manager S json sha1) (t : Subscriber)
      → find m.subscribers key ≡ some t
      → exists_key S json sha1 key (touch_last_id S json sha1 key id m) ≡ true
  unfolding exists_key touch_last_id
  touched_exists key id m t f =
      ap (λ o. is_some S json sha1 (find (touch_in S json sha1 key id o m).subscribers key)) f
      ∙ ap (is_some S json sha1) (
          find-put m.subscribers key (set_last_id id t) key
          ∙ ap (λ b. if b then some (set_last_id id t) else find m.subscribers key) (≟-refl key))

  written :
      (s : Subscriber) (m : Manager S json sha1) (p : Bool × S.State)
      → p.0 ≡ true
      → unless_failed S json sha1 (put_subscriber S json sha1 s) (put_result S json sha1 p m)
        ≡ (none, put_subscriber S json sha1 s (record m { kv_store = p.1 }))
  written s m (true, kv) e = refl
  written s m (false, kv) e = absurd (cc)

  -- The manager after a subscriber was stored.
  abbrev stored : Subscriber → Bytes → Manager S json sha1 → Manager S json sha1
  stored s value m =
      put_subscriber S json sha1 s
        (record m { kv_store = (S.put m.kv_store m.schema (key_of sha1 s) value).1 })

  update_subscriber-stored :
      (s : Subscriber) (value : Bytes) (m : Manager S json sha1)
      → exists_key S json sha1 (key_of sha1 s) m ≡ true
      → json.marshal s.data' ≡ some value
      → (S.put m.kv_store m.schema (key_of sha1 s) value).0 ≡ true
      → update_subscriber S json sha1 s m ≡ (none, stored s value m)
  unfolding update_subscriber update_store
  update_subscriber-stored s value m e j p =
      rw (e, j) (written s m (S.put m.kv_store m.schema (key_of sha1 s) value) p)

  same_key : (schema key : Bytes) → (true && ((schema ≟ schema) && (key ≟ key))) ≡ true
  same_key schema key = rw (≟-refl schema, ≟-refl key) refl

  module _ (L : IsLawful S) where
    stored-get :
        (s : Subscriber) (value : Bytes) (m : Manager S json sha1)
        → (S.put m.kv_store m.schema (key_of sha1 s) value).0 ≡ true
        → (S.get (stored s value m).kv_store (stored s value m).schema (key_of sha1 s)).0
          ≡ answer (some value)
    unfolding put_subscriber
    stored-get s value m p =
        L.get-put m.kv_store m.schema (key_of sha1 s) value m.schema (key_of sha1 s)
        ∙ ap
            (λ b.
              if b && ((m.schema ≟ m.schema) && (key_of sha1 s ≟ key_of sha1 s))
              then answer (some value)
              else (S.get m.kv_store m.schema (key_of sha1 s)).0)
            p
        ∙ ap (λ b. if b then answer (some value) else (S.get m.kv_store m.schema (key_of sha1 s)).0)
            (same_key m.schema (key_of sha1 s))

    without-get :
        (s : Subscriber) (m : Manager S json sha1)
        → (S.delete m.kv_store m.schema (key_of sha1 s)).0 ≡ true
        → (S.get
            (without S json sha1 s m).kv_store
            (without S json sha1 s m).schema
            (key_of sha1 s)).0
          ≡ answer none
    unfolding delete_subscriber
    without-get s m p =
        L.get-delete m.kv_store m.schema (key_of sha1 s) m.schema (key_of sha1 s)
        ∙ ap
            (λ b.
              if b && ((m.schema ≟ m.schema) && (key_of sha1 s ≟ key_of sha1 s))
              then answer none
              else (S.get m.kv_store m.schema (key_of sha1 s)).0)
            p
        ∙ ap (λ b. if b then answer none else (S.get m.kv_store m.schema (key_of sha1 s)).0)
            (same_key m.schema (key_of sha1 s))

    stored-find :
        (s : Subscriber) (value : Bytes) (m : Manager S json sha1)
        → find_subscriber S json sha1 (key_of sha1 s) (stored s value m) ≡ some (with_key sha1 s)
    unfolding find_subscriber put_subscriber
    stored-find s value m =
        find-put m.subscribers (key_of sha1 s) (with_key sha1 s) (key_of sha1 s)
        ∙ ap (λ b. if b then some (with_key sha1 s) else find m.subscribers (key_of sha1 s))
            (≟-refl (key_of sha1 s))

    -- The subscriber of a request is known, and what is called of the store and of JSON succeeds.
    module _ (s t : Subscriber) (id : ℕ) (value : Bytes) (m : Manager S json sha1)
        (found : find_subscriber S json sha1 (key_of sha1 s) m ≡ some t)
        (marshals : json.marshal (record (s.data') { last_id = id }) ≡ some value)
        (puts : (kv : S.State) (schema key v : Bytes) → (S.put kv schema key v).0 ≡ true)
        (deletes : (kv : S.State) (schema key : Bytes) → (S.delete kv schema key).0 ≡ true) where
      abbrev s' : Subscriber
      s' = record s { data' = record (s.data') { last_id = id } }

      abbrev touched : Manager S json sha1
      touched = touch_last_id S json sha1 (key_of sha1 s) id m

      abbrev saved : Manager S json sha1
      saved = stored s' value touched

      same : key_of sha1 s' ≡ key_of sha1 s
      unfolding set_last_id
      same = key_of-set_last_id id s

      recorded : record_delivery S json sha1 s id m ≡ (none, saved)
      unfolding record_delivery set_last_id find_subscriber
      recorded =
          update_subscriber-stored s' value touched
            (ap (λ k. exists_key S json sha1 k touched) same
              ∙ touched_exists (key_of sha1 s) id m t found)
            marshals (puts touched.kv_store touched.schema (key_of sha1 s') value)

      saved-Kept : Kept s id value saved
      saved-Kept = (
        ap (λ k. find_subscriber S json sha1 k saved) (sym same)
            ∙ stored-find s' value touched
            ∙ ap (λ k. some (record s' { key = k })) same,
        ap (λ k. (S.get saved.kv_store saved.schema k).0) (sym same)
            ∙ stored-get s' value touched
                (puts touched.kv_store touched.schema (key_of sha1 s') value),
      )

      saved_exists : exists_key S json sha1 (key_of sha1 s') saved ≡ true
      unfolding exists_key find_subscriber
      saved_exists = ap (is_some S json sha1) (stored-find s' value touched)

      removed-Gone : Gone s (remove_subscriber S json sha1 s' saved).1.1
      removed-Gone =
          subst (Gone s)
            (sym (
              ap (λ (r : Option ManagerError × Manager S json sha1). r.1)
                (remove_subscriber-deleted S json sha1 s' saved saved_exists
                  (deletes saved.kv_store saved.schema (key_of sha1 s')))))
            (
              ap (λ k. find_subscriber S json sha1 k gone) (sym same)
                  ∙ is_gone S json sha1 s' saved,
              ap (λ k. (S.get gone.kv_store gone.schema k).0) (sym same)
                  ∙ without-get s' saved (deletes saved.kv_store saved.schema (key_of sha1 s')),
            )
        where
          gone : Manager S json sha1
          gone = without S json sha1 s' saved

      handle_fcm_response-Outcome :
          (error : Option Bytes) (r : FcmResponse)
          → is_refused error ≡ false
          → r.canonical_ids ≡ 0
          → FcmOutcome r.is_ok
              (r.error ≟ codes "NotRegistered")
              s
              id
              value
              (handle_fcm_response S json sha1 error (some r) s id m)
      unfolding handle_fcm_response handle_fcm_error set_last_id
      handle_fcm_response-Outcome error r a z =
          rw (a, recorded) (chosen r.is_ok (r.error ≟ codes "NotRegistered"))
        where
          chosen :
              (ok unregistered : Bool)
              → FcmOutcome ok unregistered s id value (
                  if ok
                  then (done, saved)
                  else if unregistered
                  then (failed not_registered, (remove_subscriber S json sha1 s' saved).1.1)
                  else if nat_eq r.canonical_ids 0
                  then (done, saved)
                  else replace_canonical S json sha1 s' r.registration_id saved)
          chosen true unregistered = (refl, saved-Kept)
          chosen false true = (refl, removed-Gone)
          chosen false false = rw z (refl, saved-Kept)

      handle_apns_response-Outcome :
          (r : ApnsResponse)
          → ApnsOutcome r.sent r.is_about_token s id value
              (handle_apns_response S json sha1 false (some r) s id m)
      unfolding handle_apns_response set_last_id
      handle_apns_response-Outcome r = rw recorded (chosen r.sent r.is_about_token)
        where
          chosen :
              (sent about_token : Bool)
              → ApnsOutcome sent about_token s id value (
                  if sent
                  then (done, saved)
                  else if about_token
                  then (done, (remove_subscriber S json sha1 s' saved).1.1)
                  else (done, saved))
          chosen true about_token = (refl, saved-Kept)
          chosen false true = (refl, removed-Gone)
          chosen false false = (refl, saved-Kept)

    not_refused : (error : Option Bytes) → IsAnswered error → is_refused error ≡ false
    unfolding is_valid_response_error
    not_refused none h = refl
    not_refused (some text) (inl e) = rw (e, ≟-refl (codes "InvalidRegistration")) refl
    not_refused (some text) (inr e) = rw (e, ≟-refl (codes "NotRegistered")) (or-true _)
      where
        or-true : (b : Bool) → (if b || true then false else true) ≡ false
        or-true true = refl
        or-true false = refl

    -- A response of FCM that has no canonical id, with no error or one that is a response, and one of
    -- APNS, each for a subscriber that is known: after NotRegistered of FCM, or a reason of APNS that is
    -- about the token, where the response is no success, the subscriber is removed from memory and from
    -- the store; after any other it has the id of the message in both. Only NotRegistered gives an error,
    -- and no subscriber is run. The store keeps its contract, its Put and Delete succeed, and the data of
    -- the subscriber with the id is written as a value.
    pub handle_response-Outcome :
        (error : Option Bytes) (fcm : FcmResponse) (apns : ApnsResponse) (s t : Subscriber) (id : ℕ)
        (value : Bytes) (m : Manager S json sha1)
        → IsAnswered error
        → fcm.canonical_ids ≡ 0
        → find_subscriber S json sha1 (key_of sha1 s) m ≡ some t
        → json.marshal (record (s.data') { last_id = id }) ≡ some value
        → ((kv : S.State) (schema key v : Bytes) → (S.put kv schema key v).0 ≡ true)
        → ((kv : S.State) (schema key : Bytes) → (S.delete kv schema key).0 ≡ true)
        → FcmOutcome fcm.is_ok
            (fcm.error ≟ codes "NotRegistered")
            s
            id
            value
            (handle_fcm_response S json sha1 error (some fcm) s id m)
          × ApnsOutcome apns.sent apns.is_about_token s id value
              (handle_apns_response S json sha1 false (some apns) s id m)
    handle_response-Outcome error fcm apns s t id value m a z f j p d = (
      handle_fcm_response-Outcome s t id value m f j p d error fcm (not_refused error a) z,
      handle_apns_response-Outcome s t id value m f j p d apns,
    )
