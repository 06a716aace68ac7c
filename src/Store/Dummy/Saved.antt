-- ===== src/Store/Dummy/Saved.antt =====
-- What the saving loop of the dummy store leaves in the key-value store. Its passes are mixed with the
-- operations of the store: a step is one operation, or the writing of one topic.
use guble.Prelude.{
  ℕ, ◌-◌, ◌^◌, ◌<◌, ◌≡◌, refl, ap, sym, ◌∙◌, Bytes, bytes_comparable, bytes_eq_iff, ◌≟◌, ≟-refl,
  Dict, find, find-put, List, [], ◌∷◌, Option, none, some, Bool, true, false, ◌||◌, ◌⊎◌,
  if◌then◌else◌, ltb, nat_eq, nat_eq_iff, Bool-cases, Option-cases, inl, inr, arith,
}
use guble.Protocol.Decimal.{format_uint, parse_uint-format_uint}
use guble.KvStore.Interface.{KvStore, IsLawful, Reply, answer, failure}
use guble.Store.Dummy.{
  Outcome, done, failed, stored_sequence, sequence_of, topic_schema, DummyMessageStore, new_store,
  set_id, remember, max_message_id, and_then, generate_next_msg_id, next_id, invalid_message_id,
  store, Saver, value_at, or_zero, topics_to_update, write_topic, write_topics, sync_round,
}
use guble.Store.Dummy.Sequence.{max_message_id-current}

module _ (S : KvStore) where
  pub data Step : Saver S → Saver S → Type 0 where
    asked :
        (name : Bytes) (s : Saver S) → Step s (record s { dms = (max_message_id S name s.dms).1 })
    generated :
        (name : Bytes) (s : Saver S)
        → Step s (record s { dms = (generate_next_msg_id S name s.dms).1 })
    stored :
        (name : Bytes) (id : ℕ) (s : Saver S)
        → Step s (record s { dms = (store S name id s.dms).1 })
    wrote : (topic : Bytes) (s : Saver S) → Step s (write_topic S topic s)

  pub data Reach (s : Saver S) : Saver S → Type 0 where
    here : Reach s s
    next : {t u : Saver S} → Reach s t → Step t u → Reach s u

  -- At Start.
  abbrev pub starting : S.State → Saver S
  starting kv = record { dms = new_store S kv; last_sync_values = [] }

  -- Each value that the loop takes for written is in the key-value store.
  abbrev IsCoherent : Saver S → Type 0
  IsCoherent s =
      (topic : Bytes) (n : ℕ)
      → find s.last_sync_values topic ≡ some n
      → (S.get s.dms.kv_store topic_schema topic).0 ≡ answer (some (format_uint n))

  written :
      (b : Bool) (latest n : ℕ) {old : Option ℕ} {saved : Reply (Option Bytes)}
      → (if b then some latest else old) ≡ some n
      → (old ≡ some n → saved ≡ answer (some (format_uint n)))
      → (if b then answer (some (format_uint latest)) else saved) ≡ answer (some (format_uint n))
  written true latest n e h = ap (λ o. printed o) e
    where
      printed : Option ℕ → Reply (Option Bytes)
      printed none = failure
      printed (some k) = answer (some (format_uint k))
  written false latest n e h = h e

  -- Two states of the key-value store from which the same is read.
  abbrev ReadsAs : S.State → S.State → Type 0
  ReadsAs kv before = (schema key : Bytes) → (S.get kv schema key).0 ≡ (S.get before schema key).0

  remember-kv_store :
      (name : Bytes) (o : Outcome ℕ) (dms : DummyMessageStore S)
      → (remember S name (o, dms)).1.kv_store ≡ dms.kv_store
  unfolding set_id
  remember-kv_store name (failed e) dms = refl
  remember-kv_store name (done n) dms = refl

  module _ (L : IsLawful S) where
    max_message_id-ReadsAs :
        (name : Bytes) (dms : DummyMessageStore S)
        → ReadsAs (max_message_id S name dms).1.kv_store dms.kv_store
    unfolding max_message_id set_id
    max_message_id-ReadsAs name dms schema key =
        elim (Option-cases (find dms.topic_sequences name)) [
          | inl e ↦ rw e (
              ap (λ kv. (S.get kv schema key).0)
                (remember-kv_store name (stored_sequence (S.get dms.kv_store topic_schema name).0)
                  (record dms { kv_store = (S.get dms.kv_store topic_schema name).1 }))
              ∙ L.get-get dms.kv_store topic_schema name schema key)
          | inr (n, e) ↦ rw e refl
        ]

  generate_kv :
      (name : Bytes) (p : Outcome ℕ × DummyMessageStore S)
      → (and_then S p (λ max s. (done (next_id max), set_id S name (next_id max) s))).1.kv_store
        ≡ p.1.kv_store
  unfolding set_id
  generate_kv name (failed e, dms) = refl
  generate_kv name (done n, dms) = refl

  store_kv :
      (name : Bytes) (id : ℕ) (p : Outcome ℕ × DummyMessageStore S)
      → (and_then S {A = Unit {0}} p (λ max s.
          if ltb (next_id max) id
          then (failed (invalid_message_id (next_id max) id), s)
          else (done tt, set_id S name id s))).1.kv_store
        ≡ p.1.kv_store
  unfolding set_id
  store_kv name id (failed e, dms) = refl
  store_kv name id (done n, dms) = elim (Bool-cases (ltb (next_id n) id)) [
    | inl t ↦ rw t refl
    | inr f ↦ rw f refl
  ]

  module _ (L : IsLawful S)
      (puts : (kv : S.State) (schema key value : Bytes)
        → (S.put kv schema key value).0 ≡ true) where
    get_written :
        (kv : S.State) (topic other value : Bytes)
        → (S.get (S.put kv topic_schema topic value).1 topic_schema other).0
          ≡ (if topic ≟ other then answer (some value) else (S.get kv topic_schema other).0)
    get_written kv topic other value =
        L.get-put kv topic_schema topic value topic_schema other
        ∙ rw (puts kv topic_schema topic value, ≟-refl topic_schema) refl

    write_topic-IsCoherent :
        (topic : Bytes) (s : Saver S) → IsCoherent s → IsCoherent (write_topic S topic s)
    unfolding write_topic
    write_topic-IsCoherent topic s c other n e =
        get_written s.dms.kv_store topic other
          (format_uint (value_at S s.dms.topic_sequences topic))
        ∙ written (topic ≟ other) (value_at S s.dms.topic_sequences topic) n
            (sym (find-put s.last_sync_values topic (value_at S s.dms.topic_sequences topic) other)
              ∙ e)
            (c other n)

    Step-IsCoherent : {s t : Saver S} → Step s t → IsCoherent s → IsCoherent t
    unfolding generate_next_msg_id store
    Step-IsCoherent (asked name s) c topic n e =
        max_message_id-ReadsAs L name s.dms topic_schema topic ∙ c topic n e
    Step-IsCoherent (generated name s) c topic n e =
        ap (λ kv. (S.get kv topic_schema topic).0) (generate_kv name (max_message_id S name s.dms))
        ∙ max_message_id-ReadsAs L name s.dms topic_schema topic
        ∙ c topic n e
    Step-IsCoherent (stored name id s) c topic n e =
        ap (λ kv. (S.get kv topic_schema topic).0) (store_kv name id (max_message_id S name s.dms))
        ∙ max_message_id-ReadsAs L name s.dms topic_schema topic
        ∙ c topic n e
    Step-IsCoherent (wrote topic s) c topic' n e = write_topic-IsCoherent topic s c topic' n e

    Reach-IsCoherent : {kv : S.State} {t : Saver S} → Reach (starting kv) t → IsCoherent t
    unfolding find
    Reach-IsCoherent here topic n e = absurd (grind arith)
    Reach-IsCoherent (next r st) topic n e = Step-IsCoherent st (Reach-IsCoherent r) topic n e

    write_topics-IsCoherent :
        (topics : List Bytes) (s : Saver S) → IsCoherent s → IsCoherent (write_topics S topics s)
    unfolding write_topics
    write_topics-IsCoherent [] s c = c
    write_topics-IsCoherent (topic ∷ topics) s c =
        write_topics-IsCoherent topics (write_topic S topic s) (write_topic-IsCoherent topic s c)

  abbrev member : Bytes → List Bytes → Bool
  member topic [] = false
  member topic (t ∷ topics) = (t ≟ topic) || member topic topics

  value_at-found :
      (m : Dict Bytes ℕ) (topic : Bytes) (n : ℕ) → find m topic ≡ some n → value_at S m topic ≡ n
  value_at-found m topic n e = ap or_zero e

  -- A counter written is the one that the map has.
  write_topic-last :
      (t : Bytes) (s : Saver S) (topic : Bytes) (n : ℕ)
      → find s.dms.topic_sequences topic ≡ some n
      → ((t ≟ topic) ≡ true) ⊎ (find s.last_sync_values topic ≡ some n)
      → find (write_topic S t s).last_sync_values topic ≡ some n
  unfolding write_topic
  write_topic-last t s topic n e h =
      find-put s.last_sync_values t (value_at S s.dms.topic_sequences t) topic
      ∙ elim (Bool-cases (t ≟ topic)) [
        | inl y ↦ rw y (
            ap some (
              ap (value_at S s.dms.topic_sequences) ((bytes_eq_iff t topic).0 y)
              ∙ value_at-found s.dms.topic_sequences topic n e))
        | inr f ↦ rw f (ground (arith, f))
      ]

  write_topics-last :
      (topics : List Bytes) (s : Saver S) (topic : Bytes) (n : ℕ)
      → find s.dms.topic_sequences topic ≡ some n
      → (member topic topics ≡ true) ⊎ (find s.last_sync_values topic ≡ some n)
      → find (write_topics S topics s).last_sync_values topic ≡ some n
  unfolding write_topics write_topic
  write_topics-last [] s topic n e (inl m) = absurd (ground arith)
  write_topics-last [] s topic n e (inr l) = l
  write_topics-last (t ∷ topics) s topic n e h =
      write_topics-last topics (write_topic S t s) topic n e (elim (Bool-cases (t ≟ topic)) [
        | inl y ↦ inr (write_topic-last t s topic n e (inl y))
        | inr f ↦ elim h [
          | inl m ↦ inl (sym (rw f refl) ∙ m)
          | inr l ↦ inr (write_topic-last t s topic n e (inr l))
        ]
      ])

  topics_to_update-member :
      (last sequences : Dict Bytes ℕ) (topic : Bytes) (n : ℕ)
      → find sequences topic ≡ some n
      → nat_eq (value_at S last topic) n ≡ false
      → member topic (topics_to_update S last sequences) ≡ true
  unfolding topics_to_update find
  topics_to_update-member last [] topic n e f = absurd (grind arith)
  topics_to_update-member last ((t, seq) ∷ sequences) topic n e f =
      ground (arith, bytes_eq_iff t topic, topics_to_update-member last sequences topic n)

  or_zero-some : (o : Option ℕ) (n : ℕ) → nat_eq (or_zero o) n ≡ true → 0 < n → o ≡ some n
  or_zero-some none n e h = absurd (ground (arith, nat_eq_iff 0 n))
  or_zero-some (some k) n e h = ap some ((nat_eq_iff k n).0 e)

  sync_round-last :
      (s : Saver S) (topic : Bytes) (n : ℕ)
      → find s.dms.topic_sequences topic ≡ some n
      → 0 < n
      → find (sync_round S s).last_sync_values topic ≡ some n
  unfolding sync_round
  sync_round-last s topic n e h =
      write_topics-last (topics_to_update S s.last_sync_values s.dms.topic_sequences) s topic n e
        (elim (Bool-cases (nat_eq (value_at S s.last_sync_values topic) n)) [
          | inl t ↦ inr (or_zero-some (find s.last_sync_values topic) n t h)
          | inr f ↦
              inl (topics_to_update-member s.last_sync_values s.dms.topic_sequences topic n e f)
        ])

  -- Whatever happened since the start, after a round of the loop a new store on the same key-value
  -- store goes on from every counter that the old one has.
  pub restart-sync_round :
      IsLawful S
      → ((kv : S.State) (schema key value : Bytes) → (S.put kv schema key value).0 ≡ true)
      → {kv : S.State} {s : Saver S} → Reach (starting kv) s
      → (topic : Bytes) (n : ℕ) → find s.dms.topic_sequences topic ≡ some n
      → 0 < n
      → n < 2 ^ 64
      → (max_message_id S topic (new_store S (sync_round S s).dms.kv_store)).0 ≡ done n
  unfolding sync_round stored_sequence sequence_of find
  restart-sync_round L puts {s} r topic n e h k =
      max_message_id-current S topic (new_store S (sync_round S s).dms.kv_store)
      ∙ ap stored_sequence (
          write_topics-IsCoherent L puts
            (topics_to_update S s.last_sync_values s.dms.topic_sequences) s
            (Reach-IsCoherent L puts r) topic n (sync_round-last s topic n e h))
      ∙ ap sequence_of (parse_uint-format_uint (2 ^ 64 - 1) n k (omega arith))
