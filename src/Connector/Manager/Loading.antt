-- ===== src/Connector/Manager/Loading.antt =====
-- Load after a restart.
use mathlib.Core.Path.{subst}
use guble.Prelude.{
  ℕ, ◌≡◌, refl, ap, sym, ◌∙◌, Bytes, bytes_comparable, bytes_eq_iff, ◌≟◌, ≟-refl, Dict, find,
  find-put, has_prefix, [], ◌∷◌, Option, none, some, if◌then◌else◌, Bool-cases, inl, inr, arith,
}
use guble.KvStore.Interface.{KvStore, IsLawful, Unique, Reply, answer}
use guble.Connector.Subscriber.{
  SubscriberData, Subscriber, new_subscriber_from_data, subscriber_key, generate_key, with_key,
}
use guble.Connector.Manager.{
  SubscriberJson, Manager, new_manager, put_subscriber, load_entries, load,
}
use guble.Connector.Manager.Mirror.{Mirrored, IsMirror}

-- What holds of each entry that is found holds of the entries of a list with unique keys.
abbrev AllEntries : (Bytes → Bytes → Type 0) → Dict Bytes Bytes → Type 0
AllEntries P [] = Unit
AllEntries P ((k, v) ∷ rest) = P k v × AllEntries P rest

none-some : {w : Bytes} → none ≡ some w → ⊥
none-some e = grind arith

find-tail :
    (k v : Bytes) (rest : Dict Bytes Bytes) (j w : Bytes)
    → find rest k ≡ none
    → find rest j ≡ some w
    → find ((k, v) ∷ rest) j ≡ some w
unfolding find
find-tail k v rest j w e h = elim (Bool-cases (k ≟ j)) [
  | inl t ↦ absurd (none-some (sym (ap (find rest) (sym ((bytes_eq_iff k j).0 t)) ∙ e) ∙ h))
  | inr f ↦ rw f h
]

AllEntries-find :
    (P : Bytes → Bytes → Type 0) (es : Dict Bytes Bytes)
    → Unique es
    → ((k v : Bytes) → find es k ≡ some v → P k v)
    → AllEntries P es
AllEntries-find P [] u h = tt
AllEntries-find P ((k, v) ∷ rest) u h = (
  h k v (unfold find in rw (≟-refl k) refl),
  AllEntries-find P rest u.1 (λ j w e. h j w (find-tail k v rest j w u.0 e)),
)

module _ (S : KvStore) (json : SubscriberJson) (sha1 : Bytes → Bytes) where
  -- An entry that Load takes: the data of a subscriber of this key.
  abbrev IsEntry : Bytes → Bytes → Type 0
  IsEntry key value =
      (d : SubscriberData) × ((json.unmarshal value ≡ some d) × (subscriber_key sha1 d ≡ key))

  -- What Load makes of an entry, if there is one.
  abbrev pub loaded : Option SubscriberData → Option Subscriber
  loaded none = none
  loaded (some d) = some (with_key sha1 (new_subscriber_from_data d))

  abbrev pub restored : Option Bytes → Option Subscriber → Option Subscriber
  restored none old = old
  restored (some value) old = loaded (json.unmarshal value)

  placed :
      (d : SubscriberData) (k : Bytes) (m : Manager S json sha1) (key : Bytes)
      → subscriber_key sha1 d ≡ k
      → find (put_subscriber S json sha1 (new_subscriber_from_data d) m).subscribers key ≡ (
          if k ≟ key
          then some (with_key sha1 (new_subscriber_from_data d))
          else find m.subscribers key)
  unfolding put_subscriber new_subscriber_from_data
  placed d k m key f =
      find-put m.subscribers (subscriber_key sha1 d) (with_key sha1 (new_subscriber_from_data d))
        key
      ∙ ap
          (λ j.
            if j ≟ key
            then some (with_key sha1 (new_subscriber_from_data d))
            else find m.subscribers key)
          f

  load_entries-found :
      (es : Dict Bytes Bytes)
      → Unique es
      → AllEntries IsEntry es
      → (m : Manager S json sha1) (key : Bytes)
      → (find (load_entries S json sha1 es m).1.subscribers key
          ≡ restored (find es key) (find m.subscribers key))
        × ((load_entries S json sha1 es m).0 ≡ none)
  unfolding load_entries find
  load_entries-found [] u a m key = (refl, refl)
  load_entries-found ((k, v) ∷ es) u ((d, (e, f)), a) m key = rw e (
    (load_entries-found es u.1 a (put_subscriber S json sha1 (new_subscriber_from_data d) m) key).0
        ∙ ap (restored (find es key)) (placed d k m key f)
        ∙ elim (Bool-cases (k ≟ key)) [
          | inl t ↦ rw (t, ap (find es) (sym ((bytes_eq_iff k key).0 t)) ∙ u.0, e) refl
          | inr x ↦ rw x refl
        ],
    (load_entries-found es u.1 a (put_subscriber S json sha1 (new_subscriber_from_data d) m) key).1,
  )

  module _ (L : IsLawful S)
      (unmarshal-marshal : (d : SubscriberData) (value : Bytes)
        → json.marshal d ≡ some value
        → json.unmarshal value ≡ some d) where
    -- What the store has for a key, from what is in memory.
    Saved : Bytes → Option Subscriber → Option Bytes → Type 0
    Saved key none value = value ≡ none
    Saved key (some s) value =
        (subscriber_key sha1 s.data' ≡ key)
        × ((id : ℕ) × ((v : Bytes) × ((value ≡ some v)
                × (json.unmarshal v ≡ some (record (s.data') { last_id = id })))))

    Saved-value :
        (key : Bytes) (o : Option Subscriber) (r : Reply (Option Bytes))
        → Mirrored S json sha1 key o r
        → (value : Option Bytes) × ((r ≡ answer value) × Saved key o value)
    unfolding Saved
    Saved-value key none r h = (none, (h, refl))
    Saved-value key (some s) r ((o, k), (id, (v, (e, g)))) =
        (some v, (g, (k, (id, (v, (refl, unmarshal-marshal _ v e))))))

    Saved-IsEntry :
        (key : Bytes) (o : Option Subscriber) (value : Option Bytes) (v : Bytes)
        → Saved key o value
        → value ≡ some v
        → IsEntry key v
    unfolding Saved subscriber_key generate_key
    Saved-IsEntry key none value v h e = absurd (none-some (sym h ∙ e))
    Saved-IsEntry key (some s) value v (k, (id, (w, (f, u)))) e = (
      record (s.data') { last_id = id },
      (
        subst (λ x. json.unmarshal x ≡ some (record (s.data') { last_id = id }))
            (ap (value_or w) (sym f ∙ e)) u,
        k,
      ),
    )
      where
        value_or : Bytes → Option Bytes → Bytes
        value_or d none = d
        value_or d (some x) = x

    entries_of : Manager S json sha1 → Dict Bytes Bytes
    entries_of m = (S.iterate m.kv_store m.schema []).0

    find-entries :
        (m : Manager S json sha1) (key : Bytes) (value : Option Bytes)
        → S.IsValid m.kv_store
        → (S.get m.kv_store m.schema key).0 ≡ answer value
        → find (entries_of m) key ≡ value
    unfolding entries_of has_prefix
    find-entries m key value v e = L.find-iterate m.kv_store m.schema [] key value v e

    entries-AllEntries :
        (m : Manager S json sha1)
        → S.IsValid m.kv_store
        → IsMirror S json sha1 m
        → AllEntries IsEntry (entries_of m)
    unfolding entries_of
    entries-AllEntries m v h =
        AllEntries-find IsEntry (entries_of m) (L.iterate-Unique m.kv_store m.schema [] v) (λ k x e.
          let (value, (g, saved)) = Saved-value k (find m.subscribers k) _ (h k) in
          Saved-IsEntry k (find m.subscribers k) value x saved
            (sym (find-entries m k value v g) ∙ e))

  -- The subscriber of a key after a restart, with what the store has for it: the same data, with the
  -- last id that the stored value has.
  abbrev pub Restored : Option Subscriber → Reply (Option Bytes) → Option Subscriber → Type 0
  Restored none stored after = (stored ≡ answer none) × (after ≡ none)
  Restored (some s) stored after =
      (id : ℕ) × (value : Bytes) × (stored ≡ answer (some value))
      × (json.unmarshal value ≡ some (record (s.data') { last_id = id }))
      × (after
          ≡ some (with_key sha1 (new_subscriber_from_data (record (s.data') { last_id = id }))))

  module _ (L : IsLawful S)
      (unmarshal-marshal : (d : SubscriberData) (value : Bytes)
        → json.marshal d ≡ some value
        → json.unmarshal value ≡ some d) where
    Saved-Restored :
        (key : Bytes) (o : Option Subscriber) (value : Option Bytes)
        → Saved L unmarshal-marshal key o value
        → Restored o (answer value) (restored value none)
    unfolding Saved
    Saved-Restored key none value h = (ap answer h, rw h refl)
    Saved-Restored key (some s) value (k, (id, (w, (f, u)))) =
        (id, w, ap answer f, u, rw (f, u) refl)

    -- A new manager on the same store loads every subscriber, and no other, without an error: each has
    -- its data, and the last id of what the store has under its key. What is in memory is in the store,
    -- which keeps its contract, and what JSON was written of a subscriber's data is read back.
    pub load-Restored :
        (m : Manager S json sha1)
        → S.IsValid m.kv_store
        → IsMirror S json sha1 m
        → (key : Bytes)
        → let r = load S json sha1 (new_manager S json sha1 m.schema m.kv_store) in
          (r.0 ≡ none)
          × Restored
              (find m.subscribers key)
              (S.get m.kv_store m.schema key).0
              (find r.1.subscribers key)
    unfolding load entries_of find
    load-Restored m v h key =
        let fresh = new_manager S json sha1 m.schema (S.iterate m.kv_store m.schema []).1 in
        let (value, (g, saved)) =
          Saved-value L unmarshal-marshal key (find m.subscribers key) _ (h key) in
        let (found, fine) =
          load_entries-found (entries_of L unmarshal-marshal m)
            (L.iterate-Unique m.kv_store m.schema [] v)
            (entries-AllEntries L unmarshal-marshal m v h) fresh key in
        (
          fine,
          subst (λ o. Restored (find m.subscribers key) (S.get m.kv_store m.schema key).0 o)
              (sym (
                found
                ∙ ap (λ o. restored o none) (find-entries L unmarshal-marshal m key value v g)))
              (subst (λ stored. Restored (find m.subscribers key) stored (restored value none))
                (sym g) (Saved-Restored key (find m.subscribers key) value saved)),
        )
