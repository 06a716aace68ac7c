-- ===== src/Store/Dummy/Sequence.antt =====
-- The ids that GenerateNextMsgID of the dummy store gives.
use guble.Prelude.{
  ℕ, zero, suc, ◌+◌, ◌^◌, ◌<◌, ◌≡◌, refl, ap, sym, ◌∙◌, Bytes, bytes_comparable, bytes_eq_iff, ◌≟◌,
  find, find-put, List, [], ◌∷◌, Option, none, some, true, false, if◌then◌else◌, Bool-cases,
  Option-cases, inl, inr, arith,
}
use guble.KvStore.Interface.{KvStore, IsLawful, Reply}
use guble.Store.Dummy.{
  Outcome, done, failed, stored_sequence, topic_schema, next_id, DummyMessageStore, set_id,
  remember, read_sequence, max_message_id, and_then, generate_next_msg_id,
}

abbrev pub view : Option ℕ → Reply (Option Bytes) → Outcome ℕ
view (some n) saved = done n
view none saved = stored_sequence saved

-- Calls of GenerateNextMsgID and MaxMessageID, each for a partition.
pub data Call : Type 0 where
  generate ask : Bytes → Call

abbrev pub given : Bytes → Outcome ℕ → List (Bytes × ℕ) → List (Bytes × ℕ)
given name (failed e) ids = ids
given name (done id) ids = (name, id) ∷ ids

-- The ids of one partition, and how many were asked for.
unfoldable pub ids_of : Bytes → List (Bytes × ℕ) → List ℕ
ids_of name [] = []
ids_of name ((other, id) ∷ ids) =
    let rest = ids_of name ids in if other ≟ name then id ∷ rest else rest

unfoldable pub requests : Bytes → List Call → ℕ
requests name [] = 0
requests name (ask other ∷ calls) = requests name calls
requests name (generate other ∷ calls) =
    let rest = requests name calls in if other ≟ name then suc rest else rest

unfoldable pub count_up : ℕ → ℕ → List ℕ
count_up first zero = []
count_up first (suc k) = first ∷ count_up (suc first) k

module _ (S : KvStore) where
  -- What maxMessageID gives.
  abbrev pub current : Bytes → DummyMessageStore S → Outcome ℕ
  current name dms = view (find dms.topic_sequences name) (S.get dms.kv_store topic_schema name).0

  remember-value :
      (name : Bytes) (o : Outcome ℕ) (dms : DummyMessageStore S) → (remember S name (o, dms)).0 ≡ o
  remember-value name (failed e) dms = refl
  remember-value name (done n) dms = refl

  pub max_message_id-current :
      (name : Bytes) (dms : DummyMessageStore S) → (max_message_id S name dms).0 ≡ current name dms
  unfolding max_message_id
  max_message_id-current name dms = elim (Option-cases (find dms.topic_sequences name)) [
    | inl e ↦ rw e (
        remember-value name (stored_sequence (S.get dms.kv_store topic_schema name).0)
          (read_sequence S name dms).1)
    | inr (n, e) ↦ rw e refl
  ]

  pub current-set_id :
      (name other : Bytes) (n : ℕ) (dms : DummyMessageStore S)
      → current name (set_id S other n dms) ≡ (if other ≟ name then done n else current name dms)
  unfolding set_id
  current-set_id name other n dms =
      rw (find-put dms.topic_sequences other n name)
        (elim (Bool-cases (other ≟ name)) [ inl t ↦ rw t refl | inr f ↦ rw f refl ])

  module _ (L : IsLawful S) where
    after_set :
        (name other : Bytes) (n : ℕ) (dms before : DummyMessageStore S)
        → current name dms ≡ current name before
        → current other before ≡ done n
        → current name (set_id S other n dms) ≡ current name before
    after_set name other n dms before e h =
        current-set_id name other n dms ∙ elim (Bool-cases (other ≟ name)) [
          | inl t ↦ rw (t, sym ((bytes_eq_iff other name).0 t)) (sym h)
          | inr f ↦ rw f e
        ]

    after_read :
        (name other : Bytes) (dms : DummyMessageStore S)
        → current name (read_sequence S other dms).1 ≡ current name dms
    after_read name other dms =
        ap (view (find dms.topic_sequences name))
          (L.get-get dms.kv_store topic_schema other topic_schema name)

    after_remember :
        (name other : Bytes) (o : Outcome ℕ) (dms before : DummyMessageStore S)
        → current name dms ≡ current name before
        → current other before ≡ o
        → current name (remember S other (o, dms)).1 ≡ current name before
    after_remember name other (failed x) dms before e h = e
    after_remember name other (done n) dms before e h = after_set name other n dms before e h

    -- Asking for the maximum of a partition changes what it is for none.
    pub current-max_message_id :
        (name other : Bytes) (dms : DummyMessageStore S)
        → current name (max_message_id S other dms).1 ≡ current name dms
    unfolding max_message_id
    current-max_message_id name other dms = elim (Option-cases (find dms.topic_sequences other)) [
      | inl e ↦ rw e (
          after_remember name other (stored_sequence (S.get dms.kv_store topic_schema other).0)
            (read_sequence S other dms).1 dms (after_read name other dms) (rw e refl))
      | inr (n, e) ↦ rw e (after_set name other n dms dms refl (rw e refl))
    ]

  value_or : ℕ → Outcome ℕ → ℕ
  value_or n (done m) = m
  value_or n (failed e) = n

  pub and_then-done :
      {A : Type 0} (p : Outcome ℕ × DummyMessageStore S)
      (f : ℕ → DummyMessageStore S → Outcome A × DummyMessageStore S) (n : ℕ)
      → p.0 ≡ done n
      → and_then S p f ≡ f n p.1
  unfolding value_or
  and_then-done (done m, dms) f n e = ap (λ k. f k dms) (ap (value_or m) e)
  and_then-done (failed x, dms) f n e = absurd (grind arith)

  pub generate-done :
      (name : Bytes) (dms : DummyMessageStore S) (n : ℕ)
      → current name dms ≡ done n
      → generate_next_msg_id S name dms
        ≡ (done (next_id n), set_id S name (next_id n) (max_message_id S name dms).1)
  unfolding generate_next_msg_id
  generate-done name dms n e =
      and_then-done (max_message_id S name dms)
        (λ max s. (done (next_id max), set_id S name (next_id max) s)) n
        (max_message_id-current name dms ∙ e)

  module _ (L : IsLawful S) where
    generate_other :
        (name other : Bytes) (p : Outcome ℕ × DummyMessageStore S)
        → (other ≟ name) ≡ false
        → current name
            (and_then S p (λ max s. (done (next_id max), set_id S other (next_id max) s))).1
          ≡ current name p.1
    generate_other name other (failed x, dms) f = refl
    generate_other name other (done n, dms) f =
        current-set_id name other (next_id n) dms ∙ rw f refl

    -- A generated id of one partition does not change the maximum of another.
    current-generate :
        (name other : Bytes) (dms : DummyMessageStore S)
        → (other ≟ name) ≡ false
        → current name (generate_next_msg_id S other dms).1 ≡ current name dms
    unfolding generate_next_msg_id
    current-generate name other dms f =
        generate_other name other (max_message_id S other dms) f
        ∙ current-max_message_id L name other dms

  -- The ids given out.
  unfoldable pub run : List Call → DummyMessageStore S → List (Bytes × ℕ)
  run [] dms = []
  run (ask name ∷ calls) dms = run calls (max_message_id S name dms).1
  run (generate name ∷ calls) dms =
      let (o, s) = generate_next_msg_id S name dms in given name o (run calls s)

  ids_of-given :
      (name other : Bytes) (o : Outcome ℕ) (ids : List (Bytes × ℕ))
      → (other ≟ name) ≡ false
      → ids_of name (given other o ids) ≡ ids_of name ids
  unfolding ids_of
  ids_of-given name other (failed e) ids f = refl
  ids_of-given name other (done id) ids f = rw f refl

  -- Whatever the order in which ids are asked for, those of one partition are consecutive.
  pub run-count_up :
      IsLawful S
      → (calls : List Call) (name : Bytes) (dms : DummyMessageStore S) (n : ℕ)
      → (max_message_id S name dms).0 ≡ done n
      → n + requests name calls < 2 ^ 64
      → ids_of name (run calls dms) ≡ count_up (suc n) (requests name calls)
  unfolding run ids_of requests count_up
  run-count_up L [] name dms n e h = refl
  run-count_up L (ask other ∷ calls) name dms n e h =
      run-count_up L calls name (max_message_id S other dms).1 n
        (max_message_id-current name (max_message_id S other dms).1
          ∙ current-max_message_id L name other dms
          ∙ sym (max_message_id-current name dms)
          ∙ e)
        h
  run-count_up L (generate other ∷ calls) name dms n e h = elim (Bool-cases (other ≟ name)) [
    | inl t ↦
        rw (t, generate-done other dms n (now t))
          (rw (t, next t)
            (ap (λ ids. suc n ∷ ids)
              (run-count_up L calls name after (suc n)
                (max_message_id-current name after
                  ∙ current-set_id name other (suc n) (max_message_id S other dms).1
                  ∙ rw t refl)
                (ground (arith, t)))))
    | inr f ↦ rw f (
        ids_of-given name other (generate_next_msg_id S other dms).0
          (run calls (generate_next_msg_id S other dms).1) f
        ∙ run-count_up L calls name (generate_next_msg_id S other dms).1 n
            (max_message_id-current name (generate_next_msg_id S other dms).1
              ∙ current-generate L name other dms f
              ∙ sym (max_message_id-current name dms)
              ∙ e)
            (ground (arith, f)))
  ]
    where
      after : DummyMessageStore S
      after = set_id S other (suc n) (max_message_id S other dms).1

      next : (other ≟ name) ≡ true → next_id n ≡ suc n
      next t = ground (arith, t)

      now : (other ≟ name) ≡ true → current other dms ≡ done n
      now t = rw ((bytes_eq_iff other name).0 t) (sym (max_message_id-current name dms) ∙ e)
