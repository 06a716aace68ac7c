-- ===== src/Store/Partition/Saving/Runs.antt =====
-- Stores of ascending ids and restarts, in any order: what the files hold is what is in memory.
use guble.Prelude.{
  ℕ, ◌+◌, ◌*◌, ◌^◌, ◌<◌, ◌⊎◌, ◌≡◌, refl, ap, ◌∙◌, ℕ_comparable, Bytes, Dict, find, Option, none,
  some, List, [], ◌∷◌, Bool, true, false, ◌||◌, if◌then◌else◌, nat_eq, nat_eq_iff, length,
  Bool-cases, inl, inr, arith,
}
use guble.Store.Partition.{
  Partition, ok, Action, Faults, IoCall, pure, get, ◌>>=◌, file_number, create_next_append_files,
  roll_over, is_nil, needs_file, renew, prepare, store, contents, next_entry,
}
use guble.Store.Partition.Held.{bytes_of, find-put_self}
use guble.Store.Codec.{write_at}
use guble.Store.Partition.Saving.{
  close_append_files_lem, roll_over_lem, create_next_append_files_lem, append_message_lem, rolled,
  opened, appended,
}
use guble.Store.Partition.Saving.Kept.{
  IsKept, closed-IsKept, opened-IsKept, rolled-IsKept, appended-IsKept,
}

List-cases : {A : Type 0} → (l : List A) → (l ≡ []) ⊎ ((x : A) × (k : List A) × (l ≡ x ∷ k))
List-cases [] = inl refl
List-cases (x ∷ k) = inr (x, k, refl)

module _ (faults : Faults) (works : (call : IoCall) → faults call ≡ false) (per_file : ℕ)
    (positive : 0 < per_file) where
  -- A partition with both files open, which hold it.
  record Prepared (action : Action Unit) (p : Partition) : Type 0 where
    q : Partition
    result : action p ≡ (ok tt, q)
    kept : IsKept per_file q
    append_number : ℕ
    append_open : q.append_file ≡ some append_number
    index_open : q.index_file ≡ some (length q.file_cache)
    max : q.max_message_id ≡ p.max_message_id

  create_next_append_files-Prepared :
      (p : Partition) → IsKept per_file p → Prepared (create_next_append_files faults) p
  create_next_append_files-Prepared p h =
      let (position, messages, e) = create_next_append_files_lem faults works p in
      record {
        q = opened position messages p;
        result = e;
        kept = opened-IsKept per_file position messages p h;
        append_number = file_number p;
        append_open = refl;
        index_open = refl;
        max = refl;
      }

  -- The files are closed, and a full one is handed over.
  HandedOver : Partition → Partition → Type 0
  HandedOver p q =
      ((if nat_eq p.entries_count per_file then roll_over faults else pure tt) p ≡ (ok tt, q))
      × (IsKept per_file q × (q.max_message_id ≡ p.max_message_id))

  hand_over :
      (p : Partition) → p.index_file ≡ none → IsKept per_file p → (q : Partition) × HandedOver p q
  unfolding HandedOver pure
  hand_over p g h = elim (Bool-cases (nat_eq p.entries_count per_file)) [
    | inr f ↦ (p, rw f (refl, (h, refl)))
    | inl t ↦ elim (List-cases p.list) [
      | inl e ↦
          absurd (
            omega
              (arith, ap length e, h.count, (nat_eq_iff p.entries_count per_file).0 t, positive))
      | inr (x, l, e) ↦ (
        rolled x l p,
        (
          ap (λ b. (if b then roll_over faults else pure tt) p) t
              ∙ roll_over_lem faults works x l p e h.ascends,
          (rolled-IsKept per_file x l p e ((nat_eq_iff p.entries_count per_file).0 t) g h, refl),
        ),
      )
    ]
  ]

  renew-Prepared : (p : Partition) → IsKept per_file p → Prepared (renew per_file faults) p
  unfolding renew ◌>>=◌ get HandedOver
  renew-Prepared p h =
      let closed = record p { append_file = none; index_file = none } in
      let (r, (e, (k, m))) = hand_over closed refl (closed-IsKept per_file p h) in
      let next = create_next_append_files-Prepared r k in
      record {
        q = next.q;
        result = rw (close_append_files_lem faults works p, e) next.result;
        kept = next.kept;
        append_number = next.append_number;
        append_open = next.append_open;
        index_open = next.index_open;
        max = next.max ∙ m;
      }

  both_open :
      (full : Bool) (o i : Option ℕ)
      → (full || (is_nil o || is_nil i)) ≡ false
      → ((m : ℕ) × (o ≡ some m)) × ((n : ℕ) × (i ≡ some n))
  unfolding is_nil
  both_open true o i h = absurd (cc)
  both_open false none i h = absurd (cc)
  both_open false (some m) none h = absurd (cc)
  both_open false (some m) (some n) h = ((m, refl), (n, refl))

  prepare-Prepared : (p : Partition) → IsKept per_file p → Prepared (prepare per_file faults) p
  unfolding prepare ◌>>=◌ get pure
  prepare-Prepared p h = elim (Bool-cases (needs_file per_file p)) [
    | inl t ↦
        let next = renew-Prepared p h in
        record {
          q = next.q;
          result = ap (λ b. (if b then renew per_file faults else pure tt) p) t ∙ next.result;
          kept = next.kept;
          append_number = next.append_number;
          append_open = next.append_open;
          index_open = next.index_open;
          max = next.max;
        }
    | inr f ↦
        let ((m, e), (n, g)) = open_now f in
        record {
          q = p;
          result = ap (λ b. (if b then renew per_file faults else pure tt) p) f;
          kept = h;
          append_number = m;
          append_open = e;
          index_open = g ∙ ap some (h.current n g);
          max = refl;
        }
  ]
    where
      open_now :
          needs_file per_file p ≡ false
          → ((m : ℕ) × (p.append_file ≡ some m)) × ((n : ℕ) × (p.index_file ≡ some n))
      open_now f =
          both_open (nat_eq p.entries_count per_file) p.append_file p.index_file
            (unfold needs_file in f)

  -- A store of an id above the highest one returns, and its index entry is in its file.
  pub store-IsKept :
      (id : ℕ) (bytes : Bytes) (p : Partition)
      → IsKept per_file p
      → p.max_message_id < id
      → id < 2 ^ 64
      → (q : Partition) × (store per_file faults id bytes p ≡ (ok tt, q))
        × ((file : Bytes) × (find q.indexes (length q.file_cache) ≡ some file))
        × (q.append_file_position < 2 ^ 64 → IsKept per_file q)
  unfolding store ◌>>=◌
  store-IsKept id bytes p h above id_bits =
      let r = prepare-Prepared p h in
      let (messages, e) =
        append_message_lem faults works id bytes r.append_number (length r.q.file_cache) r.q
          r.append_open r.index_open in
      (
        appended id bytes messages (length r.q.file_cache) r.q,
        rw r.result e,
        (entry_file r.q, find-put_self r.q.indexes (length r.q.file_cache) (entry_file r.q)),
        λ position.
            appended-IsKept per_file id bytes messages r.q (omega (arith, r.max)) id_bits
              (omega (arith, at_end messages r.q, position)) r.kept,
      )
    where
      at_end :
          (messages : Dict ℕ Bytes) (q : Partition)
          → (appended id bytes messages (length q.file_cache) q).append_file_position
            ≡ q.append_file_position + (12 + length bytes)
      at_end messages q = refl

      entry_file : Partition → Bytes
      entry_file q =
          write_at (contents q.indexes (length q.file_cache)) (20 * q.entries_count)
            (bytes_of (next_entry q id bytes))
