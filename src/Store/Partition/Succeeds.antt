-- ===== src/Store/Partition/Succeeds.antt =====
-- Where no call fails, a store succeeds.
use mathlib.Core.Path.{subst}
use guble.Prelude.{
  ℕ, ◌+◌, ◌<◌, Dict, ◌≡◌, refl, sym, Bytes, List, [], ◌∷◌, Option, none, some, Bool, true, false,
  ◌||◌, if◌then◌else◌, nat_eq, leb, length, arith, Bool-cases, inl, inr,
}
use guble.Store.Index.{Index, front, back}
use guble.Store.Partition.{
  Partition, Result, ok, err, Action, Faults, IoCall, open_index, attempt, modify, pure, get, ◌>>=◌,
  ◌>>◌, file_number, close_index_file, close_append_file, close_append_files, write_index_entry,
  dump_entries, rewrite_sorted_idx_file, write_file_header, adopt_append_files, open_index_file,
  create_next_append_files, add_to_cache, roll_over, is_nil, needs_file, renew, prepare,
  write_append, next_entry, write_message, write_index_file, record_entry, append_message, store,
}
use guble.Store.Partition.Outcome.{Ensures, Ensures-bind, Ensures-imp}

-- An action that returns from every state of which `P` holds, and leaves one of which `Q` holds.
record Returns (P : Partition → Type 0) {A : Type 0} (Q : A → Partition → Type 0)
    (action : Action A) : Type 0 where
  at : (p : Partition) → P p → Ensures Q (λ q. ⊥) (action p)

module _ {P : Partition → Type 0} where
  Returns-bind :
      {A B : Type 0} (Q : A → Partition → Type 0) {R : B → Partition → Type 0} {first : Action A}
      {next : A → Action B}
      → Returns P Q first
      → ((a : A) → Returns (Q a) R (next a))
      → Returns P R (first >>= next)
  Returns-bind Q {R = R} {first = first} {next = next} h k = record {
    at = λ p v.
        Ensures-bind R (λ q. ⊥) first next p
          (Ensures-imp Q _ (λ q. ⊥) (λ q. ⊥) (λ a q w. (k a).at q w) (λ q w. w) (first p)
            (h.at p v));
  }

  Returns-modify :
      {Q : Unit {0} → Partition → Type 0} (f : Partition → Partition)
      → ((p : Partition) → P p → Q tt (f p))
      → Returns P Q (modify f)
  unfolding modify
  Returns-modify f h = record { at = h }

  Returns-get : Returns P (λ r q. (r ≡ q) × P q) get
  unfolding get
  Returns-get = record { at = λ p h. (refl, h) }

  Returns-weaken :
      {P' : Partition → Type 0} {A : Type 0} {Q : A → Partition → Type 0} {action : Action A}
      → ((p : Partition) → P' p → P p)
      → Returns P Q action
      → Returns P' Q action
  Returns-weaken f h = record { at = λ p v. h.at p (f p v) }

  Returns-any :
      {A : Type 0} {Q : A → Partition → Type 0} {action : Action A}
      → Returns P Q action
      → Returns P (λ a q. Unit {0}) action
  Returns-any {Q = Q} {action = action} h = record {
    at = λ p v. Ensures-imp Q _ (λ q. ⊥) (λ q. ⊥) (λ a q w. tt) (λ q w. w) (action p) (h.at p v);
  }

  Returns-pure :
      {A : Type 0} {Q : A → Partition → Type 0} (a : A)
      → ((p : Partition) → P p → Q a p)
      → Returns P Q (pure a)
  unfolding pure
  Returns-pure a h = record { at = h }

  Returns-if :
      {A : Type 0} {Q : A → Partition → Type 0} {m n : Action A} (b : Bool)
      → Returns P Q m
      → Returns P Q n
      → Returns P Q (if b then m else n)
  Returns-if true h k = h
  Returns-if false h k = k

module _ (faults : Faults) (works : (call : IoCall) → faults call ≡ false) where
  Returns-attempt :
      {P : Partition → Type 0} (call : IoCall) → Returns P (λ a q. P q) (attempt faults call)
  unfolding attempt
  Returns-attempt call = record { at = λ p v. rw (works call) v }

  abbrev Any : Partition → Type 0
  Any p = Unit

  -- A full partition has a message in its list.
  abbrev Full : ℕ → Partition → Type 0
  Full per_file p = nat_eq p.entries_count per_file ≡ true → 0 < length p.list

  abbrev NonEmpty : Partition → Type 0
  NonEmpty p = 0 < length p.list

  -- Both files are open.
  abbrev Open : Partition → Type 0
  Open p = (is_nil p.append_file || is_nil p.index_file) ≡ false

  module _ (per_file : ℕ) where
    close_append_file-Returns :
        (o : Option ℕ)
        → Returns (Full per_file) (λ a q. Full per_file q) (close_append_file faults o)
    unfolding close_append_file
    close_append_file-Returns none = Returns-pure tt (λ p h. h)
    close_append_file-Returns (some n) =
        Returns-bind (λ a q. Full per_file q) (Returns-attempt _) (λ _. Returns-modify _ (λ p h. h))

    close_index_file-Returns :
        (o : Option ℕ)
        → Returns (Full per_file) (λ a q. Full per_file q) (close_index_file faults o)
    unfolding close_index_file
    close_index_file-Returns none = Returns-pure tt (λ p h. h)
    close_index_file-Returns (some n) =
        Returns-bind (λ a q. Full per_file q) (Returns-modify _ (λ p h. h)) (λ _. Returns-attempt _)

    close_append_files-Returns :
        Returns (Full per_file) (λ a q. Full per_file q) (close_append_files faults)
    unfolding close_append_files
    close_append_files-Returns =
        Returns-bind (λ r q. (r ≡ q) × Full per_file q) Returns-get
          λ r.
            Returns-bind (λ a q. Full per_file q)
              (Returns-weaken (λ p h. h.1) (close_append_file-Returns r.append_file))
              (λ _. close_index_file-Returns r.index_file)

  write_index_entry-Returns :
      (P : Partition → Type 0)
      → ((p : Partition) (files : Dict ℕ Bytes) → P p → P (record p { indexes = files }))
      → (call : IoCall) (file : ℕ) (e : Index) (pos : ℕ)
      → Returns P (λ a q. P q) (write_index_entry faults call file e pos)
  unfolding write_index_entry
  write_index_entry-Returns P free call file e pos =
      Returns-bind (λ a q. P q) (Returns-attempt call) (λ _. Returns-modify _ (λ p. free p _))

  dump_entries-Returns :
      (file last_id i : ℕ) (items : List Index)
      → Returns NonEmpty (λ a q. NonEmpty q) (dump_entries faults file last_id i items)
  unfolding dump_entries
  dump_entries-Returns file last_id i [] = Returns-pure tt (λ p h. h)
  dump_entries-Returns file last_id i (item ∷ items) =
      let rest = dump_entries-Returns file item.id (i + 1) items in
      Returns-if (leb item.id last_id) (Returns-pure tt (λ p h. h)) (
        Returns-bind (λ a q. NonEmpty q)
          (write_index_entry-Returns NonEmpty (λ p files h. h) _ file item i) (λ _. rest))

  rewrite_sorted_idx_file-Returns :
      (file : ℕ) → Returns NonEmpty (λ a q. NonEmpty q) (rewrite_sorted_idx_file faults file)
  unfolding rewrite_sorted_idx_file
  rewrite_sorted_idx_file-Returns file =
      Returns-bind (λ a q. NonEmpty q) (Returns-attempt _)
        λ _.
          Returns-bind (λ a q. NonEmpty q) (Returns-modify _ (λ p h. h))
            λ _.
              Returns-bind (λ r q. (r ≡ q) × NonEmpty q) Returns-get
                λ r. Returns-weaken (λ p h. h.1) (dump_entries-Returns file 0 0 r.list)

  add_to_cache-Returns :
      (l : List Index) → 0 < length l → Returns Any (λ a q. Any q) (add_to_cache (front l) (back l))
  unfolding add_to_cache front back
  add_to_cache-Returns [] h = absurd (omega arith)
  add_to_cache-Returns (e ∷ l) h = Returns-modify _ (λ p h. tt)

  roll_over-Returns : Returns NonEmpty (λ a q. Any q) (roll_over faults)
  unfolding roll_over
  roll_over-Returns =
      Returns-bind (λ r q. (r ≡ q) × NonEmpty q) Returns-get
        λ r. record {
          at = λ p h.
              (Returns-bind (λ a q. Any q)
                  (Returns-weaken {P = NonEmpty} (λ p h. h)
                    (Returns-any (rewrite_sorted_idx_file-Returns (file_number r))))
                  (λ _. add_to_cache-Returns r.list (subst NonEmpty (sym h.0) h.1))).at
                p h.1;
        }

  write_file_header-Returns :
      (n : ℕ) (bytes : Bytes) → Returns Any (λ a q. Any q) (write_file_header faults n bytes)
  unfolding write_file_header
  write_file_header-Returns n (b ∷ bytes) = Returns-pure tt (λ p h. tt)
  write_file_header-Returns n [] =
      Returns-bind (λ a q. Any q) (Returns-modify _ (λ p h. tt))
        λ _.
          Returns-bind (λ a q. Any q) (Returns-attempt _)
            λ _.
              Returns-bind (λ a q. Any q) (Returns-modify _ (λ p h. tt))
                λ _.
                  Returns-bind (λ a q. Any q) (Returns-attempt _) λ _. Returns-modify _ (λ p h. tt)

  adopt_append_files-Returns : (n : ℕ) → Returns Any (λ a q. Open q) (adopt_append_files faults n)
  unfolding adopt_append_files is_nil
  adopt_append_files-Returns n =
      Returns-bind (λ a q. Open q) (Returns-modify _ (λ p h. refl))
        λ _. Returns-bind (λ a q. Open q) (Returns-attempt _) λ _. Returns-modify _ (λ p h. h)

  open_index_file-Returns : (n : ℕ) → Returns Any (λ a q. Open q) (open_index_file faults n)
  unfolding open_index_file
  open_index_file-Returns n = rw (works open_index) (
      Returns-bind (λ a q. Any q) (Returns-modify _ (λ p h. tt))
        (λ _. adopt_append_files-Returns n))

  create_next_append_files-Returns : Returns Any (λ a q. Open q) (create_next_append_files faults)
  unfolding create_next_append_files
  create_next_append_files-Returns =
      Returns-bind (λ r q. (r ≡ q) × Any q) Returns-get
        λ r.
          Returns-weaken (λ p h. tt)
            (Returns-bind (λ a q. Any q) (Returns-attempt _)
              λ _.
                Returns-bind (λ a q. Any q) (Returns-modify _ (λ p h. tt))
                  λ _.
                    Returns-bind (λ r q. (r ≡ q) × Any q) Returns-get
                      λ q.
                        Returns-weaken (λ p h. tt)
                          (Returns-bind (λ a q. Any q) (write_file_header-Returns (file_number r) _)
                            (λ _. open_index_file-Returns (file_number r))))

  renew-Returns : (per_file : ℕ) → Returns (Full per_file) (λ a q. Open q) (renew per_file faults)
  unfolding renew
  renew-Returns per_file =
      Returns-bind (λ a q. Full per_file q) (close_append_files-Returns per_file)
        λ _.
          Returns-bind (λ r q. (r ≡ q) × Full per_file q) Returns-get
            λ r. Returns-bind (λ a q. Any q) (rolled r) (λ _. create_next_append_files-Returns)
    where
      rolled :
          (r : Partition)
          → Returns
              (λ q. (r ≡ q) × Full per_file q)
              (λ a q. Any q)
              (if nat_eq r.entries_count per_file then roll_over faults else pure tt)
      rolled r = elim (Bool-cases (nat_eq r.entries_count per_file)) [
        | inl t ↦ rw t (
            Returns-weaken (λ q h. h.1 (subst (λ x. nat_eq x.entries_count per_file ≡ true) h.0 t))
              roll_over-Returns)
        | inr f ↦ rw f (Returns-pure tt (λ q h. tt))
      ]

  prepare-Returns :
      (per_file : ℕ) → Returns (Full per_file) (λ a q. Open q) (prepare per_file faults)
  unfolding prepare
  prepare-Returns per_file =
      Returns-bind (λ r q. (r ≡ q) × Full per_file q) Returns-get
        λ r. elim (Bool-cases (needs_file per_file r)) [
          | inl t ↦ rw t (Returns-weaken (λ q h. h.1) (renew-Returns per_file))
          | inr f ↦ rw f (Returns-pure tt (λ q h. subst Open h.0 (open_already r f)))
        ]
    where
      open_already : (r : Partition) → needs_file per_file r ≡ false → Open r
      open_already r f = unfold needs_file in ground arith

  write_append-Returns :
      (call : IoCall) (bytes : Bytes) (n : ℕ)
      → Returns Any (λ a q. Any q) (write_append faults call bytes (some n))
  unfolding write_append
  write_append-Returns call bytes n =
      Returns-bind (λ a q. Any q) (Returns-attempt call) (λ _. Returns-modify _ (λ p h. tt))

  append_with :
      (id : ℕ) (bytes : Bytes) (e : Index) (pos : ℕ) (o i : Option ℕ)
      → (is_nil o || is_nil i) ≡ false
      → Returns Any
          (λ a q. Any q)
          (do
            write_message faults id bytes o
            write_index_file faults e pos i
            modify (record_entry e bytes))
  unfolding write_message write_index_file is_nil
  append_with id bytes e pos none i h = absurd cc
  append_with id bytes e pos (some n) none h = absurd cc
  append_with id bytes e pos (some n) (some m) h =
      Returns-bind (λ a q. Any q)
        (Returns-bind (λ a q. Any q) (write_append-Returns _ _ n)
          (λ _. write_append-Returns _ bytes n))
        λ _.
          Returns-bind (λ a q. Any q) (write_index_entry-Returns Any (λ p files h. tt) _ m e pos)
            (λ _. Returns-modify _ (λ p h. tt))

  append_message-Returns :
      (id : ℕ) (bytes : Bytes) → Returns Open (λ a q. Any q) (append_message faults id bytes)
  unfolding append_message
  append_message-Returns id bytes =
      Returns-bind (λ r q. (r ≡ q) × Open q) Returns-get
        λ r. record {
          at = λ p h.
              (append_with id bytes (next_entry r id bytes) r.entries_count r.append_file
                  r.index_file (subst Open (sym h.0) h.1)).at
                p tt;
        }

  store-Returns :
      (per_file id : ℕ) (bytes : Bytes)
      → Returns (Full per_file) (λ a q. Any q) (store per_file faults id bytes)
  unfolding store
  store-Returns per_file id bytes =
      Returns-bind (λ a q. Open q) (prepare-Returns per_file) (λ _. append_message-Returns id bytes)

  -- Where no call fails, a store returns without an error, if a partition that is full has a message
  -- in its list.
  pub store_succeeds :
      (per_file id : ℕ) (bytes : Bytes) (p : Partition)
      → (nat_eq p.entries_count per_file ≡ true → 0 < length p.list)
      → (q : Partition) × (store per_file faults id bytes p ≡ (ok tt, q))
  store_succeeds per_file id bytes p h =
      from (store per_file faults id bytes p) ((store-Returns per_file id bytes).at p h)
    where
      from :
          (r : Result (Unit {0}) × Partition)
          → Ensures (λ a q. Any q) (λ q. ⊥) r
          → (q : Partition) × (r ≡ (ok tt, q))
      from (ok u, q) h = (q, refl)
      from (err e, q) h = absurd h
