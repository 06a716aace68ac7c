-- ===== src/Store/Partition/Saving/Kept.antt =====
-- The index files of a partition hold its list, after each part of a store.
use mathlib.Core.Path.{subst}
use guble.Prelude.{
  ℕ, ◌+◌, ◌*◌, ◌^◌, ◌≤◌, ◌<◌, ◌⊎◌, ◌≡◌, refl, ap, sym, ◌∙◌, ℕ_comparable, Bytes, Dict, find, put,
  none, some, List, [], ◌∷◌, ◌++◌, append_assoc, append-nil, All, ltb, if◌then◌else◌, length,
  length-append, last_or, inl, arith,
}
use guble.Store.Index.{Index, insert_elem, insert_all, back}
use guble.Store.Codec.{write_at}
use guble.Store.Partition.{Partition, CacheEntry, contents, next_entry, record_entry}
use guble.Store.Partition.Fetching.Restart.{
  Fits, Entries, IsIndexFile, FullFiles, higher, highest, with_back,
}
use guble.Store.Partition.Held.{
  HeldAt, bytes_of, Entries-written, length-written, find-put_self, find-put_other,
  contents-put_self, FullFiles-put, FullFiles-append,
}
use guble.Store.Partition.Saving.{Ascends, dumped, with_file, rolled, opened, appended}

-- The files hold the cache and the list, and the counters fit them.
pub record IsKept (per_file : ℕ) (p : Partition) : Type 0 where
  pub full : FullFiles p.indexes 0 p.file_cache
  pub held : HeldAt p.indexes (length p.file_cache) p.list
  pub beyond : (k : ℕ) → length p.file_cache < k → find p.indexes k ≡ none
  pub current : (k : ℕ) → p.index_file ≡ some k → k ≡ length p.file_cache
  pub ascends : Ascends 0 p.list
  pub count : p.entries_count ≡ length p.list
  pub total : p.total_number_of_messages ≡ length p.file_cache * per_file + length p.list
  pub max : p.max_message_id ≡ with_back (highest 0 p.file_cache) (back p.list)

-- The dump of a list over the file that holds it.
Entries-Fits :
    (n : ℕ) (file : Bytes) (i : ℕ) (es : List Index) → Entries n file i es → All (Fits n) es
Entries-Fits n file i [] h = tt
Entries-Fits n file i (e ∷ es) (r, (f, h)) = (f, Entries-Fits n file (i + 1) es h)

find-dumped :
    (n m i : ℕ) (es : List Index) (files : Dict ℕ Bytes)
    → n < m ⊎ m < n
    → find (dumped n i es files) m ≡ find files m
find-dumped n m i [] files h = refl
find-dumped n m i (e ∷ es) files h =
    find-dumped n m (i + 1) es (put files n (write_at (contents files n) (20 * i) (bytes_of e))) h
    ∙ find-put_other files n m (write_at (contents files n) (20 * i) (bytes_of e)) h

abbrev pub IsFound : Dict ℕ Bytes → ℕ → Type 0
IsFound files n = (file : Bytes) × (find files n ≡ some file)

dumped-IsFound :
    (n i : ℕ) (es : List Index) (files : Dict ℕ Bytes)
    → IsFound files n
    → IsFound (dumped n i es files) n
dumped-IsFound n i [] files h = h
dumped-IsFound n i (e ∷ es) files h =
    dumped-IsFound n (i + 1) es (put files n (write_at (contents files n) (20 * i) (bytes_of e)))
      ((write_at (contents files n) (20 * i) (bytes_of e), find-put_self files n _))

-- The first `length done` entries are written, and those that follow still fit the file.
dumped-Entries :
    (n size : ℕ) (done es : List Index) (files : Dict ℕ Bytes)
    → length (contents files n) ≡ size
    → 20 * (length done + length es) ≤ size
    → Entries n (contents files n) 0 done
    → All (Fits n) es
    → (length (contents (dumped n (length done) es files) n) ≡ size)
      × Entries n (contents (dumped n (length done) es files) n) 0 (done ++ es)
dumped-Entries n size done [] files s l h f =
    (s, subst (Entries n (contents files n) 0) (sym (append-nil done)) h)
dumped-Entries n size done (e ∷ es) files s l h (g, f) =
    let rest =
      dumped-Entries n size (done ++ e ∷ []) es next
        (ap length (contents-put_self files n file)
          ∙ omega (arith, length-written (contents files n) (length done) e))
        (omega (arith, length-append done (e ∷ [])))
        (subst (λ b. Entries n b 0 (done ++ e ∷ [])) (sym (contents-put_self files n file))
          (Entries-written n (contents files n) done e h (omega arith) g))
        f in
    subst
      (λ k.
        (length (contents (dumped n k es next) n) ≡ size)
        × Entries n (contents (dumped n k es next) n) 0 (done ++ e ∷ es))
      (omega (arith, length-append done (e ∷ [])))
      (
        rest.0,
        subst (Entries n (contents (dumped n (length (done ++ e ∷ [])) es next) n) 0)
            (append_assoc done (e ∷ []) es) rest.1,
      )
  where
    file : Bytes
    file = write_at (contents files n) (20 * length done) (bytes_of e)

    next : Dict ℕ Bytes
    next = put files n file

-- A file that is there and holds a list is an index file of it.
pub HeldAt-IsIndexFile :
    (files : Dict ℕ Bytes) (n : ℕ) (es : List Index)
    → IsFound files n
    → HeldAt files n es
    → IsIndexFile files n es
HeldAt-IsIndexFile files n es (file, e) (s, h) = record {
  file = file;
  found = e;
  size = ap length (sym (here e)) ∙ s;
  entries = subst (λ b. Entries n b 0 es) (here e) h;
}
  where
    here : find files n ≡ some file → contents files n ≡ file
    here e = rw (contents, e) refl

module _ (per_file : ℕ) where
  pub closed-IsKept :
      (p : Partition)
      → IsKept per_file p
      → IsKept per_file (record p { append_file = none; index_file = none })
  closed-IsKept p h = record {
    full = h.full;
    held = h.held;
    beyond = h.beyond;
    current = λ k e. cc;
    ascends = h.ascends;
    count = h.count;
    total = h.total;
    max = h.max;
  }

  pub opened-IsKept :
      (position : ℕ) (messages : Dict ℕ Bytes) (p : Partition)
      → IsKept per_file p
      → IsKept per_file (opened position messages p)
  opened-IsKept position messages p h = record {
    full = FullFiles-put p.indexes 0 p.file_cache n (contents p.indexes n) (omega arith) h.full;
    held =
        subst (λ b. (length b ≡ 20 * length p.list) × Entries n b 0 p.list)
          (sym (contents-put_self p.indexes n (contents p.indexes n))) h.held;
    beyond = λ k l. find-put_other p.indexes n k (contents p.indexes n) (inl l) ∙ h.beyond k l;
    current = λ k e. cc;
    ascends = h.ascends;
    count = h.count;
    total = h.total;
    max = h.max;
  }
    where
      n : ℕ
      n = length p.file_cache

  dumped-FullFiles :
      (n : ℕ) (cache : List CacheEntry) (m i : ℕ) (es : List Index) (files : Dict ℕ Bytes)
      → n + length cache ≤ m
      → FullFiles files n cache
      → FullFiles (dumped m i es files) n cache
  dumped-FullFiles n cache m i [] files h f = f
  dumped-FullFiles n cache m i (e ∷ es) files h f =
      let file = write_at (contents files m) (20 * i) (bytes_of e) in
      dumped-FullFiles n cache m (i + 1) es (put files m file) h
        (FullFiles-put files n cache m file h f)

  one_more :
      (total n size : ℕ)
      → total ≡ n * per_file + size
      → size ≡ per_file
      → total ≡ (n + 1) * per_file + 0
  one_more total n size h e = grind arith

  highest-append :
      (m : ℕ) (cache : List CacheEntry) (c : CacheEntry)
      → highest m (cache ++ c ∷ []) ≡ higher (highest m cache) c.max
  highest-append m [] c = refl
  highest-append m (x ∷ cache) c = highest-append (higher m x.max) cache c

  -- A full file is written in the order of its ids, and the next one is not there yet.
  pub rolled-IsKept :
      (x : Index) (l : List Index) (p : Partition)
      → p.list ≡ x ∷ l
      → p.entries_count ≡ per_file
      → p.index_file ≡ none
      → IsKept per_file p
      → IsKept per_file (rolled x l p)
  unfolding back
  rolled-IsKept x l p e f g h = record {
    full =
        FullFiles-append files 0 p.file_cache _
          (dumped-FullFiles 0 p.file_cache n 0 p.list (with_file p.indexes n) (omega arith)
            (FullFiles-put p.indexes 0 p.file_cache n (contents p.indexes n) (omega arith) h.full))
          (record {
            first = x;
            more = l;
            index_file = subst (λ k. IsIndexFile files k (x ∷ l)) (omega arith) index_file;
            min = refl;
            max = refl;
          });
    held = subst (λ b. (length b ≡ 0) × Unit {0}) (sym missing) (refl, tt);
    beyond = λ k b. absent k (omega (arith, longer));
    current = λ k c. absurd (cc);
    ascends = tt;
    count = refl;
    total =
        one_more p.total_number_of_messages n (length p.list) h.total (sym h.count ∙ f)
        ∙ ap (λ k. k * per_file + 0) (sym longer);
    max =
        h.max
        ∙ ap (λ k. with_back (highest 0 p.file_cache) (back k)) e
        ∙ sym (highest-append 0 p.file_cache _);
  }
    where
      n : ℕ
      n = length p.file_cache

      files : Dict ℕ Bytes
      files = dumped n 0 p.list (with_file p.indexes n)

      longer : length (p.file_cache ++ record { min = x.id; max = (last_or x l).id } ∷ []) ≡ n + 1
      longer =
          omega
            (arith, length-append p.file_cache (record { min = x.id; max = (last_or x l).id } ∷ []))

      absent : (k : ℕ) → n < k → find files k ≡ none
      absent k b =
          find-dumped n k 0 p.list (with_file p.indexes n) (inl b)
          ∙ find-put_other p.indexes n k (contents p.indexes n) (inl b)
          ∙ h.beyond k b

      missing :
          contents files
            (length (p.file_cache ++ record { min = x.id; max = (last_or x l).id } ∷ []))
          ≡ []
      missing =
          rw
            (
              contents,
              absent (length (p.file_cache ++ record { min = x.id; max = (last_or x l).id } ∷ []))
                  (omega (arith, longer)),
            )
            refl

      index_file : IsIndexFile files n (x ∷ l)
      index_file =
          HeldAt-IsIndexFile files n (x ∷ l)
            (dumped-IsFound n 0 p.list (with_file p.indexes n)
              ((contents p.indexes n, find-put_self p.indexes n (contents p.indexes n))))
            (subst (HeldAt files n) e (
              dumped-Entries n (20 * length p.list) [] p.list (with_file p.indexes n)
                (ap length (contents-put_self p.indexes n (contents p.indexes n)) ∙ h.held.0)
                (omega arith) tt (Entries-Fits n (contents p.indexes n) 0 p.list h.held.1)))

  -- The last id of a list, and 0 of an empty one.
  abbrev top : List Index → ℕ
  top [] = 0
  top (x ∷ l) = (last_or x l).id

  first-le-last : (n : ℕ) (x : Index) (l : List Index) → Ascends n (x ∷ l) → x.id ≤ (last_or x l).id
  first-le-last n x [] a = omega arith
  first-le-last n x (y ∷ l) a = omega (arith, first-le-last x.id y l a.1, a.1.0)

  below_back :
      (m n : ℕ) (l : List Index) (e : Index)
      → m ≡ with_back n (back l)
      → m < e.id
      → (n < e.id) × (top l < e.id)
  unfolding back
  below_back m n [] e h k = (omega arith, omega arith)
  below_back m n (x ∷ l) e h k = (ground arith, ground arith)

  insert_elem-last :
      (l : List Index) (e : Index) → Ascends 0 l → top l < e.id → insert_elem e l ≡ l ++ e ∷ []
  unfolding insert_elem
  insert_elem-last [] e a h = refl
  insert_elem-last (x ∷ l) e a h = ground (arith, first-le-last 0 x l a)

  Ascends-append :
      (n : ℕ) (x : Index) (l : List Index) (e : Index)
      → Ascends n (x ∷ l)
      → (last_or x l).id < e.id
      → Ascends n (x ∷ l ++ e ∷ [])
  Ascends-append n x [] e a h = (a.0, (h, tt))
  Ascends-append n x (y ∷ l) e a h = (a.0, Ascends-append x.id y l e a.1 h)

  Ascends-top : (l : List Index) (e : Index) → Ascends 0 l → top l < e.id → Ascends 0 (l ++ e ∷ [])
  Ascends-top [] e a h = (h, tt)
  Ascends-top (x ∷ l) e a h = Ascends-append 0 x l e a h

  front-Ascends :
      (n : ℕ) (y : Index) (ys : List Index) (x : Index) (l : List Index)
      → Ascends n (y ∷ ys ++ x ∷ l)
      → Ascends n (y ∷ ys) × ((last_or y ys).id < x.id)
  front-Ascends n y [] x l a = ((a.0, tt), a.1.0)
  front-Ascends n y (z ∷ zs) x l a = let (b, h) = front-Ascends y.id z zs x l a.1 in ((a.0, b), h)

  top_of_front :
      (done : List Index) (x : Index) (l : List Index)
      → Ascends 0 (done ++ x ∷ l)
      → Ascends 0 done × (top done < x.id)
  top_of_front [] x l a = (tt, a.0)
  top_of_front (y ∷ ys) x l a = front-Ascends 0 y ys x l a

  -- Insertion of ascending entries one after the other keeps their order.
  pub insert_all-Ascends :
      (done l : List Index) → Ascends 0 (done ++ l) → insert_all l done ≡ done ++ l
  unfolding insert_all
  insert_all-Ascends done [] a = sym (append-nil done)
  insert_all-Ascends done (x ∷ l) a =
      let (b, h) = top_of_front done x l a in
      ap (insert_all l) (insert_elem-last done x b h)
      ∙ insert_all-Ascends (done ++ x ∷ []) l
          (subst (Ascends 0) (sym (append_assoc done (x ∷ []) l)) a)
      ∙ append_assoc done (x ∷ []) l

  back-append : (l : List Index) (e : Index) → back (l ++ e ∷ []) ≡ some e
  unfolding back
  back-append [] e = refl
  back-append (x ∷ l) e = ap some (last x l)
    where
      last : (x : Index) (l : List Index) → last_or x (l ++ e ∷ []) ≡ e
      last x [] = refl
      last x (y ∷ l) = last y l

  -- A message of an id above the highest one goes to the end of the list and of the index file.
  pub appended-IsKept :
      (id : ℕ) (bytes : Bytes) (messages : Dict ℕ Bytes) (p : Partition)
      → p.max_message_id < id
      → id < 2 ^ 64
      → p.append_file_position + 12 < 2 ^ 64
      → IsKept per_file p
      → IsKept per_file (appended id bytes messages (length p.file_cache) p)
  unfolding record_entry
  appended-IsKept id bytes messages p above id_bits position_bits h = record {
    full = FullFiles-put p.indexes 0 p.file_cache n file (omega arith) h.full;
    held =
        subst (λ l. HeldAt (put p.indexes n file) n l) (sym at_end)
          (subst
            (λ b. (length b ≡ 20 * length (p.list ++ e ∷ [])) × Entries n b 0 (p.list ++ e ∷ []))
            (sym (contents-put_self p.indexes n file)) (size, entries));
    beyond = λ k b. find-put_other p.indexes n k file (inl b) ∙ h.beyond k b;
    current = h.current;
    ascends = subst (Ascends 0) (sym at_end) (Ascends-top p.list e h.ascends under.1);
    count = omega (arith, h.count, longer);
    total = omega (arith, h.total, longer);
    max =
        highest_id
        ∙ sym (ap (with_back (highest 0 p.file_cache)) (ap back at_end ∙ back-append p.list e));
  }
    where
      n : ℕ
      n = length p.file_cache

      e : Index
      e = next_entry p id bytes

      file : Bytes
      file = write_at (contents p.indexes n) (20 * p.entries_count) (bytes_of e)

      under : (highest 0 p.file_cache < e.id) × (top p.list < e.id)
      under = below_back p.max_message_id (highest 0 p.file_cache) p.list e h.max above

      at_end : insert_elem e p.list ≡ p.list ++ e ∷ []
      at_end = insert_elem-last p.list e h.ascends under.1

      longer : length (insert_elem e p.list) ≡ length p.list + 1
      longer = omega (arith, ap length at_end, length-append p.list (e ∷ []))

      highest_id :
          (if ltb p.max_message_id id then id else p.max_message_id)
          ≡ higher (highest 0 p.file_cache) id
      highest_id = ground (arith, under.0)

      at_place : write_at (contents p.indexes n) (20 * length p.list) (bytes_of e) ≡ file
      at_place = ap (λ k. write_at (contents p.indexes n) (20 * k) (bytes_of e)) (sym h.count)

      size : length file ≡ 20 * length (p.list ++ e ∷ [])
      size = omega (
        arith,
        ap length at_place,
        length-written (contents p.indexes n) (length p.list) e,
        h.held.0,
        length-append p.list (e ∷ []),
      )

      entries : Entries n file 0 (p.list ++ e ∷ [])
      entries =
          subst (λ b. Entries n b 0 (p.list ++ e ∷ [])) at_place
            (Entries-written n (contents p.indexes n) p.list e h.held.1 (omega (arith, h.held.0))
              (id_bits, position_bits, omega arith, refl))
