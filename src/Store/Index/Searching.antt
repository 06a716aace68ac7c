-- ===== src/Store/Index/Searching.antt =====
-- The binary search of an index list: it ends, stays within the list, and finds the id or the
-- closest entry.
use guble.Prelude.{
  ℕ, zero, suc, ◌+◌, ◌-◌, ◌/◌, ◌≤◌, ◌<◌, ◌≡◌, ◌≢◌, refl, List, [], ◌∷◌, Option, none, some, arith,
  true, false, All-get, length, get_elem?, Bool-cases, inl, inr, ltb, ltb→lt, lt→ltb, leb→le,
  nat_eq_iff, nat_eq,
}
use guble.Store.Index.{
  Index, Run, done, out_of_range, out_of_fuel, Search, abs, closer, search_step, search_loop,
  search,
}
use guble.Store.Index.Sorted.{IsSorted}

abs-le : (m n id : ℕ) → m ≤ n → n ≤ id → abs n id ≤ abs m id
unfolding abs
abs-le m n id h k = ground arith

abs-ge : (m n id : ℕ) → m ≤ n → id ≤ m → abs m id ≤ abs n id
unfolding abs
abs-ge m n id h k = ground arith

pub get_elem?-below :
    {A : Type 0} (xs : List A) (i : ℕ) → i < length xs → (a : A) × (get_elem? xs i ≡ some a)
get_elem?-below [] i h = elim h [ ]
get_elem?-below (x ∷ xs) zero h = (x, refl)
get_elem?-below (x ∷ xs) (suc i) h = get_elem?-below xs i (omega arith)

pub get_elem?-lt :
    {A : Type 0} (xs : List A) (i : ℕ) {a : A} → get_elem? xs i ≡ some a → i < length xs
get_elem?-lt [] i e = absurd (cc)
get_elem?-lt (x ∷ xs) zero e = omega arith
get_elem?-lt (x ∷ xs) (suc i) e = omega (arith, get_elem?-lt xs i e)

-- In a sorted list, ids ascend with positions.
pub IsSorted-get :
    (xs : List Index) (i j : ℕ) {a b : Index}
    → IsSorted xs
    → i ≤ j
    → get_elem? xs i ≡ some a
    → get_elem? xs j ≡ some b
    → a.id ≤ b.id
IsSorted-get [] i j s h p q = absurd (cc)
IsSorted-get (x ∷ xs) zero zero s h p q = ground arith
IsSorted-get (x ∷ xs) zero (suc j) {a} {b} s h p q =
    ground (arith, All-get (λ e. x.id ≤ e.id) xs j s.0 q)
IsSorted-get (x ∷ xs) (suc i) zero s h p q = absurd (omega arith)
IsSorted-get (x ∷ xs) (suc i) (suc j) s h p q = IsSorted-get xs i j s.1 (omega arith) p q

module _ (items : List Index) (id : ℕ) where
  -- What a result says of the list.
  abbrev pub FoundAt : Option ℕ → Option ℕ → Type 0
  FoundAt (some p) best = (a : Index) × (get_elem? items p ≡ some a) × (a.id ≡ id)
  FoundAt none none = items ≡ []
  FoundAt none (some b) =
      (e : Index) × (get_elem? items b ≡ some e)
      × ((i : ℕ) (a : Index)
          → get_elem? items i ≡ some a
          → (a.id ≢ id) × (abs e.id id ≤ abs a.id id))

  abbrev pub Finds : Run Search → Type 0
  Finds (done r) = FoundAt r.position r.best_index
  Finds out_of_range = ⊥
  Finds out_of_fuel = ⊥

  -- The entries outside [f, hi) are not the one searched for, and `e` is as close as any of them.
  record Inv (f hi : ℕ) (e : Index) : Type 0 where
    below :
        (i : ℕ) (a : Index)
        → get_elem? items i ≡ some a
        → i < f
        → (a.id < id) × (abs e.id id ≤ abs a.id id)
    above :
        (i : ℕ) (a : Index)
        → get_elem? items i ≡ some a
        → hi ≤ i
        → (id < a.id) × (abs e.id id ≤ abs a.id id)

  module _ (s : IsSorted items) where
    Inv-above :
        (f hi mid : ℕ) (e m e' : Index)
        → Inv f hi e
        → get_elem? items mid ≡ some m
        → m.id < id
        → abs e'.id id ≤ abs e.id id
        → abs e'.id id ≤ abs m.id id
        → Inv (mid + 1) hi e'
    Inv-above f hi mid e m e' v p h c d = record {
      below = λ i a q lt.
          let o = IsSorted-get items i mid s (omega arith) q p in
          (omega arith, omega (arith, abs-le a.id m.id id o (omega arith)));
      above = λ i a q le. let w = v.above i a q le in (w.0, omega (arith, w.1));
    }

    Inv-below :
        (f hi mid : ℕ) (e m e' : Index)
        → Inv f hi e
        → get_elem? items mid ≡ some m
        → id < m.id
        → abs e'.id id ≤ abs e.id id
        → abs e'.id id ≤ abs m.id id
        → Inv f mid e'
    Inv-below f hi mid e m e' v p h c d = record {
      below = λ i a q lt. let w = v.below i a q lt in (w.0, omega (arith, w.1));
      above = λ i a q le.
          let o = IsSorted-get items mid i s le p q in
          (omega arith, omega (arith, abs-ge m.id a.id id o (omega arith)));
    }

    settled :
        (f hi : ℕ) (e : Index)
        → Inv f hi e
        → hi ≤ f
        → (i : ℕ) (a : Index) → get_elem? items i ≡ some a
        → (a.id ≢ id) × (abs e.id id ≤ abs a.id id)
    settled f hi e v h i a q = elim (Bool-cases (ltb i f)) [
      | inl lt ↦ let w = v.below i a q (ltb→lt i f lt) in (omega arith, w.1)
      | inr ge ↦ let w = v.above i a q (ground arith) in (omega arith, w.1)
    ]

    module _ (m e : Index) where
      closer-true : closer m e id ≡ true → abs m.id id ≤ abs e.id id
      unfolding closer
      closer-true h = leb→le _ _ h

      closer-false : closer m e id ≡ false → abs e.id id ≤ abs m.id id
      unfolding closer
      closer-false h = ground arith

    module _ (rest : ℕ → ℕ → ℕ → Run Search) (f hi best : ℕ) (e m : Index) (v : Inv f hi e) where
      search_step-Finds :
          f < hi
          → get_elem? items best ≡ some e
          → get_elem? items ((hi - 1 + f) / 2) ≡ some m
          → ((b : ℕ) (e' : Index)
              → get_elem? items b ≡ some e'
              → Inv ((hi - 1 + f) / 2 + 1) hi e'
              → Finds (rest ((hi - 1 + f) / 2 + 1) hi b))
          → ((b : ℕ) (e' : Index)
              → get_elem? items b ≡ some e'
              → Inv f ((hi - 1 + f) / 2) e'
              → Finds (rest f ((hi - 1 + f) / 2) b))
          → Finds (search_step rest items id f hi best)
      unfolding search_step
      search_step-Finds lt p q up down =
          let mid = (hi - 1 + f) / 2 in
          rw (lt→ltb f hi lt, q)
            (elim (Bool-cases (nat_eq m.id id)) [
              | inl hit ↦ rw hit (m, q, (nat_eq_iff m.id id).0 hit)
              | inr miss ↦
                  rw (miss, p)
                    (elim (Bool-cases (ltb m.id id)) [
                      | inl right ↦ rw right (elim (Bool-cases (closer m e id)) [
                        | inl c ↦ rw c (
                            up mid m q (
                              Inv-above f hi mid e m m v q (ltb→lt m.id id right)
                                (closer-true m e c) (omega arith)))
                        | inr c ↦ rw c (
                            up best e p (
                              Inv-above f hi mid e m e v q (ltb→lt m.id id right) (omega arith)
                                (closer-false m e c)))
                      ])
                      | inr left ↦
                          let gt : id < m.id = ground arith in
                          rw left (elim (Bool-cases (closer m e id)) [
                            | inl c ↦ rw c (
                                down mid m q (
                                  Inv-below f hi mid e m m v q gt (closer-true m e c)
                                    (omega arith)))
                            | inr c ↦ rw c (
                                down best e p (
                                  Inv-below f hi mid e m e v q gt (omega arith)
                                    (closer-false m e c)))
                          ])
                    ])
            ])

    search_loop-Finds :
        (fuel f hi best : ℕ) (e : Index)
        → hi < fuel + f
        → f ≤ hi
        → hi ≤ length items
        → get_elem? items best ≡ some e
        → Inv f hi e
        → Finds (search_loop fuel items id f hi best)
    unfolding search_loop
    search_loop-Finds zero f hi best e fits up le p v = absurd (omega arith)
    search_loop-Finds (suc fuel) f hi best e fits up le p v = elim (Bool-cases (ltb f hi)) [
      | inr stop ↦ unfold search_step in rw stop (e, p, settled f hi e v (ground arith))
      | inl go ↦
          let lt = ltb→lt f hi go in
          let mid = (hi - 1 + f) / 2 in
          let (m, q) = get_elem?-below items mid (omega arith) in
          search_step-Finds (search_loop fuel items id) f hi best e m v lt p q
            (λ b e' p' v'.
              search_loop-Finds fuel (mid + 1) hi b e' (omega arith) (omega arith) le p' v')
            (λ b e' p' v'.
              search_loop-Finds fuel f mid b e' (omega arith) (omega arith) (omega arith) p' v')
    ]

-- On a sorted list the search ends within its bounds and decides membership: a position it returns
-- holds the id; without one no entry has the id, and `best_index` is the position of an entry that
-- is as close to it as any (or the list is empty).
pub search-Finds : (items : List Index) (id : ℕ) → IsSorted items → Finds items id (search items id)
unfolding search
search-Finds [] id s = refl
search-Finds (x ∷ xs) id s =
    search_loop-Finds (x ∷ xs) id s (suc (length xs) + 1) 0 (suc (length xs)) 0 x (omega arith)
      (omega arith) (omega arith) refl
      (record {
        below = λ i a q lt. absurd (omega arith);
        above = λ i a q le. absurd (omega (arith, get_elem?-lt (x ∷ xs) i q));
      })
