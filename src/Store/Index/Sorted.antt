-- ===== src/Store/Index/Sorted.antt =====
-- Insertion keeps an index list sorted and loses nothing.
use mathlib.Core.List.{Perm, perm_middle}
use mathlib.Core.List.Perm
use guble.Prelude.{
  ℕ, ◌≤◌, ◌≡◌, List, [], ◌∷◌, ◌++◌, arith, All, All-append, last_or, Bool-cases, true, ltb, leb,
  ltb→lt, leb→le, append-nil, ◌<◌, inl, inr,
}
use guble.Store.Index.{Index, insert_before, insert_elem, insert_all}

abbrev pub AtLeast : ℕ → List Index → Type 0
AtLeast n = All (λ e. n ≤ e.id)

-- Ids ascend, and may repeat.
abbrev pub IsSorted : List Index → Type 0
IsSorted [] = Unit
IsSorted (x ∷ xs) = AtLeast x.id xs × IsSorted xs

AtLeast-trans : (m n : ℕ) (xs : List Index) → m ≤ n → AtLeast n xs → AtLeast m xs
AtLeast-trans m n [] h k = tt
AtLeast-trans m n (x ∷ xs) h k = (omega arith, AtLeast-trans m n xs h k.1)

insert_before-AtLeast :
    (n : ℕ) (e : Index) (xs : List Index) → n ≤ e.id → AtLeast n xs → AtLeast n (insert_before e xs)
unfolding insert_before
insert_before-AtLeast n e [] h k = tt
insert_before-AtLeast n e (x ∷ xs) h k = ground (arith, insert_before-AtLeast n e xs h k.1)

insert_before-IsSorted : (e : Index) (xs : List Index) → IsSorted xs → IsSorted (insert_before e xs)
unfolding insert_before
insert_before-IsSorted e [] s = tt
insert_before-IsSorted e (x ∷ xs) s = elim (Bool-cases (ltb e.id x.id)) [
  | inl t ↦ rw t (ltb-AtLeast t, s)
  | inr t ↦
      rw t (insert_before-AtLeast x.id e xs (ground arith) s.0, insert_before-IsSorted e xs s.1)
]
  where
    ltb-AtLeast : ltb e.id x.id ≡ true → AtLeast e.id (x ∷ xs)
    ltb-AtLeast t = (
      omega (arith, ltb→lt e.id x.id t),
      AtLeast-trans e.id x.id xs (omega (arith, ltb→lt e.id x.id t)) s.0,
    )

concat-AtLeast :
    (n : ℕ) (e : Index) (xs : List Index) → n ≤ e.id → AtLeast n xs → AtLeast n (xs ++ e ∷ [])
concat-AtLeast n e xs h k = All-append _ xs (e ∷ []) k (h, tt)

pub le-last :
    (n : ℕ) (x : Index) (xs : List Index) → n ≤ x.id → AtLeast n xs → n ≤ (last_or x xs).id
le-last n x [] h k = h
le-last n x (y ∷ ys) h k = le-last n y ys k.0 k.1

concat-IsSorted :
    (e x : Index) (xs : List Index)
    → (last_or x xs).id ≤ e.id
    → IsSorted (x ∷ xs)
    → IsSorted (x ∷ xs ++ e ∷ [])
concat-IsSorted e x [] h s = ((h, tt), (tt, tt))
concat-IsSorted e x (y ∷ ys) h s = (
  (s.0.0, concat-AtLeast x.id e ys (omega (arith, le-last y.id y ys (omega arith) s.1.0)) s.0.1),
  concat-IsSorted e y ys h s.1,
)

-- Insertion keeps the ids ascending.
pub insert_elem-IsSorted : (e : Index) (xs : List Index) → IsSorted xs → IsSorted (insert_elem e xs)
unfolding insert_elem
insert_elem-IsSorted e [] s = (tt, tt)
insert_elem-IsSorted e (x ∷ xs) s = elim (Bool-cases (leb e.id x.id)) [
  | inl first ↦
      let h = leb→le e.id x.id first in rw first ((h, AtLeast-trans e.id x.id xs h s.0), s)
  | inr later ↦ rw later (elim (Bool-cases (leb (last_or x xs).id e.id)) [
    | inl end ↦ rw end (concat-IsSorted e x xs (leb→le (last_or x xs).id e.id end) s)
    | inr inside ↦
        rw inside
          (insert_before-AtLeast x.id e xs (ground arith) s.0, insert_before-IsSorted e xs s.1)
  ])
]

insert_before-perm :
    (e x : Index) (xs : List Index)
    → e.id < (last_or x xs).id
    → x.id ≤ e.id
    → Perm (insert_before e xs) (e ∷ xs)
unfolding insert_before
insert_before-perm e x [] h k = absurd (omega arith)
insert_before-perm e x (y ∷ ys) h k = elim (Bool-cases (ltb e.id y.id)) [
  | inl here ↦ rw here (Perm.refl _)
  | inr on ↦
      rw on
        (Perm.trans (Perm.cons y (insert_before-perm e y ys h (ground arith))) (Perm.swap e y ys))
]

-- Insertion adds its element, and neither drops nor repeats another.
pub insert_elem-perm : (e : Index) (xs : List Index) → Perm (insert_elem e xs) (e ∷ xs)
unfolding insert_elem
insert_elem-perm e [] = Perm.refl _
insert_elem-perm e (x ∷ xs) = elim (Bool-cases (leb e.id x.id)) [
  | inl first ↦ rw first (Perm.refl _)
  | inr later ↦ rw later (elim (Bool-cases (leb (last_or x xs).id e.id)) [
    | inl end ↦ rw end (Perm.trans (perm_middle (x ∷ xs) []) (rw append-nil (Perm.refl _)))
    | inr inside ↦ rw inside (
        Perm.trans (Perm.cons x (insert_before-perm e x xs (ground arith) (ground arith)))
          (Perm.swap e x xs))
  ])
]

pub insert_all-IsSorted : (es xs : List Index) → IsSorted xs → IsSorted (insert_all es xs)
unfolding insert_all
insert_all-IsSorted [] xs s = s
insert_all-IsSorted (e ∷ es) xs s =
    insert_all-IsSorted es (insert_elem e xs) (insert_elem-IsSorted e xs s)

pub insert_all-perm : (es xs : List Index) → Perm (insert_all es xs) (es ++ xs)
unfolding insert_all
insert_all-perm [] xs = Perm.refl xs
insert_all-perm (e ∷ es) xs =
    Perm.trans (insert_all-perm es (insert_elem e xs))
      (Perm.trans (Perm.append (Perm.refl es) (insert_elem-perm e xs)) (perm_middle es xs))

-- insertList and insert: for any elements and any sorted list, the result is sorted and holds the
-- elements of both, each as often.
pub insert_all_correct :
    (es xs : List Index)
    → IsSorted xs
    → IsSorted (insert_all es xs) × Perm (insert_all es xs) (es ++ xs)
insert_all_correct es xs s = (insert_all-IsSorted es xs s, insert_all-perm es xs)
