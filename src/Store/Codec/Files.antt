-- ===== src/Store/Codec/Files.antt =====
-- Reading a file at a position after it was appended to, or written at a position.
use guble.Prelude.{
  ℕ, zero, suc, ◌+◌, ◌-◌, ◌≤◌, ◌≡◌, refl, sym, ap, ◌∙◌, Bytes, [], ◌∷◌, ◌++◌, some, arith, take,
  drop, length, length-append, length-take, length-drop, drop-append, take-append-drop, leb, le→leb,
  leb→le, Bool-cases, inl, inr,
}
use guble.Store.Codec.{read_at, padded, write_at}

pub length-padded : (n : ℕ) (file : Bytes) → length (padded n file) ≡ n
unfolding padded
length-padded zero file = refl
length-padded (suc n) [] = ap suc (length-padded n [])
length-padded (suc n) (b ∷ file) = ap suc (length-padded n file)

padded-take : (n : ℕ) (file : Bytes) → n ≤ length file → padded n file ≡ take n file
unfolding padded
padded-take zero file h = refl
padded-take (suc n) [] h = absurd (omega arith)
padded-take (suc n) (b ∷ file) h = ap (◌∷◌ b) (padded-take n file (omega arith))

slice-append :
    (p n : ℕ) (file more : Bytes)
    → p + n ≤ length file
    → take n (drop p (file ++ more)) ≡ take n (drop p file)
slice-append zero zero file more h = refl
slice-append zero (suc n) [] more h = absurd (omega arith)
slice-append zero (suc n) (b ∷ file) more h =
    ap (◌∷◌ b) (slice-append zero n file more (omega arith))
slice-append (suc p) n [] more h = absurd (omega arith)
slice-append (suc p) n (b ∷ file) more h = slice-append p n file more (omega arith)

pub read_at-inside :
    (file : Bytes) (p n : ℕ) → p + n ≤ length file → read_at file p n ≡ some (take n (drop p file))
unfolding read_at
read_at-inside file p n h = rw (le→leb (p + n) (length file) h)

pub read_at-some :
    (file : Bytes) (p n : ℕ) {b : Bytes}
    → read_at file p n ≡ some b
    → (p + n ≤ length file) × (b ≡ take n (drop p file))
unfolding read_at
read_at-some file p n h = elim (Bool-cases (leb (p + n) (length file))) [
  | inl t ↦ (leb→le (p + n) (length file) t, ground arith)
  | inr f ↦ absurd (ground arith)
]

-- Appending changes nothing that could be read before.
pub read_at-append :
    (file more : Bytes) (p n : ℕ) {b : Bytes}
    → read_at file p n ≡ some b
    → read_at (file ++ more) p n ≡ some b
read_at-append file more p n h =
    let (fits, e) = read_at-some file p n h in
    read_at-inside (file ++ more) p n (omega (arith, length-append file more))
    ∙ ap some (slice-append p n file more fits ∙ sym e)

take-all : (n : ℕ) (xs : Bytes) → length xs ≡ n → take n xs ≡ xs
take-all zero [] h = refl
take-all zero (x ∷ xs) h = absurd (omega arith)
take-all (suc n) [] h = refl
take-all (suc n) (x ∷ xs) h = ap (◌∷◌ x) (take-all n xs (omega arith))

-- What was appended is read at the old end.
pub read_at-end :
    (file new : Bytes) (p : ℕ) → length file ≡ p → read_at (file ++ new) p (length new) ≡ some new
read_at-end file new p h =
    read_at-inside (file ++ new) p (length new) (omega (arith, length-append file new))
    ∙ ap some (ap (take (length new)) (drop-append file new p h) ∙ take-all (length new) new refl)

-- What was written is read at its position.
pub read_at-write_at_self :
    (file new : Bytes) (p : ℕ) → read_at (write_at file p new) p (length new) ≡ some new
unfolding write_at
read_at-write_at_self file new p =
    read_at-append (padded p file ++ new) _ p (length new)
      (read_at-end (padded p file) new p (length-padded p file))

-- A write changes nothing in front of its position.
pub read_at-write_at_before :
    (file new : Bytes) (p q n : ℕ) {b : Bytes}
    → p ≤ length file
    → q + n ≤ p
    → read_at file q n ≡ some b
    → read_at (write_at file p new) q n ≡ some b
unfolding write_at
read_at-write_at_before file new p q n {b} h k e = read_at-append (padded p file ++ new) _ q n (
    read_at-append (padded p file) new q n (
      read_at-inside (padded p file) q n (omega (arith, length-padded p file))
      ∙ ap some (
          ap (λ f. take n (drop q f)) (padded-take p file h)
          ∙ slice
          ∙ sym (read_at-some file q n e).1)))
  where
    slice : take n (drop q (take p file)) ≡ take n (drop q file)
    slice =
        sym (slice-append q n (take p file) (drop p file) (omega (arith, length-take p file)))
        ∙ ap (λ f. take n (drop q f)) (take-append-drop p file)

pub length-write_at :
    (file new : Bytes) (p : ℕ)
    → length (write_at file p new) ≡ p + length new + (length file - (p + length new))
unfolding write_at
length-write_at file new p = omega (
  arith,
  length-append (padded p file ++ new) (drop (p + length new) file),
  length-append (padded p file) new,
  length-padded p file,
  length-drop (p + length new) file,
)
