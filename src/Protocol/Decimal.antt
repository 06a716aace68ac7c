-- ===== src/Protocol/Decimal.antt =====
-- strconv.FormatUint, ParseUint, FormatInt and ParseInt in base 10, as protocol/message.go uses them.
use native.Mathlib.Nat.{pow-suc}
use guble.Prelude.{
  ℕ, zero, suc, ◌+◌, ◌-◌, ◌*◌, ◌/◌, ◌%◌, ◌^◌, ◌<◌, ◌≤◌, ◌≡◌, refl, ap, sym, ◌∙◌, Bytes, [], ◌∷◌,
  Option, none, some, Bool, true, false, ◌||◌, ltb, leb, if◌then◌else◌, nat_eq, arith, All,
  Bool-cases, inl, inr,
}

-- The digits of a number in front of those so far; 20 rounds are enough for a uint64.
pub digits : ℕ → ℕ → Bytes → Bytes
digits zero n out = out
digits (suc rounds) n out =
    let more = digits rounds (n / 10) ((48 + n % 10) ∷ out) in
    if ltb n 10 then (48 + n) ∷ out else more

unfoldable pub format_uint : ℕ → Bytes
unfolding digits
format_uint n = digits 20 n []

-- The rest of the digits, with the value so far; a value above `max` is a range error.
pub scan : ℕ → Bytes → ℕ → Option ℕ
scan max [] n = some n
scan max (c ∷ s) n =
    let value = n * 10 + (c - 48) in
    let rest = scan max s value in if ltb c 48 || (ltb 57 c || ltb max value) then none else rest

unfoldable pub parse_uint : ℕ → Bytes → Option ℕ
unfolding scan
parse_uint max [] = none
parse_uint max (c ∷ s) = scan max (c ∷ s) 0

-- int64
pub data ℤ : Type 0 where
  pos negsuc : ℕ → ℤ

abbrev pub minus : ℕ
minus = 45

unfoldable pub format_int : ℤ → Bytes
format_int (pos n) = format_uint n
format_int (negsuc n) = minus ∷ format_uint (suc n)

-- The value within an int64, for a number with or without the sign.
pub signed : Bool → Option ℕ → Option ℤ
signed negative none = none
signed false (some n) = if leb (2 ^ 63) n then none else some (pos n)
signed true (some zero) = some (pos 0)
signed true (some (suc n)) = if ltb (2 ^ 63) (suc n) then none else some (negsuc n)

unfoldable pub parse_int : Bytes → Option ℤ
unfolding signed
parse_int [] = none
parse_int (c ∷ s) =
    if nat_eq c minus
    then signed true (parse_uint (2 ^ 64 - 1) s)
    else if nat_eq c 43
    then signed false (parse_uint (2 ^ 64 - 1) s)
    else signed false (parse_uint (2 ^ 64 - 1) (c ∷ s))

scan_digit :
    (max n d : ℕ) (s : Bytes)
    → d < 10
    → n * 10 + d ≤ max
    → scan max ((48 + d) ∷ s) n ≡ scan max s (n * 10 + d)
unfolding scan
scan_digit max n d s h k = rw (same, below, above, fits) refl
  where
    same : n * 10 + (48 + d - 48) ≡ n * 10 + d
    same = omega arith

    below : ltb (48 + d) 48 ≡ false
    below = ground arith

    above : ltb 57 (48 + d) ≡ false
    above = ground arith

    fits : ltb max (n * 10 + d) ≡ false
    fits = ground arith

-- One round: the last digit goes in front of the rest.
digits-zero_rounds : (n : ℕ) → n < 10 ^ suc zero → ltb n 10 ≡ false → ⊥
digits-zero_rounds n h f = ground arith

scan-digits :
    (rounds max n : ℕ) (out : Bytes)
    → n < 10 ^ suc rounds
    → n ≤ max
    → scan max (digits (suc rounds) n out) 0 ≡ scan max out n
unfolding digits
scan-digits zero max n out h k = elim (Bool-cases (ltb n 10)) [
  | inl t ↦
      rw t (scan_digit max 0 n out (ground arith) (omega arith) ∙ ap (scan max out) (omega arith))
  | inr f ↦ absurd (digits-zero_rounds n h f)
]
scan-digits (suc rounds) max n out h k = elim (Bool-cases (ltb n 10)) [
  | inl t ↦
      rw t (scan_digit max 0 n out (ground arith) (omega arith) ∙ ap (scan max out) (omega arith))
  | inr f ↦ rw f (
      scan-digits rounds max (n / 10) ((48 + n % 10) ∷ out) (omega (arith, pow-suc 10 (suc rounds)))
        (omega arith)
      ∙ scan_digit max (n / 10) (n % 10) out (omega arith) (omega arith)
      ∙ ap (scan max out) (omega arith))
]

digits-All :
    (P : ℕ → Type 0)
    → ((d : ℕ) → d < 10 → P (48 + d))
    → (rounds n : ℕ) (out : Bytes) → All P out
    → All P (digits rounds n out)
unfolding digits
digits-All P h zero n out a = a
digits-All P h (suc rounds) n out a = elim (Bool-cases (ltb n 10)) [
  | inl t ↦ rw t (h n (ground arith), a)
  | inr f ↦
      rw f (digits-All P h rounds (n / 10) ((48 + n % 10) ∷ out) (h (n % 10) (omega arith), a))
]

digits-cons :
    (rounds n : ℕ) (out : Bytes) → (c : ℕ) × ((s : Bytes) × (digits (suc rounds) n out ≡ c ∷ s))
unfolding digits
digits-cons zero n out = elim (Bool-cases (ltb n 10)) [
  | inl t ↦ rw t (48 + n, (out, refl))
  | inr f ↦ rw f (48 + n % 10, (out, refl))
]
digits-cons (suc rounds) n out = elim (Bool-cases (ltb n 10)) [
  | inl t ↦ rw t (48 + n, (out, refl))
  | inr f ↦ rw f (digits-cons rounds (n / 10) ((48 + n % 10) ∷ out))
]

format_uint-scan : (max n : ℕ) → n < 2 ^ 64 → n ≤ max → scan max (format_uint n) 0 ≡ some n
unfolding format_uint scan
format_uint-scan max n h k = scan-digits 19 max n [] (omega arith) k

pub format_uint-All :
    (P : ℕ → Type 0) → ((d : ℕ) → d < 10 → P (48 + d)) → (n : ℕ) → All P (format_uint n)
unfolding format_uint
format_uint-All P h n = digits-All P h 20 n [] tt

-- A uint64 that is printed is read back as itself, where it is at most the maximum of the bit size.
pub parse_uint-format_uint :
    (max n : ℕ) → n < 2 ^ 64 → n ≤ max → parse_uint max (format_uint n) ≡ some n
parse_uint-format_uint max n h k =
    let (c, (s, e)) = cons in
    ap (parse_uint max) e ∙ first c s ∙ sym (ap (λ t. scan max t 0) e) ∙ format_uint-scan max n h k
  where
    cons : (c : ℕ) × ((s : Bytes) × (format_uint n ≡ c ∷ s))
    cons = unfold format_uint in digits-cons 19 n []

    first : (c : ℕ) (s : Bytes) → parse_uint max (c ∷ s) ≡ scan max (c ∷ s) 0
    first c s = unfold parse_uint in refl

-- What an int64 is.
abbrev pub IsInt64 : ℤ → Type 0
IsInt64 (pos n) = n < 2 ^ 63
IsInt64 (negsuc n) = n < 2 ^ 63

unsigned :
    (n : ℕ)
    → (c : ℕ) × ((s : Bytes) × ((format_uint n ≡ c ∷ s)
          × ((nat_eq c minus ≡ false) × (nat_eq c 43 ≡ false))))
unsigned n = first (format_uint n) cons (
    format_uint-All (λ c. (nat_eq c minus ≡ false) × (nat_eq c 43 ≡ false))
      (λ d h. (ground arith, ground arith)) n)
  where
    cons : (c : ℕ) × ((s : Bytes) × (format_uint n ≡ c ∷ s))
    cons = unfold format_uint in digits-cons 19 n []

    first :
        (t : Bytes)
        → (c : ℕ) × ((s : Bytes) × (t ≡ c ∷ s))
        → All (λ c. (nat_eq c minus ≡ false) × (nat_eq c 43 ≡ false)) t
        → (c : ℕ) × ((s : Bytes) × ((t ≡ c ∷ s)
              × ((nat_eq c minus ≡ false) × (nat_eq c 43 ≡ false))))
    first [] (c, (s, e)) h = absurd cc
    first (x ∷ t) (c, (s, e)) h = (x, (t, (refl, h.0)))

-- An int64 that is printed is read back as itself.
pub parse_int-format_int : (z : ℤ) → IsInt64 z → parse_int (format_int z) ≡ some z
unfolding parse_int format_int
parse_int-format_int (pos n) h =
    let (c, (s, (e, (f, g)))) = unsigned n in
    rw (e, f, g, sym e, parse_uint-format_uint (2 ^ 64 - 1) n (omega arith) (omega arith))
      (ground arith)
parse_int-format_int (negsuc n) h =
    rw (parse_uint-format_uint (2 ^ 64 - 1) (suc n) (omega arith) (omega arith)) (ground arith)

pub format_int-All :
    (P : ℕ → Type 0) → P minus → ((d : ℕ) → d < 10 → P (48 + d)) → (z : ℤ) → All P (format_int z)
unfolding format_int
format_int-All P m h (pos n) = format_uint-All P h n
format_int-All P m h (negsuc n) = (m, format_uint-All P h (suc n))
