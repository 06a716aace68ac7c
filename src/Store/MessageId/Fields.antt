-- ===== src/Store/MessageId/Fields.antt =====
-- How the fields of a message id lie beside one another, and how ids are ordered.
use Prim.Native.Nat.{max, bit_or, digits, bit_or-bitwise}
use native.Mathlib.Nat.{pow-suc}
use guble.Prelude.{ℕ, zero, suc, ◌+◌, ◌-◌, ◌*◌, ◌/◌, ◌%◌, ◌^◌, ◌≤◌, ◌<◌, ◌≡◌, refl, ap, ◌∙◌, arith}
use guble.Store.Partition.{Partition, ok}
use guble.Store.MessageId.{guble_epoch, u64, compose_id, generate_next_msg_id}

abbrev or_digits : ℕ → ℕ → ℕ → ℕ
or_digits n a b = digits (λ b. b) max n a b

or_digits_fuel : (n m a b : ℕ) → a ≤ n → a ≤ m → or_digits n a b ≡ or_digits m a b
or_digits_fuel zero zero a b p q = refl
or_digits_fuel zero (suc m) zero b p q = refl
or_digits_fuel zero (suc m) (suc a) b p q = absurd (omega arith)
or_digits_fuel (suc n) zero zero b p q = refl
or_digits_fuel (suc n) zero (suc a) b p q = absurd (omega arith)
or_digits_fuel (suc n) (suc m) zero b p q = refl
or_digits_fuel (suc n) (suc m) (suc a) b p q =
    omega (arith, or_digits_fuel n m (suc a / 2) (b / 2) (omega arith) (omega arith))

zero-bit_or : (b : ℕ) → bit_or 0 b ≡ b
zero-bit_or b = bit_or-bitwise 0 b

bit_or_step : (a b : ℕ) → bit_or a b ≡ bit_or (a / 2) (b / 2) * 2 + max (a % 2) (b % 2)
bit_or_step zero b = omega (arith, zero-bit_or b, zero-bit_or (b / 2))
bit_or_step (suc a) b = omega (
  arith,
  bit_or-bitwise (suc a) b,
  bit_or-bitwise (suc a / 2) (b / 2),
  or_digits_fuel a (suc a / 2) (suc a / 2) (b / 2) (omega arith) (omega arith),
)

bit_or-zero_fuel : (n a : ℕ) → a ≤ n → bit_or a 0 ≡ a
bit_or-zero_fuel n zero h = refl
bit_or-zero_fuel zero (suc a) h = absurd (omega arith)
bit_or-zero_fuel (suc n) (suc a) h =
    omega (arith, bit_or_step (suc a) 0, bit_or-zero_fuel n (suc a / 2) (omega arith))

bit_or_double : (m b : ℕ) → bit_or (m * 2) b ≡ bit_or m (b / 2) * 2 + b % 2
bit_or_double m b =
    bit_or_step (m * 2) b
    ∙ ap (λ n. bit_or n (b / 2) * 2 + max (m * 2 % 2) (b % 2)) half
    ∙ omega arith
  where
    half : m * 2 / 2 ≡ m
    half = omega arith

-- Fields that do not overlap are added.
bit_or-disjoint : (k a b : ℕ) → b < 2 ^ k → bit_or (a * 2 ^ k) b ≡ a * 2 ^ k + b
bit_or-disjoint zero a b h =
    let e : b ≡ 0 = omega arith in
    rw e (omega (arith, bit_or-zero_fuel (a * 1) (a * 1) (omega arith)))
bit_or-disjoint (suc k) a b h =
    ap (λ n. bit_or n b) twice
    ∙ bit_or_double (a * 2 ^ k) b
    ∙ omega (arith, bit_or-disjoint k a (b / 2) (omega (arith, pow-suc 2 k)), twice)
  where
    twice : a * 2 ^ suc k ≡ a * 2 ^ k * 2
    twice = ap (◌*◌ a) (pow-suc 2 k) ∙ omega arith

-- The nanoseconds since the epoch, of which the shift keeps 49 bits.
abbrev pub cycle_time : ℕ → ℕ
cycle_time nanos = (nanos - guble_epoch) % 2 ^ 49

-- With a node id of three bits and a sequence number of twelve, the three fields of an id lie
-- beside one another: 49 bits of the time, the node, and the sequence number.
pub compose_id_fields :
    (nanos node_id sequence : ℕ)
    → node_id < 8
    → sequence < 4096
    → compose_id nanos node_id sequence ≡ cycle_time nanos * 32768 + node_id * 4096 + sequence
unfolding compose_id
compose_id_fields nanos node_id sequence n s =
    ap (λ t. bit_or (bit_or t (node_id * 4096)) sequence) fits
    ∙ ap (λ t. bit_or t sequence)
        (bit_or-disjoint 15 (cycle_time nanos) (node_id * 4096) (omega arith))
    ∙ ap (λ t. bit_or t sequence) regroup
    ∙ bit_or-disjoint 12 (cycle_time nanos * 8 + node_id) sequence s
    ∙ omega arith
  where
    fits : (nanos - guble_epoch) * 2 ^ 15 % u64 ≡ cycle_time nanos * 2 ^ 15
    fits = omega arith

    regroup : cycle_time nanos * 2 ^ 15 + node_id * 4096 ≡ (cycle_time nanos * 8 + node_id) * 2 ^ 12
    regroup = omega arith

generated :
    (nanos node_id : ℕ) (p : Partition) {id time : ℕ} {q : Partition}
    → generate_next_msg_id nanos node_id p ≡ (ok (id, time), q)
    → (guble_epoch ≤ nanos)
      × (id ≡ compose_id nanos node_id p.sequence_number)
      × (q.sequence_number ≡ (p.sequence_number + 1) % u64)
unfolding generate_next_msg_id
generated nanos node_id p g = (ground arith, ground arith, ground arith)

-- Two ids of one node, the second generated directly after the first with a clock that has not
-- gone back: where both clock readings lie in one cycle of 2^49 ns, and while the sequence number
-- has twelve bits, the second id is greater.
pub generate_ascends :
    (nanos later node_id : ℕ) (p : Partition) {first second time time' : ℕ} {q r : Partition}
    → generate_next_msg_id nanos node_id p ≡ (ok (first, time), q)
    → generate_next_msg_id later node_id q ≡ (ok (second, time'), r)
    → nanos ≤ later
    → (nanos - guble_epoch) / 2 ^ 49 ≡ (later - guble_epoch) / 2 ^ 49
    → node_id < 8
    → p.sequence_number + 1 < 4096
    → first < second
generate_ascends nanos later node_id p {first} {second} {q = q} g k le h n s =
    let a = generated nanos node_id p g in
    let b = generated later node_id q k in
    let f = compose_id_fields nanos node_id p.sequence_number n (omega arith) in
    let l = compose_id_fields later node_id q.sequence_number n (omega (arith, a.2)) in
    omega (arith, h, a.0, a.1, b.1, a.2, f, l)

-- An id repeats after 2^49 ns, about six and a half days: with the clock that much later, the same
-- node id and sequence number give the same id.
pub compose_id_repeats :
    (nanos node_id sequence : ℕ)
    → guble_epoch ≤ nanos
    → compose_id (nanos + 2 ^ 49) node_id sequence ≡ compose_id nanos node_id sequence
unfolding compose_id
compose_id_repeats nanos node_id sequence e =
    ap (λ t. bit_or (bit_or t (node_id * 4096)) sequence) wraps
  where
    wraps : (nanos + 2 ^ 49 - guble_epoch) * 2 ^ 15 % u64 ≡ (nanos - guble_epoch) * 2 ^ 15 % u64
    wraps = omega arith
