-- ===== src/Protocol/Split.antt =====
-- strings.SplitN and strings.Split at a separator of one byte, and Path.Partition (protocol/path.go).
use guble.Prelude.{
  ℕ, zero, suc, ◌≡◌, refl, ap, ◌∙◌, Bytes, List, [], ◌∷◌, ◌++◌, Option, none, some, nat_eq,
  nat_eq_iff, if◌then◌else◌, arith, length, All, All-append, length-append, ◌≤◌, Lacks, Bool-cases,
  inl, inr, ◌⊎◌,
}

abbrev pub comma : ℕ
comma = 44

abbrev pub newline : ℕ
newline = 10

abbrev pub space : ℕ
space = 32

abbrev pub slash : ℕ
slash = 47

-- What stands in front of the first separator, and what stands behind it.
pub break_at : ℕ → Bytes → Bytes × Option Bytes
break_at sep [] = ([], none)
break_at sep (b ∷ s) =
    let r = break_at sep s in if nat_eq b sep then ([], some s) else (b ∷ r.0, r.1)

-- The parts after at most this many cuts.
unfoldable pub split_cuts : ℕ → ℕ → Bytes → List Bytes
unfolding break_at
split_cuts zero sep s = s ∷ []
split_cuts (suc cuts) sep s =
    let (before, after) = break_at sep s in
    elim after [ none ↦ before ∷ [] | some rest ↦ before ∷ split_cuts cuts sep rest ]

-- strings.SplitN(s, sep, n), for a positive n
abbrev pub split_n : ℕ → Bytes → ℕ → List Bytes
split_n sep s zero = []
split_n sep s (suc n) = split_cuts n sep s

-- strings.Split(s, sep): a string has no more separators than bytes
abbrev pub split : ℕ → Bytes → List Bytes
split sep s = split_cuts (length s) sep s

pub break_at-first :
    (sep : ℕ) (before rest : Bytes)
    → Lacks sep before
    → break_at sep (before ++ (sep ∷ rest)) ≡ (before, some rest)
unfolding break_at
break_at-first sep [] rest h = ground arith
break_at-first sep (b ∷ before) rest h = ground (arith, break_at-first sep before rest h.1, h.0)

break_at-absent : (sep : ℕ) (s : Bytes) → Lacks sep s → break_at sep s ≡ (s, none)
unfolding break_at
break_at-absent sep [] h = refl
break_at-absent sep (b ∷ s) h = ground (arith, break_at-absent sep s h.1, h.0)

abbrev cut_with : ℕ → ℕ → Bytes × Option Bytes → List Bytes
cut_with cuts sep (before, none) = before ∷ []
cut_with cuts sep (before, some rest) = before ∷ split_cuts cuts sep rest

pub split_cuts-first :
    (cuts sep : ℕ) (before rest : Bytes)
    → Lacks sep before
    → split_cuts (suc cuts) sep (before ++ (sep ∷ rest)) ≡ before ∷ split_cuts cuts sep rest
unfolding split_cuts
split_cuts-first cuts sep before rest h = ap (cut_with cuts sep) (break_at-first sep before rest h)

pub split_cuts-absent : (cuts sep : ℕ) (s : Bytes) → Lacks sep s → split_cuts cuts sep s ≡ s ∷ []
unfolding split_cuts
split_cuts-absent zero sep s h = refl
split_cuts-absent (suc cuts) sep s h = ap (cut_with cuts sep) (break_at-absent sep s h)

-- The parts, each with no separator but the last, put together again.
unfoldable pub join : ℕ → List Bytes → Bytes
join sep [] = []
join sep (part ∷ []) = part
join sep (part ∷ next ∷ parts) = part ++ (sep ∷ join sep (next ∷ parts))

-- RemovePrefixSlash, which Partition does too
pub without_slash : Bytes → Bytes
without_slash [] = []
without_slash (b ∷ path) = if nat_eq b slash then path else b ∷ path

-- SplitN gives at least one part.
unfoldable pub partition : Bytes → Bytes
unfolding break_at without_slash
partition path = (break_at slash (without_slash path)).0

break_at-prefix :
    (sep : ℕ) (s : Bytes)
    → Lacks sep (break_at sep s).0
      × ((s ≡ (break_at sep s).0) ⊎ ((rest : Bytes) × (s ≡ (break_at sep s).0 ++ (sep ∷ rest))))
unfolding break_at
break_at-prefix sep [] = (tt, inl refl)
break_at-prefix sep (b ∷ s) = elim (Bool-cases (nat_eq b sep)) [
  | inl t ↦ rw t (tt, inr (s, ap (λ c. c ∷ s) ((nat_eq_iff b sep).0 t)))
  | inr f ↦
      let (lacks, whole) = break_at-prefix sep s in rw f ((λ e. ground arith, lacks), later whole)
]
  where
    later :
        (s ≡ (break_at sep s).0) ⊎ ((rest : Bytes) × (s ≡ (break_at sep s).0 ++ (sep ∷ rest)))
        → (b ∷ s ≡ b ∷ (break_at sep s).0)
          ⊎ ((rest : Bytes) × (b ∷ s ≡ (b ∷ (break_at sep s).0) ++ (sep ∷ rest)))
    later (inl e) = inl (ap (◌∷◌ b) e)
    later (inr (rest, e)) = inr (rest, ap (◌∷◌ b) e)

-- The partition of a path, behind a slash that it may start with, has no slash, and it is the whole
-- rest or is followed by a slash.
pub partition-first :
    (path : Bytes)
    → Lacks slash (partition path)
      × ((without_slash path ≡ partition path)
          ⊎ ((rest : Bytes) × (without_slash path ≡ partition path ++ (slash ∷ rest))))
unfolding partition
partition-first path = break_at-prefix slash (without_slash path)

length-join : (sep : ℕ) (parts : List Bytes) → length parts ≤ suc (length (join sep parts))
unfolding join
length-join sep [] = omega arith
length-join sep (part ∷ []) = omega arith
length-join sep (part ∷ next ∷ parts) =
    omega
      (arith, length-join sep (next ∷ parts), length-append part (sep ∷ join sep (next ∷ parts)))

split_cuts-join :
    (cuts sep : ℕ) (part : Bytes) (parts : List Bytes)
    → All (Lacks sep) (part ∷ parts)
    → length parts ≤ cuts
    → split_cuts cuts sep (join sep (part ∷ parts)) ≡ part ∷ parts
unfolding join
split_cuts-join cuts sep part [] h k = split_cuts-absent cuts sep part h.0
split_cuts-join zero sep part (next ∷ parts) h k = absurd (omega arith)
split_cuts-join (suc cuts) sep part (next ∷ parts) h k =
    split_cuts-first cuts sep part (join sep (next ∷ parts)) h.0
    ∙ ap (◌∷◌ part) (split_cuts-join cuts sep next parts h.1 (omega arith))

-- Splitting what was joined gives the parts, where none has the separator.
pub split-join :
    (sep : ℕ) (part : Bytes) (parts : List Bytes)
    → All (Lacks sep) (part ∷ parts)
    → split sep (join sep (part ∷ parts)) ≡ part ∷ parts
split-join sep part parts h =
    split_cuts-join (length (join sep (part ∷ parts))) sep part parts h
      (omega (arith, length-join sep (part ∷ parts)))

-- What joined parts are made of.
pub join-All :
    (P : ℕ → Type 0) (sep : ℕ) (parts : List Bytes)
    → P sep
    → All (All P) parts
    → All P (join sep parts)
unfolding join
join-All P sep [] p h = tt
join-All P sep (part ∷ []) p h = h.0
join-All P sep (part ∷ next ∷ parts) p h =
    All-append P part (sep ∷ join sep (next ∷ parts)) h.0 (p, join-All P sep (next ∷ parts) p h.1)
