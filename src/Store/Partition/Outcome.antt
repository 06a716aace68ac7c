-- ===== src/Store/Partition/Outcome.antt =====
-- Postconditions of actions: one for a normal return, one for a failure.
use guble.Prelude.{
  ℕ, ◌+◌, Bytes, Dict, Option, none, some, List, [], ◌∷◌, Bool, true, false, if◌then◌else◌, leb,
}
use guble.Store.Index.{Index}
use guble.Store.Partition.{
  Partition, CacheEntry, Failure, Result, ok, err, Action, Faults, IoCall, dump_entry, attempt,
  modify, pure, fail, get, ◌>>=◌, write_index_entry, dump_entries, rewrite_sorted_idx_file,
  add_to_cache, roll_over, write_index_file,
}

-- `Good` holds of what a return leaves, `Bad` of the state that a failure leaves.
abbrev pub Ensures :
    {A : Type 0} → (A → Partition → Type 0) → (Partition → Type 0) → Result A × Partition → Type 0
Ensures Good Bad (ok a, p) = Good a p
Ensures Good Bad (err e, p) = Bad p

module _ {A B : Type 0} (Good : B → Partition → Type 0) (Bad : Partition → Type 0) where
  pub Ensures-bind :
      (first : Action A) (next : A → Action B) (p : Partition)
      → Ensures (λ a q. Ensures Good Bad (next a q)) Bad (first p)
      → Ensures Good Bad ((first >>= next) p)
  unfolding ◌>>=◌
  Ensures-bind first next p h = go (first p) h
    where
      go :
          (r : Result A × Partition)
          → Ensures (λ a q. Ensures Good Bad (next a q)) Bad r
          → Ensures Good Bad (◌>>=◌ (λ _. r) next p)
      go (ok a, q) h = h
      go (err e, q) h = h

pub Ensures-attempt :
    (Good : Unit → Partition → Type 0) (Bad : Partition → Type 0) (faults : Faults) (call : IoCall)
    (p : Partition)
    → Good tt p
    → Bad p
    → Ensures Good Bad (attempt faults call p)
unfolding attempt
Ensures-attempt Good Bad faults call p g b = go (faults call)
  where
    go :
        (failed : Bool)
        → Ensures Good Bad (if failed then (err (Failure.io call), p) else (ok tt, p))
    go true = b
    go false = g

pub Ensures-imp :
    {A : Type 0} (Good Good' : A → Partition → Type 0) (Bad Bad' : Partition → Type 0)
    → ((a : A) (p : Partition) → Good a p → Good' a p)
    → ((p : Partition) → Bad p → Bad' p)
    → (r : Result A × Partition) → Ensures Good Bad r
    → Ensures Good' Bad' r
Ensures-imp Good Good' Bad Bad' f g (ok a, p) h = f a p h
Ensures-imp Good Good' Bad Bad' f g (err e, p) h = g p h

pub Ensures-both :
    {A : Type 0} (P : Partition → Type 0) (r : Result A × Partition)
    → Ensures (λ a q. P q) P r
    → P r.1
Ensures-both P (ok a, q) h = h
Ensures-both P (err e, q) h = h

-- However the action ends, it keeps the property.
pub record Keeps (P : Partition → Type 0) {A : Type 0} (action : Action A) : Type 0 where
  pub at : (p : Partition) → P p → Ensures (λ a q. P q) P (action p)

module _ {P : Partition → Type 0} where
  pub Keeps-bind :
      {A B : Type 0} {first : Action A} {next : A → Action B}
      → Keeps P first
      → ((a : A) → Keeps P (next a))
      → Keeps P (first >>= next)
  Keeps-bind {first = first} {next = next} h k = record {
    at = λ p v.
        Ensures-bind (λ b q. P q) P first next p
          (Ensures-imp (λ a q. P q) _ P P (λ a q w. (k a).at q w) (λ q w. w) (first p) (h.at p v));
  }

  pub Keeps-pure : {A : Type 0} (a : A) → Keeps P (pure a)
  unfolding pure
  Keeps-pure a = record { at = λ p v. v }

  pub Keeps-fail : {A : Type 0} (e : Failure) → Keeps P (fail {A = A} e)
  unfolding fail
  Keeps-fail e = record { at = λ p v. v }

  pub Keeps-get : Keeps P get
  unfolding get
  Keeps-get = record { at = λ p v. v }

  pub Keeps-attempt : (faults : Faults) (call : IoCall) → Keeps P (attempt faults call)
  Keeps-attempt faults call = record {
    at = λ p v. Ensures-attempt (λ a q. P q) P faults call p v v;
  }

  pub Keeps-modify :
      (f : Partition → Partition) → ((p : Partition) → P p → P (f p)) → Keeps P (modify f)
  unfolding modify
  Keeps-modify f h = record { at = h }

  pub Keeps-if :
      {A : Type 0} {m n : Action A} (b : Bool)
      → Keeps P m
      → Keeps P n
      → Keeps P (if b then m else n)
  Keeps-if true h k = h
  Keeps-if false h k = k

pub ruleset keeps_rules = (Keeps-bind, Keeps-pure, Keeps-fail, Keeps-get, Keeps-attempt, Keeps-if)

-- A property that looks neither at the index files nor at the list and the cache.
pub record Indifferent (P : Partition → Type 0) : Type 0 where
  pub indexes : (p : Partition) (files : Dict ℕ Bytes) → P p → P (record p { indexes = files })
  pub rolled :
      (p : Partition) (cache : List CacheEntry)
      → P p
      → P (record p { file_cache = cache; list = []; entries_count = 0 })

module _ {P : Partition → Type 0} (faults : Faults)
    (free : (p : Partition) (files : Dict ℕ Bytes) → P p → P (record p { indexes = files })) where
  pub write_index_entry-Keeps :
      (call : IoCall) (file : ℕ) (e : Index) (pos : ℕ)
      → Keeps P (write_index_entry faults call file e pos)
  unfolding write_index_entry
  write_index_entry-Keeps call file e pos =
      Keeps-bind (Keeps-attempt faults call) (λ _. Keeps-modify _ (λ p. free p _))

  pub write_index_file-Keeps :
      (e : Index) (pos : ℕ) (n : Option ℕ) → Keeps P (write_index_file faults e pos n)
  unfolding write_index_file
  write_index_file-Keeps e pos none = Keeps-fail _
  write_index_file-Keeps e pos (some n) = write_index_entry-Keeps _ n e pos

module _ {P : Partition → Type 0} (faults : Faults) (free : Indifferent P) where
  dump_entries-Keeps :
      (file last_id i : ℕ) (items : List Index) → Keeps P (dump_entries faults file last_id i items)
  unfolding dump_entries
  dump_entries-Keeps file last_id i [] = Keeps-pure tt
  dump_entries-Keeps file last_id i (item ∷ items) =
      let rest = dump_entries-Keeps file item.id (i + 1) items in
      Keeps-if (leb item.id last_id) (Keeps-pure tt) (
        Keeps-bind (write_index_entry-Keeps faults free.indexes (dump_entry i) file item i)
          (λ _. rest))

  rewrite_sorted_idx_file-Keeps : (file : ℕ) → Keeps P (rewrite_sorted_idx_file faults file)
  unfolding rewrite_sorted_idx_file
  rewrite_sorted_idx_file-Keeps file = Keeps-bind (Keeps-attempt faults _) λ _.
      Keeps-bind (Keeps-modify _ (λ p. free.indexes p _))
        λ _. Keeps-bind Keeps-get λ p. dump_entries-Keeps file 0 0 p.list

  add_to_cache-Keeps : (first last : Option Index) → Keeps P (add_to_cache first last)
  unfolding add_to_cache
  add_to_cache-Keeps (some first) (some last) = Keeps-modify _ (λ p. free.rolled p _)
  add_to_cache-Keeps (some first) none = Keeps-fail _
  add_to_cache-Keeps none last = Keeps-fail _

  pub roll_over-Keeps : Keeps P (roll_over faults)
  unfolding roll_over
  roll_over-Keeps = search (keeps_rules, rewrite_sorted_idx_file-Keeps, add_to_cache-Keeps)
