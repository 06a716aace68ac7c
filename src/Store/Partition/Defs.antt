-- ===== src/Store/Partition/Defs.antt =====
-- The state of a message partition, its files, and actions on it.
use guble.Prelude.{
  ℕ, ℕ_comparable, Bytes, Dict, find, put, Option, none, some, List, [], Bool, ◌++◌, if◌then◌else◌,
}
use guble.Store.Index.{Index}

-- The file system calls of the partition; `dump_entry i` writes entry `i` of a sorted index file.
pub data IoCall : Type 0 where
  close_append close_index open_dump open_append write_magic write_version open_index : IoCall
  stat_append write_header write_data write_index stat_index open_index_read read_index : IoCall
  open_message read_message : IoCall
  dump_entry : ℕ → IoCall

-- Which calls fail, as the environment chooses. A call that fails changes nothing.
abbrev pub Faults : Type 0
Faults = IoCall → Bool

pub data Failure : Type 0 where
  io : IoCall → Failure
  nil_file nil_entry request_done clock_backwards : Failure

pub record CacheEntry : Type 0 where
  pub min : ℕ
  pub max : ℕ

-- `appendFile` and `indexFile` are the numbers of the open files; files are keyed by their number.
pub record Partition : Type 0 where
  pub append_file : Option ℕ
  pub index_file : Option ℕ
  pub append_file_position : ℕ
  pub max_message_id : ℕ
  pub sequence_number : ℕ
  pub total_number_of_messages : ℕ
  pub entries_count : ℕ
  pub list : List Index
  pub file_cache : List CacheEntry
  pub messages : Dict ℕ Bytes
  pub indexes : Dict ℕ Bytes

pub data Result {ℓ} (A : Type ℓ) : Type ℓ where
  ok : A → Result A
  err : Failure → Result A

-- What was written before a failure stays written.
abbrev pub Action : Type 0 → Type 0
Action A = Partition → Result A × Partition

abbrev continue : {A B : Type 0} → Result A → (A → Action B) → Action B
continue (ok a) next p = next a p
continue (err e) next p = (err e, p)

unfoldable pub pure : {A : Type 0} → A → Action A
pure a p = (ok a, p)

unfoldable pub fail : {A : Type 0} → Failure → Action A
fail e p = (err e, p)

unfoldable pub modify : (Partition → Partition) → Action Unit
modify f p = (ok tt, f p)

unfoldable pub get : Action Partition
get p = (ok p, p)

-- A call that the environment may let fail.
unfoldable pub attempt : Faults → IoCall → Action Unit
attempt faults call p = if faults call then (err (io call), p) else (ok tt, p)

infixl 5 ◌>>=◌ ◌>>◌
-- Opening this opens the actions above too.
unfoldable pub ◌>>=◌ : {A B : Type 0} → Action A → (A → Action B) → Action B
unfolding pure fail modify get attempt
◌>>=◌ action next p = let (r, p') = action p in continue r next p'

abbrev pub ◌>>◌ : {B : Type 0} → Action Unit → Action B → Action B
action >> next = action >>= λ _. next

-- The contents of a file; a file that is not there reads as empty where it is created.
abbrev pub contents : Dict ℕ Bytes → ℕ → Bytes
contents files n = elim (find files n) [ none ↦ [] | some bytes ↦ bytes ]

abbrev pub append_to : Dict ℕ Bytes → ℕ → Bytes → Dict ℕ Bytes
append_to files n bytes = put files n (contents files n ++ bytes)
