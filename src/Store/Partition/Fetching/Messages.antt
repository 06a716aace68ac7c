-- ===== src/Store/Partition/Fetching/Messages.antt =====
-- What a fetch sends.
use guble.Prelude.{
  ℕ, ◌+◌, ◌%◌, ◌^◌, ◌<◌, ◌≡◌, refl, ap, sym, ◌∙◌, Bytes, List, [], ◌∷◌, Option, none, some, Bool,
  false, arith, Option-cases, inl, inr, find, ℕ_comparable, length,
}
use guble.Store.Index.{Index, insert_elem}
use guble.Store.Codec.{read_at}
use guble.Store.Codec.Files.{read_at-some}
use guble.Store.Partition.{Partition, ok, Faults, open_message, read_message, store}
use guble.Store.Partition.Keeps.{Readable}
use guble.Store.Partition.Stored.{Inv, store-Stored}
use guble.Store.Partition.Fetching.{read_message_at, fetch_by_fetchlist}

-- The bytes of each entry, at its place in its file; the file is there.
abbrev pub Holds : Partition → List Index → List Bytes → Type 0
Holds p [] [] = Unit
Holds p [] (b ∷ bs) = ⊥
Holds p (e ∷ es) [] = ⊥
Holds p (e ∷ es) (b ∷ bs) =
    ((file : Bytes) × (find p.messages e.file_id ≡ some file)
      × (read_at file e.offset e.size ≡ some b))
    × Holds p es bs

abbrev pub pairs : List Index → List Bytes → List (ℕ × Bytes)
pairs [] bs = []
pairs (e ∷ es) [] = []
pairs (e ∷ es) (b ∷ bs) = (e.id, b) ∷ pairs es bs

read_message_at-ok :
    (faults : Faults) (p : Partition) (e : Index) (file b : Bytes)
    → faults open_message ≡ false
    → faults read_message ≡ false
    → find p.messages e.file_id ≡ some file
    → read_at file e.offset e.size ≡ some b
    → read_message_at faults p e ≡ ok (e.id, b)
unfolding read_message_at
read_message_at-ok faults p e file b o r f h = rw (o, r, f, h)

-- Where the messages of a fetch list are readable, no call fails and the request is not done, a
-- fetch sends each message with its id, in the order of the list, and ends without an error.
pub fetch_by_fetchlist-pairs :
    (faults : Faults) (is_done : ℕ → Bool) (p : Partition) (i : ℕ) (es : List Index)
    (bs : List Bytes)
    → faults open_message ≡ false
    → faults read_message ≡ false
    → ((k : ℕ) → is_done k ≡ false)
    → Holds p es bs
    → fetch_by_fetchlist faults is_done p i es ≡ (pairs es bs, ok tt)
unfolding fetch_by_fetchlist
fetch_by_fetchlist-pairs faults is_done p i [] [] o r d h = refl
fetch_by_fetchlist-pairs faults is_done p i [] (b ∷ bs) o r d h = absurd h
fetch_by_fetchlist-pairs faults is_done p i (e ∷ es) [] o r d h = absurd h
fetch_by_fetchlist-pairs faults is_done p i (e ∷ es) (b ∷ bs) o r d h =
    let ((file, f, g), rest) = h in
    rw
      (
        d i,
        read_message_at-ok faults p e file b o r f g,
        fetch_by_fetchlist-pairs faults is_done p (i + 1) es bs o r d rest,
      )
      refl

find-contents :
    (p : Partition) (n k size : ℕ) (b : Bytes)
    → 0 < size
    → Readable p n k size b
    → (file : Bytes) × (find p.messages n ≡ some file) × (read_at file k size ≡ some b)
find-contents p n k size b pos h = elim (Option-cases (find p.messages n)) [
  | inl e ↦ absurd (omega (arith, (read_at-some [] k size (read e h)).0))
  | inr (file, e) ↦ (file, e, found e h)
]
  where
    read : find p.messages n ≡ none → Readable p n k size b → read_at [] k size ≡ some b
    read e h =
        ap (λ (o : Option Bytes). read_at (elim o [ none ↦ [] | some f ↦ f ]) k size) (sym e) ∙ h

    found :
        {file : Bytes}
        → find p.messages n ≡ some file
        → Readable p n k size b
        → read_at file k size ≡ some b
    found e h =
        ap (λ (o : Option Bytes). read_at (elim o [ none ↦ [] | some f ↦ f ]) k size) (sym e) ∙ h

-- What a store that succeeds, whatever calls failed in it, appended for a message of 1 to 2^32 - 1
-- bytes is what a later read sends: the entry in the list has the message's id, and reading at it,
-- where no call fails, gives the id and the bytes.
pub store-read :
    (per_file : ℕ) (faults reading : Faults) (id : ℕ) (bytes : Bytes) (p q : Partition)
    → Inv p
    → 0 < length bytes
    → length bytes < 2 ^ 32
    → reading open_message ≡ false
    → reading read_message ≡ false
    → store per_file faults id bytes p ≡ (ok tt, q)
    → (e : Index) × (l : List Index) × (q.list ≡ insert_elem e l)
      × (read_message_at reading q e ≡ ok (id, bytes))
store-read per_file faults reading id bytes p q v pos small o r eq =
    let s = store-Stored per_file faults id bytes p q v eq in
    let (file, f, g) =
      find-contents q s.entry.file_id s.entry.offset (length bytes) bytes pos s.readable in
    (
      s.entry,
      s.others,
      s.listed,
      read_message_at-ok reading q s.entry file bytes o r f
            (ap (read_at file s.entry.offset) (fits s.has_size) ∙ g)
          ∙ ap (λ i. ok (i, bytes)) s.has_id,
    )
  where
    fits : {n : ℕ} → n ≡ length bytes % 2 ^ 32 → n ≡ length bytes
    fits e = omega arith
