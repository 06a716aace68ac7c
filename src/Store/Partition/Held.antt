-- ===== src/Store/Partition/Held.antt =====
-- What the index files of a partition hold, and what a write to one of them changes.
use mathlib.Core.Path.{subst}
use guble.Prelude.{
  ℕ, ◌+◌, ◌-◌, ◌*◌, ◌≤◌, ◌<◌, ◌⊎◌, ◌≡◌, refl, ap, sym, ◌∙◌, ℕ_comparable, nat_eq_iff, Bytes, Dict,
  find, put, find-put, some, List, [], ◌∷◌, ◌++◌, length, inr, arith,
}
use guble.Store.Index.{Index}
use guble.Store.Codec.{encode_entry, read_at, write_at}
use guble.Store.Codec.RoundTrip.{length-encode_entry}
use guble.Store.Codec.Files.{read_at-write_at_self, read_at-write_at_before, length-write_at}
use guble.Store.Partition.{CacheEntry, contents}
use guble.Store.Partition.Fetching.Restart.{Fits, Entries, IsFullFile, FullFiles}

-- The bytes of an entry.
abbrev pub bytes_of : Index → Bytes
bytes_of e = encode_entry e.id e.offset e.size

-- The file, which may be missing if the list is empty, has the entries of the list and nothing else.
abbrev pub HeldAt : Dict ℕ Bytes → ℕ → List Index → Type 0
HeldAt files n es = (length (contents files n) ≡ 20 * length es) × Entries n (contents files n) 0 es

Entries-write_at :
    (n : ℕ) (file : Bytes) (i : ℕ) (es : List Index) (k : ℕ) (e : Index)
    → Entries n file i es
    → i + length es ≤ k
    → 20 * k ≤ length file
    → Entries n (write_at file (20 * k) (bytes_of e)) i es
Entries-write_at n file i [] k e h l s = tt
Entries-write_at n file i (x ∷ es) k e (r, (f, h)) l s = (
  read_at-write_at_before file (bytes_of e) (20 * k) (i * 20) 20 s (omega arith) r,
  (f, Entries-write_at n file (i + 1) es k e h (omega arith) s),
)

Entries-append :
    (n : ℕ) (file : Bytes) (i : ℕ) (es : List Index) (e : Index)
    → Entries n file i es
    → read_at file ((i + length es) * 20) 20 ≡ some (bytes_of e)
    → Fits n e
    → Entries n file i (es ++ e ∷ [])
Entries-append n file i [] e h r f = (ap (λ k. read_at file (k * 20) 20) (omega arith) ∙ r, (f, tt))
Entries-append n file i (x ∷ es) e (q, (g, h)) r f = (
  q,
  (
    g,
    Entries-append n file (i + 1) es e h (ap (λ k. read_at file (k * 20) 20) (omega arith) ∙ r) f,
  ),
)

-- An entry that is written behind the first ones follows them.
pub Entries-written :
    (n : ℕ) (file : Bytes) (es : List Index) (e : Index)
    → Entries n file 0 es
    → 20 * length es ≤ length file
    → Fits n e
    → Entries n (write_at file (20 * length es) (bytes_of e)) 0 (es ++ e ∷ [])
Entries-written n file es e h s f =
    Entries-append n (write_at file (20 * length es) (bytes_of e)) 0 es e
      (Entries-write_at n file 0 es (length es) e h (omega arith) s)
      (ap (λ k. read_at (write_at file (20 * length es) (bytes_of e)) k 20) (omega arith)
        ∙ ap (read_at (write_at file (20 * length es) (bytes_of e)) (20 * length es))
            (sym (length-encode_entry e.id e.offset e.size))
        ∙ read_at-write_at_self file (bytes_of e) (20 * length es))
      f

pub length-written :
    (file : Bytes) (k : ℕ) (e : Index)
    → length (write_at file (20 * k) (bytes_of e)) ≡ 20 * k + 20 + (length file - (20 * k + 20))
length-written file k e =
    omega
      (arith, length-write_at file (bytes_of e) (20 * k), length-encode_entry e.id e.offset e.size)

-- A file that is put is found, and others are as before.
pub find-put_self :
    (files : Dict ℕ Bytes) (n : ℕ) (file : Bytes) → find (put files n file) n ≡ some file
find-put_self files n file = ground (arith, find-put files n file n, nat_eq_iff n n)

pub find-put_other :
    (files : Dict ℕ Bytes) (n m : ℕ) (file : Bytes)
    → n < m ⊎ m < n
    → find (put files n file) m ≡ find files m
find-put_other files n m file h = ground (arith, find-put files n file m, nat_eq_iff n m)

pub contents-put_self :
    (files : Dict ℕ Bytes) (n : ℕ) (file : Bytes) → contents (put files n file) n ≡ file
contents-put_self files n file = rw (contents, find-put_self files n file) refl

-- Full files are not changed by a write to a later one.
pub FullFiles-put :
    (files : Dict ℕ Bytes) (n : ℕ) (cache : List CacheEntry) (m : ℕ) (file : Bytes)
    → n + length cache ≤ m
    → FullFiles files n cache
    → FullFiles (put files m file) n cache
FullFiles-put files n [] m file h f = tt
FullFiles-put files n (c ∷ cache) m file h (f, fs) = (
  record {
    first = f.first;
    more = f.more;
    index_file = record {
      file = f.index_file.file;
      found = find-put_other files m n file (inr (omega arith)) ∙ f.index_file.found;
      size = f.index_file.size;
      entries = f.index_file.entries;
    };
    min = f.min;
    max = f.max;
  },
  FullFiles-put files (n + 1) cache m file (omega arith) fs,
)

pub FullFiles-append :
    (files : Dict ℕ Bytes) (n : ℕ) (cache : List CacheEntry) (c : CacheEntry)
    → FullFiles files n cache
    → IsFullFile files (n + length cache) c
    → FullFiles files n (cache ++ c ∷ [])
FullFiles-append files n [] c f g = (subst (λ k. IsFullFile files k c) (omega arith) g, tt)
FullFiles-append files n (x ∷ cache) c (f, fs) g = (
  f,
  FullFiles-append files (n + 1) cache c fs (subst (λ k. IsFullFile files k c) (omega arith) g),
)
