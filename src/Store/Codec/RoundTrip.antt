-- ===== src/Store/Codec/RoundTrip.antt =====
-- What is written is what is read back.
use native.Mathlib.Nat.{pow-suc}
use guble.Prelude.{
  ℕ, zero, suc, ◌/◌, ◌^◌, ◌<◌, ◌≡◌, refl, sym, ap, ◌∙◌, Bytes, [], ◌∷◌, ◌++◌, arith, take, drop,
  length, length-append, take-append, drop-append, append_assoc,
}
use guble.Store.Codec.{put_uint, uint, encode_entry, decode_entry}

pub length-put_uint : (width value : ℕ) → length (put_uint width value) ≡ width
unfolding put_uint
length-put_uint zero value = refl
length-put_uint (suc width) value = ap suc (length-put_uint width (value / 256))

-- A word that fits is read back.
pub uint-put_uint : (width value : ℕ) → value < 256 ^ width → uint (put_uint width value) ≡ value
unfolding put_uint uint
uint-put_uint zero value h = omega arith
uint-put_uint (suc width) value h =
    omega (
      arith,
      pow-suc 256 width,
      uint-put_uint width (value / 256) (omega (arith, pow-suc 256 width)),
    )

take-length : (xs : Bytes) (n : ℕ) → length xs ≡ n → take n xs ≡ xs
take-length [] zero h = refl
take-length [] (suc n) h = refl
take-length (x ∷ xs) zero h = absurd (omega arith)
take-length (x ∷ xs) (suc n) h = ap (◌∷◌ x) (take-length xs n (omega arith))

pub length-encode_entry : (id offset size : ℕ) → length (encode_entry id offset size) ≡ 20
unfolding encode_entry
length-encode_entry id offset size = omega (
  arith,
  length-append (put_uint 8 id) (put_uint 8 offset ++ put_uint 4 size),
  length-append (put_uint 8 offset) (put_uint 4 size),
  length-put_uint 8 id,
  length-put_uint 8 offset,
  length-put_uint 4 size,
)

-- An index entry whose fields fit their words is read back from its 20 bytes.
pub decode-encode :
    (id offset size : ℕ)
    → id < 2 ^ 64
    → offset < 2 ^ 64
    → size < 2 ^ 32
    → decode_entry (encode_entry id offset size) ≡ record { id = id; offset = offset; size = size }
unfolding decode_entry encode_entry
decode-encode id offset size h k l = λ i. record {
  id =
      (ap uint (
            take-append (put_uint 8 id) (put_uint 8 offset ++ put_uint 4 size) 8
              (length-put_uint 8 id))
          ∙ uint-put_uint 8 id h)
        i;
  offset =
      (ap (λ t. uint (take 8 t))
            (drop-append (put_uint 8 id) (put_uint 8 offset ++ put_uint 4 size) 8
              (length-put_uint 8 id))
          ∙ ap uint (take-append (put_uint 8 offset) (put_uint 4 size) 8 (length-put_uint 8 offset))
          ∙ uint-put_uint 8 offset k)
        i;
  size =
      (ap (λ t. uint (take 4 t)) past
          ∙ ap uint (take-length _ 4 (length-put_uint 4 size))
          ∙ uint-put_uint 4 size l)
        i;
}
  where
    past : drop 16 (put_uint 8 id ++ (put_uint 8 offset ++ put_uint 4 size)) ≡ put_uint 4 size
    past =
        ap (drop 16) (sym (append_assoc (put_uint 8 id) (put_uint 8 offset) (put_uint 4 size)))
        ∙ drop-append (put_uint 8 id ++ put_uint 8 offset) _ 16 (
            omega (
              arith,
              length-append (put_uint 8 id) (put_uint 8 offset),
              length-put_uint 8 id,
              length-put_uint 8 offset,
            ))
