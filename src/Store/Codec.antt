-- ===== src/Store/Codec.antt =====
-- The byte layouts of server/store/filestore/message_partition.go: little-endian words
-- (encoding/binary), the 20-byte index entry, and the 12 bytes in front of a message.
pub mod RoundTrip
pub mod Files
mod Examples
use guble.Prelude.{
  ℕ, zero, suc, ◌+◌, ◌*◌, ◌/◌, ◌%◌, Bytes, [], ◌∷◌, ◌++◌, Option, none, some, take, drop, length,
  leb, if◌then◌else◌,
}

-- binary.LittleEndian.PutUint…, for a word of `width` bytes; what does not fit is cut off.
unfoldable pub put_uint : ℕ → ℕ → Bytes
put_uint zero value = []
put_uint (suc width) value = (value % 256) ∷ put_uint width (value / 256)

-- binary.LittleEndian.Uint…
unfoldable pub uint : Bytes → ℕ
uint [] = 0
uint (b ∷ bytes) = b + 256 * uint bytes

abbrev pub index_entry_size : ℕ
index_entry_size = 20

-- The buffer of writeIndexEntry.
unfoldable pub encode_entry : ℕ → ℕ → ℕ → Bytes
encode_entry id offset size = put_uint 8 id ++ (put_uint 8 offset ++ put_uint 4 size)

-- What readIndexEntry returns: the id, the offset and the size.
pub record Entry : Type 0 where
  pub id : ℕ
  pub offset : ℕ
  pub size : ℕ

unfoldable pub decode_entry : Bytes → Entry
decode_entry buffer = record {
  id = uint (take 8 buffer);
  offset = uint (take 8 (drop 8 buffer));
  size = uint (take 4 (drop 16 buffer));
}

-- `sizeAndID` of store.
unfoldable pub size_and_id : ℕ → Bytes → Bytes
size_and_id id data' = put_uint 4 (length data') ++ put_uint 8 id

-- file.ReadAt with a buffer of `size` bytes: `none` where the file ends before it is full.
unfoldable pub read_at : Bytes → ℕ → ℕ → Option Bytes
read_at file position size =
    if leb (position + size) (length file) then some (take size (drop position file)) else none

-- A prefix of `n` bytes, filled with zeros where the file is shorter.
unfoldable pub padded : ℕ → Bytes → Bytes
padded zero file = []
padded (suc n) [] = 0 ∷ padded n []
padded (suc n) (b ∷ file) = b ∷ padded n file

-- w.WriteAt
unfoldable pub write_at : Bytes → ℕ → Bytes → Bytes
unfolding padded
write_at file position new = padded position file ++ new ++ drop (position + length new) file
