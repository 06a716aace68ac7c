-- ===== src/Store/MessageId.antt =====
-- generateNextMsgID of server/store/filestore/message_partition.go. The reading of the clock, in
-- nanoseconds since 1970, is an argument. Words are uint64.
pub mod Fields
mod Examples
use Prim.Native.Nat.{bit_or}
use guble.Prelude.{ℕ, ◌+◌, ◌-◌, ◌*◌, ◌/◌, ◌%◌, ◌^◌, ltb, if◌then◌else◌}
use guble.Store.Partition.{Partition, Result, ok, err, clock_backwards}

abbrev pub guble_epoch : ℕ
guble_epoch = 1467714505012

abbrev pub u64 : ℕ
u64 = 2 ^ 64

-- uint64(nanoTimestamp-gubleEpoch) << 15 | uint64(nodeID) << 12 | sequenceNumber
unfoldable pub compose_id : ℕ → ℕ → ℕ → ℕ
compose_id nanos node_id sequence =
    bit_or (bit_or ((nanos - guble_epoch) * 2 ^ 15 % u64) (node_id * 2 ^ 12)) sequence

-- The id, and the time in seconds.
unfoldable pub generate_next_msg_id : ℕ → ℕ → Partition → Result (ℕ × ℕ) × Partition
generate_next_msg_id nanos node_id p = if ltb nanos guble_epoch then (err clock_backwards, p) else (
  ok (compose_id nanos node_id p.sequence_number, nanos / 1000000000),
  record p { sequence_number = (p.sequence_number + 1) % u64 },
)
