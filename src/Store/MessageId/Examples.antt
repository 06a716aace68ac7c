-- ===== src/Store/MessageId/Examples.antt =====
-- Message ids at concrete clock readings.
use guble.Prelude.{ℕ, ◌≡◌, refl}
use guble.Store.Partition.{new_partition, err, clock_backwards}
use guble.Store.MessageId.{generate_next_msg_id}

abbrev now : ℕ
now = 1480000000000000000

clock_is_behind : (generate_next_msg_id 5 1 new_partition).0 ≡ err clock_backwards
unfolding generate_next_msg_id
clock_is_behind = refl
