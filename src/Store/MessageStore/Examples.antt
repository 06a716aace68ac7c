-- ===== src/Store/MessageStore/Examples.antt =====
-- A store with no partition yet.
use guble.Prelude.{◌≡◌, Bytes, codes, [], none, false, find, bytes_comparable}
use mathlib.Core.Path.{subst}
use guble.Protocol.Decimal.{pos}
use guble.Protocol.Message.{Message, Json}
use guble.Store.Partition.{Partition, Result, ok, err, Faults, new_partition}
use guble.Store.Partition.Stored.{Inv, new_partition-Inv}
use guble.Store.MessageStore.{FileMessageStore, store_message}
use guble.Store.MessageStore.Storing.{AllInv, StampedIn, store_message-StampedIn}

abbrev open_new : Bytes → Result Partition
open_new name = ok new_partition

abbrev no_faults : Faults
no_faults call = false

abbrev no_json : Json
no_json = record { marshal = λ m. []; unmarshal = λ s. none }

abbrev empty_store : FileMessageStore
empty_store = record { partitions = [] }

abbrev hello : Message
hello = record {
  id = 0;
  path = codes "/a";
  user_id = [];
  application_id = [];
  filters = none;
  time = pos 0;
  header_json = [];
  body = codes "x";
  node_id = 0;
}

store_message-StampedIn_example :
    StampedIn no_json 1480000000000000000 0 0 hello
      (store_message open_new no_json 10000 no_faults 1480000000000000000 hello 0 empty_store)
unfolding find
store_message-StampedIn_example =
    store_message-StampedIn open_new fresh no_json 10000 no_faults 1480000000000000000 0 hello
      empty_store nothing
  where
    fresh : (name : Bytes) (p : Partition) → open_new name ≡ ok p → Inv p
    fresh name p e = subst of e new_partition-Inv
      where
        of : Result Partition → Type 0
        of (ok q) = Inv q
        of (err f) = Unit

    nothing : AllInv empty_store
    nothing = record { each = λ name p e. absurd cc }
