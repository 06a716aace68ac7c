-- ===== src/Router/Entry/Examples.antt =====
-- A router with an empty store.
use mathlib.Core.Path.{subst}
use guble.Prelude.{◌≡◌, Bytes, bytes_comparable, codes, find, [], none, Bool, true, false}
use guble.Protocol.Decimal.{pos}
use guble.Protocol.Message.{Message, Json}
use guble.Store.Partition.{Partition, Result, ok, err, Faults, new_partition}
use guble.Store.Partition.Stored.{Inv, new_partition-Inv}
use guble.Store.MessageStore.{FileMessageStore, store_message}
use guble.Router.Entry.{AccessType, Router, handle_message}
use guble.Router.Entry.Incoming.{Routed, handle_message-Routed}

abbrev allow_all : AccessType → Bytes → Bytes → Bool
allow_all access user path = true

abbrev open_new : Bytes → Result Partition
open_new name = ok new_partition

abbrev no_faults : Faults
no_faults call = false

abbrev no_json : Json
no_json = record { marshal = λ m. []; unmarshal = λ s. none }

abbrev router : Router FileMessageStore
router = record {
  is_stopping = false;
  cluster = none;
  message_store = record { partitions = [] };
  handle_c = [];
  broadcasts = [];
}

abbrev hello : Message
hello = record {
  id = 0;
  path = codes "/a";
  user_id = [];
  application_id = [];
  filters = none;
  time = pos 0;
  header_json = [];
  body = codes "x";
  node_id = 0;
}

handle_message-Routed_example : Routed no_json 1480000000000000000 0 hello true router (
    handle_message allow_all
      (store_message open_new no_json 10000 no_faults 1480000000000000000)
      hello
      router)
unfolding find
handle_message-Routed_example =
    handle_message-Routed allow_all open_new no_json 10000 no_faults 1480000000000000000 hello
      router fresh (record { each = λ name p e. absurd cc })
  where
    fresh : (name : Bytes) (p : Partition) → open_new name ≡ ok p → Inv p
    fresh name p e = subst of e new_partition-Inv
      where
        of : Result Partition → Type 0
        of (ok q) = Inv q
        of (err f) = Unit
