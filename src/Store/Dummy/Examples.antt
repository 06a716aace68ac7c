-- ===== src/Store/Dummy/Examples.antt =====
-- The dummy store on the key-value store in memory.
use guble.Prelude.{◌≡◌, refl, Bytes, codes, find, put, List, [], ◌∷◌, none, arith, bytes_eq}
use guble.KvStore.{new_memory_kv_store, get_value, get_schema}
use guble.KvStore.Memory.{memory_kv_store, memory_kv_store-IsLawful}
use guble.Protocol.Decimal.{pos}
use guble.Protocol.Message.{Message, Json}
use guble.Store.Dummy.{
  done, stored_sequence, new_store, DummyMessageStore, max_message_id, generate_next_msg_id, set_id,
  sync_round,
}
use guble.Store.Dummy.Sequence.{Call, generate, ask}
use guble.Store.Dummy.Saved.{starting, here, next, generated, restart-sync_round}

abbrev fresh : DummyMessageStore memory_kv_store
fresh = new_store memory_kv_store new_memory_kv_store

fresh_max : (name : Bytes) → (max_message_id memory_kv_store name fresh).0 ≡ done 0
unfolding max_message_id set_id get_value get_schema find stored_sequence
fresh_max name = refl

calls : List Call
calls =
    generate (codes "foo")
    ∷ ask (codes "bar")
    ∷ generate (codes "bar")
    ∷ generate (codes "foo")
    ∷ []

hello : Message
hello = record {
  id = 0;
  path = codes "/foo/a";
  user_id = [];
  application_id = [];
  filters = none;
  time = pos 0;
  header_json = [];
  body = codes "x";
  node_id = 0;
}

no_json : Json
no_json = record { marshal = λ m. []; unmarshal = λ s. none }

-- The id 1 was given and stored, and 0 is stored then: the next id is 1 again.
one_given : DummyMessageStore memory_kv_store
one_given = (generate_next_msg_id memory_kv_store (codes "foo") fresh).1

restart-sync_round_example :
    (max_message_id memory_kv_store (codes "foo") (
      new_store memory_kv_store
        (sync_round memory_kv_store
          (record { dms = one_given; last_sync_values = [] })).dms.kv_store)).0
    ≡ done 1
unfolding one_given generate_next_msg_id max_message_id set_id get_value get_schema find put
    stored_sequence bytes_eq
restart-sync_round_example =
    restart-sync_round memory_kv_store memory_kv_store-IsLawful (λ kv schema key value. refl)
      (next here (generated (codes "foo") (starting memory_kv_store new_memory_kv_store)))
      (codes "foo") 1 refl (omega arith) (omega arith)
