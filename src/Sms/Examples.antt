-- ===== src/Sms/Examples.antt =====
-- A gateway on the store in memory that sends two messages and fails with the third, and one that has
-- sent nothing before.
use guble.Prelude.{
  ℕ, zero, suc, true, ◌≡◌, refl, Bytes, bytes_comparable, bytes_eq, codes, find, put, List, [], ◌∷◌,
  none, some, inl, arith, Option,
}
use guble.KvStore.{new_memory_kv_store, get_schema, get_value, put_value}
use guble.KvStore.Memory.{memory_kv_store, memory_kv_store-IsLawful}
use guble.Sms.{
  sms_schema, ProxyEvent, received, not_sent, Gateway, proxy_loop, set_last_sent_id, send,
  read_last_id, fetch_request,
}
use guble.Sms.Remembered.{IsRemembered}
use guble.Sms.Nexmo.{SmsError, no_sms_sent, incomplete_sms_sent}
use guble.Sms.Running.{retries, retry, restarted, restart, after_loop, run_gateway}
use guble.Sms.Running.Continuing.{fetch_behind, last_put, run_gateway-continues}
use guble.Sms.Running.Resending.{FetchesUpTo, run_gateway-resends}

-- A number as one byte stands for its JSON.
abbrev marshal : ℕ → Bytes
marshal id = id ∷ []

abbrev unmarshal : Bytes → Option ℕ
unmarshal [] = none
unmarshal (id ∷ more) = some id

unfoldable gateway : Gateway memory_kv_store marshal unmarshal
gateway = record { topic = codes "/sms"; last_id_sent = 0; kv_store = new_memory_kv_store }

abbrev events : List (ProxyEvent SmsError)
events = received 4 none ∷ received 7 none ∷ received 8 (some no_sms_sent) ∷ []

-- The gateway has sent the third message before.
unfoldable stored : Gateway memory_kv_store marshal unmarshal
stored = record {
  topic = codes "/sms";
  last_id_sent = 3;
  kv_store = put_value new_memory_kv_store sms_schema (codes "/sms") (marshal 3);
}

three_is_stored : IsRemembered memory_kv_store marshal unmarshal stored
unfolding stored get_value put_value get_schema find put bytes_eq
three_is_stored = inl refl

three_events :
    (proxy_loop memory_kv_store marshal unmarshal events stored).0 ≡ not_sent 8 no_sms_sent
unfolding proxy_loop
three_events = refl

abbrev no_success : ℕ → Option SmsError
no_success n = some no_sms_sent

-- The third message was sent in part, and the second retry succeeds.
abbrev in_part : List (ProxyEvent SmsError)
in_part = received 4 none ∷ received 7 none ∷ received 8 (some incomplete_sms_sent) ∷ []

abbrev second_succeeds : ℕ → Option SmsError
second_succeeds zero = some incomplete_sms_sent
second_succeeds (suc n) = none

run_gateway-continues_example :
    ((run_gateway memory_kv_store marshal unmarshal in_part none second_succeeds stored).0
      ≡ restarted (
          fetch_behind
            (codes "/sms")
            (last_put memory_kv_store marshal unmarshal
              (codes "/sms")
              in_part
              (3, stored.kv_store)).0))
    × ((retry memory_kv_store marshal unmarshal retries second_succeeds 8 stored).0 ≡ true)
unfolding proxy_loop stored
run_gateway-continues_example =
    run_gateway-continues memory_kv_store marshal unmarshal in_part second_succeeds 8 stored
      memory_kv_store-IsLawful (λ n. refl) three_is_stored refl

eight_is_last :
    (last_put memory_kv_store marshal unmarshal (codes "/sms") in_part (3, stored.kv_store)).0 ≡ 8
unfolding last_put
eight_is_last = refl

run_gateway-resends_example :
    FetchesUpTo memory_kv_store marshal unmarshal
      (codes "/sms")
      8
      (run_gateway memory_kv_store marshal unmarshal events none no_success stored).0
unfolding stored
run_gateway-resends_example =
    run_gateway-resends memory_kv_store marshal unmarshal events 8 no_sms_sent no_success stored
      memory_kv_store-IsLawful (λ n. refl) three_is_stored (omega arith)
      (omega arith, (omega arith, (omega arith, tt))) tt three_events

-- If the first message that a gateway gets cannot be sent, then the gateway restarts without a fetch.
first_is_lost :
    (run_gateway memory_kv_store marshal unmarshal
      (received 4 (some no_sms_sent) ∷ [])
      none
      no_success
      gateway).0
    ≡ restarted none
unfolding gateway run_gateway proxy_loop after_loop restart read_last_id fetch_request get_value
    get_schema find
first_is_lost = refl

seven_is_last : (proxy_loop memory_kv_store marshal unmarshal events gateway).1.last_id_sent ≡ 7
unfolding gateway proxy_loop send set_last_sent_id put_value get_schema find put bytes_eq
seven_is_last = refl
