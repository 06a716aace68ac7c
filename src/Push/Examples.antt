-- ===== src/Push/Examples.antt =====
-- Subscribers of one parameter, the device's token, whose key is the topic and the token, in the
-- key-value store in memory; data is written as the last id and the topic.
use guble.Prelude.{
  ℕ, zero, suc, ◌≡◌, refl, ◌<◌, Bytes, bytes_comparable, bytes_eq, codes, find, put, [], ◌∷◌,
  Option, none, some, true, false, arith,
}
use guble.Router.Params.{get}
use guble.KvStore.{new_memory_kv_store}
use guble.KvStore.Memory.{memory_kv_store, memory_kv_store-IsLawful}
use guble.Connector.Subscriber.{
  Subscriber, new_subscriber, new_subscriber_from_data, generate_key, subscriber_key, key_of,
  with_key,
}
use guble.Connector.Manager.{
  SubscriberJson, Manager, new_manager, subscriber_exists, add, find_subscriber, exists_key,
}
use guble.Push.{
  manager_failed, running, FcmResponse, ApnsResponse, device_token_key, replace_canonical,
  handle_fcm_response, handle_apns_response,
}
use guble.Push.Outcome.{FcmOutcome, ApnsOutcome, handle_response-Outcome}
use guble.Push.Replacing.{replace_canonical-nil}
use guble.Push.Retry.{answered, send, send-first}

abbrev json : SubscriberJson
json = record { marshal = λ d. some (d.last_id ∷ d.topic); unmarshal = λ v. none }

sha1 : Bytes → Bytes
sha1 s = s

device : Bytes → ℕ → Subscriber
device token id = new_subscriber (codes "/a") ((device_token_key, token) ∷ []) id

abbrev start : Manager memory_kv_store json sha1
start = new_manager memory_kv_store json sha1 (codes "fcm") new_memory_kv_store

one_device : Manager memory_kv_store json sha1
one_device = (add memory_kv_store json sha1 (device (codes "x") 7) start).1

two_devices : Manager memory_kv_store json sha1
two_devices = (add memory_kv_store json sha1 (device (codes "y") 0) one_device).1

abbrev not_known : FcmResponse
not_known = record {
  is_ok = false;
  error = codes "NotRegistered";
  canonical_ids = 0;
  registration_id = [];
}

abbrev unregistered : ApnsResponse
unregistered = record { sent = false; is_about_token = true }

-- Both services do not know the device any more.
handle_response-Outcome_example :
    FcmOutcome memory_kv_store json sha1 false true (device (codes "x") 7) 8 (8 ∷ codes "/a") (
      handle_fcm_response memory_kv_store json sha1 none
        (some not_known)
        (device (codes "x") 7)
        8
        one_device)
    × ApnsOutcome memory_kv_store json sha1 false true (device (codes "x") 7) 8 (8 ∷ codes "/a") (
        handle_apns_response memory_kv_store json sha1 false
          (some unregistered)
          (device (codes "x") 7)
          8
          one_device)
unfolding one_device device new_subscriber new_subscriber_from_data sha1 add find_subscriber find
    put bytes_eq generate_key subscriber_key get
handle_response-Outcome_example =
    handle_response-Outcome memory_kv_store json sha1 memory_kv_store-IsLawful none not_known
      unregistered (device (codes "x") 7) (with_key sha1 (device (codes "x") 7)) 8 (8 ∷ codes "/a")
      one_device tt refl refl refl (λ kv schema key v. refl) (λ kv schema key. refl)

replace_canonical-nil_example :
    ((replace_canonical memory_kv_store json sha1 (device (codes "x") 7) (codes "y") two_devices).0
      ≡ record { error = some (manager_failed subscriber_exists); started = running none })
    × (find_subscriber memory_kv_store json sha1
          (key_of sha1 (device (codes "x") 7))
          (replace_canonical memory_kv_store json sha1
            (device (codes "x") 7)
            (codes "y")
            two_devices).1
        ≡ none)
unfolding two_devices one_device device new_subscriber new_subscriber_from_data sha1 add exists_key
    find put bytes_eq generate_key subscriber_key get
replace_canonical-nil_example =
    replace_canonical-nil memory_kv_store json sha1 (device (codes "x") 7) (codes "y") two_devices
      refl refl refl refl

-- The answers of the pushes: an error of the network, and then an answer.
abbrev second_answers : ℕ → Option ℕ
second_answers zero = none
second_answers (suc n) = some n

send-first_example : send second_answers false ≡ answered 0
send-first_example = send-first second_answers false 1 0 (λ i l. fails i l) refl (omega arith)
  where
    fails : (i : ℕ) → i < 1 → second_answers i ≡ none
    fails zero l = refl
    fails (suc i) l = absurd (omega arith)
