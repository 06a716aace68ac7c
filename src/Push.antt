-- ===== src/Push.antt =====
-- server/fcm/fcm.go and server/apns/apns.go: what the connectors of push services do with a response.
-- The services' answers are given, with the tests that their packages make on them. The subscriber of
-- a request is the one that the manager has under its key, if it has one.
pub mod Replacing
pub mod Outcome
pub mod Retry
mod Examples
use guble.Prelude.{
  ℕ, Bytes, bytes_comparable, codes, put, Option, none, some, Bool, true, false, ◌||◌, ◌≟◌,
  if◌then◌else◌, nat_eq,
}
use guble.Router.Params.{RouteParams}
use guble.KvStore.Interface.{KvStore}
use guble.Connector.Subscriber.{Subscriber, new_subscriber, set_last_id, key_of}
use guble.Connector.Manager.{
  SubscriberJson, ManagerError, Manager, create, update_subscriber, remove_subscriber,
  touch_last_id,
}

pub data HandleError : Type 0 where
  send_failed invalid_response not_registered : HandleError
  manager_failed : ManagerError → HandleError

-- The subscriber that a new goroutine runs: `running none` is a nil one.
pub data Started : Type 0 where
  nothing : Started
  running : Option Subscriber → Started

pub record Handled : Type 0 where
  pub error : Option HandleError
  pub started : Started

-- Of a *gcm.Response: Ok, the text of Error, CanonicalIDs and the first result's RegistrationID.
pub record FcmResponse : Type 0 where
  pub is_ok : Bool
  pub error : Bytes
  pub canonical_ids : ℕ
  pub registration_id : Bytes

-- Of an *apns2.Response: Sent, and whether Reason is one of the four about the device's token.
pub record ApnsResponse : Type 0 where
  pub sent : Bool
  pub is_about_token : Bool

abbrev pub device_token_key : Bytes
device_token_key = codes "device_token"

abbrev pub done : Handled
done = record { error = none; started = nothing }

abbrev pub failed : HandleError → Handled
failed e = record { error = some e; started = nothing }

unfoldable pub is_valid_response_error : Bytes → Bool
is_valid_response_error text =
    (text ≟ codes "InvalidRegistration") || (text ≟ codes "NotRegistered")

abbrev pub is_refused : Option Bytes → Bool
is_refused none = false
is_refused (some text) = if is_valid_response_error text then false else true

module _ (S : KvStore) (json : SubscriberJson) (sha1 : Bytes → Bytes) where
  -- SetLastID of the subscriber, and Update.
  unfoldable pub record_delivery :
      Subscriber → ℕ → Manager S json sha1 → Option ManagerError × Manager S json sha1
  record_delivery s id m =
      update_subscriber S json sha1 (set_last_id id s)
        (touch_last_id S json sha1 (key_of sha1 s) id m)

  abbrev pub run_replacement :
      Subscriber → Option ManagerError × Manager S json sha1 → Handled × Manager S json sha1
  run_replacement s (none, m) = (record { error = none; started = running (some s) }, m)
  run_replacement s (some e, m) =
      (record { error = some (manager_failed e); started = running none }, m)

  abbrev pub create_replacement :
      Bytes
      → RouteParams
      → Option ManagerError × Manager S json sha1
      → Handled × Manager S json sha1
  create_replacement topic params (some e, m) = (failed (manager_failed e), m)
  create_replacement topic params (none, m) =
      run_replacement (new_subscriber topic params 0) (create S json sha1 topic params m)

  unfoldable pub replace_canonical :
      Subscriber → Bytes → Manager S json sha1 → Handled × Manager S json sha1
  replace_canonical s new_token m =
      create_replacement s.route.config.path (put s.route.config.params device_token_key new_token)
        (remove_subscriber S json sha1 s m).1

  unfoldable pub handle_fcm_error :
      FcmResponse → Subscriber → Manager S json sha1 → Handled × Manager S json sha1
  unfolding replace_canonical
  handle_fcm_error r s m =
      if r.error ≟ codes "NotRegistered"
      then (failed not_registered, (remove_subscriber S json sha1 s m).1.1)
      else if nat_eq r.canonical_ids 0
      then (done, m)
      else replace_canonical s r.registration_id m

  abbrev pub after_fcm_update :
      FcmResponse
      → Subscriber
      → Option ManagerError × Manager S json sha1
      → Handled × Manager S json sha1
  after_fcm_update r s (some e, m) = (failed (manager_failed e), m)
  after_fcm_update r s (none, m) = if r.is_ok then (done, m) else handle_fcm_error r s m

  abbrev pub with_fcm_response :
      Option FcmResponse → Subscriber → ℕ → Manager S json sha1 → Handled × Manager S json sha1
  with_fcm_response none s id m = (failed invalid_response, m)
  with_fcm_response (some r) s id m = after_fcm_update r (set_last_id id s) (record_delivery s id m)

  -- HandleResponse of fcm, for a request with the subscriber and a message's id.
  unfoldable pub handle_fcm_response :
      Option Bytes
      → Option FcmResponse
      → Subscriber
      → ℕ
      → Manager S json sha1
      → Handled × Manager S json sha1
  unfolding is_valid_response_error record_delivery handle_fcm_error
  handle_fcm_response error response s id m =
      if is_refused error then (failed send_failed, m) else with_fcm_response response s id m

  abbrev pub after_apns_update :
      ApnsResponse
      → Subscriber
      → Option ManagerError × Manager S json sha1
      → Handled × Manager S json sha1
  after_apns_update r s (some e, m) = (failed (manager_failed e), m)
  after_apns_update r s (none, m) =
      if r.sent
      then (done, m)
      else if r.is_about_token
      then (done, (remove_subscriber S json sha1 s m).1.1)
      else (done, m)

  abbrev pub with_apns_response :
      Option ApnsResponse → Subscriber → ℕ → Manager S json sha1 → Handled × Manager S json sha1
  with_apns_response none s id m = (failed invalid_response, m)
  with_apns_response (some r) s id m =
      after_apns_update r (set_last_id id s) (record_delivery s id m)

  -- HandleResponse of apns; `has_error` is whether the sender gave an error.
  unfoldable pub handle_apns_response :
      Bool
      → Option ApnsResponse
      → Subscriber
      → ℕ
      → Manager S json sha1
      → Handled × Manager S json sha1
  unfolding record_delivery
  handle_apns_response has_error response s id m =
      if has_error then (failed send_failed, m) else with_apns_response response s id m
