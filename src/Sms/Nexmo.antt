-- ===== src/Sms/Nexmo.antt =====
-- server/sms/nexmo_sms_sender.go: what the sender makes of the service's response. The JSON of a message
-- and of a response, and HTTP, are given by what they end with.
use guble.Prelude.{ℕ, zero, suc, List, [], ◌∷◌, Option, none, some, Bool, if◌then◌else◌, nat_eq}
use guble.Protocol.Decimal.{ℤ, pos, negsuc}

-- ErrNoSMSSent, ErrIncompleteSMSSent, ErrSMSResponseDecodingFailed, and the errors of encoding/json.
pub data SmsError : Type 0 where
  no_sms_sent incomplete_sms_sent response_decoding_failed json_failed : SmsError

abbrev pub response_success : ℕ
response_success = 0

abbrev pub response_invalid_sender_address : ℕ
response_invalid_sender_address = 15

-- Of a NexmoMessageResponse: MessageCount and the Status of each of Messages.
pub record NexmoMessageResponse : Type 0 where
  pub message_count : ℤ
  pub statuses : List ℕ

-- The error of a call, if it has one, or the panic of an index that is out of range.
pub data SendEnd : Type 0 where
  ended : Option SmsError → SendEnd
  index_panic : SendEnd

-- The loop of Check, with the messages that it has not looked at.
pub check_messages : ℕ → List ℕ → SendEnd
check_messages zero statuses = ended none
check_messages (suc left) [] = index_panic
check_messages (suc left) (status ∷ statuses) =
    let rest = check_messages left statuses in
    if nat_eq status response_success
    then rest
    else if nat_eq status response_invalid_sender_address
    then ended none
    else ended (some incomplete_sms_sent)

abbrev pub check_count : ℤ → List ℕ → SendEnd
check_count (pos zero) statuses = ended (some no_sms_sent)
check_count (pos (suc n)) statuses = check_messages (suc n) statuses
check_count (negsuc n) statuses = ended none

unfoldable pub check : NexmoMessageResponse → SendEnd
unfolding check_messages
check nm = check_count nm.message_count nm.statuses

-- How sendSms ends: the message cannot be encoded, the service is not reached, its answer cannot be
-- read, is no JSON of a response, or is one.
pub data HttpEnd : Type 0 where
  not_encoded not_reached not_read not_decoded : HttpEnd
  decoded : NexmoMessageResponse → HttpEnd

-- Send, of whether the body of the message is the JSON of an SMS.
unfoldable pub nexmo_send : Bool → HttpEnd → SendEnd
unfolding check
nexmo_send is_sms not_encoded = ended (some json_failed)
nexmo_send is_sms not_reached = ended (some (if is_sms then no_sms_sent else json_failed))
nexmo_send is_sms not_read = ended (some (if is_sms then response_decoding_failed else json_failed))
nexmo_send is_sms not_decoded =
    ended (some (if is_sms then response_decoding_failed else json_failed))
nexmo_send is_sms (decoded response) = if is_sms then check response else ended (some json_failed)
