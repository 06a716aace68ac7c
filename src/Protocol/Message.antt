-- ===== src/Protocol/Message.antt =====
-- Messages of protocol/message.go, and what Decode reads. encoding/json is a parameter.
pub mod RoundTrip
use guble.Prelude.{
  ℕ, zero, suc, ◌+◌, ◌-◌, ◌^◌, ◌<◌, ◌≡◌, ◌≢◌, refl, ap, sym, ◌∙◌, Bytes, Dict, List, [], ◌∷◌, ◌++◌,
  append_assoc, Option, none, some, Bool, true, false, ◌||◌, if◌then◌else◌, nat_eq, All, Lacks,
  arith,
}
use guble.Protocol.Split.{newline, comma, slash, split_n, split, join, split-join, join-All}
use guble.Protocol.Decimal.{
  ℤ, format_uint, parse_uint, format_int, parse_int, IsInt64, format_uint-All, format_int-All,
  parse_uint-format_uint, parse_int-format_int,
}
use guble.Protocol.Payload.{payload, header_of, body_of, split-payload}
use guble.Protocol.Notification.{NotificationMessage, parse_notification_message}

pub record Message : Type 0 where
  pub id : ℕ
  pub path : Bytes
  pub user_id : Bytes
  pub application_id : Bytes
  pub filters : Option (Dict Bytes Bytes)
  pub time : ℤ
  pub header_json : Bytes
  pub body : Bytes
  pub node_id : ℕ

-- json.Marshal of a map of strings, which does not fail, and what json.Unmarshal makes of a new map:
-- `none` is a nil map.
pub record Json : Type 0 where
  pub marshal : Dict Bytes Bytes → Bytes
  pub unmarshal : Bytes → Option (Dict Bytes Bytes)

pub data ParseError : Type 0 where
  empty_message metadata_fields invalid_topic invalid_id invalid_time invalid_node : ParseError

pub data Parsed {ℓ} (A : Type ℓ) : Type ℓ where
  parsed : A → Parsed A
  failed : ParseError → Parsed A

-- What `or_fail` gives goes on with the value, or ends with the error.
abbrev or_fail : {A B : Type 0} → ParseError → Option A → (A → Parsed B) → Parsed B
or_fail error none next = failed error
or_fail error (some a) next = next a

abbrev starts_with_slash : Bytes → Bool
starts_with_slash [] = false
starts_with_slash (b ∷ path) = nat_eq b slash

module _ (json : Json) where
  pub encode_filters : Option (Dict Bytes Bytes) → Bytes
  encode_filters none = []
  encode_filters (some filters) = json.marshal filters

  pub decode_filters : Bytes → Option (Dict Bytes Bytes)
  decode_filters [] = none
  decode_filters (b ∷ data') = json.unmarshal (b ∷ data')

  -- What writeMetadata writes between commas.
  abbrev pub fields : Message → List Bytes
  fields msg =
      msg.path
      ∷ format_uint msg.id
      ∷ msg.user_id
      ∷ msg.application_id
      ∷ encode_filters msg.filters
      ∷ format_int msg.time
      ∷ format_uint msg.node_id
      ∷ []

  pub write_metadata : Message → Bytes
  write_metadata msg = join comma (fields msg)

  pub message_bytes : Message → Bytes
  unfolding write_metadata
  message_bytes msg = write_metadata msg ++ payload msg.header_json msg.body

  -- The message from the fields of the first line and the parts behind it.
  pub message_of : List Bytes → List Bytes → Parsed Message
  unfolding decode_filters
  message_of (path ∷ id ∷ user_id ∷ application_id ∷ filters ∷ time ∷ node_id ∷ []) parts =
      if starts_with_slash path
      then or_fail invalid_id (parse_uint (2 ^ 64 - 1) id) (λ id.
        or_fail invalid_time (parse_int time) (λ time.
          or_fail invalid_node (parse_uint (2 ^ 8 - 1) node_id) (λ node_id. parsed (record {
            id = id;
            path = path;
            user_id = user_id;
            application_id = application_id;
            filters = decode_filters filters;
            time = time;
            header_json = header_of parts;
            body = body_of parts;
            node_id = node_id;
          }))))
      else failed invalid_topic
  message_of _ parts = failed metadata_fields

  abbrev of_lines : List Bytes → Parsed Message
  of_lines [] = failed metadata_fields
  of_lines (line ∷ parts) = message_of (split comma line) parts

  pub parse_message : Bytes → Parsed Message
  unfolding message_of
  parse_message [] = failed empty_message
  parse_message (b ∷ message) = of_lines (split_n newline (b ∷ message) 3)

  -- Decode: a notification, a message, or the error of either.
  pub data Decoded : Type 0 where
    notification : Option NotificationMessage → Decoded
    message : Parsed Message → Decoded

  pub decode : Bytes → Decoded
  unfolding parse_message
  decode [] = message (parse_message [])
  decode (b ∷ rest) =
      if nat_eq b 35 || nat_eq b 33
      then notification (parse_notification_message (b ∷ rest))
      else message (parse_message (b ∷ rest))
