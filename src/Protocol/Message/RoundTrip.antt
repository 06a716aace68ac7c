-- ===== src/Protocol/Message/RoundTrip.antt =====
-- A message that is written is read back.
use guble.Prelude.{
  append_assoc, ℕ, ◌-◌, ◌^◌, ◌<◌, ◌≡◌, ◌≢◌, refl, ap, sym, ◌∙◌, Bytes, Dict, List, [], ◌∷◌, ◌++◌,
  Option, none, some, if◌then◌else◌, All, Lacks, arith,
}
use guble.Protocol.Split.{newline, comma, slash, split_n, split, join, split-join, join-All}
use guble.Protocol.Decimal.{
  ℤ, format_uint, format_int, IsInt64, format_uint-All, format_int-All, parse_uint-format_uint,
  parse_int-format_int,
}
use guble.Protocol.Payload.{payload, header_of, body_of, split-payload}
use guble.Protocol.Message.{
  Message, Json, parsed, failed, invalid_topic, starts_with_slash, encode_filters, decode_filters,
  fields, write_metadata, message_bytes, message_of, of_lines, parse_message, message, decode,
}

-- Of the filters: their JSON is read back as them, is not empty, and has no comma and no line break,
-- which holds of JSON objects with one entry that has no comma.
abbrev pub Encodes : Json → Option (Dict Bytes Bytes) → Type 0
Encodes json none = Unit
Encodes json (some filters) =
    (json.unmarshal (json.marshal filters) ≡ some filters)
    × (((c : ℕ) × ((s : Bytes) × (json.marshal filters ≡ c ∷ s)))
        × (Lacks comma (json.marshal filters) × Lacks newline (json.marshal filters)))

-- One line, and one field of it.
abbrev pub IsField : Bytes → Type 0
IsField s = Lacks comma s × Lacks newline s

pub record IsMessage (json : Json) (msg : Message) : Type 0 where
  pub rest : Bytes
  pub topic : msg.path ≡ slash ∷ rest
  pub path_field : IsField msg.path
  pub user_field : IsField msg.user_id
  pub application_field : IsField msg.application_id
  pub filters : Encodes json msg.filters
  pub header_line : Lacks newline msg.header_json
  pub id_bits : msg.id < 2 ^ 64
  pub time_bits : IsInt64 msg.time
  pub node_bits : msg.node_id < 2 ^ 8

module _ (json : Json) where
  filters-IsField :
      (f : Option (Dict Bytes Bytes)) → Encodes json f → IsField (encode_filters json f)
  unfolding encode_filters
  filters-IsField none h = (tt, tt)
  filters-IsField (some f) h = h.1.1

  decode_filters-encode_filters :
      (f : Option (Dict Bytes Bytes))
      → Encodes json f
      → decode_filters json (encode_filters json f) ≡ f
  unfolding encode_filters decode_filters
  decode_filters-encode_filters none h = refl
  decode_filters-encode_filters (some f) h =
      let (c, (s, e)) = h.1.0 in ap (decode_filters json) e ∙ ap json.unmarshal (sym e) ∙ h.0

  pub number-Lacks : (sep : ℕ) → sep < 45 → (n : ℕ) → Lacks sep (format_uint n)
  number-Lacks sep h n = format_uint-All (λ b. b ≢ sep) (λ d k e. omega arith) n

  pub int-Lacks : (sep : ℕ) → sep < 45 → (z : ℤ) → Lacks sep (format_int z)
  int-Lacks sep h z = format_int-All (λ b. b ≢ sep) (λ e. omega arith) (λ d k e. omega arith) z

  -- The text of a message begins with its path and a comma.
  pub message_bytes-path :
      (msg : Message) → (rest : Bytes) × (message_bytes json msg ≡ msg.path ++ (comma ∷ rest))
  unfolding message_bytes write_metadata join
  message_bytes-path msg = (_, append_assoc msg.path _ (payload msg.header_json msg.body))

  pub parse_nonempty :
      {b : ℕ} {t : Bytes} (s : Bytes)
      → s ≡ b ∷ t
      → parse_message json s ≡ of_lines json (split_n newline s 3)
  unfolding parse_message
  parse_nonempty [] e = absurd cc
  parse_nonempty (c ∷ s) e = refl

  module _ (msg : Message) (i : IsMessage json msg) where
    fields-comma : All (Lacks comma) (fields json msg)
    fields-comma = (
      i.path_field.0,
      (
        number-Lacks comma (omega arith) msg.id,
        (
          i.user_field.0,
          (
            i.application_field.0,
            (
              (filters-IsField msg.filters i.filters).0,
              (
                int-Lacks comma (omega arith) msg.time,
                (number-Lacks comma (omega arith) msg.node_id, tt),
              ),
            ),
          ),
        ),
      ),
    )

    metadata-newline : Lacks newline (write_metadata json msg)
    unfolding write_metadata
    metadata-newline =
        join-All (λ b. b ≢ newline) comma (fields json msg) (λ e. omega arith)
          (
            i.path_field.1,
            (
              number-Lacks newline (omega arith) msg.id,
              (
                i.user_field.1,
                (
                  i.application_field.1,
                  (
                    (filters-IsField msg.filters i.filters).1,
                    (
                      int-Lacks newline (omega arith) msg.time,
                      (number-Lacks newline (omega arith) msg.node_id, tt),
                    ),
                  ),
                ),
              ),
            ),
          )

    split-metadata : split comma (write_metadata json msg) ≡ fields json msg
    unfolding write_metadata
    split-metadata = split-join comma msg.path _ fields-comma

    message_of-fields :
        (parts : List Bytes)
        → header_of parts ≡ msg.header_json
        → body_of parts ≡ msg.body
        → message_of json (fields json msg) parts ≡ parsed msg
    unfolding message_of
    message_of-fields parts h b =
        rw
          (
            parse_uint-format_uint (2 ^ 64 - 1) msg.id i.id_bits (omega (arith, i.id_bits)),
            parse_int-format_int msg.time i.time_bits,
            parse_uint-format_uint (2 ^ 8 - 1) msg.node_id (omega (arith, i.node_bits))
                (omega (arith, i.node_bits)),
            decode_filters-encode_filters msg.filters i.filters,
            h,
            b,
          )
          (ap (λ p. if starts_with_slash p then parsed msg else failed invalid_topic) i.topic)

    starts : (t : Bytes) × (message_bytes json msg ≡ slash ∷ t)
    unfolding message_bytes write_metadata join
    starts = (
      _,
      ap (λ p. (p ++ (comma ∷ join comma others)) ++ payload msg.header_json msg.body) i.topic,
    )
      where
        others : List Bytes
        others =
            format_uint msg.id
            ∷ msg.user_id
            ∷ msg.application_id
            ∷ encode_filters json msg.filters
            ∷ format_int msg.time
            ∷ format_uint msg.node_id
            ∷ []

  -- A message that is written is read back, where its path starts with a slash, path, user and
  -- application have neither comma nor line break, the filters' JSON neither and is read back as the
  -- filters, the header is one line, and the numbers are those of their types.
  pub parse_message-message_bytes :
      (msg : Message)
      → IsMessage json msg
      → parse_message json (message_bytes json msg) ≡ parsed msg
  unfolding message_bytes
  parse_message-message_bytes msg i =
      let (parts, (e, (h, b))) =
        split-payload (write_metadata json msg) msg.header_json msg.body (metadata-newline msg i)
          i.header_line in
      parse_nonempty (message_bytes json msg) (starts msg i).1
      ∙ ap (of_lines json) e
      ∙ ap (λ l. message_of json l parts) (split-metadata msg i)
      ∙ message_of-fields msg i parts h b

  -- A message that is written and meets the conditions under which it is read back is decoded as a
  -- message, never as a notification.
  pub decode-message_bytes :
      (msg : Message)
      → IsMessage json msg
      → decode json (message_bytes json msg) ≡ message (parsed msg)
  decode-message_bytes msg i =
      let (t, e) = starts msg i in
      ap (decode json) e
      ∙ (unfold decode in
          ap message (ap (parse_message json) (sym e) ∙ parse_message-message_bytes msg i))
