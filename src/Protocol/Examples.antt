-- ===== src/Protocol/Examples.antt =====
-- Texts of the protocol at concrete messages.
use guble.Prelude.{◌≡◌, refl, Bytes, Dict, codes, [], ◌∷◌, some, false, arith}
use guble.Protocol.Decimal.{pos}
use guble.Protocol.Command.{Cmd, IsCmd}
use guble.Protocol.Notification.{NotificationMessage, IsNotification}
use guble.Protocol.Message.{Message, Json, parsed, message_bytes, parse_message}
use guble.Protocol.Message.RoundTrip.{IsMessage, parse_message-message_bytes}

abbrev send : Cmd
send = record { name = codes ">"; arg = codes "/a b"; header_json = []; body = codes "x" }

send-IsCmd : IsCmd send
send-IsCmd = record {
  one_word = (λ e. omega arith, tt);
  name_line = (λ e. omega arith, tt);
  arg_line = (λ e. omega arith, (λ e. omega arith, (λ e. omega arith, (λ e. omega arith, tt))));
  header_line = tt;
}

abbrev sent : NotificationMessage
sent = record { name = codes "ok"; arg = codes "1"; json = codes "{}"; is_error = false }

sent-IsNotification : IsNotification sent
sent-IsNotification = record {
  named = omega arith;
  one_word = (λ e. omega arith, (λ e. omega arith, tt));
  name_line = (λ e. omega arith, (λ e. omega arith, tt));
  arg_line = (λ e. omega arith, tt);
}

-- Knows one map, and reads all else as an empty one.
abbrev one_map : Dict Bytes Bytes
one_map = (codes "a", codes "b") ∷ []

abbrev json : Json
json = record { marshal = λ m. codes "{}"; unmarshal = λ s. some one_map }

abbrev hello : Message
hello = record {
  id = 42;
  path = codes "/a";
  user_id = codes "u";
  application_id = [];
  filters = some one_map;
  time = pos 5;
  header_json = codes "{}";
  body = codes "x";
  node_id = 1;
}

hello-IsMessage : IsMessage json hello
hello-IsMessage = record {
  rest = codes "a";
  topic = refl;
  path_field =
      ((λ e. omega arith, (λ e. omega arith, tt)), (λ e. omega arith, (λ e. omega arith, tt)));
  user_field = ((λ e. omega arith, tt), (λ e. omega arith, tt));
  application_field = (tt, tt);
  filters = (
    refl,
    (
      (123, (codes "}", refl)),
      ((λ e. omega arith, (λ e. omega arith, tt)), (λ e. omega arith, (λ e. omega arith, tt))),
    ),
  );
  header_line = (λ e. omega arith, (λ e. omega arith, tt));
  id_bits = omega arith;
  time_bits = omega arith;
  node_bits = omega arith;
}

parse_message-message_bytes_example : parse_message json (message_bytes json hello) ≡ parsed hello
parse_message-message_bytes_example = parse_message-message_bytes json hello hello-IsMessage
