-- ===== src/Websocket/Commands.antt =====
-- server/websocket/websocket_connector.go: what a client's commands do. A receiver of the client is
-- the number of its start; the router, the access manager and the running of receivers stand outside,
-- as the list of what they are asked to do.
pub mod Access
use guble.Prelude.{
  ℕ, suc, Bytes, bytes_comparable, ◌≟◌, codes, Dict, find, put, remove, List, [], ◌∷◌, ◌++◌, Option,
  none, some, Bool, true, false, ◌||◌, if◌then◌else◌, nat_eq, has_prefix, drop, length,
}
use guble.Protocol.Split.{split_n, comma, slash, break_at}
use guble.Protocol.Decimal.{pos}
use guble.Protocol.Command.{Cmd, parse_cmd}
use guble.Protocol.Message.{Message}
use guble.Websocket.Receiver.{
  Receiver, NewReceiver, receiver, refused, CommandError, space, new_receiver_from_cmd,
}

-- A message for HandleMessage, a notification, or a receiver that is started or stopped.
pub data Action : Type 0 where
  handle : Message → Action
  sent_ok missing_send_path missing_cancel_path bad_command : Action
  bad_receive : CommandError → Action
  unknown_command : Bytes → Action
  start : ℕ → Receiver → Action
  stop : ℕ → Action
  close : Action

pub record WebSocket : Type 0 where
  pub application_id : Bytes
  pub user_id : Bytes
  pub receivers : Dict Bytes ℕ
  pub started : ℕ

-- NewWebSocket
abbrev pub new_web_socket : Bytes → Bytes → WebSocket
new_web_socket application_id user_id = record {
  application_id = application_id;
  user_id = user_id;
  receivers = [];
  started = 0;
}

-- A receiver of the same path is not stopped when the new one takes its place.
abbrev pub start_receiver : NewReceiver → WebSocket → List Action × WebSocket
start_receiver (refused e) ws = (bad_receive e ∷ [], ws)
start_receiver (receiver rec) ws = (
  start ws.started rec ∷ [],
  record ws { receivers = put ws.receivers rec.path ws.started; started = suc ws.started },
)

unfoldable pub handle_receive_cmd : Cmd → WebSocket → List Action × WebSocket
handle_receive_cmd cmd ws = start_receiver (new_receiver_from_cmd cmd.arg) ws

abbrev pub stop_receiver : Bytes → Option ℕ → WebSocket → List Action × WebSocket
stop_receiver path none ws = ([], ws)
stop_receiver path (some n) ws = (stop n ∷ [], record ws { receivers = remove ws.receivers path })

unfoldable pub handle_cancel_cmd : Cmd → WebSocket → List Action × WebSocket
handle_cancel_cmd cmd ws =
    if nat_eq (length cmd.arg) 0
    then (missing_cancel_path ∷ [], ws)
    else stop_receiver cmd.arg (find ws.receivers cmd.arg) ws

-- args[0]
abbrev pub first_arg : List Bytes → Bytes
first_arg [] = []
first_arg (a ∷ args) = a

abbrev pub message_of_cmd : Cmd → WebSocket → Message
message_of_cmd cmd ws = record {
  id = 0;
  path = first_arg (split_n space cmd.arg 2);
  user_id = ws.user_id;
  application_id = ws.application_id;
  filters = none;
  time = pos 0;
  header_json = cmd.header_json;
  body = cmd.body;
  node_id = 0;
}

-- What HandleMessage answers is not looked at.
unfoldable pub handle_send_cmd : Cmd → WebSocket → List Action × WebSocket
handle_send_cmd cmd ws =
    if nat_eq (length cmd.arg) 0
    then (missing_send_path ∷ [], ws)
    else (handle (message_of_cmd cmd ws) ∷ sent_ok ∷ [], ws)

abbrev pub cmd_send : Bytes
cmd_send = codes ">"

abbrev pub cmd_receive : Bytes
cmd_receive = codes "+"

abbrev pub cmd_cancel : Bytes
cmd_cancel = codes "-"

-- The switch over the name of a command
unfoldable pub handle_cmd : Option Cmd → WebSocket → List Action × WebSocket
unfolding handle_send_cmd handle_receive_cmd handle_cancel_cmd
handle_cmd none ws = (bad_command ∷ [], ws)
handle_cmd (some cmd) ws =
    if cmd.name ≟ cmd_send
    then handle_send_cmd cmd ws
    else if cmd.name ≟ cmd_receive
    then handle_receive_cmd cmd ws
    else if cmd.name ≟ cmd_cancel
    then handle_cancel_cmd cmd ws
    else (unknown_command cmd.name ∷ [], ws)

-- The loop of cleanAndClose stops the receivers in the order of the map.
unfoldable pub stop_all : Dict Bytes ℕ → List Action
stop_all [] = []
stop_all ((path, n) ∷ receivers) = stop n ∷ stop_all receivers

unfoldable pub clean_and_close : WebSocket → List Action × WebSocket
unfolding stop_all
clean_and_close ws = (stop_all ws.receivers ++ (close ∷ []), record ws { receivers = [] })

-- receiveLoop, over the messages until the connection is closed
unfoldable pub command_loop : List Bytes → WebSocket → List Action × WebSocket
unfolding handle_cmd clean_and_close
command_loop [] ws = clean_and_close ws
command_loop (message ∷ messages) ws =
    let (actions, ws') = handle_cmd (parse_cmd message) ws in
    let (more, last) = command_loop messages ws' in (actions ++ more, last)

-- getPathFromRawMessage: without a comma the slice has no end, and the program panics.
abbrev pub path_before : Bytes × Option Bytes → Option Bytes
path_before (path, none) = none
path_before (path, some rest) = some path

unfoldable pub get_path_from_raw_message : Bytes → Option Bytes
get_path_from_raw_message raw = path_before (break_at comma raw)

abbrev pub allowed_path : (Bytes → Bool) → Option Bytes → Option Bool
allowed_path is_allowed none = none
allowed_path is_allowed (some path) = some (nat_eq (length path) 0 || is_allowed path)

-- checkAccess, for what the access manager lets the user read; `none` is a panic.
unfoldable pub check_access : (Bytes → Bool) → Bytes → Option Bool
unfolding get_path_from_raw_message
check_access is_allowed [] = some true
check_access is_allowed (b ∷ raw) =
    if nat_eq b slash
    then allowed_path is_allowed (get_path_from_raw_message (b ∷ raw))
    else some true

-- The second part of strings.SplitN(uri, "/user/", 2), or nothing.
unfoldable pub extract_user_id : Bytes → Bytes
extract_user_id [] = []
extract_user_id (b ∷ uri) =
    let further = extract_user_id uri in
    if has_prefix (b ∷ uri) (codes "/user/") then drop 6 (b ∷ uri) else further
