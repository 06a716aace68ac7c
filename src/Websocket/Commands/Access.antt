-- ===== src/Websocket/Commands/Access.antt =====
-- The access test before a message is sent to a client.
use guble.Prelude.{
  ℕ, suc, false, arith, ◌≡◌, refl, ap, ◌∙◌, Bytes, ◌∷◌, ◌++◌, some, Bool, ◌||◌, nat_eq, length,
}
use guble.Protocol.Split.{comma, slash, break_at, break_at-first}
use guble.Protocol.Message.{Message, Json, message_bytes}
use guble.Protocol.Message.RoundTrip.{IsMessage, message_bytes-path}
use guble.Websocket.Commands.{check_access, get_path_from_raw_message, path_before, allowed_path}

check_slash :
    (is_allowed : Bytes → Bool) (raw rest : Bytes)
    → raw ≡ slash ∷ rest
    → check_access is_allowed raw ≡ allowed_path is_allowed (get_path_from_raw_message raw)
unfolding check_access
check_slash is_allowed raw rest e = rw e refl

not_empty : (n : ℕ) → nat_eq (suc n) 0 ≡ false
not_empty n = ground arith

-- A message of the server is let through exactly if the user may read its path, and the test does
-- not panic.
pub check_access-message_bytes :
    (json : Json) (is_allowed : Bytes → Bool) (msg : Message)
    → IsMessage json msg
    → check_access is_allowed (message_bytes json msg) ≡ some (is_allowed msg.path)
unfolding get_path_from_raw_message
check_access-message_bytes json is_allowed msg i =
    let (rest, e) = message_bytes-path json msg in
    check_slash is_allowed (message_bytes json msg) _ (e ∙ ap (λ p. p ++ (comma ∷ rest)) i.topic)
    ∙ ap (λ raw. allowed_path is_allowed (path_before (break_at comma raw))) e
    ∙ ap (λ r. allowed_path is_allowed (path_before r))
        (break_at-first comma msg.path rest i.path_field.0)
    ∙ ap (λ p. some (nat_eq (length p) 0 || is_allowed msg.path)) i.topic
    ∙ ap (λ b. some (b || is_allowed msg.path)) (not_empty (length i.rest))
