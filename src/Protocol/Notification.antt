-- ===== src/Protocol/Notification.antt =====
-- The notifications of protocol/message.go: the status messages that the server sends.
use guble.Prelude.{
  ℕ, ◌<◌, ◌≡◌, ◌≢◌, refl, ap, ◌∙◌, Bytes, List, [], ◌∷◌, ◌++◌, append-nil, Option, none, some, Bool,
  true, false, ◌||◌, if◌then◌else◌, nat_eq, Lacks, All-append, arith, length, length-append,
}
use guble.Protocol.Split.{newline, space, split_n, split_cuts, split_cuts-first, split_cuts-absent}
use guble.Protocol.Payload.{header_of}
use guble.Protocol.Command.{name_of, arg_of}

pub record NotificationMessage : Type 0 where
  pub name : Bytes
  pub arg : Bytes
  pub json : Bytes
  pub is_error : Bool

-- A part behind its separator, if there is one.
abbrev optional : ℕ → Bytes → Bytes
optional sep [] = []
optional sep (b ∷ s) = sep ∷ b ∷ s

abbrev hash : ℕ
hash = 35

abbrev bang : ℕ
bang = 33

pub notification_bytes : NotificationMessage → Bytes
notification_bytes msg =
    (if msg.is_error then bang else hash)
    ∷ ((msg.name ++ optional space msg.arg) ++ optional newline msg.json)

-- The notification from the lines behind the first byte, which are one at least.
pub notification_of : Bool → List Bytes → Option NotificationMessage
notification_of is_error [] = none
notification_of is_error (line ∷ parts) = some (record {
  name = name_of (split_n space line 2);
  arg = arg_of (split_n space line 2);
  json = header_of parts;
  is_error = is_error;
})

-- `none` is the error: there are no two bytes, or the first is neither of the marks.
pub parse_notification_message : Bytes → Option NotificationMessage
unfolding notification_of
parse_notification_message [] = none
parse_notification_message (b ∷ []) = none
parse_notification_message (b ∷ c ∷ message) =
    if nat_eq b hash || nat_eq b bang
    then notification_of (nat_eq b bang) (split_n newline (c ∷ message) 2)
    else none

pub record IsNotification (msg : NotificationMessage) : Type 0 where
  pub named : 0 < length msg.name
  pub one_word : Lacks space msg.name
  pub name_line : Lacks newline msg.name
  pub arg_line : Lacks newline msg.arg

split-optional :
    (sep : ℕ) (first second : Bytes)
    → Lacks sep first
    → (parts : List Bytes) × ((split_n sep (first ++ optional sep second) 2 ≡ first ∷ parts)
        × (header_of parts ≡ second))
unfolding split_cuts
split-optional sep first [] h =
    ([], (ap (split_cuts 1 sep) (append-nil first) ∙ split_cuts-absent 1 sep first h, refl))
split-optional sep first (b ∷ second) h =
    ((b ∷ second) ∷ [], (split_cuts-first 0 sep first (b ∷ second) h, refl))

marked :
    (is_error : Bool) (c : ℕ) (s t : Bytes)
    → 0 < length s
    → parse_notification_message ((if is_error then bang else hash) ∷ (s ++ t))
      ≡ notification_of is_error (split_n newline (s ++ t) 2)
unfolding parse_notification_message
marked is_error c [] t h = absurd (omega arith)
marked true c (x ∷ s) t h = refl
marked false c (x ∷ s) t h = refl

-- A notification that is written is read back, where it has a name with no space, and neither its
-- name nor its argument has a line break.
pub parse_notification_message-notification_bytes :
    (msg : NotificationMessage)
    → IsNotification msg
    → parse_notification_message (notification_bytes msg) ≡ some msg
unfolding notification_bytes
parse_notification_message-notification_bytes msg i =
    let (lines, (e, j)) =
      split-optional newline (msg.name ++ optional space msg.arg) msg.json one_line in
    let (words, (w, a)) = split-optional space msg.name msg.arg i.one_word in
    marked msg.is_error 0 (msg.name ++ optional space msg.arg) (optional newline msg.json)
      (omega (arith, i.named, length-append msg.name (optional space msg.arg)))
    ∙ ap (notification_of msg.is_error) e
    ∙ whole lines words j w a
  where
    optional-Lacks : (s : Bytes) → Lacks newline s → Lacks newline (optional space s)
    optional-Lacks [] h = tt
    optional-Lacks (b ∷ s) h = ((λ e. omega arith), h)

    one_line : Lacks newline (msg.name ++ optional space msg.arg)
    one_line =
        All-append (λ b. b ≢ newline) msg.name (optional space msg.arg) i.name_line
          (optional-Lacks msg.arg i.arg_line)

    whole :
        (lines words : List Bytes)
        → header_of lines ≡ msg.json
        → split_n space (msg.name ++ optional space msg.arg) 2 ≡ msg.name ∷ words
        → header_of words ≡ msg.arg
        → notification_of msg.is_error ((msg.name ++ optional space msg.arg) ∷ lines) ≡ some msg
    whole lines words j w a = unfold notification_of in rw (w, j, a) refl
