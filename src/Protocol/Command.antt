-- ===== src/Protocol/Command.antt =====
-- protocol/cmd.go: what a client sends.
use guble.Prelude.{
  ℕ, ◌≡◌, ◌≢◌, refl, ap, sym, ◌∙◌, Bytes, List, [], ◌∷◌, ◌++◌, append_assoc, Option, none, some,
  Lacks, All-append, arith,
}
use guble.Protocol.Split.{newline, space, split_n, split_cuts, split_cuts-first}
use guble.Protocol.Payload.{payload, header_of, body_of, split-payload}

pub record Cmd : Type 0 where
  pub name : Bytes
  pub arg : Bytes
  pub header_json : Bytes
  pub body : Bytes

pub cmd_bytes : Cmd → Bytes
cmd_bytes cmd = (cmd.name ++ (space ∷ cmd.arg)) ++ payload cmd.header_json cmd.body

-- firstLine[0] and firstLine[1], if it is there
abbrev pub name_of : List Bytes → Bytes
name_of [] = []
name_of (name ∷ parts) = name

abbrev pub arg_of : List Bytes → Bytes
arg_of [] = []
arg_of (name ∷ parts) = header_of parts

-- The command from the parts of its text, which are one at least.
pub cmd_of : List Bytes → Option Cmd
cmd_of [] = none
cmd_of (line ∷ parts) = some (record {
  name = name_of (split_n space line 2);
  arg = arg_of (split_n space line 2);
  header_json = header_of parts;
  body = body_of parts;
})

-- `none` is the error for an empty command.
pub parse_cmd : Bytes → Option Cmd
unfolding cmd_of
parse_cmd [] = none
parse_cmd (b ∷ message) = cmd_of (split_n newline (b ∷ message) 3)

-- What a command must be to be read back: a name with no space, and one line each.
pub record IsCmd (cmd : Cmd) : Type 0 where
  pub one_word : Lacks space cmd.name
  pub name_line : Lacks newline cmd.name
  pub arg_line : Lacks newline cmd.arg
  pub header_line : Lacks newline cmd.header_json

parse_cmd-nonempty :
    (s t : Bytes) (b : ℕ) → parse_cmd (s ++ (b ∷ t)) ≡ cmd_of (split_n newline (s ++ (b ∷ t)) 3)
unfolding parse_cmd
parse_cmd-nonempty [] t b = refl
parse_cmd-nonempty (c ∷ s) t b = refl

-- A command that is written is read back, where its name has no space, and name, argument and header
-- have no line break.
pub parse_cmd-cmd_bytes : (cmd : Cmd) → IsCmd cmd → parse_cmd (cmd_bytes cmd) ≡ some cmd
unfolding cmd_bytes cmd_of
parse_cmd-cmd_bytes cmd i =
    let line = cmd.name ++ (space ∷ cmd.arg) in
    let (parts, (e, (h, b))) = split-payload line cmd.header_json cmd.body one_line i.header_line in
    ap parse_cmd (append_assoc cmd.name (space ∷ cmd.arg) (payload cmd.header_json cmd.body))
    ∙ parse_cmd-nonempty cmd.name (cmd.arg ++ payload cmd.header_json cmd.body) space
    ∙ ap (λ t. cmd_of (split_n newline t 3))
        (sym (append_assoc cmd.name (space ∷ cmd.arg) (payload cmd.header_json cmd.body)))
    ∙ ap cmd_of e
    ∙ whole parts h b
  where
    one_line : Lacks newline (cmd.name ++ (space ∷ cmd.arg))
    one_line =
        All-append (λ b. b ≢ newline) cmd.name (space ∷ cmd.arg) i.name_line
          ((λ e. omega arith), i.arg_line)

    words : split_n space (cmd.name ++ (space ∷ cmd.arg)) 2 ≡ cmd.name ∷ cmd.arg ∷ []
    words =
        split_cuts-first 0 space cmd.name cmd.arg i.one_word
        ∙ ap (◌∷◌ cmd.name) (unfold split_cuts in refl)

    whole :
        (parts : List Bytes)
        → header_of parts ≡ cmd.header_json
        → body_of parts ≡ cmd.body
        → cmd_of ((cmd.name ++ (space ∷ cmd.arg)) ∷ parts) ≡ some cmd
    whole parts h b = unfold cmd_of in rw (words, h, b) refl
