-- ===== src/Protocol/Payload.antt =====
-- The header and the body behind the first line, which messages and commands write alike
-- (protocol/message.go, protocol/cmd.go).
use guble.Prelude.{
  ◌≡◌, refl, ap, ◌∙◌, Bytes, List, [], ◌∷◌, ◌++◌, append-nil, Bool, true, false, ◌||◌,
  if◌then◌else◌, Lacks,
}
use guble.Protocol.Split.{newline, split_n, split_cuts, split_cuts-first, split_cuts-absent}

-- len(s) > 0
abbrev pub has_bytes : Bytes → Bool
has_bytes [] = false
has_bytes (b ∷ s) = true

abbrev pub payload : Bytes → Bytes → Bytes
payload header body =
    (if has_bytes header || has_bytes body then newline ∷ [] else [])
    ++ (header ++ (if has_bytes body then newline ∷ body else []))

-- parts[1] and parts[2], of the parts behind the first; none is there without one before it
abbrev pub header_of : List Bytes → Bytes
header_of [] = []
header_of (header ∷ parts) = header

abbrev pub body_of : List Bytes → Bytes
body_of [] = []
body_of (header ∷ []) = []
body_of (header ∷ body ∷ parts) = body

pub split-payload :
    (line header body : Bytes)
    → Lacks newline line
    → Lacks newline header
    → (parts : List Bytes) × ((split_n newline (line ++ payload header body) 3 ≡ line ∷ parts)
        × ((header_of parts ≡ header) × (body_of parts ≡ body)))
unfolding split_cuts
split-payload line [] [] l h = (
  [],
  (ap (split_cuts 2 newline) (append-nil line) ∙ split_cuts-absent 2 newline line l, (refl, refl)),
)
split-payload line [] (b ∷ body) l h = (
  [] ∷ (b ∷ body) ∷ [],
  (
    split_cuts-first 1 newline line (newline ∷ b ∷ body) l
        ∙ ap (◌∷◌ line) (split_cuts-first 0 newline [] (b ∷ body) tt),
    (refl, refl),
  ),
)
split-payload line (c ∷ header) [] l h = (
  (c ∷ header) ∷ [],
  (
    ap (λ t. split_cuts 2 newline (line ++ (newline ∷ t))) (append-nil (c ∷ header))
        ∙ split_cuts-first 1 newline line (c ∷ header) l
        ∙ ap (◌∷◌ line) (split_cuts-absent 1 newline (c ∷ header) h),
    (refl, refl),
  ),
)
split-payload line (c ∷ header) (b ∷ body) l h = (
  (c ∷ header) ∷ (b ∷ body) ∷ [],
  (
    split_cuts-first 1 newline line (c ∷ header ++ (newline ∷ b ∷ body)) l
        ∙ ap (◌∷◌ line) (split_cuts-first 0 newline (c ∷ header) (b ∷ body) h),
    (refl, refl),
  ),
)
