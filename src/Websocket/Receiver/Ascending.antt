-- ===== src/Websocket/Receiver/Ascending.antt =====
-- The ids of the messages that a receiver sends to its client.
use guble.Prelude.{
  zero, length, ℕ, suc, ◌-◌, ◌^◌, ◌<◌, ◌≤◌, ◌≡◌, refl, List, [], ◌∷◌, ◌++◌, true, false,
}
use guble.Protocol.Decimal.{ℤ, pos, negsuc}
use guble.Websocket.Receiver.{
  Receiver, Output, fetch_start, fetch_end, canceled, subscribed_to, not_subscribed, internal_error,
  message, FetchEvent, counted, fetched, closed, failed, cancel_fetch, Round, RoundEnd, again, over,
  run_round,
}

-- Each id is at least `low` and greater than those before it.
abbrev pub AscendsFrom : ℕ → List ℕ → Type 0
AscendsFrom low [] = Unit
AscendsFrom low (id ∷ ids) = (low ≤ id) × AscendsFrom (suc id) ids

-- One more than the last id.
unfoldable pub upto : ℕ → List ℕ → ℕ
upto low [] = low
upto low (id ∷ ids) = upto (suc id) ids

-- The last id, or another if there is none.
unfoldable pub last_of : ℕ → List ℕ → ℕ
last_of last [] = last
last_of last (id ∷ ids) = last_of id ids

upto-append : (low : ℕ) (xs ys : List ℕ) → upto low (xs ++ ys) ≡ upto (upto low xs) ys
unfolding upto
upto-append low [] ys = refl
upto-append low (x ∷ xs) ys = upto-append (suc x) xs ys

abbrev pub id_first : Output → List ℕ → List ℕ
id_first (message id bytes) ids = id ∷ ids
id_first (fetch_start n) ids = ids
id_first fetch_end ids = ids
id_first canceled ids = ids
id_first subscribed_to ids = ids
id_first not_subscribed ids = ids
id_first internal_error ids = ids

unfoldable pub sent_ids : List Output → List ℕ
sent_ids [] = []
sent_ids (o ∷ out) = id_first o (sent_ids out)

-- The ids that a fetch gives, up to its end.
unfoldable pub fetched_ids : List FetchEvent → List ℕ
fetched_ids [] = []
fetched_ids (counted n ∷ events) = fetched_ids events
fetched_ids (fetched id bytes ∷ events) = id ∷ fetched_ids events
fetched_ids (closed ∷ events) = []
fetched_ids (failed ∷ events) = []
fetched_ids (cancel_fetch ∷ events) = []

-- What was sent ascends, what may be sent later is above it, and its last id is remembered.
abbrev IsSent : ℕ → ℕ → List Output → Receiver → Type 0
IsSent low last out rec =
    AscendsFrom low (sent_ids out)
    × ((upto low (sent_ids out) ≤ suc rec.last_sent_id)
        × (last_of last (sent_ids out) ≡ rec.last_sent_id))

-- Where a fetch begins: one backwards may give any id.
abbrev pub start_of : ℤ → ℕ
start_of (pos n) = n
start_of (negsuc n) = 0

-- The least id that a fetch may give: before a message was sent, any; then that before the start, since
-- the store begins with the entry that is closest to the start, and has the one before.
abbrev pub fetch_low : ℕ → ℤ → ℕ
fetch_low zero start = 0
fetch_low (suc last) start = start_of start - 1

-- A fetch gives nothing below the last id that was sent.
abbrev IsReady : Receiver → Type 0
IsReady rec =
    rec.do_fetch ≡ true
    → rec.last_sent_id < 2 ^ 63 - 1
    → rec.last_sent_id ≤ fetch_low rec.last_sent_id rec.start_id

-- What a round has sent, and what the receiver is then, if the loop goes on.
abbrev Continues : ℕ → ℕ → List Output × (RoundEnd × Receiver) → Type 0
Continues low last (out, (over, rec)) = AscendsFrom low (sent_ids out)
Continues low last (out, (again, rec)) =
    AscendsFrom low (sent_ids out)
    × ((last_of last (sent_ids out) ≡ rec.last_sent_id) × (rec.should_stop ≡ false → IsReady rec))

-- The rounds are as the store lets them be: each fetch gives ascending ids, none below its least, and no
-- id is 2^63 - 1 or more.
abbrev pub Meets : Receiver → List Round → Type 0
Meets rec [] = Unit
Meets rec (r ∷ rounds) =
    (rec.last_sent_id < 2 ^ 63 - 1)
    × ((rec.do_fetch ≡ true
          → AscendsFrom (fetch_low rec.last_sent_id rec.start_id) (fetched_ids r.fetch_events))
        × Meets (run_round r rec).1.1 rounds)

-- Each part ascends from the last id of those before it, which it may begin with.
abbrev pub PartsAscend : ℕ → List (List ℕ) → Type 0
PartsAscend last [] = Unit
PartsAscend last (ids ∷ parts) = AscendsFrom last ids × PartsAscend (last_of last ids) parts

abbrev pub concat : List (List ℕ) → List ℕ
concat [] = []
concat (ids ∷ parts) = ids ++ concat parts

-- The ids are those of at most some number of parts.
abbrev pub InParts : ℕ → ℕ → List ℕ → Type 0
InParts last n ids =
    (parts : List (List ℕ)) × (ids ≡ concat parts) × (length parts ≤ n) × PartsAscend last parts
