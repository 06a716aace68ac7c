-- ===== src/Router/Provide/Examples.antt =====
-- A partition with nine messages, of which the route asks for three backwards from the second.
use guble.Prelude.{
  ℕ, ◌^◌, ◌<◌, ◌≡◌, refl, codes, List, [], ◌∷◌, ◌++◌, Option, none, some, Bool, true, false, inr,
  arith,
}
use guble.Protocol.Decimal.{pos}
use guble.Protocol.Message.{Message, Json, message_bytes}
use guble.Protocol.Message.RoundTrip.{IsMessage, parse_message-message_bytes}
use guble.Store.Fetch.{FetchRequest, backwards}
use guble.Router.Provide.{FetchRound, handle_subscribe, provide}
use guble.Router.Provide.Rounds.{
  Answers, Delivers, delivered_to, events_of, provide-delivered_to, provide-repeats, Stored,
}

abbrev json : Json
json = record { marshal = λ m. []; unmarshal = λ s. none }

abbrev numbered : ℕ → Message
numbered id = record {
  id = id;
  path = codes "/a";
  user_id = [];
  application_id = [];
  filters = none;
  time = pos 0;
  header_json = [];
  body = codes "x";
  node_id = 0;
}

numbered-IsMessage : (id : ℕ) → id < 2 ^ 64 → IsMessage json (numbered id)
numbered-IsMessage id h = record {
  rest = codes "a";
  topic = refl;
  path_field =
      ((λ e. omega arith, (λ e. omega arith, tt)), (λ e. omega arith, (λ e. omega arith, tt)));
  user_field = (tt, tt);
  application_field = (tt, tt);
  filters = tt;
  header_line = tt;
  id_bits = h;
  time_bits = omega arith;
  node_bits = omega arith;
}

-- The state of the route is the list of the ids that were delivered to it.
abbrev log_id : Message → List ℕ → List ℕ × Option ℕ
log_id m ids = (ids ++ (m.id ∷ []), none)

abbrev allow : List ℕ → List ℕ × Option ℕ
allow ids = (ids, none)

abbrev valid : List ℕ → Bool
valid ids = false

abbrev two : Stored
two =
    (message_bytes json (numbered 1), numbered 1)
    ∷ (message_bytes json (numbered 2), numbered 2)
    ∷ []

two-Delivers : (ids : List ℕ) → Delivers json log_id two ids
two-Delivers ids = (
  parse_message-message_bytes json (numbered 1) (numbered-IsMessage 1 (omega arith)),
  (
    refl,
    (
      parse_message-message_bytes json (numbered 2) (numbered-IsMessage 2 (omega arith)),
      (refl, tt),
    ),
  ),
)

answer : ℕ → FetchRound ℕ
answer max = record {
  max_message_id = inr max;
  fetch = none;
  ready = true;
  events = events_of json log_id two;
}

answer-Answers : (max : ℕ) → Answers json log_id (answer max) max two
unfolding answer
answer-Answers max = record { max_message_id = refl; fetch = refl; ready = refl; events = refl }

abbrev request : FetchRequest
request = record { partition = []; start_id = 2; end_id = 0; direction = backwards; count = 3 }

provide-delivered_to_example :
    provide json log_id allow
      (codes "/a")
      valid
      none
      (answer 2 ∷ answer 2 ∷ [])
      (some request)
      true
      []
    ≡ handle_subscribe json log_id allow (delivered_to json log_id two [])
unfolding answer
provide-delivered_to_example =
    provide-delivered_to json log_id allow (codes "/a") valid request [] (answer 2) (answer 2) [] 2
      2 two refl (answer-Answers 2) (two-Delivers []) (omega arith) (omega arith) (omega arith) refl
      (omega arith)

-- The last message is delivered twice in place of once, and so is the first.
provide-repeats_example :
    provide json log_id allow
      (codes "/a")
      valid
      none
      (answer 9 ∷ answer 9 ∷ answer 9 ∷ [])
      (some request)
      true
      []
    ≡ handle_subscribe json log_id allow (delivered_to json log_id (two ++ two) [])
unfolding answer
provide-repeats_example =
    provide-repeats json log_id allow (codes "/a") valid request [] (answer 9) (answer 9) [] 9 9 two
      refl (answer-Answers 9)
      (
        (two-Delivers []).0,
        (
          (two-Delivers []).1.0,
          ((two-Delivers []).1.1.0, ((two-Delivers []).1.1.1.0, two-Delivers [])),
        ),
      )
      (omega arith) (omega arith) (λ h. absurd (omega arith)) (omega arith) (omega arith) refl

twice : delivered_to json log_id (two ++ two) [] ≡ 1 ∷ 2 ∷ 1 ∷ 2 ∷ []
twice = refl
