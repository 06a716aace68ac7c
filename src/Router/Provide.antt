-- ===== src/Router/Provide.antt =====
-- Route.Provide of server/router/route.go: a route gets the messages of its fetch request, round by
-- round, and then subscribes. What the message store answers in a round, and what the select of the
-- loop takes from the channels, is given; Deliver and the router's Subscribe are arguments, on the
-- state of the route.
pub mod Rounds
mod Examples
use guble.Prelude.{
  ℕ, suc, Bytes, List, [], ◌∷◌, Option, none, some, Bool, true, false, ◌&&◌, ◌||◌, ◌⊎◌, inl, inr,
  if◌then◌else◌, ltb, leb,
}
use guble.Protocol.Split.{partition}
use guble.Protocol.Message.{Message, Json, Parsed, parsed, failed, ParseError, parse_message}
use guble.Store.Fetch.{Direction, one_message, forward, backwards, FetchRequest}

-- What Provide returns, where `E` are the errors of the router, of the store and of Deliver.
pub data ProvideError (E : Type 0) : Type 0 where
  invalid_route missing_fetch_request : ProvideError E
  reported : E → ProvideError E
  not_parsed : ParseError → ProvideError E

-- `waiting`: nothing more comes from the channels.
pub data ProvideOutcome (E : Type 0) : Type 0 where
  waiting : ProvideOutcome E
  returned : Option (ProvideError E) → ProvideOutcome E

pub data FetchRoundEnd (E : Type 0) : Type 0 where
  refetch : FetchRoundEnd E
  ends : ProvideOutcome E → FetchRoundEnd E

pub data RouteEvent (E : Type 0) : Type 0 where
  fetched : Bytes → RouteEvent E
  channel_closed router_done : RouteEvent E
  fetch_error : E → RouteEvent E

-- A round: the answers of MaxMessageID and of router.Fetch, whether the store reports the number of
-- messages, which Ready waits for, and what the loop then reads.
pub record FetchRound (E : Type 0) : Type 0 where
  pub max_message_id : E ⊎ ℕ
  pub fetch : Option E
  pub ready : Bool
  pub events : List (RouteEvent E)

pub record Progress (S : Type 0) : Type 0 where
  pub route : S
  pub last_id : ℕ
  pub received : ℕ

abbrev is_forward : Direction → Bool
is_forward one_message = false
is_forward forward = true
is_forward backwards = false

-- The tests at REFETCH that end the fetch.
unfoldable pub is_complete : FetchRequest → ℕ → ℕ → ℕ → Bool
is_complete request max last_id received =
    (ltb max request.start_id && is_forward request.direction)
    || (leb request.count received
        || (leb max last_id || (ltb 0 request.end_id && leb request.end_id last_id)))

module _ {S E : Type 0} (json : Json) (deliver : Message → S → S × Option E) where
  abbrev pub count_delivered : Message → Progress S → S → Progress S
  count_delivered m p s = record { route = s; last_id = m.id; received = suc p.received }

  pub after_deliver : Message → Progress S → S × Option E → Progress S × Option (ProvideError E)
  after_deliver m p (s, some e) = (record p { route = s }, some (reported e))
  after_deliver m p (s, none) = (count_delivered m p s, none)

  pub deliver_parsed : Parsed Message → Progress S → Progress S × Option (ProvideError E)
  unfolding after_deliver
  deliver_parsed (failed e) p = (p, some (not_parsed e))
  deliver_parsed (parsed m) p = after_deliver m p (deliver m p.route)

  -- An error ends the round.
  unfoldable pub then_next :
      (Progress S → Progress S × FetchRoundEnd E)
      → Progress S × Option (ProvideError E)
      → Progress S × FetchRoundEnd E
  then_next next (p, none) = next p
  then_next next (p, some e) = (p, ends (returned (some e)))

  -- The loop of a round.
  unfoldable pub read_fetched : List (RouteEvent E) → Progress S → Progress S × FetchRoundEnd E
  unfolding deliver_parsed then_next
  read_fetched [] p = (p, ends waiting)
  read_fetched (channel_closed ∷ events) p = (p, refetch)
  read_fetched (router_done ∷ events) p = (p, ends (returned none))
  read_fetched (fetch_error e ∷ events) p = (p, ends (returned (some (reported e))))
  read_fetched (fetched text ∷ events) p =
      then_next (read_fetched events) (deliver_parsed (parse_message json text) p)

  unfoldable pub start_fetch : FetchRound E → Progress S → Progress S × FetchRoundEnd E
  unfolding read_fetched
  start_fetch r p = elim r.fetch [
    | some e ↦ (p, ends (returned (some (reported e))))
    | none ↦ if r.ready then read_fetched r.events p else (p, ends waiting)
  ]

  unfoldable pub run_fetch_round :
      FetchRound E → FetchRequest → Progress S → Progress S × FetchRoundEnd E
  unfolding is_complete start_fetch
  run_fetch_round r request p = elim r.max_message_id [
    | inl e ↦ (p, ends (returned (some (reported e))))
    | inr max ↦
        if is_complete request max p.last_id p.received
        then (p, ends (returned none))
        else start_fetch r p
  ]

  unfoldable pub next_round :
      (Progress S → Progress S × ProvideOutcome E)
      → Progress S × FetchRoundEnd E
      → Progress S × ProvideOutcome E
  next_round next (p, refetch) = next p
  next_round next (p, ends outcome) = (p, outcome)

  -- The rounds; the request is the same in each.
  unfoldable pub run_rounds :
      List (FetchRound E) → FetchRequest → Progress S → Progress S × ProvideOutcome E
  unfolding run_fetch_round next_round
  run_rounds [] request p = (p, waiting)
  run_rounds (r ∷ rounds) request p =
      next_round (run_rounds rounds request) (run_fetch_round r request p)

  abbrev pub not_started : S → Progress S
  not_started s = record { route = s; last_id = 0; received = 0 }

  -- handleFetch of a route with the path: whether it is invalid, the error of router.MessageStore if
  -- there is one, and the rounds.
  unfoldable pub handle_fetch :
      Bytes
      → (S → Bool)
      → Option E
      → List (FetchRound E)
      → FetchRequest
      → S
      → Progress S × ProvideOutcome E
  unfolding run_rounds partition
  handle_fetch path is_invalid no_store rounds request s =
      if is_invalid s then (not_started s, returned (some invalid_route)) else elim no_store [
        | some e ↦ (not_started s, returned (some (reported e)))
        | none ↦ run_rounds rounds (record request { partition = partition path }) (not_started s)
      ]

  module _ (subscribe : S → S × Option E) where
    abbrev report : S × Option E → S × ProvideOutcome E
    report (s, none) = (s, returned none)
    report (s, some e) = (s, returned (some (reported e)))

    unfoldable pub handle_subscribe : S → S × ProvideOutcome E
    handle_subscribe s = report (subscribe s)

    pub then_subscribe : Bool → Progress S × ProvideOutcome E → S × ProvideOutcome E
    unfolding handle_subscribe
    then_subscribe wanted (p, waiting) = (p.route, waiting)
    then_subscribe wanted (p, returned (some e)) = (p.route, returned (some e))
    then_subscribe false (p, returned none) = (p.route, returned none)
    then_subscribe true (p, returned none) = handle_subscribe p.route

    unfoldable pub provide :
        Bytes
        → (S → Bool)
        → Option E
        → List (FetchRound E)
        → Option FetchRequest
        → Bool
        → S
        → S × ProvideOutcome E
    unfolding handle_fetch handle_subscribe then_subscribe
    provide path is_invalid no_store rounds none false s =
        (s, returned (some missing_fetch_request))
    provide path is_invalid no_store rounds none true s = handle_subscribe s
    provide path is_invalid no_store rounds (some request) wanted s =
        then_subscribe wanted (handle_fetch path is_invalid no_store rounds request s)
