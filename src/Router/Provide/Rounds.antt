-- ===== src/Router/Provide/Rounds.antt =====
-- What the rounds of a fetch deliver before the route subscribes.
use guble.Prelude.{
  ℕ, suc, ◌+◌, ◌<◌, ◌≤◌, ◌≡◌, refl, ap, sym, ◌∙◌, Bytes, List, [], ◌∷◌, ◌++◌, Option, none, some,
  Bool, true, false, inr, length, arith,
}
use guble.Protocol.Split.{partition}
use guble.Protocol.Message.{Message, Json, parsed, parse_message}
use guble.Store.Fetch.{FetchRequest}
use guble.Router.Provide.{
  returned, ends, refetch, RouteEvent, fetched, channel_closed, FetchRound, Progress, is_complete,
  count_delivered, after_deliver, deliver_parsed, then_next, read_fetched, start_fetch,
  run_fetch_round, next_round, run_rounds, not_started, handle_fetch, handle_subscribe,
  then_subscribe, provide,
}

-- Texts of the store with the messages they are of.
abbrev pub Stored : Type 0
Stored = List (Bytes × Message)

abbrev pub last_id_or : ℕ → Stored → ℕ
last_id_or id [] = id
last_id_or id ((text, m) ∷ l) = last_id_or m.id l

-- The number of received messages after those of a list.
abbrev received_after : ℕ → Stored → ℕ
received_after n [] = n
received_after n (x ∷ l) = received_after (suc n) l

received_after-length : (n : ℕ) (l : Stored) → received_after n l ≡ length l + n
received_after-length n [] = omega arith
received_after-length n (x ∷ l) = received_after-length (suc n) l ∙ omega arith

goes_on :
    (request : FetchRequest) (max last_id received : ℕ)
    → request.start_id ≤ max
    → received < request.count
    → last_id < max
    → (0 < request.end_id → last_id < request.end_id)
    → is_complete request max last_id received ≡ false
unfolding is_complete
goes_on request max last_id received s c m e = ground arith

at_end :
    (request : FetchRequest) (max last_id received : ℕ)
    → max ≤ last_id
    → is_complete request max last_id received ≡ true
unfolding is_complete
at_end request max last_id received c = ground arith

has_count :
    (request : FetchRequest) (max last_id received : ℕ)
    → request.count ≤ received
    → is_complete request max last_id received ≡ true
unfolding is_complete
has_count request max last_id received c = ground arith

module _ {S E : Type 0} (json : Json) (deliver : Message → S → S × Option E) where
  abbrev pub events_of : Stored → List (RouteEvent E)
  events_of [] = channel_closed ∷ []
  events_of ((text, m) ∷ l) = fetched text ∷ events_of l

  -- The route after the messages were delivered in order.
  abbrev pub delivered_to : Stored → S → S
  delivered_to [] s = s
  delivered_to ((text, m) ∷ l) s = delivered_to l (deliver m s).0

  -- Each text can be parsed, and its delivery reports no error.
  abbrev pub Delivers : Stored → S → Type 0
  Delivers [] s = Unit
  Delivers ((text, m) ∷ l) s =
      (parse_message json text ≡ parsed m) × (((deliver m s).1 ≡ none) × Delivers l (deliver m s).0)

  delivered_to-append :
      (l more : Stored) (s : S) → delivered_to (l ++ more) s ≡ delivered_to more (delivered_to l s)
  delivered_to-append [] more s = refl
  delivered_to-append ((text, m) ∷ l) more s = delivered_to-append l more (deliver m s).0

  Delivers-append :
      (l more : Stored) (s : S)
      → Delivers (l ++ more) s
      → Delivers l s × Delivers more (delivered_to l s)
  Delivers-append [] more s d = (tt, d)
  Delivers-append ((text, m) ∷ l) more s (e, (f, d)) =
      let (first, then) = Delivers-append l more (deliver m s).0 d in ((e, (f, first)), then)

  abbrev advance : Stored → Progress S → Progress S
  advance l p = record {
    route = delivered_to l p.route;
    last_id = last_id_or p.last_id l;
    received = received_after p.received l;
  }

  -- A round in which the store has messages: the highest id, and the messages it sends.
  pub record Answers (r : FetchRound E) (max : ℕ) (l : Stored) : Type 0 where
    pub max_message_id : r.max_message_id ≡ inr max
    pub fetch : r.fetch ≡ none
    pub ready : r.ready ≡ true
    pub events : r.events ≡ events_of l

  after_deliver-none :
      (m : Message) (p : Progress S) (q : S × Option E)
      → q.1 ≡ none
      → after_deliver json deliver m p q ≡ (count_delivered json deliver m p q.0, none)
  unfolding after_deliver
  after_deliver-none m p (s, none) e = refl
  after_deliver-none m p (s, some x) e = cc

  deliver_parsed-none :
      (text : Bytes) (m : Message) (p : Progress S)
      → parse_message json text ≡ parsed m
      → (deliver m p.route).1 ≡ none
      → deliver_parsed json deliver (parse_message json text) p
        ≡ (count_delivered json deliver m p (deliver m p.route).0, none)
  unfolding deliver_parsed
  deliver_parsed-none text m p e f = rw e (after_deliver-none m p (deliver m p.route) f)

  read_fetched-advance :
      (l : Stored) (route : S) (last_id received : ℕ)
      → Delivers l route
      → read_fetched json deliver
          (events_of l)
          (record { route = route; last_id = last_id; received = received })
        ≡ (advance l (record { route = route; last_id = last_id; received = received }), refetch)
  unfolding read_fetched then_next
  read_fetched-advance [] s last_id received d = refl
  read_fetched-advance ((text, m) ∷ l) s last_id received (e, (f, d)) =
      ap (then_next json deliver (read_fetched json deliver (events_of l))) (
        deliver_parsed-none text m (record { route = s; last_id = last_id; received = received }) e
          f)
      ∙ read_fetched-advance l (deliver m s).0 m.id (suc received) d

  module _ (request : FetchRequest) where
    -- A round that goes on delivers the messages of the store.
    run_fetch_round-advance :
        (r : FetchRound E) (max : ℕ) (l : Stored) (route : S) (last_id received : ℕ)
        → Answers r max l
        → Delivers l route
        → is_complete request max last_id received ≡ false
        → run_fetch_round json deliver r request
            (record { route = route; last_id = last_id; received = received })
          ≡ (
            record {
              route = delivered_to l route;
              last_id = last_id_or last_id l;
              received = received_after received l;
            },
            refetch,
          )
    unfolding run_fetch_round start_fetch
    run_fetch_round-advance r max l route last_id received a d c =
        rw (a.max_message_id, c, a.fetch, a.ready, a.events)
          (read_fetched-advance l route last_id received d)

    -- A round that finds the fetch complete ends it.
    run_fetch_round_complete :
        (r : FetchRound E) (max : ℕ) (p : Progress S)
        → r.max_message_id ≡ inr max
        → is_complete request max p.last_id p.received ≡ true
        → run_fetch_round json deliver r request p ≡ (p, ends (returned none))
    unfolding run_fetch_round
    run_fetch_round_complete r max p m c = rw (m, c) refl

    rounds-advance :
        (r : FetchRound E) (rounds : List (FetchRound E)) (max : ℕ) (l : Stored) (route : S)
        (last_id received : ℕ)
        → Answers r max l
        → Delivers l route
        → is_complete request max last_id received ≡ false
        → run_rounds json deliver
            (r ∷ rounds)
            request
            (record { route = route; last_id = last_id; received = received })
          ≡ run_rounds json deliver rounds request (record {
            route = delivered_to l route;
            last_id = last_id_or last_id l;
            received = received_after received l;
          })
    unfolding run_rounds next_round
    rounds-advance r rounds max l route last_id received a d c =
        ap (next_round json deliver (run_rounds json deliver rounds request))
          (run_fetch_round-advance r max l route last_id received a d c)

    rounds_complete :
        (r : FetchRound E) (rounds : List (FetchRound E)) (max : ℕ) (p : Progress S)
        → r.max_message_id ≡ inr max
        → is_complete request max p.last_id p.received ≡ true
        → run_rounds json deliver (r ∷ rounds) request p ≡ (p, returned none)
    unfolding run_rounds next_round
    rounds_complete r rounds max p m c =
        ap (next_round json deliver (run_rounds json deliver rounds request))
          (run_fetch_round_complete r max p m c)

  module _ (subscribe : S → S × Option E) (path : Bytes) (is_invalid : S → Bool)
      (request : FetchRequest) (s : S) where
    -- The route subscribes once its fetch is complete.
    provide_after :
        (rounds : List (FetchRound E)) (p : Progress S)
        → is_invalid s ≡ false
        → run_rounds json deliver rounds
            (record request { partition = partition path })
            (not_started json deliver s)
          ≡ (p, returned none)
        → provide json deliver subscribe path is_invalid none rounds (some request) true s
          ≡ handle_subscribe json deliver subscribe p.route
    unfolding provide handle_fetch then_subscribe
    provide_after rounds p v e = rw v (ap (then_subscribe json deliver subscribe true) e)

    -- A route gets the messages that the store sends it, each once and in order, and then subscribes,
    -- if the last of them is the last of the partition when they are through.
    pub provide-delivered_to :
        (r next : FetchRound E) (rounds : List (FetchRound E)) (max max' : ℕ) (l : Stored)
        → is_invalid s ≡ false
        → Answers r max l
        → Delivers l s
        → request.start_id ≤ max
        → 0 < max
        → 0 < request.count
        → next.max_message_id ≡ inr max'
        → max' ≤ last_id_or 0 l
        → provide json deliver subscribe path is_invalid none
            (r ∷ next ∷ rounds)
            (some request)
            true
            s
          ≡ handle_subscribe json deliver subscribe (delivered_to l s)
    provide-delivered_to r next rounds max max' l v a d h m c n e =
        provide_after (r ∷ next ∷ rounds) _ v (
          rounds-advance of_path r (next ∷ rounds) max l s 0 0 a d
            (goes_on of_path max 0 0 h c m (λ x. x))
          ∙ rounds_complete of_path next rounds max' _ n (at_end of_path max' (last_id_or 0 l) _ e))
      where
        of_path : FetchRequest
        of_path = record request { partition = partition path }

    -- The second round asks for the same messages: if the store answers as before, because the last of
    -- them is not the last of the partition and there are fewer than the count, then all of them are
    -- delivered twice, and no error is returned.
    pub provide-repeats :
        (r next : FetchRound E) (rounds : List (FetchRound E)) (max max' : ℕ) (l : Stored)
        → is_invalid s ≡ false
        → Answers r max l
        → Delivers (l ++ l) s
        → request.start_id ≤ max
        → last_id_or 0 l < max
        → (0 < request.end_id → last_id_or 0 l < request.end_id)
        → length l < request.count
        → request.count ≤ length l + length l
        → next.max_message_id ≡ inr max'
        → provide json deliver subscribe path is_invalid none
            (r ∷ r ∷ next ∷ rounds)
            (some request)
            true
            s
          ≡ handle_subscribe json deliver subscribe (delivered_to (l ++ l) s)
    provide-repeats r next rounds max max' l v a d h m e c twice n =
        provide_after (r ∷ r ∷ next ∷ rounds) _ v (
          rounds-advance of_path r (r ∷ next ∷ rounds) max l s 0 0 a split.0
            (goes_on of_path max 0 0 h (omega arith) (omega arith) (λ x. x))
          ∙ rounds-advance of_path r (next ∷ rounds) max l (delivered_to l s) (last_id_or 0 l)
              (received_after 0 l) a split.1
              (goes_on of_path max (last_id_or 0 l) (received_after 0 l) h
                (rw (received_after-length 0 l) (omega arith)) m e)
          ∙ rounds_complete of_path next rounds max' _ n (
              has_count of_path max' (last_id_or (last_id_or 0 l) l)
                (received_after (received_after 0 l) l)
                (rw (received_after-length (received_after 0 l) l, received_after-length 0 l)
                  (omega arith))))
        ∙ ap (handle_subscribe json deliver subscribe) (sym (delivered_to-append l l s))
      where
        of_path : FetchRequest
        of_path = record request { partition = partition path }

        split : Delivers l s × Delivers l (delivered_to l s)
        split = Delivers-append l l s d
