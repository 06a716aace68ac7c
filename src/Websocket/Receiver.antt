-- ===== src/Websocket/Receiver.antt =====
-- server/websocket/receiver.go: a receiver fetches messages and then gets them from a subscription.
-- What the selects of its loops take from their channels is given as lists of events, and what it
-- puts into the channel of the client is a list of outputs.
pub mod Ascending
use guble.Prelude.{
  ℕ, zero, suc, ◌+◌, ◌-◌, ◌%◌, ◌^◌, Bytes, List, [], ◌∷◌, ◌++◌, Option, none, some, Bool, true,
  false, not, ◌&&◌, if◌then◌else◌, ltb, nat_eq, codes,
}
use guble.Protocol.Split.{split_n, partition}
use guble.Protocol.Decimal.{ℤ, pos, negsuc, parse_int}
use guble.Router.Topic.{slash}
use guble.Store.Fetch.{Direction, forward, backwards, max_int32}

pub record Receiver : Type 0 where
  pub path : Bytes
  pub do_fetch : Bool
  pub do_subscription : Bool
  pub start_id : ℤ
  pub max_count : ℤ
  pub last_sent_id : ℕ
  pub should_stop : Bool

pub data CommandError : Type 0 where
  missing_path : CommandError
  invalid_start_id : Bytes → CommandError
  invalid_max_count : Bytes → CommandError

pub data NewReceiver : Type 0 where
  receiver : Receiver → NewReceiver
  refused : CommandError → NewReceiver

abbrev pub space : ℕ
space = 32

abbrev pub from_path : Bytes → Receiver
from_path path = record {
  path = path;
  do_fetch = false;
  do_subscription = true;
  start_id = pos 0;
  max_count = pos 0;
  last_sent_id = 0;
  should_stop = false;
}

abbrev pub with_start : Bytes → Bytes → Option ℤ → NewReceiver
with_start path text none = refused (invalid_start_id text)
with_start path text (some start) =
    receiver (record (from_path path) { do_fetch = true; start_id = start })

-- The error of a count prints the start id.
abbrev pub with_count : Bytes → NewReceiver → Option ℤ → NewReceiver
with_count text (refused e) count = refused e
with_count text (receiver rec) none = refused (invalid_max_count text)
with_count text (receiver rec) (some count) =
    receiver (record rec { do_subscription = false; max_count = count })

abbrev pub from_args : List Bytes → NewReceiver
from_args [] = refused missing_path
from_args (path ∷ []) = receiver (from_path path)
from_args (path ∷ start ∷ []) = with_start path start (parse_int start)
from_args (path ∷ start ∷ count ∷ more) =
    with_count start (with_start path start (parse_int start)) (parse_int count)

-- NewReceiverFromCmd of the argument of the command
unfoldable pub new_receiver_from_cmd : Bytes → NewReceiver
new_receiver_from_cmd [] = refused missing_path
new_receiver_from_cmd (b ∷ arg) =
    if nat_eq b slash then from_args (split_n space (b ∷ arg) 3) else refused missing_path

-- Start: whether the receiver only fetches.
abbrev pub fetches_only : Receiver → Bool
fetches_only rec = rec.do_fetch && not rec.do_subscription

pub record ReceiverFetch : Type 0 where
  pub partition_name : Bytes
  pub direction : Direction
  pub start : ℕ
  pub count : ℤ

-- -1 * int(rec.startID) of an int64
abbrev pub negated : ℕ → ℤ
negated n = if nat_eq (suc n) (2 ^ 63) then negsuc n else pos (suc n)

abbrev pub count_or : ℤ → ℤ → ℤ
count_or (pos zero) default = default
count_or count default = count

-- The request of fetch, with the largest id of the partition for a start before the end.
abbrev pub request_from : Receiver → ℤ → ℕ → ReceiverFetch
request_from rec (pos n) max_id = record {
  partition_name = partition rec.path;
  direction = forward;
  start = n;
  count = count_or rec.max_count (pos max_int32);
}
request_from rec (negsuc n) max_id = record {
  partition_name = partition rec.path;
  direction = backwards;
  start = max_id;
  count = count_or rec.max_count (negated n);
}

unfoldable pub fetch_request_of : Receiver → ℕ → ReceiverFetch
fetch_request_of rec max_id = request_from rec rec.start_id max_id

-- A notification by its name and argument, or a message with its id.
pub data Output : Type 0 where
  fetch_start : ℕ → Output
  fetch_end canceled subscribed_to not_subscribed internal_error : Output
  message : ℕ → Bytes → Output

pub data FetchEvent : Type 0 where
  counted : ℕ → FetchEvent
  fetched : ℕ → Bytes → FetchEvent
  closed failed cancel_fetch : FetchEvent

-- Whether fetch has returned, with an error or not, or waits.
pub data FetchEnd : Type 0 where
  returned errored waiting : FetchEnd

-- The loop of fetch
unfoldable pub fetch_loop : List FetchEvent → Receiver → List Output × (FetchEnd × Receiver)
fetch_loop [] rec = ([], (waiting, rec))
fetch_loop (counted n ∷ events) rec =
    let (out, end) = fetch_loop events rec in (fetch_start n ∷ out, end)
fetch_loop (fetched id bytes ∷ events) rec =
    let (out, end) = fetch_loop events (record rec { last_sent_id = id }) in
    (message id bytes ∷ out, end)
fetch_loop (closed ∷ events) rec = (fetch_end ∷ [], (returned, rec))
fetch_loop (failed ∷ events) rec = ([], (errored, rec))
fetch_loop (cancel_fetch ∷ events) rec =
    (canceled ∷ [], (returned, record rec { should_stop = true }))

pub data ReceiveEvent : Type 0 where
  delivered : ℕ → Bytes → ReceiveEvent
  route_closed cancel_subscription : ReceiveEvent

-- receiveFromSubscription: whether it has returned. A message that was sent before is dropped.
unfoldable pub receive_loop : List ReceiveEvent → Receiver → List Output × (Bool × Receiver)
receive_loop [] rec = ([], (false, rec))
receive_loop (delivered id bytes ∷ events) rec =
    let (out, end) = receive_loop events (record rec { last_sent_id = id }) in
    let dropped = receive_loop events rec in
    if ltb rec.last_sent_id id then (message id bytes ∷ out, end) else dropped
receive_loop (route_closed ∷ events) rec = ([], (true, rec))
receive_loop (cancel_subscription ∷ events) rec =
    (canceled ∷ [], (true, record rec { should_stop = true }))

-- What one round of subscriptionLoop meets: the events of its fetch, the largest id in the
-- transaction if that can be read, whether the router takes the route, and the events after that.
pub record Round : Type 0 where
  pub fetch_events : List FetchEvent
  pub max_message_id : Option ℕ
  pub accepted : Bool
  pub receive_events : List ReceiveEvent

-- int64(rec.lastSentID) + 1
abbrev pub signed_word : ℕ → ℤ
signed_word v = if ltb v (2 ^ 63) then pos v else negsuc (2 ^ 64 - 1 - v)

abbrev pub fetch_next : Receiver → Receiver
fetch_next rec = record rec { start_id = signed_word ((rec.last_sent_id + 1) % 2 ^ 64) }

-- The loop goes on, or the goroutine has ended or waits in a channel.
pub data RoundEnd : Type 0 where
  again over : RoundEnd

-- After the subscription has ended, its gap is fetched in the next round, unless it was cancelled.
abbrev pub after_receive : List Output × (Bool × Receiver) → List Output × (RoundEnd × Receiver)
after_receive (out, (false, rec)) = (out, (over, rec))
after_receive (out, (true, rec)) =
    (out, (again, if rec.should_stop then rec else record (fetch_next rec) { do_fetch = true }))

abbrev pub put_first :
    List Output → List Output × (RoundEnd × Receiver) → List Output × (RoundEnd × Receiver)
put_first front (out, end) = (front ++ out, end)

-- subscribe, whose error is only reported, and what follows
unfoldable pub subscribe_and_receive : Round → Receiver → List Output × (RoundEnd × Receiver)
unfolding receive_loop
subscribe_and_receive r rec =
    put_first ((if r.accepted then subscribed_to else not_subscribed) ∷ [])
      (after_receive (receive_loop r.receive_events rec))

-- The transaction: the subscription is made if no message is unread.
abbrev pub in_transaction : Option ℕ → Round → Receiver → List Output × (RoundEnd × Receiver)
in_transaction none r rec = (internal_error ∷ [], (over, rec))
in_transaction (some max) r rec =
    if ltb rec.last_sent_id max then ([], (again, fetch_next rec)) else subscribe_and_receive r rec

abbrev pub after_fetch :
    Round → List Output × (FetchEnd × Receiver) → List Output × (RoundEnd × Receiver)
after_fetch r (out, (returned, rec)) = put_first out (in_transaction r.max_message_id r rec)
after_fetch r (out, (errored, rec)) = (out ++ (internal_error ∷ []), (over, rec))
after_fetch r (out, (waiting, rec)) = (out, (over, rec))

unfoldable pub run_round : Round → Receiver → List Output × (RoundEnd × Receiver)
unfolding subscribe_and_receive fetch_loop
run_round r rec =
    if rec.do_fetch
    then after_fetch r (fetch_loop r.fetch_events rec)
    else subscribe_and_receive r rec

-- The outputs of a round, and those of the rounds after it if there are any.
abbrev pub then_rest :
    List Output × (RoundEnd × Receiver) → List Output × Receiver → List Output × Receiver
then_rest (out, (over, rec)) rest = (out, rec)
then_rest (out, (again, rec)) (more, last) = (out ++ more, last)

-- subscriptionLoop, over the rounds to come
unfoldable pub subscription_loop : List Round → Receiver → List Output × Receiver
unfolding run_round
subscription_loop [] rec = ([], rec)
subscription_loop (r ∷ rounds) rec =
    let now = run_round r rec in
    let rest = subscription_loop rounds now.1.1 in
    if rec.should_stop then ([], rec) else then_rest now rest

-- fetchOnlyLoop
abbrev pub fetched_only : List Output × (FetchEnd × Receiver) → List Output × Receiver
fetched_only (out, (errored, rec)) = (out ++ (internal_error ∷ []), rec)
fetched_only (out, (end, rec)) = (out, rec)

unfoldable pub fetch_only_loop : List FetchEvent → Receiver → List Output × Receiver
unfolding fetch_loop
fetch_only_loop events rec = fetched_only (fetch_loop events rec)
