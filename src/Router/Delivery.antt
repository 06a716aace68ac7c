-- ===== src/Router/Delivery.antt =====
-- server/router/route.go and message_queue.go: the queue of a route, and its delivery as small
-- steps of the goroutine that delivers, the one that consumes, and whoever closes the route or
-- reads its channel. A critical section is at most one step; Close is two, which begin and end it.
-- Messages are their numbers.
pub mod Order
pub mod Bounds
mod Examples
use guble.Prelude.{
  ℕ, ◌<◌, ◌≤◌, ◌≡◌, ◌≢◌, Bytes, Dict, List, [], ◌∷◌, ◌++◌, Option, none, some, Bool, true, false,
  if◌then◌else◌, nat_eq, ltb, leb, length,
}
use guble.Router.Params.{RouteParams, message_filter}

-- queue.push, remove, poll and size
abbrev pub push : List ℕ → ℕ → List ℕ
push queue m = queue ++ (m ∷ [])

abbrev pub remove : List ℕ → List ℕ
remove [] = []
remove (m ∷ queue) = queue

-- `none` is errEmptyQueue.
abbrev pub poll : List ℕ → Option ℕ
poll [] = none
poll (m ∷ queue) = some m

-- Of the configuration: a queue size below 0 is `none`, a timeout of -1 is `false`.
pub record RouteLimits : Type 0 where
  pub params : RouteParams
  pub channel_size : ℕ
  pub queue_size : Option ℕ
  pub has_timeout : Bool

-- Where the consumer goroutine stands in its loop: not running, before the test of `invalid`, before
-- the poll, sending a message, before the removal, and before the deferred setConsuming(false).
pub data Consumer : Type 0 where
  gone checking polling removing leaving : Consumer
  sending : ℕ → Consumer

-- Where the goroutine that delivers stands in Deliver: outside, past the checks with a message to
-- push, before `consume`'s test, and between the test and setConsuming(true).
pub data Deliverer : Type 0 where
  idle pushed starting : Deliverer
  admitted : ℕ → Deliverer

-- `closed`: messagesC and closeC are closed. `received` and `accepted` are what was read from the
-- channel and pushed to the queue so far.
pub record RouteState : Type 0 where
  pub queue : List ℕ
  pub channel : List ℕ
  pub invalid : Bool
  pub closed : Bool
  pub consuming : Bool
  pub consumer : Consumer
  pub deliverer : Deliverer
  pub received : List ℕ
  pub accepted : List ℕ

abbrev pub new_route : RouteState
new_route = record {
  queue = [];
  channel = [];
  invalid = false;
  closed = false;
  consuming = false;
  consumer = gone;
  deliverer = idle;
  received = [];
  accepted = [];
}

-- What Deliver decides before it pushes.
pub data Verdict : Type 0 where
  invalid_route filtered direct queue_full enqueue : Verdict

pub verdict_of_size : Option ℕ → ℕ → Verdict
verdict_of_size none size = enqueue
verdict_of_size (some queue_size) size =
    if nat_eq queue_size 0 then direct else if leb queue_size size then queue_full else enqueue

-- The checks of Deliver, for a message with the filters given.
unfoldable pub verdict : RouteLimits → RouteState → Option (Dict Bytes Bytes) → Verdict
unfolding verdict_of_size
verdict limits s filters =
    if s.invalid
    then invalid_route
    else if message_filter limits.params filters
    then verdict_of_size limits.queue_size (length s.queue)
    else filtered

pub data Sent : Type 0 where
  sent blocked channel_full : Sent

-- sendDirect on a route that is open: a message from the store waits for room, another closes the
-- route if there is none. Room is in the channel's buffer, or a reader that waits.
pub send_direct : Bool → Bool → Sent
send_direct from_store room = if room then sent else if from_store then blocked else channel_full

-- The consumer on its way out, after a send that failed or a test of `invalid`.
abbrev pub leave : RouteState → RouteState
leave s = record s { consumer = leaving }

module _ (limits : RouteLimits) where
  -- One step. A channel with a buffer of `channel_size` takes a message where it has room; a send on
  -- a closed channel panics, which `send` recovers from, and it then returns no error.
  pub data Step : RouteState → RouteState → Type 0 where
    admit :
        (s : RouteState) (m : ℕ) (filters : Option (Dict Bytes Bytes))
        → s.deliverer ≡ idle
        → verdict limits s filters ≡ enqueue
        → Step s (record s { deliverer = admitted m })
    push_message :
        (s : RouteState) (m : ℕ)
        → s.deliverer ≡ admitted m
        → Step s
            (record s { deliverer = pushed; queue = push s.queue m; accepted = push s.accepted m })
    already_consuming :
        (s : RouteState)
        → s.deliverer ≡ pushed
        → s.consuming ≡ true
        → Step s (record s { deliverer = idle })
    not_consuming :
        (s : RouteState)
        → s.deliverer ≡ pushed
        → s.consuming ≡ false
        → Step s (record s { deliverer = starting })
    start_consumer :
        (s : RouteState)
        → s.deliverer ≡ starting
        → Step s (record s { deliverer = idle; consuming = true; consumer = checking })
    still_valid :
        (s : RouteState)
        → s.consumer ≡ checking
        → s.invalid ≡ false
        → Step s (record s { consumer = polling })
    stop_invalid : (s : RouteState) → s.consumer ≡ checking → s.invalid ≡ true → Step s (leave s)
    poll_message :
        (s : RouteState) (m : ℕ)
        → s.consumer ≡ polling
        → poll s.queue ≡ some m
        → Step s (record s { consumer = sending m })
    poll_empty : (s : RouteState) → s.consumer ≡ polling → poll s.queue ≡ none → Step s (leave s)
    send_message :
        (s : RouteState) (m : ℕ)
        → s.consumer ≡ sending m
        → s.closed ≡ false
        → length s.channel < limits.channel_size
        → Step s (record s { consumer = removing; channel = push s.channel m })
    hand_over :
        (s : RouteState) (m : ℕ)
        → s.consumer ≡ sending m
        → s.closed ≡ false
        → s.channel ≡ []
        → Step s (record s { consumer = removing; received = push s.received m })
    send_panics :
        (s : RouteState) (m : ℕ)
        → s.consumer ≡ sending m
        → s.closed ≡ true
        → Step s (record s { consumer = removing })
    send_finds_closed :
        (s : RouteState) (m : ℕ)
        → s.consumer ≡ sending m
        → limits.has_timeout ≡ true
        → s.closed ≡ true
        → Step s (leave s)
    send_times_out :
        (s : RouteState) (m : ℕ)
        → s.consumer ≡ sending m
        → limits.has_timeout ≡ true
        → Step s (leave (record s { invalid = true }))
    remove_message :
        (s : RouteState)
        → s.consumer ≡ removing
        → Step s (record s { consumer = checking; queue = remove s.queue })
    stop_consuming :
        (s : RouteState)
        → s.consumer ≡ leaving
        → Step s (record s { consumer = gone; consuming = false })
    close_begins : (s : RouteState) → s.invalid ≡ false → Step s (record s { invalid = true })
    close_ends : (s : RouteState) → s.invalid ≡ true → Step s (record s { closed = true })
    receive :
        (s : RouteState) (m : ℕ) (rest : List ℕ)
        → s.channel ≡ m ∷ rest
        → Step s (record s { channel = rest; received = push s.received m })

  pub data Steps : RouteState → RouteState → Type 0 where
    here : (s : RouteState) → Steps s s
    step : (s t u : RouteState) → Step s t → Steps t u → Steps s u

  abbrev pub Reachable : RouteState → Type 0
  Reachable s = Steps new_route s
