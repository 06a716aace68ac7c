-- ===== src/Connector/Running.antt =====
-- Run of server/connector/connector.go and Loop of subscriber.go: the goroutine that provides a
-- subscriber's route and the one that reads its channel. A step of one of them is an event, as are
-- what happens to the subscriber from outside; `none` is an event that cannot happen. Messages are
-- numbers, and what the queue does with a request is in Queue.
pub mod Explained
pub mod Waiting
mod Examples
use guble.Prelude.{
  ℕ, List, [], ◌∷◌, Option, none, some, Bool, true, false, not, ◌||◌, ◌&&◌, if◌then◌else◌,
}
use guble.Connector.Subscriber.{Subscriber, set_last_id, reset}

-- What Provide can give; `fetch_failed` is any error of the store.
pub data ProviderError : Type 0 where
  invalid_route module_stopping missing_fetch_request fetch_failed : ProviderError

pub data LoopEnd : Type 0 where
  no_error canceled route_channel_closed : LoopEnd

-- `provided` is whether Provide has returned, `cancelled` whether sCtx is done, `stopping` whether ctx
-- is; `pushed` has the last message first.
pub record SubscriberRun : Type 0 where
  pub subscriber : Subscriber
  pub provided : Bool
  pub provide_error : Option ProviderError
  pub cancelled : Bool
  pub stopping : Bool
  pub loop_end : Option LoopEnd
  pub pushed : List ℕ

abbrev pub started : Subscriber → SubscriberRun
started s = record {
  subscriber = s;
  provided = false;
  provide_error = none;
  cancelled = false;
  stopping = false;
  loop_end = none;
  pushed = [];
}

-- Provide returns; Loop begins, reads a message, finds the channel closed, or sees that a context is
-- done; a response sets the last id; Remove cancels the subscriber; Stop cancels ctx.
pub data Event : Type 0 where
  provide_ends : Option ProviderError → Event
  loop_begins route_closed sees_done removed stop : Event
  message responded : ℕ → Event

-- Cancel of the subscriber does nothing if Loop has not begun or has ended.
abbrev pub cancel : SubscriberRun → SubscriberRun
cancel r = record r { cancelled = r.cancelled || r.subscriber.looping }

abbrev pub provide_returns : Option ProviderError → SubscriberRun → SubscriberRun
provide_returns none r = record r { provided = true }
provide_returns (some e) r = cancel (record r { provided = true; provide_error = some e })

abbrev pub set_looping : Bool → SubscriberRun → SubscriberRun
set_looping looping r = record r { subscriber = record (r.subscriber) { looping = looping } }

abbrev pub is_none : Option LoopEnd → Bool
is_none none = true
is_none (some e) = false

-- The return of Loop, which sets `cancel` to nil.
abbrev pub end_loop : LoopEnd → SubscriberRun → SubscriberRun
end_loop e r = set_looping false (record r { loop_end = some e })

abbrev pub if_possible : Bool → SubscriberRun → Option SubscriberRun
if_possible possible r = if possible then some r else none

unfoldable pub step : Event → SubscriberRun → Option SubscriberRun
step (provide_ends e) r = if_possible (not r.provided) (provide_returns e r)
step loop_begins r =
    if_possible (not r.subscriber.looping && is_none r.loop_end) (set_looping true r)
step (message m) r = if_possible r.subscriber.looping (record r { pushed = m ∷ r.pushed })
step route_closed r = if_possible r.subscriber.looping (end_loop route_channel_closed r)
step sees_done r =
    if_possible (r.subscriber.looping && (r.cancelled || r.stopping))
      (end_loop (if r.stopping then no_error else canceled) r)
step removed r = some (cancel r)
step stop r = some (record r { stopping = true })
step (responded id) r = some (record r { subscriber = set_last_id id r.subscriber })

abbrev pub run_from :
    (SubscriberRun → Option SubscriberRun) → Option SubscriberRun → Option SubscriberRun
run_from continue none = none
run_from continue (some r) = continue r

unfoldable pub run : List Event → SubscriberRun → Option SubscriberRun
unfolding step
run [] r = some r
run (e ∷ events) r = run_from (run events) (step e r)

-- What Run does when Loop has ended: it unsubscribes the route, runs the subscriber again, or returns.
pub data RunEnd : Type 0 where
  unsubscribed returned : RunEnd
  restarted : Subscriber → RunEnd

-- restart: Cancel does nothing, since Loop has ended.
abbrev pub restart : Subscriber → RunEnd
restart s = restarted (reset s)

unfoldable pub run_end : LoopEnd → Option ProviderError → Subscriber → RunEnd
run_end no_error none s = returned
run_end canceled none s = unsubscribed
run_end route_channel_closed none s = restart s
run_end e (some invalid_route) s = restart s
run_end e (some _) s = returned
