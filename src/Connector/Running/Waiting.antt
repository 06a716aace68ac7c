-- ===== src/Connector/Running/Waiting.antt =====
-- A Provide that fails before Loop begins: its Cancel is lost.
use mathlib.Core.Path.{subst}
use guble.Prelude.{
  ◌≡◌, refl, sym, ap, ◌∙◌, List, [], ◌∷◌, Option, none, some, Bool, true, false, not, ◌||◌, ◌&&◌,
  if◌then◌else◌, All,
}
use guble.Connector.Subscriber.{Subscriber, set_last_id}
use guble.Connector.Running.{
  ProviderError, LoopEnd, no_error, canceled, SubscriberRun, started, Event, provide_ends,
  loop_begins, route_closed, sees_done, removed, stop, message, responded, provide_returns,
  set_looping, is_none, end_loop, if_possible, step, run_from, run,
}

-- No channel is closed, and neither the subscriber nor the connector ends.
abbrev pub Quiet : Event → Type 0
Quiet route_closed = ⊥
Quiet removed = ⊥
Quiet stop = ⊥
Quiet _ = Unit

-- Loop runs, and nothing of what it knows of will end it.
record Waits (error : ProviderError) (looping provided cancelled stopping : Bool)
    (provide_error : Option ProviderError) (loop_end : Option LoopEnd) : Type 0 where
  loops : looping ≡ true
  returned : provided ≡ true
  not_cancelled : cancelled ≡ false
  not_stopping : stopping ≡ false
  failed_with : provide_error ≡ some error
  not_ended : loop_end ≡ none

abbrev IsWaiting : ProviderError → SubscriberRun → Type 0
IsWaiting e r =
    Waits e r.subscriber.looping r.provided r.cancelled r.stopping r.provide_error r.loop_end

abbrev After : (SubscriberRun → Type 0) → Option SubscriberRun → Type 0
After P none = Unit
After P (some r) = P r

impossible :
    (P : SubscriberRun → Type 0) (possible : Bool) (r : SubscriberRun)
    → possible ≡ false
    → After P (if_possible possible r)
impossible P true r h = absurd (cc)
impossible P false r h = tt

possible-After :
    (P : SubscriberRun → Type 0) (possible : Bool) (r : SubscriberRun)
    → P r
    → After P (if_possible possible r)
possible-After P true r h = h
possible-After P false r h = tt

step-IsWaiting :
    (error : ProviderError) (e : Event) (r : SubscriberRun)
    → Quiet e
    → IsWaiting error r
    → After (IsWaiting error) (step e r)
unfolding step set_last_id
step-IsWaiting error (provide_ends o) r q w =
    impossible (IsWaiting error) (not r.provided) (provide_returns o r) (ap not w.returned)
step-IsWaiting error loop_begins r q w =
    impossible (IsWaiting error) (not r.subscriber.looping && is_none r.loop_end)
      (set_looping true r) (ap (λ b. not b && is_none r.loop_end) w.loops)
step-IsWaiting error sees_done r q w =
    impossible (IsWaiting error) (r.subscriber.looping && (r.cancelled || r.stopping))
      (end_loop (if r.stopping then no_error else canceled) r)
      (rw (w.loops, w.not_cancelled, w.not_stopping) refl)
step-IsWaiting error (message m) r q w =
    possible-After (IsWaiting error) r.subscriber.looping (record r { pushed = m ∷ r.pushed }) w
step-IsWaiting error (responded id) r q w = w
step-IsWaiting error route_closed r q w = absurd q
step-IsWaiting error removed r q w = absurd q
step-IsWaiting error stop r q w = absurd q

run-IsWaiting :
    (error : ProviderError) (events : List Event) (r : SubscriberRun)
    → All Quiet events
    → IsWaiting error r
    → After (IsWaiting error) (run events r)
unfolding run
run-IsWaiting error [] r q w = w
run-IsWaiting error (e ∷ events) r q w =
    after (run events) (step e r) (step-IsWaiting error e r q.0 w)
      (λ r' w'. run-IsWaiting error events r' q.1 w')
  where
    after :
        (continue : SubscriberRun → Option SubscriberRun) (o : Option SubscriberRun)
        → After (IsWaiting error) o
        → ((r' : SubscriberRun) → IsWaiting error r' → After (IsWaiting error) (continue r'))
        → After (IsWaiting error) (run_from continue o)
    after continue none h f = tt
    after continue (some r') h f = f r' h

-- If Provide fails before Loop has begun, then Loop goes on, whatever it reads and whatever the
-- responses are, until the route is closed, the subscriber removed or the connector stopped: the
-- error is not looked at.
pub run_waits :
    (s : Subscriber) (error : ProviderError) (events : List Event) (r : SubscriberRun)
    → s.looping ≡ false
    → All Quiet events
    → run (provide_ends (some error) ∷ loop_begins ∷ events) (started s) ≡ some r
    → (r.loop_end ≡ none) × (r.provide_error ≡ some error) × (r.subscriber.looping ≡ true)
unfolding run step
run_waits s error events r idle q h = (w.not_ended, w.failed_with, w.loops)
  where
    failed : SubscriberRun
    failed = record (started s) {
      provided = true;
      provide_error = some error;
      cancelled = s.looping;
    }

    begins : run (loop_begins ∷ events) failed ≡ run events (set_looping true failed)
    begins =
        ap (λ b. run_from (run events) (if_possible (not b && true) (set_looping true failed))) idle

    w : IsWaiting error r
    w = subst (After (IsWaiting error)) (sym begins ∙ h) (
        run-IsWaiting error events (set_looping true failed) q (record {
          loops = refl;
          returned = refl;
          not_cancelled = idle;
          not_stopping = refl;
          failed_with = refl;
          not_ended = refl;
        }))
