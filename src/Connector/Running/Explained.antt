-- ===== src/Connector/Running/Explained.antt =====
-- Why a run of a subscriber ended.
use mathlib.Core.Path.{subst}
use guble.Prelude.{
  arith, ℕ, ◌≡◌, refl, List, [], ◌∷◌, Option, none, some, Bool, true, false, not, ◌||◌, ◌&&◌,
  if◌then◌else◌, ◌≢◌, ◌⊎◌, inl, inr,
}
use guble.Connector.Subscriber.{SubscriberData, Subscriber, new_route, reset, set_last_id}
use guble.Connector.Running.{
  ProviderError, invalid_route, module_stopping, missing_fetch_request, fetch_failed, LoopEnd,
  no_error, canceled, route_channel_closed, SubscriberRun, started, Event, provide_ends,
  loop_begins, route_closed, sees_done, removed, stop, message, responded, cancel, provide_returns,
  set_looping, is_none, end_loop, if_possible, step, RunEnd, unsubscribed, returned, restarted,
  run_end,
}

abbrev pub Happened : Event → List Event → Type 0
Happened e [] = ⊥
Happened e (d ∷ seen) = (d ≡ e) ⊎ Happened e seen

-- What has happened, the last first, and the state after it.
pub data Reach (s : Subscriber) : List Event → SubscriberRun → Type 0 where
  here : Reach s [] (started s)
  next :
      {seen : List Event} {r after : SubscriberRun} {e : Event}
      → Reach s seen r
      → step e r ≡ some after
      → Reach s (e ∷ seen) after

-- The reasons of a cancelled subscriber, of the error of Provide, and of the end of Loop.
abbrev Cancelled : List Event → Option ProviderError → Bool → Type 0
Cancelled seen error false = Unit
Cancelled seen none true = Happened removed seen
Cancelled seen (some e) true = Unit

abbrev Provided : List Event → Option ProviderError → Type 0
Provided seen none = Unit
Provided seen (some e) = Happened (provide_ends (some e)) seen

abbrev Stopping : List Event → Bool → Type 0
Stopping seen false = Unit
Stopping seen true = Happened stop seen

abbrev Ended : List Event → Bool → Option LoopEnd → Type 0
Ended seen cancelled none = Unit
Ended seen cancelled (some no_error) = Happened stop seen
Ended seen cancelled (some canceled) = cancelled ≡ true
Ended seen cancelled (some route_channel_closed) = Happened route_closed seen

-- Of what the events so far have left: the data, the error of Provide, whether the subscriber was
-- cancelled and whether the connector stops, and the end of Loop.
record Reasons (s : Subscriber) (seen : List Event) (d : SubscriberData)
    (error : Option ProviderError) (was_cancelled stopping : Bool) (loop_end : Option LoopEnd)
    : Type 0 where
  topic : d.topic ≡ s.data'.topic
  params : d.params ≡ s.data'.params
  why_cancelled : Cancelled seen error was_cancelled
  why_provided : Provided seen error
  why_stopping : Stopping seen stopping
  why_ended : Ended seen was_cancelled loop_end

abbrev Invariant : Subscriber → List Event → SubscriberRun → Type 0
Invariant s seen r =
    Reasons s seen r.subscriber.data' r.provide_error r.cancelled r.stopping r.loop_end

Cancelled-more :
    (e : Event) (seen : List Event) (error : Option ProviderError) (c : Bool)
    → Cancelled seen error c
    → Cancelled (e ∷ seen) error c
Cancelled-more e seen error false h = tt
Cancelled-more e seen none true h = inr h
Cancelled-more e seen (some x) true h = tt

Provided-more :
    (e : Event) (seen : List Event) (error : Option ProviderError)
    → Provided seen error
    → Provided (e ∷ seen) error
Provided-more e seen none h = tt
Provided-more e seen (some x) h = inr h

Stopping-more : (e : Event) (seen : List Event) (b : Bool) → Stopping seen b → Stopping (e ∷ seen) b
Stopping-more e seen false h = tt
Stopping-more e seen true h = inr h

Ended-more :
    (e : Event) (seen : List Event) (c : Bool) (l : Option LoopEnd)
    → Ended seen c l
    → Ended (e ∷ seen) c l
Ended-more e seen c (some no_error) h = inr h
Ended-more e seen c (some route_channel_closed) h = inr h
Ended-more e seen c _ h = ground (arith, h)

Ended-or :
    (seen : List Event) (c looping : Bool) (l : Option LoopEnd)
    → Ended seen c l
    → Ended seen (c || looping) l
Ended-or seen true looping (some canceled) h = refl
Ended-or seen false looping (some canceled) h = absurd (cc)
Ended-or seen c looping _ h = ground (arith, h)

-- A predicate on what an operation gives, if it is no `none`.
abbrev After : (SubscriberRun → Type 0) → Option SubscriberRun → Type 0
After P none = Unit
After P (some r) = P r

if_possible-After :
    (P : SubscriberRun → Type 0) (possible : Bool) (r : SubscriberRun)
    → (possible ≡ true → P r)
    → After P (if_possible possible r)
if_possible-After P true r h = h refl
if_possible-After P false r h = tt

module _ (s : Subscriber) where
  more :
      (e : Event) (seen : List Event) (r : SubscriberRun)
      → Invariant s seen r
      → Invariant s (e ∷ seen) r
  more e seen r i = record {
    topic = i.topic;
    params = i.params;
    why_cancelled = Cancelled-more e seen r.provide_error r.cancelled i.why_cancelled;
    why_provided = Provided-more e seen r.provide_error i.why_provided;
    why_stopping = Stopping-more e seen r.stopping i.why_stopping;
    why_ended = Ended-more e seen r.cancelled r.loop_end i.why_ended;
  }

  Cancelled-error : (seen : List Event) (e : ProviderError) (c : Bool) → Cancelled seen (some e) c
  Cancelled-error seen e false = tt
  Cancelled-error seen e true = tt

  Cancelled-removed :
      (seen : List Event) (error : Option ProviderError) (c : Bool)
      → Cancelled (removed ∷ seen) error c
  Cancelled-removed seen error false = tt
  Cancelled-removed seen none true = inl refl
  Cancelled-removed seen (some e) true = tt

  provide_returns-Invariant :
      (o : Option ProviderError) (seen : List Event) (r : SubscriberRun)
      → Invariant s seen r
      → Invariant s (provide_ends o ∷ seen) (provide_returns o r)
  provide_returns-Invariant none seen r i = more (provide_ends none) seen r i
  provide_returns-Invariant (some e) seen r i =
      let m = more (provide_ends (some e)) seen r i in
      record {
        topic = i.topic;
        params = i.params;
        why_cancelled =
            Cancelled-error (provide_ends (some e) ∷ seen) e (r.cancelled || r.subscriber.looping);
        why_provided = inl refl;
        why_stopping = m.why_stopping;
        why_ended =
            Ended-or (provide_ends (some e) ∷ seen) r.cancelled r.subscriber.looping r.loop_end
              m.why_ended;
      }

  removed-Invariant :
      (seen : List Event) (r : SubscriberRun)
      → Invariant s seen r
      → Invariant s (removed ∷ seen) (cancel r)
  removed-Invariant seen r i =
      let m = more removed seen r i in
      record {
        topic = i.topic;
        params = i.params;
        why_cancelled =
            Cancelled-removed seen r.provide_error (r.cancelled || r.subscriber.looping);
        why_provided = m.why_provided;
        why_stopping = m.why_stopping;
        why_ended =
            Ended-or (removed ∷ seen) r.cancelled r.subscriber.looping r.loop_end m.why_ended;
      }

  second : (a b : Bool) → (a && b) ≡ true → b ≡ true
  second true b h = h
  second false b h = absurd (cc)

  -- The end of Loop at a context that is done.
  sees_done-Ended :
      (seen : List Event) (cancelled stopping : Bool)
      → Stopping seen stopping
      → (cancelled || stopping) ≡ true
      → Ended (sees_done ∷ seen) cancelled (some (if stopping then no_error else canceled))
  sees_done-Ended seen cancelled true w h = inr w
  sees_done-Ended seen true false w h = refl
  sees_done-Ended seen false false w h = absurd (cc)

  end_loop-Invariant :
      (e : Event) (l : LoopEnd) (seen : List Event) (r : SubscriberRun)
      → Invariant s seen r
      → Ended (e ∷ seen) r.cancelled (some l)
      → Invariant s (e ∷ seen) (end_loop l r)
  end_loop-Invariant e l seen r i w =
      let m = more e seen r i in
      record {
        topic = m.topic;
        params = m.params;
        why_cancelled = m.why_cancelled;
        why_provided = m.why_provided;
        why_stopping = m.why_stopping;
        why_ended = w;
      }

  stop-Invariant :
      (seen : List Event) (r : SubscriberRun)
      → Invariant s seen r
      → Invariant s (stop ∷ seen) (record r { stopping = true })
  stop-Invariant seen r i =
      let m = more stop seen r i in
      record {
        topic = m.topic;
        params = m.params;
        why_cancelled = m.why_cancelled;
        why_provided = m.why_provided;
        why_stopping = inl refl;
        why_ended = m.why_ended;
      }

  responded-Invariant :
      (id : ℕ) (seen : List Event) (r : SubscriberRun)
      → Invariant s seen r
      → Invariant s (responded id ∷ seen) (record r { subscriber = set_last_id id r.subscriber })
  unfolding set_last_id
  responded-Invariant id seen r i =
      let m = more (responded id) seen r i in
      record {
        topic = m.topic;
        params = m.params;
        why_cancelled = m.why_cancelled;
        why_provided = m.why_provided;
        why_stopping = m.why_stopping;
        why_ended = m.why_ended;
      }

  step-Invariant :
      (e : Event) (seen : List Event) (r : SubscriberRun)
      → Invariant s seen r
      → After (Invariant s (e ∷ seen)) (step e r)
  unfolding step
  step-Invariant (provide_ends o) seen r i =
      if_possible-After (Invariant s (provide_ends o ∷ seen)) (not r.provided) (provide_returns o r)
        (λ h. provide_returns-Invariant o seen r i)
  step-Invariant loop_begins seen r i =
      if_possible-After (Invariant s (loop_begins ∷ seen))
        (not r.subscriber.looping && is_none r.loop_end) (set_looping true r)
        (λ h. more loop_begins seen r i)
  step-Invariant (message m) seen r i =
      if_possible-After (Invariant s (message m ∷ seen)) r.subscriber.looping
        (record r { pushed = m ∷ r.pushed }) (λ h. more (message m) seen r i)
  step-Invariant route_closed seen r i =
      if_possible-After (Invariant s (route_closed ∷ seen)) r.subscriber.looping
        (end_loop route_channel_closed r)
        (λ h. end_loop-Invariant route_closed route_channel_closed seen r i (inl refl))
  step-Invariant sees_done seen r i =
      if_possible-After (Invariant s (sees_done ∷ seen))
        (r.subscriber.looping && (r.cancelled || r.stopping))
        (end_loop (if r.stopping then no_error else canceled) r)
        (λ h. end_loop-Invariant sees_done (if r.stopping then no_error else canceled) seen r i (
          sees_done-Ended seen r.cancelled r.stopping i.why_stopping
            (second r.subscriber.looping (r.cancelled || r.stopping) h)))
  step-Invariant removed seen r i = removed-Invariant seen r i
  step-Invariant stop seen r i = stop-Invariant seen r i
  step-Invariant (responded id) seen r i = responded-Invariant id seen r i

  Reach-Invariant : {seen : List Event} {r : SubscriberRun} → Reach s seen r → Invariant s seen r
  Reach-Invariant here = record {
    topic = refl;
    params = refl;
    why_cancelled = tt;
    why_provided = tt;
    why_stopping = tt;
    why_ended = tt;
  }
  Reach-Invariant (next {seen = seen} {r = r} {e = e} before h) =
      subst (After (Invariant s (e ∷ seen))) h (step-Invariant e seen r (Reach-Invariant before))

  -- What has happened if Run goes on in a way.
  abbrev pub Explained : List Event → RunEnd → Type 0
  Explained seen unsubscribed = Happened removed seen
  Explained seen returned =
      Happened stop seen
      ⊎ ((e : ProviderError) × (e ≢ invalid_route) × Happened (provide_ends (some e)) seen)
  Explained seen (restarted t) =
      (t.route ≡ new_route (record (s.data') { last_id = t.data'.last_id }))
      × (Happened route_closed seen ⊎ Happened (provide_ends (some invalid_route)) seen)

  restarted_route :
      (t : Subscriber)
      → t.data'.topic ≡ s.data'.topic
      → t.data'.params ≡ s.data'.params
      → (reset t).route ≡ new_route (record (s.data') { last_id = t.data'.last_id })
  unfolding reset
  restarted_route t p q =
      λ i. new_route (record { topic = p i; params = q i; last_id = t.data'.last_id })

  was_removed :
      (seen : List Event) (c : Bool) → c ≡ true → Cancelled seen none c → Happened removed seen
  was_removed seen true h w = w
  was_removed seen false h w = absurd (cc)

  explain :
      (seen : List Event) (t : Subscriber) (l : LoopEnd) (error : Option ProviderError) (c b : Bool)
      → Reasons s seen t.data' error c b (some l)
      → Explained seen (run_end l error t)
  unfolding run_end reset
  explain seen t no_error none c b i = inl i.why_ended
  explain seen t canceled none c b i = was_removed seen c i.why_ended i.why_cancelled
  explain seen t route_channel_closed none c b i =
      (restarted_route t i.topic i.params, inl i.why_ended)
  explain seen t l (some invalid_route) c b i =
      (restarted_route t i.topic i.params, inr i.why_provided)
  explain seen t l (some module_stopping) c b i = inr (module_stopping, λ e. cc, i.why_provided)
  explain seen t l (some missing_fetch_request) c b i =
      inr (missing_fetch_request, λ e. cc, i.why_provided)
  explain seen t l (some fetch_failed) c b i = inr (fetch_failed, λ e. cc, i.why_provided)

  -- However the two goroutines of a run and the world around them take turns, the route is unsubscribed
  -- at the end only if the subscriber was removed; Run returns without that only if the connector was
  -- stopped, or Provide gave an error other than that of an invalid route; and the subscriber is run
  -- again only if its route's channel was closed or Provide found the route invalid, and then with a
  -- route of the same path and parameters, which fetches from the last id on, if there is one.
  pub run_end-Explained :
      {seen : List Event} {r : SubscriberRun} (l : LoopEnd)
      → Reach s seen r
      → r.loop_end ≡ some l
      → Explained seen (run_end l r.provide_error r.subscriber)
  run_end-Explained {seen} {r} l reach h =
      explain seen r.subscriber l r.provide_error r.cancelled r.stopping (
        subst (Reasons s seen r.subscriber.data' r.provide_error r.cancelled r.stopping) h
          (Reach-Invariant reach))
