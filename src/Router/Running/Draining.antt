-- ===== src/Router/Running/Draining.antt =====
-- Whether the router ends after it was stopped.
use guble.Prelude.{
  ℕ, suc, ◌+◌, ◌≤◌, ◌<◌, ◌≡◌, refl, ap, List, [], ◌∷◌, Bool, true, false, ◌&&◌, ◌||◌, if◌then◌else◌,
  length, Bool-cases, inl, inr, arith,
}
use guble.Protocol.Message.{Message}
use guble.Router.Routes.{Route}
use guble.Router.Running.{
  Running, Case, message, subscriber, unsubscriber, done, has_none, channels_are_empty,
  take_message, take_subscriber, take_unsubscriber, take_stop, run_case, run_loop, closed_down,
  read_done, request_stop,
}

abbrev pub bit : Bool → ℕ
bit false = 0
bit true = 1

-- What is in the channels.
abbrev pub pending : {S : Type 0} → Running S → ℕ
pending r = length r.handle_c + length r.subscribe_c + length r.unsubscribe_c + bit r.stop_c

abbrev pub Takes : {S : Type 0} → Case → Running S → Type 0
Takes message r = 0 < length r.handle_c
Takes subscriber r = 0 < length r.subscribe_c
Takes unsubscriber r = 0 < length r.unsubscribe_c
Takes done r = r.stop_c ≡ true

no_element : {A : Type 0} → (l : List A) → length l ≤ 0 → has_none l ≡ true
no_element [] h = refl
no_element (a ∷ l) h = absurd (omega arith)

no_bit : (b : Bool) → bit b ≤ 0 → b ≡ false
no_bit false h = refl
no_bit true h = absurd (omega arith)

left_holds : (a b : Bool) → (a || b) ≡ true → b ≡ false → a ≡ true
left_holds true b s e = refl
left_holds false b s e = cc

second_holds : (a b : Bool) → (a && b) ≡ true → b ≡ true
second_holds true b s = s
second_holds false b s = cc

all_true :
    (a b c d : Bool) → a ≡ true → b ≡ true → c ≡ true → d ≡ true → (a && (b && (c && d))) ≡ true
all_true a b c d e f g h = rw (e, f, g, h) refl

module _ {S : Type 0} (deliver : Message → Route → S → S × Bool) (close : Route → S → S) where
  -- Each case finds something in its channel.
  abbrev pub AllTake : List Case → Running S → Type 0
  AllTake [] r = Unit
  AllTake (c ∷ cases) r = Takes c r × AllTake cases (run_case deliver close c r)

  abbrev Goes : Running S → Running S → Type 0
  Goes r after =
      (suc (pending after) ≡ pending r)
      × ((r.stopping || r.stop_c) ≡ true → (after.stopping || after.stop_c) ≡ true)

  take_message-Goes :
      (l : List Message) (r : Running S)
      → r.handle_c ≡ l
      → 0 < length l
      → Goes r (take_message deliver close l r)
  unfolding take_message
  take_message-Goes [] r e h = absurd (omega arith)
  take_message-Goes (m ∷ more) r e h = (omega (arith, ap length e), λ s. s)

  take_subscriber-Goes :
      (l : List Route) (r : Running S)
      → r.subscribe_c ≡ l
      → 0 < length l
      → Goes r (take_subscriber deliver close l r)
  unfolding take_subscriber
  take_subscriber-Goes [] r e h = absurd (omega arith)
  take_subscriber-Goes (m ∷ more) r e h = (omega (arith, ap length e), λ s. s)

  take_unsubscriber-Goes :
      (l : List Route) (r : Running S)
      → r.unsubscribe_c ≡ l
      → 0 < length l
      → Goes r (take_unsubscriber deliver close l r)
  unfolding take_unsubscriber
  take_unsubscriber-Goes [] r e h = absurd (omega arith)
  take_unsubscriber-Goes (m ∷ more) r e h = (omega (arith, ap length e), λ s. s)

  take_stop-Goes :
      (b : Bool) (r : Running S) → r.stop_c ≡ b → b ≡ true → Goes r (take_stop deliver close b r)
  take_stop-Goes false r e h = cc
  take_stop-Goes true r e h = (omega (arith, ap bit e), λ s. refl)

  run_case-Goes : (c : Case) (r : Running S) → Takes c r → Goes r (run_case deliver close c r)
  unfolding run_case
  run_case-Goes message r h = take_message-Goes r.handle_c r refl h
  run_case-Goes subscriber r h = take_subscriber-Goes r.subscribe_c r refl h
  run_case-Goes unsubscriber r h = take_unsubscriber-Goes r.unsubscribe_c r refl h
  run_case-Goes done r h = take_stop-Goes r.stop_c r refl h

  -- What the loop gives: whether the goroutine returned, and the channels are empty then.
  abbrev pub EndsEmpty : Running S × Bool → Type 0
  EndsEmpty p = (p.1 ≡ true) × (channels_are_empty p.0 ≡ true)

  nothing_left :
      (r : Running S)
      → (r.stopping || r.stop_c) ≡ true
      → pending r ≤ 0
      → (r.stopping && channels_are_empty r) ≡ true
  unfolding channels_are_empty
  nothing_left r s h =
      all_true r.stopping _ _ _ (left_holds r.stopping r.stop_c s (no_bit r.stop_c (omega arith)))
        (no_element r.handle_c (omega arith)) (no_element r.subscribe_c (omega arith))
        (no_element r.unsubscribe_c (omega arith))

  -- However the cases follow one another, the goroutine returns after as many as there are elements in
  -- the channels, if each case finds one, and the router was told to stop; all channels are empty then.
  pub run_loop-EndsEmpty :
      (cases : List Case) (r : Running S)
      → (r.stopping || r.stop_c) ≡ true
      → AllTake cases r
      → pending r ≤ length cases
      → EndsEmpty (run_loop deliver close cases r)
  unfolding run_loop channels_are_empty
  run_loop-EndsEmpty [] r s t h =
      rw (nothing_left r s h) (refl, second_holds r.stopping _ (nothing_left r s h))
  run_loop-EndsEmpty (c ∷ cases) r s t h = elim (Bool-cases (r.stopping && channels_are_empty r)) [
    | inl e ↦ rw e (refl, second_holds r.stopping _ e)
    | inr e ↦ rw e (
        run_loop-EndsEmpty cases (run_case deliver close c r) ((run_case-Goes c r t.0).1 s) t.1
          (omega (arith, (run_case-Goes c r t.0).0)))
  ]

  -- Nobody told the router to stop, as far as it can see.
  abbrev Unaware : Running S → Type 0
  Unaware r = (r.stopping ≡ false) × (r.stop_c ≡ false)

  take_message-Unaware :
      (l : List Message) (r : Running S) → Unaware r → Unaware (take_message deliver close l r)
  unfolding take_message
  take_message-Unaware [] r u = u
  take_message-Unaware (m ∷ more) r u = u

  take_subscriber-Unaware :
      (l : List Route) (r : Running S) → Unaware r → Unaware (take_subscriber deliver close l r)
  unfolding take_subscriber
  take_subscriber-Unaware [] r u = u
  take_subscriber-Unaware (m ∷ more) r u = u

  take_unsubscriber-Unaware :
      (l : List Route) (r : Running S) → Unaware r → Unaware (take_unsubscriber deliver close l r)
  unfolding take_unsubscriber
  take_unsubscriber-Unaware [] r u = u
  take_unsubscriber-Unaware (m ∷ more) r u = u

  take_stop-Unaware :
      (b : Bool) (r : Running S) → b ≡ false → Unaware r → Unaware (take_stop deliver close b r)
  take_stop-Unaware false r e u = u
  take_stop-Unaware true r e u = cc

  run_case-Unaware : (c : Case) (r : Running S) → Unaware r → Unaware (run_case deliver close c r)
  unfolding run_case
  run_case-Unaware message r u = take_message-Unaware r.handle_c r u
  run_case-Unaware subscriber r u = take_subscriber-Unaware r.subscribe_c r u
  run_case-Unaware unsubscriber r u = take_unsubscriber-Unaware r.unsubscribe_c r u
  run_case-Unaware done r u = take_stop-Unaware r.stop_c r u.1 u

  else_runs :
      (b e : Bool) (p q : Running S × Bool)
      → b ≡ false
      → q.1 ≡ false
      → (if◌then◌else◌ {A = Running S × Bool} (b && e) p q).1 ≡ false
  else_runs false e p q f g = g
  else_runs true e p q f g = cc

  goes_on :
      (cases : List Case) (r : Running S) → Unaware r → (run_loop deliver close cases r).1 ≡ false
  unfolding run_loop
  goes_on [] r u =
      else_runs r.stopping (channels_are_empty r) (closed_down deliver close r, true) (r, false) u.0
        refl
  goes_on (c ∷ cases) r u =
      else_runs r.stopping (channels_are_empty r) (closed_down deliver close r, true)
        (run_loop deliver close cases (run_case deliver close c r)) u.0
        (goes_on cases (run_case deliver close c r) (run_case-Unaware c r u))

  -- If a route that fetches reads the value of Stop before the router does, then the goroutine of the
  -- router never returns, whatever else it gets.
  pub run_loop-goes_on :
      (cases : List Case) (r : Running S)
      → r.stopping ≡ false
      → (run_loop deliver close cases (read_done (request_stop r))).1 ≡ false
  run_loop-goes_on cases r e = goes_on cases (read_done (request_stop r)) (e, refl)
