-- ===== src/Router/Delivery/Order.antt =====
-- A route's messages arrive in the order in which they were accepted.
use mathlib.Core.Path.{subst}
use guble.Prelude.{
  ℕ, ◌≡◌, refl, ap, sym, ◌∙◌, List, [], ◌∷◌, ◌++◌, append_assoc, some, false, arith,
}
use guble.Router.Delivery.{
  push, remove, poll, RouteLimits, Consumer, gone, checking, polling, removing, leaving, sending,
  starting, RouteState, new_route, Step, Steps, Reachable,
}

-- What is in the queue and was not sent: a message that was sent is removed a step later.
abbrev pub unsent : Consumer → List ℕ → List ℕ
unsent removing queue = remove queue
unsent gone queue = queue
unsent checking queue = queue
unsent polling queue = queue
unsent leaving queue = queue
unsent (sending m) queue = queue

-- The message that is being sent is the first in the queue; that which is to be removed is there.
abbrev Holds : Consumer → List ℕ → Type 0
Holds (sending m) queue = (rest : List ℕ) × (queue ≡ m ∷ rest)
Holds gone queue = Unit
Holds checking queue = Unit
Holds polling queue = Unit
Holds removing queue = (m : ℕ) × ((rest : List ℕ) × (queue ≡ m ∷ rest))
Holds leaving queue = Unit

polled : (queue : List ℕ) {m : ℕ} → poll queue ≡ some m → (rest : List ℕ) × (queue ≡ m ∷ rest)
polled [] e = cc
polled (x ∷ queue) e = (queue, ground arith)

unsent-push :
    (c : Consumer) (queue : List ℕ) (m : ℕ)
    → Holds c queue
    → unsent c (push queue m) ≡ unsent c queue ++ (m ∷ [])
unsent-push removing [] m h = absurd cc
unsent-push removing (x ∷ queue) m h = refl
unsent-push gone queue m h = refl
unsent-push checking queue m h = refl
unsent-push polling queue m h = refl
unsent-push leaving queue m h = refl
unsent-push (sending x) queue m h = refl

Holds-push : (c : Consumer) (queue : List ℕ) (m : ℕ) → Holds c queue → Holds c (push queue m)
Holds-push removing queue m (x, (rest, e)) = (x, (rest ++ (m ∷ []), ap (λ q. q ++ (m ∷ [])) e))
Holds-push gone queue m h = tt
Holds-push checking queue m h = tt
Holds-push polling queue m h = tt
Holds-push leaving queue m h = tt
Holds-push (sending x) queue m (rest, e) = (rest ++ (m ∷ []), ap (λ q. q ++ (m ∷ [])) e)

regroup : (xs ys zs ws : List ℕ) → (xs ++ (ys ++ zs)) ++ ws ≡ xs ++ (ys ++ (zs ++ ws))
regroup xs ys zs ws = append_assoc xs (ys ++ zs) ws ∙ ap (λ l. xs ++ l) (append_assoc ys zs ws)

-- There is one consumer: no other is started while one runs.
record Alone (s : RouteState) : Type 0 where
  quiet : s.consuming ≡ false → s.consumer ≡ gone
  starts : s.deliverer ≡ starting → s.consuming ≡ false

-- While the channel is not closed, what was accepted is what arrived, what is in the channel, and
-- what was not sent, in this order; once it is closed, something of the end may be missing.
record OrderedAt (c : Consumer) (s : RouteState) : Type 0 where
  holds : Holds c s.queue
  complete : s.closed ≡ false → s.accepted ≡ s.received ++ (s.channel ++ unsent c s.queue)
  prefix : (rest : List ℕ) × (s.accepted ≡ s.received ++ (s.channel ++ rest))

abbrev Ordered : RouteState → Type 0
Ordered s = OrderedAt s.consumer s

focus : (s : RouteState) {c : Consumer} → s.consumer ≡ c → Ordered s → OrderedAt c s
focus s e o = subst (λ c. OrderedAt c s) e o

module _ (limits : RouteLimits) where
  Step-Alone : (s t : RouteState) → Step limits s t → Alone s → Alone t
  Step-Alone s t (Step.admit _ m filters d v) a = record {
    quiet = a.quiet;
    starts = λ h. absurd cc;
  }
  Step-Alone s t (Step.push_message _ m d) a = record { quiet = a.quiet; starts = λ h. absurd cc }
  Step-Alone s t (Step.already_consuming _ d c) a = record {
    quiet = a.quiet;
    starts = λ h. absurd cc;
  }
  Step-Alone s t (Step.not_consuming _ d c) a = record { quiet = a.quiet; starts = λ h. c }
  Step-Alone s t (Step.start_consumer _ d) a = record {
    quiet = λ h. absurd cc;
    starts = λ h. absurd cc;
  }
  Step-Alone s t (Step.still_valid _ d c) a = record {
    quiet = λ h. absurd (cc (a.quiet h, d));
    starts = a.starts;
  }
  Step-Alone s t (Step.stop_invalid _ d c) a = record {
    quiet = λ h. absurd (cc (a.quiet h, d));
    starts = a.starts;
  }
  Step-Alone s t (Step.poll_message _ m d c) a = record {
    quiet = λ h. absurd (cc (a.quiet h, d));
    starts = a.starts;
  }
  Step-Alone s t (Step.poll_empty _ d c) a = record {
    quiet = λ h. absurd (cc (a.quiet h, d));
    starts = a.starts;
  }
  Step-Alone s t (Step.send_message _ m d c l) a = record {
    quiet = λ h. absurd (cc (a.quiet h, d));
    starts = a.starts;
  }
  Step-Alone s t (Step.hand_over _ m d c l) a = record {
    quiet = λ h. absurd (cc (a.quiet h, d));
    starts = a.starts;
  }
  Step-Alone s t (Step.send_panics _ m d c) a = record {
    quiet = λ h. absurd (cc (a.quiet h, d));
    starts = a.starts;
  }
  Step-Alone s t (Step.send_finds_closed _ m d l c) a = record {
    quiet = λ h. absurd (cc (a.quiet h, d));
    starts = a.starts;
  }
  Step-Alone s t (Step.send_times_out _ m d l) a = record {
    quiet = λ h. absurd (cc (a.quiet h, d));
    starts = a.starts;
  }
  Step-Alone s t (Step.remove_message _ d) a = record {
    quiet = λ h. absurd (cc (a.quiet h, d));
    starts = a.starts;
  }
  Step-Alone s t (Step.stop_consuming _ d) a = record { quiet = λ h. refl; starts = λ h. refl }
  Step-Alone s t (Step.close_begins _ i) a = record { quiet = a.quiet; starts = a.starts }
  Step-Alone s t (Step.close_ends _ i) a = record { quiet = a.quiet; starts = a.starts }
  Step-Alone s t (Step.receive _ m rest c) a = record { quiet = a.quiet; starts = a.starts }

  Step-Ordered : (s t : RouteState) → Step limits s t → Alone s → Ordered s → Ordered t
  Step-Ordered s t (Step.admit _ m filters d v) a o = record {
    holds = o.holds;
    complete = o.complete;
    prefix = o.prefix;
  }
  Step-Ordered s t (Step.push_message _ m d) a o = record {
    holds = Holds-push s.consumer s.queue m o.holds;
    complete = λ h.
        ap (λ l. push l m) (o.complete h)
        ∙ regroup s.received s.channel (unsent s.consumer s.queue) (m ∷ [])
        ∙ ap (λ u. s.received ++ (s.channel ++ u)) (sym (unsent-push s.consumer s.queue m o.holds));
    prefix =
        let (rest, e) = o.prefix in
        (push rest m, ap (λ l. push l m) e ∙ regroup s.received s.channel rest (m ∷ []));
  }
  Step-Ordered s t (Step.already_consuming _ d c) a o = record {
    holds = o.holds;
    complete = o.complete;
    prefix = o.prefix;
  }
  Step-Ordered s t (Step.not_consuming _ d c) a o = record {
    holds = o.holds;
    complete = o.complete;
    prefix = o.prefix;
  }
  Step-Ordered s t (Step.start_consumer _ d) a o =
      let f = focus s (a.quiet (a.starts d)) o in
      record { holds = tt; complete = f.complete; prefix = f.prefix }
  Step-Ordered s t (Step.still_valid _ d c) a o =
      let f = focus s d o in record { holds = tt; complete = f.complete; prefix = f.prefix }
  Step-Ordered s t (Step.stop_invalid _ d c) a o =
      let f = focus s d o in record { holds = tt; complete = f.complete; prefix = f.prefix }
  Step-Ordered s t (Step.poll_message _ m d c) a o =
      let f = focus s d o in
      record { holds = polled s.queue c; complete = f.complete; prefix = f.prefix }
  Step-Ordered s t (Step.poll_empty _ d c) a o =
      let f = focus s d o in record { holds = tt; complete = f.complete; prefix = f.prefix }
  Step-Ordered s t (Step.send_message _ m d c l) a o =
      let f = focus s d o in
      let (rest, e) = f.holds in
      let all : s.accepted ≡ s.received ++ (push s.channel m ++ remove s.queue) =
        f.complete c
        ∙ ap (λ l. s.received ++ l)
            (ap (λ q. s.channel ++ q) e
              ∙ sym (append_assoc s.channel (m ∷ []) rest)
              ∙ ap (λ q. push s.channel m ++ remove q) (sym e)) in
      record { holds = (m, f.holds); complete = λ _. all; prefix = (remove s.queue, all) }
  Step-Ordered s t (Step.hand_over _ m d c l) a o =
      let f = focus s d o in
      let (rest, e) = f.holds in
      let all : s.accepted ≡ push s.received m ++ (s.channel ++ remove s.queue) =
        f.complete c
        ∙ ap (λ l. s.received ++ (l ++ s.queue)) l
        ∙ ap (λ q. s.received ++ q) e
        ∙ sym (append_assoc s.received (m ∷ []) rest)
        ∙ ap (λ q. push s.received m ++ remove q) (sym e)
        ∙ ap (λ l. push s.received m ++ (l ++ remove s.queue)) (sym l) in
      record { holds = (m, f.holds); complete = λ _. all; prefix = (remove s.queue, all) }
  Step-Ordered s t (Step.send_panics _ m d c) a o =
      let f = focus s d o in
      record { holds = (m, f.holds); complete = λ h. absurd cc; prefix = f.prefix }
  Step-Ordered s t (Step.send_finds_closed _ m d l c) a o =
      let f = focus s d o in record { holds = tt; complete = f.complete; prefix = f.prefix }
  Step-Ordered s t (Step.send_times_out _ m d l) a o =
      let f = focus s d o in record { holds = tt; complete = f.complete; prefix = f.prefix }
  Step-Ordered s t (Step.remove_message _ d) a o =
      let f = focus s d o in record { holds = tt; complete = f.complete; prefix = f.prefix }
  Step-Ordered s t (Step.stop_consuming _ d) a o =
      let f = focus s d o in record { holds = tt; complete = f.complete; prefix = f.prefix }
  Step-Ordered s t (Step.close_begins _ i) a o = record {
    holds = o.holds;
    complete = o.complete;
    prefix = o.prefix;
  }
  Step-Ordered s t (Step.close_ends _ i) a o = record {
    holds = o.holds;
    complete = λ h. absurd cc;
    prefix = o.prefix;
  }
  Step-Ordered s t (Step.receive _ m rest c) a o =
      let moved = λ (u : List ℕ).
        ap (λ l. s.received ++ (l ++ u)) c ∙ sym (append_assoc s.received (m ∷ []) (rest ++ u)) in
      record {
        holds = o.holds;
        complete = λ h. o.complete h ∙ moved (unsent s.consumer s.queue);
        prefix = let (u, e) = o.prefix in (u, e ∙ moved u);
      }

  Steps-Ordered : (s t : RouteState) → Steps limits s t → Alone s → Ordered s → Alone t × Ordered t
  Steps-Ordered s t (Steps.here _) a o = (a, o)
  Steps-Ordered s t (Steps.step _ u _ x more) a o =
      Steps-Ordered u t more (Step-Alone s u x a) (Step-Ordered s u x a o)

  -- However the goroutines interleave: what was received and what is in the channel is a beginning of
  -- what was accepted, in the order of acceptance; and while the channel is not closed, the rest is
  -- in the queue.
  pub received-InOrder :
      (s : RouteState)
      → Reachable limits s
      → ((rest : List ℕ) × (s.accepted ≡ s.received ++ (s.channel ++ rest)))
        × (s.closed ≡ false → s.accepted ≡ s.received ++ (s.channel ++ unsent s.consumer s.queue))
  received-InOrder s r =
      let (a, o) = Steps-Ordered new_route s r new_is_alone new_is_ordered in (o.prefix, o.complete)
    where
      new_is_alone : Alone new_route
      new_is_alone = record { quiet = λ _. refl; starts = λ h. absurd cc }

      new_is_ordered : Ordered new_route
      new_is_ordered = record { holds = tt; complete = λ _. refl; prefix = ([], refl) }
