-- ===== src/Router/Delivery/Bounds.antt =====
-- The queue of a route stays within its size.
use guble.Prelude.{
  ℕ, ◌<◌, ◌≤◌, ◌≡◌, Bytes, Dict, List, [], ◌∷◌, Option, none, some, Bool, true, false, arith,
  if◌then◌else◌, length, length-append,
}
use guble.Router.Params.{message_filter}
use guble.Router.Delivery.{
  remove, RouteLimits, admitted, RouteState, new_route, Verdict, enqueue, verdict, verdict_of_size,
  Step, Steps, Reachable,
}

-- A message that passed the checks finds room.
record Within (n : ℕ) (s : RouteState) : Type 0 where
  bounded : length s.queue ≤ n
  has_room : (m : ℕ) → s.deliverer ≡ admitted m → length s.queue < n

size_leaves_room :
    (o : Option ℕ) (n size : ℕ) → o ≡ some n → verdict_of_size o size ≡ enqueue → size < n
unfolding verdict_of_size
size_leaves_room none n size e v = cc
size_leaves_room (some k) n size e v = ground arith

verdict_leaves_room :
    (limits : RouteLimits) (s : RouteState) (filters : Option (Dict Bytes Bytes)) (n : ℕ)
    → limits.queue_size ≡ some n
    → verdict limits s filters ≡ enqueue
    → length s.queue < n
unfolding verdict
verdict_leaves_room limits s filters n e v =
    size_leaves_room limits.queue_size n (length s.queue) e
      (by_size s.invalid (message_filter limits.params filters) v)
  where
    by_size :
        (invalid passes : Bool)
        → (if invalid
            then Verdict.invalid_route
            else if passes
            then verdict_of_size limits.queue_size (length s.queue)
            else Verdict.filtered)
          ≡ enqueue
        → verdict_of_size limits.queue_size (length s.queue) ≡ enqueue
    by_size true passes h = cc
    by_size false true h = h
    by_size false false h = cc

length-remove : (queue : List ℕ) → length (remove queue) ≤ length queue
length-remove [] = omega arith
length-remove (m ∷ queue) = omega arith

module _ (limits : RouteLimits) (n : ℕ) (sized : limits.queue_size ≡ some n) where
  Step-Within : (s t : RouteState) → Step limits s t → Within n s → Within n t
  Step-Within s t (Step.admit _ m filters d v) w = record {
    bounded = w.bounded;
    has_room = λ k e. verdict_leaves_room limits s filters n sized v;
  }
  Step-Within s t (Step.push_message _ m d) w = record {
    bounded = omega (arith, length-append s.queue (m ∷ []), w.has_room m d);
    has_room = λ k e. absurd cc;
  }
  Step-Within s t (Step.already_consuming _ d c) w = record {
    bounded = w.bounded;
    has_room = λ k e. absurd cc;
  }
  Step-Within s t (Step.not_consuming _ d c) w = record {
    bounded = w.bounded;
    has_room = λ k e. absurd cc;
  }
  Step-Within s t (Step.start_consumer _ d) w = record {
    bounded = w.bounded;
    has_room = λ k e. absurd cc;
  }
  Step-Within s t (Step.remove_message _ d) w = record {
    bounded = omega (arith, length-remove s.queue, w.bounded);
    has_room = λ k e. omega (arith, length-remove s.queue, w.has_room k e);
  }
  Step-Within s t (Step.still_valid _ d c) w = record { bounded = w.bounded; has_room = w.has_room }
  Step-Within s t (Step.stop_invalid _ d c) w = record {
    bounded = w.bounded;
    has_room = w.has_room;
  }
  Step-Within s t (Step.poll_message _ m d c) w = record {
    bounded = w.bounded;
    has_room = w.has_room;
  }
  Step-Within s t (Step.poll_empty _ d c) w = record { bounded = w.bounded; has_room = w.has_room }
  Step-Within s t (Step.send_message _ m d c l) w = record {
    bounded = w.bounded;
    has_room = w.has_room;
  }
  Step-Within s t (Step.hand_over _ m d c l) w = record {
    bounded = w.bounded;
    has_room = w.has_room;
  }
  Step-Within s t (Step.send_panics _ m d c) w = record {
    bounded = w.bounded;
    has_room = w.has_room;
  }
  Step-Within s t (Step.send_finds_closed _ m d l c) w = record {
    bounded = w.bounded;
    has_room = w.has_room;
  }
  Step-Within s t (Step.send_times_out _ m d l) w = record {
    bounded = w.bounded;
    has_room = w.has_room;
  }
  Step-Within s t (Step.stop_consuming _ d) w = record {
    bounded = w.bounded;
    has_room = w.has_room;
  }
  Step-Within s t (Step.close_begins _ i) w = record { bounded = w.bounded; has_room = w.has_room }
  Step-Within s t (Step.close_ends _ i) w = record { bounded = w.bounded; has_room = w.has_room }
  Step-Within s t (Step.receive _ m rest c) w = record {
    bounded = w.bounded;
    has_room = w.has_room;
  }

  Steps-Within : (s t : RouteState) → Steps limits s t → Within n s → Within n t
  Steps-Within s t (Steps.here _) w = w
  Steps-Within s t (Steps.step _ u _ x more) w = Steps-Within u t more (Step-Within s u x w)

-- A route with a queue size never holds more messages than that in its queue.
pub queue_size-bounds :
    (limits : RouteLimits) (n : ℕ) (s : RouteState)
    → limits.queue_size ≡ some n
    → Reachable limits s
    → length s.queue ≤ n
queue_size-bounds limits n s sized r =
    (Steps-Within limits n sized new_route s r
      (record { bounded = omega arith; has_room = λ k e. absurd cc })).bounded
