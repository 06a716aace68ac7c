-- ===== src/Connector/Queue/Examples.antt =====
-- Two workers. One has sent its request when the queue is closed, and another request comes too late.
use guble.Prelude.{◌+◌, ◌≡◌, refl, List, [], ◌∷◌, some, true, false, ◌⊎◌, get_elem?}
use guble.Connector.Queue.{
  idle, received, handling, Queue, started_queue, Event, push_to, count, finishes, closes, step,
  run, stop_returns, set_at,
}
use guble.Connector.Queue.Conserved.{occurrences, total, holds, handles, pushed, run-places}
use guble.Connector.Queue.Finishing.{left, CanWork, run-finishes}
use guble.Connector.Queue.StopsEarly.{stop_returns_early}

abbrev until_close : List Event
until_close = push_to 7 0 ∷ push_to 8 1 ∷ count 1 ∷ closes ∷ push_to 9 0 ∷ []

abbrev closed : Queue
closed = record {
  is_open = false;
  workers = received 7 ∷ handling 8 ∷ [];
  in_progress = 1;
  handled = [];
  dropped = 9 ∷ [];
}

run-until_close : run until_close (started_queue 2) ≡ some closed
unfolding run step set_at
run-until_close = refl

run-places_example :
    (occurrences 9 closed.handled + total (holds 9) closed.workers + occurrences 9 closed.dropped
      ≡ occurrences 9 (pushed until_close))
    × (closed.in_progress ≡ total handles closed.workers)
run-places_example = run-places 2 until_close closed 9 run-until_close

abbrev one_left : Queue
one_left = record closed { workers = handling 7 ∷ idle ∷ []; handled = 8 ∷ [] }

run-finishes_example :
    (2 + total left one_left.workers ≡ total left closed.workers)
    × (CanWork one_left
        ⊎ ((total left one_left.workers ≡ 0)
            × (occurrences 7 one_left.handled + occurrences 7 one_left.dropped
                ≡ occurrences 7 (pushed until_close))))
unfolding run step set_at
run-finishes_example =
    run-finishes 2 until_close (count 0 ∷ finishes 1 ∷ []) closed one_left 7 run-until_close
      (tt, (tt, tt)) refl

stop_returns_early_example :
    (after : Queue) × (run (push_to 7 1 ∷ closes ∷ []) (started_queue 2) ≡ some after)
    × (stop_returns after ≡ true)
    × (get_elem? after.workers 1 ≡ some (received 7))
    × (after.handled ≡ [])
stop_returns_early_example = stop_returns_early (started_queue 2) 7 1 refl refl refl
