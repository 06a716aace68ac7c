-- ===== src/Connector/Queue.antt =====
-- server/connector/queue.go: the workers that send the requests of a connector. A request is a pointer,
-- here a number. A step of a goroutine is an event; `none` is a goroutine that waits.
pub mod Conserved
pub mod Finishing
pub mod StopsEarly
mod Examples
use guble.Prelude.{
  ℕ, zero, suc, ◌+◌, ◌-◌, List, [], ◌∷◌, Option, none, some, Bool, true, false, not, ◌&&◌,
  if◌then◌else◌, nat_eq, get_elem?,
}

-- A worker waits for a request, has received one, handles one, or has left its loop.
pub data Worker : Type 0 where
  idle exited : Worker
  received handling : ℕ → Worker

-- `in_progress` is the counter of `wg`; `handled` and `dropped` have the last one first.
pub record Queue : Type 0 where
  pub is_open : Bool
  pub workers : List Worker
  pub in_progress : ℕ
  pub handled : List ℕ
  pub dropped : List ℕ

abbrev pub idle_workers : ℕ → List Worker
idle_workers zero = []
idle_workers (suc n) = idle ∷ idle_workers n

-- NewQueue and Start
abbrev pub started_queue : ℕ → Queue
started_queue n_workers = record {
  is_open = true;
  workers = idle_workers n_workers;
  in_progress = 0;
  handled = [];
  dropped = [];
}

-- Push of a request that a worker receives; the wg.Add, the end of handle and the end of the loop of a
-- worker; the close of Stop.
pub data Event : Type 0 where
  push_to : ℕ → ℕ → Event
  count finishes exits : ℕ → Event
  closes : Event

unfoldable pub set_at : ℕ → Worker → List Worker → List Worker
set_at i w [] = []
set_at zero w (v ∷ workers) = w ∷ workers
set_at (suc i) w (v ∷ workers) = v ∷ set_at i w workers

-- The channel has no buffer: a worker must wait for the request.
abbrev pub receive_request : ℕ → ℕ → Option Worker → Queue → Option Queue
receive_request r i (some idle) q = some (record q { workers = set_at i (received r) q.workers })
receive_request r i _ q = none

-- A closed channel makes Push panic, and the request is dropped.
abbrev pub push_request : ℕ → ℕ → Queue → Option Queue
push_request r i q =
    if q.is_open
    then receive_request r i (get_elem? q.workers i) q
    else some (record q { dropped = r ∷ q.dropped })

abbrev pub begin_handle : ℕ → Option Worker → Queue → Option Queue
begin_handle i (some (received r)) q =
    some (record q { workers = set_at i (handling r) q.workers; in_progress = q.in_progress + 1 })
begin_handle i _ q = none

-- What Send and HandleResponse give is logged only.
abbrev pub end_handle : ℕ → Option Worker → Queue → Option Queue
end_handle i (some (handling r)) q = some (record q {
  workers = set_at i idle q.workers;
  in_progress = q.in_progress - 1;
  handled = r ∷ q.handled;
})
end_handle i _ q = none

-- The end of the range over the channel.
abbrev pub leave_loop : ℕ → Option Worker → Queue → Option Queue
leave_loop i (some idle) q =
    if q.is_open then none else some (record q { workers = set_at i exited q.workers })
leave_loop i _ q = none

-- A second close panics.
abbrev pub close_requests : Queue → Option Queue
close_requests q = if q.is_open then some (record q { is_open = false }) else none

unfoldable pub step : Event → Queue → Option Queue
unfolding set_at
step (push_to r i) q = push_request r i q
step (count i) q = begin_handle i (get_elem? q.workers i) q
step (finishes i) q = end_handle i (get_elem? q.workers i) q
step (exits i) q = leave_loop i (get_elem? q.workers i) q
step closes q = close_requests q

-- Whether the Wait of Stop returns.
unfoldable pub stop_returns : Queue → Bool
stop_returns q = not q.is_open && nat_eq q.in_progress 0

abbrev pub run_from : (Queue → Option Queue) → Option Queue → Option Queue
run_from continue none = none
run_from continue (some q) = continue q

unfoldable pub run : List Event → Queue → Option Queue
unfolding step
run [] q = some q
run (e ∷ events) q = run_from (run events) (step e q)
