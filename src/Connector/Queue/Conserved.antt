-- ===== src/Connector/Queue/Conserved.antt =====
-- Where the requests are that were pushed.
use mathlib.Core.Path.{subst}
use guble.Prelude.{
  ℕ, zero, suc, ◌+◌, ◌≡◌, refl, sym, List, [], ◌∷◌, Option, none, some, Bool, true, false,
  if◌then◌else◌, nat_eq, get_elem?, arith,
}
use guble.Connector.Queue.{
  Worker, idle, exited, received, handling, Queue, idle_workers, started_queue, Event, push_to,
  count, finishes, exits, closes, set_at, receive_request, push_request, begin_handle, end_handle,
  leave_loop, close_requests, step, run_from, run,
}

abbrev pub occurrences : ℕ → List ℕ → ℕ
occurrences r [] = 0
occurrences r (s ∷ l) = (if nat_eq r s then 1 else 0) + occurrences r l

abbrev pub total : (Worker → ℕ) → List Worker → ℕ
total f [] = 0
total f (w ∷ workers) = f w + total f workers

-- How often a worker has a request.
abbrev pub holds : ℕ → Worker → ℕ
holds r (received s) = if nat_eq r s then 1 else 0
holds r (handling s) = if nat_eq r s then 1 else 0
holds r _ = 0

abbrev pub handles : Worker → ℕ
handles (handling r) = 1
handles _ = 0

-- The requests that were pushed, by whichever events.
abbrev pub pushed : List Event → List ℕ
pushed [] = []
pushed (push_to r i ∷ events) = r ∷ pushed events
pushed (_ ∷ events) = pushed events

-- A predicate on what an operation gives, if it is no `none`.
abbrev pub After : (Queue → Type 0) → Option Queue → Type 0
After P none = Unit
After P (some q) = P q

pub total-set_at :
    (f : Worker → ℕ) (i : ℕ) (w : Worker) (workers : List Worker) {v : Worker}
    → get_elem? workers i ≡ some v
    → total f (set_at i w workers) + f v ≡ total f workers + f w
unfolding set_at
total-set_at f i w [] e = absurd (cc)
total-set_at f zero w (u ∷ workers) {v} e = ground (arith, e)
total-set_at f (suc i) w (u ∷ workers) e = omega (arith, total-set_at f i w workers e)

-- The number of places in which a request is.
abbrev pub places : ℕ → Queue → ℕ
places r q = occurrences r q.handled + total (holds r) q.workers + occurrences r q.dropped

-- `more` are the requests that an operation adds.
abbrev pub Follows : List ℕ → Queue → Queue → Type 0
Follows more q after =
    ((r : ℕ) → places r after ≡ places r q + occurrences r more)
    × (q.in_progress ≡ total handles q.workers → after.in_progress ≡ total handles after.workers)

receive_request-Follows :
    (r i : ℕ) (o : Option Worker) (q : Queue)
    → get_elem? q.workers i ≡ o
    → After (Follows (r ∷ []) q) (receive_request r i o q)
receive_request-Follows r i (some idle) q e = (
  λ s. omega (arith, total-set_at (holds s) i (received r) q.workers e),
  λ h. omega (arith, h, total-set_at handles i (received r) q.workers e),
)
receive_request-Follows r i _ q e = ground arith

begin_handle-Follows :
    (i : ℕ) (o : Option Worker) (q : Queue)
    → get_elem? q.workers i ≡ o
    → After (Follows [] q) (begin_handle i o q)
begin_handle-Follows i (some (received r)) q e = (
  λ s. omega (arith, total-set_at (holds s) i (handling r) q.workers e),
  λ h. omega (arith, h, total-set_at handles i (handling r) q.workers e),
)
begin_handle-Follows i _ q e = ground arith

end_handle-Follows :
    (i : ℕ) (o : Option Worker) (q : Queue)
    → get_elem? q.workers i ≡ o
    → After (Follows [] q) (end_handle i o q)
end_handle-Follows i (some (handling r)) q e = (
  λ s. omega (arith, total-set_at (holds s) i idle q.workers e),
  λ h. omega (arith, h, total-set_at handles i idle q.workers e),
)
end_handle-Follows i _ q e = ground arith

leave_loop-Follows :
    (i : ℕ) (o : Option Worker) (q : Queue)
    → get_elem? q.workers i ≡ o
    → After (Follows [] q) (leave_loop i o q)
leave_loop-Follows i (some idle) q e = chosen q.is_open
  where
    chosen :
        (is_open : Bool)
        → After
            (Follows [] q)
            (if is_open then none else some (record q { workers = set_at i exited q.workers }))
    chosen true = tt
    chosen false = (
      λ s. omega (arith, total-set_at (holds s) i exited q.workers e),
      λ h. omega (arith, h, total-set_at handles i exited q.workers e),
    )
leave_loop-Follows i _ q e = ground arith

push_request-Follows : (r i : ℕ) (q : Queue) → After (Follows (r ∷ []) q) (push_request r i q)
push_request-Follows r i q = chosen q.is_open
  where
    chosen :
        (is_open : Bool)
        → After (Follows (r ∷ []) q) (
            if is_open
            then receive_request r i (get_elem? q.workers i) q
            else some (record q { dropped = r ∷ q.dropped }))
    chosen true = receive_request-Follows r i (get_elem? q.workers i) q refl
    chosen false = (λ s. omega arith, λ h. h)

close_requests-Follows : (q : Queue) → After (Follows [] q) (close_requests q)
close_requests-Follows q = chosen q.is_open
  where
    chosen :
        (is_open : Bool)
        → After (Follows [] q) (if is_open then some (record q { is_open = false }) else none)
    chosen true = (λ s. omega arith, λ h. h)
    chosen false = tt

step-Follows : (e : Event) (q : Queue) → After (Follows (pushed (e ∷ [])) q) (step e q)
unfolding step
step-Follows (push_to r i) q = push_request-Follows r i q
step-Follows (count i) q = begin_handle-Follows i (get_elem? q.workers i) q refl
step-Follows (finishes i) q = end_handle-Follows i (get_elem? q.workers i) q refl
step-Follows (exits i) q = leave_loop-Follows i (get_elem? q.workers i) q refl
step-Follows closes q = close_requests-Follows q

occurrences-pushed :
    (r : ℕ) (e : Event) (events : List Event)
    → occurrences r (pushed (e ∷ events))
      ≡ occurrences r (pushed (e ∷ [])) + occurrences r (pushed events)
occurrences-pushed r e events = ground arith

pub After-imp :
    (P Q : Queue → Type 0) (o : Option Queue) → ((q : Queue) → P q → Q q) → After P o → After Q o
After-imp P Q none f h = tt
After-imp P Q (some q) f h = f q h

pub After-run_from :
    (P Q : Queue → Type 0) (continue : Queue → Option Queue) (o : Option Queue)
    → After P o
    → ((q : Queue) → P q → After Q (continue q))
    → After Q (run_from continue o)
After-run_from P Q continue none h f = tt
After-run_from P Q continue (some q) h f = f q h

pub run-Follows :
    (events : List Event) (q : Queue) → After (Follows (pushed events) q) (run events q)
unfolding run
run-Follows [] q = (λ r. omega arith, λ h. h)
run-Follows (e ∷ events) q =
    After-run_from (Follows (pushed (e ∷ [])) q) (Follows (pushed (e ∷ events)) q) (run events)
      (step e q) (step-Follows e q)
      (λ mid f.
        After-imp (Follows (pushed events) mid) (Follows (pushed (e ∷ events)) q) (run events mid)
          (λ after g.
            (λ r. omega (arith, f.0 r, g.0 r, occurrences-pushed r e events), λ h. g.1 (f.1 h)))
          (run-Follows events mid))

no_requests :
    (r n : ℕ) → (total (holds r) (idle_workers n) ≡ 0) × (total handles (idle_workers n) ≡ 0)
no_requests r zero = (refl, refl)
no_requests r (suc n) = (omega (arith, (no_requests r n).0), omega (arith, (no_requests r n).1))

pub After-some : (P : Queue → Type 0) (o : Option Queue) (q : Queue) → After P o → o ≡ some q → P q
After-some P o q h e = subst (After P) e h

-- Whatever the goroutines that push, the workers and Stop do in whichever order, each request that was
-- pushed is in one place for each time it was pushed: it was handled, a worker has it, or it was dropped.
-- The counter of the wait group is the number of workers that handle one.
pub run-places :
    (n : ℕ) (events : List Event) (q : Queue) (r : ℕ)
    → run events (started_queue n) ≡ some q
    → (occurrences r q.handled + total (holds r) q.workers + occurrences r q.dropped
        ≡ occurrences r (pushed events))
      × (q.in_progress ≡ total handles q.workers)
run-places n events q r e =
    (omega (arith, follows.0 r, (no_requests r n).0), follows.1 (sym (no_requests 0 n).1))
  where
    follows : Follows (pushed events) (started_queue n) q
    follows =
        After-some (Follows (pushed events) (started_queue n)) (run events (started_queue n)) q
          (run-Follows events (started_queue n)) e
