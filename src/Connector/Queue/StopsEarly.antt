-- ===== src/Connector/Queue/StopsEarly.antt =====
-- A worker counts a request after it received it: Stop can return in between.
use guble.Prelude.{
  ℕ, zero, suc, ◌≡◌, refl, ap, ◌∙◌, List, [], ◌∷◌, none, some, true, false, if◌then◌else◌, nat_eq,
  get_elem?,
}
use guble.Connector.Queue.{
  Worker, idle, received, Queue, push_to, closes, set_at, receive_request, push_request, step,
  run_from, run, stop_returns,
}

get_elem?-set_at :
    (i : ℕ) (w : Worker) (workers : List Worker) {v : Worker}
    → get_elem? workers i ≡ some v
    → get_elem? (set_at i w workers) i ≡ some w
unfolding set_at
get_elem?-set_at i w [] e = absurd (cc)
get_elem?-set_at zero w (u ∷ workers) e = refl
get_elem?-set_at (suc i) w (u ∷ workers) e = get_elem?-set_at i w workers e

-- If a worker of an open queue waits, and none handles a request, then Stop can return while the worker
-- has a request that was pushed before Stop was called: nobody has handled it.
pub stop_returns_early :
    (q : Queue) (r i : ℕ)
    → q.is_open ≡ true
    → get_elem? q.workers i ≡ some idle
    → q.in_progress ≡ 0
    → (after : Queue) × (run (push_to r i ∷ closes ∷ []) q ≡ some after)
      × (stop_returns after ≡ true)
      × (get_elem? after.workers i ≡ some (received r))
      × (after.handled ≡ q.handled)
unfolding run step stop_returns
stop_returns_early q r i o e p = (
  record q { is_open = false; workers = set_at i (received r) q.workers },
  ap (run_from (run (closes ∷ []))) pushed_step ∙ closed,
  ap (λ n. nat_eq n 0) p,
  get_elem?-set_at i (received r) q.workers e,
  refl,
)
  where
    pushed_step : push_request r i q ≡ some (record q { workers = set_at i (received r) q.workers })
    pushed_step =
        ap
          (λ b.
            if b
            then receive_request r i (get_elem? q.workers i) q
            else some (record q { dropped = r ∷ q.dropped }))
          o
        ∙ ap (λ w. receive_request r i w q) e

    closed :
        run (closes ∷ []) (record q { workers = set_at i (received r) q.workers })
        ≡ some (record q { is_open = false; workers = set_at i (received r) q.workers })
    closed =
        ap
          (λ b. run_from (run []) (
            if b
            then some (record q { is_open = false; workers = set_at i (received r) q.workers })
            else none))
          o
