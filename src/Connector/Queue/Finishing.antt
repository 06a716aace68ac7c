-- ===== src/Connector/Queue/Finishing.antt =====
-- The workers after the last request, as Stop waits for them.
use guble.Prelude.{
  ℕ, zero, suc, ◌+◌, ◌<◌, ◌≡◌, refl, ap, List, [], ◌∷◌, Option, some, ◌⊎◌, inl, inr, get_elem?,
  length, All, arith,
}
use guble.Connector.Queue.{
  Worker, idle, exited, received, handling, Queue, started_queue, Event, count, finishes,
  begin_handle, end_handle, step, run,
}
use guble.Connector.Queue.Conserved.{
  occurrences, total, holds, pushed, After, After-imp, After-run_from, After-some, total-set_at,
  Follows, run-Follows, run-places,
}

-- The steps that a worker needs until it waits again.
abbrev pub left : Worker → ℕ
left (received r) = 2
left (handling r) = 1
left _ = 0

abbrev pub IsWork : Event → Type 0
IsWork (count i) = Unit
IsWork (finishes i) = Unit
IsWork _ = ⊥

pushed-work : (r : ℕ) (work : List Event) → All IsWork work → occurrences r (pushed work) ≡ 0
pushed-work r [] h = refl
pushed-work r (count i ∷ work) h = pushed-work r work h.1
pushed-work r (finishes i ∷ work) h = pushed-work r work h.1
pushed-work r (_ ∷ work) h = ground (arith, h.0)

abbrev Lessens : Queue → Queue → Type 0
Lessens q after = total left after.workers + 1 ≡ total left q.workers

begin_handle-Lessens :
    (i : ℕ) (o : Option Worker) (q : Queue)
    → get_elem? q.workers i ≡ o
    → After (Lessens q) (begin_handle i o q)
begin_handle-Lessens i (some (received r)) q e =
    omega (arith, total-set_at left i (handling r) q.workers e)
begin_handle-Lessens i _ q e = ground arith

end_handle-Lessens :
    (i : ℕ) (o : Option Worker) (q : Queue)
    → get_elem? q.workers i ≡ o
    → After (Lessens q) (end_handle i o q)
end_handle-Lessens i (some (handling r)) q e = omega (arith, total-set_at left i idle q.workers e)
end_handle-Lessens i _ q e = ground arith

step-Lessens : (e : Event) (q : Queue) → IsWork e → After (Lessens q) (step e q)
unfolding step
step-Lessens (count i) q h = begin_handle-Lessens i (get_elem? q.workers i) q refl
step-Lessens (finishes i) q h = end_handle-Lessens i (get_elem? q.workers i) q refl
step-Lessens _ q h = ground (arith, h)

abbrev LessensBy : ℕ → Queue → Queue → Type 0
LessensBy n q after = n + total left after.workers ≡ total left q.workers

run-lessens :
    (work : List Event) (q : Queue)
    → All IsWork work
    → After (LessensBy (length work) q) (run work q)
unfolding run
run-lessens [] q h = omega arith
run-lessens (e ∷ work) q h =
    After-run_from (Lessens q) (LessensBy (suc (length work)) q) (run work) (step e q)
      (step-Lessens e q h.0)
      (λ mid l.
        After-imp (LessensBy (length work) mid) (LessensBy (suc (length work)) q) (run work mid)
          (λ after m. omega (arith, l, m)) (run-lessens work mid h.1))

-- A worker that does not wait.
Busy : List Worker → Type 0
Busy workers =
    (i : ℕ) × (r : ℕ) × ((get_elem? workers i ≡ some (received r))
      ⊎ (get_elem? workers i ≡ some (handling r)))

some-Busy : (workers : List Worker) → 0 < total left workers → Busy workers
unfolding Busy
some-Busy [] h = absurd (omega arith)
some-Busy (received r ∷ workers) h = (0, r, inl refl)
some-Busy (handling r ∷ workers) h = (0, r, inr refl)
some-Busy (idle ∷ workers) h = let (i, r, e) = some-Busy workers (omega (arith, h)) in (suc i, r, e)
some-Busy (exited ∷ workers) h =
    let (i, r, e) = some-Busy workers (omega (arith, h)) in (suc i, r, e)

-- A step of a worker can be taken.
abbrev pub CanWork : Queue → Type 0
CanWork q = (e : Event) × IsWork e × ((after : Queue) × (step e q ≡ some after))

Busy-works : (q : Queue) → Busy q.workers → CanWork q
unfolding Busy step
Busy-works q (i, r, inl e) = (count i, tt, (_, ap (λ o. begin_handle i o q) e))
Busy-works q (i, r, inr e) = (finishes i, tt, (_, ap (λ o. end_handle i o q) e))

none_held : (r : ℕ) (workers : List Worker) → total left workers ≡ 0 → total (holds r) workers ≡ 0
none_held r [] h = refl
none_held r (idle ∷ workers) h = omega (arith, none_held r workers (omega (arith, h)))
none_held r (exited ∷ workers) h = omega (arith, none_held r workers (omega (arith, h)))
none_held r (received s ∷ workers) h = absurd (omega (arith, h))
none_held r (handling s ∷ workers) h = absurd (omega (arith, h))

-- After any events, the workers come to an end in a number of steps that is fixed, two for each request
-- that was received and one for each that is handled, in whichever order they take them: if there were
-- fewer, then one of them can be taken, or else each request that was pushed was handled or dropped as
-- often as it was pushed.
pub run-finishes :
    (n : ℕ) (events work : List Event) (mid q : Queue) (r : ℕ)
    → run events (started_queue n) ≡ some mid
    → All IsWork work
    → run work mid ≡ some q
    → (length work + total left q.workers ≡ total left mid.workers)
      × (CanWork q
          ⊎ ((total left q.workers ≡ 0)
              × (occurrences r q.handled + occurrences r q.dropped
                  ≡ occurrences r (pushed events))))
run-finishes n events work mid q r e w f = (
  After-some (LessensBy (length work) mid) (run work mid) q (run-lessens work mid w) f,
  chosen (total left q.workers) refl,
)
  where
    follows : Follows (pushed work) mid q
    follows = After-some (Follows (pushed work) mid) (run work mid) q (run-Follows work mid) f

    chosen :
        (k : ℕ)
        → total left q.workers ≡ k
        → CanWork q
          ⊎ ((total left q.workers ≡ 0)
              × (occurrences r q.handled + occurrences r q.dropped ≡ occurrences r (pushed events)))
    chosen zero h = inr (
      h,
      omega (
        arith,
        (run-places n events mid r e).0,
        follows.0 r,
        pushed-work r work w,
        none_held r q.workers h,
      ),
    )
    chosen (suc k) h = inl (Busy-works q (some-Busy q.workers (omega (arith, h))))
