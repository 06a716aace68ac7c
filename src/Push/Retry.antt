-- ===== src/Push/Retry.antt =====
-- server/apns/apns_sender.go: a push that is tried again after a network error. What the pushes give is
-- a function of their number; `none` is a network error, `some` any other end. Waiting is left out.
use guble.Prelude.{
  ℕ, zero, suc, ◌+◌, ◌-◌, ◌≤◌, ◌<◌, ◌≡◌, refl, ap, ◌∙◌, Option, none, some, Bool, true, false,
  if◌then◌else◌, arith,
}

abbrev pub max_tries : ℕ
max_tries = 3

-- What Send gives: an answer of the service, a network error, or ErrRetryFailed.
pub data SendResult (A : Type 0) : Type 0 where
  answered : A → SendResult A
  network_error retry_failed : SendResult A

module _ {A : Type 0} (push : ℕ → Option A) where
  -- The loop of execute, with the tries that are left after this one; `none` is ErrRetryFailed.
  pub try_from : ℕ → ℕ → Option A
  try_from zero i = push i
  try_from (suc left) i = elim (push i) [ some a ↦ some a | none ↦ try_from left (i + 1) ]

  unfoldable pub execute : ℕ → Option A
  unfolding try_from
  execute tries = try_from (tries - 1) 0

  abbrev pub of_push : Option A → SendResult A
  of_push (some a) = answered a
  of_push none = network_error

  -- Send: a client that can close its connection does so, and pushes once more.
  unfoldable pub send : Bool → SendResult A
  unfolding execute
  send is_closable = elim (execute max_tries) [
    | some a ↦ answered a
    | none ↦ if is_closable then of_push (push max_tries) else retry_failed
  ]

  -- The first pushes up to a number fail with network errors.
  abbrev pub FailUpTo : ℕ → Type 0
  FailUpTo n = (i : ℕ) → i < n → push i ≡ none

  try_from-first :
      (left i k : ℕ) (a : A)
      → ((j : ℕ) → j < k → push (i + j) ≡ none)
      → push (i + k) ≡ some a
      → k ≤ left
      → try_from left i ≡ some a
  unfolding try_from
  try_from-first zero i k a f e h = ap push (omega arith) ∙ e
  try_from-first (suc left) i zero a f e h = rw (try_from, ap push here ∙ e) refl
    where
      here : i ≡ i + 0
      here = omega arith
  try_from-first (suc left) i (suc k) a f e h =
      rw (try_from, ap push here ∙ f 0 (omega arith))
        (try_from-first left (i + 1) k a (λ j l. ap push (omega arith) ∙ f (suc j) (omega arith))
          (ap push (omega arith) ∙ e) (omega arith))
    where
      here : i ≡ i + 0
      here = omega arith

  -- The first push that is no network error is the answer, if it is among the first three.
  pub send-first :
      (is_closable : Bool) (k : ℕ) (a : A)
      → FailUpTo k
      → push k ≡ some a
      → k < max_tries
      → send is_closable ≡ answered a
  unfolding send execute
  send-first is_closable k a f e h =
      rw
        (try_from-first 2 0 k a (λ j l. ap push (omega arith) ∙ f j l) (ap push (omega arith) ∙ e)
          (omega arith))
        refl

  -- After three network errors a client that can close its connection has the end of a fourth push,
  -- and any other fails.
  pub send-fails :
      FailUpTo max_tries → (send true ≡ of_push (push max_tries)) × (send false ≡ retry_failed)
  unfolding send execute try_from
  send-fails f = (
    rw (send, try_from, f 0 (omega arith), f 1 (omega arith), f 2 (omega arith)) refl,
    rw (send, try_from, f 0 (omega arith), f 1 (omega arith), f 2 (omega arith)) refl,
  )
