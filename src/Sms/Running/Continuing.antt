-- ===== src/Sms/Running/Continuing.antt =====
-- The id from which a gateway goes on, from what the loop received and which Puts failed.
use guble.Prelude.{
  ℕ, zero, suc, ◌+◌, ◌%◌, ◌^◌, ltb, ◌≡◌, refl, ap, ◌∙◌, Bytes, List, [], ◌∷◌, Option, none, some,
  Bool, true, false, ◌||◌, if◌then◌else◌, arith,
}
use guble.Protocol.Split.{partition}
use guble.Protocol.Decimal.{negsuc}
use guble.Store.Fetch.{FetchRequest, forward, new_fetch_request}
use guble.KvStore.Interface.{KvStore, IsLawful}
use guble.Sms.{
  sms_schema, ProxyEvent, received, route_closed, context_done, Gateway, remembered,
  set_last_sent_id, fetch_request, send, proxy_loop,
}
use guble.Sms.Remembered.{IsRemembered}
use guble.Sms.Nexmo.{
  SmsError, no_sms_sent, incomplete_sms_sent, response_decoding_failed, json_failed,
}
use guble.Sms.Running.{retries, restarted, tried, retry, unless_sent, run_gateway}
use guble.Sms.Running.Restarting.{IsRestartable, settled, run_gateway-settled}

abbrev pub is_sent : Option SmsError → Bool
is_sent none = true
is_sent (some e) = false

-- The fetch from behind an id; 0 is none.
abbrev pub fetch_behind : Bytes → ℕ → Option FetchRequest
fetch_behind topic zero = none
fetch_behind topic (suc n) =
    some (new_fetch_request (partition topic) ((suc n + 1) % 2 ^ 64) 0 forward (negsuc 0))

module _ (S : KvStore) (marshal : ℕ → Bytes) (unmarshal : Bytes → Option ℕ) where
  -- The last id after a Put of one, which may fail, with the state of the store.
  abbrev pub put_id : Bytes → ℕ → ℕ × S.State → ℕ × S.State
  put_id topic id (last, kv) =
      let p = S.put kv sms_schema topic (marshal id) in (if p.0 then id else last, p.1)

  -- The last id after what the loop received: it is put for each message that was sent, and for the one
  -- that was sent in part, with which the loop ends.
  unfoldable pub last_put : Bytes → List (ProxyEvent SmsError) → ℕ × S.State → ℕ × S.State
  last_put topic [] p = p
  last_put topic (received id none ∷ events) p = last_put topic events (put_id topic id p)
  last_put topic (received id (some incomplete_sms_sent) ∷ events) p = put_id topic id p
  last_put topic (_ ∷ events) p = p

  abbrev state_of : Gateway S marshal unmarshal → ℕ × S.State
  state_of g = (g.last_id_sent, g.kv_store)

  -- A gateway of a topic with a last id and a store.
  abbrev Has : Bytes → ℕ × S.State → Gateway S marshal unmarshal → Type 0
  Has topic p g = (g.topic ≡ topic) × (state_of g ≡ p)

  remembered-Has :
      (topic : Bytes) (id : ℕ) (g : Gateway S marshal unmarshal) (p : Bool × S.State)
      → g.topic ≡ topic
      → Has topic
          (if p.0 then id else g.last_id_sent, p.1)
          (remembered S marshal unmarshal id g p).1
  remembered-Has topic id g (true, s) t = (t, refl)
  remembered-Has topic id g (false, s) t = (t, refl)

  set_last_sent_id-Has :
      (topic : Bytes) (id : ℕ) (g : Gateway S marshal unmarshal)
      → g.topic ≡ topic
      → Has topic (put_id topic id (state_of g)) (set_last_sent_id S marshal unmarshal id g).1
  unfolding set_last_sent_id
  set_last_sent_id-Has topic id g t =
      let (kept, has) =
        remembered-Has topic id g (S.put g.kv_store sms_schema g.topic (marshal id)) t in
      (kept, has ∙ ap (λ s. put_id s id (state_of g)) t)

  -- Whether a retry succeeds or all fail, the id is put once.
  retry-set :
      (left : ℕ) (attempts : ℕ → Option SmsError) (id : ℕ) (g : Gateway S marshal unmarshal)
      → unless_sent S marshal unmarshal id (retry S marshal unmarshal left attempts id g)
        ≡ (set_last_sent_id S marshal unmarshal id g).1
  unfolding retry send
  retry-set zero attempts id g = refl
  retry-set (suc left) attempts id g =
      chosen (attempts 0) (retry-set left (λ n. attempts (suc n)) id g)
    where
      chosen :
          (o : Option SmsError)
          → unless_sent S marshal unmarshal id
              (retry S marshal unmarshal left (λ n. attempts (suc n)) id g)
            ≡ (set_last_sent_id S marshal unmarshal id g).1
          → let after = send S marshal unmarshal id o g in
            unless_sent S marshal unmarshal id (
              tried S marshal unmarshal o after
                (retry S marshal unmarshal left (λ n. attempts (suc n)) id after))
            ≡ (set_last_sent_id S marshal unmarshal id g).1
      chosen none e = refl
      chosen (some x) e = e

  tried-sent :
      (o : Option SmsError) (g : Gateway S marshal unmarshal)
      (later : Bool × Gateway S marshal unmarshal)
      → (tried S marshal unmarshal o g later).0 ≡ is_sent o || later.0
  tried-sent none g later = refl
  tried-sent (some e) g later = refl

  or-false : (b : Bool) → (b || false) ≡ b
  or-false true = refl
  or-false false = refl

  retry-sent :
      (attempts : ℕ → Option SmsError) (id : ℕ) (g : Gateway S marshal unmarshal)
      → (retry S marshal unmarshal retries attempts id g).0
        ≡ is_sent (attempts 0) || (is_sent (attempts 1) || is_sent (attempts 2))
  unfolding retry
  retry-sent attempts id g =
      tried-sent (attempts 0) _ _
      ∙ ap (λ b. is_sent (attempts 0) || b)
          (tried-sent (attempts 1) _ _
            ∙ ap (λ b. is_sent (attempts 1) || b)
                (tried-sent (attempts 2) _ _ ∙ or-false (is_sent (attempts 2))))

  proxy_loop-Has :
      (topic : Bytes) (attempts : ℕ → Option SmsError) (events : List (ProxyEvent SmsError))
      (g : Gateway S marshal unmarshal)
      → g.topic ≡ topic
      → Has topic
          (last_put topic events (state_of g))
          (settled S marshal unmarshal attempts (proxy_loop S marshal unmarshal events g))
  unfolding proxy_loop last_put send
  proxy_loop-Has topic attempts [] g t = (t, refl)
  proxy_loop-Has topic attempts (route_closed ∷ events) g t = (t, refl)
  proxy_loop-Has topic attempts (context_done ∷ events) g t = (t, refl)
  proxy_loop-Has topic attempts (received id (some no_sms_sent) ∷ events) g t = (t, refl)
  proxy_loop-Has topic attempts (received id (some response_decoding_failed) ∷ events) g t =
      (t, refl)
  proxy_loop-Has topic attempts (received id (some json_failed) ∷ events) g t = (t, refl)
  proxy_loop-Has topic attempts (received id (some incomplete_sms_sent) ∷ events) g t =
      rw (retry-set retries attempts id g) (set_last_sent_id-Has topic id g t)
  proxy_loop-Has topic attempts (received id none ∷ events) g t =
      let (kept, has) = set_last_sent_id-Has topic id g t in
      let (kept', has') =
        proxy_loop-Has topic attempts events (set_last_sent_id S marshal unmarshal id g).1 kept in
      (kept', has' ∙ ap (last_put topic events) has)

  fetch_request-behind :
      (topic : Bytes) (n : ℕ)
      → (if ltb 0 n
          then some (new_fetch_request (partition topic) ((n + 1) % 2 ^ 64) 0 forward (negsuc 0))
          else none)
        ≡ fetch_behind topic n
  fetch_request-behind topic zero = refl
  fetch_request-behind topic (suc n) = rw positive refl
    where
      positive : ltb 0 (suc n) ≡ true
      positive = ground arith

  -- Whatever the loop received, whatever sends and Puts failed, and whatever the retries gave: if the
  -- loop ended with an error after which the gateway restarts, and Provide had none, then the gateway
  -- restarts, and fetches from behind the last id of which a Put succeeded, if there is one. There is a
  -- Put for each message that was sent, and one for the message that was sent in part, which is tried
  -- three times more at most. The store had the gateway's id before and keeps its contract, and the JSON
  -- of a number is read back.
  pub run_gateway-continues :
      (events : List (ProxyEvent SmsError)) (attempts : ℕ → Option SmsError) (id : ℕ)
      (g : Gateway S marshal unmarshal)
      → IsLawful S
      → ((n : ℕ) → unmarshal (marshal n) ≡ some n)
      → IsRemembered S marshal unmarshal g
      → IsRestartable (proxy_loop S marshal unmarshal events g).0
      → ((run_gateway S marshal unmarshal events none attempts g).0
          ≡ restarted
              (fetch_behind g.topic (last_put g.topic events (g.last_id_sent, g.kv_store)).0))
        × ((retry S marshal unmarshal retries attempts id g).0
            ≡ is_sent (attempts 0) || (is_sent (attempts 1) || is_sent (attempts 2)))
  unfolding fetch_request
  run_gateway-continues events attempts id g lawful inverse h e =
      let after = settled S marshal unmarshal attempts (proxy_loop S marshal unmarshal events g) in
      let (kept, has) = proxy_loop-Has g.topic attempts events g refl in
      (
        run_gateway-settled S marshal unmarshal lawful inverse events attempts g h e
            ∙ ap restarted (
                fetch_request-behind after.topic after.last_id_sent
                ∙ ap (λ t. fetch_behind t after.last_id_sent) kept
                ∙ ap (λ (p : ℕ × S.State). fetch_behind g.topic p.0) has),
        retry-sent attempts id g,
      )
