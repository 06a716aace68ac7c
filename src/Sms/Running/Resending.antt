-- ===== src/Sms/Running/Resending.antt =====
-- A message that could not be sent is fetched again.
use mathlib.Core.Path.{subst}
use guble.Prelude.{
  ℕ, zero, suc, ◌+◌, ◌%◌, ◌^◌, ◌<◌, ◌≤◌, ◌≡◌, refl, ap, sym, Bytes, List, [], ◌∷◌, Option, none,
  some, Bool, true, false, ltb, arith,
}
use guble.Protocol.Split.{partition}
use guble.Protocol.Decimal.{negsuc}
use guble.Store.Fetch.{forward, new_fetch_request}
use guble.KvStore.Interface.{KvStore, IsLawful}
use guble.Sms.{
  sms_schema, ProxyEvent, received, route_closed, context_done, ProxyEnd, not_sent, Gateway,
  remembered, set_last_sent_id, fetch_request, send, proxy_loop,
}
use guble.Sms.Remembered.{IsRemembered}
use guble.Sms.Nexmo.{
  SmsError, no_sms_sent, incomplete_sms_sent, response_decoding_failed, json_failed,
}
use guble.Sms.Running.{RunEnd, restarted, run_gateway}
use guble.Sms.Running.Restarting.{IsRestartable, settled, run_gateway-settled}

-- Errors of a message of which no part was sent, as far as the sender knows, though it could be.
abbrev pub IsUnsent : SmsError → Type 0
IsUnsent no_sms_sent = Unit
IsUnsent response_decoding_failed = Unit
IsUnsent _ = ⊥

-- The ids of the messages ascend from above a number.
abbrev pub AscendFrom : ℕ → List (ProxyEvent SmsError) → Type 0
AscendFrom n [] = Unit
AscendFrom n (received id error ∷ events) = (n < id) × AscendFrom id events
AscendFrom n (_ ∷ events) = Unit

module _ (S : KvStore) (marshal : ℕ → Bytes) (unmarshal : Bytes → Option ℕ) where
  -- The id that is remembered is positive and at most a number.
  abbrev Between : Bytes → ℕ → Gateway S marshal unmarshal → Type 0
  Between topic n g = (g.topic ≡ topic) × ((0 < g.last_id_sent) × (g.last_id_sent ≤ n))

  -- At the end it is below the id of the message that was not sent.
  abbrev Below : Bytes → ProxyEnd SmsError × Gateway S marshal unmarshal → Type 0
  Below topic (not_sent id e, g) =
      (g.topic ≡ topic) × ((0 < g.last_id_sent) × (g.last_id_sent < id))
  Below topic (_, g) = Unit

  remembered-Between :
      (topic : Bytes) (n id : ℕ) (g : Gateway S marshal unmarshal) (p : Bool × S.State)
      → n < id
      → Between topic n g
      → Between topic id (remembered S marshal unmarshal id g p).1
  remembered-Between topic n id g (true, s) l b = (b.0, (omega (arith, l), omega arith))
  remembered-Between topic n id g (false, s) l b = (b.0, (b.1.0, omega (arith, b.1.1, l)))

  proxy_loop-Below :
      (topic : Bytes) (n : ℕ) (events : List (ProxyEvent SmsError))
      (g : Gateway S marshal unmarshal)
      → AscendFrom n events
      → Between topic n g
      → Below topic (proxy_loop S marshal unmarshal events g)
  unfolding proxy_loop send set_last_sent_id
  proxy_loop-Below topic n [] g a b = tt
  proxy_loop-Below topic n (route_closed ∷ events) g a b = tt
  proxy_loop-Below topic n (context_done ∷ events) g a b = tt
  proxy_loop-Below topic n (received id (some e) ∷ events) g a b =
      (b.0, (b.1.0, omega (arith, a.0, b.1.1)))
  proxy_loop-Below topic n (received id none ∷ events) g a b =
      proxy_loop-Below topic id events (set_last_sent_id S marshal unmarshal id g).1 a.1
        (remembered-Between topic n id g (S.put g.kv_store sms_schema g.topic (marshal id)) a.0 b)

  -- The fetch of a gateway that has an id.
  abbrev pub FetchesUpTo : Bytes → ℕ → RunEnd → Type 0
  FetchesUpTo topic id end' =
      (start : ℕ) × (end'
        ≡ restarted (some (new_fetch_request (partition topic) start 0 forward (negsuc 0))))
      × (start ≤ id)

  positive : (n : ℕ) → 0 < n → ltb 0 n ≡ true
  positive zero h = absurd (omega arith)
  positive (suc n) h = ground arith

  below-fetches :
      (topic : Bytes) (id : ℕ) (g : Gateway S marshal unmarshal)
      → (g.topic ≡ topic) × ((0 < g.last_id_sent) × (g.last_id_sent < id))
      → FetchesUpTo topic id (restarted (fetch_request S marshal unmarshal g))
  unfolding fetch_request
  below-fetches topic id g (t, (p, l)) = (
    (g.last_id_sent + 1) % 2 ^ 64,
    rw (positive g.last_id_sent p) (
        ap
          (λ s. restarted (
            some (
              new_fetch_request (partition s) ((g.last_id_sent + 1) % 2 ^ 64) 0 forward
                (negsuc 0))))
          t),
    omega (arith, l),
  )

  unsent-fetches :
      (topic : Bytes) (id : ℕ) (e : SmsError) (attempts : ℕ → Option SmsError)
      (g : Gateway S marshal unmarshal)
      → IsUnsent e
      → Below topic (not_sent id e, g)
      → FetchesUpTo topic id (
          restarted (
            fetch_request S marshal unmarshal
              (settled S marshal unmarshal attempts (not_sent id e, g))))
  unsent-fetches topic id no_sms_sent attempts g u b = below-fetches topic id g b
  unsent-fetches topic id response_decoding_failed attempts g u b = below-fetches topic id g b
  unsent-fetches topic id incomplete_sms_sent attempts g u b = absurd u
  unsent-fetches topic id json_failed attempts g u b = absurd u

  unsent-IsRestartable : (id : ℕ) (e : SmsError) → IsUnsent e → IsRestartable (not_sent id e)
  unsent-IsRestartable id no_sms_sent u = refl
  unsent-IsRestartable id response_decoding_failed u = refl
  unsent-IsRestartable id incomplete_sms_sent u = absurd u
  unsent-IsRestartable id json_failed u = absurd u

  settled-Below :
      (topic : Bytes) (id : ℕ) (e : SmsError) (attempts : ℕ → Option SmsError)
      (r : ProxyEnd SmsError × Gateway S marshal unmarshal)
      → IsUnsent e
      → r.0 ≡ not_sent id e
      → Below topic r
      → FetchesUpTo topic id
          (restarted (fetch_request S marshal unmarshal (settled S marshal unmarshal attempts r)))
  settled-Below topic id e attempts r u q b =
      subst
        (λ end'.
          Below topic (end', r.1)
          → FetchesUpTo topic id (
              restarted (
                fetch_request S marshal unmarshal
                  (settled S marshal unmarshal attempts (end', r.1)))))
        (sym q) (unsent-fetches topic id e attempts r.1 u) b

  -- If the loop, which got messages of ascending ids from behind the one that the gateway has, ends with
  -- a message of which no part was sent, or so it seems, then the gateway restarts, whatever Puts failed,
  -- and its route fetches from an id on that is at most that of the message, up to the last. The store had
  -- the gateway's id before and keeps its contract, and the JSON of a number is read back.
  pub run_gateway-resends :
      (events : List (ProxyEvent SmsError)) (id : ℕ) (e : SmsError) (attempts : ℕ → Option SmsError)
      (g : Gateway S marshal unmarshal)
      → IsLawful S
      → ((n : ℕ) → unmarshal (marshal n) ≡ some n)
      → IsRemembered S marshal unmarshal g
      → 0 < g.last_id_sent
      → AscendFrom g.last_id_sent events
      → IsUnsent e
      → (proxy_loop S marshal unmarshal events g).0 ≡ not_sent id e
      → FetchesUpTo g.topic id (run_gateway S marshal unmarshal events none attempts g).0
  run_gateway-resends events id e attempts g lawful inverse h p a u q =
      subst (FetchesUpTo g.topic id)
        (sym (
          run_gateway-settled S marshal unmarshal lawful inverse events attempts g h
            (subst IsRestartable (sym q) (unsent-IsRestartable id e u))))
        (settled-Below g.topic id e attempts (proxy_loop S marshal unmarshal events g) u q
          (proxy_loop-Below g.topic g.last_id_sent events g a (refl, (p, omega arith))))
