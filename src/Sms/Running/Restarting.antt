-- ===== src/Sms/Running/Restarting.antt =====
-- From where the gateway goes on after a restart.
use guble.Prelude.{
  ℕ, zero, suc, ◌≡◌, refl, ap, sym, Bytes, List, Option, none, some, Bool, true, false, inl, inr,
}
use guble.KvStore.Interface.{KvStore, IsLawful}
use guble.Sms.{
  ProxyEvent, ProxyEnd, running, route_channel_closed, stopped, not_sent, Gateway, read_last_id,
  fetch_request, send, proxy_loop,
}
use guble.Sms.Remembered.{IsRemembered, set_last_sent_id-IsRemembered, proxy_loop-IsRemembered}
use guble.Sms.Nexmo.{
  SmsError, no_sms_sent, incomplete_sms_sent, response_decoding_failed, json_failed,
}
use guble.Sms.Running.{
  retries, restarted, is_restartable_err, tried, retry, unless_sent, restart, after_loop, end_run,
  run_gateway,
}

-- The loop ended with an error after which the gateway restarts.
abbrev pub IsRestartable : ProxyEnd SmsError → Type 0
IsRestartable route_channel_closed = Unit
IsRestartable (not_sent id e) = is_restartable_err e ≡ true
IsRestartable _ = ⊥

module _ (S : KvStore) (marshal : ℕ → Bytes) (unmarshal : Bytes → Option ℕ) where
  -- The gateway before it restarts: a message that was sent in part is tried again.
  abbrev pub settled :
      (ℕ → Option SmsError)
      → ProxyEnd SmsError × Gateway S marshal unmarshal
      → Gateway S marshal unmarshal
  settled attempts (not_sent id incomplete_sms_sent, g) =
      unless_sent S marshal unmarshal id (retry S marshal unmarshal retries attempts id g)
  settled attempts (_, g) = g

  module _ (lawful : IsLawful S) where
    send-IsRemembered :
        (id : ℕ) (error : Option SmsError) (g : Gateway S marshal unmarshal)
        → IsRemembered S marshal unmarshal g
        → IsRemembered S marshal unmarshal (send S marshal unmarshal id error g)
    unfolding send
    send-IsRemembered id none g h = set_last_sent_id-IsRemembered S marshal unmarshal lawful id g h
    send-IsRemembered id (some e) g h = h

    tried-IsRemembered :
        (error : Option SmsError) (g : Gateway S marshal unmarshal)
        (later : Bool × Gateway S marshal unmarshal)
        → IsRemembered S marshal unmarshal g
        → IsRemembered S marshal unmarshal later.1
        → IsRemembered S marshal unmarshal (tried S marshal unmarshal error g later).1
    tried-IsRemembered none g later h l = h
    tried-IsRemembered (some e) g later h l = l

    retry-IsRemembered :
        (left : ℕ) (attempts : ℕ → Option SmsError) (id : ℕ) (g : Gateway S marshal unmarshal)
        → IsRemembered S marshal unmarshal g
        → IsRemembered S marshal unmarshal (retry S marshal unmarshal left attempts id g).1
    unfolding retry
    retry-IsRemembered zero attempts id g h = h
    retry-IsRemembered (suc left) attempts id g h =
        let after = send S marshal unmarshal id (attempts 0) g in
        let a = send-IsRemembered id (attempts 0) g h in
        tried-IsRemembered (attempts 0) after
          (retry S marshal unmarshal left (λ n. attempts (suc n)) id after) a
          (retry-IsRemembered left (λ n. attempts (suc n)) id after a)

    unless_sent-IsRemembered :
        (id : ℕ) (r : Bool × Gateway S marshal unmarshal)
        → IsRemembered S marshal unmarshal r.1
        → IsRemembered S marshal unmarshal (unless_sent S marshal unmarshal id r)
    unless_sent-IsRemembered id (true, g) h = h
    unless_sent-IsRemembered id (false, g) h =
        set_last_sent_id-IsRemembered S marshal unmarshal lawful id g h

    module _ (inverse : (id : ℕ) → unmarshal (marshal id) ≡ some id) where
      restart-fetches :
          (g : Gateway S marshal unmarshal)
          → IsRemembered S marshal unmarshal g
          → (restart S marshal unmarshal g).0 ≡ restarted (fetch_request S marshal unmarshal g)
      unfolding restart read_last_id fetch_request
      restart-fetches g (inl h) = rw (read_last_id, h, inverse g.last_id_sent) refl
      restart-fetches g (inr (h, z)) =
          rw (read_last_id, h)
            (ap (λ n. restarted (fetch_request S marshal unmarshal (record g { last_id_sent = n })))
              (sym z))

      after_loop-fetches :
          (attempts : ℕ → Option SmsError) (r : ProxyEnd SmsError × Gateway S marshal unmarshal)
          → IsRestartable r.0
          → IsRemembered S marshal unmarshal r.1
          → (end_run S marshal unmarshal none attempts r).0
            ≡ restarted (fetch_request S marshal unmarshal (settled attempts r))
      unfolding after_loop
      after_loop-fetches attempts (route_channel_closed, g) e h = restart-fetches g h
      after_loop-fetches attempts (not_sent id no_sms_sent, g) e h = restart-fetches g h
      after_loop-fetches attempts (not_sent id response_decoding_failed, g) e h =
          restart-fetches g h
      after_loop-fetches attempts (not_sent id incomplete_sms_sent, g) e h =
          restart-fetches
            (unless_sent S marshal unmarshal id (retry S marshal unmarshal retries attempts id g))
            (unless_sent-IsRemembered id (retry S marshal unmarshal retries attempts id g)
              (retry-IsRemembered retries attempts id g h))
      after_loop-fetches attempts (not_sent id json_failed, g) e h = absurd (cc)
      after_loop-fetches attempts (running, g) e h = absurd e
      after_loop-fetches attempts (stopped, g) e h = absurd e

      -- The gateway restarts from what it has settled.
      pub run_gateway-settled :
          (events : List (ProxyEvent SmsError)) (attempts : ℕ → Option SmsError)
          (g : Gateway S marshal unmarshal)
          → IsRemembered S marshal unmarshal g
          → IsRestartable (proxy_loop S marshal unmarshal events g).0
          → (run_gateway S marshal unmarshal events none attempts g).0
            ≡ restarted (
                fetch_request S marshal unmarshal
                  (settled attempts (proxy_loop S marshal unmarshal events g)))
      unfolding run_gateway
      run_gateway-settled events attempts g h e =
          after_loop-fetches attempts (proxy_loop S marshal unmarshal events g) e
            (proxy_loop-IsRemembered S marshal unmarshal lawful events g h)
