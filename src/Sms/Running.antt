-- ===== src/Sms/Running.antt =====
-- Run, retry and Restart of server/sms/sms_gateway.go, after the loop of the gateway has ended.
pub mod Restarting
pub mod Resending
pub mod Continuing
use guble.Prelude.{ℕ, zero, suc, ◌+◌, List, Option, none, some, Bool, true, false, if◌then◌else◌}
use guble.Store.Fetch.{FetchRequest}
use guble.KvStore.Interface.{KvStore}
use guble.Connector.Running.{ProviderError, invalid_route}
use guble.Sms.{
  ProxyEvent, ProxyEnd, running, route_channel_closed, stopped, not_sent, Gateway, set_last_sent_id,
  read_last_id, fetch_request, send, proxy_loop,
}
use guble.Sms.Nexmo.{
  SmsError, no_sms_sent, incomplete_sms_sent, response_decoding_failed, json_failed,
}
use guble.Prelude.{Bytes}

abbrev pub retries : ℕ
retries = 3

-- What Run does at last: the gateway runs again with a route that has a fetch or none, or it does not,
-- since Restart could not read the last id, or there is nothing to do.
pub data RunEnd : Type 0 where
  restarted : Option FetchRequest → RunEnd
  restart_failed returned still_running : RunEnd

abbrev pub is_restartable_err : SmsError → Bool
is_restartable_err json_failed = false
is_restartable_err _ = true

module _ (S : KvStore) (marshal : ℕ → Bytes) (unmarshal : Bytes → Option ℕ) where
  abbrev pub tried :
      Option SmsError
      → Gateway S marshal unmarshal
      → Bool × Gateway S marshal unmarshal
      → Bool × Gateway S marshal unmarshal
  tried none g later = (true, g)
  tried (some e) g later = later

  -- retry, with the tries that are left; the end of the n-th Send is given. It says whether one succeeded.
  unfoldable pub retry :
      ℕ
      → (ℕ → Option SmsError)
      → ℕ
      → Gateway S marshal unmarshal
      → Bool × Gateway S marshal unmarshal
  unfolding send
  retry zero attempts id g = (false, g)
  retry (suc left) attempts id g =
      let after = send S marshal unmarshal id (attempts 0) g in
      tried (attempts 0) after (retry left (λ n. attempts (suc n)) id after)

  -- After a message that was sent in part: the last id is set to it if the retries fail.
  abbrev pub unless_sent : ℕ → Bool × Gateway S marshal unmarshal → Gateway S marshal unmarshal
  unless_sent id (true, g) = g
  unless_sent id (false, g) = (set_last_sent_id S marshal unmarshal id g).1

  abbrev pub after_read_id :
      Bool × Gateway S marshal unmarshal → RunEnd × Gateway S marshal unmarshal
  after_read_id (true, g) = (restarted (fetch_request S marshal unmarshal g), g)
  after_read_id (false, g) = (restart_failed, g)

  unfoldable pub restart : Gateway S marshal unmarshal → RunEnd × Gateway S marshal unmarshal
  restart g = after_read_id (read_last_id S marshal unmarshal g)

  -- The part of Run for an error of the loop, where Provide has none.
  unfoldable pub after_loop :
      ProxyEnd SmsError
      → (ℕ → Option SmsError)
      → Gateway S marshal unmarshal
      → RunEnd × Gateway S marshal unmarshal
  unfolding retry restart
  after_loop running attempts g = (still_running, g)
  after_loop stopped attempts g = (returned, g)
  after_loop route_channel_closed attempts g = restart g
  after_loop (not_sent id incomplete_sms_sent) attempts g =
      restart (unless_sent id (retry retries attempts id g))
  after_loop (not_sent id no_sms_sent) attempts g = restart g
  after_loop (not_sent id response_decoding_failed) attempts g = restart g
  after_loop (not_sent id json_failed) attempts g = (returned, g)

  -- The part of Run for an error of Provide.
  abbrev pub after_provide :
      ProviderError → Gateway S marshal unmarshal → RunEnd × Gateway S marshal unmarshal
  after_provide invalid_route g = restart g
  after_provide _ g = (returned, g)

  abbrev pub end_run :
      Option ProviderError
      → (ℕ → Option SmsError)
      → ProxyEnd SmsError × Gateway S marshal unmarshal
      → RunEnd × Gateway S marshal unmarshal
  end_run provide_err attempts (running, g) = (still_running, g)
  end_run none attempts (end', g) = after_loop end' attempts g
  end_run (some e) attempts (end', g) = after_provide e g

  unfoldable pub run_gateway :
      List (ProxyEvent SmsError)
      → Option ProviderError
      → (ℕ → Option SmsError)
      → Gateway S marshal unmarshal
      → RunEnd × Gateway S marshal unmarshal
  unfolding after_loop
  run_gateway events provide_err attempts g =
      end_run provide_err attempts (proxy_loop S marshal unmarshal events g)
