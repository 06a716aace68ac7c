-- ===== src/Router/Running.antt =====
-- The goroutine of the router of server/router/router.go, and the requests that others put into its
-- channels. A case of its select takes the first element of a channel, where there is one. Delivery
-- and Close are arguments, on the state of the routes; channels are given without their capacities.
pub mod Draining
mod Examples
use guble.Prelude.{
  Bytes, bytes_comparable, find, List, [], ◌∷◌, ◌++◌, map, Option, none, some, Bool, true, false,
  ◌&&◌, if◌then◌else◌, codes,
}
use guble.Protocol.Message.{Message}
use guble.Store.Fetch.{FetchRequest}
use guble.Router.Params.{RouteParams, get}
use guble.Router.Entry.{AccessType, read}
use guble.Router.Routes.{Route, RouteTable, view, subscribe, unsubscribe, handle_message}
use guble.Router.Closing.{close_routes}

pub record Running (S : Type 0) : Type 0 where
  pub routes : RouteTable
  pub state : S
  pub handle_c : List Message
  pub subscribe_c : List Route
  pub unsubscribe_c : List Route
  pub stop_c : Bool
  pub stopping : Bool

-- The case that the select takes.
pub data Case : Type 0 where
  message subscriber unsubscriber done : Case

-- What a caller of Subscribe gets; `waiting` until the goroutine took the route.
pub data SubscribeReply : Type 0 where
  waiting is_stopping : SubscribeReply
  permission_denied : Bytes → Bytes → SubscribeReply

abbrev has_none : {A : Type 0} → List A → Bool
has_none [] = true
has_none (a ∷ more) = false

abbrev params_of : Route → RouteParams
params_of route = route.config.params

module _ {S : Type 0} where
  unfoldable pub channels_are_empty : Running S → Bool
  channels_are_empty r = has_none r.handle_c && (has_none r.subscribe_c && has_none r.unsubscribe_c)

  -- Stop, before it waits.
  abbrev pub request_stop : Running S → Running S
  request_stop r = record r { stop_c = true }

  -- A read of Done by a route that fetches: there is one value for all who read it.
  abbrev pub read_done : Running S → Running S
  read_done r = record r { stop_c = false }

  -- Subscribe, before it waits.
  unfoldable pub request_subscribe :
      (AccessType → Bytes → Bytes → Bool) → Route → Running S → SubscribeReply × Running S
  request_subscribe is_allowed route r =
      let user_id = get route.config.params (codes "user_id") in
      if r.stopping
      then (is_stopping, r)
      else if is_allowed read user_id route.config.path
      then (waiting, record r { subscribe_c = r.subscribe_c ++ (route ∷ []) })
      else (permission_denied user_id route.config.path, r)

  -- Unsubscribe, before it waits.
  abbrev pub request_unsubscribe : Route → Running S → Running S
  request_unsubscribe route r = record r { unsubscribe_c = r.unsubscribe_c ++ (route ∷ []) }

  -- Fetch: whether the message store gets the request.
  abbrev pub passes_fetch : Running S → Bool
  passes_fetch r = if r.stopping then false else true

  -- GetSubscribers, before it is encoded.
  unfoldable pub get_subscribers : Bytes → Running S → List RouteParams
  get_subscribers path r = elim (find r.routes path) [
    | none ↦ []
    | some slice ↦ map params_of (view slice)
  ]

  module _ (deliver : Message → Route → S → S × Bool) (close : Route → S → S) where
    abbrev with_routes : Running S → RouteTable × S → Running S
    with_routes r (table, s) = record r { routes = table; state = s }

    unfoldable pub take_message : List Message → Running S → Running S
    unfolding handle_message
    take_message [] r = r
    take_message (m ∷ more) r =
        with_routes (record r { handle_c = more })
          (handle_message (deliver m) m.path r.routes r.state)

    unfoldable pub take_subscriber : List Route → Running S → Running S
    unfolding subscribe
    take_subscriber [] r = r
    take_subscriber (route ∷ more) r = record r {
      subscribe_c = more;
      routes = subscribe r.routes route;
    }

    unfoldable pub take_unsubscriber : List Route → Running S → Running S
    unfolding unsubscribe
    take_unsubscriber [] r = r
    take_unsubscriber (route ∷ more) r = record r {
      unsubscribe_c = more;
      routes = unsubscribe r.routes route;
    }

    abbrev take_stop : Bool → Running S → Running S
    take_stop false r = r
    take_stop true r = record r { stop_c = false; stopping = true }

    -- A case whose channel is empty is not taken.
    unfoldable pub run_case : Case → Running S → Running S
    unfolding take_message take_subscriber take_unsubscriber
    run_case message r = take_message r.handle_c r
    run_case subscriber r = take_subscriber r.subscribe_c r
    run_case unsubscriber r = take_unsubscriber r.unsubscribe_c r
    run_case done r = take_stop r.stop_c r

    abbrev pub closed_down : Running S → Running S
    closed_down r = with_routes r (close_routes close r.routes r.state)

    -- The loop; it says whether the goroutine returned.
    unfoldable pub run_loop : List Case → Running S → Running S × Bool
    unfolding run_case channels_are_empty
    run_loop [] r = if r.stopping && channels_are_empty r then (closed_down r, true) else (r, false)
    run_loop (c ∷ cases) r =
        let rest = run_loop cases (run_case c r) in
        if r.stopping && channels_are_empty r then (closed_down r, true) else rest
