-- ===== src/Router/Delivery/Examples.antt =====
-- A route with a queue for two messages that one message goes through.
use guble.Prelude.{ℕ, ◌≤◌, ◌≡◌, refl, List, [], ◌∷◌, ◌++◌, none, some, true, false, arith, length}
use guble.Router.Params.{message_filter}
use guble.Router.Delivery.{
  RouteLimits, checking, polling, removing, sending, pushed, starting, admitted, RouteState,
  new_route, verdict, Step, Steps, Reachable,
}
use guble.Router.Delivery.Order.{unsent, received-InOrder}
use guble.Router.Delivery.Bounds.{queue_size-bounds}

abbrev limits : RouteLimits
limits = record { params = []; channel_size = 1; queue_size = some 2; has_timeout = false }

-- The first message was accepted and sent.
abbrev after_send : RouteState
after_send = record new_route {
  queue = 8 ∷ [];
  channel = 8 ∷ [];
  consuming = true;
  consumer = removing;
  accepted = 8 ∷ [];
}

after_send-Reachable : Reachable limits after_send
unfolding verdict message_filter
after_send-Reachable = Steps.step _ _ _ (Step.admit new_route 8 none refl refl) (
    Steps.step _ _ _ (Step.push_message (record new_route { deliverer = admitted 8 }) 8 refl) (
      Steps.step _ _ _
        (Step.not_consuming
          (record new_route { deliverer = pushed; queue = 8 ∷ []; accepted = 8 ∷ [] }) refl refl)
        (Steps.step _ _ _
          (Step.start_consumer
            (record new_route { deliverer = starting; queue = 8 ∷ []; accepted = 8 ∷ [] }) refl)
          (Steps.step _ _ _
            (Step.still_valid
              (record new_route {
                consuming = true;
                consumer = checking;
                queue = 8 ∷ [];
                accepted = 8 ∷ [];
              })
              refl refl)
            (Steps.step _ _ _
              (Step.poll_message
                (record new_route {
                  consuming = true;
                  consumer = polling;
                  queue = 8 ∷ [];
                  accepted = 8 ∷ [];
                })
                8 refl refl)
              (Steps.step _ _ _
                (Step.send_message
                  (record new_route {
                    consuming = true;
                    consumer = sending 8;
                    queue = 8 ∷ [];
                    accepted = 8 ∷ [];
                  })
                  8 refl refl (omega arith))
                (Steps.here _)))))))

received-InOrder_example :
    ((rest : List ℕ) × (after_send.accepted ≡ after_send.received ++ (after_send.channel ++ rest)))
    × (after_send.closed ≡ false
        → after_send.accepted
          ≡ after_send.received ++ (after_send.channel ++ unsent removing after_send.queue))
received-InOrder_example = received-InOrder limits after_send after_send-Reachable

queue_size-bounds_example : length after_send.queue ≤ 2
queue_size-bounds_example = queue_size-bounds limits 2 after_send refl after_send-Reachable
