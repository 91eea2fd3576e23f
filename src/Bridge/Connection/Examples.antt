-- ===== src/Bridge/Connection/Examples.antt =====
-- A connection with two subscriptions, one of which ends.
use transport_go.Prelude.{ℕ, ◌≡◌, refl, true, false, none, some, List, [], ◌∷◌}
use transport_go.Prelude.GoMap.{lookup}
use transport_go.Bridge.Connection.{
  Connection, Delivered, message_frame, error_frame, connected_frame, new_bridge_ws_client,
}
use transport_go.Bridge.Connection.Status.{fresh}
use transport_go.Bridge.Connection.Sequence.{
  Operation, subscribes, unsubscribes, receives, Expected, Outcome, run, expect_all,
}
use transport_go.Bridge.Connection.Delivery.{Agree, Outcomes-Agree, run-expect_all}

abbrev connection : Connection
connection = record { ws_conn = record new_bridge_ws_client { awaited = true }; subscriptions = [] }

abbrev start : Expected
start = record { status = λ d. fresh; awaited = true; blocked = false }

start-Agree : Agree connection start
unfolding new_bridge_ws_client lookup
start-Agree = (tt, tt, λ d. refl, λ d. refl, refl, refl)

-- The connection is made; the second subscription to "/topic/a" comes after the end of the first.
abbrev traffic : List (Operation ℕ)
traffic =
    receives connected_frame
    ∷ subscribes "/topic/a" 1
    ∷ subscribes "/topic/b" 2
    ∷ receives (message_frame "/topic/a" 10)
    ∷ unsubscribes "/topic/a"
    ∷ subscribes "/topic/a" 3
    ∷ receives (message_frame "/topic/a" 11)
    ∷ receives (message_frame "/topic/b" 12)
    ∷ receives (error_frame "/topic/b" 13)
    ∷ receives (message_frame "/topic/b" 14)
    ∷ []

run-expect_all_example : Outcomes-Agree (run traffic connection) (expect_all traffic start)
run-expect_all_example = run-expect_all traffic connection start start-Agree

abbrev delivered : List (Delivered ℕ)
delivered =
    record { id = 1; destination = "/topic/a"; body = 10 }
    ∷ record { id = 2; destination = "/topic/b"; body = 12 }
    ∷ []

abbrev delivered_of : Outcome ℕ Expected → List (Delivered ℕ)
delivered_of none = []
delivered_of (some (s, ds)) = ds

expected_deliveries : delivered_of (expect_all traffic start) ≡ delivered
unfolding expect_all
expected_deliveries = refl
