-- ===== src/Stomp/Server/Examples.antt =====
-- Two clients on a server with callbacks.
use transport_go.Prelude.{ap, str_eq, String, ◌≡◌, ◌≢◌, none, List, [], ◌∷◌, arith}
use transport_go.Prelude.GoSlice.{All}
use transport_go.Stomp.Config.{new_stomp_config}
use transport_go.Stomp.Frame.{Frame, Command}
use transport_go.Stomp.Conn.{Subscription}
use transport_go.Stomp.Server.{
  StompServer, new_stomp_server, on_subscribe_event, on_unsubscribe_event, EventType, Call,
  set_connection_event_callback, Input, connection_event, api_event, starting, subscribed, closed,
  unsubscribed, send_message, handle_connection_event, run,
}
use transport_go.Stomp.Server.Subscriptions.{
  find_sub, after_event, handle_connection_event-find_sub,
}
use transport_go.Stomp.Server.Delivery.{NotTo, run-closed_silent}

abbrev sub_1 : Subscription
sub_1 = record { id = "s1"; destination = "/topic/a" }

abbrev a_frame : Frame (Unit {0})
a_frame = record { command = Command.message; header = tt; message_id = none; body = [] }

abbrev server : StompServer
server =
    set_connection_event_callback EventType.connection_closed 9
      (on_unsubscribe_event 2 (on_subscribe_event 1 (new_stomp_server (new_stomp_config 0 []))))

abbrev served : StompServer
served =
    (run
      (connection_event (starting "a")
        ∷ connection_event (subscribed "a" "/topic/a" sub_1 a_frame)
        ∷ connection_event (subscribed "b" "/topic/a" sub_1 a_frame)
        ∷ [])
      server).0

abbrev later : List (Input (Unit {0}))
later =
    connection_event (subscribed "b" "/topic/b" sub_1 a_frame)
    ∷ api_event (send_message "/topic/a" a_frame)
    ∷ []

handle_connection_event-find_sub_example :
    find_sub "/topic/a" "b" "s1"
      (handle_connection_event {H = Unit {0}}
        (unsubscribed "b" "/topic/a" sub_1)
        served).0.subscriptions_map
    ≡ after_event {H = Unit {0}}
        (unsubscribed "b" "/topic/a" sub_1)
        "/topic/a"
        "b"
        "s1"
        (find_sub "/topic/a" "b" "s1" served.subscriptions_map)
handle_connection_event-find_sub_example =
    handle_connection_event-find_sub (unsubscribed "b" "/topic/a" sub_1) served "/topic/a" "b" "s1"

b_not_a : ◌≢◌ {A = String} "b" "a"
b_not_a e = ground (arith, ap (λ s. str_eq s "a") e)

run-closed_silent_example :
    All {A = Call (Unit {0})} (NotTo "a") (run (connection_event (closed "a") ∷ later) served).1
run-closed_silent_example = run-closed_silent (Unit {0}) "a" later served (b_not_a, (tt, tt))
