-- ===== src/Bus/Monitor/Examples.antt =====
-- A monitor with a listener for all events and one for two types.
use transport_go.Prelude.{ℕ, ◌+◌, ◌&&◌, ◌||◌, ◌≡◌, refl, List, [], ◌∷◌, ◌==◌, leb, if◌then◌else◌}
use transport_go.Prelude.GoSlice.{count, length}
use transport_go.Bus.Monitor.{
  TransportMonitor, new_monitor, add_listener, send_event, for_type, call_each, set_listener,
  add_for_types, add_for_type,
}
use transport_go.Bus.Monitor.Listeners.{one_of, send_event-add_listener}

abbrev monitor : TransportMonitor
monitor = (add_listener 8 (3 ∷ 4 ∷ []) (add_listener 7 [] new_monitor).0).0

abbrev types : List ℕ
types = 4 ∷ 4 ∷ []

send_event-add_listener_example :
    count 3 (send_event 4 (add_listener 9 types monitor).0)
    ≡ count 3 (send_event 4 monitor)
      + (if (monitor.sub_id + 1) == 3 && (leb (length types) 0 || one_of 4 types) then 1 else 0)
unfolding send_event add_listener new_monitor for_type call_each set_listener add_for_types
    add_for_type
send_event-add_listener_example = send_event-add_listener 9 3 4 types monitor refl
