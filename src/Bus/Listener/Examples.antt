-- ===== src/Bus/Listener/Examples.antt =====
-- Listeners for one response, and for all of them, on a channel with other traffic.
use transport_go.Prelude.{ℕ, ◌≡◌, refl, true, false, some, List, [], ◌∷◌}
use transport_go.Bus.Listener.{
  Message, MessageHandler, request_dir, response_dir, error_dir, wrap_message_handler, handle, run,
}
use transport_go.Bus.Listener.Delivery.{IsHandled, first_call, run_once}

abbrev traffic : List (Message ℕ)
traffic =
    record { direction = request_dir; destination_id = some 4; body = 1 }
    ∷ record { direction = response_dir; destination_id = some 5; body = 2 }
    ∷ record { direction = response_dir; destination_id = some 4; body = 3 }
    ∷ record { direction = error_dir; destination_id = some 9; body = 4 }
    ∷ []

abbrev once : MessageHandler
once = handle (some 1) (some 2) (wrap_message_handler response_dir false false (some 4) true)

abbrev stream : MessageHandler
stream = handle (some 1) (some 2) (wrap_message_handler response_dir false false (some 4) false)

once-IsHandled : IsHandled once 1 2
unfolding handle wrap_message_handler
once-IsHandled = record { success = refl; error = refl; direction = refl }

stream-IsHandled : IsHandled stream 1 2
unfolding handle wrap_message_handler
stream-IsHandled = record { success = refl; error = refl; direction = refl }

run_once_example : (run traffic once).1 ≡ first_call once 1 2 traffic
unfolding handle wrap_message_handler
run_once_example = run_once traffic once 1 2 once-IsHandled refl
