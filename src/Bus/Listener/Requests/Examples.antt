-- ===== src/Bus/Listener/Requests/Examples.antt =====
-- A request for destination 4, with other traffic before its answer.
use transport_go.Prelude.{ℕ, ◌≡◌, inr, some, List, [], ◌∷◌}
use transport_go.Bus.Listener.{Message, MessageHandler, response_dir, error_dir, handle, run}
use transport_go.Bus.Listener.Requests.{RequestKind, make_request, fire}
use transport_go.Bus.Listener.Requests.Answering.{answers, calls_for, fire-make_request}
use transport_go.Prelude.GoSlice.{select}

abbrev traffic : List (Message ℕ)
traffic =
    record { direction = response_dir; destination_id = some 5; body = 2 }
    ∷ record { direction = response_dir; destination_id = some 4; body = 3 }
    ∷ record { direction = error_dir; destination_id = some 9; body = 4 }
    ∷ []

fire-make_request_example :
    (h : MessageHandler) × (msg : Message ℕ) × (make_request {E = Unit {0}}
        RequestKind.once_for_destination 7 4
      ≡ inr (h, msg))
    × (fire (some msg) ≡ inr msg)
    × ((run (msg ∷ traffic) (handle (some 1) (some 2) h)).1
        ≡ calls_for RequestKind.once_for_destination 1 2
            (select (answers RequestKind.once_for_destination 4) traffic))
fire-make_request_example =
    fire-make_request {E = Unit {0}} RequestKind.once_for_destination 7 4 1 2 traffic
