-- ===== src/Plank/Server/Endpoint/Examples.antt =====
-- An error response and a payload that its content type does not take.
use Prim.Native.String.{String}
use transport_go.Prelude.{refl, ◌≡◌, ℕ, Bool, true, false, Option, none, some, [], ◌∷◌}
use mathlib.Core.List.{reverse}
use transport_go.Prelude.GoMap.{GoMap, insert}
use transport_go.Bus.Store.{insert_all}
use transport_go.Bus.Listener.{Message}
use transport_go.Service.Core.{Request, Response, FabricCore}
use transport_go.Service.Core.Answers.{answer, failure}
use transport_go.Plank.Utils.{Value, text, another, lower_is, contains_text}
use transport_go.Plank.Server.Endpoint.{replied, respond}
use transport_go.Plank.Server.Endpoint.Served.{answer-answer_of}
use transport_go.Plank.Server.Endpoint.Status.{answer_of, status_of, headers_of}

abbrev marshal : Option (Value ℕ) → Option String
marshal none = some "null"
marshal (some value) = some "{}"

abbrev marshal_response : Response (Value ℕ) → Option String
marshal_response response = none

abbrev no_error : String → Option String
no_error bytes = none

abbrev any_code : ℕ → Bool
any_code code = true

abbrev text_plain : GoMap String
text_plain = ("Content-Type", "text/plain; charset=utf-8") ∷ []

-- A range from the last header to the first.
abbrev back : GoMap String → GoMap String
back = reverse

-- A number under a content type that is not JSON.
abbrev plain_number : Response (Value ℕ)
plain_number = record {
  id = none;
  destination = "";
  payload = some (another 5);
  headers = ("X", "1") ∷ ("Content-Type", "text/plain") ∷ ("Y", "2") ∷ [];
  error = false;
  error_code = 0;
  error_message = "";
  broker_destination = none;
}

-- The number is not sent.
unsendable :
    answer_of text_plain
      (respond back marshal marshal_response no_error any_code (replied plain_number))
    ≡ (some 500, ("Y", "2") ∷ ("Content-Type", "text/plain") ∷ text_plain)
unfolding respond status_of headers_of lower_is contains_text
unsendable = refl

abbrev json_core : FabricCore
json_core = record { channel_name = "svc"; headers = ("Content-Type", "application/json") ∷ [] }

abbrev asked : Request (Value ℕ)
asked = record { id = some 4; request = "get"; payload = text "a"; broker_destination = none }

answer-answer_of_example :
    (msg : Message (Response (Value ℕ))) × (answer true json_core asked (failure 404 "no such item")
      ≡ (none, some msg))
    × (answer_of text_plain
          (respond back marshal marshal_response no_error any_code (replied msg.body))
        ≡ (some 404, ("Content-Type", "application/json") ∷ []))
unfolding insert_all insert
answer-answer_of_example =
    answer-answer_of text_plain back marshal marshal_response no_error any_code json_core asked
      (failure 404 "no such item")
