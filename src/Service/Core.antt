-- ===== src/Service/Core.antt =====
-- service/fabric_core.go, and the request handler of service_registry.go. Ids are numbers, a nil id
-- is `none`; payloads are of any type `P`. What `SendResponseMessage` does is that of the bus.
pub mod Answers
use transport_go.Prelude.{ℕ, String, Bool, true, false, Option, none, some, List, [], ◌∷◌, inl, inr}
use transport_go.Prelude.GoMap.{GoMap}
use transport_go.Bus.Store.{insert_all}
use transport_go.Bus.Fabric.{BrokerDestination}
use transport_go.Bus.Listener.{
  Message, MessageHandler, Listening, Sending, send_response_message, send_request_message,
  listen_once_for_destination,
}

pub record Request (P : Type 0) : Type 0 where
  pub id : Option ℕ
  pub request : String
  pub payload : P
  pub broker_destination : Option BrokerDestination

pub record Response (P : Type 0) : Type 0 where
  pub id : Option ℕ
  pub destination : String
  pub payload : Option P
  pub headers : GoMap String
  pub error : Bool
  pub error_code : ℕ
  pub error_message : String
  pub broker_destination : Option BrokerDestination

pub record FabricCore : Type 0 where
  pub channel_name : String
  pub headers : GoMap String

unfoldable pub set_headers : GoMap String → FabricCore → FabricCore
set_headers headers core = record core { headers = headers }

abbrev pub generate_json_headers : GoMap String
generate_json_headers = ("Content-Type", "application/json") ∷ []

unfoldable pub set_default_json_headers : FabricCore → FabricCore
unfolding set_headers
set_default_json_headers core = set_headers generate_json_headers core

-- The two loops; nil headers are `none`.
unfoldable pub merge_headers_with_defaults : Option (GoMap String) → FabricCore → GoMap String
unfolding insert_all
merge_headers_with_defaults none core = insert_all core.headers []
merge_headers_with_defaults (some headers) core = insert_all headers (insert_all core.headers [])

-- What goes to the channel of the service, if that is there.
abbrev pub Answered : Type 0 → Type 0
Answered P = Sending (Unit {0}) (Response P)

module _ {P : Type 0} (has_channel : Bool) (core : FabricCore) (request : Request P) where
  unfoldable pub send_response : P → Answered P
  unfolding merge_headers_with_defaults send_response_message
  send_response payload =
      send_response_message has_channel
        (record {
          id = request.id;
          destination = core.channel_name;
          payload = some payload;
          headers = merge_headers_with_defaults none core;
          error = false;
          error_code = 0;
          error_message = "";
          broker_destination = request.broker_destination;
        })
        request.id

  unfoldable pub send_response_with_headers : P → Option (GoMap String) → Answered P
  unfolding merge_headers_with_defaults send_response_message
  send_response_with_headers payload headers =
      send_response_message has_channel
        (record {
          id = request.id;
          destination = core.channel_name;
          payload = some payload;
          headers = merge_headers_with_defaults headers core;
          error = false;
          error_code = 0;
          error_message = "";
          broker_destination = request.broker_destination;
        })
        request.id

  unfoldable pub send_error_response_with_payload : ℕ → String → Option P → Answered P
  unfolding merge_headers_with_defaults send_response_message
  send_error_response_with_payload code text payload =
      send_response_message has_channel
        (record {
          id = request.id;
          destination = core.channel_name;
          payload = payload;
          headers = merge_headers_with_defaults none core;
          error = true;
          error_code = code;
          error_message = text;
          broker_destination = request.broker_destination;
        })
        request.id

  unfoldable pub send_error_response : ℕ → String → Answered P
  unfolding send_error_response_with_payload
  send_error_response code text = send_error_response_with_payload code text none

  unfoldable pub send_error_response_with_headers : ℕ → String → Option (GoMap String) → Answered P
  unfolding merge_headers_with_defaults send_response_message
  send_error_response_with_headers code text headers =
      send_response_message has_channel
        (record {
          id = request.id;
          destination = core.channel_name;
          payload = none;
          headers = merge_headers_with_defaults headers core;
          error = true;
          error_code = code;
          error_message = text;
          broker_destination = request.broker_destination;
        })
        request.id

  unfoldable pub send_error_response_with_headers_and_payload :
      ℕ → String → Option P → Option (GoMap String) → Answered P
  unfolding merge_headers_with_defaults send_response_message
  send_error_response_with_headers_and_payload code text payload headers =
      send_response_message has_channel
        (record {
          id = request.id;
          destination = core.channel_name;
          payload = payload;
          headers = merge_headers_with_defaults headers core;
          error = true;
          error_code = code;
          error_message = text;
          broker_destination = request.broker_destination;
        })
        request.id

  -- `text` is the message that the code formats.
  unfoldable pub handle_unknown_request : String → Answered P
  unfolding send_error_response
  handle_unknown_request text = send_error_response 403 text

-- The request handler of a service: the message's destination id becomes that of the request.
unfoldable pub on_request : {P : Type 0} → Message (Request P) → Request P
on_request msg = elim msg.destination_id [
  | none ↦ msg.body
  | some id ↦ record msg.body { id = some id }
]

-- `RestServiceRequest`: the merged headers, the listener for the answer (`none` is the panic of a
-- nil one) and what is sent. `new_id` is the id that it makes.
unfoldable pub rest_service_request :
    {P : Type 0}
    → Bool
    → FabricCore
    → ℕ
    → (GoMap String → P)
    → GoMap String
    → Option (MessageHandler × Sending (Unit {0}) (Request P))
unfolding insert_all listen_once_for_destination send_request_message
rest_service_request {P = P} has_channel core new_id with_headers headers =
    let request : Request P = record {
      id = some new_id;
      request = "";
      payload = with_headers (insert_all headers (insert_all core.headers []));
      broker_destination = none;
    } in
    elim (listen_once_for_destination {E = Unit {0}} has_channel (some new_id)) [
      | inl e ↦ none
      | inr mh ↦ some (mh, send_request_message has_channel request (some new_id))
    ]

-- Which of the two functions of `RestServiceRequest` gets a response.
abbrev pub is_for_error_handler : {P : Type 0} → Response P → Bool
is_for_error_handler response = response.error
