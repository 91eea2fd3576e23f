-- ===== src/Service/Rest/Examples.antt =====
-- Two requests of a joke service, and a web that answers one URL.
use transport_go.Prelude.{ℕ, ◌≡◌, ◌⊎◌, inl, inr, true, none, some, [], ◌==◌, str_eq, if◌then◌else◌}
use transport_go.Bus.Listener.{Message, MessageHandler}
use transport_go.Bus.Listener.Delivery.{accepts}
use transport_go.Service.Core.{
  FabricCore, Request, Response, generate_json_headers, on_request, rest_service_request,
}
use transport_go.Service.Rest.{
  RestServiceRequest, RestPayload, rest_request, string_body, Web, handle_service_request,
}
use transport_go.Service.Rest.Handling.{Succeeded, rest_service_request-handle_service_request}

-- Bodies and JSON values are numbers.
abbrev web : Web ℕ ℕ
web = record {
  convert = λ v. none;
  marshal = λ v. inr v;
  bytes_of = λ s. 0;
  text_of = λ b. "";
  decode = λ t body. body;
  replace_host = λ address host. some address;
  check_request = λ method url. none;
  content_type = λ headers. "application/json";
  call = λ method url headers body.
      if str_eq url "http://jokes"
      then inr (record { status_code = 200; status = "OK"; body = inr 7 })
      else inl "no such host";
}

abbrev jokes : FabricCore
jokes = record { channel_name = "joke"; headers = generate_json_headers }

abbrev joke : RestServiceRequest ℕ ℕ
joke = record {
  uri = "http://jokes";
  method = "GET";
  body = string_body "";
  headers = [];
  response_type = none;
  api_class = "";
}

rest_service_request-handle_service_request_example :
    (own waiting : MessageHandler) × (sent later : Message (Request (RestPayload ℕ ℕ)))
    × (msg : Message (Response (RestPayload ℕ ℕ))) × (rest_service_request true jokes 1
          (λ hs. rest_request (record joke { headers = hs }))
          []
        ≡ some (own, (none, some sent)))
    × (rest_service_request true jokes 2 (λ hs. rest_request (record joke { headers = hs })) []
        ≡ some (waiting, (none, some later)))
    × (handle_service_request web true jokes (on_request sent) "" ≡ (none, some msg))
    × (accepts waiting msg ≡ (1 == 2))
    × ((msg.body.error ≡ true) ⊎ Succeeded web "" joke)
rest_service_request-handle_service_request_example =
    rest_service_request-handle_service_request web "" jokes jokes 1 2 joke joke
