-- ===== src/Service/Rest/Handling.antt =====
-- That each request to the REST service is answered, and when the answer is a success.
use Prim.Native.String
use Prim.Native.String.{String}
use transport_go.Prelude.{
  ℕ, ◌≡◌, refl, sym, ◌∙◌, ◌⊎◌, inl, inr, true, false, Option, none, some, ◌==◌, leb, arith,
  Bool-cases, Option-cases,
}
use transport_go.Prelude.GoMap.{GoMap}
use transport_go.Bus.Listener.{
  Message, MessageHandler, listen_once_for_destination, send_request_message, wrap_message_handler,
}
use transport_go.Bus.Listener.Delivery.{accepts}
use transport_go.Service.Core.{
  Request, Response, FabricCore, Answered, merge_headers_with_defaults, on_request,
  rest_service_request,
}
use transport_go.Service.Core.Answers.{
  Answer, payload, failure, failure_with_payload, answer, is_failure, answer_sent, accepts_answer,
}
use transport_go.Service.Rest.{
  ResponseType, RestServiceRequest, RestPayload, rest_request, error_info, HttpResponse, Web,
  marshal_body, get_rest_service_request, get_request_url, deserialize_response, with_content_type,
  response_type_for, failed_text, answer_response, send_body, handle_service_request,
}

sum_cases : {A B : Type 0} (x : A ⊎ B) → ((a : A) × (x ≡ inl a)) ⊎ ((b : B) × (x ≡ inr b))
sum_cases (inl a) = inl (a, refl)
sum_cases (inr b) = inr (b, refl)

module _ {B J : Type 0} (web : Web B J) (base_host : String) where
  -- The web server was asked with the method and the URL of a request, and its status is no error.
  abbrev pub Succeeded : RestServiceRequest B J → Type 0
  Succeeded r =
      (headers : GoMap String) × (body : B) × (response : HttpResponse B) × (web.call r.method
          (get_request_url web base_host r.uri) headers body
        ≡ inr response)
      × (leb 300 response.status_code ≡ false)

  -- What a handler sends is one of the ways of answering, a success only if `S` holds.
  abbrev Answers :
      FabricCore → Request (RestPayload B J) → Type 0 → Answered (RestPayload B J) → Type 0
  Answers core request S sent =
      (a : Answer (RestPayload B J)) × (sent ≡ answer true core request a)
      × (is_failure a ≡ false → S)

  module _ (core : FabricCore) (request : Request (RestPayload B J)) where
    Answers-failure :
        (S : Type 0) (code : ℕ) (text : String)
        → Answers core request S (answer true core request (failure code text))
    Answers-failure S code text = (failure code text, refl, λ e. absurd (ground (arith, e)))

    answer_response-Answers :
        (asked : Option ResponseType) (response : HttpResponse B)
        → Answers core request
            (leb 300 response.status_code ≡ false)
            (answer_response web true core request asked response)
    unfolding answer_response answer
    answer_response-Answers asked response = elim (Bool-cases (leb 300 response.status_code)) [
      | inl bad ↦ (
        failure_with_payload response.status_code (failed_text response.status)
            (some (error_info response.status_code (failed_text response.status))),
        ground (arith, bad),
        λ e. absurd (ground (arith, e)),
      )
      | inr good ↦ elim (sum_cases (deserialize_response web asked response.body)) [
        | inl (e, y) ↦ (
          failure 500 (String.◌++◌ "failed to deserialize response:" e),
          ground (arith, good, y),
          λ _. good,
        )
        | inr (result, y) ↦ (payload result, ground (arith, good, y), λ _. good)
      ]
    ]

    send_body-Answers :
        (r : RestServiceRequest B J) (body : B)
        → Answers core request (Succeeded r) (send_body web true core request base_host r body)
    unfolding send_body answer
    send_body-Answers r body =
        let url = get_request_url web base_host r.uri in
        let headers = with_content_type web r.headers in
        elim (Option-cases (web.check_request r.method url)) [
          | inr (e, y) ↦ (failure 500 e, ground (arith, y), λ f. absurd (ground (arith, f)))
          | inl n ↦ elim (sum_cases (web.call r.method url headers body)) [
            | inl (e, y) ↦ (failure 500 e, ground (arith, n, y), λ f. absurd (ground (arith, f)))
            | inr (response, y) ↦
                let (a, same, good) =
                  answer_response-Answers (response_type_for web headers r.response_type)
                    response in
                (a, ground (arith, n, y, same), λ f. (headers, body, response, y, good f))
          ]
        ]

    -- Every request is answered, in one of the ways in which a service answers.
    handle_service_request-Answers :
        (r : RestServiceRequest B J)
        → get_rest_service_request web request.payload ≡ some r
        → Answers core request
            (Succeeded r)
            (handle_service_request web true core request base_host)
    unfolding handle_service_request answer
    handle_service_request-Answers r known = elim (sum_cases (marshal_body web r.body)) [
      | inl (e, y) ↦ (
        failure 500 (String.◌++◌ "cannot marshal request body: " e),
        ground (arith, known, y),
        λ f. absurd (ground (arith, f)),
      )
      | inr (body, y) ↦
          let (a, same, good) = send_body-Answers r body in
          (a, ground (arith, known, y, same), good)
    ]

  -- A request that one service makes of the REST service, with id `i`, while another is made with
  -- id `j`, and whatever the web does: the REST service answers it, once; the listener that the
  -- second request waits with takes the answer if and only if the ids are the same; and the answer is
  -- an error, or the web server was asked with the request's method and URL and answered with a
  -- status below 300.
  pub rest_service_request-handle_service_request :
      (core rest : FabricCore) (i j : ℕ) (r other : RestServiceRequest B J)
      → (own waiting : MessageHandler) × (sent later : Message (Request (RestPayload B J)))
        × (msg : Message (Response (RestPayload B J))) × (rest_service_request true core i
              (λ hs. rest_request (record r { headers = hs }))
              r.headers
            ≡ some (own, (none, some sent)))
        × (rest_service_request true core j
              (λ hs. rest_request (record other { headers = hs }))
              other.headers
            ≡ some (waiting, (none, some later)))
        × (handle_service_request web true rest (on_request sent) base_host ≡ (none, some msg))
        × (accepts waiting msg ≡ (i == j))
        × ((msg.body.error ≡ true) ⊎ Succeeded r)
  unfolding rest_service_request listen_once_for_destination send_request_message
      wrap_message_handler on_request get_rest_service_request merge_headers_with_defaults
  rest_service_request-handle_service_request core rest i j r other =
      let merged = merge_headers_with_defaults (some r.headers) core in
      let request : Request (RestPayload B J) = record {
        id = some i;
        request = "";
        payload = rest_request (record r { headers = merged });
        broker_destination = none;
      } in
      let (a, handled, good) =
        handle_service_request-Answers rest request (record r { headers = merged }) refl in
      let (msg, e, d, n, f, _, _) = answer_sent rest request a in
      (
        _,
        _,
        _,
        _,
        msg,
        refl,
        refl,
        handled ∙ e,
        accepts_answer msg i j d n,
        elim (Bool-cases msg.body.error) [ inl bad ↦ inl bad | inr ok ↦ inr (good (sym f ∙ ok)) ],
      )
