-- ===== src/Plank/Server/Endpoint/Served.antt =====
-- From the answer of a service (service/fabric_core.go) to the answer of its endpoint.
use Prim.Native.String.{String}
use transport_go.Prelude.{◌≡◌, refl, ℕ, Bool, true, Option, none, some, [], ◌++◌, if◌then◌else◌}
use transport_go.Prelude.GoMap.{GoMap}
use transport_go.Bus.Store.{insert_all}
use transport_go.Bus.Listener.{Message, send_response_message}
use transport_go.Service.Core.{Request, Response, FabricCore, merge_headers_with_defaults}
use transport_go.Service.Core.Answers.{
  Answer, payload, payload_with_headers, failure, failure_with_payload, failure_with_headers,
  failure_with_both, unknown_request, answer, is_failure, given_headers,
}
use transport_go.Plank.Utils.{Value}
use transport_go.Plank.Server.Endpoint.{replied, respond}
use transport_go.Plank.Server.Endpoint.Status.{
  answer_of, expected, is_sendable, up_to_content_type, respond-expected,
}

module _ {P : Type 0} where
  -- The code of a failure, and the payload of another answer.
  abbrev pub code_of : Answer P → ℕ
  code_of (failure code line) = code
  code_of (failure_with_payload code line p) = code
  code_of (failure_with_headers code line headers) = code
  code_of (failure_with_both code line p headers) = code
  code_of (unknown_request line) = 403
  code_of _ = 0

  abbrev pub payload_of : Answer P → Option P
  payload_of (payload p) = some p
  payload_of (payload_with_headers p headers) = some p
  payload_of _ = none

  -- The headers of the service, under those given with the answer.
  abbrev pub headers_for : FabricCore → Answer P → GoMap String
  headers_for core a = insert_all (given_headers a) (insert_all core.headers [])

module _ {V : Type 0} (error_headers : GoMap String) (range : GoMap String → GoMap String)
    (marshal : Option (Value V) → Option String)
    (marshal_response : Response (Value V) → Option String) (write_error : String → Option String)
    (accepts_code : ℕ → Bool) where
  served :
      (response : Response (Value V))
      → answer_of error_headers
          (respond range marshal marshal_response write_error accepts_code (replied response))
        ≡ expected error_headers range marshal marshal_response write_error accepts_code
            (replied response)
  served response =
      respond-expected error_headers range marshal marshal_response write_error accepts_code
        (replied response)

  -- Whichever way a service answers the request of a bridge, it sends one message, and for that the
  -- endpoint gives the HTTP client the code of a failure, if it is one, and 200 for a payload that
  -- its content type takes, with the headers of the service and of the answer in the order in which
  -- the loop ranges over them, whichever that is. It gives 500 for any other code, with those headers
  -- and then the ones of `http.Error`, and for any other payload, with those up to the first content
  -- type in that order and then the ones of `http.Error`.
  pub answer-answer_of :
      (core : FabricCore) (request : Request (Value V)) (a : Answer (Value V))
      → (msg : Message (Response (Value V))) × (answer true core request a ≡ (none, some msg))
        × (answer_of error_headers
              (respond range marshal marshal_response write_error accepts_code (replied msg.body))
            ≡ (if is_failure a
                then (if accepts_code (code_of a)
                    then (some (code_of a), range (headers_for core a))
                    else (some 500, range (headers_for core a) ++ error_headers))
                else (if is_sendable (range (headers_for core a)) (payload_of a)
                    then (some 200, range (headers_for core a))
                    else (
                      some 500,
                      up_to_content_type (range (headers_for core a)) ++ error_headers,
                    ))))
  unfolding answer send_response_message merge_headers_with_defaults insert_all expected
  answer-answer_of core request (payload p) = (_, refl, served _)
  answer-answer_of core request (payload_with_headers p none) = (_, refl, served _)
  answer-answer_of core request (payload_with_headers p (some hs)) = (_, refl, served _)
  answer-answer_of core request (failure code line) = (_, refl, served _)
  answer-answer_of core request (failure_with_payload code line p) = (_, refl, served _)
  answer-answer_of core request (failure_with_headers code line none) = (_, refl, served _)
  answer-answer_of core request (failure_with_headers code line (some hs)) = (_, refl, served _)
  answer-answer_of core request (failure_with_both code line p none) = (_, refl, served _)
  answer-answer_of core request (failure_with_both code line p (some hs)) = (_, refl, served _)
  answer-answer_of core request (unknown_request line) = (_, refl, served _)
