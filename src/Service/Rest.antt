-- ===== src/Service/Rest.antt =====
-- service/rest_service.go: the service behind `RestServiceRequest`. What it calls of `net/http`,
-- `net/url`, `encoding/json` and of package `model` (`ConvertValueToType`, by reflection) is the
-- record `Web`. Byte slices are of any type `B`, values that JSON encodes of any type `J`.
pub mod Handling
mod Examples
use Prim.Native.String
use Prim.Native.String.{String}
use transport_go.Prelude.{
  ℕ, ◌⊎◌, inl, inr, Bool, true, false, Option, none, some, List, [], ◌∷◌, ◌||◌, leb, str_eq,
  if◌then◌else◌,
}
use transport_go.Prelude.GoMap.{GoMap}
use transport_go.Stomp.Text.{has_prefix}
use transport_go.Service.Core.{
  Request, FabricCore, Answered, send_response, send_error_response,
  send_error_response_with_payload,
}

-- `reflect.Type` of a response: string, []byte, or another, which JSON is decoded into.
pub data ResponseType : Type 0 where
  string_type bytes_type : ResponseType
  json_type : ℕ → ResponseType

pub data RestBody (B J : Type 0) : Type 0 where
  string_body : String → RestBody B J
  bytes_body : B → RestBody B J
  json_body : J → RestBody B J

pub record RestServiceRequest (B J : Type 0) : Type 0 where
  pub uri : String
  pub method : String
  pub body : RestBody B J
  pub headers : GoMap String
  pub response_type : Option ResponseType
  pub api_class : String

-- The payloads of the service's requests and responses.
pub data RestPayload (B J : Type 0) : Type 0 where
  rest_request : RestServiceRequest B J → RestPayload B J
  map_payload : J → RestPayload B J
  other_payload : RestPayload B J
  string_result : String → RestPayload B J
  bytes_result : B → RestPayload B J
  json_result : J → RestPayload B J
  error_info : ℕ → String → RestPayload B J

-- A response, with its body as it is read (`inl` is the text of a read error).
pub record HttpResponse (B : Type 0) : Type 0 where
  pub status_code : ℕ
  pub status : String
  pub body : String ⊎ B

-- The packages' functions; `inl` is the text of an error.
pub record Web (B J : Type 0) : Type 0 where
  pub convert : J → Option (RestServiceRequest B J)
  pub marshal : J → String ⊎ B
  pub bytes_of : String → B
  pub text_of : B → String
  -- the body of a response read as JSON, into the type given
  pub decode : Option ℕ → String ⊎ B → String ⊎ J
  -- url.Parse, and the text with another host; `none` is an error
  pub replace_host : String → String → Option String
  -- http.NewRequest with method and URL
  pub check_request : String → String → Option String
  -- Header.Get("Content-Type") once the headers are added
  pub content_type : GoMap String → String
  pub call : String → String → GoMap String → B → String ⊎ HttpResponse B

unfoldable pub text_contains : String → String → Bool
text_contains String.[] part = has_prefix String.[] part
text_contains (String.◌∷◌ c s) part = has_prefix (String.◌∷◌ c s) part || text_contains s part

abbrev pub failed_text : String → String
failed_text status = String.◌++◌ "rest-service error, unable to complete request: " status

module _ {B J : Type 0} (web : Web B J) where
  unfoldable pub marshal_body : RestBody B J → String ⊎ B
  marshal_body (string_body s) = inr (web.bytes_of s)
  marshal_body (bytes_body b) = inr b
  marshal_body (json_body v) = web.marshal v

  unfoldable pub get_rest_service_request : RestPayload B J → Option (RestServiceRequest B J)
  get_rest_service_request (rest_request r) = some r
  get_rest_service_request (map_payload v) = elim (web.convert v) [
    | none ↦ none
    | some r ↦ some (
        if str_eq r.api_class "java.lang.String"
        then record r { response_type = some string_type }
        else r)
  ]
  get_rest_service_request _ = none

  unfoldable pub get_request_url : String → String → String
  get_request_url base_host address =
      if str_eq base_host ""
      then address
      else elim (web.replace_host address base_host) [ none ↦ address | some url ↦ url ]

  abbrev pub as_result :
      {A : Type 0} → (A → RestPayload B J) → String ⊎ A → String ⊎ RestPayload B J
  as_result wrap (inl e) = inl e
  as_result wrap (inr v) = inr (wrap v)

  unfoldable pub deserialize_response : Option ResponseType → String ⊎ B → String ⊎ RestPayload B J
  deserialize_response (some string_type) body = as_result (λ b. string_result (web.text_of b)) body
  deserialize_response (some bytes_type) body = as_result bytes_result body
  deserialize_response (some (json_type t)) body = as_result json_result (web.decode (some t) body)
  deserialize_response none body = as_result json_result (web.decode none body)

  -- The headers of the request as sent: a content type is added if there is none.
  abbrev pub with_content_type : GoMap String → GoMap String
  with_content_type headers =
      if str_eq (web.content_type headers) ""
      then ("Content-Type", "application/merge-patch+json") ∷ headers
      else headers

  -- A request whose content is not JSON asks for bytes.
  unfoldable pub response_type_for : GoMap String → Option ResponseType → Option ResponseType
  unfolding text_contains
  response_type_for headers asked =
      if text_contains (web.content_type headers) "json" then asked else some bytes_type

  module _ (has_channel : Bool) (core : FabricCore) (request : Request (RestPayload B J)) where
    -- What comes behind a response of the web server.
    unfoldable pub answer_response :
        Option ResponseType → HttpResponse B → Answered (RestPayload B J)
    unfolding deserialize_response send_response send_error_response
        send_error_response_with_payload
    answer_response asked response =
        if leb 300 response.status_code
        then send_error_response_with_payload has_channel core request response.status_code
            (failed_text response.status)
            (some (error_info response.status_code (failed_text response.status)))
        else elim (deserialize_response asked response.body) [
          | inl e ↦
              send_error_response has_channel core request 500
                (String.◌++◌ "failed to deserialize response:" e)
          | inr result ↦ send_response has_channel core request result
        ]

    -- What comes behind a body that can be sent.
    unfoldable pub send_body : String → RestServiceRequest B J → B → Answered (RestPayload B J)
    unfolding answer_response get_request_url response_type_for send_error_response
    send_body base_host r body =
        let url = get_request_url base_host r.uri in
        let headers = with_content_type r.headers in
        elim (web.check_request r.method url) [
          | some e ↦ send_error_response has_channel core request 500 e
          | none ↦ elim (web.call r.method url headers body) [
            | inl e ↦ send_error_response has_channel core request 500 e
            | inr response ↦ answer_response (response_type_for headers r.response_type) response
          ]
        ]

    unfoldable pub handle_service_request : String → Answered (RestPayload B J)
    unfolding get_rest_service_request marshal_body send_body send_error_response
    handle_service_request base_host = elim (get_rest_service_request request.payload) [
      | none ↦ send_error_response has_channel core request 500 "invalid RestServiceRequest payload"
      | some r ↦ elim (marshal_body r.body) [
        | inl e ↦
            send_error_response has_channel core request 500
              (String.◌++◌ "cannot marshal request body: " e)
        | inr body ↦ send_body base_host r body
      ]
    ]
