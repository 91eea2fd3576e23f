-- ===== src/Plank/Server/Endpoint.antt =====
-- buildEndpointHandler and ensureResponseInByteSlice (plank/pkg/server): what is written for a
-- message. The writes are the calls on the `http.ResponseWriter`, in order. `marshal` is
-- `json.Marshal` of a payload, `marshal_response` that of a whole response; `write_error` is the text
-- of the error of `w.Write` for the bytes, if it reports one; `accepts_code` are the codes for which
-- `w.WriteHeader` does not panic. `range` gives the headers in the order in which Go ranges over
-- them, which the language leaves open.
pub mod Status
pub mod Served
mod Examples
use Prim.Native.String
use Prim.Native.String.{String}
use transport_go.Prelude.{
  ℕ, Bool, true, false, Option, none, some, List, [], ◌∷◌, ◌++◌, if◌then◌else◌,
}
use transport_go.Prelude.GoMap.{GoMap}
use transport_go.Service.Core.{Response}
use transport_go.Plank.Utils.{Value, byte_slice, lower_is, convert_interface_to_byte_array}

pub data Write : Type 0 where
  set_header : String → String → Write
  write_header : ℕ → Write
  write : String → Write
  http_error : String → ℕ → Write

-- A message of the payload channel: one with an error, one with a response, or one with a payload
-- of another type.
pub data BridgeMessage (V : Type 0) : Type 0 where
  failed : String → BridgeMessage V
  replied : Response (Value V) → BridgeMessage V
  unknown : BridgeMessage V

abbrev pub internal_server_error : Write
internal_server_error = http_error "Internal Server Error" 500

abbrev pub set_headers : GoMap String → List Write
set_headers [] = []
set_headers ((k, v) ∷ headers) = set_header k v ∷ set_headers headers

module _ {V : Type 0} (marshal : Option (Value V) → Option String) where
  -- The bytes; `json.Marshal` gives none with its error, which is dropped.
  unfoldable pub ensure_response_in_byte_slice : Option (Value V) → String
  ensure_response_in_byte_slice (some (byte_slice bytes)) = bytes
  ensure_response_in_byte_slice body = elim (marshal body) [ none ↦ "" | some bytes ↦ bytes ]

  -- The loop over the headers, in the order of the range; `none` is a panic in it, behind the writes.
  unfoldable pub convert_by_headers :
      GoMap String → Option (Value V) → List Write × Option (Option (Value V))
  unfolding lower_is convert_interface_to_byte_array
  convert_by_headers [] body = ([], some body)
  convert_by_headers ((k, v) ∷ headers) body =
      if lower_is k "content-type"
      then (elim (convert_interface_to_byte_array marshal v body) [
        | none ↦ (set_header k v ∷ [], none)
        | some (bytes, ok) ↦
            let (writes, last) = convert_by_headers headers (some (byte_slice bytes)) in
            (set_header k v ∷ writes, last)
      ])
      else (let (writes, last) = convert_by_headers headers body in (set_header k v ∷ writes, last))

module _ {V : Type 0} (range : GoMap String → GoMap String)
    (marshal : Option (Value V) → Option String)
    (marshal_response : Response (Value V) → Option String) (write_error : String → Option String)
    (accepts_code : ℕ → Bool) where
  abbrev pub error_body : Response (Value V) → String
  error_body response =
      let body : Option String = elim response.payload [
        | some value ↦ marshal (some value)
        | none ↦ marshal_response response
      ] in
      elim body [ none ↦ response.error_message | some n ↦ n ]

  unfoldable pub write_error_response : Response (Value V) → List Write
  write_error_response response =
      if accepts_code response.error_code
      then set_headers (range response.headers)
        ++ write_header response.error_code ∷ write (error_body response) ∷ []
      else set_headers (range response.headers) ++ internal_server_error ∷ []

  unfoldable pub write_payload : Option (Value V) → List Write
  unfolding ensure_response_in_byte_slice
  write_payload body =
      let bytes = ensure_response_in_byte_slice marshal body in
      elim (write_error bytes) [
        | none ↦ write bytes ∷ []
        | some text ↦ write bytes ∷ http_error text 500 ∷ []
      ]

  -- The case of a message in the `select`, with the deferred `recover`.
  unfoldable pub respond : BridgeMessage V → List Write
  unfolding write_error_response convert_by_headers write_payload
  respond (failed text) = http_error text 500 ∷ []
  respond unknown = internal_server_error ∷ []
  respond (replied response) =
      if response.error
      then write_error_response response
      else (let (writes, last) =
            convert_by_headers marshal (range response.headers) response.payload in
          elim last [
            | none ↦ writes ++ internal_server_error ∷ []
            | some body ↦ writes ++ write_payload body
          ])

-- The case of the context that is done; `text` is the text of the time-out.
abbrev pub time_out : String → List Write
time_out text =
    http_error
      (String.◌++◌ "No response received from service channel in "
        (String.◌++◌ text ", request timed out"))
      500
    ∷ []
