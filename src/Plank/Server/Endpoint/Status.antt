-- ===== src/Plank/Server/Endpoint/Status.antt =====
-- The status and the headers that the client gets.
use Prim.Native.String.{String}
use mathlib.Core.List.{append-nil}
use transport_go.Prelude.{
  ◌≡◌, refl, arith, ℕ, Bool, true, false, Option, none, some, List, [], ◌∷◌, ◌++◌, ◌||◌,
  if◌then◌else◌, Option-cases, Bool-cases, inl, inr, ◌⊎◌, ap, ap₂, ◌∙◌,
}
use transport_go.Prelude.GoMap.{GoMap}
use transport_go.Service.Core.{Response}
use transport_go.Plank.Utils.{
  Value, byte_slice, text, contains_text, lower_is, convert_interface_to_byte_array,
}
use transport_go.Plank.Server.Endpoint.{
  Write, set_header, write_header, write, http_error, BridgeMessage, failed, replied, unknown,
  set_headers, write_error_response, convert_by_headers, write_payload, respond,
  internal_server_error, error_body,
}

-- The status of an answer is that of the first call that sends one; `Write` sends 200.
unfoldable pub status_of : List Write → Option ℕ
status_of [] = none
status_of (set_header k v ∷ writes) = status_of writes
status_of (write_header code ∷ writes) = some code
status_of (write bytes ∷ writes) = some 200
status_of (http_error line code ∷ writes) = some code

-- The headers that are set before the status is sent, in order. `error_headers` are those that
-- `http.Error` sets, such as its content type, which take the place of earlier ones.
unfoldable pub headers_of : GoMap String → List Write → GoMap String
headers_of error_headers (set_header k v ∷ writes) = (k, v) ∷ headers_of error_headers writes
headers_of error_headers (http_error line code ∷ writes) = error_headers
headers_of error_headers _ = []

abbrev pub is_bytes : {V : Type 0} → Option (Value V) → Bool
is_bytes (some (byte_slice b)) = true
is_bytes (some (text t)) = true
is_bytes _ = false

-- Whether the payload can be sent as the first content type among the headers: JSON takes every
-- payload, any other type only a text or bytes.
unfoldable pub is_sendable : {V : Type 0} → GoMap String → Option (Value V) → Bool
is_sendable [] body = true
is_sendable ((k, v) ∷ headers) body =
    let below = is_sendable headers body in
    if lower_is k "content-type" then contains_text "json" v || is_bytes body else below

-- The headers up to the first content type, and it.
unfoldable pub up_to_content_type : GoMap String → GoMap String
up_to_content_type [] = []
up_to_content_type ((k, v) ∷ headers) =
    let below = up_to_content_type headers in
    if lower_is k "content-type" then (k, v) ∷ [] else (k, v) ∷ below

module _ (error_headers : GoMap String) where
  set_headers-status_of :
      (headers : GoMap String) (rest : List Write)
      → (status_of (set_headers headers ++ rest) ≡ status_of rest)
        × (headers_of error_headers (set_headers headers ++ rest)
            ≡ headers ++ headers_of error_headers rest)
  unfolding status_of headers_of
  set_headers-status_of [] rest = (refl, refl)
  set_headers-status_of ((k, v) ∷ headers) rest =
      let below = set_headers-status_of headers rest in (below.0, ap (λ l. (k, v) ∷ l) below.1)

  abbrev pub answer_of : List Write → Option ℕ × GoMap String
  answer_of writes = (status_of writes, headers_of error_headers writes)

  answer_of-set_headers :
      (headers left : GoMap String) (rest : List Write) (code : ℕ)
      → status_of rest ≡ some code
      → headers_of error_headers rest ≡ left
      → answer_of (set_headers headers ++ rest) ≡ (some code, headers ++ left)
  answer_of-set_headers headers left rest code e last =
      let (status, set) = set_headers-status_of headers rest in
      ap₂ (λ s h. (s, h)) (status ∙ e) (set ∙ ap (λ l. headers ++ l) last)

module _ {V : Type 0} (marshal : Option (Value V) → Option String) where
  convert-some :
      (v : String) (body : Option (Value V))
      → (contains_text "json" v || is_bytes body) ≡ true
      → (out : String × Bool) × (convert_interface_to_byte_array marshal v body ≡ some out)
  unfolding convert_interface_to_byte_array
  convert-some v body e = elim (Option-cases (convert_interface_to_byte_array marshal v body)) [
    | inr (out, y) ↦ (out, y)
    | inl n ↦ absurd (ground (arith, e, n))
  ]

  convert-none :
      (v : String) (body : Option (Value V))
      → (contains_text "json" v || is_bytes body) ≡ false
      → convert_interface_to_byte_array marshal v body ≡ none
  unfolding convert_interface_to_byte_array
  convert-none v body e = ground (arith, e)

  -- Once the body is bytes the loop converts it without a panic.
  convert_by_headers-bytes :
      (headers : GoMap String) (body : Option (Value V))
      → is_bytes body ≡ true
      → (last : Option (Value V)) × (convert_by_headers marshal headers body
          ≡ (set_headers headers, some last))
  unfolding convert_by_headers
  convert_by_headers-bytes [] body e = (body, refl)
  convert_by_headers-bytes ((k, v) ∷ headers) body e =
      elim (Bool-cases (lower_is k "content-type")) [
        | inl y ↦
            let (out, q) = convert-some v body (ground (arith, e)) in
            let (last, r) = convert_by_headers-bytes headers (some (byte_slice out.0)) refl in
            (last, ground (arith, y, q, r))
        | inr n ↦
            let (last, r) = convert_by_headers-bytes headers body e in (last, ground (arith, n, r))
      ]

  -- What the loop writes; it panics exactly for a payload that cannot be sent.
  convert_by_headers-cases :
      (headers : GoMap String) (body : Option (Value V))
      → ((is_sendable headers body ≡ true)
          × (last : Option (Value V)) × (convert_by_headers marshal headers body
              ≡ (set_headers headers, some last)))
        ⊎ ((is_sendable headers body ≡ false)
            × (convert_by_headers marshal headers body
                ≡ (set_headers (up_to_content_type headers), none)))
  unfolding convert_by_headers is_sendable up_to_content_type
  convert_by_headers-cases [] body = inl (refl, body, refl)
  convert_by_headers-cases ((k, v) ∷ headers) body = elim (Bool-cases (lower_is k "content-type")) [
    | inr n ↦ elim (convert_by_headers-cases headers body) [
      | inl (fits, last, q) ↦ inl (ground (arith, n, fits), last, ground (arith, n, q))
      | inr (unfit, q) ↦ inr (ground (arith, n, unfit), ground (arith, n, q))
    ]
    | inl y ↦ elim (Bool-cases (contains_text "json" v || is_bytes body)) [
      | inl fits ↦
          let (out, q) = convert-some v body fits in
          let (last, r) = convert_by_headers-bytes headers (some (byte_slice out.0)) refl in
          inl (ground (arith, y, fits), last, ground (arith, y, q, r))
      | inr unfit ↦ inr (ground (arith, y, unfit), ground (arith, y, convert-none v body unfit))
    ]
  ]

module _ {V : Type 0} (error_headers : GoMap String) (range : GoMap String → GoMap String)
    (marshal : Option (Value V) → Option String)
    (marshal_response : Response (Value V) → Option String) (write_error : String → Option String)
    (accepts_code : ℕ → Bool) where
  -- The status and the headers of the answer to a message.
  unfoldable pub expected : BridgeMessage V → Option ℕ × GoMap String
  unfolding is_sendable up_to_content_type
  expected (replied response) =
      let headers = range response.headers in
      if response.error
      then (if accepts_code response.error_code
          then (some response.error_code, headers)
          else (some 500, headers ++ error_headers))
      else (if is_sendable headers response.payload
          then (some 200, headers)
          else (some 500, up_to_content_type headers ++ error_headers))
  expected _ = (some 500, error_headers)

  -- The client gets the code of an error response if it is one, 200 for another response whose
  -- payload can be sent, and 500 for anything else, with the headers of the response in the order
  -- of the range, which end with the content type if the payload cannot be sent, and behind them
  -- those of `http.Error` if it answers.
  pub respond-expected :
      (message : BridgeMessage V)
      → answer_of error_headers
          (respond range marshal marshal_response write_error accepts_code message)
        ≡ expected message
  unfolding expected status_of headers_of respond write_error_response write_payload
  respond-expected (failed line) = refl
  respond-expected unknown = refl
  respond-expected (replied response) =
      let headers = range response.headers in
      elim (Bool-cases response.error) [
        | inl y ↦ elim (Bool-cases (accepts_code response.error_code)) [
          | inl fine ↦
              let body =
                error_body range marshal marshal_response write_error accepts_code response in
              let rest = write_header response.error_code ∷ write body ∷ [] in
              let seen =
                answer_of-set_headers error_headers headers [] rest response.error_code refl refl in
              ground (arith, y, fine, seen, append-nil headers)
          | inr bad ↦
              let rest = internal_server_error ∷ [] in
              let seen =
                answer_of-set_headers error_headers headers error_headers rest 500 refl refl in
              ground (arith, y, bad, seen)
        ]
        | inr n ↦ elim (convert_by_headers-cases marshal headers response.payload) [
          | inl (fits, last, q) ↦
              let rest =
                write_payload range marshal marshal_response write_error accepts_code last in
              let seen =
                answer_of-set_headers error_headers headers [] rest 200 (ground arith)
                  (ground arith) in
              ground (arith, n, fits, q, seen, append-nil headers)
          | inr (unfit, q) ↦
              let rest = internal_server_error ∷ [] in
              let sent = up_to_content_type headers in
              let seen =
                answer_of-set_headers error_headers sent error_headers rest 500 refl refl in
              ground (arith, n, unfit, q, seen)
        ]
      ]
