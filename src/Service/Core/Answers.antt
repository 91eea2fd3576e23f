-- ===== src/Service/Core/Answers.antt =====
-- What a service answers with, whose listener takes it, and the headers that it carries.
use transport_go.Prelude.{
  ℕ, String, ◌≡◌, refl, Bool, true, false, Option, none, some, [], ◌∷◌, ◌==◌, arith, eq_iff, ap,
}
use transport_go.Prelude.GoMap.{GoMap, lookup, insert, lookup-insert, HasOneEach}
use transport_go.Bus.Store.{insert_all}
use transport_go.Bus.Listener.{Direction, Message, wrap_message_handler, send_response_message}
use transport_go.Bus.Listener.Delivery.{accepts}
use transport_go.Service.Core.{
  Request, Response, FabricCore, Answered, merge_headers_with_defaults, send_response,
  send_response_with_headers, send_error_response, send_error_response_with_payload,
  send_error_response_with_headers, send_error_response_with_headers_and_payload,
  handle_unknown_request,
}

-- The ways in which a service answers.
pub data Answer (P : Type 0) : Type 0 where
  payload : P → Answer P
  payload_with_headers : P → Option (GoMap String) → Answer P
  failure : ℕ → String → Answer P
  failure_with_payload : ℕ → String → Option P → Answer P
  failure_with_headers : ℕ → String → Option (GoMap String) → Answer P
  failure_with_both : ℕ → String → Option P → Option (GoMap String) → Answer P
  unknown_request : String → Answer P

module _ {P : Type 0} where
  unfoldable pub answer : Bool → FabricCore → Request P → Answer P → Answered P
  unfolding send_response send_response_with_headers send_error_response
      send_error_response_with_payload send_error_response_with_headers
      send_error_response_with_headers_and_payload handle_unknown_request
  answer has_channel core request (payload p) = send_response has_channel core request p
  answer has_channel core request (payload_with_headers p headers) =
      send_response_with_headers has_channel core request p headers
  answer has_channel core request (failure code text) =
      send_error_response has_channel core request code text
  answer has_channel core request (failure_with_payload code text p) =
      send_error_response_with_payload has_channel core request code text p
  answer has_channel core request (failure_with_headers code text headers) =
      send_error_response_with_headers has_channel core request code text headers
  answer has_channel core request (failure_with_both code text p headers) =
      send_error_response_with_headers_and_payload has_channel core request code text p headers
  answer has_channel core request (unknown_request text) =
      handle_unknown_request has_channel core request text

  abbrev pub is_failure : Answer P → Bool
  is_failure (payload p) = false
  is_failure (payload_with_headers p headers) = false
  is_failure _ = true

  -- The headers given with an answer.
  abbrev pub given_headers : Answer P → GoMap String
  given_headers (payload_with_headers p (some headers)) = headers
  given_headers (failure_with_headers code text (some headers)) = headers
  given_headers (failure_with_both code text p (some headers)) = headers
  given_headers _ = []

  -- What an answer sends.
  pub answer_sent :
      (core : FabricCore) (request : Request P) (a : Answer P)
      → (msg : Message (Response P)) × (answer true core request a ≡ (none, some msg))
        × (msg.direction ≡ Direction.response_dir)
        × (msg.destination_id ≡ request.id)
        × (msg.body.error ≡ is_failure a)
        × (msg.body.broker_destination ≡ request.broker_destination)
        × (msg.body.headers ≡ insert_all (given_headers a) (insert_all core.headers []))
  unfolding answer send_response_message merge_headers_with_defaults insert_all
  answer_sent core request (payload p) = (_, refl, refl, refl, refl, refl, refl)
  answer_sent core request (payload_with_headers p none) = (_, refl, refl, refl, refl, refl, refl)
  answer_sent core request (payload_with_headers p (some hs)) =
      (_, refl, refl, refl, refl, refl, refl)
  answer_sent core request (failure code text) = (_, refl, refl, refl, refl, refl, refl)
  answer_sent core request (failure_with_payload code text p) =
      (_, refl, refl, refl, refl, refl, refl)
  answer_sent core request (failure_with_headers code text none) =
      (_, refl, refl, refl, refl, refl, refl)
  answer_sent core request (failure_with_headers code text (some hs)) =
      (_, refl, refl, refl, refl, refl, refl)
  answer_sent core request (failure_with_both code text p none) =
      (_, refl, refl, refl, refl, refl, refl)
  answer_sent core request (failure_with_both code text p (some hs)) =
      (_, refl, refl, refl, refl, refl, refl)
  answer_sent core request (unknown_request text) = (_, refl, refl, refl, refl, refl, refl)

insert_all-lookup :
    {V : Type 0} (key : String) (items acc : GoMap V)
    → HasOneEach items
    → lookup key (insert_all items acc)
      ≡ elim (lookup key items) [ none ↦ lookup key acc | some v ↦ some v ]
unfolding insert_all lookup
insert_all-lookup key [] acc u = refl
insert_all-lookup key ((k, v) ∷ items) acc u = ground (
  arith,
  u.0,
  eq_iff k key,
  lookup-insert k key v acc,
  insert_all-lookup key items (insert k v acc) u.1,
)

pub accepts_answer :
    {M : Type 0} (msg : Message M) (i j : ℕ)
    → msg.direction ≡ Direction.response_dir
    → msg.destination_id ≡ some i
    → accepts (wrap_message_handler Direction.response_dir false false (some j) true) msg ≡ (i == j)
unfolding wrap_message_handler
accepts_answer msg i j d n = ground (arith, d, n)

module _ {P : Type 0} where
  -- Each way of answering sends one message on the service's channel. It carries the broker
  -- destination of its request and is an error as the way says; under each name it has the header
  -- given with the answer, if there is one, and else the service's own.
  answer-headers :
      (core : FabricCore) (request : Request P) (a : Answer P) (key : String)
      → HasOneEach core.headers
      → HasOneEach (given_headers a)
      → (msg : Message (Response P)) × (answer true core request a ≡ (none, some msg))
        × (msg.body.error ≡ is_failure a)
        × (msg.body.broker_destination ≡ request.broker_destination)
        × (lookup key msg.body.headers ≡ elim (lookup key (given_headers a)) [
          | none ↦ lookup key core.headers
          | some v ↦ some v
        ])
  unfolding lookup
  answer-headers core request a key u g =
      let (msg, e, _, _, f, b, h) = answer_sent core request a in
      (
        msg,
        e,
        f,
        b,
        ground (
          arith,
          ap (λ hs. lookup key hs) h,
          insert_all-lookup key (given_headers a) (insert_all core.headers []) g,
          insert_all-lookup key core.headers [] u,
        ),
      )
