-- ===== src/Bus/Listener/Requests/Answering.antt =====
-- Which messages answer a request, and what its handler does with them.
use transport_go.Prelude.{
  inl, inr, ℕ, ◌≡◌, refl, ◌∙◌, ◌&&◌, ◌||◌, not, Bool, true, false, some, List, [], ◌∷◌, arith,
  Bool-cases, if◌then◌else◌,
}
use transport_go.Prelude.GoSlice.{select}
use transport_go.Bus.Listener.{
  response_dir, error_dir, same_direction, Message, MessageHandler, Call, wrap_message_handler,
  handle, ids_match, run,
}
use transport_go.Bus.Listener.Delivery.{
  IsHandled, accepts, callback, first_call, all_calls, run_once, run_stream,
}
use transport_go.Bus.Listener.Requests.{
  RequestKind, once, once_for_destination, stream, stream_for_destination, request_message,
  make_request, fire, request_once, request_once_for_destination, request_stream,
  request_stream_for_destination,
}

abbrev pub for_one_id : RequestKind → Bool
for_one_id once_for_destination = true
for_one_id stream_for_destination = true
for_one_id _ = false

abbrev pub runs_once : RequestKind → Bool
runs_once once = true
runs_once once_for_destination = true
runs_once _ = false

-- The handler that a request is made with.
abbrev handler_of : RequestKind → ℕ → MessageHandler
handler_of kind id =
    wrap_message_handler response_dir (not (for_one_id kind)) false (some id) (runs_once kind)

module _ {M : Type 0} where
  -- The answers to a request: errors and responses, the latter with its id if it is for one.
  abbrev pub answers : RequestKind → ℕ → Message M → Bool
  answers kind id msg =
      same_direction msg.direction error_dir
      || (same_direction msg.direction response_dir
          && (not (for_one_id kind) || ids_match msg.destination_id (some id)))

  -- The calls for the answers: one and the end of the subscription, or one for each.
  unfoldable pub calls_once : ℕ → ℕ → List (Message M) → List (Call M)
  calls_once s e [] = []
  calls_once s e (msg ∷ msgs) = callback s e msg ∷ Call.unsubscribes ∷ []

  unfoldable pub calls_each : ℕ → ℕ → List (Message M) → List (Call M)
  calls_each s e [] = []
  calls_each s e (msg ∷ msgs) = callback s e msg ∷ calls_each s e msgs

  abbrev pub calls_for : RequestKind → ℕ → ℕ → List (Message M) → List (Call M)
  calls_for kind s e msgs = if runs_once kind then calls_once s e msgs else calls_each s e msgs

  first_call-select :
      (h : MessageHandler) (p : Message M → Bool) (s e : ℕ) (msgs : List (Message M))
      → ((msg : Message M) → accepts h msg ≡ p msg)
      → first_call h s e msgs ≡ calls_once s e (select p msgs)
  unfolding first_call calls_once
  first_call-select h p s e [] agree = refl
  first_call-select h p s e (msg ∷ msgs) agree =
      ground (arith, agree msg, first_call-select h p s e msgs agree)

  all_calls-select :
      (h : MessageHandler) (p : Message M → Bool) (s e : ℕ) (msgs : List (Message M))
      → ((msg : Message M) → accepts h msg ≡ p msg)
      → all_calls h s e msgs ≡ calls_each s e (select p msgs)
  unfolding all_calls calls_each
  all_calls-select h p s e [] agree = refl
  all_calls-select h p s e (msg ∷ msgs) agree =
      ground (arith, agree msg, all_calls-select h p s e msgs agree)

  accepts-answers :
      (kind : RequestKind) (id s e : ℕ) (msg : Message M)
      → accepts (handle (some s) (some e) (handler_of kind id)) msg ≡ answers kind id msg
  unfolding handle wrap_message_handler
  accepts-answers kind id s e msg = refl

  -- The handler of a request, over the messages of its channel.
  run_handled :
      (kind : RequestKind) (id s e : ℕ) (msgs : List (Message M))
      → (run msgs (handle (some s) (some e) (handler_of kind id))).1
        ≡ calls_for kind s e (select (answers kind id) msgs)
  unfolding handle wrap_message_handler
  run_handled kind id s e msgs =
      let h = handle (some s) (some e) (handler_of kind id) in
      let v : IsHandled h s e = record { success = refl; error = refl; direction = refl } in
      elim (Bool-cases (runs_once kind)) [
        | inl y ↦
            run_once msgs h s e v (ground (arith, y))
            ∙ first_call-select h (answers kind id) s e msgs (accepts-answers kind id s e)
            ∙ ground (arith, y)
        | inr n ↦
            run_stream msgs h s e v (ground (arith, n))
            ∙ all_calls-select h (answers kind id) s e msgs (accepts-answers kind id s e)
            ∙ ground (arith, n)
      ]

module _ {E M : Type 0} where
  make_request-handler_of :
      (kind : RequestKind) (payload : M) (id : ℕ)
      → make_request {E = E} kind payload id
        ≡ inr (handler_of kind id, request_message payload (some id))
  unfolding make_request request_once request_once_for_destination request_stream
      request_stream_for_destination
  make_request-handler_of once payload id = refl
  make_request-handler_of once_for_destination payload id = refl
  make_request-handler_of stream payload id = refl
  make_request-handler_of stream_for_destination payload id = refl

  -- A request of any of the four kinds, on a channel that is there: `Fire` puts its message on the
  -- channel, and over that message and any that follow, its handler, with both callbacks set, calls
  -- one of them for the first answer and then unsubscribes, or for each answer if it is a stream.
  -- Answers are errors with any id, and responses, with the id of the request if it is for a
  -- destination; the request itself is none.
  pub fire-make_request :
      (kind : RequestKind) (payload : M) (id s e : ℕ) (msgs : List (Message M))
      → (h : MessageHandler) × (msg : Message M) × (make_request {E = E} kind payload id
          ≡ inr (h, msg))
        × (fire (some msg) ≡ inr msg)
        × ((run (msg ∷ msgs) (handle (some s) (some e) h)).1
            ≡ calls_for kind s e (select (answers kind id) msgs))
  unfolding fire
  fire-make_request kind payload id s e msgs =
      let msg = request_message payload (some id) in
      (
        handler_of kind id,
        msg,
        make_request-handler_of kind payload id,
        refl,
        run_handled kind id s e (msg ∷ msgs),
      )
