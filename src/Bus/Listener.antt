-- ===== src/Bus/Listener.antt =====
-- bus/eventbus.go and bus/message_handler.go: the handlers that the bus wraps for its listeners,
-- and the messages that it sends. Ids are numbers, a nil id is `none`; a user's callbacks are named
-- by numbers. An argument `has_channel` says whether the channel manager has the channel.
pub mod Delivery
pub mod Requests
mod Examples
use transport_go.Prelude.{
  ◌⊎◌, inl, inr, ℕ, ◌+◌, ◌&&◌, Bool, true, false, not, Option, none, some, List, [], ◌∷◌, ◌++◌,
  ◌==◌, if◌then◌else◌,
}

pub data Direction : Type 0 where
  request_dir response_dir error_dir : Direction

abbrev pub same_direction : Direction → Direction → Bool
same_direction request_dir request_dir = true
same_direction response_dir response_dir = true
same_direction error_dir error_dir = true
same_direction _ _ = false

-- The body stands for the payload or the error of a message.
pub record Message (M : Type 0) : Type 0 where
  pub direction : Direction
  pub destination_id : Option ℕ
  pub body : M

-- A `messageHandler` with what its wrapper function holds. `invoke_once` is the `sync.Once` of a
-- handler that runs once: whether it is done.
pub record MessageHandler : Type 0 where
  pub direction : Direction
  pub all_traffic : Bool
  pub destination : Option ℕ
  pub ignore_id : Bool
  pub invoke_once : Option Bool
  pub run_count : ℕ
  pub success_handler : Option ℕ
  pub error_handler : Option ℕ

pub data Call (M : Type 0) : Type 0 where
  calls_success calls_error : ℕ → Message M → Call M
  unsubscribes : Call M

pub data BusError (E : Type 0) : Type 0 where
  channel_not_found nil_destination : BusError E
  given : E → BusError E

-- The id of a message is new; it is left out.
unfoldable pub wrap_message_handler : Direction → Bool → Bool → Option ℕ → Bool → MessageHandler
wrap_message_handler direction ignore_id all_traffic dest_id run_once = record {
  direction = direction;
  all_traffic = all_traffic;
  destination = dest_id;
  ignore_id = ignore_id;
  invoke_once = if run_once then some false else none;
  run_count = 0;
  success_handler = none;
  error_handler = none;
}

-- `Handle`, without the subscription to the channel (`Channel.subscribe_handler`).
unfoldable pub handle : Option ℕ → Option ℕ → MessageHandler → MessageHandler
handle success error h = record h { success_handler = success; error_handler = error }

abbrev pub ids_match : Option ℕ → Option ℕ → Bool
ids_match (some a) (some b) = a == b
ids_match _ _ = false

module _ {M : Type 0} where
  -- The common shape of `errorHandler` and `successHandler`, for the user's callback, if any.
  unfoldable pub invoke : Option ℕ → (ℕ → Call M) → MessageHandler → MessageHandler × List (Call M)
  invoke none call h = (h, [])
  invoke (some user) call h = elim h.invoke_once [
    | none ↦ (record h { run_count = h.run_count + 1 }, call user ∷ [])
    | some true ↦ (h, [])
    | some false ↦ (
      record h { run_count = h.run_count + 1; invoke_once = some true },
      call user ∷ unsubscribes ∷ [],
    )
  ]

  unfoldable pub on_success : Message M → MessageHandler → MessageHandler × List (Call M)
  unfolding invoke
  on_success msg h = invoke h.success_handler (λ user. calls_success user msg) h

  unfoldable pub on_error : Message M → MessageHandler → MessageHandler × List (Call M)
  unfolding invoke
  on_error msg h = invoke h.error_handler (λ user. calls_error user msg) h

  -- The part of the wrapper for a message of the handler's direction.
  unfoldable pub on_direction : Message M → MessageHandler → MessageHandler × List (Call M)
  unfolding on_success
  on_direction msg h =
      if same_direction msg.direction h.direction
      then if not h.ignore_id && ids_match msg.destination_id h.destination
        then on_success msg h
        else if h.ignore_id
        then on_success msg h
        else (h, [])
      else (h, [])

  -- `handlerWrapper`.
  unfoldable pub handler_wrapper : Message M → MessageHandler → MessageHandler × List (Call M)
  unfolding on_success on_error on_direction
  handler_wrapper msg h =
      if h.all_traffic
      then if same_direction msg.direction error_dir then on_error msg h else on_success msg h
      else (let (g, calls) = on_direction msg h in
          if same_direction msg.direction error_dir
          then (let (f, more) = on_error msg g in (f, calls ++ more))
          else (g, calls))

  -- The messages of a channel, one after the other.
  unfoldable pub run : List (Message M) → MessageHandler → MessageHandler × List (Call M)
  unfolding handler_wrapper
  run [] h = (h, [])
  run (msg ∷ msgs) h =
      let (g, calls) = handler_wrapper msg h in let (f, more) = run msgs g in (f, calls ++ more)

abbrev pub Listening : Type 0 → Type 0
Listening E = BusError E ⊎ MessageHandler

module _ {E : Type 0} where
  abbrev pub on_channel : Bool → MessageHandler → Listening E
  on_channel true h = inr h
  on_channel false h = inl channel_not_found

  -- A listener for a destination, which must not be nil.
  abbrev pub for_destination : Bool → Option ℕ → (Option ℕ → MessageHandler) → Listening E
  for_destination false dest_id h = inl channel_not_found
  for_destination true none h = inl nil_destination
  for_destination true (some id) h = inr (h (some id))

  unfoldable pub listen_stream : Bool → Listening E
  unfolding wrap_message_handler
  listen_stream has_channel =
      on_channel has_channel (wrap_message_handler response_dir true false none false)

  unfoldable pub listen_stream_for_destination : Bool → Option ℕ → Listening E
  unfolding wrap_message_handler
  listen_stream_for_destination has_channel dest_id =
      for_destination has_channel dest_id
        (λ id. wrap_message_handler response_dir false false id false)

  unfoldable pub listen_request_stream : Bool → Listening E
  unfolding wrap_message_handler
  listen_request_stream has_channel =
      on_channel has_channel (wrap_message_handler request_dir true false none false)

  unfoldable pub listen_request_stream_for_destination : Bool → Option ℕ → Listening E
  unfolding wrap_message_handler
  listen_request_stream_for_destination has_channel dest_id =
      for_destination has_channel dest_id
        (λ id. wrap_message_handler request_dir false false id false)

  -- `new_id` is the fresh id of `checkForSuppliedId`.
  unfoldable pub listen_request_once : Bool → ℕ → Listening E
  unfolding wrap_message_handler
  listen_request_once has_channel new_id =
      on_channel has_channel (wrap_message_handler request_dir true false (some new_id) true)

  unfoldable pub listen_request_once_for_destination : Bool → Option ℕ → Listening E
  unfolding wrap_message_handler
  listen_request_once_for_destination has_channel dest_id =
      for_destination has_channel dest_id
        (λ id. wrap_message_handler request_dir false false id true)

  unfoldable pub listen_firehose : Bool → Listening E
  unfolding wrap_message_handler
  listen_firehose has_channel =
      on_channel has_channel (wrap_message_handler request_dir true true none false)

  unfoldable pub listen_once : Bool → ℕ → Listening E
  unfolding wrap_message_handler
  listen_once has_channel new_id =
      on_channel has_channel (wrap_message_handler response_dir true false (some new_id) true)

  unfoldable pub listen_once_for_destination : Bool → Option ℕ → Listening E
  unfolding wrap_message_handler
  listen_once_for_destination has_channel dest_id =
      for_destination has_channel dest_id
        (λ id. wrap_message_handler response_dir false false id true)

-- What a send function returns and what it puts on the channel.
abbrev pub Sending : Type 0 → Type 0 → Type 0
Sending E M = Option (BusError E) × Option (Message M)

module _ {E M : Type 0} where
  abbrev pub send_to : Bool → Message M → Sending E M
  send_to true msg = (none, some msg)
  send_to false msg = (some channel_not_found, none)

  unfoldable pub send_response_message : Bool → M → Option ℕ → Sending E M
  send_response_message has_channel payload dest_id =
      send_to has_channel
        (record { direction = response_dir; destination_id = dest_id; body = payload })

  unfoldable pub send_broadcast_message : Bool → M → Sending E M
  send_broadcast_message has_channel payload =
      send_to has_channel
        (record { direction = response_dir; destination_id = none; body = payload })

  unfoldable pub send_request_message : Bool → M → Option ℕ → Sending E M
  send_request_message has_channel payload dest_id =
      send_to has_channel
        (record { direction = request_dir; destination_id = dest_id; body = payload })

  -- Without the channel it returns the error that it was to send, which may be nil.
  unfoldable pub send_error_message : Bool → Option E → (Option E → M) → Option ℕ → Sending E M
  send_error_message true err body dest_id =
      (none, some (record { direction = error_dir; destination_id = dest_id; body = body err }))
  send_error_message false none body dest_id = (none, none)
  send_error_message false (some err) body dest_id = (some (given err), none)
