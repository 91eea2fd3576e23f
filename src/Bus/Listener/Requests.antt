-- ===== src/Bus/Listener/Requests.antt =====
-- bus/eventbus.go and bus/message_handler.go: requests, their handlers, `Fire` and `Close`.
pub mod Answering
mod Examples
use transport_go.Prelude.{
  ◌⊎◌, inl, inr, ℕ, String, ◌≡◌, refl, ◌&&◌, ◌||◌, Bool, true, false, Option, none, some, List, [],
  ◌∷◌, arith, ◌==◌, if◌then◌else◌, ap, ◌∙◌,
}
use transport_go.Bus.ChannelManager.{Channels, ChannelEvent, unsubscribe_channel_handler}
use transport_go.Bus.Listener.{
  Direction, request_dir, response_dir, error_dir, same_direction, Message, MessageHandler, Call,
  BusError, channel_not_found, nil_destination, wrap_message_handler, handle, ids_match, run,
}
use transport_go.Bus.Listener.Delivery.{
  IsHandled, accepts, callback, first_call, all_calls, run_once, run_stream,
}

-- A handler with its request message.
abbrev pub Requesting : Type 0 → Type 0 → Type 0
Requesting E M = BusError E ⊎ (MessageHandler × Message M)

abbrev pub request_message : {M : Type 0} → M → Option ℕ → Message M
request_message payload dest_id = record {
  direction = request_dir;
  destination_id = dest_id;
  body = payload;
}

module _ {E M : Type 0} where
  -- `new_id` is the fresh id of `checkForSuppliedId`.
  unfoldable pub request_once : Bool → M → ℕ → Requesting E M
  unfolding wrap_message_handler
  request_once false payload new_id = inl channel_not_found
  request_once true payload new_id = inr (
    wrap_message_handler response_dir true false (some new_id) true,
    request_message payload (some new_id),
  )

  unfoldable pub request_once_for_destination : Bool → M → Option ℕ → Requesting E M
  unfolding wrap_message_handler
  request_once_for_destination false payload dest_id = inl channel_not_found
  request_once_for_destination true payload none = inl nil_destination
  request_once_for_destination true payload (some id) = inr (
    wrap_message_handler response_dir false false (some id) true,
    request_message payload (some id),
  )

  unfoldable pub request_stream : Bool → M → ℕ → Requesting E M
  unfolding wrap_message_handler
  request_stream false payload new_id = inl channel_not_found
  request_stream true payload new_id = inr (
    wrap_message_handler response_dir true false (some new_id) false,
    request_message payload (some new_id),
  )

  unfoldable pub request_stream_for_destination : Bool → M → Option ℕ → Requesting E M
  unfolding wrap_message_handler
  request_stream_for_destination false payload dest_id = inl channel_not_found
  request_stream_for_destination true payload none = inl nil_destination
  request_stream_for_destination true payload (some id) = inr (
    wrap_message_handler response_dir false false (some id) false,
    request_message payload (some id),
  )

-- What `Fire` puts on the channel; without a request message it returns an error.
pub data FireError : Type 0 where
  nothing_to_fire : FireError

unfoldable pub fire : {M : Type 0} → Option (Message M) → FireError ⊎ Message M
fire none = inl nothing_to_fire
fire (some msg) = inr msg

-- `Close`, for the id of the subscription, which is nil before `Handle`.
unfoldable pub close : String → Option ℕ → Channels → Channels × List ChannelEvent
close name none channels = (channels, [])
close name (some id) channels = (unsubscribe_channel_handler name id channels).0

-- How a request is made.
pub data RequestKind : Type 0 where
  once once_for_destination stream stream_for_destination : RequestKind

module _ {E M : Type 0} where
  unfoldable pub make_request : RequestKind → M → ℕ → Requesting E M
  unfolding request_once request_once_for_destination request_stream request_stream_for_destination
  make_request once payload id = request_once true payload id
  make_request once_for_destination payload id = request_once_for_destination true payload (some id)
  make_request stream payload id = request_stream true payload id
  make_request stream_for_destination payload id =
      request_stream_for_destination true payload (some id)
