-- ===== src/Stomp/Conn/Safety.antt =====
-- What a client can bring a connection to do.
use transport_go.Prelude.{◌≡◌, ◌≢◌, Bool, true, List, arith}
use transport_go.Prelude.GoSlice.{All, All-append}
use transport_go.Stomp.Config.{StompConfig, is_app_request_destination}
use transport_go.Stomp.Frame.{FrameLib, Command, v10}
use transport_go.Stomp.Conn.Loop.{Keeps, run-keeps}
use transport_go.Stomp.Conn.{
  StompConn, Output, writes_connected, raises, subscribe_to_topic, unsubscribe_from_topic,
  incoming_message, close, handle_connect, accept_connect,
}
use transport_go.Stomp.Conn.Handlers.{
  handle_disconnect, handle_send, handle_subscribe, handle_unsubscribe, send_receipt_response,
  populate_message_id_header,
}
use transport_go.Stomp.Conn.Running.{Input, run}

module _ {H : Type 0} (cfg : StompConfig) where
  -- A message from a client is for an application destination, a subscribe event names the
  -- destination of its subscription, so does an unsubscribe event, and no connection is made
  -- with version 1.0.
  abbrev pub IsAllowed : Output H → Type 0
  IsAllowed (raises (incoming_message dest f)) =
      (is_app_request_destination cfg dest ≡ true) × (f.command ≡ Command.message)
  IsAllowed (raises (subscribe_to_topic dest sub f)) = sub.destination ≡ dest
  IsAllowed (raises (unsubscribe_from_topic dest sub)) = sub.destination ≡ dest
  IsAllowed (writes_connected v cy cx) = v ≢ v10
  IsAllowed _ = Unit

module _ (L : FrameLib) (cfg : StompConfig) where
  IsAllowed-Keeps : Keeps L cfg (λ a b os. All (IsAllowed cfg) os)
  unfolding handle_connect accept_connect handle_disconnect handle_send handle_subscribe
      handle_unsubscribe send_receipt_response populate_message_id_header close
  IsAllowed-Keeps = record {
    nil = λ c. tt;
    trans = λ a b c os ps h k. All-append (IsAllowed cfg) os ps h k;
    on_connect = λ w f c o. ground arith;
    on_disconnect = λ w f c o. ground arith;
    on_send = λ w f c o. ground arith;
    on_subscribe = λ f c o. ground arith;
    on_unsubscribe = λ w f c o. ground arith;
    on_error = λ e c. (tt, tt);
    on_heart_beat = λ c. (tt, tt);
    on_frame = λ f c. (tt, tt);
    on_close = λ c. ground arith;
  }

  -- In every history, whatever the client sends: each message handed on is for an application
  -- destination of the configuration, each subscribe and unsubscribe event carries the
  -- destination of its subscription, and no connection is accepted with version 1.0.
  pub run-IsAllowed :
      (is : List (Bool × Input L)) (c : StompConn) → All (IsAllowed cfg) (run L cfg is c).1
  run-IsAllowed is c = run-keeps L cfg _ IsAllowed-Keeps is c
