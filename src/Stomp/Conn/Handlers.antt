-- ===== src/Stomp/Conn/Handlers.antt =====
-- stompserver/stomp_connection.go: the handlers of the frames behind CONNECT.
use transport_go.Prelude.{Bool, Option, none, some, List, [], ◌∷◌, ◌++◌, if◌then◌else◌, is_some}
use transport_go.Prelude.GoMap.{lookup, insert, delete}
use transport_go.Prelude.Int64.{add64}
use transport_go.Stomp.Config.{StompConfig, is_app_request_destination}
use transport_go.Stomp.Frame.{FrameLib, Frame, Command, HeaderName}
use transport_go.Stomp.Conn.{
  Subscription, StompError, subscribe_to_topic, unsubscribe_from_topic, incoming_message, Output,
  writes_receipt, raises, StompConn, Handled, close, handle_connect, connecting, connected, closed,
  not_connected, unsupported_command, invalid_subscription, invalid_frame, invalid_send_destination,
  write_failed,
}

module _ (L : FrameLib) where
  open L use {Header, contains, del}

  -- The frame without its receipt header, what is written, and the error of the write.
  unfoldable pub send_receipt_response :
      Bool → Frame Header → Frame Header × List (Output Header) × Option StompError
  send_receipt_response w f = elim (contains f.header HeaderName.receipt) [
    | none ↦ (f, [], none)
    | some r ↦ (
      record f { header = del f.header HeaderName.receipt },
      writes_receipt r ∷ [],
      if w then none else some write_failed,
    )
  ]

  unfoldable pub handle_disconnect : Bool → Frame Header → StompConn → Handled L
  handle_disconnect w f conn = elim conn.state [
    | connecting ↦ (conn, [], some not_connected)
    | _ ↦ let (conn', outs) = close L conn in (conn', (send_receipt_response w f).1 ++ outs, none)
  ]

  unfoldable pub subscribe_checked : Frame Header → StompConn → Handled L
  subscribe_checked f conn = elim (contains f.header HeaderName.id) [
    | none ↦ (conn, [], some invalid_subscription)
    | some sub_id ↦ elim (contains f.header HeaderName.destination) [
      | none ↦ (conn, [], some invalid_frame)
      | some dest ↦ elim (lookup sub_id conn.subscriptions) [
        | some _ ↦ (conn, [], none)
        | none ↦
            let sub : Subscription = record { id = sub_id; destination = dest } in
            (
              record conn { subscriptions = insert sub_id sub conn.subscriptions },
              raises (subscribe_to_topic dest sub f) ∷ [],
              none,
            )
      ]
    ]
  ]

  unfoldable pub handle_subscribe : Frame Header → StompConn → Handled L
  unfolding subscribe_checked
  handle_subscribe f conn = elim conn.state [
    | connecting ↦ (conn, [], some not_connected)
    | closed ↦ (conn, [], none)
    | connected ↦ subscribe_checked f conn
  ]

  unfoldable pub unsubscribe_checked : Bool → Frame Header → StompConn → Handled L
  unsubscribe_checked w f conn = elim (contains f.header HeaderName.id) [
    | none ↦ (conn, [], some invalid_subscription)
    | some sub_id ↦
        let receipt = (send_receipt_response w f).1 in
        elim (lookup sub_id conn.subscriptions) [
          | none ↦ (conn, receipt, none)
          | some sub ↦ (
            record conn { subscriptions = delete sub_id conn.subscriptions },
            receipt ++ raises (unsubscribe_from_topic sub.destination sub) ∷ [],
            none,
          )
        ]
  ]

  unfoldable pub handle_unsubscribe : Bool → Frame Header → StompConn → Handled L
  unfolding unsubscribe_checked
  handle_unsubscribe w f conn = elim conn.state [
    | connecting ↦ (conn, [], some not_connected)
    | closed ↦ (conn, [], none)
    | connected ↦ unsubscribe_checked w f conn
  ]

  unfoldable pub send_checked : StompConfig → Bool → Frame Header → StompConn → Handled L
  send_checked cfg w f conn =
      if is_some (contains f.header HeaderName.transaction)
      then (conn, [], some unsupported_command)
      else elim (contains f.header HeaderName.destination) [
        | none ↦ (conn, [], some invalid_frame)
        | some dest ↦
            if is_app_request_destination cfg dest
            then (let (g, receipt, err) = send_receipt_response w f in
                elim err [
                  | some e ↦ (conn, receipt, some e)
                  | none ↦ (
                    conn,
                    receipt
                        ++ raises (incoming_message dest (record g { command = Command.message }))
                          ∷ [],
                    none,
                  )
                ])
            else (conn, [], some invalid_send_destination)
      ]

  unfoldable pub handle_send : StompConfig → Bool → Frame Header → StompConn → Handled L
  unfolding send_checked
  handle_send cfg w f conn = elim conn.state [
    | connecting ↦ (conn, [], some not_connected)
    | closed ↦ (conn, [], none)
    | connected ↦ send_checked cfg w f conn
  ]

  unfoldable pub handle_incoming_frame : StompConfig → Bool → Frame Header → StompConn → Handled L
  handle_incoming_frame cfg w f conn = elim f.command [
    | Command.connect ↦ handle_connect L cfg w f conn
    | Command.stomp ↦ handle_connect L cfg w f conn
    | Command.disconnect ↦ handle_disconnect w f conn
    | Command.send ↦ handle_send cfg w f conn
    | Command.subscribe ↦ handle_subscribe f conn
    | Command.unsubscribe ↦ handle_unsubscribe w f conn
    | _ ↦ (conn, [], some unsupported_command)
  ]

  unfoldable pub populate_message_id_header : Frame Header → StompConn → Frame Header × StompConn
  populate_message_id_header f conn = elim f.command [
    | Command.message ↦
        let next = add64 conn.current_message_id 1 in
        (
          record f { message_id = some next; header = del f.header HeaderName.ack },
          record conn { current_message_id = next },
        )
    | _ ↦ (f, conn)
  ]
