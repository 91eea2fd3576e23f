-- ===== src/Stomp/Server.antt =====
-- stompserver/server.go: the server loop `run`. Its state is changed only by that loop, which
-- takes one connection event or one API event at a time; connections are named by their ids,
-- and an event always has one.
-- Callbacks are named by numbers; outputs are the calls that the loop makes, in order.
pub mod Subscriptions
pub mod Absent
pub mod Delivery
mod Examples
use transport_go.Prelude.{
  ℕ, String, ◌≡◌, ◌&&◌, Bool, true, false, Option, none, some, List, [], ◌∷◌, ◌++◌, str_eq,
  if◌then◌else◌, is_some,
}
use transport_go.Prelude.GoMap.{GoMap, lookup, insert, delete}
use transport_go.Stomp.Config.{StompConfig, is_app_request_destination}
use transport_go.Stomp.Frame.{Frame}
use transport_go.Stomp.Conn.{Subscription}

pub data EventType : Type 0 where
  connection_starting connection_established connection_closed : EventType
  subscribe_to_topic unsubscribe_from_topic incoming_message : EventType

pub data ConnEvent (H : Type 0) : Type 0 where
  starting established closed : String → ConnEvent H
  subscribed : String → String → Subscription → Frame H → ConnEvent H
  unsubscribed : String → String → Subscription → ConnEvent H
  message : String → String → Frame H → ConnEvent H

pub data ApiEvent (H : Type 0) : Type 0 where
  close_server : ApiEvent H
  send_message : String → Frame H → ApiEvent H
  send_private_message : String → String → Frame H → ApiEvent H

pub data Call (H : Type 0) : Type 0 where
  calls_subscribe : ℕ → String → String → String → Frame H → Call H
  calls_unsubscribe : ℕ → String → String → String → Call H
  calls_request : ℕ → String → List ℕ → String → Call H
  calls_connection : ℕ → ConnEvent H → Call H
  sends : String → Subscription → Frame H → Call H
  closes_connection : String → Call H
  closes_listener : Call H

pub data Input (H : Type 0) : Type 0 where
  api_event : ApiEvent H → Input H
  connection_event : ConnEvent H → Input H

-- `subscriptionsMap`: destination, connection, subscription id.
abbrev pub Subscriptions : Type 0
Subscriptions = GoMap (GoMap (GoMap Subscription))

pub record StompServer : Type 0 where
  pub config : StompConfig
  pub connections_map : GoMap (Unit {0})
  pub subscriptions_map : Subscriptions
  pub connection_event_callbacks : EventType → Option ℕ
  pub subscribe_callbacks : List ℕ
  pub unsubscribe_callbacks : List ℕ
  pub application_request_callbacks : List ℕ
  pub running : Bool

unfoldable pub new_stomp_server : StompConfig → StompServer
new_stomp_server config = record {
  config = config;
  connections_map = [];
  subscriptions_map = [];
  connection_event_callbacks = λ _. none;
  subscribe_callbacks = [];
  unsubscribe_callbacks = [];
  application_request_callbacks = [];
  running = false;
}

unfoldable pub on_subscribe_event : ℕ → StompServer → StompServer
on_subscribe_event h s = record s { subscribe_callbacks = s.subscribe_callbacks ++ h ∷ [] }

unfoldable pub on_unsubscribe_event : ℕ → StompServer → StompServer
on_unsubscribe_event h s = record s { unsubscribe_callbacks = s.unsubscribe_callbacks ++ h ∷ [] }

unfoldable pub on_application_request : ℕ → StompServer → StompServer
on_application_request h s = record s {
  application_request_callbacks = s.application_request_callbacks ++ h ∷ [];
}

abbrev pub or_empty {ℓ} : {V : Type ℓ} → Option (GoMap V) → GoMap V
or_empty none = []
or_empty (some m) = m

-- The SubscribeToTopic branch: the inner maps are made where they are missing.
unfoldable pub add_subscription : String → String → Subscription → Subscriptions → Subscriptions
add_subscription conn dest sub m =
    let conns = or_empty (lookup dest m) in
    let subs = or_empty (lookup conn conns) in
    insert dest (insert conn (insert sub.id sub subs) conns) m

abbrev pub values : GoMap Subscription → List Subscription
values [] = []
values ((_, sub) ∷ subs) = sub ∷ values subs

-- The UnsubscribeFromTopic branch, and whether there was such a subscription.
unfoldable pub remove_subscription :
    String → String → Subscription → Subscriptions → Subscriptions × Bool
remove_subscription conn dest sub m = elim (lookup dest m) [
  | none ↦ (m, false)
  | some conns ↦ elim (lookup conn conns) [
    | none ↦ (m, false)
    | some subs ↦
        if is_some (lookup sub.id subs)
        then (insert dest (insert conn (delete sub.id subs) conns) m, true)
        else (m, false)
  ]
]

-- The ConnectionClosed branch of the map, and the subscriptions that went.
unfoldable pub remove_connection : String → Subscriptions → Subscriptions × List Subscription
remove_connection conn [] = ([], [])
remove_connection conn ((dest, conns) ∷ m) =
    let rest = remove_connection conn m in
    elim (lookup conn conns) [
      | none ↦ ((dest, conns) ∷ rest.0, rest.1)
      | some subs ↦ ((dest, delete conn conns) ∷ rest.0, values subs ++ rest.1)
    ]

abbrev pub same_event : EventType → EventType → Bool
same_event connection_starting connection_starting = true
same_event connection_established connection_established = true
same_event connection_closed connection_closed = true
same_event subscribe_to_topic subscribe_to_topic = true
same_event unsubscribe_from_topic unsubscribe_from_topic = true
same_event incoming_message incoming_message = true
same_event _ _ = false

unfoldable pub set_connection_event_callback : EventType → ℕ → StompServer → StompServer
set_connection_event_callback t h s = record s {
  connection_event_callbacks =
      λ u. if same_event t u then some h else s.connection_event_callbacks u;
}

-- `Start`: whether the loops are started. `Stop`: whether the close event is queued.
unfoldable pub start : StompServer → StompServer × Bool
start s = if s.running then (s, false) else (record s { running = true }, true)

unfoldable pub stop : StompServer → StompServer × Bool
stop s = if s.running then (record s { running = false }, true) else (s, false)

module _ {H : Type 0} where
  abbrev pub type_of : ConnEvent H → EventType
  type_of (starting c) = connection_starting
  type_of (established c) = connection_established
  type_of (closed c) = connection_closed
  type_of (subscribed c d s f) = subscribe_to_topic
  type_of (unsubscribed c d s) = unsubscribe_from_topic
  type_of (message c d f) = incoming_message

  unfoldable pub tell_subscribe : List ℕ → String → String → String → Frame H → List (Call H)
  tell_subscribe [] c i d f = []
  tell_subscribe (h ∷ hs) c i d f = calls_subscribe h c i d f ∷ tell_subscribe hs c i d f

  unfoldable pub tell_unsubscribe : List ℕ → String → String → String → List (Call H)
  tell_unsubscribe [] c i d = []
  tell_unsubscribe (h ∷ hs) c i d = calls_unsubscribe h c i d ∷ tell_unsubscribe hs c i d

  unfoldable pub tell_request : List ℕ → String → List ℕ → String → List (Call H)
  tell_request [] d body c = []
  tell_request (h ∷ hs) d body c = calls_request h d body c ∷ tell_request hs d body c

  unfoldable pub tell_all_unsubscribed : List ℕ → String → List Subscription → List (Call H)
  tell_all_unsubscribed hs c [] = []
  tell_all_unsubscribed hs c (sub ∷ subs) =
      tell_unsubscribe hs c sub.id sub.destination ++ tell_all_unsubscribed hs c subs

  unfoldable pub tell_event : StompServer → ConnEvent H → List (Call H)
  tell_event s e = elim (s.connection_event_callbacks (type_of e)) [
    | none ↦ []
    | some h ↦ calls_connection h e ∷ []
  ]

  -- A branch of the switch of `handleConnectionEvent`, without the callback at its end.
  unfoldable pub handle_branch : ConnEvent H → StompServer → StompServer × List (Call H)
  handle_branch (starting c) s = (record s { connections_map = insert c tt s.connections_map }, [])
  handle_branch (established c) s = (s, [])
  handle_branch (closed c) s =
      let (m, gone) = remove_connection c s.subscriptions_map in
      (
        record s { connections_map = delete c s.connections_map; subscriptions_map = m },
        tell_all_unsubscribed s.unsubscribe_callbacks c gone,
      )
  handle_branch (subscribed c dest sub f) s = (
    record s { subscriptions_map = add_subscription c dest sub s.subscriptions_map },
    tell_subscribe s.subscribe_callbacks c sub.id dest f,
  )
  handle_branch (unsubscribed c dest sub) s =
      let (m, found) = remove_subscription c dest sub s.subscriptions_map in
      (
        record s { subscriptions_map = m },
        (if found then tell_unsubscribe s.unsubscribe_callbacks c sub.id dest else []),
      )
  handle_branch (message c dest f) s = (
    s,
    (if is_app_request_destination s.config dest
        then tell_request s.application_request_callbacks dest f.body c
        else []),
  )

  -- The switch has no case for an established connection.
  unfoldable pub handle_connection_event : ConnEvent H → StompServer → StompServer × List (Call H)
  unfolding handle_branch
  handle_connection_event (established c) s = (s, [])
  handle_connection_event e s = let (t, calls) = handle_branch e s in (t, calls ++ tell_event s e)

  unfoldable pub send_to_subscriptions : String → Frame H → GoMap Subscription → List (Call H)
  send_to_subscriptions c f [] = []
  send_to_subscriptions c f ((_, sub) ∷ subs) = sends c sub f ∷ send_to_subscriptions c f subs

  unfoldable pub send_to_all : Frame H → GoMap (GoMap Subscription) → List (Call H)
  send_to_all f [] = []
  send_to_all f ((c, subs) ∷ conns) = send_to_subscriptions c f subs ++ send_to_all f conns

  unfoldable pub send_frame : String → Frame H → StompServer → List (Call H)
  unfolding send_to_all
  send_frame dest f s = send_to_all f (or_empty (lookup dest s.subscriptions_map))

  unfoldable pub send_frame_to_client : String → String → Frame H → StompServer → List (Call H)
  unfolding send_to_subscriptions
  send_frame_to_client c dest f s =
      send_to_subscriptions c f (or_empty (lookup c (or_empty (lookup dest s.subscriptions_map))))

  unfoldable pub close_connections : GoMap (Unit {0}) → List (Call H)
  close_connections [] = []
  close_connections ((c, _) ∷ cs) = closes_connection c ∷ close_connections cs

  -- The loop `run`: it returns at the close event, and the inputs after it are never read.
  unfoldable pub run : List (Input H) → StompServer → StompServer × List (Call H)
  unfolding handle_connection_event send_frame send_frame_to_client close_connections
  run [] s = (s, [])
  run (api_event close_server ∷ is) s =
      (record s { connections_map = [] }, closes_listener ∷ close_connections s.connections_map)
  run (api_event (send_message dest f) ∷ is) s =
      let (t, calls) = run is s in (t, send_frame dest f s ++ calls)
  run (api_event (send_private_message c dest f) ∷ is) s =
      let (t, calls) = run is s in (t, send_frame_to_client c dest f s ++ calls)
  run (connection_event e ∷ is) s =
      let (t, calls) = handle_connection_event e s in let (u, more) = run is t in (u, calls ++ more)
