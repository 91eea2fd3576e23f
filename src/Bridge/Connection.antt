-- ===== src/Bridge/Connection.antt =====
-- bridge/connection.go, subscription.go, bridge_client.go and bridge_client_subscription.go: a
-- broker connection over a WebSocket. Ids are numbers, bodies are of any type `B`. A subscription
-- and the client's own object for it have one id and one channel `C`; they stand once, in the
-- client's table. `subscriptions` are the destinations that the connection keeps one for. A send on
-- an open channel is received. Locks make each method one step. The connection is not disconnected,
-- and the frames that the client sends are left out.
pub mod Status
pub mod Table
pub mod Sequence
pub mod Delivery
mod Examples
use transport_go.Prelude.{
  ℕ, String, ◌≡◌, Bool, true, false, not, Option, none, some, List, [], ◌∷◌, ◌++◌, str_eq,
  if◌then◌else◌,
}
use transport_go.Prelude.GoMap.{GoMap, lookup, insert}

-- A `BridgeClientSub`; `closed` says whether its channel `C` is closed. Its `E` is never made.
pub record BridgeClientSub : Type 0 where
  pub id : ℕ
  pub destination : String
  pub subscribed : Bool
  pub closed : Bool

-- `awaited` says that `Connect` waits for `ConnectedChan`, `blocked` that the goroutine which
-- handles frames is blocked for good.
pub record BridgeClient : Type 0 where
  pub connected : Bool
  pub stomp_connected : Bool
  pub awaited : Bool
  pub blocked : Bool
  pub client_subscriptions : GoMap BridgeClientSub

pub data Frame (B : Type 0) : Type 0 where
  connected_frame other_frame : Frame B
  message_frame error_frame : String → B → Frame B

-- A response on the channel of a subscription: its id, the destination and the body.
pub record Delivered (B : Type 0) : Type 0 where
  pub id : ℕ
  pub destination : String
  pub body : B

unfoldable pub new_bridge_ws_client : BridgeClient
new_bridge_ws_client = record {
  connected = false;
  stomp_connected = false;
  awaited = false;
  blocked = false;
  client_subscriptions = [];
}

-- The new subscription has the id `id`.
unfoldable pub client_subscribe : String → ℕ → BridgeClient → BridgeClient
client_subscribe destination id ws = record ws {
  client_subscriptions =
      insert destination
        (record { id = id; destination = destination; subscribed = true; closed = false })
        ws.client_subscriptions;
}

-- The loop for an ERROR frame: the send on the nil channel `E` blocks for good.
unfoldable pub blocks_on_error : String → GoMap BridgeClientSub → Bool
blocks_on_error destination [] = false
blocks_on_error destination ((key, sub) ∷ subs) =
    let rest = blocks_on_error destination subs in
    if str_eq sub.destination destination then true else rest

module _ {B : Type 0} where
  -- `sendResponseSafe`: a send on a closed channel panics, and that is recovered.
  abbrev pub send_response_safe : BridgeClientSub → B → List (Delivered B)
  send_response_safe sub body =
      if sub.closed
      then []
      else record { id = sub.id; destination = sub.destination; body = body } ∷ []

  -- The loop for a MESSAGE frame.
  unfoldable pub deliver : String → B → GoMap BridgeClientSub → List (Delivered B)
  deliver destination body [] = []
  deliver destination body ((key, sub) ∷ subs) =
      let rest = deliver destination body subs in
      if str_eq sub.destination destination
      then if sub.subscribed then send_response_safe sub body ++ rest else rest
      else rest

  -- One round of `handleIncomingSTOMPFrames`.
  unfoldable pub handle_frame : Frame B → BridgeClient → BridgeClient × List (Delivered B)
  unfolding deliver blocks_on_error
  handle_frame connected_frame ws = (
    record ws {
      connected = true;
      stomp_connected = true;
      awaited = false;
      blocked = not ws.awaited;
    },
    [],
  )
  handle_frame (message_frame destination body) ws =
      (ws, deliver destination body ws.client_subscriptions)
  handle_frame (error_frame destination body) ws =
      (record ws { blocked = blocks_on_error destination ws.client_subscriptions }, [])
  handle_frame other_frame ws = (ws, [])

  unfoldable pub receive : Frame B → BridgeClient → BridgeClient × List (Delivered B)
  unfolding handle_frame
  receive f ws = if ws.blocked then (ws, []) else handle_frame f ws

-- A `connection` with `useWs`, whose `wsConn` is set.
pub record Connection : Type 0 where
  pub ws_conn : BridgeClient
  pub subscriptions : GoMap ℕ

-- The result is the id of the subscription.
unfoldable pub subscribe_ws : String → ℕ → Connection → Connection × ℕ
unfolding client_subscribe
subscribe_ws destination id c = (
  record {
    ws_conn = client_subscribe destination id c.ws_conn;
    subscriptions = insert destination id c.subscriptions;
  },
  id,
)

unfoldable pub subscribe : String → ℕ → Connection → Connection × ℕ
unfolding subscribe_ws
subscribe destination id c = elim (lookup destination c.subscriptions) [
  | some old ↦ (c, old)
  | none ↦ subscribe_ws destination id c
]

-- `Unsubscribe` of the subscription for a destination: the client's object is no longer subscribed,
-- and the channel is closed, which is a panic (`none`) if it was before.
unfoldable pub unsubscribe : String → Connection → Option Connection
unsubscribe destination c = elim (lookup destination c.ws_conn.client_subscriptions) [
  | none ↦ some c
  | some sub ↦
      if sub.closed
      then none
      else some (record c {
        ws_conn = record c.ws_conn {
          client_subscriptions =
              insert destination (record sub { subscribed = false; closed = true })
                c.ws_conn.client_subscriptions;
        };
      })
]
