-- ===== src/Bus/Fabric.antt =====
-- bus/fabric_endpoint.go: the bridge between the STOMP server and the bus. The state holds, beside
-- the endpoint, the table of channels that it works on and the next id of a handler. `chanLock`
-- makes each method one step. `marshal` and `unmarshal` stand for package json on the payloads.
pub mod Requests
pub mod Mappings
pub mod Tidy
mod Examples
use Prim.Native.String.{◌++◌ as concat}
use transport_go.Prelude.{
  ℕ, ◌+◌, String, ◌&&◌, ◌||◌, not, Bool, true, false, Option, none, some, List, [], ◌∷◌, ◌++◌, leb,
  str_eq, if◌then◌else◌, is_some,
}
use transport_go.Prelude.GoSlice.{length}
use transport_go.Prelude.GoMap.{GoMap, lookup, insert, delete, contains}
use transport_go.Stomp.Text.{has_prefix, after_prefix, ends_with_slash, add_slash}
use transport_go.Bus.ChannelManager.{
  Channels, ChannelEvent, create_channel, destroy_channel, subscribe_channel_handler,
  unsubscribe_channel_handler,
}

pub record EndpointConfig : Type 0 where
  pub topic_prefix : String
  pub user_queue_prefix : String
  pub app_request_prefix : String
  pub app_request_queue_prefix : String

pub data EndpointError : Type 0 where
  invalid_topic_prefix missing_user_queue_prefix : EndpointError

unfoldable pub validate : EndpointConfig → Option EndpointError
validate ec =
    if str_eq ec.topic_prefix "" || not (has_prefix ec.topic_prefix "/")
    then some invalid_topic_prefix
    else if not (str_eq ec.app_request_queue_prefix "") && str_eq ec.user_queue_prefix ""
    then some missing_user_queue_prefix
    else none

-- The prefix that the code adds is always a slash.
unfoldable pub add_prefix_if_not_empty : String → String
add_prefix_if_not_empty s = if not (str_eq s "") && not (ends_with_slash s) then add_slash s else s

unfoldable pub normalize_config : EndpointConfig → EndpointConfig
unfolding add_prefix_if_not_empty
normalize_config ec = record {
  topic_prefix = add_prefix_if_not_empty ec.topic_prefix;
  user_queue_prefix = add_prefix_if_not_empty ec.user_queue_prefix;
  app_request_prefix = add_prefix_if_not_empty ec.app_request_prefix;
  app_request_queue_prefix = add_prefix_if_not_empty ec.app_request_queue_prefix;
}

unfoldable pub get_channel_name_from_subscription : EndpointConfig → String → Option String
get_channel_name_from_subscription ec destination =
    if has_prefix destination ec.topic_prefix
    then some (after_prefix destination ec.topic_prefix)
    else if not (str_eq ec.user_queue_prefix "") && has_prefix destination ec.user_queue_prefix
    then some (after_prefix destination ec.user_queue_prefix)
    else none

unfoldable pub is_protected_destination : String → Bool
is_protected_destination destination = has_prefix destination "_transportInternal/"

-- `subscription_id` is that of the message handler once it listens.
pub record ChannelMapping : Type 0 where
  pub subs : GoMap (Unit {0})
  pub subscription_id : ℕ
  pub auto_created : Bool

pub record FabricEndpoint : Type 0 where
  pub config : EndpointConfig
  pub chan_mappings : GoMap ChannelMapping
  pub channels : Channels
  pub next_id : ℕ

pub data Effect : Type 0 where
  channel_event : ChannelEvent → Effect
  fabric_endpoint_subscribe fabric_endpoint_unsubscribe : String → Effect

abbrev pub told : List ChannelEvent → List Effect
told [] = []
told (e ∷ es) = channel_event e ∷ told es

abbrev pub mapping_id : String → String → String
mapping_id con_id sub_id = concat con_id (concat "#" sub_id)

-- The branch of `addSubscription` for a channel with no mapping: the channel is made if it is not
-- there (then `ListenStream` finds it), and a handler listens on it.
unfoldable pub new_mapping : String → FabricEndpoint → (ChannelMapping × Channels) × List Effect
unfolding create_channel subscribe_channel_handler
new_mapping name fe =
    let auto_created = not (contains name fe.channels) in
    let made = create_channel name fe.channels in
    let joined = (subscribe_channel_handler name fe.next_id false made.0).0 in
    (
      (record { subs = []; subscription_id = fe.next_id; auto_created = auto_created }, joined.0),
      told made.1 ++ told joined.1,
    )

-- `chanMap.subs[conId+"#"+subId] = true`, and the event.
unfoldable pub add_mapping_sub :
    String → String → ChannelMapping → FabricEndpoint → FabricEndpoint × List Effect
add_mapping_sub name key mapping fe = (
  record fe {
    chan_mappings =
        insert name (record mapping { subs = insert key tt mapping.subs }) fe.chan_mappings;
  },
  fabric_endpoint_subscribe name ∷ [],
)

-- `addSubscription` behind its tests.
unfoldable pub map_subscription : String → String → FabricEndpoint → FabricEndpoint × List Effect
unfolding new_mapping add_mapping_sub
map_subscription name key fe = elim (lookup name fe.chan_mappings) [
  | some mapping ↦ add_mapping_sub name key mapping fe
  | none ↦
      let made = new_mapping name fe in
      let added =
        add_mapping_sub name key made.0.0
          (record fe { channels = made.0.1; next_id = fe.next_id + 1 }) in
      (added.0, made.1 ++ added.1)
]

unfoldable pub add_subscription :
    String → String → String → FabricEndpoint → FabricEndpoint × List Effect
unfolding get_channel_name_from_subscription is_protected_destination map_subscription
add_subscription con_id sub_id destination fe =
    elim (get_channel_name_from_subscription fe.config destination) [
      | none ↦ (fe, [])
      | some name ↦
          if is_protected_destination name
          then (fe, [])
          else map_subscription name (mapping_id con_id sub_id) fe
    ]

-- The end of the last subscription: the handler closes, and a channel that was made for it goes.
unfoldable pub close_mapping :
    String → ChannelMapping → FabricEndpoint → FabricEndpoint × List Effect
unfolding unsubscribe_channel_handler destroy_channel
close_mapping name mapping fe =
    let closed = (unsubscribe_channel_handler name mapping.subscription_id fe.channels).0 in
    let gone = if mapping.auto_created then destroy_channel name closed.0 else (closed.0, []) in
    (
      record fe { chan_mappings = delete name fe.chan_mappings; channels = gone.0 },
      told closed.1 ++ told gone.1,
    )

unfoldable pub unmap_subscription : String → String → FabricEndpoint → FabricEndpoint × List Effect
unfolding close_mapping
unmap_subscription name key fe = elim (lookup name fe.chan_mappings) [
  | none ↦ (fe, [])
  | some mapping ↦
      if contains key mapping.subs
      then (let left : ChannelMapping = record mapping { subs = delete key mapping.subs } in
          let (next, effects) =
            (if leb (length left.subs) 0
              then close_mapping name left fe
              else (record fe { chan_mappings = insert name left fe.chan_mappings }, [])) in
          (next, effects ++ fabric_endpoint_unsubscribe name ∷ []))
      else (fe, [])
]

unfoldable pub remove_subscription :
    String → String → String → FabricEndpoint → FabricEndpoint × List Effect
unfolding get_channel_name_from_subscription unmap_subscription
remove_subscription con_id sub_id destination fe =
    elim (get_channel_name_from_subscription fe.config destination) [
      | none ↦ (fe, [])
      | some name ↦ unmap_subscription name (mapping_id con_id sub_id) fe
    ]

pub record BrokerDestination : Type 0 where
  pub destination : String
  pub connection_id : String

-- A request for a channel, with the broker destination that the bridge sets, if any.
pub record Bridged (R : Type 0) : Type 0 where
  pub channel : String
  pub request : R
  pub broker_destination : Option BrokerDestination

-- `req` may hold a broker destination of its own, which `broker_of` reads.
module _ {R : Type 0} (unmarshal : List ℕ → Option R)
    (broker_of : R → Option BrokerDestination) where
  -- The part of `bridgeMessage` behind the prefixes.
  unfoldable pub bridge_to : String → Option BrokerDestination → List ℕ → Option (Bridged R)
  bridge_to name private message = elim (unmarshal message) [
    | none ↦ none
    | some req ↦ some (record {
      channel = name;
      request = req;
      broker_destination = elim private [ none ↦ broker_of req | some b ↦ some b ];
    })
  ]

  unfoldable pub bridge_message : EndpointConfig → String → List ℕ → String → Option (Bridged R)
  unfolding bridge_to
  bridge_message ec destination message connection_id =
      if not (str_eq ec.app_request_queue_prefix "")
        && has_prefix destination ec.app_request_queue_prefix
      then (let name = after_prefix destination ec.app_request_queue_prefix in
          bridge_to name
            (some (record {
              destination = concat ec.user_queue_prefix name;
              connection_id = connection_id;
            }))
            message)
      else if not (str_eq ec.app_request_prefix "") && has_prefix destination ec.app_request_prefix
      then bridge_to (after_prefix destination ec.app_request_prefix) none message
      else none

-- What the handler of a mapping calls on the server.
pub data ServerCall : Type 0 where
  send_message_to_client : String → String → List ℕ → ServerCall
  send_message : String → List ℕ → ServerCall

-- A payload: a response with its broker destination, or anything else.
pub data Payload (P : Type 0) : Type 0 where
  response : Option BrokerDestination → P → Payload P
  other : P → Payload P

-- `convertPayloadToResponseObj`, and the test on its result.
abbrev pub reply_to : {P : Type 0} → Payload P → Option BrokerDestination
reply_to (response b p) = b
reply_to (other p) = none

module _ {P : Type 0} (marshal : Payload P → Option (List ℕ)) where
  unfoldable pub relay_message : EndpointConfig → String → Payload P → List ServerCall
  relay_message ec name payload = elim (marshal payload) [
    | none ↦ []
    | some bytes ↦ elim (reply_to payload) [
      | some b ↦ send_message_to_client b.connection_id b.destination bytes ∷ []
      | none ↦ send_message (concat ec.topic_prefix name) bytes ∷ []
    ]
  ]
