-- ===== src/Bus/Fabric/Requests.antt =====
-- Requests of clients on their way to the bus, and the answers on their way back.
use Prim.Native.String.{◌++◌ as concat}
use transport_go.Prelude.{ℕ, String, ◌≡◌, false, Option, some, List, [], ◌∷◌, arith, str_eq}
use transport_go.Stomp.Text.{has_prefix, has_prefix-append, after_prefix-append}
use transport_go.Bus.Fabric.{
  EndpointConfig, BrokerDestination, bridge_to, bridge_message, send_message_to_client, Payload,
  response, relay_message, get_channel_name_from_subscription,
}

-- The queue of a client for a channel.
abbrev pub own_queue : EndpointConfig → String → String → BrokerDestination
own_queue ec name connection_id = record {
  destination = concat ec.user_queue_prefix name;
  connection_id = connection_id;
}

module _ {R P : Type 0} (unmarshal : List ℕ → Option R) (broker_of : R → Option BrokerDestination)
    (marshal : Payload P → Option (List ℕ)) where
  -- A request that a client sends to a queue of the application (whose prefix is not empty) and
  -- that can be read goes to the channel that the queue names, with the client's own queue as its
  -- broker destination. A response on that channel with this broker destination is sent to that
  -- client alone, on its queue of the same name; and to subscribe to that queue is to subscribe to
  -- that channel, if the queues have a prefix and it is not a topic.
  pub bridge_message-relay_message :
      (ec : EndpointConfig) (name connection_id : String) (message bytes : List ℕ) (req : R) (p : P)
      → str_eq ec.app_request_queue_prefix "" ≡ false
      → unmarshal message ≡ some req
      → marshal (response (some (own_queue ec name connection_id)) p) ≡ some bytes
      → str_eq ec.user_queue_prefix "" ≡ false
      → has_prefix (concat ec.user_queue_prefix name) ec.topic_prefix ≡ false
      → (bridge_message unmarshal broker_of ec
            (concat ec.app_request_queue_prefix name)
            message
            connection_id
          ≡ some (record {
            channel = name;
            request = req;
            broker_destination = some (own_queue ec name connection_id);
          }))
        × (relay_message marshal ec name (response (some (own_queue ec name connection_id)) p)
            ≡ send_message_to_client connection_id (concat ec.user_queue_prefix name) bytes ∷ [])
        × (get_channel_name_from_subscription ec (concat ec.user_queue_prefix name) ≡ some name)
  unfolding bridge_message bridge_to relay_message get_channel_name_from_subscription
  bridge_message-relay_message ec name connection_id message bytes req p q u m k t = (
    ground (
      arith,
      q,
      u,
      has_prefix-append ec.app_request_queue_prefix name,
      after_prefix-append ec.app_request_queue_prefix name,
    ),
    ground (arith, m),
    ground (
      arith,
      k,
      t,
      has_prefix-append ec.user_queue_prefix name,
      after_prefix-append ec.user_queue_prefix name,
    ),
  )
