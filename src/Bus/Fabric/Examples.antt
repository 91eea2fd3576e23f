-- ===== src/Bus/Fabric/Examples.antt =====
-- An endpoint with topics and queues, and two clients.
use transport_go.Prelude.{ℕ, ◌≡◌, refl, Option, none, some, List, [], ◌∷◌, arith}
use transport_go.Prelude.GoMap.{lookup}
use transport_go.Stomp.Text.{has_prefix, ends_with_slash, add_slash}
use transport_go.Bus.ChannelManager.{create_channel}
use transport_go.Bus.Fabric.{
  EndpointConfig, FabricEndpoint, normalize_config, bridge_message, Payload, response, other,
  relay_message, send_message_to_client, get_channel_name_from_subscription,
}
use transport_go.Bus.Fabric.Mappings.{
  Event, subscribes, unsubscribes, step, run, is_mapped, after_event, step-is_mapped,
}
use transport_go.Bus.Fabric.Tidy.{IsTidy, run-IsTidy}
use transport_go.Bus.Fabric.Requests.{own_queue, bridge_message-relay_message}

abbrev config : EndpointConfig
config = normalize_config (record {
  topic_prefix = "/topic";
  user_queue_prefix = "/user/queue";
  app_request_prefix = "/pub";
  app_request_queue_prefix = "/pub/queue";
})

abbrev endpoint : FabricEndpoint
endpoint = record {
  config = config;
  chan_mappings = [];
  channels = (create_channel "quotes" []).0;
  next_id = 1;
}

abbrev events : List Event
events =
    subscribes "c1" "s1" "/topic/quotes"
    ∷ subscribes "c2" "s1" "/user/queue/news"
    ∷ subscribes "c2" "s2" "/topic/_transportInternal/x"
    ∷ unsubscribes "c1" "s1" "/topic/quotes"
    ∷ []

run-IsTidy_example : IsTidy (run events endpoint).0
unfolding lookup
run-IsTidy_example =
    run-IsTidy events endpoint (λ name mapping found. absurd (ground (arith, found)))

step-is_mapped_example :
    is_mapped "quotes" "c1#s1" (step (subscribes "c1" "s1" "/topic/quotes") endpoint).0
    ≡ after_event config
        (subscribes "c1" "s1" "/topic/quotes")
        "quotes"
        "c1#s1"
        (is_mapped "quotes" "c1#s1" endpoint)
step-is_mapped_example =
    step-is_mapped (subscribes "c1" "s1" "/topic/quotes") endpoint "quotes" "c1#s1"

abbrev answers : Payload ℕ → Option (List ℕ)
answers (response b p) = some (p ∷ [])
answers (other p) = some (p ∷ [])

abbrev read : List ℕ → Option ℕ
read [] = none
read (n ∷ ns) = some n

bridge_message-relay_message_example :
    (bridge_message read (λ _. none) config "/pub/queue/quotes" (7 ∷ []) "c1"
      ≡ some (record {
        channel = "quotes";
        request = 7;
        broker_destination = some (own_queue config "quotes" "c1");
      }))
    × (relay_message answers config "quotes" (response (some (own_queue config "quotes" "c1")) 8)
        ≡ send_message_to_client "c1" "/user/queue/quotes" (8 ∷ []) ∷ [])
    × (get_channel_name_from_subscription config "/user/queue/quotes" ≡ some "quotes")
unfolding normalize_config has_prefix ends_with_slash add_slash
bridge_message-relay_message_example =
    bridge_message-relay_message read (λ _. none) answers config "quotes" "c1" (7 ∷ []) (8 ∷ []) 7 8
      refl refl refl refl refl
