-- ===== src/Bus/ChannelManager.antt =====
-- bus/channel_manager.go: the table of channels. A channel is its value in the table; a pointer to
-- one that was destroyed is not followed further. `manager.lock` makes each method one step. Events
-- are those of the monitor, in the order in which they are sent or their goroutines are started.
pub mod Broker
pub mod Table
mod Examples
use transport_go.Prelude.{
  ℕ, zero, suc, String, Bool, true, false, Option, none, some, List, [], ◌∷◌, ◌++◌, if◌then◌else◌,
  ltb,
}
use transport_go.Prelude.GoSlice.{length, get_elem?}
use transport_go.Prelude.GoMap.{GoMap, lookup, insert, delete, contains}
use transport_go.Bus.Channel.{
  Channel, ChannelEventHandler, Subscription, ConnectionSub, Slice, new_channel, set_galactic,
  set_local, subscribe_handler, unsubscribe_handler, is_broker_subscribed_to_destination,
  add_broker_connection, add_broker_subscription, remove_broker_connections, remove_sub_loop, take,
}

abbrev pub Channels : Type 0
Channels = GoMap Channel

pub data ChannelEvent : Type 0 where
  channel_created channel_destroyed : String → ChannelEvent
  channel_subscriber_joined channel_subscriber_left : String → ChannelEvent
  broker_subscribed broker_unsubscribed : String → String → ChannelEvent

pub data ChannelError : Type 0 where
  channel_does_not_exist : String → ChannelError
  no_handler : String → ℕ → ChannelError

unfoldable pub create_channel : String → Channels → Channels × List ChannelEvent
create_channel name m =
    if contains name m
    then (m, [])
    else (insert name (new_channel name) m, channel_created name ∷ [])

unfoldable pub destroy_channel : String → Channels → Channels × List ChannelEvent
destroy_channel name m = (delete name m, channel_destroyed name ∷ [])

abbrev pub get_channel : String → Channels → Option Channel
get_channel name m = lookup name m

abbrev pub check_channel_exists : String → Channels → Bool
check_channel_exists name m = contains name m

-- `id` is the new id of the handler; without an error it is also the result.
unfoldable pub subscribe_channel_handler :
    String → ℕ → Bool → Channels → (Channels × List ChannelEvent) × Option ChannelError
subscribe_channel_handler name id run_once m = elim (get_channel name m) [
  | none ↦ ((m, []), some (channel_does_not_exist name))
  | some ch ↦
      let h : ChannelEventHandler = record { uuid = id; run_once = run_once; run_count = 0 } in
      ((insert name (subscribe_handler h ch) m, channel_subscriber_joined name ∷ []), none)
]

unfoldable pub unsubscribe_channel_handler :
    String → ℕ → Channels → (Channels × List ChannelEvent) × Option ChannelError
unsubscribe_channel_handler name id m = elim (get_channel name m) [
  | none ↦ ((m, []), some (channel_does_not_exist name))
  | some ch ↦
      let (left, found) = unsubscribe_handler id ch in
      if found
      then ((insert name left m, channel_subscriber_left name ∷ []), none)
      else ((insert name left m, []), some (no_handler name id))
]

-- `select { case ch.brokerMappedEvent <- mapped: default: }`: the buffer takes ten values. Nothing
-- in the program receives them, and a receiver that waits is not modelled.
unfoldable pub notify : Bool → List Bool → List Bool
notify mapped buffer = if ltb (length buffer) 10 then buffer ++ mapped ∷ [] else buffer

-- `handleGalacticChannelEvent`, on the channel. A nil connection is `none`; `answer` is what the
-- connection's `Subscribe` returns for the destination, `none` for an error.
unfoldable pub handle_galactic_channel_event :
    String → String → Option ℕ → Option Subscription → Channel → Channel × List ChannelEvent
handle_galactic_channel_event name dest none answer ch = (ch, [])
handle_galactic_channel_event name dest (some conn) none ch = (ch, [])
handle_galactic_channel_event name dest (some conn) (some sub) ch =
    if is_broker_subscribed_to_destination conn dest ch.broker_subs then (ch, []) else (
      (let added = add_broker_subscription conn sub (add_broker_connection conn ch) in
          record added { broker_mapped_event = notify true added.broker_mapped_event }),
      broker_subscribed name dest ∷ [],
    )

unfoldable pub mark_channel_as_galactic :
    String
    → String
    → Option ℕ
    → Option Subscription
    → Channels
    → (Channels × List ChannelEvent) × Option ChannelError
unfolding handle_galactic_channel_event notify
mark_channel_as_galactic name dest conn answer m = elim (get_channel name m) [
  | none ↦ ((m, []), some (channel_does_not_exist name))
  | some ch ↦
      let (left, events) =
        handle_galactic_channel_event name dest conn answer (set_galactic dest ch) in
      ((insert name left m, events), none)
]

-- The loop of `handleLocalChannelEvent`. `range` fixed its length before the loop (`k` rounds are
-- left, at index `i`); `removeBrokerSubscription` writes the array that it reads. `unsubscribes`
-- says for the id of a subscription whether its `Unsubscribe` succeeds. `none` is a panic.
-- The last list is the buffer of `brokerMappedEvent`.
unfoldable pub local_loop :
    (ℕ → Bool) → String → ℕ → ℕ → Slice → List Bool → Option (Slice × List Bool × List ChannelEvent)
unfolding notify
local_loop unsubscribes name zero i s buffer = some (s, buffer, [])
local_loop unsubscribes name (suc k) i s buffer = elim (get_elem? s.array i) [
  | none ↦ none
  | some cs ↦
      if unsubscribes cs.s.id
      then elim (remove_sub_loop cs.s.id s.len 0 s) [
        | none ↦ none
        | some t ↦ elim (local_loop unsubscribes name k (suc i) t (notify false buffer)) [
          | none ↦ none
          | some (u, last, events) ↦
              some (u, last, broker_unsubscribed name cs.s.destination ∷ events)
        ]
      ]
      else local_loop unsubscribes name k (suc i) s buffer
]

unfoldable pub handle_local_channel_event :
    (ℕ → Bool) → String → Channel → Option (Channel × List ChannelEvent)
unfolding local_loop
handle_local_channel_event unsubscribes name ch =
    elim (local_loop unsubscribes name (length ch.broker_subs) 0
      (record { array = ch.broker_subs; len = length ch.broker_subs }) ch.broker_mapped_event) [
        | none ↦ none
        | some (t, buffer, events) ↦ some (
          remove_broker_connections
              (record ch { broker_subs = take t.len t.array; broker_mapped_event = buffer }),
          events,
        )
      ]

unfoldable pub mark_channel_as_local :
    (ℕ → Bool) → String → Channels → Option ((Channels × List ChannelEvent) × Option ChannelError)
unfolding handle_local_channel_event
mark_channel_as_local unsubscribes name m = elim (get_channel name m) [
  | none ↦ some ((m, []), some (channel_does_not_exist name))
  | some ch ↦
      elim (handle_local_channel_event unsubscribes name
        (remove_broker_connections (set_local ch))) [
          | none ↦ none
          | some (left, events) ↦ some ((insert name left m, events), none)
        ]
]
