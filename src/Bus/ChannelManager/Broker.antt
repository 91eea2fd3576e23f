-- ===== src/Bus/ChannelManager/Broker.antt =====
-- `MarkChannelAsGalactic` and `MarkChannelAsLocal`.
use transport_go.Prelude.{
  ℕ, String, ◌≡◌, refl, ap, ◌∙◌, Bool, true, false, none, some, List, [], ◌∷◌, ◌++◌, arith, ◌==◌,
  eq_iff, str_eq, if◌then◌else◌,
}
use transport_go.Prelude.GoSlice.{length, All}
use transport_go.Prelude.GoMap.{lookup, insert, lookup-insert}
use transport_go.Bus.Channel.{
  Channel, Subscription, ConnectionSub, Slice, new_channel, set_galactic, set_local, has_conn,
  is_broker_subscribed_to_destination, add_broker_connection, add_broker_subscription,
  remove_broker_connections, remove_broker_subscription, remove_sub_loop, remove_sub,
}
use transport_go.Bus.Channel.BrokerSubs.{IsOther, remove_broker_subscription_panics}
use transport_go.Bus.ChannelManager.{
  Channels, broker_unsubscribed, local_loop, handle_local_channel_event, mark_channel_as_local,
  mark_channel_as_galactic, notify,
}

abbrev whole : List ConnectionSub → Slice
whole subs = record { array = subs; len = length subs }

remove_sub_loop_panics :
    (mid : List ConnectionSub) (x y : ConnectionSub)
    → (x.s.id == x.s.id) ≡ true
    → All (IsOther x.s.id) mid
    → remove_sub_loop x.s.id (length (x ∷ (mid ++ y ∷ []))) 0 (whole (x ∷ (mid ++ y ∷ []))) ≡ none
unfolding remove_broker_subscription
remove_sub_loop_panics mid x y hit w =
    let ch : Channel = record (new_channel "") { broker_subs = x ∷ (mid ++ y ∷ []) } in
    ground (arith, remove_broker_subscription_panics ch x.s [] mid x y refl tt hit w)

local_loop_panics :
    (unsubscribes : ℕ → Bool) (name : String) (mid : List ConnectionSub) (x y : ConnectionSub)
    (buffer : List Bool)
    → unsubscribes x.s.id ≡ true
    → All (IsOther x.s.id) mid
    → local_loop unsubscribes name
        (length (x ∷ (mid ++ y ∷ [])))
        0
        (whole (x ∷ (mid ++ y ∷ [])))
        buffer
      ≡ none
unfolding local_loop
local_loop_panics unsubscribes name mid x y buffer u w =
    ground (arith, remove_sub_loop_panics mid x y (ground arith) w)

-- To mark a channel as local panics if the channel has at least two broker subscriptions, the ids
-- between the first and the last differ from the first's, and the first can be unsubscribed.
pub mark_channel_as_local_panics :
    (unsubscribes : ℕ → Bool) (name : String) (m : Channels) (ch : Channel)
    (mid : List ConnectionSub) (x y : ConnectionSub)
    → lookup name m ≡ some ch
    → ch.broker_subs ≡ x ∷ (mid ++ y ∷ [])
    → unsubscribes x.s.id ≡ true
    → All (IsOther x.s.id) mid
    → mark_channel_as_local unsubscribes name m ≡ none
unfolding mark_channel_as_local set_local remove_broker_connections
mark_channel_as_local_panics unsubscribes name m ch mid x y here e u w =
    let faults =
      ap (λ subs. local_loop unsubscribes name (length subs) 0 (whole subs) ch.broker_mapped_event)
        e
      ∙ local_loop_panics unsubscribes name mid x y ch.broker_mapped_event u w in
    ground (arith, here, faults)

local_loop_one :
    (unsubscribes : ℕ → Bool) (name : String) (x : ConnectionSub) (buffer : List Bool)
    → unsubscribes x.s.id ≡ true
    → local_loop unsubscribes name 1 0 (whole (x ∷ [])) buffer
      ≡ some (
        record { array = x ∷ []; len = 0 },
        notify false buffer,
        broker_unsubscribed name x.s.destination ∷ [],
      )
unfolding local_loop remove_sub_loop remove_sub
local_loop_one unsubscribes name x buffer u = ground arith

-- A local channel that was marked as galactic on a connection, with a subscription that can be
-- given up, and then as local again is what it was, but for the buffer of its notifications, where
-- that it was mapped and that it was unmapped stand behind the rest, as far as there is room; every
-- other channel is what it was, and the end of the subscription is told. (The channel had no broker
-- connections or subscriptions.)
pub mark_channel_as_local-mark_channel_as_galactic :
    (unsubscribes : ℕ → Bool) (name dest : String) (conn : ℕ) (sub : Subscription) (m : Channels)
    (ch : Channel)
    → lookup name m ≡ some ch
    → ch.galactic ≡ false
    → ch.galactic_mapped_destination ≡ ""
    → ch.broker_subs ≡ []
    → ch.broker_conns ≡ []
    → unsubscribes sub.id ≡ true
    → (back : Channels) × (mark_channel_as_local unsubscribes name
          (mark_channel_as_galactic name dest (some conn) (some sub) m).0.0
        ≡ some ((back, broker_unsubscribed name sub.destination ∷ []), none))
      × ((j : String)
          → lookup j back ≡ (
              if str_eq name j
              then some (record ch {
                broker_mapped_event = notify false (notify true ch.broker_mapped_event);
              })
              else lookup j m))
unfolding mark_channel_as_local mark_channel_as_galactic set_local set_galactic
    remove_broker_connections add_broker_subscription add_broker_connection has_conn
    is_broker_subscribed_to_destination handle_local_channel_event
mark_channel_as_local-mark_channel_as_galactic unsubscribes name dest conn sub m ch here g d s c u =
    let x : ConnectionSub = record { c = conn; s = sub } in
    let mapped : Channel = record ch {
      galactic = true;
      galactic_mapped_destination = dest;
      broker_subs = x ∷ [];
      broker_conns = conn ∷ [];
      broker_mapped_event = notify true ch.broker_mapped_event;
    } in
    let told : Channel = record ch {
      broker_mapped_event = notify false (notify true ch.broker_mapped_event);
    } in
    let there : Channels = insert name mapped m in
    (
      insert name told there,
      ground (
        arith,
        here,
        local_loop_one unsubscribes name x (notify true ch.broker_mapped_event) u,
        lookup-insert name name mapped m,
        eq_iff name name,
      ),
      λ j. ground (
        arith,
        here,
        eq_iff name j,
        lookup-insert name j mapped m,
        lookup-insert name j told there,
      ),
    )
