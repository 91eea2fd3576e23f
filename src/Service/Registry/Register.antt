-- ===== src/Service/Registry/Register.antt =====
-- Which services there are after a registration, and what is left of it when it is undone.
use transport_go.Prelude.{
  ℕ, String, ◌≡◌, ◌&&◌, Bool, false, not, Option, none, some, arith, str_eq, eq_iff, if◌then◌else◌,
  is_some,
}
use transport_go.Prelude.GoMap.{lookup, insert, contains, lookup-insert, lookup-delete}
use transport_go.Bus.Channel.{Channel, ChannelEventHandler, new_channel, subscribe_handler}
use transport_go.Bus.Channel.Handlers.{IsFresh, unsubscribe_handler-subscribe_handler}
use transport_go.Bus.ChannelManager.{
  Channels, create_channel, subscribe_channel_handler, unsubscribe_channel_handler,
}
use transport_go.Service.Registry.{
  FabricService, FabricServiceWrapper, ServiceRegistry, get_service, register_service,
  listen_for_requests, unregister_service,
}

-- The channel as it stands, or as it would be made.
abbrev pub channel_or_new : String → Channels → Channel
channel_or_new name m = elim (lookup name m) [ none ↦ new_channel name | some ch ↦ ch ]

lookup-create_channel :
    (name j : String) (m : Channels)
    → lookup j (create_channel name m).0
      ≡ (if str_eq name j then some (channel_or_new name m) else lookup j m)
unfolding create_channel
lookup-create_channel name j m =
    ground (arith, eq_iff name j, lookup-insert name j (new_channel name) m)

lookup-subscribe-unsubscribe :
    (name j : String) (id : ℕ) (m : Channels) (ch : Channel)
    → lookup name m ≡ some ch
    → IsFresh id ch.event_handlers
    → lookup j
        (unsubscribe_channel_handler name id (subscribe_channel_handler name id false m).0.0).0.0
      ≡ lookup j m
unfolding subscribe_channel_handler unsubscribe_channel_handler
lookup-subscribe-unsubscribe name j id m ch e v =
    let h : ChannelEventHandler = record { uuid = id; run_once = false; run_count = 0 } in
    let joined = subscribe_handler h ch in
    ground (
      arith,
      e,
      eq_iff name j,
      eq_iff name name,
      unsubscribe_handler-subscribe_handler h ch v,
      lookup-insert name name joined m,
      lookup-insert name j joined m,
      lookup-insert name j ch (insert name joined m),
    )

module _ {C : Type 0} where
  -- The registration is accepted.
  abbrev pub accepts : Option (FabricService C) → Option ℕ → String → ServiceRegistry C → Bool
  accepts none init name r = false
  accepts (some service) init name r = not (contains name r.services) && not (is_some init)

  -- A service that is registered, and whose `Init` does not fail, under a name that is not in use
  -- is found under that name, and every other name finds what it found. To unregister it succeeds,
  -- after which every name finds what it found before; its channel stays and has just the handlers
  -- that it had, and every other channel is as it was. (The id of the new handler is new.)
  pub unregister_service-register_service :
      (service : FabricService C) (name : String) (r : ServiceRegistry C)
      → contains name r.services ≡ false
      → IsFresh r.next_id (channel_or_new name r.channels).event_handlers
      → ((j : String)
          → get_service j (register_service (some service) none name r).0.0
            ≡ (if str_eq name j then some service else get_service j r))
        × ((unregister_service name (register_service (some service) none name r).0.0).1 ≡ none)
        × ((j : String)
            → get_service j
                (unregister_service name (register_service (some service) none name r).0.0).0.0
              ≡ get_service j r)
        × ((j : String)
            → lookup j
                (unregister_service name
                  (register_service (some service) none name r).0.0).0.0.channels
              ≡ (if str_eq name j
                  then some (channel_or_new name r.channels)
                  else lookup j r.channels))
  unfolding register_service unregister_service listen_for_requests get_service
  unregister_service-register_service service name r u v =
      let w : FabricServiceWrapper C = record { service = service; subscription_id = r.next_id } in
      let made = (create_channel name r.channels).0 in
      let ch = channel_or_new name r.channels in
      let there : lookup name made ≡ some ch =
        ground (arith, eq_iff name name, lookup-create_channel name name r.channels) in
      let kept = insert name w r.services in
      (
        λ j. ground (arith, u, eq_iff name j, lookup-insert name j w r.services),
        ground (arith, u, eq_iff name name, lookup-insert name name w r.services),
        λ j. ground (
          arith,
          u,
          eq_iff name name,
          eq_iff name j,
          lookup-insert name name w r.services,
          lookup-insert name j w r.services,
          lookup-delete name j kept,
        ),
        λ j. ground (
          arith,
          u,
          eq_iff name name,
          lookup-insert name name w r.services,
          lookup-create_channel name j r.channels,
          lookup-subscribe-unsubscribe name j r.next_id made ch there v,
        ),
      )
