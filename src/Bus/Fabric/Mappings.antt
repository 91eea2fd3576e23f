-- ===== src/Bus/Fabric/Mappings.antt =====
-- The mappings of channels against the subscriptions of clients.
use transport_go.Prelude.{
  String, ◌≡◌, ◌&&◌, Bool, true, false, Option, none, some, List, [], ◌∷◌, ◌++◌, arith, str_eq,
  eq_iff, if◌then◌else◌, Option-cases, inl, inr,
}
use transport_go.Prelude.GoMap.{
  GoMap, lookup, insert, delete, contains, lookup-insert, lookup-delete, contains_none,
}
use transport_go.Bus.Fabric.{
  EndpointConfig, ChannelMapping, FabricEndpoint, Effect, mapping_id, new_mapping, map_subscription,
  add_subscription, close_mapping, unmap_subscription, remove_subscription,
  get_channel_name_from_subscription, is_protected_destination,
}

abbrev pub subs_of : Option ChannelMapping → GoMap (Unit {0})
subs_of none = []
subs_of (some mapping) = mapping.subs

-- A client's subscription counts for a channel.
unfoldable pub is_mapped : String → String → FabricEndpoint → Bool
is_mapped name key fe = contains key (subs_of (lookup name fe.chan_mappings))

pub data Event : Type 0 where
  subscribes unsubscribes : String → String → String → Event

unfoldable pub step : Event → FabricEndpoint → FabricEndpoint × List Effect
unfolding add_subscription remove_subscription
step (subscribes con_id sub_id destination) fe = add_subscription con_id sub_id destination fe
step (unsubscribes con_id sub_id destination) fe = remove_subscription con_id sub_id destination fe

unfoldable pub run : List Event → FabricEndpoint → FabricEndpoint × List Effect
unfolding step
run [] fe = (fe, [])
run (e ∷ es) fe =
    let (next, effects) = step e fe in let (last, more) = run es next in (last, effects ++ more)

-- The channel of a destination, unless clients may not listen on it.
unfoldable pub open_channel : EndpointConfig → String → Option String
open_channel ec destination = elim (get_channel_name_from_subscription ec destination) [
  | none ↦ none
  | some name ↦ if is_protected_destination name then none else some name
]

abbrev pub is_for : Option String → String → Bool
is_for none name = false
is_for (some other) name = str_eq other name

-- What an event means for the subscription `key` to the channel `name`.
unfoldable pub after_event : EndpointConfig → Event → String → String → Bool → Bool
unfolding open_channel
after_event ec (subscribes con_id sub_id destination) name key old =
    if is_for (open_channel ec destination) name && str_eq (mapping_id con_id sub_id) key
    then true
    else old
after_event ec (unsubscribes con_id sub_id destination) name key old =
    if is_for (get_channel_name_from_subscription ec destination) name
      && str_eq (mapping_id con_id sub_id) key
    then false
    else old

map_subscription-is_mapped :
    (made key name other : String) (fe : FabricEndpoint)
    → is_mapped name other (map_subscription made key fe).0
      ≡ (if str_eq made name && str_eq key other then true else is_mapped name other fe)
unfolding is_mapped map_subscription lookup
map_subscription-is_mapped made key name other fe =
    elim (Option-cases (lookup made fe.chan_mappings)) [
      | inl e ↦
          let fresh : ChannelMapping = record (new_mapping made fe).0.0 {
            subs = insert key tt [];
          } in
          ground (
            arith,
            e,
            eq_iff made name,
            eq_iff key other,
            lookup-insert made name fresh fe.chan_mappings,
            lookup-insert {0} key other tt [],
          )
      | inr (mapping, e) ↦
          let more : ChannelMapping = record mapping { subs = insert key tt mapping.subs } in
          ground (
            arith,
            e,
            eq_iff made name,
            eq_iff key other,
            lookup-insert made name more fe.chan_mappings,
            lookup-insert {0} key other tt mapping.subs,
          )
    ]

unmap_subscription-is_mapped :
    (made key name other : String) (fe : FabricEndpoint)
    → is_mapped name other (unmap_subscription made key fe).0
      ≡ (if str_eq made name && str_eq key other then false else is_mapped name other fe)
unfolding is_mapped unmap_subscription close_mapping lookup
unmap_subscription-is_mapped made key name other fe =
    elim (Option-cases (lookup made fe.chan_mappings)) [
      | inl e ↦ ground (arith, e, eq_iff made name, eq_iff key other)
      | inr (mapping, e) ↦
          let left : ChannelMapping = record mapping { subs = delete key mapping.subs } in
          ground (
            arith,
            e,
            eq_iff made name,
            eq_iff key other,
            lookup-insert made name left fe.chan_mappings,
            lookup-delete made name fe.chan_mappings,
            lookup-delete key other mapping.subs,
            contains_none other left.subs,
          )
    ]

-- Each event changes which subscriptions count for which channel exactly as its meaning says: a
-- subscription to a destination that names an open channel counts for that channel from then on, it
-- no longer counts once it is given up, and no other subscription is affected.
pub step-is_mapped :
    (e : Event) (fe : FabricEndpoint) (name key : String)
    → is_mapped name key (step e fe).0 ≡ after_event fe.config e name key (is_mapped name key fe)
unfolding step after_event
step-is_mapped (subscribes con_id sub_id destination) fe name key =
    elim (Option-cases (get_channel_name_from_subscription fe.config destination)) [
      | inl e ↦ ground (arith, e)
      | inr (made, e) ↦
          ground (arith, e, map_subscription-is_mapped made (mapping_id con_id sub_id) name key fe)
    ]
step-is_mapped (unsubscribes con_id sub_id destination) fe name key =
    elim (Option-cases (get_channel_name_from_subscription fe.config destination)) [
      | inl e ↦ ground (arith, e)
      | inr (made, e) ↦
          ground
            (arith, e, unmap_subscription-is_mapped made (mapping_id con_id sub_id) name key fe)
    ]
