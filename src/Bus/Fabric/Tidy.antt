-- ===== src/Bus/Fabric/Tidy.antt =====
-- The channels that the endpoint listens on.
use transport_go.Prelude.{
  ◌∙◌, String, ◌≡◌, true, false, some, List, [], ◌∷◌, leb, arith, str_eq, eq_iff, if◌then◌else◌,
  Option-cases, Bool-cases, inl, inr,
}
use transport_go.Prelude.GoSlice.{length}
use transport_go.Prelude.GoMap.{
  lookup, insert, delete, contains, lookup-insert, lookup-delete, insert-some,
}
use transport_go.Bus.ChannelManager.{create_channel, unsubscribe_channel_handler}
use transport_go.Bus.ChannelManager.Table.{
  contains-create_channel, contains-destroy_channel, contains-subscribe_channel_handler,
  contains-unsubscribe_channel_handler,
}
use transport_go.Bus.Fabric.{
  ChannelMapping, FabricEndpoint, mapping_id, new_mapping, map_subscription, close_mapping,
  unmap_subscription, get_channel_name_from_subscription, is_protected_destination,
}
use transport_go.Bus.Fabric.Mappings.{Event, step, run, subscribes, unsubscribes}

-- A mapping is for an open channel that is there, and some subscription counts for it.
abbrev pub IsUsed : String → ChannelMapping → FabricEndpoint → Type 0
IsUsed name mapping fe =
    (is_protected_destination name ≡ false)
    × (leb (length mapping.subs) 0 ≡ false)
    × (contains name fe.channels ≡ true)

abbrev pub IsTidy : FabricEndpoint → Type 0
IsTidy fe =
    (name : String) (mapping : ChannelMapping)
    → lookup name fe.chan_mappings ≡ some mapping
    → IsUsed name mapping fe

contains-new_mapping :
    (made name : String) (fe : FabricEndpoint)
    → contains name (new_mapping made fe).0.1
      ≡ (if str_eq made name then true else contains name fe.channels)
unfolding new_mapping
contains-new_mapping made name fe =
    contains-subscribe_channel_handler made name fe.next_id false
      (create_channel made fe.channels).0
    ∙ contains-create_channel made name fe.channels

map_subscription-IsTidy :
    (made key : String) (fe : FabricEndpoint)
    → is_protected_destination made ≡ false
    → IsTidy fe
    → IsTidy (map_subscription made key fe).0
unfolding map_subscription
map_subscription-IsTidy made key fe open_name v name mapping found =
    elim (Option-cases (lookup made fe.chan_mappings)) [
      | inl e ↦
          let fresh : ChannelMapping = record (new_mapping made fe).0.0 {
            subs = insert key tt (new_mapping made fe).0.0.subs;
          } in
          ground (
            arith,
            e,
            open_name,
            found,
            eq_iff made name,
            v name mapping,
            lookup-insert made name fresh fe.chan_mappings,
            insert-some {V = Unit {0}} key tt (new_mapping made fe).0.0.subs,
            contains-new_mapping made name fe,
          )
      | inr (old, e) ↦
          let more : ChannelMapping = record old { subs = insert key tt old.subs } in
          ground (
            arith,
            e,
            open_name,
            found,
            eq_iff made name,
            v name mapping,
            v made old,
            lookup-insert made name more fe.chan_mappings,
            insert-some {V = Unit {0}} key tt old.subs,
          )
    ]

contains-close_mapping :
    (made name : String) (mapping : ChannelMapping) (fe : FabricEndpoint)
    → str_eq made name ≡ false
    → contains name (close_mapping made mapping fe).0.channels ≡ contains name fe.channels
unfolding close_mapping
contains-close_mapping made name mapping fe n =
    let closed = (unsubscribe_channel_handler made mapping.subscription_id fe.channels).0.0 in
    ground (
      arith,
      n,
      contains-unsubscribe_channel_handler made name mapping.subscription_id fe.channels,
      contains-destroy_channel made name closed,
    )

close_mapping-IsTidy :
    (made : String) (mapping : ChannelMapping) (fe : FabricEndpoint)
    → IsTidy fe
    → IsTidy (close_mapping made mapping fe).0
unfolding close_mapping
close_mapping-IsTidy made gone fe v name mapping found = ground (
  arith,
  found,
  v name mapping,
  lookup-delete made name fe.chan_mappings,
  contains-close_mapping made name gone fe,
)

unmap_subscription-IsTidy :
    (made key : String) (fe : FabricEndpoint)
    → IsTidy fe
    → IsTidy (unmap_subscription made key fe).0
unfolding unmap_subscription
unmap_subscription-IsTidy made key fe v name mapping =
    elim (Option-cases (lookup made fe.chan_mappings)) [
      | inl e ↦ ground (arith, e, v name mapping)
      | inr (old, e) ↦
          let left : ChannelMapping = record old { subs = delete key old.subs } in
          ground (
            arith,
            e,
            v name mapping,
            v made old,
            eq_iff made name,
            lookup-insert made name left fe.chan_mappings,
            close_mapping-IsTidy made left fe v name mapping,
          )
    ]

step-IsTidy : (e : Event) (fe : FabricEndpoint) → IsTidy fe → IsTidy (step e fe).0
unfolding step
step-IsTidy (subscribes con_id sub_id destination) fe v name mapping =
    elim (Option-cases (get_channel_name_from_subscription fe.config destination)) [
      | inl e ↦ ground (arith, e, v name mapping)
      | inr (made, e) ↦
          let key = mapping_id con_id sub_id in
          elim (Bool-cases (is_protected_destination made)) [
            | inl p ↦ ground (arith, e, p, v name mapping)
            | inr p ↦ ground (arith, e, p, map_subscription-IsTidy made key fe p v name mapping)
          ]
    ]
step-IsTidy (unsubscribes con_id sub_id destination) fe v name mapping =
    elim (Option-cases (get_channel_name_from_subscription fe.config destination)) [
      | inl e ↦ ground (arith, e, v name mapping)
      | inr (made, e) ↦
          ground
            (arith, e, unmap_subscription-IsTidy made (mapping_id con_id sub_id) fe v name mapping)
    ]

-- From a state in which it is so, over every history of subscriptions that clients make and give
-- up: each channel that the endpoint listens on exists, is not one of the bus's own (protected)
-- channels, and has at least one subscription that counts for it.
pub run-IsTidy : (es : List Event) (fe : FabricEndpoint) → IsTidy fe → IsTidy (run es fe).0
unfolding run
run-IsTidy [] fe v = v
run-IsTidy (e ∷ es) fe v = run-IsTidy es (step e fe).0 (step-IsTidy e fe v)
