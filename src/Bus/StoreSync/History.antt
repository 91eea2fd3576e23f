-- ===== src/Bus/StoreSync/History.antt =====
-- Histories of clients and of their requests.
use transport_go.Prelude.{
  String, ◌≡◌, Bool, true, List, [], ◌∷◌, ◌++◌, arith, subst, Option-cases, Bool-cases, inl, inr,
}
use transport_go.Prelude.GoMap.{delete, contains}
use transport_go.Stomp.Text.{has_prefix}
use transport_go.Bus.StoreSync.{
  StoreSyncService, Effect, StoreRequest, given, leave_store, change_open, join_store, open_store,
  close_store, MonitorEvent, fabric_endpoint_subscribe, channel_destroyed, on_monitor_event,
}
use transport_go.Bus.StoreSync.Links.{
  IsLinked, open_new_client_sync_channel-IsLinked, close_client_sync_channel-IsLinked,
  join_store-IsLinked, close_store-IsLinked,
}

pub data Event (R : Type 0) : Type 0 where
  monitors : Bool → MonitorEvent → Event R
  opens : (String → Bool) → String → StoreRequest R → Event R
  closes : String → StoreRequest R → Event R

module _ {R : Type 0} (V : Type 0) where
  unfoldable pub step : Event R → StoreSyncService → StoreSyncService × List (Effect V)
  unfolding on_monitor_event open_store close_store
  step (monitors has_channel e) s = on_monitor_event has_channel e s
  step (opens has_store name request) s = open_store has_store name request s
  step (closes name request) s = close_store name request s

  unfoldable pub run : List (Event R) → StoreSyncService → StoreSyncService × List (Effect V)
  unfolding step
  run [] s = (s, [])
  run (e ∷ es) s = let (t, effects) = step e s in let (u, more) = run es t in (u, effects ++ more)

  -- A request to open a store comes from a client that the service has.
  abbrev pub IsLive : Event R → StoreSyncService → Type 0
  IsLive (opens has_store name request) s = contains name s.sync_clients ≡ true
  IsLive _ s = Unit

  abbrev pub AreLive : List (Event R) → StoreSyncService → Type 0
  AreLive [] s = Unit
  AreLive (e ∷ es) s = IsLive e s × AreLive es (step e s).0

  step-IsLinked :
      (e : Event R) (s : StoreSyncService) → IsLive e s → IsLinked s → IsLinked (step e s).0
  unfolding step
  step-IsLinked (monitors has_channel (fabric_endpoint_subscribe name)) s live v =
      elim (Bool-cases (has_prefix name "transport-store-sync.")) [
        | inl p ↦ rw p (open_new_client_sync_channel-IsLinked V has_channel name s v)
        | inr p ↦ rw p v
      ]
  step-IsLinked (monitors has_channel (channel_destroyed name)) s live v =
      elim (Bool-cases (has_prefix name "transport-store-sync.")) [
        | inl p ↦ rw p (close_client_sync_channel-IsLinked V name s v)
        | inr p ↦ rw p v
      ]
  step-IsLinked (opens has_store name request) s live v =
      let next = (open_store {V = V} has_store name request s).0 in
      elim (Option-cases (given request.store_id)) [
        | inl e ↦ let same : s ≡ next = ground (arith, e) in subst IsLinked same v
        | inr (at, e) ↦ elim (Bool-cases (has_store at)) [
          | inl p ↦
              let same : (join_store {V = V} name at s).0 ≡ next = ground (arith, e, p) in
              subst IsLinked same (join_store-IsLinked V name at s live v)
          | inr p ↦ let same : s ≡ next = ground (arith, e, p) in subst IsLinked same v
        ]
      ]
  step-IsLinked (closes name request) s live v =
      let next = (close_store {V = V} name request s).0 in
      elim (Option-cases (given request.store_id)) [
        | inl e ↦ let same : s ≡ next = ground (arith, e) in subst IsLinked same v
        | inr (at, e) ↦
            let left : StoreSyncService = record s {
              sync_clients = change_open (delete at) name s.sync_clients;
              sync_store_listeners = (leave_store {V = V} name at s.sync_store_listeners).0;
            } in
            let same : left ≡ next = ground (arith, e) in
            subst IsLinked same (close_store-IsLinked V name at s v)
      ]

  -- Over every history of clients that come and go and of their requests, valid or not, in which
  -- only clients that the service has ask to open a store: a store's listener has a client's
  -- channel exactly if the client has the store open, and a store has a listener only while some
  -- client has it open. (It was so before the history, as in a new service.)
  pub run-IsLinked :
      (es : List (Event R)) (s : StoreSyncService)
      → AreLive es s
      → IsLinked s
      → IsLinked (run es s).0
  unfolding run
  run-IsLinked [] s live v = v
  run-IsLinked (e ∷ es) s live v = run-IsLinked es (step e s).0 live.1 (step-IsLinked e s live.0 v)
