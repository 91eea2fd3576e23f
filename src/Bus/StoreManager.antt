-- ===== src/Bus/StoreManager.antt =====
-- bus/store_manager.go. The state holds the table of channels that the manager works on and the
-- next id of a handler; a store stands with the channel and the subscription of its sync handler.
-- The ids of connections are texts. The locks make each method one step; item types are left out.
pub mod Kinds
mod Examples
use Prim.Native.String
use Prim.Native.String.{String}
use transport_go.Prelude.{
  ℕ, ◌+◌, Bool, true, false, Option, none, some, List, [], ◌∷◌, ◌++◌, if◌then◌else◌,
}
use transport_go.Prelude.GoMap.{GoMap, lookup, insert, delete, contains}
use transport_go.Bus.ChannelManager.{
  Channels, ChannelEvent, create_channel, subscribe_channel_handler, mark_channel_as_galactic,
}
use transport_go.Bus.Channel.{Subscription}
use transport_go.Bus.Listener.Requests.{close}
use transport_go.Bus.Store.{BusStore, new_bus_store, on_destroy}
use transport_go.Bus.Store
use transport_go.Stomp.Text.{ends_with_slash, add_slash}

-- A store, with the channel and subscription of its `storeSynHandler`, if any.
pub record ManagedStore (V : Type 0) : Type 0 where
  pub store : BusStore V
  pub sync_handler : Option (String × ℕ)

pub record StoreSyncChannelConfig : Type 0 where
  pub topic_prefix : String
  pub pub_prefix : String
  pub sync_channel_name : String
  pub conn : ℕ

pub record StoreManager (V : Type 0) : Type 0 where
  pub stores : GoMap (ManagedStore V)
  pub sync_channels : GoMap StoreSyncChannelConfig
  pub channels : Channels
  pub next_id : ℕ

pub data ManagerError : Type 0 where
  already_configured not_configured local_store_exists : ManagerError

pub data ManagerEffect (V : Type 0) : Type 0 where
  store_created store_destroyed : String → ManagerEffect V
  store_effect : Store.Effect V → ManagerEffect V
  channel_event : ChannelEvent → ManagerEffect V

-- `storeSynHandler.Close()`.
abbrev pub close_sync : Option (String × ℕ) → Channels → Channels × List ChannelEvent
close_sync none channels = (channels, [])
close_sync (some handler) channels = close handler.0 (some handler.1) channels

abbrev pub with_slash : String → String
with_slash prefix = if ends_with_slash prefix then prefix else add_slash prefix

abbrev pub new_config : String → ℕ → String → String → StoreSyncChannelConfig
new_config id conn topic publish = record {
  topic_prefix = with_slash topic;
  pub_prefix = with_slash publish;
  sync_channel_name = String.◌++◌ "transport-store-sync." id;
  conn = conn;
}

module _ {V : Type 0} where
  abbrev pub of_store : List (Store.Effect V) → List (ManagerEffect V)
  of_store [] = []
  of_store (e ∷ es) = store_effect e ∷ of_store es

  abbrev pub of_channels : List ChannelEvent → List (ManagerEffect V)
  of_channels [] = []
  of_channels (e ∷ es) = channel_event e ∷ of_channels es

  unfoldable pub new_store_manager : Channels → ℕ → StoreManager V
  new_store_manager channels id = record {
    stores = [];
    sync_channels = [];
    channels = channels;
    next_id = id;
  }

  -- The result is the store that then has the name.
  unfoldable pub create_store : String → StoreManager V → StoreManager V × List (ManagerEffect V)
  create_store name m = if contains name m.stores then (m, []) else (
    record m {
      stores =
          insert name (record { store = (new_bus_store name false).0; sync_handler = none })
            m.stores;
    },
    store_created name ∷ [],
  )

  unfoldable pub get_store : String → StoreManager V → Option (BusStore V)
  get_store name m = elim (lookup name m.stores) [ none ↦ none | some w ↦ some w.store ]

  unfoldable pub destroy_store :
      String → StoreManager V → (StoreManager V × List (ManagerEffect V)) × Bool
  destroy_store name m = elim (lookup name m.stores) [
    | none ↦ ((m, []), false)
    | some w ↦
        let closed = close_sync w.sync_handler m.channels in
        (
          (
            record m { stores = delete name m.stores; channels = closed.0 },
            of_store (on_destroy w.store) ++ of_channels closed.1 ++ store_destroyed name ∷ [],
          ),
          true,
        )
  ]

  -- `answer` is what the connection's `Subscribe` returns, `none` for an error.
  unfoldable pub configure_store_sync_channel :
      String
      → ℕ
      → Option Subscription
      → String
      → String
      → StoreManager V
      → (StoreManager V × List (ManagerEffect V)) × Option ManagerError
  configure_store_sync_channel id conn answer topic publish m =
      if contains id m.sync_channels
      then ((m, []), some already_configured)
      else (let config = new_config id conn topic publish in
          let name = config.sync_channel_name in
          let made = create_channel name m.channels in
          let marked =
            (mark_channel_as_galactic name (String.◌++◌ config.topic_prefix name) (some conn) answer
              made.0).0 in
          (
            (
              record m { sync_channels = insert id config m.sync_channels; channels = marked.0 },
              of_channels (made.1 ++ marked.1),
            ),
            none,
          ))

  -- The galactic store that `newBusStore` makes: without its sync channel it has no handler.
  abbrev pub opened : String → StoreSyncChannelConfig → StoreManager V → ManagedStore V
  opened name config m = record {
    store = (new_bus_store name true).0;
    sync_handler =
        if contains config.sync_channel_name m.channels
        then some (config.sync_channel_name, m.next_id)
        else none;
  }

  -- Its handler subscribes and it asks for its content, if the sync channel is there.
  unfoldable pub open_new :
      String → StoreSyncChannelConfig → StoreManager V → StoreManager V × List (ManagerEffect V)
  open_new name config m =
      let listening = contains config.sync_channel_name m.channels in
      let joined =
        (subscribe_channel_handler config.sync_channel_name m.next_id false m.channels).0 in
      (
        record m {
          stores = insert name (opened name config m) m.stores;
          channels = joined.0;
          next_id = m.next_id + 1;
        },
        of_channels joined.1
            ++ of_store (if listening then (new_bus_store name true).1 else [])
            ++ store_created name ∷ [],
      )

  -- The result, beside the error, is the store that then has the name.
  unfoldable pub open_galactic_store :
      String
      → String
      → StoreManager V
      → (StoreManager V × List (ManagerEffect V)) × Option ManagerError
  unfolding open_new
  open_galactic_store name id m = elim (lookup id m.sync_channels) [
    | none ↦ ((m, []), some not_configured)
    | some config ↦ elim (lookup name m.stores) [
      | some w ↦ if w.store.is_galactic then ((m, []), none) else ((m, []), some local_store_exists)
      | none ↦ (open_new name config m, none)
    ]
  ]
