-- ===== src/Bus/StoreSync.antt =====
-- bus/store_sync_service.go: the service that keeps the galactic stores of clients in step with the
-- stores of this bus. A client is known by the name of its sync channel; `lock` makes each method
-- one step. What a method sends or calls on a store is a list of effects. Raw item values are of
-- any type `R`; `has_store` says which stores the store manager has.
pub mod Links
pub mod History
pub mod Replica
mod Examples
use transport_go.Prelude.{
  String, ◌≡◌, ◌||◌, not, Bool, true, false, Option, none, some, List, [], ◌∷◌, ◌++◌, ℕ, leb,
  str_eq, if◌then◌else◌,
}
use transport_go.Prelude.GoSlice.{length}
use transport_go.Prelude.GoMap.{GoMap, lookup, insert, delete, contains}
use transport_go.Stomp.Text.{has_prefix}
use transport_go.Bus.Store.{StoreChange, SyncResponse, update_store_response}

-- The sets of the code are maps to the one value. A client is its open stores, and a listener its
-- clients' channels.
abbrev pub Names : Type 0
Names = GoMap (Unit {0})

pub record StoreSyncService : Type 0 where
  pub sync_clients : GoMap Names
  pub sync_store_listeners : GoMap Names

unfoldable pub new_store_sync_service : StoreSyncService
new_store_sync_service = record { sync_clients = []; sync_store_listeners = [] }

pub data RequestError : Type 0 where
  invalid_open_request no_store_to_open invalid_close_request : RequestError
  missing_store_id missing_item_id no_store_to_update cannot_deserialize : RequestError

-- `sends_content` is the whole store, once it is ready.
pub data Effect (V : Type 0) : Type 0 where
  listens : String → Effect V
  sends_error : String → RequestError → Effect V
  sends_content : String → String → Effect V
  subscribes_stream unsubscribes_stream : String → Effect V
  puts : String → String → V → Effect V
  removes : String → String → Effect V

-- `none` is a property that is missing, nil or no text.
pub record StoreRequest (R : Type 0) : Type 0 where
  pub store_id : Option String
  pub item_id : Option String
  pub new_item_value : Option R

abbrev pub or_empty : Option Names → Names
or_empty none = []
or_empty (some names) = names

-- A property that is there and not empty.
abbrev pub given : Option String → Option String
given none = none
given (some s) = if str_eq s "" then none else some s

-- A change of the open stores of a client, which the service may have closed in the meantime.
unfoldable pub change_open : (Names → Names) → String → GoMap Names → GoMap Names
change_open change name clients = elim (lookup name clients) [
  | none ↦ clients
  | some open_stores ↦ insert name (change open_stores) clients
]

module _ {V : Type 0} where
  -- `has_channel` says whether `ListenRequestStream` finds the channel.
  unfoldable pub open_new_client_sync_channel :
      Bool → String → StoreSyncService → StoreSyncService × List (Effect V)
  open_new_client_sync_channel has_channel name s =
      if contains name s.sync_clients then (s, []) else (
        record s { sync_clients = insert name [] s.sync_clients },
        (if has_channel then listens name ∷ [] else []),
      )

  -- `removeChannel`, and the end of a listener that has no channels left.
  unfoldable pub leave_store : String → String → GoMap Names → GoMap Names × List (Effect V)
  leave_store name store_id listeners = elim (lookup store_id listeners) [
    | none ↦ (listeners, [])
    | some names ↦
        let left = delete name names in
        if leb (length left) 0
        then (delete store_id listeners, unsubscribes_stream store_id ∷ [])
        else (insert store_id left listeners, [])
  ]

  -- The loop of `closeClientSyncChannel` over the open stores of a client.
  unfoldable pub leave_stores : String → Names → GoMap Names → GoMap Names × List (Effect V)
  unfolding leave_store
  leave_stores name [] listeners = (listeners, [])
  leave_stores name ((store_id, _) ∷ stores) listeners =
      let first = leave_store name store_id listeners in
      let rest = leave_stores name stores first.0 in (rest.0, first.1 ++ rest.1)

  unfoldable pub close_client_sync_channel :
      String → StoreSyncService → StoreSyncService × List (Effect V)
  unfolding leave_stores
  close_client_sync_channel name s = elim (lookup name s.sync_clients) [
    | none ↦ (s, [])
    | some open_stores ↦
        let left = leave_stores name open_stores s.sync_store_listeners in
        (
          record s { sync_clients = delete name s.sync_clients; sync_store_listeners = left.0 },
          left.1,
        )
  ]

  -- `openStore` behind its tests.
  unfoldable pub join_store :
      String → String → StoreSyncService → StoreSyncService × List (Effect V)
  unfolding change_open
  join_store name store_id s = (
    record s {
      sync_clients = change_open (insert store_id tt) name s.sync_clients;
      sync_store_listeners =
          insert store_id (insert name tt (or_empty (lookup store_id s.sync_store_listeners)))
            s.sync_store_listeners;
    },
    (if contains store_id s.sync_store_listeners then [] else subscribes_stream store_id ∷ [])
        ++ sends_content name store_id ∷ [],
  )

  unfoldable pub open_store :
      {R : Type 0}
      → (String → Bool)
      → String
      → StoreRequest R
      → StoreSyncService
      → StoreSyncService × List (Effect V)
  unfolding join_store
  open_store has_store name request s = elim (given request.store_id) [
    | none ↦ (s, sends_error name invalid_open_request ∷ [])
    | some store_id ↦
        if has_store store_id
        then join_store name store_id s
        else (s, sends_error name no_store_to_open ∷ [])
  ]

  unfoldable pub close_store :
      {R : Type 0} → String → StoreRequest R → StoreSyncService → StoreSyncService × List (Effect V)
  unfolding change_open leave_store
  close_store name request s = elim (given request.store_id) [
    | none ↦ (s, sends_error name invalid_close_request ∷ [])
    | some store_id ↦
        let left = leave_store name store_id s.sync_store_listeners in
        (
          record s {
            sync_clients = change_open (delete store_id) name s.sync_clients;
            sync_store_listeners = left.0;
          },
          left.1,
        )
  ]

  -- `convert` is `model.ConvertValueToType` for the store's item type; `none` is its error, or nil.
  unfoldable pub update_store :
      {R : Type 0} → (R → Option V) → (String → Bool) → String → StoreRequest R → List (Effect V)
  update_store convert has_store name request = elim (given request.store_id) [
    | none ↦ sends_error name missing_store_id ∷ []
    | some store_id ↦ elim (given request.item_id) [
      | none ↦ sends_error name missing_item_id ∷ []
      | some item_id ↦
          if has_store store_id
          then elim request.new_item_value [
            | none ↦ removes store_id item_id ∷ []
            | some raw ↦ elim (convert raw) [
              | none ↦ sends_error name cannot_deserialize ∷ []
              | some v ↦ puts store_id item_id v ∷ []
            ]
          ]
          else sends_error name no_store_to_update ∷ []
    ]
  ]

-- The monitor events that the service listens to.
pub data MonitorEvent : Type 0 where
  fabric_endpoint_subscribe channel_destroyed : String → MonitorEvent

unfoldable pub on_monitor_event :
    {V : Type 0} → Bool → MonitorEvent → StoreSyncService → StoreSyncService × List (Effect V)
unfolding open_new_client_sync_channel close_client_sync_channel
on_monitor_event has_channel (fabric_endpoint_subscribe name) s =
    if has_prefix name "transport-store-sync."
    then open_new_client_sync_channel has_channel name s
    else (s, [])
on_monitor_event has_channel (channel_destroyed name) s =
    if has_prefix name "transport-store-sync." then close_client_sync_channel name s else (s, [])

-- What the listener of a store sends for a change: the response, to each of its channels.
-- `encode` is package json on an item value; `none` is null, as for a nil value, and then the
-- response has no new value, as for a removal.
module _ {V R : Type 0} (encode : V → Option R) where
  unfoldable pub response_of : String → StoreChange V → SyncResponse R
  response_of store_id change =
      update_store_response store_id (some change.store_version) change.id
        (if change.is_delete_change then none else encode change.value)

  unfoldable pub on_store_change : String → StoreChange V → Names → List (String × SyncResponse R)
  unfolding response_of
  on_store_change store_id change [] = []
  on_store_change store_id change ((name, _) ∷ names) =
      (name, response_of store_id change) ∷ on_store_change store_id change names
