-- ===== src/Bus/Store.antt =====
-- bus/store.go: a `busStore`.
-- An item value is of any type `V`. States and request types, which are only compared, are texts;
-- streams and handlers are named by numbers. The locks make each method one step. `store_version`
-- is an int64, as a bit pattern. Effects are what a method starts or sends, in order.
pub mod Streams
pub mod Replay
pub mod Galactic
pub mod Registration
mod Examples
use transport_go.Prelude.{
  ℕ, zero, suc, ◌+◌, ◌-◌, String, ◌&&◌, ◌||◌, not, Bool, true, false, Option, none, some, List, [],
  ◌∷◌, ◌++◌, ltb, leb, ◌==◌, str_eq, if◌then◌else◌, is_some,
}
use transport_go.Prelude.GoSlice.{length, get_elem?, set?}
use transport_go.Prelude.GoMap.{GoMap, lookup, insert, delete}
use transport_go.Prelude.Int64.{add64}
use transport_go.Bus.Channel.{take}

pub record StoreChange (V : Type 0) : Type 0 where
  pub id : String
  pub value : V
  pub state : String
  pub is_delete_change : Bool
  pub store_version : ℕ

pub record BusStore (V : Type 0) : Type 0 where
  pub name : String
  pub items : GoMap V
  pub store_version : ℕ
  pub store_streams : List ℕ
  pub mutation_streams : List ℕ
  -- `readyC` is closed, by `initializer`
  pub ready : Bool
  pub is_galactic : Bool

-- `update_store item value version` is the request of that name; no value asks for a removal.
pub data Effect (V : Type 0) : Type 0 where
  changes : StoreChange V → Effect V
  sends_initialized : String → Effect V
  open_store close_store : String → Effect V
  update_store : String → Option V → ℕ → Effect V

pub data StoreError : Type 0 where
  populate_galactic already_initialized : StoreError

module _ {V : Type 0} where
  unfoldable pub init_store : BusStore V → BusStore V
  init_store s = record s {
    items = [];
    store_version = 1;
    store_streams = [];
    mutation_streams = [];
    ready = false;
  }

  unfoldable pub new_bus_store : String → Bool → BusStore V × List (Effect V)
  new_bus_store name galactic = (
    record {
      name = name;
      items = [];
      store_version = 1;
      store_streams = [];
      mutation_streams = [];
      ready = false;
      is_galactic = galactic;
    },
    (if galactic then open_store name ∷ [] else []),
  )

  unfoldable pub initialize : BusStore V → BusStore V × List (Effect V)
  initialize s =
      if s.ready then (s, []) else (record s { ready = true }, sends_initialized s.name ∷ [])

  -- The loop over the new items.
  unfoldable pub insert_all : GoMap V → GoMap V → GoMap V
  insert_all [] m = m
  insert_all ((k, v) ∷ items) m = insert_all items (insert k v m)

  unfoldable pub populate :
      GoMap V → BusStore V → (BusStore V × List (Effect V)) × Option StoreError
  unfolding insert_all initialize
  populate items s =
      if s.is_galactic
      then ((s, []), some populate_galactic)
      else if ltb 0 (length s.items)
      then ((s, []), some already_initialized)
      else (initialize (record s { items = insert_all items s.items }), none)

  -- `storeVersion++` of a store that is not galactic.
  abbrev pub next_version : BusStore V → ℕ
  next_version s = if s.is_galactic then s.store_version else add64 s.store_version 1

  unfoldable pub put_internal : String → V → String → BusStore V → BusStore V × List (Effect V)
  put_internal id value state s = (
    record s { store_version = next_version s; items = insert id value s.items },
    changes (record {
      id = id;
      value = value;
      state = state;
      is_delete_change = false;
      store_version = next_version s;
    })
        ∷ [],
  )

  unfoldable pub put : String → V → String → BusStore V → BusStore V × List (Effect V)
  unfolding put_internal
  put id value state s =
      if s.is_galactic
      then (s, update_store id (some value) s.store_version ∷ [])
      else put_internal id value state s

  unfoldable pub get : String → BusStore V → Option V
  get id s = lookup id s.items

  unfoldable pub remove_internal :
      String → String → BusStore V → (BusStore V × List (Effect V)) × Bool
  remove_internal id state s = elim (lookup id s.items) [
    | none ↦ ((s, []), false)
    | some value ↦ (
      (
        record s { store_version = next_version s; items = delete id s.items },
        changes (record {
          id = id;
          value = value;
          state = state;
          is_delete_change = true;
          store_version = next_version s;
        })
            ∷ [],
      ),
      true,
    )
  ]

  unfoldable pub remove : String → String → BusStore V → (BusStore V × List (Effect V)) × Bool
  unfolding remove_internal
  remove id state s =
      if s.is_galactic
      then if is_some (lookup id s.items)
        then ((s, update_store id none s.store_version ∷ []), true)
        else ((s, []), false)
      else remove_internal id state s

  abbrev pub all_values_and_version : BusStore V → GoMap V × ℕ
  all_values_and_version s = (s.items, s.store_version)

  abbrev pub all_values : GoMap V → List V
  all_values [] = []
  all_values ((k, v) ∷ m) = v ∷ all_values m

  unfoldable pub reset : BusStore V → BusStore V × List (Effect V)
  unfolding init_store
  reset s = (init_store s, (if s.is_galactic then open_store s.name ∷ [] else []))

  unfoldable pub on_destroy : BusStore V → List (Effect V)
  on_destroy s = if s.is_galactic then close_store s.name ∷ [] else []

-- A response on the sync channel: its store, its version where that is a number, and either all
-- the items or one item with its new value, if any.
pub data SyncResponse (R : Type 0) : Type 0 where
  store_content_response : String → Option ℕ → GoMap R → SyncResponse R
  update_store_response : String → Option ℕ → String → Option R → SyncResponse R

module _ {V R : Type 0} (deserialize_raw_value : R → Option V) where
  unfoldable pub update_version_from_response : Option ℕ → BusStore V → BusStore V
  update_version_from_response none s = record s { store_version = 1 }
  update_version_from_response (some version) s = record s { store_version = version }

  -- The items that can be read; the others are left out.
  unfoldable pub deserialize_items : GoMap R → GoMap V → GoMap V
  deserialize_items [] m = m
  deserialize_items ((k, raw) ∷ items) m = elim (deserialize_raw_value raw) [
    | none ↦ deserialize_items items m
    | some v ↦ deserialize_items items (insert k v m)
  ]

  -- The handler of the sync channel in `initGalacticStore`.
  unfoldable pub on_sync_response : SyncResponse R → BusStore V → BusStore V × List (Effect V)
  unfolding update_version_from_response deserialize_items initialize remove_internal put_internal
  on_sync_response (store_content_response store_id version items) s =
      if str_eq store_id s.name
      then initialize
          (record (update_version_from_response version s) { items = deserialize_items items [] })
      else (s, [])
  on_sync_response (update_store_response store_id version item_id new_item) s =
      if str_eq store_id s.name
      then (let t = update_version_from_response version s in
          elim new_item [
            | none ↦ (remove_internal item_id "galacticSyncRemove" t).0
            | some raw ↦ elim (deserialize_raw_value raw) [
              | none ↦ (t, [])
              | some v ↦ put_internal item_id v "galacticSyncUpdate" t
            ]
          ])
      else (s, [])
