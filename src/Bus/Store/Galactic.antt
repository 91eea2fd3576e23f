-- ===== src/Bus/Store/Galactic.antt =====
-- The galactic branch of the operations of a store, and the answers of its broker.
use transport_go.Prelude.{
  ℕ, String, ◌≡◌, true, false, Option, none, some, [], ◌∷◌, arith, str_eq, ◌&&◌, Option-cases, inl,
  inr, eq_iff, if◌then◌else◌, is_some,
}
use transport_go.Prelude.GoMap.{GoMap, lookup, lookup-insert, lookup-delete}
use transport_go.Bus.Store.{
  populate_galactic, BusStore, update_store, put, remove, populate, put_internal, remove_internal,
  update_store_response, on_sync_response, update_version_from_response,
}

module _ {V : Type 0} where
  -- In a galactic store a put and a remove of an item that it has change nothing, and each sends
  -- the broker one update with the store's version; a remove of another item does nothing at all,
  -- and to populate is an error.
  galactic_requests :
      (id state : String) (value : V) (items : GoMap V) (s : BusStore V)
      → s.is_galactic ≡ true
      → (put id value state s ≡ (s, update_store id (some value) s.store_version ∷ []))
        × (remove id state s ≡ (
            if is_some (lookup id s.items)
            then ((s, update_store id none s.store_version ∷ []), true)
            else ((s, []), false)))
        × (populate items s ≡ ((s, []), some populate_galactic))
  unfolding put remove populate
  galactic_requests id state value items s h = (ground arith, ground arith, ground arith)

module _ {V R : Type 0} (deserialize_raw_value : R → Option V) where
  -- An update for this store sets the one item that it names, or deletes it where it has no new
  -- value; one whose value cannot be read, and one for another store, leave the items alone.
  pub on_sync_response-update :
      (store_id item_id id : String) (version : Option ℕ) (new_item : Option R) (s : BusStore V)
      → lookup id
          (on_sync_response deserialize_raw_value
            (update_store_response store_id version item_id new_item)
            s).0.items
        ≡ (if str_eq store_id s.name && str_eq item_id id
            then elim new_item [
              | none ↦ none
              | some raw ↦ elim (deserialize_raw_value raw) [
                | none ↦ lookup id s.items
                | some v ↦ some v
              ]
            ]
            else lookup id s.items)
  unfolding on_sync_response update_version_from_response put_internal remove_internal
  on_sync_response-update store_id item_id id version none s =
      ground (arith, eq_iff item_id id, lookup-delete item_id id s.items)
  on_sync_response-update store_id item_id id version (some raw) s =
      elim (Option-cases (deserialize_raw_value raw)) [
        | inl e ↦ rw e (ground arith)
        | inr (v, e) ↦ rw e (ground (arith, lookup-insert item_id id v s.items))
      ]
