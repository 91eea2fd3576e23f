-- ===== src/Bus/StoreSync/Links.antt =====
-- The open stores of the clients against the channels of the store listeners.
use transport_go.Prelude.{
  String, ◌≡◌, ◌&&◌, Bool, true, false, some, [], ◌∷◌, leb, arith, str_eq, eq_iff, if◌then◌else◌,
  Option-cases, inl, inr,
}
use transport_go.Prelude.GoSlice.{length}
use transport_go.Prelude.GoMap.{
  GoMap, lookup, insert, delete, contains, lookup-insert, lookup-delete, contains_none, insert-some,
}
use transport_go.Bus.StoreSync.{
  Names, StoreSyncService, or_empty, open_new_client_sync_channel, leave_store, leave_stores,
  close_client_sync_channel, change_open, join_store,
}

unfoldable pub is_open : String → String → StoreSyncService → Bool
is_open name store_id s = contains store_id (or_empty (lookup name s.sync_clients))

unfoldable pub is_heard : String → String → GoMap Names → Bool
is_heard name store_id listeners = contains name (or_empty (lookup store_id listeners))

-- A store is open for a client exactly if the store's listener has the client's channel, and no
-- listener is without channels.
pub record IsLinked (s : StoreSyncService) : Type 0 where
  pub linked :
      (name store_id : String)
      → is_heard name store_id s.sync_store_listeners ≡ is_open name store_id s
  pub kept :
      (store_id : String) (names : Names)
      → lookup store_id s.sync_store_listeners ≡ some names
      → leb (length names) 0 ≡ false

module _ (V : Type 0) where
  leave_store-is_heard :
      (gone at name store_id : String) (listeners : GoMap Names)
      → is_heard name store_id (leave_store {V = V} gone at listeners).0 ≡ (
          if str_eq at store_id && str_eq gone name
          then false
          else is_heard name store_id listeners)
  unfolding is_heard leave_store lookup
  leave_store-is_heard gone at name store_id listeners = elim (Option-cases (lookup at listeners)) [
    | inl e ↦ ground (arith, e, eq_iff at store_id)
    | inr (names, e) ↦ ground (
      arith,
      e,
      eq_iff at store_id,
      eq_iff gone name,
      contains_none name (delete gone names),
      lookup-delete {0} gone name names,
      lookup-delete at store_id listeners,
      lookup-insert at store_id (delete gone names) listeners,
    )
  ]

  leave_store-kept :
      (gone at store_id : String) (names : Names) (listeners : GoMap Names)
      → (lookup store_id listeners ≡ some names → leb (length names) 0 ≡ false)
      → lookup store_id (leave_store {V = V} gone at listeners).0 ≡ some names
      → leb (length names) 0 ≡ false
  unfolding leave_store
  leave_store-kept gone at store_id names listeners k found =
      elim (Option-cases (lookup at listeners)) [
        | inl e ↦ ground (arith, e, found)
        | inr (old, e) ↦ ground (
          arith,
          e,
          found,
          lookup-delete at store_id listeners,
          lookup-insert at store_id (delete gone old) listeners,
        )
      ]

  leave_stores-is_heard :
      (gone name store_id : String) (stores : Names) (listeners : GoMap Names)
      → is_heard name store_id (leave_stores {V = V} gone stores listeners).0 ≡ (
          if str_eq gone name && contains store_id stores
          then false
          else is_heard name store_id listeners)
  unfolding leave_stores lookup
  leave_stores-is_heard gone name store_id [] listeners = ground arith
  leave_stores-is_heard gone name store_id ((at, u) ∷ stores) listeners = ground (
    arith,
    leave_store-is_heard gone at name store_id listeners,
    leave_stores-is_heard gone name store_id stores (leave_store {V = V} gone at listeners).0,
  )

  leave_stores-kept :
      (gone store_id : String) (names : Names) (stores : Names) (listeners : GoMap Names)
      → (lookup store_id listeners ≡ some names → leb (length names) 0 ≡ false)
      → lookup store_id (leave_stores {V = V} gone stores listeners).0 ≡ some names
      → leb (length names) 0 ≡ false
  unfolding leave_stores
  leave_stores-kept gone store_id names [] listeners k found = k found
  leave_stores-kept gone store_id names ((at, u) ∷ stores) listeners k found =
      leave_stores-kept gone store_id names stores (leave_store {V = V} gone at listeners).0
        (leave_store-kept gone at store_id names listeners k) found

  pub open_new_client_sync_channel-IsLinked :
      (has_channel : Bool) (new : String) (s : StoreSyncService)
      → IsLinked s
      → IsLinked (open_new_client_sync_channel {V = V} has_channel new s).0
  unfolding open_new_client_sync_channel is_open lookup
  open_new_client_sync_channel-IsLinked has_channel new s v = record {
    linked = λ name store_id.
        ground (
          arith,
          v.linked name store_id,
          eq_iff new name,
          lookup-insert new name [] s.sync_clients,
        );
    kept = λ store_id names found. ground (arith, found, v.kept store_id names);
  }

  pub close_client_sync_channel-IsLinked :
      (gone : String) (s : StoreSyncService)
      → IsLinked s
      → IsLinked (close_client_sync_channel {V = V} gone s).0
  unfolding close_client_sync_channel is_open lookup
  close_client_sync_channel-IsLinked gone s v = elim (Option-cases (lookup gone s.sync_clients)) [
    | inl e ↦ record {
      linked = λ name store_id. ground (arith, e, v.linked name store_id);
      kept = λ store_id names found. ground (arith, e, found, v.kept store_id names);
    }
    | inr (stores, e) ↦ record {
      linked = λ name store_id. ground (
        arith,
        e,
        v.linked name store_id,
        eq_iff gone name,
        lookup-delete gone name s.sync_clients,
        leave_stores-is_heard gone name store_id stores s.sync_store_listeners,
      );
      kept = λ store_id names found.
          leave_stores-kept gone store_id names stores s.sync_store_listeners
            (v.kept store_id names) (ground (arith, e, found));
    }
  ]

  pub join_store-IsLinked :
      (joins at : String) (s : StoreSyncService)
      → contains joins s.sync_clients ≡ true
      → IsLinked s
      → IsLinked (join_store {V = V} joins at s).0
  unfolding join_store change_open is_open is_heard
  join_store-IsLinked joins at s live v = elim (Option-cases (lookup joins s.sync_clients)) [
    | inl e ↦ absurd (ground (arith, e, live))
    | inr (stores, e) ↦
        let heard = or_empty (lookup at s.sync_store_listeners) in
        record {
          linked = λ name store_id. ground (
            arith,
            e,
            v.linked name store_id,
            eq_iff joins name,
            eq_iff at store_id,
            lookup-insert joins name (insert at tt stores) s.sync_clients,
            lookup-insert {0} at store_id tt stores,
            lookup-insert at store_id (insert joins tt heard) s.sync_store_listeners,
            lookup-insert {0} joins name tt heard,
          );
          kept = λ store_id names found. ground (
            arith,
            found,
            v.kept store_id names,
            insert-some {V = Unit {0}} joins tt heard,
            lookup-insert at store_id (insert joins tt heard) s.sync_store_listeners,
          );
        }
  ]

  pub close_store-IsLinked :
      (leaves at : String) (s : StoreSyncService)
      → IsLinked s
      → IsLinked (record s {
        sync_clients = change_open (delete at) leaves s.sync_clients;
        sync_store_listeners = (leave_store {V = V} leaves at s.sync_store_listeners).0;
      })
  unfolding change_open is_open lookup
  close_store-IsLinked leaves at s v = record {
    linked = λ name store_id. elim (Option-cases (lookup leaves s.sync_clients)) [
      | inl e ↦ ground (
        arith,
        e,
        v.linked name store_id,
        eq_iff leaves name,
        leave_store-is_heard leaves at name store_id s.sync_store_listeners,
      )
      | inr (stores, e) ↦ ground (
        arith,
        e,
        v.linked name store_id,
        eq_iff leaves name,
        lookup-insert leaves name (delete at stores) s.sync_clients,
        lookup-delete {0} at store_id stores,
        leave_store-is_heard leaves at name store_id s.sync_store_listeners,
      )
    ];
    kept = λ store_id names found.
        leave_store-kept leaves at store_id names s.sync_store_listeners (v.kept store_id names)
          found;
  }
