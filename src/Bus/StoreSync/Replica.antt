-- ===== src/Bus/StoreSync/Replica.antt =====
-- A store of this bus, the service's responses, and the galactic store of a client that takes them.
use transport_go.Prelude.{
  String, ◌≡◌, refl, sym, ap, ◌∙◌, false, Option, none, some, List, [], ◌∷◌, arith, str_eq, eq_iff,
  if◌then◌else◌, true, is_some, Option-cases, inl, inr,
}
use transport_go.Prelude.GoMap.{GoMap, lookup, insert, lookup-insert, HasOneEach}
use transport_go.Bus.Store.{
  BusStore, StoreChange, Effect, changes, sends_initialized, open_store, close_store, update_store,
  SyncResponse, store_content_response, on_sync_response, deserialize_items, initialize,
  update_version_from_response, put_internal, remove_internal,
}
use transport_go.Bus.Store.Replay
use transport_go.Bus.Store.Replay.{Operation, replay, run-replay_changes}
use transport_go.Bus.Store.Galactic.{on_sync_response-update}
use transport_go.Bus.StoreSync.{response_of}

-- `null` is the raw value of a nil item in the content of a store.
module _ {V R : Type 0} (encode : V → Option R) (null : R) (decode : R → Option V) where
  abbrev pub encode_items : GoMap V → GoMap R
  encode_items [] = []
  encode_items ((key, v) ∷ m) =
      (key, (elim (encode v) [ none ↦ null | some raw ↦ raw ])) ∷ encode_items m

  -- The content of a store, as the service sends it once it is ready.
  abbrev pub content_of : BusStore V → SyncResponse R
  content_of s = store_content_response s.name (some s.store_version) (encode_items s.items)

  -- The responses for the changes among what a store started.
  unfoldable pub responses : String → List (Effect V) → List (SyncResponse R)
  responses name [] = []
  responses name (changes c ∷ es) = response_of encode name c ∷ responses name es
  responses name (_ ∷ es) = responses name es

  -- A client's store that takes responses in their order.
  unfoldable pub follow : List (SyncResponse R) → BusStore V → BusStore V
  follow [] c = c
  follow (r ∷ rs) c = follow rs (on_sync_response decode r c).0

  -- No item is nil.
  abbrev pub HasNoNil : GoMap V → Type 0
  HasNoNil [] = Unit
  HasNoNil ((key, v) ∷ m) = (is_some (encode v) ≡ true) × HasNoNil m

  -- An item as clients can have it: they never learn of a nil value.
  abbrev pub seen : Option V → Option V
  seen none = none
  seen (some v) = elim (encode v) [ none ↦ none | some raw ↦ some v ]

  module _ (round_trip : (v : V) (raw : R) → encode v ≡ some raw → decode raw ≡ some v) where
    deserialize_items-lookup :
        (id : String) (items acc : GoMap V)
        → HasOneEach items
        → HasNoNil items
        → lookup id (deserialize_items decode (encode_items items) acc)
          ≡ elim (lookup id items) [ none ↦ lookup id acc | some v ↦ seen (some v) ]
    unfolding deserialize_items lookup
    deserialize_items-lookup id [] acc u full = refl
    deserialize_items-lookup id ((key, v) ∷ items) acc u full = elim (Option-cases (encode v)) [
      | inl n ↦ absurd (ground (arith, n, full.0))
      | inr (raw, e) ↦ ground (
        arith,
        e,
        round_trip v raw e,
        u.0,
        eq_iff key id,
        lookup-insert key id v acc,
        deserialize_items-lookup id items (insert key v acc) u.1 full.1,
      )
    ]

    response_of-items :
        (change : StoreChange V) (c : BusStore V) (id : String)
        → lookup id (on_sync_response decode (response_of encode c.name change) c).0.items ≡ (
            if str_eq change.id id
            then (if change.is_delete_change then none else seen (some change.value))
            else lookup id c.items)
    unfolding response_of
    response_of-items change c id =
        let update =
          on_sync_response-update decode c.name change.id id (some change.store_version)
            (if change.is_delete_change then none else encode change.value) c in
        elim (Option-cases (encode change.value)) [
          | inl n ↦ ground (arith, eq_iff c.name c.name, n, update)
          | inr (raw, e) ↦
              ground (arith, eq_iff c.name c.name, e, round_trip change.value raw e, update)
        ]

    response_of-name :
        (change : StoreChange V) (c : BusStore V)
        → (on_sync_response decode (response_of encode c.name change) c).0.name ≡ c.name
    unfolding response_of on_sync_response update_version_from_response put_internal remove_internal
    response_of-name change c = elim (Option-cases (encode change.value)) [
      | inl n ↦ ground (arith, eq_iff c.name c.name, n)
      | inr (raw, e) ↦ ground (arith, eq_iff c.name c.name, e, round_trip change.value raw e)
    ]

    follow-responses :
        (es : List (Effect V)) (c : BusStore V) (id : String) (old : Option V)
        → lookup id c.items ≡ seen old
        → lookup id (follow (responses c.name es) c).items ≡ seen (replay es id old)
    unfolding follow responses replay
    follow-responses [] c id old e = e
    follow-responses (sends_initialized d ∷ es) c id old e = follow-responses es c id old e
    follow-responses (open_store d ∷ es) c id old e = follow-responses es c id old e
    follow-responses (close_store d ∷ es) c id old e = follow-responses es c id old e
    follow-responses (update_store d v w ∷ es) c id old e = follow-responses es c id old e
    follow-responses (changes change ∷ es) c id old e =
        let next = (on_sync_response decode (response_of encode c.name change) c).0 in
        let known =
          if str_eq change.id id
          then (if change.is_delete_change then none else some change.value)
          else old in
        ap (λ n. lookup id (follow (responses n es) next).items) (sym (response_of-name change c))
        ∙ follow-responses es next id known (ground (arith, e, response_of-items change c id))

    content_of-items :
        (s c : BusStore V) (id : String)
        → HasOneEach s.items
        → HasNoNil s.items
        → c.name ≡ s.name
        → lookup id (on_sync_response decode (content_of s) c).0.items ≡ seen (lookup id s.items)
    unfolding on_sync_response update_version_from_response initialize lookup
    content_of-items s c id u full n = elim (Option-cases (lookup id s.items)) [
      | inl e ↦
          ground (arith, n, e, eq_iff s.name c.name, deserialize_items-lookup id s.items [] u full)
      | inr (v, e) ↦
          ground (arith, n, e, eq_iff s.name c.name, deserialize_items-lookup id s.items [] u full)
    ]

    content_of-name :
        (s c : BusStore V) → (on_sync_response decode (content_of s) c).0.name ≡ c.name
    unfolding on_sync_response update_version_from_response initialize
    content_of-name s c = ground arith

    -- A client's galactic store that takes the content of a local store of the same name, which has
    -- no nil item, and then the responses for its later changes, in their order, holds for each id
    -- what the local store holds after any calls of `Put`, `Remove` and `Initialize`, but no item
    -- where the local store has a nil value. (Item values come back from JSON as they were.)
    pub follow-content_of :
        (os : List (Operation V)) (s c : BusStore V) (id : String)
        → s.is_galactic ≡ false
        → HasOneEach s.items
        → HasNoNil s.items
        → c.name ≡ s.name
        → lookup id (follow (content_of s ∷ responses s.name (Replay.run os s).1) c).items
          ≡ seen (lookup id (Replay.run os s).0.items)
    unfolding follow
    follow-content_of os s c id l u full n =
        let es = (Replay.run os s).1 in
        let next = (on_sync_response decode (content_of s) c).0 in
        ap (λ n. lookup id (follow (responses n es) next).items) (sym (content_of-name s c ∙ n))
        ∙ follow-responses es next id (lookup id s.items) (content_of-items s c id u full n)
        ∙ ap (λ found. seen found) (sym (run-replay_changes os s id l))
