-- ===== src/Bus/StoreSync/Examples.antt =====
-- Two clients with one store, and a replica of it.
use transport_go.Prelude.{
  ℕ, String, ◌≡◌, refl, true, false, none, some, List, [], ◌∷◌, arith, Option, leb, if◌then◌else◌,
}
use transport_go.Prelude.GoMap.{lookup, insert}
use transport_go.Stomp.Text.{has_prefix}
use transport_go.Bus.Store.{BusStore, new_bus_store, put}
use transport_go.Bus.Store.Replay
use transport_go.Bus.Store.Replay.{Operation, puts, removes}
use transport_go.Bus.StoreSync.{
  StoreRequest, new_store_sync_service, fabric_endpoint_subscribe, channel_destroyed,
}
use transport_go.Bus.StoreSync.Links.{IsLinked, is_heard, is_open}
use transport_go.Bus.StoreSync.History.{Event, monitors, opens, closes, step, run, run-IsLinked}
use transport_go.Bus.StoreSync.Replica.{content_of, responses, follow, seen, follow-content_of}

abbrev ask : String → StoreRequest ℕ
ask name = record { store_id = some name; item_id = none; new_item_value = none }

abbrev clients : List (Event ℕ)
clients =
    monitors true (fabric_endpoint_subscribe "transport-store-sync.1")
    ∷ monitors true (fabric_endpoint_subscribe "transport-store-sync.2")
    ∷ opens (λ _. true) "transport-store-sync.1" (ask "s")
    ∷ opens (λ _. true) "transport-store-sync.2" (ask "s")
    ∷ closes "transport-store-sync.1" (ask "s")
    ∷ opens (λ _. false) "transport-store-sync.1" (ask "t")
    ∷ monitors true (channel_destroyed "transport-store-sync.2")
    ∷ []

new_store_sync_service-IsLinked : IsLinked new_store_sync_service
unfolding new_store_sync_service is_heard is_open lookup
new_store_sync_service-IsLinked = record {
  linked = λ name store_id. refl;
  kept = λ store_id names found. absurd (ground (arith, found));
}

run-IsLinked_example : IsLinked (run ℕ clients new_store_sync_service).0
unfolding lookup step has_prefix new_store_sync_service insert
run-IsLinked_example =
    run-IsLinked ℕ clients new_store_sync_service (tt, (tt, (refl, (refl, (tt, (refl, (tt, tt)))))))
      new_store_sync_service-IsLinked

abbrev server : BusStore ℕ
server = (Replay.run (puts "a" 1 "new" ∷ puts "b" 2 "new" ∷ []) (new_bus_store "s" false).0).0

abbrev replica : BusStore ℕ
replica = (new_bus_store "s" true).0

-- Zero is written as null.
abbrev encode : ℕ → Option ℕ
encode n = if leb n 0 then none else some n

abbrev later : List (Operation ℕ)
later = removes "a" "gone" ∷ puts "b" 5 "new" ∷ puts "c" 0 "new" ∷ []

encode-round_trip : (v raw : ℕ) → encode v ≡ some raw → some raw ≡ some v
encode-round_trip v raw e = ground (arith, e)

follow-content_of_example :
    lookup "b"
      (follow encode 0
        (λ n. some n)
        (content_of encode 0 (λ n. some n) server
          ∷ responses encode 0 (λ n. some n) "s" (Replay.run later server).1)
        replica).items
    ≡ seen encode 0 (λ n. some n) (lookup "b" (Replay.run later server).0.items)
unfolding Replay.run put new_bus_store insert lookup
follow-content_of_example =
    follow-content_of encode 0 (λ n. some n) encode-round_trip later server replica "b" refl
      (refl, (refl, tt)) (refl, (refl, tt)) refl
