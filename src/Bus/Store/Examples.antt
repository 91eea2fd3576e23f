-- ===== src/Bus/Store/Examples.antt =====
-- Stores with a few items, and two streams.
use transport_go.Prelude.{ℕ, ◌≡◌, refl, true, false, none, some, List, [], ◌∷◌, arith}
use transport_go.Prelude.GoMap.{lookup}
use transport_go.Bus.Store.{BusStore, new_bus_store}
use transport_go.Bus.Store.Streams.{Streams}
use transport_go.Bus.Store.Replay.{
  Operation, puts, removes, initializes, run, replay, run-replay_changes,
}
use transport_go.Bus.Store.Registration.{
  Call, subscribes, registers, unsubscribes, unregisters, IsApart, IsRegistered, run-IsRegistered,
}
use transport_go.Bus.Store.Registration

abbrev local : BusStore ℕ
local = (new_bus_store "local" false).0

abbrev galactic : BusStore ℕ
galactic = (new_bus_store "galactic" true).0

abbrev operations : List (Operation ℕ)
operations =
    puts "a" 1 "new"
    ∷ puts "b" 2 "new"
    ∷ removes "a" "gone"
    ∷ initializes
    ∷ removes "a" "gone"
    ∷ puts "b" 3 "new"
    ∷ []

run-replay_changes_example :
    lookup "b" (run operations local).0.items
    ≡ replay (run operations local).1 "b" (lookup "b" local.items)
unfolding new_bus_store
run-replay_changes_example = run-replay_changes operations local "b" refl

abbrev streams : Streams
streams = record {
  store_streams = [];
  stream = λ i. record {
    handler = none;
    filter = record { states = []; item_id = "a"; match_all_items = false };
  };
  registering = λ i. 0;
  unregistering = λ i. 0;
}

abbrev calls : List Call
calls =
    subscribes 1 (some 11)
    ∷ subscribes 2 (some 12)
    ∷ registers 2
    ∷ registers 1
    ∷ subscribes 1 (some 13)
    ∷ unsubscribes 1
    ∷ subscribes 3 none
    ∷ unregisters 1
    ∷ []

streams-IsRegistered : IsRegistered streams
streams-IsRegistered j = (refl, omega arith)

run-IsRegistered_example : IsRegistered (Registration.run calls streams).0
unfolding IsApart
run-IsRegistered_example =
    run-IsRegistered calls streams (refl, (refl, (tt, (tt, (refl, (refl, (refl, (tt, tt))))))))
      streams-IsRegistered

-- `Unsubscribe` overtakes `Subscribe` on one stream: the stream stays in the slice without a handler.
overtaken :
    (Registration.run
      (subscribes 1 (some 11) ∷ unsubscribes 1 ∷ unregisters 1 ∷ registers 1 ∷ [])
      streams).0.store_streams
    ≡ 1 ∷ []
unfolding Registration.run
overtaken = refl
