-- ===== src/Bus/StoreManager/Examples.antt =====
-- A local and a galactic store, and a connection that was configured.
use transport_go.Prelude.{ℕ, ◌≡◌, refl, true, false, none, some, List, [], ◌∷◌}
use transport_go.Prelude.GoMap.{lookup, insert, delete}
use transport_go.Bus.Store.{new_bus_store}
use transport_go.Bus.StoreManager.{new_store_manager, get_store}
use transport_go.Bus.StoreManager.Kinds.{
  Call, creates, destroys, opens, configures, Kinds, expect_all, run, kind_of, Agree, run-Agree,
}

abbrev calls : List Call
calls =
    creates "users"
    ∷ configures "c1" 1 (some (record { id = 4; destination = "/topic/" })) "/topic" "/pub/"
    ∷ opens "items" "c1"
    ∷ opens "users" "c1"
    ∷ creates "items"
    ∷ destroys "users"
    ∷ opens "late" "c2"
    ∷ []

abbrev nothing : Kinds
nothing = record { kind = λ name. none; configured = λ id. false }

empty-Agree : Agree {V = ℕ} (new_store_manager [] 1) nothing
unfolding new_store_manager get_store lookup
empty-Agree = (λ name. refl, λ id. refl)

run-Agree_example : Agree {V = ℕ} (run calls (new_store_manager [] 1)) (expect_all calls nothing)
run-Agree_example = run-Agree calls (new_store_manager [] 1) nothing empty-Agree

items_is_galactic : kind_of "items" (run {V = ℕ} calls (new_store_manager [] 1)) ≡ some true
unfolding run get_store lookup new_store_manager insert new_bus_store delete
items_is_galactic = refl
