-- ===== src/Bus/Transaction/Examples.antt =====
-- Concrete transactions.
use transport_go.Prelude.{ℕ, ◌≡◌, refl, ◌≢◌, ◌⊎◌, true, false, none, some, List, [], ◌∷◌}
use transport_go.Bus.Transaction.{
  BusView, BusTransaction, async_transaction, committed_state, completed_state, completes, Effect,
  commit, deadlock, new_bus_transaction, done, committed,
}
use transport_go.Bus.Transaction.Building.{
  sending, completing, failing, build, new-IsBuilding, IsBuilding, build-IsBuilding,
}
use transport_go.Bus.Transaction.Deadlock.{commit-decides, commit_blocked, first_waiting}
use transport_go.Prelude.GoSlice.{take_out}
use transport_go.Bus.Transaction.{execute_request, on_transaction_request_success}
use transport_go.Bus.Transaction.Session.{step, Session, Event, replied, run, notices, executed}
use transport_go.Bus.Transaction.Session.Open.{opened}
use transport_go.Bus.Transaction.Session.Notices.{run-Told, run-waits, Told}

abbrev everything : BusView
everything = record { has_store = λ _. true; has_channel = λ _. true }

abbrev nothing : BusView
nothing = record { has_store = λ _. false; has_channel = λ _. false }

-- Two requests, one complete handler, one error handler.
two_requests : BusTransaction ℕ ℕ
unfolding build new_bus_transaction
two_requests =
    (build (failing 8)
      (build (completing 7)
        (build (sending "b" 2)
          (build (sending "a" 1) (new_bus_transaction async_transaction)).0).0).0).0

two_requests-IsBuilding : IsBuilding two_requests
unfolding two_requests
two_requests-IsBuilding = build-IsBuilding (failing 8) _ (
    build-IsBuilding (completing 7) _ (
      build-IsBuilding (sending "b" 2) _
        (build-IsBuilding (sending "a" 1) _ (new-IsBuilding async_transaction))))

two_requests-nonempty : two_requests.requests ≢ []
unfolding two_requests
two_requests-nonempty e = cc e

commit-decides_example :
    ((commit_blocked nothing two_requests.transaction_type two_requests.requests ≡ true)
      × (commit nothing two_requests ≡ deadlock))
    ⊎ ((commit_blocked nothing two_requests.transaction_type two_requests.requests ≡ false)
        × (es : List (Effect ℕ)) × (commit nothing two_requests
            ≡ done (committed two_requests, es, none))
        × (executed es ≡ first_waiting two_requests.transaction_type two_requests.requests)
        × (notices es ≡ []))
commit-decides_example =
    commit-decides nothing two_requests two_requests-IsBuilding two_requests-nonempty

-- A channel that is not there: `Commit` never returns.
commit_without_channel : commit nothing two_requests ≡ deadlock
unfolding commit two_requests execute_request
commit_without_channel = refl

-- The replies come in the other order.
abbrev swapped : List (BusView × Event ℕ)
swapped = (everything, replied 1 20) ∷ (everything, replied 0 10) ∷ []

run-Told_example :
    (t : Session ℕ ℕ) × (es : List (Effect ℕ)) × (run swapped (opened two_requests) ≡ done (t, es))
    × Told two_requests committed_state t.transaction.state (notices es)
run-Told_example = run-Told two_requests swapped two_requests-IsBuilding two_requests-nonempty

-- Both answers stand at the index of their request.
completed_in_order :
    run swapped (opened two_requests)
    ≡ done (
      record {
        transaction = record (committed two_requests) {
          state = completed_state;
          responses = some 10 ∷ some 20 ∷ [];
          completed_requests = 2;
        };
        waiting = [];
      },
      completes 7 (some 10 ∷ some 20 ∷ []) ∷ [],
    )
unfolding run two_requests step take_out on_transaction_request_success
completed_in_order = refl

run-waits_example : ◌≢◌ {A = List ℕ} (0 ∷ []) []
unfolding run two_requests step take_out on_transaction_request_success
run-waits_example =
    run-waits two_requests ((everything, replied 1 20) ∷ []) two_requests-IsBuilding
      two_requests-nonempty refl refl
