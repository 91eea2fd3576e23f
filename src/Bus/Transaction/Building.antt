-- ===== src/Bus/Transaction/Building.antt =====
-- The methods that build a transaction before `Commit`.
use transport_go.Prelude.{
  ℕ, suc, false, ◌+◌, String, ◌≡◌, refl, inl, inr, Option, none, some, List, [], ◌∷◌, ◌++◌, arith,
  Bool-cases,
}
use transport_go.Prelude.GoSlice.{length}
use transport_go.Bus.Transaction.{
  BusView, BusTransaction, BusTransactionRequest, TransactionType, uncommitted_state,
  already_committed, is_uncommitted, new_bus_transaction, send_request_call, wait_for_store_ready,
  on_complete, on_error, Reply,
}

-- Each request carries its own position.
abbrev pub IsIndexed : {P : Type 0} → ℕ → List (BusTransactionRequest P) → Type 0
IsIndexed k [] = Unit
IsIndexed k (r ∷ rs) = (r.request_index ≡ k) × IsIndexed (suc k) rs

module _ {P : Type 0} where
  IsIndexed-append :
      (k : ℕ) (rs : List (BusTransactionRequest P)) (r : BusTransactionRequest P)
      → IsIndexed k rs
      → r.request_index ≡ k + length rs
      → IsIndexed k (rs ++ r ∷ [])
  IsIndexed-append k [] r h e = (omega arith, tt)
  IsIndexed-append k (x ∷ rs) r h e = (h.0, IsIndexed-append (suc k) rs r h.1 (omega arith))

  -- The request that a method appends.
  IsIndexed-append_end :
      (rs : List (BusTransactionRequest P)) (store channel : String) (payload : Option P)
      → IsIndexed 0 rs
      → IsIndexed 0 (
          rs
          ++ record {
            request_index = length rs;
            store_name = store;
            channel_name = channel;
            payload = payload;
          }
            ∷ [])
  IsIndexed-append_end rs store channel payload h = IsIndexed-append 0 rs _ h (omega arith)

-- A transaction that is not committed.
pub record IsBuilding {P M : Type 0} (tr : BusTransaction P M) : Type 0 where
  pub open_state : tr.state ≡ uncommitted_state
  pub indexed : IsIndexed 0 tr.requests
  pub none_completed : tr.completed_requests ≡ 0

pub data Build (P : Type 0) : Type 0 where
  sending : String → P → Build P
  awaiting : BusView → String → Build P
  completing : ℕ → Build P
  failing : ℕ → Build P

module _ {P M : Type 0} where
  unfoldable pub build : Build P → BusTransaction P M → Reply P M
  unfolding send_request_call wait_for_store_ready on_complete on_error
  build (sending channel payload) = send_request_call channel payload
  build (awaiting bus name) = wait_for_store_ready bus name
  build (completing h) = on_complete h
  build (failing h) = on_error h

  pub new-IsBuilding : (t : TransactionType) → IsBuilding (new_bus_transaction {P = P} {M = M} t)
  unfolding new_bus_transaction
  new-IsBuilding t = record { open_state = refl; indexed = tt; none_completed = refl }

  -- Every method keeps an uncommitted transaction uncommitted, with its requests numbered by
  -- their positions.
  pub build-IsBuilding :
      (b : Build P) (tr : BusTransaction P M) → IsBuilding tr → IsBuilding (build b tr).0
  unfolding build
  build-IsBuilding (sending channel payload) tr v =
      ground (arith, IsIndexed-append_end tr.requests "" channel (some payload))
  build-IsBuilding (awaiting bus name) tr v = elim (Bool-cases (bus.has_store name)) [
    | inl found ↦ ground (arith, IsIndexed-append_end tr.requests name "" none)
    | inr lost ↦ ground arith
  ]
  build-IsBuilding (completing h) tr v = ground arith
  build-IsBuilding (failing h) tr v = ground arith

  -- Once a transaction has left the uncommitted state, each method returns the error and changes
  -- nothing.
  build-already_committed :
      (b : Build P) (tr : BusTransaction P M)
      → is_uncommitted tr.state ≡ false
      → build b tr ≡ (tr, some already_committed)
  unfolding build
  build-already_committed (sending channel payload) tr h = ground arith
  build-already_committed _ tr h = ground arith
