-- ===== src/Bus/Transaction/Deadlock.antt =====
-- `Commit` holds `tr.lock` while it starts requests, and the error path of a request that cannot
-- be started takes that lock again.
use transport_go.Prelude.{
  ℕ, suc, ◌≡◌, refl, ◌⊎◌, inl, inr, ◌≢◌, ◌||◌, Bool, true, false, not, Option, none, List, [], ◌∷◌,
  ◌++◌, ◌∙◌, arith, Bool-cases, str_eq, if◌then◌else◌,
}
use transport_go.Bus.Transaction.{
  BusView, BusTransaction, BusTransactionRequest, TransactionType, TransactionError,
  sync_transaction, async_transaction, uncommitted_state, Effect, sends, awaits, Outcome, done,
  deadlock, ◌>>=◌, execute_request, execute_all, on_transaction_error, commit, committed,
}
use transport_go.Bus.Transaction.Building.{IsIndexed, IsBuilding}
use transport_go.Bus.Transaction.Session.{executed, notices, executed-append, notices-append}

module _ {P : Type 0} where
  -- The store or the channel of the request is not there.
  abbrev pub cannot_start : BusView → BusTransactionRequest P → Bool
  cannot_start bus r =
      if str_eq r.store_name ""
      then not (bus.has_channel r.channel_name)
      else not (bus.has_store r.store_name)

  abbrev pub some_cannot_start : BusView → List (BusTransactionRequest P) → Bool
  some_cannot_start bus [] = false
  some_cannot_start bus (r ∷ rs) = cannot_start bus r || some_cannot_start bus rs

  -- What `Commit` starts: the first request, or all of them.
  abbrev pub commit_blocked : BusView → TransactionType → List (BusTransactionRequest P) → Bool
  commit_blocked bus t [] = false
  commit_blocked bus sync_transaction (r ∷ rs) = cannot_start bus r
  commit_blocked bus async_transaction (r ∷ rs) = some_cannot_start bus (r ∷ rs)

  abbrev pub upto : ℕ → List (BusTransactionRequest P) → List ℕ
  upto k [] = []
  upto k (r ∷ rs) = k ∷ upto (suc k) rs

  abbrev pub first_waiting : TransactionType → List (BusTransactionRequest P) → List ℕ
  first_waiting sync_transaction rs = 0 ∷ []
  first_waiting async_transaction rs = upto 0 rs

module _ {P M : Type 0} where
  -- The step returns with the transaction as it was, having started the requests `ws`.
  abbrev pub Starts :
      BusTransaction P M → List ℕ → Outcome (BusTransaction P M × List (Effect M)) → Type 0
  Starts tr ws r =
      (es : List (Effect M)) × (r ≡ done (tr, es)) × (executed es ≡ ws) × (notices es ≡ [])

  locked-Starts :
      (bus : BusView) (r : BusTransactionRequest P) (tr : BusTransaction P M)
      → cannot_start bus r ≡ false
      → Starts tr (r.request_index ∷ []) (execute_request true bus r tr)
  unfolding execute_request
  locked-Starts bus r tr h = elim (Bool-cases (str_eq r.store_name "")) [
    | inl named ↦ (sends r.request_index r.channel_name ∷ [], ground arith, refl, refl)
    | inr stored ↦ (awaits r.request_index r.store_name ∷ [], ground arith, refl, refl)
  ]

  locked-deadlock :
      (bus : BusView) (r : BusTransactionRequest P) (tr : BusTransaction P M)
      → cannot_start bus r ≡ true
      → execute_request true bus r tr ≡ deadlock
  unfolding execute_request on_transaction_error
  locked-deadlock bus r tr h = ground arith

  -- The loop of an async commit: all its requests are started, in order.
  execute_all-Starts :
      (bus : BusView) (k : ℕ) (rs : List (BusTransactionRequest P)) (tr : BusTransaction P M)
      → IsIndexed k rs
      → some_cannot_start bus rs ≡ false
      → Starts tr (upto k rs) (execute_all bus rs tr)
  unfolding execute_all
  execute_all-Starts bus k [] tr v h = ([], refl, refl, refl)
  execute_all-Starts bus k (r ∷ rs) tr v h =
      let (es, e, ex, quiet) = locked-Starts bus r tr (ground arith) in
      let (fs, f, fx, silent) = execute_all-Starts bus (suc k) rs tr v.1 (ground arith) in
      (
        es ++ fs,
        rw e (rw f),
        rw (executed-append es fs, ex, fx, v.0),
        rw (notices-append es fs, quiet, silent),
      )

  execute_all-deadlock :
      (bus : BusView) (rs : List (BusTransactionRequest P)) (tr : BusTransaction P M)
      → some_cannot_start bus rs ≡ true
      → execute_all bus rs tr ≡ deadlock
  unfolding execute_all
  execute_all-deadlock bus [] tr h = cc
  execute_all-deadlock bus (r ∷ rs) tr h = elim (Bool-cases (cannot_start bus r)) [
    | inl stuck ↦ rw (locked-deadlock bus r tr stuck)
    | inr free ↦
        let (es, e, _, _) = locked-Starts bus r tr free in
        rw e (rw (execute_all-deadlock bus rs tr (ground arith)))
  ]

  -- The part of `Commit` behind its checks.
  abbrev returning :
      Outcome (BusTransaction P M × List (Effect M))
      → Outcome (BusTransaction P M × List (Effect M) × Option TransactionError)
  returning m = m >>= λ (tr', es). done (tr', es, none)

  commit-sync :
      (bus : BusView) (tr : BusTransaction P M) (r : BusTransactionRequest P)
      (rs : List (BusTransactionRequest P))
      → tr.state ≡ uncommitted_state
      → tr.transaction_type ≡ sync_transaction
      → tr.requests ≡ r ∷ rs
      → commit bus tr ≡ returning (execute_request true bus r (committed tr))
  unfolding commit
  commit-sync bus tr r rs u t e = ground arith

  commit-async :
      (bus : BusView) (tr : BusTransaction P M) (r : BusTransactionRequest P)
      (rs : List (BusTransactionRequest P))
      → tr.state ≡ uncommitted_state
      → tr.transaction_type ≡ async_transaction
      → tr.requests ≡ r ∷ rs
      → commit bus tr ≡ returning (execute_all bus tr.requests (committed tr))
  unfolding commit
  commit-async bus tr r rs u t e = ground arith

  abbrev Decides : BusView → BusTransaction P M → Type 0
  Decides bus tr =
      ((commit_blocked bus tr.transaction_type tr.requests ≡ true) × (commit bus tr ≡ deadlock))
      ⊎ ((commit_blocked bus tr.transaction_type tr.requests ≡ false)
          × (es : List (Effect M)) × (commit bus tr ≡ done (committed tr, es, none))
          × (executed es ≡ first_waiting tr.transaction_type tr.requests)
          × (notices es ≡ []))

  decides :
      (bus : BusView) (tr : BusTransaction P M) (t : TransactionType)
      (rs : List (BusTransactionRequest P))
      → IsBuilding tr
      → tr.transaction_type ≡ t
      → tr.requests ≡ rs
      → rs ≢ []
      → Decides bus tr
  decides bus tr t [] v a e h = absurd (h refl)
  decides bus tr sync_transaction (r ∷ rs) v a e h = elim (Bool-cases (cannot_start bus r)) [
    | inl stuck ↦ inl (
      ground arith,
      commit-sync bus tr r rs v.open_state a e ∙ rw (locked-deadlock bus r (committed tr) stuck),
    )
    | inr free ↦
        let (es, f, x, quiet) = locked-Starts bus r (committed tr) free in
        inr (
          ground arith,
          es,
          commit-sync bus tr r rs v.open_state a e ∙ rw f,
          ground (arith, v.indexed),
          quiet,
        )
  ]
  decides bus tr async_transaction (r ∷ rs) v a e h =
      elim (Bool-cases (some_cannot_start bus tr.requests)) [
        | inl stuck ↦ inl (
          ground arith,
          commit-async bus tr r rs v.open_state a e
              ∙ rw (execute_all-deadlock bus tr.requests (committed tr) stuck),
        )
        | inr free ↦
            let (es, f, x, quiet) =
              execute_all-Starts bus 0 tr.requests (committed tr) v.indexed free in
            inr (
              ground arith,
              es,
              commit-async bus tr r rs v.open_state a e ∙ rw f,
              ground arith,
              quiet,
            )
      ]

  -- `Commit` of a transaction with requests deadlocks exactly if the store or the channel of a
  -- request that it starts is missing: of the first request (sync) or of any (async).
  -- Otherwise it returns no error, the transaction is committed with an empty answer for each
  -- request, the requests (the first, or all) are started in order, and no handler is called.
  pub commit-decides :
      (bus : BusView) (tr : BusTransaction P M)
      → IsBuilding tr
      → tr.requests ≢ []
      → ((commit_blocked bus tr.transaction_type tr.requests ≡ true) × (commit bus tr ≡ deadlock))
        ⊎ ((commit_blocked bus tr.transaction_type tr.requests ≡ false)
            × (es : List (Effect M)) × (commit bus tr ≡ done (committed tr, es, none))
            × (executed es ≡ first_waiting tr.transaction_type tr.requests)
            × (notices es ≡ []))
  commit-decides bus tr v h = decides bus tr tr.transaction_type tr.requests v refl refl h
