-- ===== src/Bus/Transaction/Session/Open.antt =====
-- The session that a successful `Commit` opens.
use transport_go.Prelude.{ℕ, zero, suc, ◌+◌, ◌≤◌, ◌<◌, ◌≡◌, ◌≢◌, refl, List, [], ◌∷◌, arith, ap}
use transport_go.Prelude.GoSlice.{length, count, replicate, length-replicate, length-zero}
use native.Mathlib.Decide.{ℕ_discrete}
use native.Mathlib.Nat.{zero-add}
use transport_go.Prelude.{Option, none, inl, inr, sym}
use transport_go.Bus.Transaction.{
  BusTransaction, BusTransactionRequest, sync_transaction, async_transaction, committed_state,
  committed,
}
use transport_go.Bus.Transaction.Building.{IsBuilding}
use transport_go.Bus.Transaction.Deadlock.{upto, first_waiting}
use transport_go.Bus.Transaction.Session.{Session}
use transport_go.Bus.Transaction.Session.Facts.{open_at, missing-replicate, open_at-replicate}
use transport_go.Bus.Transaction.Session.Running.{IsRunning, Phase-at, TransactionType-cases}

module _ {P : Type 0} where
  length-upto : (k : ℕ) (rs : List (BusTransactionRequest P)) → length (upto k rs) ≡ length rs
  length-upto k [] = refl
  length-upto k (r ∷ rs) = omega (arith, length-upto (suc k) rs)

  count-upto_below :
      (j k : ℕ) (rs : List (BusTransactionRequest P)) → j < k → count j (upto k rs) ≡ 0
  count-upto_below j k [] h = refl
  count-upto_below j k (r ∷ rs) h = ground (arith, count-upto_below j (suc k) rs)

  count-upto :
      (M : Type 0) (j k : ℕ) (rs : List (BusTransactionRequest P))
      → count (k + j) (upto k rs) ≤ open_at j (replicate {A = Option M} (length rs) none)
  count-upto M j k [] = omega arith
  count-upto M zero k (r ∷ rs) = ground (arith, count-upto_below (k + 0) (suc k) rs)
  count-upto M (suc j) k (r ∷ rs) =
      let e : k + suc j ≡ suc k + j = omega arith in
      ground (arith, ap (λ n. count n (upto (suc k) rs)) e, count-upto M j (suc k) rs)

module _ {P M : Type 0} where
  abbrev pub opened : BusTransaction P M → Session P M
  opened tr = record {
    transaction = committed tr;
    waiting = first_waiting tr.transaction_type tr.requests;
  }

  unanswered_opened :
      (tr : BusTransaction P M) (j : ℕ)
      → 0 < length tr.requests
      → count j (first_waiting tr.transaction_type tr.requests)
        ≤ open_at j (replicate {A = Option M} (length tr.requests) none)
  unanswered_opened tr j h = elim (TransactionType-cases tr.transaction_type) [
    | inl sync ↦ rw sync (ground (arith, open_at-replicate M j (length tr.requests)))
    | inr async ↦ rw async (
        omega (
          arith,
          ap (λ n. count n (upto 0 tr.requests)) (zero-add j),
          count-upto M j 0 tr.requests,
        ))
  ]

  pub opened-IsRunning :
      (tr : BusTransaction P M) → IsBuilding tr → tr.requests ≢ [] → IsRunning (opened tr)
  opened-IsRunning tr v h = record {
    indexed = v.indexed;
    sized = length-replicate (length tr.requests) none;
    accounted = ground (arith, missing-replicate M (length tr.requests), v.none_completed);
    unanswered = λ j. unanswered_opened tr j nonempty;
    phase = elim (TransactionType-cases tr.transaction_type) [
      | inl sync ↦
          Phase-at M _ _ _ _ {st = committed_state} {t = sync_transaction} refl (sym sync) (
            omega (arith, v.none_completed, nonempty),
            rw (sync, v.none_completed),
            λ j low high. open_at-replicate M j (length tr.requests) high,
          )
      | inr async ↦
          Phase-at M _ _ _ _ {st = committed_state} {t = async_transaction} refl (sym async) (
            omega (arith, v.none_completed, nonempty),
            rw async (omega (arith, v.none_completed, nonempty, length-upto 0 tr.requests)),
          )
    ];
  }
    where
      nonempty : 0 < length tr.requests
      nonempty = elim (ℕ_discrete (length tr.requests) 0) [
        | yes e ↦ absurd (h (length-zero tr.requests e))
        | no e ↦ omega arith
      ]
