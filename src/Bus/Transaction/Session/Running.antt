-- ===== src/Bus/Transaction/Session/Running.antt =====
-- What holds of a committed transaction between two events.
use mathlib.Core.Path.{subst₂}
use transport_go.Prelude.{
  ℕ, zero, suc, ◌+◌, ◌≤◌, ◌<◌, ◌≡◌, refl, ◌⊎◌, inl, inr, false, Option, some, List, [], ◌∷◌, map,
  arith, Bool-cases, str_eq,
}
use transport_go.Prelude.GoSlice.{length, get_elem?, count}
use transport_go.Bus.Transaction.{
  channel_not_found, store_not_found, BusView, BusTransaction, BusTransactionRequest,
  TransactionType, TransactionState, TransactionError, uncommitted_state, committed_state,
  completed_state, aborted_state, sync_transaction, async_transaction, Effect, sends, awaits,
  completes, fails, Outcome, done, execute_request, on_transaction_error,
}
use transport_go.Bus.Transaction.Building.{IsIndexed}
use transport_go.Bus.Transaction.Session.{Session, executed, notices}
use transport_go.Bus.Transaction.Session.Facts.{open_at, missing}

module _ {P : Type 0} where
  pub IsIndexed-get_elem? :
      (k i : ℕ) (rs : List (BusTransactionRequest P)) (r : BusTransactionRequest P)
      → IsIndexed k rs
      → get_elem? rs i ≡ some r
      → r.request_index ≡ k + i
  IsIndexed-get_elem? k i [] r h e = ground arith
  IsIndexed-get_elem? k zero (x ∷ rs) r h e = ground arith
  IsIndexed-get_elem? k (suc i) (x ∷ rs) r h e =
      omega (arith, IsIndexed-get_elem? (suc k) i rs r h.1 e)

module _ {M : Type 0} where
  -- A sync transaction waits for one request, and those behind it are not answered; an async
  -- one waits for all that are not answered.
  abbrev pub Phase : TransactionState → TransactionType → ℕ → ℕ → List ℕ → List (Option M) → Type 0
  Phase uncommitted_state t c n ws rs = ⊥
  Phase committed_state async_transaction c n ws rs = (c < n) × (c + length ws ≡ n)
  Phase committed_state sync_transaction c n ws rs =
      (c < n) × (ws ≡ c ∷ []) × ((j : ℕ) → c ≤ j → j < n → open_at j rs ≡ 1)
  Phase completed_state t c n ws rs = (c ≡ n) × (ws ≡ [])
  Phase aborted_state t c n ws rs = Unit

pub State-cases :
    (st : TransactionState)
    → ((st ≡ uncommitted_state) ⊎ (st ≡ committed_state))
      ⊎ ((st ≡ completed_state) ⊎ (st ≡ aborted_state))
State-cases uncommitted_state = inl (inl refl)
State-cases committed_state = inl (inr refl)
State-cases completed_state = inr (inl refl)
State-cases aborted_state = inr (inr refl)

pub TransactionType-cases : (t : TransactionType) → (t ≡ sync_transaction) ⊎ (t ≡ async_transaction)
TransactionType-cases sync_transaction = inl refl
TransactionType-cases async_transaction = inr refl

-- Notifications start no request.
module _ (M : Type 0) where
  pub executed-fails :
      (e : TransactionError) (hs : List ℕ) → executed (map {B = Effect M} (λ h. fails h e) hs) ≡ []
  executed-fails e [] = refl
  executed-fails e (h ∷ hs) = executed-fails e hs

  pub executed-completes :
      (rs : List (Option M)) (hs : List ℕ) → executed (map (λ h. completes h rs) hs) ≡ []
  executed-completes rs [] = refl
  executed-completes rs (h ∷ hs) = executed-completes rs hs

  pub Phase-at :
      (c n : ℕ) (ws : List ℕ) (rs : List (Option M)) {st st' : TransactionState}
      {t t' : TransactionType}
      → st ≡ st'
      → t ≡ t'
      → Phase st t c n ws rs
      → Phase st' t' c n ws rs
  Phase-at c n ws rs e f = subst₂ (λ a b. Phase a b c n ws rs) e f

module _ {P M : Type 0} where
  pub record IsRunning (s : Session P M) : Type 0 where
    pub indexed : IsIndexed 0 s.transaction.requests
    pub sized : length s.transaction.responses ≡ length s.transaction.requests
    pub accounted :
        missing s.transaction.responses + s.transaction.completed_requests
        ≡ length s.transaction.requests
    pub unanswered : (j : ℕ) → count j s.waiting ≤ open_at j s.transaction.responses
    pub phase :
        Phase s.transaction.state s.transaction.transaction_type s.transaction.completed_requests
          (length s.transaction.requests)
          s.waiting
          s.transaction.responses

  -- What a step does to the state and which handlers it starts.
  abbrev pub Turn : Session P M → Session P M → List (Effect M) → Type 0
  Turn s t es =
      (t.transaction.requests ≡ s.transaction.requests)
      × (t.transaction.on_complete_handlers ≡ s.transaction.on_complete_handlers)
      × (t.transaction.on_error_handlers ≡ s.transaction.on_error_handlers)
      × (((t.transaction.state ≡ s.transaction.state) × (notices es ≡ []))
          ⊎ ((s.transaction.state ≡ committed_state)
              × (t.transaction.state ≡ completed_state)
              × (es
                  ≡ map (λ h. completes h t.transaction.responses)
                      s.transaction.on_complete_handlers))
          ⊎ ((s.transaction.state ≡ committed_state)
              × (t.transaction.state ≡ aborted_state)
              × (e : TransactionError) × (es
                  ≡ map (λ h. fails h e) s.transaction.on_error_handlers)))

  abbrev pub Advances : Session P M → Outcome (Session P M × List (Effect M)) → Type 0
  Advances s r =
      (t : Session P M) × (es : List (Effect M)) × (r ≡ done (t, es)) × IsRunning t × Turn s t es

  -- Starting a request outside the lock: it is started, or the transaction is aborted.
  pub execute_request-cases :
      (bus : BusView) (req : BusTransactionRequest P) (tr : BusTransaction P M)
      → tr.state ≡ committed_state
      → ((e : Effect M) × (execute_request false bus req tr ≡ done (tr, e ∷ []))
          × (executed (e ∷ []) ≡ req.request_index ∷ [])
          × (notices (e ∷ []) ≡ []))
        ⊎ ((e : TransactionError) × (execute_request false bus req tr
              ≡ done
                  (record tr { state = aborted_state }, map (λ h. fails h e) tr.on_error_handlers)))
  unfolding execute_request on_transaction_error
  execute_request-cases bus req tr c = elim (Bool-cases (str_eq req.store_name "")) [
    | inl named ↦ elim (Bool-cases (bus.has_channel req.channel_name)) [
      | inl found ↦ inl (sends req.request_index req.channel_name, ground arith, refl, refl)
      | inr lost ↦ inr (channel_not_found req.channel_name, ground arith)
    ]
    | inr stored ↦ elim (Bool-cases (bus.has_store req.store_name)) [
      | inl found ↦ inl (awaits req.request_index req.store_name, ground arith, refl, refl)
      | inr lost ↦ inr (store_not_found req.store_name, ground arith)
    ]
  ]
