-- ===== src/Bus/Transaction/Session.antt =====
-- A committed transaction with its surroundings: `waiting` holds the indices of the requests
-- that were started and have not been answered. A one-shot listener (and `WhenReady`) calls back
-- at most once, so an event for any other index does not reach the transaction.
pub mod Facts
pub mod Open
pub mod Running
pub mod Answers
pub mod Steps
pub mod Notices
use transport_go.Prelude.{ℕ, false, ◌≡◌, refl, Option, none, some, List, [], ◌∷◌, ◌++◌}
use transport_go.Prelude.GoSlice.{get_elem?, take_out}
use transport_go.Bus.Transaction.{
  BusView, BusTransaction, TransactionError, Effect, sends, awaits, completes, fails, Outcome, done,
  deadlock, panics, ◌>>=◌, on_transaction_error, on_transaction_request_success,
}

pub record Session (P M : Type 0) : Type 0 where
  pub transaction : BusTransaction P M
  pub waiting : List ℕ

-- What the listener of a request is given: a response, or an error message.
pub data Event (M : Type 0) : Type 0 where
  replied : ℕ → M → Event M
  failed : ℕ → TransactionError → Event M

module _ {M : Type 0} where
  -- The requests that a step started.
  abbrev pub executed : List (Effect M) → List ℕ
  executed [] = []
  executed (sends i _ ∷ es) = i ∷ executed es
  executed (awaits i _ ∷ es) = i ∷ executed es
  executed (completes _ _ ∷ es) = executed es
  executed (fails _ _ ∷ es) = executed es

  -- The handlers that a step started.
  abbrev pub notices : List (Effect M) → List (Effect M)
  notices [] = []
  notices (sends _ _ ∷ es) = notices es
  notices (awaits _ _ ∷ es) = notices es
  notices (completes h rs ∷ es) = completes h rs ∷ notices es
  notices (fails h e ∷ es) = fails h e ∷ notices es

  pub executed-append : (es fs : List (Effect M)) → executed (es ++ fs) ≡ executed es ++ executed fs
  executed-append [] fs = refl
  executed-append (sends i _ ∷ es) fs = rw (executed-append es fs)
  executed-append (awaits i _ ∷ es) fs = rw (executed-append es fs)
  executed-append (completes _ _ ∷ es) fs = executed-append es fs
  executed-append (fails _ _ ∷ es) fs = executed-append es fs

  pub notices-append : (es fs : List (Effect M)) → notices (es ++ fs) ≡ notices es ++ notices fs
  notices-append [] fs = refl
  notices-append (sends i _ ∷ es) fs = notices-append es fs
  notices-append (awaits i _ ∷ es) fs = notices-append es fs
  notices-append (completes _ _ ∷ es) fs = rw (notices-append es fs)
  notices-append (fails _ _ ∷ es) fs = rw (notices-append es fs)

  abbrev pub target : Event M → ℕ
  target (replied i _) = i
  target (failed i _) = i

module _ {P M : Type 0} where
  abbrev pub resume :
      List ℕ
      → Outcome (BusTransaction P M × List (Effect M))
      → Outcome (Session P M × List (Effect M))
  resume ws m =
      m >>= λ (tr, es). done (record { transaction = tr; waiting = ws ++ executed es }, es)

  -- The listener of request `i`; its closure holds the request.
  unfoldable pub deliver :
      BusView → Event M → List ℕ → BusTransaction P M → Outcome (Session P M × List (Effect M))
  deliver bus (replied i m) ws tr = elim (get_elem? tr.requests i) [
    | none ↦ panics
    | some req ↦ resume ws (on_transaction_request_success bus req m tr)
  ]
  deliver bus (failed i e) ws tr = resume ws (on_transaction_error false e tr)

  unfoldable pub step : BusView → Event M → Session P M → Outcome (Session P M × List (Effect M))
  unfolding deliver
  step bus ev s = elim (take_out (target ev) s.waiting) [
    | none ↦ done (s, [])
    | some ws ↦ deliver bus ev ws s.transaction
  ]

  -- A history of events, each with what the bus shows at that time.
  unfoldable pub run :
      List (BusView × Event M) → Session P M → Outcome (Session P M × List (Effect M))
  run [] s = done (s, [])
  run ((bus, ev) ∷ evs) s = step bus ev s >>= λ (t, es). run evs t >>= λ (u, fs). done (u, es ++ fs)
