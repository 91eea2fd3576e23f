-- ===== src/Bus/Transaction/Session/Steps.antt =====
-- The turn of a committed transaction at any event.
use mathlib.Core.List.{append-nil}
use native.Mathlib.Nat.{zero-add}
use mathlib.Core.Path.{subst}
use transport_go.Prelude.{
  ℕ, ◌<◌, ◌≡◌, ◌∙◌, refl, inl, inr, false, Option, some, List, [], map, arith, Option-cases,
}
use transport_go.Prelude.GoSlice.{
  length, get_elem?, set?, take_out, take_out-count, take_out-length, get_elem?-some, set?-some,
}
use transport_go.Bus.Transaction.{
  BusView, BusTransaction, BusTransactionRequest, TransactionError, committed_state, aborted_state,
  fails, on_transaction_error, on_transaction_request_success, after_success,
}
use transport_go.Bus.Transaction.Session.{
  Session, Event, replied, failed, deliver, step, resume, target,
}
use transport_go.Bus.Transaction.Session.Facts.{lt-length_of_open}
use transport_go.Bus.Transaction.Session.Running.{
  IsIndexed-get_elem?, State-cases, executed-fails, IsRunning, Advances,
}
use transport_go.Bus.Transaction.Session.Answers.{answered, after_success-Advances}

module _ {P M : Type 0} where
  -- An error reply.
  failed-Advances :
      (s : Session P M) (ws : List ℕ) (i : ℕ) (e : TransactionError)
      → take_out i s.waiting ≡ some ws
      → IsRunning s
      → Advances s (resume ws (on_transaction_error false e s.transaction))
  unfolding on_transaction_error
  failed-Advances s ws i e w v = elim (State-cases s.transaction.state) [
    | inl (inl c) ↦ absurd (ground (arith, v.phase))
    | inl (inr c) ↦ (
      record { transaction = record s.transaction { state = aborted_state }; waiting = ws },
      map (λ h. fails h e) s.transaction.on_error_handlers,
      ground (arith, executed-fails M e s.transaction.on_error_handlers, append-nil ws),
      record {
        indexed = v.indexed;
        sized = v.sized;
        accounted = v.accounted;
        unanswered = λ j. ground (arith, take_out-count i j s.waiting ws, v.unanswered j);
        phase = tt;
      },
      (refl, refl, refl, inr (inr (c, refl, e, refl))),
    )
    | inr (inl c) ↦ absurd (ground (arith, v.phase, take_out-length i s.waiting ws))
    | inr (inr c) ↦ (
      record s { waiting = ws },
      [],
      ground (arith, append-nil ws),
      record {
        indexed = v.indexed;
        sized = v.sized;
        accounted = v.accounted;
        unanswered = λ j. ground (arith, take_out-count i j s.waiting ws, v.unanswered j);
        phase = ground arith;
      },
      (refl, refl, refl, inl (refl, refl)),
    )
  ]

  deliver-replied :
      (bus : BusView) (req : BusTransactionRequest P) (i : ℕ) (m : M) (ws : List ℕ)
      (tr : BusTransaction P M) (ss : List (Option M))
      → tr.state ≡ committed_state
      → req.request_index ≡ i
      → get_elem? tr.requests i ≡ some req
      → set? tr.responses i (some m) ≡ some ss
      → resume ws (after_success bus req (answered tr ss)) ≡ deliver bus (replied i m) ws tr
  unfolding deliver on_transaction_request_success
  deliver-replied bus req i m ws tr ss c at found put = ground arith

  replied-Advances :
      (bus : BusView) (s : Session P M) (ws : List ℕ) (i : ℕ) (m : M)
      → take_out i s.waiting ≡ some ws
      → s.transaction.state ≡ committed_state
      → IsRunning s
      → Advances s (deliver bus (replied i m) ws s.transaction)
  replied-Advances bus s ws i m w c v =
      let room : i < length s.transaction.responses =
        lt-length_of_open i s.transaction.responses
          (ground (arith, take_out-count i i s.waiting ws w, v.unanswered i)) in
      let (ss, put, sized) = set?-some s.transaction.responses i (some m) room in
      let (req, found) = get_elem?-some s.transaction.requests i (omega (arith, v.sized)) in
      let at = IsIndexed-get_elem? 0 i s.transaction.requests req v.indexed found ∙ zero-add i in
      subst (Advances s) (deliver-replied bus req i m ws s.transaction ss c at found put)
        (after_success-Advances s ws i m ss w c put sized v bus req at)

  -- A transaction that takes no more answers ignores one.
  ignored-Advances :
      (bus : BusView) (s : Session P M) (ws : List ℕ) (i : ℕ) (m : M)
      → take_out i s.waiting ≡ some ws
      → s.transaction.state ≡ aborted_state
      → IsRunning s
      → Advances s (deliver bus (replied i m) ws s.transaction)
  unfolding deliver on_transaction_request_success
  ignored-Advances bus s ws i m w c v =
      let room : i < length s.transaction.responses =
        lt-length_of_open i s.transaction.responses
          (ground (arith, take_out-count i i s.waiting ws w, v.unanswered i)) in
      let (req, found) = get_elem?-some s.transaction.requests i (omega (arith, v.sized)) in
      (
        record s { waiting = ws },
        [],
        ground (arith, append-nil ws),
        record {
          indexed = v.indexed;
          sized = v.sized;
          accounted = v.accounted;
          unanswered = λ j. ground (arith, take_out-count i j s.waiting ws, v.unanswered j);
          phase = ground arith;
        },
        (refl, refl, refl, inl (refl, refl)),
      )

  waiting-Advances :
      (bus : BusView) (ev : Event M) (s : Session P M) (ws : List ℕ)
      → take_out (target ev) s.waiting ≡ some ws
      → IsRunning s
      → Advances s (deliver bus ev ws s.transaction)
  unfolding deliver
  waiting-Advances bus (failed i e) s ws w v = failed-Advances s ws i e w v
  waiting-Advances bus (replied i m) s ws w v = elim (State-cases s.transaction.state) [
    | inl (inl c) ↦ absurd (ground (arith, v.phase))
    | inl (inr c) ↦ replied-Advances bus s ws i m w c v
    | inr (inl c) ↦ absurd (ground (arith, v.phase, take_out-length i s.waiting ws))
    | inr (inr c) ↦ ignored-Advances bus s ws i m w c v
  ]

  -- Between two events a step never panics and never waits for its own lock, and keeps the
  -- invariant.
  pub step-Advances :
      (bus : BusView) (ev : Event M) (s : Session P M) → IsRunning s → Advances s (step bus ev s)
  unfolding step
  step-Advances bus ev s v = elim (Option-cases (take_out (target ev) s.waiting)) [
    | inl e ↦ rw (e, step) (s, [], refl, v, (refl, refl, refl, inl (refl, refl)))
    | inr (ws, e) ↦ rw (e, step) (waiting-Advances bus ev s ws e v)
  ]
