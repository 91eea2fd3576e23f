-- ===== src/Bus/Transaction/Session/Answers.antt =====
-- The turn of a committed transaction that gets an answer.
use mathlib.Core.List.{append-nil}
use native.Mathlib.Decide.{ℕ_discrete}
use native.Mathlib.Nat.{zero-add}
use mathlib.Core.Path.{subst}
use transport_go.Prelude.{
  ℕ, ◌+◌, ◌≤◌, ◌<◌, ◌≡◌, ◌∙◌, ◌≢◌, refl, sym, inl, inr, false, Option, some, List, [], ◌∷◌, map,
  arith,
}
use transport_go.Prelude.GoSlice.{
  length, set?, count, take_out, take_out-count, take_out-length, take_out-singleton, length-zero,
  get_elem?-some,
}
use transport_go.Bus.Transaction.{
  BusView, BusTransaction, BusTransactionRequest, TransactionType, committed_state, completed_state,
  aborted_state, sync_transaction, async_transaction, completes, fails, execute_request,
  after_success,
}
use transport_go.Bus.Transaction.Session.{Session, resume}
use transport_go.Bus.Transaction.Session.Facts.{
  open_at, missing, missing-set?, open_at-set?, open_at-le,
}
use transport_go.Bus.Transaction.Session.Running.{
  IsIndexed-get_elem?, Phase, TransactionType-cases, executed-fails, executed-completes, Phase-at,
  IsRunning, Advances, execute_request-cases,
}

module _ {P M : Type 0} where
  -- The transaction once the answer is stored.
  abbrev pub answered : BusTransaction P M → List (Option M) → BusTransaction P M
  answered tr ss = record tr { responses = ss; completed_requests = tr.completed_requests + 1 }

  -- The facts that the three branches of a reply share.
  module _ (s : Session P M) (ws : List ℕ) (i : ℕ) (m : M) (ss : List (Option M))
      (w : take_out i s.waiting ≡ some ws) (c : s.transaction.state ≡ committed_state)
      (put : set? s.transaction.responses i (some m) ≡ some ss)
      (sized : length ss ≡ length s.transaction.responses) (v : IsRunning s) where
    at_stage :
        {t : TransactionType}
        → s.transaction.transaction_type ≡ t
        → Phase committed_state t s.transaction.completed_requests
            (length s.transaction.requests)
            s.waiting
            s.transaction.responses
    at_stage e = Phase-at M _ _ _ _ c e v.phase

    was_open : open_at i s.transaction.responses ≡ 1
    was_open = ground (
      arith,
      take_out-count i i s.waiting ws w,
      v.unanswered i,
      open_at-le i s.transaction.responses,
    )

    accounted_after :
        missing ss + (s.transaction.completed_requests + 1) ≡ length s.transaction.requests
    accounted_after =
        omega (arith, was_open, missing-set? i s.transaction.responses ss m put, v.accounted)

    unanswered_after : (j : ℕ) → count j ws ≤ open_at j ss
    unanswered_after j = ground (
      arith,
      take_out-count i j s.waiting ws w,
      v.unanswered j,
      open_at-set? i j s.transaction.responses ss m put,
      open_at-le i s.transaction.responses,
    )

    no_more : s.transaction.completed_requests + 1 ≡ length s.transaction.requests → ws ≡ []
    no_more last = elim (TransactionType-cases s.transaction.transaction_type) [
      | inl a ↦
          (take_out-singleton i _ ws (subst (λ us. take_out i us ≡ some ws) (at_stage a).1 w)).1
      | inr a ↦ length-zero ws (omega (arith, at_stage a, take_out-length i s.waiting ws w))
    ]

    -- The last answer.
    completing :
        (s.transaction.completed_requests + 1 ≡ length s.transaction.requests)
        → IsRunning (record {
          transaction = record (answered s.transaction ss) { state = completed_state };
          waiting = ws;
        })
    completing last = record {
      indexed = v.indexed;
      sized = sized ∙ v.sized;
      accounted = accounted_after;
      unanswered = unanswered_after;
      phase = (last, no_more last);
    }

    -- An answer to a transaction that has more to wait for.
    continuing_async :
        s.transaction.transaction_type ≡ async_transaction
        → (s.transaction.completed_requests + 1 ≢ length s.transaction.requests)
        → IsRunning (record { transaction = answered s.transaction ss; waiting = ws })
    continuing_async a more = record {
      indexed = v.indexed;
      sized = sized ∙ v.sized;
      accounted = accounted_after;
      unanswered = unanswered_after;
      phase = ground (arith, v.phase, take_out-length i s.waiting ws w);
    }

    continuing_sync :
        s.transaction.transaction_type ≡ sync_transaction
        → (s.transaction.completed_requests + 1 ≢ length s.transaction.requests)
        → (ws ≡ [])
          × (i ≡ s.transaction.completed_requests)
          × (i + 1 < length s.transaction.requests)
          × IsRunning (record { transaction = answered s.transaction ss; waiting = (i + 1) ∷ [] })
    continuing_sync a more =
        let (below, only, later) = at_stage a in
        let (here, empty) =
          take_out-singleton i _ ws (subst (λ us. take_out i us ≡ some ws) only w) in
        (
          empty,
          here,
          omega arith,
          record {
            indexed = v.indexed;
            sized = sized ∙ v.sized;
            accounted = accounted_after;
            unanswered = λ j. ground (
              arith,
              later (i + 1),
              open_at-set? i j s.transaction.responses ss m put,
              open_at-set? i (i + 1) s.transaction.responses ss m put,
            );
            phase = Phase-at M _ _ _ _ (sym c) (sym a) (
              omega arith,
              cc here,
              λ j low high.
                  ground (arith, later j, open_at-set? i j s.transaction.responses ss m put),
            );
          },
        )

    aborting : IsRunning (record {
      transaction = record (answered s.transaction ss) { state = aborted_state };
      waiting = ws;
    })
    aborting = record {
      indexed = v.indexed;
      sized = sized ∙ v.sized;
      accounted = accounted_after;
      unanswered = unanswered_after;
      phase = tt;
    }

    -- A sync transaction goes on with the next request, which may abort it.
    next-Advances :
        (bus : BusView) (next : BusTransactionRequest P)
        → s.transaction.transaction_type ≡ sync_transaction
        → s.transaction.completed_requests + 1 ≢ length s.transaction.requests
        → next.request_index ≡ i + 1
        → Advances s (resume ws (execute_request false bus next (answered s.transaction ss)))
    next-Advances bus next a more at =
        let (empty, here, room, running) = continuing_sync a more in
        elim (execute_request-cases bus next (answered s.transaction ss) c) [
          | inl (e, run, started, silent) ↦ (
            record { transaction = answered s.transaction ss; waiting = (i + 1) ∷ [] },
            e ∷ [],
            rw run (ground (arith, started, empty, at)),
            running,
            (refl, refl, refl, inl (refl, silent)),
          )
          | inr (e, run) ↦ (
            record {
              transaction = record (answered s.transaction ss) { state = aborted_state };
              waiting = ws;
            },
            map (λ h. fails h e) s.transaction.on_error_handlers,
            rw run
                (ground (arith, executed-fails M e s.transaction.on_error_handlers, append-nil ws)),
            aborting,
            (refl, refl, refl, inr (inr (c, refl, e, refl))),
          )
        ]

    pub after_success-Advances :
        (bus : BusView) (req : BusTransactionRequest P)
        → req.request_index ≡ i
        → Advances s (resume ws (after_success bus req (answered s.transaction ss)))
    unfolding after_success
    after_success-Advances bus req at =
        elim (ℕ_discrete (s.transaction.completed_requests + 1) (length s.transaction.requests)) [
          | yes last ↦ (
            record {
              transaction = record (answered s.transaction ss) { state = completed_state };
              waiting = ws;
            },
            map (λ h. completes h ss) s.transaction.on_complete_handlers,
            ground
                (arith, executed-completes M ss s.transaction.on_complete_handlers, append-nil ws),
            completing last,
            (refl, refl, refl, inr (inl (c, refl, refl))),
          )
          | no more ↦ elim (TransactionType-cases s.transaction.transaction_type) [
            | inl a ↦
                let (empty, here, room, running) = continuing_sync a more in
                let (next, found) = get_elem?-some s.transaction.requests (i + 1) room in
                subst (Advances s) (ground (arith, a, found, at)) (
                  next-Advances bus next a more (
                    IsIndexed-get_elem? 0 (i + 1) s.transaction.requests next v.indexed found
                    ∙ zero-add (i + 1)))
            | inr a ↦ (
              record { transaction = answered s.transaction ss; waiting = ws },
              [],
              ground (arith, append-nil ws),
              continuing_async a more,
              (refl, refl, refl, inl (refl, refl)),
            )
          ]
        ]
