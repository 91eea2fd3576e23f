-- ===== src/Bus/Transaction/Session/Notices.antt =====
-- Which handlers a committed transaction calls over a whole history of events.
use mathlib.Core.List.{append-nil}
use transport_go.Prelude.{
  ℕ, ◌≡◌, ◌≢◌, refl, ap, sym, subst, ◌∙◌, ◌⊎◌, inl, inr, Option, List, [], ◌∷◌, ◌++◌, map, arith,
}
use transport_go.Prelude.GoSlice.{length}
use transport_go.Bus.Transaction.{
  BusView, BusTransaction, TransactionState, TransactionError, committed_state, completed_state,
  aborted_state, Effect, completes, fails, done,
}
use transport_go.Bus.Transaction.Building.{IsBuilding}
use transport_go.Bus.Transaction.Session.{Session, Event, notices, notices-append, run}
use transport_go.Bus.Transaction.Session.Facts.{missing}
use transport_go.Bus.Transaction.Session.Open.{opened, opened-IsRunning}
use transport_go.Bus.Transaction.Session.Running.{IsRunning, Turn}
use transport_go.Bus.Transaction.Session.Steps.{step-Advances}

completed≢committed : completed_state ≢ committed_state
completed≢committed e = cc

aborted≢committed : aborted_state ≢ committed_state
aborted≢committed e = cc

module _ (M : Type 0) where
  notices-completes :
      (rs : List (Option M)) (hs : List ℕ)
      → notices (map (λ h. completes h rs) hs) ≡ map (λ h. completes h rs) hs
  notices-completes rs [] = refl
  notices-completes rs (h ∷ hs) = rw (notices-completes rs hs)

  notices-fails :
      (e : TransactionError) (hs : List ℕ)
      → notices (map {B = Effect M} (λ h. fails h e) hs) ≡ map (λ h. fails h e) hs
  notices-fails e [] = refl
  notices-fails e (h ∷ hs) = rw (notices-fails e hs)

module _ {P M : Type 0} where
  -- The handlers called while the state went from `st` to `st'`: none if it did not change; the
  -- complete handlers once each, in order, with an answer for every request; or the error
  -- handlers once each with one error.
  abbrev pub Told :
      BusTransaction P M → TransactionState → TransactionState → List (Effect M) → Type 0
  Told tr st st' ns =
      ((st' ≡ st) × (ns ≡ []))
      ⊎ ((st ≡ committed_state)
          × (st' ≡ completed_state)
          × (rs : List (Option M)) × (missing rs ≡ 0)
          × (length rs ≡ length tr.requests)
          × (ns ≡ map (λ h. completes h rs) tr.on_complete_handlers))
      ⊎ ((st ≡ committed_state)
          × (st' ≡ aborted_state)
          × (e : TransactionError) × (ns ≡ map (λ h. fails h e) tr.on_error_handlers))

  abbrev pub Tells : Session P M → Session P M → List (Effect M) → Type 0
  Tells s t es = Told s.transaction s.transaction.state t.transaction.state (notices es)

  Turn-Tells : (s t : Session P M) (es : List (Effect M)) → IsRunning t → Turn s t es → Tells s t es
  Turn-Tells s t es v (q, c, f, inl h) = inl h
  Turn-Tells s t es v (q, c, f, inr (inl (a, b, e))) = inr (
      inl (
        a,
        b,
        t.transaction.responses,
        ground (arith, v.phase, v.accounted),
        v.sized ∙ ap length q,
        ap notices e
            ∙ notices-completes M t.transaction.responses s.transaction.on_complete_handlers,
      ))
  Turn-Tells s t es v (q, c, f, inr (inr (a, b, x, e))) =
      inr (inr (a, b, x, ap notices e ∙ notices-fails M x s.transaction.on_error_handlers))

  -- A quiet state stays as it is, so two stretches of history join.
  Tells-trans :
      (s t u : Session P M) (es fs : List (Effect M))
      → Turn s t es
      → Tells s t es
      → Tells t u fs
      → Tells s u (es ++ fs)
  Tells-trans s t u es fs (q, c, f, _) (inl (same, quiet)) k = elim k [
    | inl (a, b) ↦ inl (a ∙ same, notices-append es fs ∙ rw quiet b)
    | inr (inl (a, b, rs, full, long, e)) ↦ inr (
        inl (
          sym same ∙ a,
          b,
          rs,
          full,
          long ∙ ap length q,
          notices-append es fs ∙ rw quiet (e ∙ ap (map (λ h. completes h rs)) c),
        ))
    | inr (inr (a, b, x, e)) ↦ inr (
        inr (sym same ∙ a, b, x, notices-append es fs ∙ rw quiet (e ∙ ap (map (λ h. fails h x)) f)))
  ]
  Tells-trans s t u es fs turn (inr (inl (a, b, rs, full, long, e))) k = elim k [
    | inl (c, d) ↦
        inr (inl (a, c ∙ b, rs, full, long, notices-append es fs ∙ rw (e, d) (append-nil _)))
    | inr (inl (c, _, _, _, _, _)) ↦ absurd (completed≢committed (sym b ∙ c))
    | inr (inr (c, _, _, _)) ↦ absurd (completed≢committed (sym b ∙ c))
  ]
  Tells-trans s t u es fs turn (inr (inr (a, b, x, e))) k = elim k [
    | inl (c, d) ↦ inr (inr (a, c ∙ b, x, notices-append es fs ∙ rw (e, d) (append-nil _)))
    | inr (inl (c, _, _, _, _, _)) ↦ absurd (aborted≢committed (sym b ∙ c))
    | inr (inr (c, _, _, _)) ↦ absurd (aborted≢committed (sym b ∙ c))
  ]

  run-Tells :
      (evs : List (BusView × Event M)) (s : Session P M)
      → IsRunning s
      → (t : Session P M) × (es : List (Effect M)) × (run evs s ≡ done (t, es))
        × Tells s t es
        × IsRunning t
  unfolding run
  run-Tells [] s v = (s, [], refl, inl (refl, refl), v)
  run-Tells ((bus, ev) ∷ evs) s v =
      let (t, es, e, w, turn) = step-Advances bus ev s v in
      let (u, fs, f, rest, x) = run-Tells evs t w in
      (u, es ++ fs, rw e (rw f), Tells-trans s t u es fs turn (Turn-Tells s t es w turn) rest, x)

  -- From a successful `Commit` on, under any events and whatever becomes of channels and stores,
  -- no call panics or deadlocks, and the handlers called over the whole history are: none, while
  -- the transaction is still committed; the complete handlers once each, in order, all with one
  -- list that has an answer for each request, if it is completed; or the error handlers once
  -- each, with one error, if it is aborted.
  pub run-Told :
      (tr : BusTransaction P M) (evs : List (BusView × Event M))
      → IsBuilding tr
      → tr.requests ≢ []
      → (t : Session P M) × (es : List (Effect M)) × (run evs (opened tr) ≡ done (t, es))
        × Told tr committed_state t.transaction.state (notices es)
  run-Told tr evs v h =
      let (t, es, e, told, _) = run-Tells evs (opened tr) (opened-IsRunning tr v h) in
      (t, es, e, told)

  -- In every history a transaction that is still committed waits for a reply.
  pub run-waits :
      (tr : BusTransaction P M) (evs : List (BusView × Event M)) {t : Session P M}
      {es : List (Effect M)}
      → IsBuilding tr
      → tr.requests ≢ []
      → run evs (opened tr) ≡ done (t, es)
      → t.transaction.state ≡ committed_state
      → t.waiting ≢ []
  run-waits tr evs {t} v h e c none_waiting =
      let (u, fs, f, _, w) = run-Tells evs (opened tr) (opened-IsRunning tr v h) in
      let same : u ≡ t = cc (f, e) in
      let w' : IsRunning t = subst IsRunning same w in ground (arith, w'.phase)
