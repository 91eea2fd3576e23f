-- ===== src/Bridge/Connection/Delivery.antt =====
-- Which messages reach the subscriptions of a connection.
use transport_go.Prelude.{
  ℕ, String, ◌≡◌, refl, sym, ap, ap₂, ◌∙◌, true, false, not, none, some, List, [], ◌∷◌, ◌++◌, arith,
  eq_iff, is_some, subst, Bool-cases, Option-cases, inl, inr,
}
use transport_go.Prelude.GoMap.{lookup, insert, lookup-insert, HasOneEach}
use transport_go.Bridge.Connection.{
  BridgeClientSub, Frame, connected_frame, message_frame, error_frame, other_frame, Delivered,
  client_subscribe, handle_frame, receive, Connection, subscribe_ws, subscribe, unsubscribe,
}
use transport_go.Bridge.Connection.Status.{fresh, over, live, is_known}
use transport_go.Bridge.Connection.Table.{
  IsTidy, status_of, HasOneEach-insert, IsTidy-insert, reaches, lookup-destination, deliver-lookup,
  blocks_on_error-lookup,
}
use transport_go.Bridge.Connection.Sequence.{
  Operation, subscribes, unsubscribes, receives, Expected, set_status, Outcome, expect_frame,
  expect, step, after, and_then, run, expect_all,
}

-- The status of each destination is that of its object in the client's table.
abbrev pub Agree : Connection → Expected → Type 0
Agree c s =
    HasOneEach c.ws_conn.client_subscriptions
    × IsTidy c.ws_conn.client_subscriptions
    × ((d : String) → status_of (lookup d c.ws_conn.client_subscriptions) ≡ s.status d)
    × ((d : String)
        → is_some (lookup d c.subscriptions) ≡ is_some (lookup d c.ws_conn.client_subscriptions))
    × (c.ws_conn.awaited ≡ s.awaited)
    × (c.ws_conn.blocked ≡ s.blocked)

subscribe_new-Agree :
    (d : String) (id : ℕ) (c : Connection) (s : Expected)
    → Agree c s
    → s.status d ≡ fresh
    → Agree (subscribe_ws d id c).0 (set_status d (live id) s)
unfolding subscribe_ws client_subscribe
subscribe_new-Agree d id c s v f =
    let sub : BridgeClientSub = record {
      id = id;
      destination = d;
      subscribed = true;
      closed = false;
    } in
    let subs = c.ws_conn.client_subscriptions in
    (
      HasOneEach-insert d sub subs v.0,
      IsTidy-insert sub d subs refl refl v.1,
      λ j. ground (arith, eq_iff d j, v.2 j, lookup-insert d j sub subs),
      λ j. ground (
        arith,
        eq_iff d j,
        v.3 j,
        lookup-insert d j sub subs,
        lookup-insert d j id c.subscriptions,
      ),
      v.4,
      v.5,
    )

-- The connection when the subscription `sub` for `d` has ended.
abbrev ended : String → BridgeClientSub → Connection → Connection
ended d sub c = record c {
  ws_conn = record c.ws_conn {
    client_subscriptions =
        insert d (record sub { subscribed = false; closed = true }) c.ws_conn.client_subscriptions;
  };
}

ended-Agree :
    (d : String) (sub : BridgeClientSub) (c : Connection) (s : Expected)
    → Agree c s
    → lookup d c.ws_conn.client_subscriptions ≡ some sub
    → Agree (ended d sub c) (set_status d over s)
ended-Agree d sub c s v e =
    let gone : BridgeClientSub = record sub { subscribed = false; closed = true } in
    let subs = c.ws_conn.client_subscriptions in
    (
      HasOneEach-insert d gone subs v.0,
      IsTidy-insert gone d subs (lookup-destination d sub subs v.1 e) refl v.1,
      λ j. ground (arith, eq_iff d j, v.2 j, lookup-insert d j gone subs),
      λ j. ground (arith, eq_iff d j, e, v.3 j, v.3 d, lookup-insert d j gone subs),
      v.4,
      v.5,
    )

module _ {B : Type 0} where
  abbrev pub Outcomes-Agree : Outcome B Connection → Outcome B Expected → Type 0
  Outcomes-Agree none none = Unit
  Outcomes-Agree (some (c, ds)) (some (s, es)) = Agree c s × (ds ≡ es)
  Outcomes-Agree _ _ = ⊥

  both_return :
      (x : Outcome B Connection) (y : Outcome B Expected) (c : Connection) (s : Expected)
      (ds es : List (Delivered B))
      → x ≡ some (c, ds)
      → y ≡ some (s, es)
      → Agree c s
      → ds ≡ es
      → Outcomes-Agree x y
  both_return x y c s ds es p q v e =
      subst (λ o. Outcomes-Agree o y) (sym p)
        (subst (λ o. Outcomes-Agree (some (c, ds)) o) (sym q) (v, e))

  both_panic :
      (x : Outcome B Connection) (y : Outcome B Expected) → x ≡ none → y ≡ none → Outcomes-Agree x y
  both_panic x y p q =
      subst (λ o. Outcomes-Agree o y) (sym p) (subst (λ o. Outcomes-Agree none o) (sym q) tt)

module _ (B : Type 0) where
  subscribe-Agree :
      (d : String) (id : ℕ) (c : Connection) (s : Expected)
      → Agree c s
      → Outcomes-Agree (step {B = B} (subscribes d id) c) (expect (subscribes d id) s)
  unfolding step subscribe expect
  subscribe-Agree d id c s v =
      let x : Outcome B Connection = step (subscribes d id) c in
      let y : Outcome B Expected = expect (subscribes d id) s in
      elim (Option-cases (lookup d c.subscriptions)) [
        | inl n ↦
            let f : s.status d ≡ fresh = ground (arith, n, v.2 d, v.3 d) in
            both_return x y (subscribe_ws d id c).0 (set_status d (live id) s) [] []
              (ground (arith, n)) (ground (arith, f)) (subscribe_new-Agree d id c s v f) refl
        | inr (old, known) ↦
            both_return x y c s [] [] (ground (arith, known)) (ground (arith, known, v.2 d, v.3 d))
              v refl
      ]

  unsubscribe-Agree :
      (d : String) (c : Connection) (s : Expected)
      → Agree c s
      → Outcomes-Agree (step {B = B} (unsubscribes d) c) (expect (unsubscribes d) s)
  unfolding step unsubscribe expect
  unsubscribe-Agree d c s v =
      let x : Outcome B Connection = step (unsubscribes d) c in
      let y : Outcome B Expected = expect (unsubscribes d) s in
      let subs = c.ws_conn.client_subscriptions in
      elim (Option-cases (lookup d subs)) [
        | inl n ↦ both_return x y c s [] [] (ground (arith, n)) (ground (arith, n, v.2 d)) v refl
        | inr (sub, known) ↦ elim (Bool-cases sub.closed) [
          | inl shut ↦
              both_panic x y (ground (arith, known, shut)) (ground (arith, known, shut, v.2 d))
          | inr not_shut ↦
              both_return x y (ended d sub c) (set_status d over s) [] []
                (ground (arith, known, not_shut)) (ground (arith, known, not_shut, v.2 d))
                (ended-Agree d sub c s v known) refl
        ]
      ]

module _ {B : Type 0} where
  handle_frame-Agree :
      (f : Frame B) (c : Connection) (s : Expected)
      → Agree c s
      → Agree (record c { ws_conn = (handle_frame f c.ws_conn).0 }) (expect_frame f s).0
        × ((handle_frame f c.ws_conn).1 ≡ (expect_frame f s).1)
  unfolding handle_frame
  handle_frame-Agree connected_frame c s v = ((v.0, v.1, v.2, v.3, refl, ap not v.4), refl)
  handle_frame-Agree (message_frame d body) c s v =
      let subs = c.ws_conn.client_subscriptions in
      (v, deliver-lookup d body subs v.0 v.1 ∙ ap (reaches d body) (v.2 d))
  handle_frame-Agree (error_frame d body) c s v =
      let subs = c.ws_conn.client_subscriptions in
      let stuck = blocks_on_error-lookup d subs v.0 v.1 ∙ ap is_known (v.2 d) in
      ((v.0, v.1, v.2, v.3, v.4, stuck), refl)
  handle_frame-Agree other_frame c s v = (v, refl)

  receive-Agree :
      (f : Frame B) (c : Connection) (s : Expected)
      → Agree c s
      → Outcomes-Agree (step (receives f) c) (expect (receives f) s)
  unfolding step receive expect
  receive-Agree f c s v =
      let x : Outcome B Connection = step (receives f) c in
      let y : Outcome B Expected = expect (receives f) s in
      let (agreed, same) = handle_frame-Agree f c s v in
      elim (Bool-cases s.blocked) [
        | inl stuck ↦
            both_return x y c s [] [] (ground (arith, stuck, v.5)) (ground (arith, stuck)) v refl
        | inr free ↦
            both_return x y (record c { ws_conn = (handle_frame f c.ws_conn).0 })
              (expect_frame f s).0 (handle_frame f c.ws_conn).1 (expect_frame f s).1
              (ground (arith, free, v.5)) (ground (arith, free)) agreed same
      ]

  step-Agree :
      (o : Operation B) (c : Connection) (s : Expected)
      → Agree c s
      → Outcomes-Agree (step o c) (expect o s)
  step-Agree (subscribes d id) c s v = subscribe-Agree B d id c s v
  step-Agree (unsubscribes d) c s v = unsubscribe-Agree B d c s v
  step-Agree (receives f) c s v = receive-Agree f c s v

  after-Agree :
      (ds es : List (Delivered B)) (x : Outcome B Connection) (y : Outcome B Expected)
      → ds ≡ es
      → Outcomes-Agree x y
      → Outcomes-Agree (after ds x) (after es y)
  after-Agree ds es none none e a = tt
  after-Agree ds es none (some y) e a = absurd a
  after-Agree ds es (some x) none e a = absurd a
  after-Agree ds es (some (c, fs)) (some (s, gs)) e (v, e') = (v, ap₂ (λ xs ys. xs ++ ys) e e')

  and_then-Agree :
      (x : Outcome B Connection) (y : Outcome B Expected) (next : Connection → Outcome B Connection)
      (next' : Expected → Outcome B Expected)
      → Outcomes-Agree x y
      → ((c : Connection) (s : Expected) → Agree c s → Outcomes-Agree (next c) (next' s))
      → Outcomes-Agree (and_then x next) (and_then y next')
  and_then-Agree none none next next' a follow = tt
  and_then-Agree none (some y) next next' a follow = absurd a
  and_then-Agree (some x) none next next' a follow = absurd a
  and_then-Agree (some (c, ds)) (some (s, es)) next next' (v, e) follow =
      after-Agree ds es (next c) (next' s) e (follow c s v)

  -- For a connection over a WebSocket that is not disconnected, and any subscriptions, ends of them
  -- and frames, one after the other: a message reaches the subscription of its destination, and no
  -- other, if that was made and was not ended before; a destination that was ended is never live
  -- again, and to end it again panics; an error for a destination that was subscribed, and a
  -- CONNECTED frame that is not awaited, end the handling of frames.
  pub run-expect_all :
      (os : List (Operation B)) (c : Connection) (s : Expected)
      → Agree c s
      → Outcomes-Agree (run os c) (expect_all os s)
  unfolding run expect_all
  run-expect_all [] c s v = (v, refl)
  run-expect_all (o ∷ os) c s v =
      and_then-Agree (step o c) (expect o s) (run os) (expect_all os) (step-Agree o c s v)
        (run-expect_all os)
