-- ===== src/Stomp/Conn/Counting.antt =====
-- How often a connection closes, and the ids of its messages.
use transport_go.Prelude.{
  ℕ, ◌+◌, ◌≤◌, ◌≡◌, refl, sym, subst, ◌⊎◌, inl, inr, Bool, true, false, some, List, [], ◌∷◌, ◌++◌,
  arith, Bool-cases,
}
use transport_go.Prelude.Int64.{add64}
use transport_go.Stomp.Config.{StompConfig}
use transport_go.Stomp.Frame.{FrameLib, Frame, Command}
use transport_go.Stomp.Conn.Loop.{Keeps, run-keeps}
use transport_go.Stomp.Conn.{
  StompConn, Output, writes_frame, raises, connection_closed, close, handle_connect, accept_connect,
  is_closed,
}
use transport_go.Stomp.Conn.Handlers.{
  handle_disconnect, handle_send, handle_subscribe, handle_unsubscribe, send_receipt_response,
  populate_message_id_header,
}
use transport_go.Stomp.Conn.Running.{Input, run, continue, select_round}

abbrev pub next_id : Command → ℕ → ℕ
next_id Command.message k = add64 k 1
next_id _ k = k

module _ {H : Type 0} where
  abbrev pub closes_one : Output H → ℕ
  closes_one (raises connection_closed) = 1
  closes_one _ = 0

  abbrev pub closes : List (Output H) → ℕ
  closes [] = 0
  closes (o ∷ os) = closes_one o + closes os

  closes-append : (os ps : List (Output H)) → closes (os ++ ps) ≡ closes os + closes ps
  closes-append [] ps = omega arith
  closes-append (o ∷ os) ps = omega (arith, closes-append os ps)

  abbrev pub HasId : ℕ → Frame H → Type 0
  HasId k f = f.command ≡ Command.message → f.message_id ≡ some (add64 k 1)

  -- The MESSAGE frames of the outputs carry the ids k + 1, k + 2, … up to `e`, in order.
  abbrev pub IdsFrom : ℕ → List (Output H) → ℕ → Type 0
  IdsFrom k [] e = k ≡ e
  IdsFrom k (writes_frame f ∷ os) e = HasId k f × IdsFrom (next_id f.command k) os e
  IdsFrom k (_ ∷ os) e = IdsFrom k os e

abbrev pub close_count : Bool → ℕ
close_count true = 1
close_count false = 0

module _ (L : FrameLib) (cfg : StompConfig) where
  closes-Keeps :
      Keeps L cfg (λ a b os. closes os + close_count a.close_done ≡ close_count b.close_done)
  unfolding handle_connect accept_connect handle_disconnect handle_send handle_subscribe
      handle_unsubscribe send_receipt_response populate_message_id_header close
  closes-Keeps = record {
    nil = λ c. omega arith;
    trans = λ a b c os ps h k. omega (arith, closes-append os ps);
    on_connect = λ w f c o. ground arith;
    on_disconnect = λ w f c o. ground arith;
    on_send = λ w f c o. ground arith;
    on_subscribe = λ f c o. ground arith;
    on_unsubscribe = λ w f c o. ground arith;
    on_error = λ e c. omega arith;
    on_heart_beat = λ c. omega arith;
    on_frame = λ f c. ground arith;
    on_close = λ c. ground arith;
  }

  close_done-close : (c : StompConn) → (close L c).0.close_done ≡ true
  unfolding close
  close_done-close c = ground arith

  continue-done :
      (rest : StompConn → StompConn × List (Output L.Header) × Bool)
      → ((d : StompConn) → (rest d).2 ≡ false → (rest d).0.close_done ≡ true)
      → (r : StompConn × List (Output L.Header) × Bool) → (continue L rest r).2 ≡ false
      → (continue L rest r).0.close_done ≡ true
  continue-done rest ih (d, os, true) h = ih d h
  continue-done rest ih (d, os, false) h = close_done-close d

  run-done :
      (is : List (Bool × Input L)) (c : StompConn)
      → (run L cfg is c).2 ≡ false
      → (run L cfg is c).0.close_done ≡ true
  unfolding run
  run-done [] c = λ h. cc
  run-done ((w, i) ∷ is) c = elim (Bool-cases (is_closed c.state)) [
    | inl shut ↦ rw (shut, run) (λ _. close_done-close c)
    | inr o ↦
        rw (o, run) (continue-done (run L cfg is) (λ d. run-done is d) (select_round L cfg w i c))
  ]

  -- From a connection that was not closed: over any history at most one close event is raised,
  -- and exactly one once the loop has ended, on whichever path.
  pub run-closes :
      (is : List (Bool × Input L)) (c : StompConn)
      → c.close_done ≡ false
      → (closes (run L cfg is c).1 ≤ 1)
        × (((run L cfg is c).2 ≡ true) ⊎ (closes (run L cfg is c).1 ≡ 1))
  run-closes is c h =
      let balance = run-keeps L cfg _ closes-Keeps is c in
      (
        ground (arith, balance),
        elim (Bool-cases (run L cfg is c).2) [
          | inl alive ↦ inl alive
          | inr ended ↦ inr (ground (arith, balance, run-done is c ended))
        ],
      )

  IdsFrom-append :
      (k e g : ℕ) (os ps : List (Output L.Header))
      → IdsFrom k os e
      → IdsFrom e ps g
      → IdsFrom k (os ++ ps) g
  IdsFrom-append k e g [] ps h i = subst (λ n. IdsFrom n ps g) (sym h) i
  IdsFrom-append k e g (writes_frame f ∷ os) ps (at, h) i =
      (at, IdsFrom-append (next_id f.command k) e g os ps h i)
  IdsFrom-append k e g (_ ∷ os) ps h i = IdsFrom-append k e g os ps h i

  ids-Keeps : Keeps L cfg (λ a b os. IdsFrom a.current_message_id os b.current_message_id)
  unfolding handle_connect accept_connect handle_disconnect handle_send handle_subscribe
      handle_unsubscribe send_receipt_response populate_message_id_header close
  ids-Keeps = record {
    nil = λ c. refl;
    trans = λ a b c os ps h k.
        IdsFrom-append a.current_message_id b.current_message_id c.current_message_id os ps h k;
    on_connect = λ w f c o. ground arith;
    on_disconnect = λ w f c o. ground arith;
    on_send = λ w f c o. ground arith;
    on_subscribe = λ f c o. ground arith;
    on_unsubscribe = λ w f c o. ground arith;
    on_error = λ e c. refl;
    on_heart_beat = λ c. refl;
    on_frame = λ f c. ground arith;
    on_close = λ c. ground arith;
  }

  -- Over any history the MESSAGE frames that are written have the ids that follow the
  -- connection's counter, one by one (as uint64), and the counter ends at the last of them.
  pub run-IdsFrom :
      (is : List (Bool × Input L)) (c : StompConn)
      → let r = run L cfg is c in IdsFrom c.current_message_id r.1 r.0.current_message_id
  run-IdsFrom is c = run-keeps L cfg _ ids-Keeps is c
