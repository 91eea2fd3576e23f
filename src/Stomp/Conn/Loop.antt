-- ===== src/Stomp/Conn/Loop.antt =====
-- One induction over the loop of a connection.
use transport_go.Prelude.{
  ◌≡◌, refl, Bool, true, false, none, some, List, [], ◌∷◌, ◌++◌, inl, inr, Bool-cases,
}
use transport_go.Stomp.Config.{StompConfig}
use transport_go.Stomp.Frame.{FrameLib, Frame, Command}
use transport_go.Stomp.Conn.{
  StompError, Handled, StompConn, Output, writes_error, writes_heart_beat, is_closed, writes_frame,
  close, handle_connect,
}
use transport_go.Stomp.Conn.Handlers.{
  handle_incoming_frame, handle_disconnect, handle_send, handle_subscribe, handle_unsubscribe,
  populate_message_id_header,
}
use transport_go.Stomp.Conn.Running.{
  conclude, continue, select_round, Input, out_frame, in_frame, timer_fires, run,
}

-- A relation between the state before, the state after and the outputs, that holds of nothing, of
-- two stretches if of each, of each handler on an open connection, of the frames that the loop
-- itself writes and of `Close`.
pub record Keeps (L : FrameLib) (cfg : StompConfig)
    (R : StompConn → StompConn → List (Output L.Header) → Type 0) : Type 0 where
  pub nil : (c : StompConn) → R c c []
  pub trans :
      (a b c : StompConn) (os ps : List (Output L.Header)) → R a b os → R b c ps → R a c (os ++ ps)
  pub on_connect :
      (w : Bool) (f : Frame L.Header) (c : StompConn)
      → is_closed c.state ≡ false
      → let r = handle_connect L cfg w f c in R c r.0 r.1
  pub on_disconnect :
      (w : Bool) (f : Frame L.Header) (c : StompConn)
      → is_closed c.state ≡ false
      → let r = handle_disconnect L w f c in R c r.0 r.1
  pub on_send :
      (w : Bool) (f : Frame L.Header) (c : StompConn)
      → is_closed c.state ≡ false
      → let r = handle_send L cfg w f c in R c r.0 r.1
  pub on_subscribe :
      (f : Frame L.Header) (c : StompConn)
      → is_closed c.state ≡ false
      → let r = handle_subscribe L f c in R c r.0 r.1
  pub on_unsubscribe :
      (w : Bool) (f : Frame L.Header) (c : StompConn)
      → is_closed c.state ≡ false
      → let r = handle_unsubscribe L w f c in R c r.0 r.1
  pub on_error : (e : StompError) (c : StompConn) → R c c (writes_error e ∷ [])
  pub on_heart_beat : (c : StompConn) → R c c (writes_heart_beat ∷ [])
  pub on_frame :
      (f : Frame L.Header) (c : StompConn)
      → let r = populate_message_id_header L f c in R c r.1 (writes_frame r.0 ∷ [])
  pub on_close : (c : StompConn) → let r = close L c in R c r.0 r.1

module _ (L : FrameLib) (cfg : StompConfig)
    (R : StompConn → StompConn → List (Output L.Header) → Type 0) (k : Keeps L cfg R) where
  incoming-keeps :
      (w : Bool) (f : Frame L.Header) (c : StompConn)
      → is_closed c.state ≡ false
      → let r = handle_incoming_frame L cfg w f c in R c r.0 r.1
  unfolding handle_incoming_frame
  incoming-keeps w f c o = by_command f.command refl
    where
      by_command :
          (m : Command) → f.command ≡ m → let r = handle_incoming_frame L cfg w f c in R c r.0 r.1
      by_command Command.connect e = rw (e, handle_incoming_frame) (k.on_connect w f c o)
      by_command Command.stomp e = rw (e, handle_incoming_frame) (k.on_connect w f c o)
      by_command Command.disconnect e = rw (e, handle_incoming_frame) (k.on_disconnect w f c o)
      by_command Command.send e = rw (e, handle_incoming_frame) (k.on_send w f c o)
      by_command Command.subscribe e = rw (e, handle_incoming_frame) (k.on_subscribe f c o)
      by_command Command.unsubscribe e = rw (e, handle_incoming_frame) (k.on_unsubscribe w f c o)
      by_command _ e = rw (e, handle_incoming_frame) (k.nil c)

  -- The end of a round that handled a frame.
  concludes : (c : StompConn) (r : Handled L) → R c r.0 r.1 → let t = conclude L r in R c t.0 t.1
  concludes c (d, os, none) h = h
  concludes c (d, os, some e) h = k.trans c d d os _ h (k.on_error e d)

  round-keeps :
      (w : Bool) (i : Input L) (c : StompConn)
      → is_closed c.state ≡ false
      → let r = select_round L cfg w i c in R c r.0 r.1
  unfolding select_round
  round-keeps w (out_frame none) c o = k.nil c
  round-keeps w (out_frame (some f)) c o = k.on_frame f c
  round-keeps w (in_frame none) c o = k.nil c
  round-keeps w (in_frame (some f)) c o =
      concludes c (handle_incoming_frame L cfg w f c) (incoming-keeps w f c o)
  round-keeps w timer_fires c o = k.on_heart_beat c

  continues :
      (rest : StompConn → StompConn × List (Output L.Header) × Bool) (c : StompConn)
      → ((d : StompConn) → R d (rest d).0 (rest d).1)
      → (r : StompConn × List (Output L.Header) × Bool) → R c r.0 r.1
      → let t = continue L rest r in R c t.0 t.1
  continues rest c ih (d, os, true) h = k.trans c d _ os _ h (ih d)
  continues rest c ih (d, os, false) h = k.trans c d _ os _ h (k.on_close d)

  -- Such a relation holds of every history of the loop.
  pub run-keeps :
      (is : List (Bool × Input L)) (c : StompConn) → let r = run L cfg is c in R c r.0 r.1
  unfolding run
  run-keeps [] c = k.nil c
  run-keeps ((w, i) ∷ is) c = elim (Bool-cases (is_closed c.state)) [
    | inl shut ↦ rw (shut, run) (k.on_close c)
    | inr open_state ↦
        rw (open_state, run)
          (continues (run L cfg is) c (λ d. run-keeps is d) (select_round L cfg w i c)
            (round-keeps w i c open_state))
  ]
