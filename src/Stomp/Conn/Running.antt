-- ===== src/Stomp/Conn/Running.antt =====
-- stompserver/stomp_connection.go: the loop of a connection.
use transport_go.Prelude.{Bool, true, false, Option, none, some, List, [], ◌∷◌, ◌++◌, if◌then◌else◌}
use transport_go.Stomp.Config.{StompConfig}
use transport_go.Stomp.Frame.{FrameLib, Frame, Command}
use transport_go.Stomp.Conn.{
  is_closed, Output, writes_error, writes_heart_beat, writes_frame, StompConn, Handled, close,
}
use transport_go.Stomp.Conn.Handlers.{handle_incoming_frame, populate_message_id_header}

module _ (L : FrameLib) where
  open L use {Header}

  -- What the `select` of `run` receives; `none` is a closed channel.
  pub data Input : Type 0 where
    out_frame in_frame : Option (Frame Header) → Input
    timer_fires : Input

  is_error : Command → Bool
  is_error Command.error_command = true
  is_error _ = false

  -- An error of a handler is sent to the client and ends the loop.
  abbrev pub conclude : Handled L → StompConn × List (Output Header) × Bool
  conclude (conn, outs, none) = (conn, outs, true)
  conclude (conn, outs, some e) = (conn, outs ++ writes_error e ∷ [], false)

  -- One round of `run` up to its `return`; the last part says whether the loop goes on.
  unfoldable pub select_round :
      StompConfig → Bool → Input → StompConn → StompConn × List (Output Header) × Bool
  unfolding is_error
  select_round cfg w (out_frame none) conn = (conn, [], false)
  select_round cfg w (out_frame (some f)) conn =
      let (g, conn') = populate_message_id_header L f conn in
      (
        conn',
        writes_frame g ∷ [],
        if w then (if is_error g.command then false else true) else false,
      )
  select_round cfg w (in_frame none) conn = (conn, [], false)
  select_round cfg w (in_frame (some f)) conn = conclude (handle_incoming_frame L cfg w f conn)
  select_round cfg w timer_fires conn = (conn, writes_heart_beat ∷ [], w)

  -- The deferred `Close`, and the end of a round.
  abbrev pub finish : StompConn × List (Output Header) → StompConn × List (Output Header) × Bool
  finish (conn, outs) = (conn, outs, false)

  abbrev pub continue :
      (StompConn → StompConn × List (Output Header) × Bool)
      → StompConn × List (Output Header) × Bool
      → StompConn × List (Output Header) × Bool
  continue rest (conn, outs, false) =
      let (conn', last) = close L conn in (conn', outs ++ last, false)
  continue rest (conn, outs, true) =
      let (conn', later, alive) = rest conn in (conn', outs ++ later, alive)

  -- The loop over a history of inputs, with the deferred `Close`. The last part says whether the
  -- goroutine still runs.
  unfoldable pub run :
      StompConfig → List (Bool × Input) → StompConn → StompConn × List (Output Header) × Bool
  run cfg [] conn = (conn, [], true)
  run cfg ((w, i) ∷ is) conn = elim (is_closed conn.state) [
    | true ↦ finish (close L conn)
    | false ↦ continue (run cfg is) (select_round cfg w i conn)
  ]
