-- ===== src/Stomp/Conn/Examples.antt =====
-- A library of headers as association lists, and sessions of a client.
use transport_go.Prelude.{
  ◌⊎◌, ◌≤◌, String, ◌≡◌, refl, Bool, true, false, Option, none, some, List, [], ◌∷◌, arith, ◌⊎◌,
  inl, ◌++◌,
}
use transport_go.Prelude.GoSlice.{All}
use transport_go.Prelude.GoMap.{lookup}
use transport_go.Stomp.Config.{StompConfig, new_stomp_config}
use transport_go.Stomp.Frame.{FrameLib, Frame, Command, HeaderName}
use transport_go.Stomp.Text.{split_comma}
use transport_go.Stomp.Conn.{
  new_stomp_conn, handle_connect, determine_version, highest_version, get_heart_beat,
  accept_connect, apply_minimum, minimum_heart_beat,
}
use transport_go.Stomp.Conn.Handlers.{handle_incoming_frame}
use transport_go.Stomp.Conn.Running.{run, Input, in_frame, out_frame, select_round}
use transport_go.Stomp.Conn.Safety.{run-IsAllowed, IsAllowed}
use transport_go.Stomp.Conn.Counting.{run-closes, closes, run-IdsFrom, IdsFrom}
use transport_go.Stomp.Conn.Replay.{run-replay, replay}
use transport_go.Stomp.Conn.HeartBeats.{IsParser, IsBounded, run-IsBounded}

abbrev same_name : HeaderName → HeaderName → Bool
same_name HeaderName.accept_version HeaderName.accept_version = true
same_name HeaderName.id HeaderName.id = true
same_name HeaderName.destination HeaderName.destination = true
same_name HeaderName.receipt HeaderName.receipt = true
same_name HeaderName.heart_beat HeaderName.heart_beat = true
same_name _ _ = false

abbrev Headers : Type 0
Headers = List (HeaderName × String)

abbrev find : Headers → HeaderName → Option String
find [] n = none
find ((m, v) ∷ h) n = elim (same_name m n) [ true ↦ some v | false ↦ find h n ]

abbrev erase : Headers → HeaderName → Headers
erase [] n = []
erase ((m, v) ∷ h) n = elim (same_name n m) [ true ↦ erase h n | false ↦ (m, v) ∷ erase h n ]

abbrev lib : FrameLib
lib = record {
  Header = Headers;
  contains = find;
  add = λ h n v. h ++ (n, v) ∷ [];
  del = erase;
  parse_heart_beat = λ _. some (0, 0);
}

abbrev frame : Command → Headers → Frame Headers
frame c h = record { command = c; header = h; message_id = none; body = [] }

abbrev config : StompConfig
config = new_stomp_config 0 ("/pub" ∷ [])

-- CONNECT, SUBSCRIBE, a broadcast to the client, SEND, DISCONNECT, and one more frame.
abbrev session : List (Bool × Input lib)
session =
    (true, in_frame (some (frame Command.connect ((HeaderName.accept_version, "1.1,1.2") ∷ []))))
    ∷ (
      true,
      in_frame (
          some (
            frame Command.subscribe
              ((HeaderName.id, "s") ∷ (HeaderName.destination, "/topic/a") ∷ []))),
    )
    ∷ (true, out_frame (some (frame Command.message [])))
    ∷ (true, in_frame (some (frame Command.send ((HeaderName.destination, "/pub/a") ∷ []))))
    ∷ (true, in_frame (some (frame Command.disconnect [])))
    ∷ (true, in_frame none)
    ∷ []

run-IsAllowed_example : All (IsAllowed config) (run lib config session new_stomp_conn).1
run-IsAllowed_example = run-IsAllowed lib config session new_stomp_conn

run-closes_example :
    let r = run lib config session new_stomp_conn in
    (closes r.1 ≤ 1) × ((r.2 ≡ true) ⊎ (closes r.1 ≡ 1))
unfolding new_stomp_conn
run-closes_example = run-closes lib config session new_stomp_conn refl

run-IdsFrom_example :
    let r = run lib config session new_stomp_conn in
    IdsFrom new_stomp_conn.current_message_id r.1 r.0.current_message_id
run-IdsFrom_example = run-IdsFrom lib config session new_stomp_conn

run-replay_example :
    let r = run lib config session new_stomp_conn in
    r.0.subscriptions ≡ replay r.1 new_stomp_conn.subscriptions
unfolding new_stomp_conn lookup
run-replay_example = run-replay lib config session new_stomp_conn (λ k sub e. ground arith)

-- A client that asks for heart-beats each 200 ms and 900 ms, at a server with at least 500 ms.
abbrev beats : FrameLib
beats = record {
  Header = Headers;
  contains = find;
  add = λ h n v. h ++ (n, v) ∷ [];
  del = erase;
  parse_heart_beat = λ s. some (200000000, 900000000);
}

beats-IsParser : IsParser beats
beats-IsParser s d e = ground (arith, e)

abbrev slow_config : StompConfig
slow_config = record { heartbeat = 500; app_dest_prefix = [] }

abbrev connects : List (Bool × Input beats)
connects =
    (
      true,
      in_frame (
          some (
            frame Command.connect
              ((HeaderName.accept_version, "1.2") ∷ (HeaderName.heart_beat, "200,900") ∷ []))),
    )
    ∷ []

run-IsBounded_example : IsBounded slow_config (run beats slow_config connects new_stomp_conn).0
unfolding new_stomp_conn
run-IsBounded_example =
    run-IsBounded beats slow_config beats-IsParser (omega arith) connects new_stomp_conn
      (record { write = inl refl; read = inl refl })

cut_to_500_ms : (run beats slow_config connects new_stomp_conn).0.read_timeout_ms ≡ 500
unfolding run new_stomp_conn select_round handle_incoming_frame handle_connect determine_version
    highest_version split_comma get_heart_beat accept_connect apply_minimum minimum_heart_beat
cut_to_500_ms = refl
