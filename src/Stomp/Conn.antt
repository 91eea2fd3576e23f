-- ===== src/Stomp/Conn.antt =====
-- stompserver/stomp_connection.go and errors.go: one client connection. The loop `run` takes
-- frames from two channels and a timer one at a time, so it is a step function over its inputs.
-- `w` says whether `rawConnection.WriteFrame` succeeds in this step. Outputs are in the order of
-- the calls. Durations are int64 nanoseconds, as bit patterns.
pub mod Handlers
pub mod Running
pub mod Safety
pub mod HeartBeats
pub mod Counting
pub mod Loop
pub mod Replay
mod Examples
use transport_go.Prelude.{
  ℕ, ◌+◌, ◌*◌, ◌/◌, String, ◌&&◌, ◌||◌, Bool, true, false, Option, none, some, List, [], ◌∷◌, ◌++◌,
  ltb, ◌==◌, str_eq, if◌then◌else◌, is_some,
}
use transport_go.Prelude.GoMap.{GoMap, lookup, insert, delete}
use transport_go.Prelude.Int64.{add64, mul64, signed_lt}
use transport_go.Stomp.Text.{split_comma}
use transport_go.Stomp.Config.{StompConfig, is_app_request_destination}
use transport_go.Stomp.Frame.{FrameLib, Frame, Command, HeaderName, Version, v10, v11, v12}

pub record Subscription : Type 0 where
  pub id : String
  pub destination : String

pub data ConnState : Type 0 where
  connecting connected closed : ConnState

abbrev pub is_closed : ConnState → Bool
is_closed closed = true
is_closed _ = false

pub data StompError : Type 0 where
  not_connected unexpected_command unsupported_command unsupported_version : StompError
  invalid_subscription invalid_frame invalid_header invalid_send_destination : StompError
  bad_heart_beat write_failed : StompError

pub data ConnEvent (H : Type 0) : Type 0 where
  connection_established connection_closed : ConnEvent H
  subscribe_to_topic : String → Subscription → Frame H → ConnEvent H
  unsubscribe_from_topic : String → Subscription → ConnEvent H
  incoming_message : String → Frame H → ConnEvent H

-- `writes_connected v cy cx` is the CONNECTED frame with the version and "cy,cx".
pub data Output (H : Type 0) : Type 0 where
  writes_connected : Version → ℕ → ℕ → Output H
  writes_receipt : String → Output H
  writes_error : StompError → Output H
  writes_heart_beat : Output H
  writes_frame : Frame H → Output H
  closes_raw : Output H
  raises : ConnEvent H → Output H

pub record StompConn : Type 0 where
  pub state : ConnState
  pub version : Option Version
  pub read_timeout_ms : ℕ
  pub write_timeout : ℕ
  pub subscriptions : GoMap Subscription
  pub current_message_id : ℕ
  pub close_done : Bool

unfoldable pub new_stomp_conn : StompConn
new_stomp_conn = record {
  state = connecting;
  version = none;
  read_timeout_ms = 0;
  write_timeout = 0;
  subscriptions = [];
  current_message_id = 0;
  close_done = false;
}

abbrev pub millisecond : ℕ
millisecond = 1000000

abbrev pub max_heart_beat_duration : ℕ
max_heart_beat_duration = 999999999 * millisecond

-- min: the configured heart-beat, with Go's wrap-around, cut at the maximum.
unfoldable pub minimum_heart_beat : StompConfig → ℕ
minimum_heart_beat cfg =
    let min = mul64 cfg.heartbeat millisecond in
    if signed_lt max_heart_beat_duration min then max_heart_beat_duration else min

unfoldable pub apply_minimum : ℕ → ℕ → ℕ
apply_minimum min d = if signed_lt 0 d then (if min == 0 || signed_lt d min then min else d) else d

abbrev pub version_text : Version → String
version_text v10 = "1.0"
version_text v11 = "1.1"
version_text v12 = "1.2"

unfoldable pub has_text : String → List String → Bool
has_text s [] = false
has_text s (t ∷ ts) = str_eq t s || has_text s ts

-- The two loops of `determineVersion`.
unfoldable pub highest_version : List String → Option Version
unfolding has_text
highest_version ts =
    if has_text (version_text v12) ts
    then some v12
    else if has_text (version_text v11) ts
    then some v11
    else if has_text (version_text v10) ts
    then some v10
    else none

module _ (L : FrameLib) where
  open L use {Header, contains, del, add, parse_heart_beat}

  abbrev pub Handled : Type 0
  Handled = StompConn × List (Output Header) × Option StompError

  unfoldable pub determine_version : Frame Header → Option Version
  determine_version f = elim (contains f.header HeaderName.accept_version) [
    | none ↦ some v10
    | some s ↦ highest_version (split_comma s)
  ]

  unfoldable pub get_heart_beat : Frame Header → Option (ℕ × ℕ)
  get_heart_beat f = elim (contains f.header HeaderName.heart_beat) [
    | none ↦ some (0, 0)
    | some s ↦ parse_heart_beat s
  ]

  -- `SendFrameToSubscription`: the frame that goes to `outFrames`.
  unfoldable pub frame_to_subscription : Frame Header → Subscription → Frame Header
  frame_to_subscription f sub = record f { header = add f.header HeaderName.subscription sub.id }

  unfoldable pub close : StompConn → StompConn × List (Output Header)
  close conn = if conn.close_done then (conn, []) else (
    record conn { state = closed; close_done = true },
    closes_raw ∷ raises connection_closed ∷ [],
  )

  -- The part of `handleConnect` behind the checks.
  unfoldable pub accept_connect : StompConfig → Bool → Version → ℕ × ℕ → StompConn → Handled
  accept_connect cfg w v (cx0, cy0) conn =
      let min = minimum_heart_beat cfg in
      let cx = apply_minimum min cx0 in
      let cy = apply_minimum min cy0 in
      let conn' : StompConn = record conn {
        version = some v;
        write_timeout = cy;
        read_timeout_ms = cx / millisecond;
      } in
      let response = writes_connected v (cy / millisecond) (cx / millisecond) in
      if w
      then (record conn' { state = connected }, response ∷ raises connection_established ∷ [], none)
      else (conn', response ∷ [], some write_failed)

  is_connected : ConnState → Bool
  is_connected connected = true
  is_connected _ = false

  unfoldable pub handle_connect : StompConfig → Bool → Frame Header → StompConn → Handled
  unfolding is_connected
  handle_connect cfg w f conn =
      if is_connected conn.state
      then (conn, [], some unexpected_command)
      else if is_some (contains f.header HeaderName.receipt)
      then (conn, [], some invalid_header)
      else elim (determine_version f) [
        | none ↦ (record conn { version = none }, [], some unsupported_version)
        | some v10 ↦ (record conn { version = some v10 }, [], some unsupported_version)
        | some v ↦ elim (get_heart_beat f) [
          | none ↦ (record conn { version = some v }, [], some bad_heart_beat)
          | some d ↦ accept_connect cfg w v d conn
        ]
      ]
