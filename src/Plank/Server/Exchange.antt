-- ===== src/Plank/Server/Exchange.antt =====
-- The HTTP requests of the bridges and the messages of the bus, interleaved in any order: the
-- listener of a message bridge (SetHttpChannelBridge, plank/pkg/server/server.go), and the `select`
-- of buildEndpointHandler. A step that the program cannot take gives `none`.
pub mod Order
pub mod Rounds
mod Examples
use Prim.Native.String.{String}
use transport_go.Prelude.{
  ℕ, Bool, true, false, Option, none, some, List, [], ◌∷◌, ◌++◌, ◌==◌, if◌then◌else◌,
}
use transport_go.Prelude.GoMap.{GoMap, lookup, insert}
use transport_go.Plank.Server.Routes.{HandlerFunc, endpoint}
use transport_go.Plank.Server.{MessageBridge, PlatformServer}

-- `waiting` are the requests that were sent to the bus, with the service channel whose messages they
-- wait for.
pub record Traffic (B F M : Type 0) : Type 0 where
  pub server : PlatformServer B F M
  pub waiting : List (ℕ × String)

-- Without a message the request timed out.
pub record Answer (M : Type 0) : Type 0 where
  pub request : ℕ
  pub channel : String
  pub message : Option M

pub data Exchange (M : Type 0) : Type 0 where
  comes : ℕ → String → Exchange M
  arrives : String → M → Exchange M
  takes times_out : ℕ → Exchange M

-- The channel of the first request with the number, and the other requests.
unfoldable pub take_request : ℕ → List (ℕ × String) → Option (String × List (ℕ × String))
take_request id [] = none
take_request id ((other, name) ∷ waiting) =
    if other == id then some (name, waiting) else (elim (take_request id waiting) [
      | none ↦ none
      | some (found, rest) ↦ some (found, (other, name) ∷ rest)
    ])

module _ {B F M : Type 0} where
  abbrev pub payload_at : String → PlatformServer B F M → Option (List M)
  payload_at name s = elim s.message_bridge_map [
    | none ↦ none
    | some bridges ↦ elim (lookup name bridges) [
      | none ↦ none
      | some bridge ↦ some bridge.payload_channel
    ]
  ]

  abbrev pub set_payload : String → List M → PlatformServer B F M → PlatformServer B F M
  set_payload name messages s = elim s.message_bridge_map [
    | none ↦ s
    | some bridges ↦ record s {
      message_bridge_map = some (insert name (record { payload_channel = messages }) bridges);
    }
  ]

  -- The listener of the message bridge, if the channel has one.
  unfoldable pub relay : String → M → PlatformServer B F M → PlatformServer B F M
  relay name message s = elim (payload_at name s) [
    | none ↦ s
    | some messages ↦ set_payload name (messages ++ message ∷ []) s
  ]

  -- A request to the endpoint `key`; the error of `SendRequestMessage` is dropped.
  unfoldable pub come : ℕ → String → Traffic B F M → Option (Traffic B F M)
  come id key s = elim (lookup key s.server.endpoint_handler_map) [
    | some (endpoint name builder timeout) ↦
        some (record s { waiting = s.waiting ++ (id, name) ∷ [] })
    | _ ↦ none
  ]

  unfoldable pub take : ℕ → Traffic B F M → Option (Traffic B F M × Answer M)
  unfolding take_request
  take id s = elim (take_request id s.waiting) [
    | none ↦ none
    | some (name, rest) ↦ elim (payload_at name s.server) [
      | none ↦ none
      | some [] ↦ none
      | some (message ∷ messages) ↦ some (
        record { server = set_payload name messages s.server; waiting = rest },
        record { request = id; channel = name; message = some message },
      )
    ]
  ]

  unfoldable pub time_out : ℕ → Traffic B F M → Option (Traffic B F M × Answer M)
  unfolding take_request
  time_out id s = elim (take_request id s.waiting) [
    | none ↦ none
    | some (name, rest) ↦
        some (record s { waiting = rest }, record { request = id; channel = name; message = none })
  ]

  abbrev pub without_answer : Option (Traffic B F M) → Option (Traffic B F M × List (Answer M))
  without_answer none = none
  without_answer (some s) = some (s, [])

  abbrev pub with_answer :
      Option (Traffic B F M × Answer M) → Option (Traffic B F M × List (Answer M))
  with_answer none = none
  with_answer (some (s, answer)) = some (s, answer ∷ [])

  unfoldable pub step : Exchange M → Traffic B F M → Option (Traffic B F M × List (Answer M))
  unfolding relay come take time_out
  step (comes id key) s = without_answer (come id key s)
  step (arrives name message) s = some (record s { server = relay name message s.server }, [])
  step (takes id) s = with_answer (take id s)
  step (times_out id) s = with_answer (time_out id s)

  -- The answers in order.
  unfoldable pub run : List (Exchange M) → Traffic B F M → Option (Traffic B F M × List (Answer M))
  unfolding step
  run [] s = some (s, [])
  run (event ∷ events) s = elim (step event s) [
    | none ↦ none
    | some (t, first) ↦ elim (run events t) [
      | none ↦ none
      | some (u, rest) ↦ some (u, first ++ rest)
    ]
  ]
