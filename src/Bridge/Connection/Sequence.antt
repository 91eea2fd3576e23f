-- ===== src/Bridge/Connection/Sequence.antt =====
-- Sequences of operations of a connection, and what is expected of each destination.
use transport_go.Prelude.{
  ℕ, String, Bool, false, not, Option, none, some, List, [], ◌∷◌, ◌++◌, str_eq, if◌then◌else◌,
}
use transport_go.Bridge.Connection.{
  Frame, connected_frame, message_frame, error_frame, other_frame, Delivered, receive, Connection,
  subscribe, unsubscribe,
}
use transport_go.Bridge.Connection.Status.{Status, fresh, over, live, is_known}
use transport_go.Bridge.Connection.Table.{reaches}

pub data Operation (B : Type 0) : Type 0 where
  subscribes : String → ℕ → Operation B
  unsubscribes : String → Operation B
  receives : Frame B → Operation B

pub record Expected : Type 0 where
  pub status : String → Status
  pub awaited : Bool
  pub blocked : Bool

abbrev pub set_status : String → Status → Expected → Expected
set_status d new s = record s { status = λ j. if str_eq d j then new else s.status j }

-- `none` is a panic.
abbrev pub Outcome : Type 0 → Type 0 → Type 0
Outcome B S = Option (S × List (Delivered B))

module _ {B : Type 0} where
  abbrev pub expect_frame : Frame B → Expected → Expected × List (Delivered B)
  expect_frame connected_frame s = (record s { awaited = false; blocked = not s.awaited }, [])
  expect_frame (message_frame d body) s = (s, reaches d body (s.status d))
  expect_frame (error_frame d body) s = (record s { blocked = is_known (s.status d) }, [])
  expect_frame other_frame s = (s, [])

  -- Only the first subscription to a destination is new; its end is the end of the destination, and
  -- a second end is a panic.
  unfoldable pub expect : Operation B → Expected → Outcome B Expected
  expect (subscribes d id) s = elim (s.status d) [
    | fresh ↦ some (set_status d (live id) s, [])
    | _ ↦ some (s, [])
  ]
  expect (unsubscribes d) s = elim (s.status d) [
    | fresh ↦ some (s, [])
    | live id ↦ some (set_status d over s, [])
    | over ↦ none
  ]
  expect (receives f) s = some (if s.blocked then (s, []) else expect_frame f s)

  unfoldable pub step : Operation B → Connection → Outcome B Connection
  unfolding subscribe unsubscribe receive
  step (subscribes d id) c = some ((subscribe d id c).0, [])
  step (unsubscribes d) c = elim (unsubscribe d c) [ none ↦ none | some left ↦ some (left, []) ]
  step (receives f) c =
      let (ws, delivered) = receive f c.ws_conn in some (record c { ws_conn = ws }, delivered)

  abbrev pub after : {S : Type 0} → List (Delivered B) → Outcome B S → Outcome B S
  after ds none = none
  after ds (some (t, es)) = some (t, ds ++ es)

  abbrev pub and_then : {S : Type 0} → Outcome B S → (S → Outcome B S) → Outcome B S
  and_then none next = none
  and_then (some (s, ds)) next = after ds (next s)

  unfoldable pub run : List (Operation B) → Connection → Outcome B Connection
  unfolding step
  run [] c = some (c, [])
  run (o ∷ os) c = and_then (step o c) (run os)

  unfoldable pub expect_all : List (Operation B) → Expected → Outcome B Expected
  unfolding expect
  expect_all [] s = some (s, [])
  expect_all (o ∷ os) s = and_then (expect o s) (expect_all os)
