-- ===== src/Plank/Server/Exchange/Order.antt =====
-- Which request gets which message.
use Prim.Native.String.{String}
use mathlib.Core.List.{append-nil, append_assoc}
use transport_go.Prelude.{
  ◌≡◌, refl, arith, eq_iff, ℕ, none, some, List, [], ◌∷◌, ◌++◌, str_eq, if◌then◌else◌, Option-cases,
  Bool-cases, inl, inr, ap, sym, ◌∙◌,
}
use transport_go.Prelude.GoMap.{lookup, lookup-insert}
use transport_go.Plank.Server.Routes.{no_handler, endpoint, other}
use transport_go.Plank.Server.{MessageBridge, PlatformServer}
use transport_go.Plank.Server.Exchange.{
  Traffic, Answer, Exchange, comes, arrives, takes, times_out, take_request, payload_at,
  set_payload, relay, come, take, time_out, step, run,
}

module _ {M : Type 0} where
  -- The messages that came for the channel.
  unfoldable pub arrivals : String → List (Exchange M) → List M
  arrivals name [] = []
  arrivals name (arrives target message ∷ events) =
      let below = arrivals name events in if str_eq target name then message ∷ below else below
  arrivals name (event ∷ events) = arrivals name events

  -- The messages that requests to the channel were answered with.
  unfoldable pub messages_of : String → List (Answer M) → List M
  messages_of name [] = []
  messages_of name (answer ∷ answers) =
      let below = messages_of name answers in
      if str_eq answer.channel name
      then (elim answer.message [ none ↦ below | some message ↦ message ∷ below ])
      else below

module _ {B F M : Type 0} where
  pub payload_at-set_payload :
      (asked name : String) (messages queue : List M) (s : PlatformServer B F M)
      → payload_at asked s ≡ some queue
      → payload_at asked (set_payload name messages s)
        ≡ (if str_eq name asked then some messages else some queue)
  payload_at-set_payload asked name messages queue s e = elim (Option-cases s.message_bridge_map) [
    | inl n ↦ absurd (ground (arith, n, e))
    | inr (bridges, y) ↦ ground (
      arith,
      y,
      e,
      eq_iff name asked,
      lookup-insert {V = MessageBridge M} name asked (record { payload_channel = messages })
          bridges,
    )
  ]

  -- The messages of a channel before an event and those that come, against those taken and left.
  abbrev Ordered : String → List M → List M → List (Answer M) → Traffic B F M → Type 0
  Ordered name queue come answers t =
      (left : List M) × (payload_at name t.server ≡ some left)
      × (queue ++ come ≡ messages_of name answers ++ left)

  come-server :
      (id : ℕ) (key : String) (s t : Traffic B F M) → come id key s ≡ some t → t.server ≡ s.server
  unfolding come
  come-server id key s t e = elim (Option-cases (lookup key s.server.endpoint_handler_map)) [
    | inl n ↦ absurd (ground (arith, n, e))
    | inr (endpoint name builder timeout, y) ↦ ground (arith, y, e)
    | inr (no_handler, y) ↦ absurd (ground (arith, y, e))
    | inr (other f, y) ↦ absurd (ground (arith, y, e))
  ]

  pub relay-payload_at :
      (asked name : String) (message : M) (queue : List M) (s : PlatformServer B F M)
      → payload_at asked s ≡ some queue
      → payload_at asked (relay name message s)
        ≡ some (if str_eq name asked then queue ++ message ∷ [] else queue)
  unfolding relay
  relay-payload_at asked name message queue s e = elim (Option-cases (payload_at name s)) [
    | inl n ↦ ground (arith, e, n, eq_iff name asked)
    | inr (messages, y) ↦ ground (
      arith,
      e,
      y,
      eq_iff name asked,
      payload_at-set_payload asked name (messages ++ message ∷ []) queue s e,
    )
  ]

  -- A request that takes a message takes the first one of its channel.
  take-Ordered :
      (asked : String) (queue : List M) (id : ℕ) (s t : Traffic B F M) (answer : Answer M)
      → take id s ≡ some (t, answer)
      → payload_at asked s.server ≡ some queue
      → Ordered asked queue [] (answer ∷ []) t
  unfolding take messages_of
  take-Ordered asked queue id s t answer e here = elim (Option-cases (take_request id s.waiting)) [
    | inl n ↦ absurd (ground (arith, n, e))
    | inr ((name, rest), y) ↦ elim (Option-cases (payload_at name s.server)) [
      | inl n ↦ absurd (ground (arith, y, n, e))
      | inr ([], q) ↦ absurd (ground (arith, y, q, e))
      | inr (message ∷ messages, q) ↦
          let kept = payload_at-set_payload asked name messages queue s.server here in
          elim (Bool-cases (str_eq name asked)) [
            | inl same ↦ (
              messages,
              ground (arith, y, q, same, kept, e),
              ground (arith, y, q, same, e, here, eq_iff name asked, append-nil queue),
            )
            | inr apart ↦ (
              queue,
              ground (arith, y, q, apart, kept, e),
              ground (arith, y, q, apart, e, append-nil queue),
            )
          ]
    ]
  ]

  step-Ordered :
      (name : String) (queue : List M) (event : Exchange M) (s t : Traffic B F M)
      (answers : List (Answer M))
      → step event s ≡ some (t, answers)
      → payload_at name s.server ≡ some queue
      → Ordered name queue (arrivals name (event ∷ [])) answers t
  unfolding step arrivals messages_of relay time_out
  step-Ordered name queue (comes id key) s t answers e here = elim (Option-cases (come id key s)) [
    | inl n ↦ absurd (ground (arith, n, e))
    | inr (u, y) ↦ (
      queue,
      ground (arith, y, e, here, come-server id key s u y),
      ground (arith, y, e, append-nil queue),
    )
  ]
  step-Ordered name queue (arrives target message) s t answers e here =
      elim (Bool-cases (str_eq target name)) [
        | inl y ↦ (
          queue ++ message ∷ [],
          ground (arith, y, e, relay-payload_at name target message queue s.server here),
          ground (arith, y, e),
        )
        | inr n ↦ (
          queue,
          ground (arith, n, e, relay-payload_at name target message queue s.server here),
          ground (arith, n, e, append-nil queue),
        )
      ]
  step-Ordered name queue (takes id) s t answers e here = elim (Option-cases (take id s)) [
    | inl n ↦ absurd (ground (arith, n, e))
    | inr ((u, answer), y) ↦
        let (left, at, order) = take-Ordered name queue id s u answer y here in
        (left, ground (arith, y, e, at), ground (arith, y, e, order))
  ]
  step-Ordered name queue (times_out id) s t answers e here =
      elim (Option-cases (take_request id s.waiting)) [
        | inl n ↦ absurd (ground (arith, n, e))
        | inr ((found, rest), y) ↦
            (queue, ground (arith, y, e, here), ground (arith, y, e, append-nil queue))
      ]

module _ {M : Type 0} where
  messages_of-append :
      (name : String) (front back : List (Answer M))
      → messages_of name (front ++ back) ≡ messages_of name front ++ messages_of name back
  unfolding messages_of
  messages_of-append name [] back = refl
  messages_of-append name (answer ∷ front) back =
      let below = messages_of-append name front back in
      elim (Bool-cases (str_eq answer.channel name)) [
        | inr n ↦ ground (arith, n, below)
        | inl y ↦ elim (Option-cases answer.message) [
          | inl n ↦ ground (arith, y, n, below)
          | inr (message, q) ↦ ground (arith, y, q, below)
        ]
      ]

  arrivals_cons :
      (name : String) (event : Exchange M) (events : List (Exchange M))
      → arrivals name (event ∷ events) ≡ arrivals name (event ∷ []) ++ arrivals name events
  unfolding arrivals
  arrivals_cons name (comes id key) events = refl
  arrivals_cons name (arrives target message) events = ground arith
  arrivals_cons name (takes id) events = refl
  arrivals_cons name (times_out id) events = refl

through :
    {M : Type 0} (queue come later taken middle after left : List M)
    → queue ++ come ≡ taken ++ middle
    → middle ++ later ≡ after ++ left
    → queue ++ (come ++ later) ≡ (taken ++ after) ++ left
through queue come later taken middle after left first second =
    sym (append_assoc queue come later)
    ∙ ap (λ l. l ++ later) first
    ∙ append_assoc taken middle later
    ∙ ap (λ l. taken ++ l) second
    ∙ sym (append_assoc taken after left)

module _ {B F M : Type 0} where
  -- Over any interleaving of requests, messages and time-outs, the messages that wait for a bridged
  -- channel and those that come for it are, in order, those that its requests are answered with,
  -- whichever requests these are, and those that wait at the end.
  pub run-messages_of :
      (name : String) (queue : List M) (events : List (Exchange M)) (s t : Traffic B F M)
      (answers : List (Answer M))
      → payload_at name s.server ≡ some queue
      → run events s ≡ some (t, answers)
      → (left : List M) × (payload_at name t.server ≡ some left)
        × (queue ++ arrivals name events ≡ messages_of name answers ++ left)
  unfolding run arrivals messages_of
  run-messages_of name queue [] s t answers here e =
      (queue, ground (arith, e, here), ground (arith, e, append-nil queue))
  run-messages_of name queue (event ∷ events) s t answers here e =
      elim (Option-cases (step event s)) [
        | inl n ↦ absurd (ground (arith, n, e))
        | inr ((u, first), y) ↦ elim (Option-cases (run events u)) [
          | inl n ↦ absurd (ground (arith, y, n, e))
          | inr ((v, rest), q) ↦
              let (middle, there, order) = step-Ordered name queue event s u first y here in
              let (left, at, below) = run-messages_of name middle events u v rest there q in
              let all : first ++ rest ≡ answers = ground (arith, y, q, e) in
              (
                left,
                ground (arith, y, q, e, at),
                ap (λ l. queue ++ l) (arrivals_cons name event events)
                    ∙ through queue (arrivals name (event ∷ [])) (arrivals name events)
                        (messages_of name first) middle (messages_of name rest) left order below
                    ∙ ap (λ l. l ++ left) (sym (messages_of-append name first rest))
                    ∙ ap (λ l. messages_of name l ++ left) all,
              )
        ]
      ]
