-- ===== src/Plank/Server/Exchange/Rounds.antt =====
-- Requests that come one after the other, each answered by its service before the next one comes.
use Prim.Native.String.{String}
use mathlib.Core.List.{append_assoc}
use transport_go.Prelude.{◌≡◌, refl, arith, eq_iff, ℕ, some, List, [], ◌∷◌, ◌++◌, ap, sym, ◌∙◌, map}
use transport_go.Prelude.GoMap.{lookup}
use transport_go.Plank.Server.Routes.{endpoint}
use transport_go.Plank.Server.{PlatformServer}
use transport_go.Plank.Server.Exchange.{
  Traffic, Answer, Exchange, comes, arrives, takes, take_request, payload_at, set_payload, relay,
  come, take, step, run,
}
use transport_go.Plank.Server.Exchange.Order.{payload_at-set_payload, relay-payload_at}

module _ {M : Type 0} (key name : String) where
  -- Each request with the message that its service sends for it.
  unfoldable pub rounds : List (ℕ × M) → List (Exchange M)
  rounds [] = []
  rounds ((id, message) ∷ rest) = comes id key ∷ arrives name message ∷ takes id ∷ rounds rest

  -- The requests in order, each with the message at its position.
  unfoldable pub answers_in_order : List ℕ → List M → List (Answer M)
  answers_in_order (id ∷ ids) (message ∷ messages) =
      record { request = id; channel = name; message = some message }
      ∷ answers_in_order ids messages
  answers_in_order _ _ = []

first_of :
    {M : Type 0} (queue : List M) (message : M)
    → (first : M) × (rest : List M) × (queue ++ message ∷ [] ≡ first ∷ rest)
first_of [] message = (message, [], refl)
first_of (first ∷ queue) message = (first, queue ++ message ∷ [], refl)

module _ {B F M : Type 0} where
  set_payload-same :
      (name : String) (messages : List M) (s : PlatformServer B F M)
      → (set_payload name messages s).endpoint_handler_map ≡ s.endpoint_handler_map
  set_payload-same name messages s = ground arith

  relay-same :
      (name : String) (message : M) (s : PlatformServer B F M)
      → (relay name message s).endpoint_handler_map ≡ s.endpoint_handler_map
  unfolding relay
  relay-same name message s = ground arith

module _ {B F M : Type 0} where
  come-some :
      (id : ℕ) (key name : String) (builder : B) (timeout : ℕ) (s : Traffic B F M)
      → lookup key s.server.endpoint_handler_map ≡ some (endpoint name builder timeout)
      → step (comes id key) s ≡ some (record s { waiting = s.waiting ++ (id, name) ∷ [] }, [])
  unfolding step come
  come-some id key name builder timeout s bridged = ground (arith, bridged)

  take-some :
      (id : ℕ) (name : String) (first : M) (rest : List M) (s : PlatformServer B F M)
      → payload_at name s ≡ some (first ∷ rest)
      → step (takes id) (record { server = s; waiting = (id, name) ∷ [] })
        ≡ some (
          record { server = set_payload name rest s; waiting = [] },
          record { request = id; channel = name; message = some first } ∷ [],
        )
  unfolding step take take_request
  take-some id name first rest s here = ground (arith, here)

  run_cons :
      (event : Exchange M) (events : List (Exchange M)) (s t u : Traffic B F M)
      (front back : List (Answer M))
      → step event s ≡ some (t, front)
      → run events t ≡ some (u, back)
      → run (event ∷ events) s ≡ some (u, front ++ back)
  unfolding run
  run_cons event events s t u front back e f = ground (arith, e, f)

module _ {B F M : Type 0} (key name : String) (builder : B) (timeout : ℕ) where
  -- No request waits, the endpoint is bridged to the channel, and these messages wait for it.
  abbrev pub IsIdle : List M → Traffic B F M → Type 0
  IsIdle queue s =
      (s.waiting ≡ [])
      × (lookup key s.server.endpoint_handler_map ≡ some (endpoint name builder timeout))
      × (payload_at name s.server ≡ some queue)

  -- A round with the events behind it.
  round-run :
      (queue rest : List M) (id : ℕ) (message first : M) (events : List (Exchange M))
      (s : Traffic B F M) (answers : List (Answer M))
      → IsIdle queue s
      → queue ++ message ∷ [] ≡ first ∷ rest
      → ((t : Traffic B F M)
          → IsIdle rest t
          → (u : Traffic B F M) × (run events t ≡ some (u, answers)))
      → (u : Traffic B F M) × (run (comes id key ∷ arrives name message ∷ takes id ∷ events) s
          ≡ some (u, record { request = id; channel = name; message = some first } ∷ answers))
  unfolding step
  round-run queue rest id message first events s answers (nobody, bridged, here) e later =
      let served = relay name message s.server in
      let t : Traffic B F M = record { server = set_payload name rest served; waiting = [] } in
      let relayed : payload_at name served ≡ some (queue ++ message ∷ []) =
        ground (arith, relay-payload_at name name message queue s.server here, eq_iff name name) in
      let filled : payload_at name served ≡ some (first ∷ rest) = ground (arith, relayed, e) in
      let taken = payload_at-set_payload name name rest (queue ++ message ∷ []) served relayed in
      let idle : IsIdle rest t = (
        refl,
        ap (λ m. lookup key m)
              (set_payload-same name rest served ∙ relay-same name message s.server)
            ∙ bridged,
        ground (arith, taken, eq_iff name name),
      ) in
      let (u, q) = later t idle in
      let come = come-some id key name builder timeout s bridged in
      let waiting : Traffic B F M = record s { waiting = (id, name) ∷ [] } in
      (
        u,
        run_cons (comes id key) (arrives name message ∷ takes id ∷ events) s waiting u []
            (record { request = id; channel = name; message = some first } ∷ answers)
            (ground (arith, come, nobody))
            (run_cons (arrives name message) (takes id ∷ events) waiting
              (record { server = served; waiting = (id, name) ∷ [] }) u []
              (record { request = id; channel = name; message = some first } ∷ answers) refl
              (run_cons (takes id) events (record { server = served; waiting = (id, name) ∷ [] }) t
                u (record { request = id; channel = name; message = some first } ∷ []) answers
                (take-some id name first rest served filled) q)),
      )

  -- Requests to an endpoint, each of which comes when no other waits and takes a message after its
  -- service has sent one, all get an answer: in order, first the messages that waited for the
  -- channel before, then those that the service sent for them. With no message waiting each request
  -- gets its own, and a message too late for an earlier request shifts all of them.
  pub run-rounds :
      (queue : List M) (requests : List (ℕ × M)) (s : Traffic B F M)
      → IsIdle queue s
      → (t : Traffic B F M) × (run (rounds key name requests) s
          ≡ some (
            t,
            answers_in_order key name (map (λ r. r.0) requests) (queue ++ map (λ r. r.1) requests),
          ))
  unfolding rounds answers_in_order run
  run-rounds queue [] s idle = (s, refl)
  run-rounds queue ((id, message) ∷ requests) s idle =
      let (first, rest, e) = first_of queue message in
      let ids = map (λ r. r.0) requests in
      let sent = map (λ r. r.1) requests in
      let (t, q) =
        round-run queue rest id message first (rounds key name requests) s
          (answers_in_order key name ids (rest ++ sent)) idle e
          (λ u quiet. run-rounds rest requests u quiet) in
      let order : queue ++ message ∷ sent ≡ first ∷ (rest ++ sent) =
        sym (append_assoc queue (message ∷ []) sent) ∙ ap (λ l. l ++ sent) e in
      (t, q ∙ ap (λ l. some (t, answers_in_order key name (id ∷ ids) l)) (sym order))
