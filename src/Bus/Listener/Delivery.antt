-- ===== src/Bus/Listener/Delivery.antt =====
-- Which messages reach the callbacks of a listener.
use transport_go.Prelude.{
  ℕ, ◌+◌, ◌&&◌, ◌||◌, ◌≡◌, refl, Bool, true, false, none, some, List, [], ◌∷◌, ◌++◌, arith, sym,
  if◌then◌else◌, ap, ◌∙◌, inl, inr, Bool-cases,
}
use transport_go.Bus.Listener.{
  error_dir, same_direction, Message, MessageHandler, Call, calls_success, calls_error,
  unsubscribes, ids_match, invoke, on_success, on_error, on_direction, handler_wrapper, run,
}

-- With both callbacks set, and not a listener to errors alone.
pub record IsHandled (h : MessageHandler) (s e : ℕ) : Type 0 where
  pub success : h.success_handler ≡ some s
  pub error : h.error_handler ≡ some e
  pub direction : same_direction h.direction error_dir ≡ false

module _ {M : Type 0} where
  -- A message that is for this listener: an error, or any message if it takes all, or a message of
  -- its direction and, unless it ignores ids, with its id.
  abbrev pub accepts : MessageHandler → Message M → Bool
  accepts h msg =
      same_direction msg.direction error_dir
      || (h.all_traffic
          || (same_direction msg.direction h.direction
              && (h.ignore_id || ids_match msg.destination_id h.destination)))

  -- The callback that a message is for.
  abbrev pub callback : ℕ → ℕ → Message M → Call M
  callback s e msg =
      if same_direction msg.direction error_dir then calls_error e msg else calls_success s msg

  -- Only the first accepted message, and the end of the subscription.
  unfoldable pub first_call : MessageHandler → ℕ → ℕ → List (Message M) → List (Call M)
  first_call h s e [] = []
  first_call h s e (msg ∷ msgs) =
      let rest = first_call h s e msgs in
      if accepts h msg then callback s e msg ∷ unsubscribes ∷ [] else rest

  -- Each accepted message.
  unfoldable pub all_calls : MessageHandler → ℕ → ℕ → List (Message M) → List (Call M)
  all_calls h s e [] = []
  all_calls h s e (msg ∷ msgs) =
      let rest = all_calls h s e msgs in if accepts h msg then callback s e msg ∷ rest else rest

  handler_wrapper_done :
      (msg : Message M) (h : MessageHandler)
      → h.invoke_once ≡ some true
      → handler_wrapper msg h ≡ (h, [])
  unfolding handler_wrapper on_success on_error on_direction invoke
  handler_wrapper_done msg h d = ground arith

  run_done :
      (msgs : List (Message M)) (h : MessageHandler)
      → h.invoke_once ≡ some true
      → run msgs h ≡ (h, [])
  unfolding run
  run_done [] h d = refl
  run_done (msg ∷ msgs) h d = ground (arith, handler_wrapper_done msg h d, run_done msgs h d)

  handler_wrapper_once :
      (msg : Message M) (h : MessageHandler) (s e : ℕ)
      → IsHandled h s e
      → h.invoke_once ≡ some false
      → handler_wrapper msg h ≡ (
          if accepts h msg
          then (
            record h { run_count = h.run_count + 1; invoke_once = some true },
            callback s e msg ∷ unsubscribes ∷ [],
          )
          else (h, []))
  unfolding handler_wrapper on_success on_error on_direction invoke
  handler_wrapper_once msg h s e v f = ground (arith, v.success, v.error, v.direction)

  handler_wrapper_stream :
      (msg : Message M) (h : MessageHandler) (s e : ℕ)
      → IsHandled h s e
      → h.invoke_once ≡ none
      → handler_wrapper msg h ≡ (
          if accepts h msg
          then (record h { run_count = h.run_count + 1 }, callback s e msg ∷ [])
          else (h, []))
  unfolding handler_wrapper on_success on_error on_direction invoke
  handler_wrapper_stream msg h s e v f = ground (arith, v.success, v.error, v.direction)

  -- A listener that runs once, with both callbacks set and not yet called, calls over any sequence
  -- of messages exactly one of them, for the first message that it accepts, and is then
  -- unsubscribed; if it accepts none, it calls nothing. An error message is accepted whatever its id.
  pub run_once :
      (msgs : List (Message M)) (h : MessageHandler) (s e : ℕ)
      → IsHandled h s e
      → h.invoke_once ≡ some false
      → (run msgs h).1 ≡ first_call h s e msgs
  unfolding run first_call
  run_once [] h s e v f = refl
  run_once (msg ∷ msgs) h s e v f =
      let g : MessageHandler = record h { run_count = h.run_count + 1; invoke_once = some true } in
      ground
        (arith, handler_wrapper_once msg h s e v f, run_done msgs g refl, run_once msgs h s e v f)

  all_calls_counted :
      (msgs : List (Message M)) (h : MessageHandler) (s e n : ℕ)
      → all_calls (record h { run_count = n }) s e msgs ≡ all_calls h s e msgs
  unfolding all_calls
  all_calls_counted [] h s e n = refl
  all_calls_counted (msg ∷ msgs) h s e n = ground (arith, all_calls_counted msgs h s e n)

  run_cons :
      (msg : Message M) (msgs : List (Message M)) (h g : MessageHandler) (calls : List (Call M))
      → handler_wrapper msg h ≡ (g, calls)
      → (run (msg ∷ msgs) h).1 ≡ calls ++ (run msgs g).1
  unfolding run
  run_cons msg msgs h g calls w = ap (λ r. r.1 ++ (run msgs r.0).1) w

  all_calls_yes :
      (msg : Message M) (msgs : List (Message M)) (h : MessageHandler) (s e : ℕ)
      → accepts h msg ≡ true
      → all_calls h s e (msg ∷ msgs) ≡ callback s e msg ∷ all_calls h s e msgs
  unfolding all_calls
  all_calls_yes msg msgs h s e y =
      ap (λ b. if b then callback s e msg ∷ all_calls h s e msgs else all_calls h s e msgs) y

  all_calls_no :
      (msg : Message M) (msgs : List (Message M)) (h : MessageHandler) (s e : ℕ)
      → accepts h msg ≡ false
      → all_calls h s e (msg ∷ msgs) ≡ all_calls h s e msgs
  unfolding all_calls
  all_calls_no msg msgs h s e n =
      ap (λ b. if b then callback s e msg ∷ all_calls h s e msgs else all_calls h s e msgs) n

  -- A listener to a stream, with both callbacks set, calls over any sequence of messages one of
  -- them for each message that it accepts, in order, and never unsubscribes. An error message is
  -- accepted whatever its id.
  pub run_stream :
      (msgs : List (Message M)) (h : MessageHandler) (s e : ℕ)
      → IsHandled h s e
      → h.invoke_once ≡ none
      → (run msgs h).1 ≡ all_calls h s e msgs
  unfolding run all_calls
  run_stream [] h s e v f = refl
  run_stream (msg ∷ msgs) h s e v f =
      let g : MessageHandler = record h { run_count = h.run_count + 1 } in
      let w : IsHandled g s e = record {
        success = v.success;
        error = v.error;
        direction = v.direction;
      } in
      let outcome : MessageHandler × List (Call M) = (g, callback s e msg ∷ []) in
      let answer = handler_wrapper_stream msg h s e v f in
      elim (Bool-cases (accepts h msg)) [
        | inl y ↦
            run_cons msg msgs h g (callback s e msg ∷ [])
              (answer ∙ ap (λ b. if b then outcome else (h, [])) y)
            ∙ ap (λ cs. callback s e msg ∷ cs)
                (run_stream msgs g s e w f ∙ all_calls_counted msgs h s e (h.run_count + 1))
            ∙ sym (all_calls_yes msg msgs h s e y)
        | inr n ↦
            run_cons msg msgs h h [] (answer ∙ ap (λ b. if b then outcome else (h, [])) n)
            ∙ run_stream msgs h s e v f
            ∙ sym (all_calls_no msg msgs h s e n)
      ]
