-- ===== src/Stomp/Server/Delivery.antt =====
-- Which clients the frames of a server go to.
use transport_go.Prelude.{
  ℕ, Bool-cases, inl, inr, String, ◌≡◌, ◌≢◌, none, List, [], ◌∷◌, arith, str_eq, eq_iff,
}
use transport_go.Prelude.GoSlice.{All, All-append}
use transport_go.Prelude.GoMap.{GoMap, lookup}
use transport_go.Stomp.Frame.{Frame}
use transport_go.Stomp.Conn.{Subscription}
use transport_go.Stomp.Server.{
  Call, sends, ConnEvent, starting, established, closed, subscribed, unsubscribed, message,
  close_server, send_message, send_private_message, Input, api_event, connection_event, StompServer,
  handle_connection_event, handle_branch, send_frame, send_to_all, send_to_subscriptions,
  send_frame_to_client, run, tell_event, tell_subscribe, tell_unsubscribe, tell_request,
  tell_all_unsubscribed, close_connections,
}
use transport_go.Stomp.Server.Absent.{
  Absent, Absent-lookup, Absent-remove_connection, Absent-remove_other, Absent-add, Absent-remove,
}

module _ {H : Type 0} where
  -- A frame is not for this connection.
  abbrev pub NotTo : String → Call H → Type 0
  NotTo c (sends d sub f) = d ≢ c
  NotTo c _ = Unit

  -- No subscription of this connection.
  abbrev pub NotSubscribing : String → Input H → Type 0
  NotSubscribing c (connection_event (subscribed d dest sub f)) = d ≢ c
  NotSubscribing c _ = Unit

  Absent-step :
      (c : String) (e : ConnEvent H) (s : StompServer)
      → NotSubscribing c (connection_event e)
      → Absent c s.subscriptions_map
      → Absent c (handle_connection_event e s).0.subscriptions_map
  unfolding handle_connection_event handle_branch
  Absent-step c (starting d) s n h = h
  Absent-step c (established d) s n h = h
  Absent-step c (message d dest f) s n h = h
  Absent-step c (closed d) s n h = Absent-remove_other c d s.subscriptions_map h
  Absent-step c (subscribed d dest sub f) s n h = Absent-add c d dest sub s.subscriptions_map n h
  Absent-step c (unsubscribed d dest sub) s n h = Absent-remove c d dest sub s.subscriptions_map h

module _ (H : Type 0) where
  tell_subscribe-NotTo :
      (c : String) (hs : List ℕ) (d i e : String) (f : Frame H)
      → All {A = Call H} (NotTo c) (tell_subscribe hs d i e f)
  unfolding tell_subscribe
  tell_subscribe-NotTo c [] d i e f = tt
  tell_subscribe-NotTo c (h ∷ hs) d i e f = (tt, tell_subscribe-NotTo c hs d i e f)

  tell_unsubscribe-NotTo :
      (c : String) (hs : List ℕ) (d i e : String)
      → All {A = Call H} (NotTo c) (tell_unsubscribe hs d i e)
  unfolding tell_unsubscribe
  tell_unsubscribe-NotTo c [] d i e = tt
  tell_unsubscribe-NotTo c (h ∷ hs) d i e = (tt, tell_unsubscribe-NotTo c hs d i e)

  tell_request-NotTo :
      (c : String) (hs : List ℕ) (d : String) (b : List ℕ) (e : String)
      → All {A = Call H} (NotTo c) (tell_request hs d b e)
  unfolding tell_request
  tell_request-NotTo c [] d b e = tt
  tell_request-NotTo c (h ∷ hs) d b e = (tt, tell_request-NotTo c hs d b e)

  tell_all_unsubscribed-NotTo :
      (c : String) (hs : List ℕ) (d : String) (subs : List Subscription)
      → All {A = Call H} (NotTo c) (tell_all_unsubscribed hs d subs)
  unfolding tell_all_unsubscribed
  tell_all_unsubscribed-NotTo c hs d [] = tt
  tell_all_unsubscribed-NotTo c hs d (sub ∷ subs) =
      All-append {A = Call H} (NotTo c) (tell_unsubscribe hs d sub.id sub.destination)
        (tell_all_unsubscribed hs d subs) (tell_unsubscribe-NotTo c hs d sub.id sub.destination)
        (tell_all_unsubscribed-NotTo c hs d subs)

  tell_event-NotTo :
      (c : String) (s : StompServer) (e : ConnEvent H) → All {A = Call H} (NotTo c) (tell_event s e)
  unfolding tell_event
  tell_event-NotTo c s e = ground arith

  handle_branch-NotTo :
      (c : String) (e : ConnEvent H) (s : StompServer)
      → All {A = Call H} (NotTo c) (handle_branch e s).1
  unfolding handle_branch
  handle_branch-NotTo c (starting d) s = tt
  handle_branch-NotTo c (established d) s = tt
  handle_branch-NotTo c (message d dest f) s =
      ground (arith, tell_request-NotTo c s.application_request_callbacks dest f.body d)
  handle_branch-NotTo c (closed d) s = tell_all_unsubscribed-NotTo c _ d _
  handle_branch-NotTo c (subscribed d dest sub f) s = tell_subscribe-NotTo c _ d sub.id dest f
  handle_branch-NotTo c (unsubscribed d dest sub) s =
      ground (arith, tell_unsubscribe-NotTo c s.unsubscribe_callbacks d sub.id dest)

  handle_connection_event-NotTo :
      (c : String) (e : ConnEvent H) (s : StompServer)
      → All {A = Call H} (NotTo c) (handle_connection_event e s).1
  unfolding handle_connection_event
  handle_connection_event-NotTo c (established d) s = tt
  handle_connection_event-NotTo c (starting d) s =
      let e = (starting d) in
      All-append (NotTo {H = H} c) (handle_branch e s).1 (tell_event s e)
        (handle_branch-NotTo c e s) (tell_event-NotTo c s e)
  handle_connection_event-NotTo c (message d dest f) s =
      let e = (message d dest f) in
      All-append (NotTo {H = H} c) (handle_branch e s).1 (tell_event s e)
        (handle_branch-NotTo c e s) (tell_event-NotTo c s e)
  handle_connection_event-NotTo c (closed d) s =
      let e = (closed d) in
      All-append (NotTo {H = H} c) (handle_branch e s).1 (tell_event s e)
        (handle_branch-NotTo c e s) (tell_event-NotTo c s e)
  handle_connection_event-NotTo c (subscribed d dest sub f) s =
      let e = (subscribed d dest sub f) in
      All-append (NotTo {H = H} c) (handle_branch e s).1 (tell_event s e)
        (handle_branch-NotTo c e s) (tell_event-NotTo c s e)
  handle_connection_event-NotTo c (unsubscribed d dest sub) s =
      let e = (unsubscribed d dest sub) in
      All-append (NotTo {H = H} c) (handle_branch e s).1 (tell_event s e)
        (handle_branch-NotTo c e s) (tell_event-NotTo c s e)

  send_to_subscriptions-NotTo :
      (c d : String) (f : Frame H) (subs : GoMap Subscription)
      → d ≢ c
      → All {A = Call H} (NotTo c) (send_to_subscriptions d f subs)
  unfolding send_to_subscriptions
  send_to_subscriptions-NotTo c d f [] n = tt
  send_to_subscriptions-NotTo c d f ((i, sub) ∷ subs) n =
      (n, send_to_subscriptions-NotTo c d f subs n)

  send_to_all-NotTo :
      (c : String) (f : Frame H) (conns : GoMap (GoMap Subscription))
      → lookup c conns ≡ none
      → All {A = Call H} (NotTo c) (send_to_all f conns)
  unfolding send_to_all lookup
  send_to_all-NotTo c f [] h = tt
  send_to_all-NotTo c f ((d, subs) ∷ conns) h =
      All-append {A = Call H} (NotTo c) (send_to_subscriptions d f subs) (send_to_all f conns)
        (send_to_subscriptions-NotTo c d f subs (ground (arith, eq_iff d c)))
        (send_to_all-NotTo c f conns (ground arith))

  send_frame-NotTo :
      (c dest : String) (f : Frame H) (s : StompServer)
      → Absent c s.subscriptions_map
      → All {A = Call H} (NotTo c) (send_frame dest f s)
  unfolding send_frame
  send_frame-NotTo c dest f s h =
      send_to_all-NotTo c f _ (Absent-lookup c dest s.subscriptions_map h)

  send_frame_to_client-NotTo :
      (c d dest : String) (f : Frame H) (s : StompServer)
      → Absent c s.subscriptions_map
      → All {A = Call H} (NotTo c) (send_frame_to_client d dest f s)
  unfolding send_frame_to_client send_to_subscriptions
  send_frame_to_client-NotTo c d dest f s h = elim (Bool-cases (str_eq d c)) [
    | inr n ↦ send_to_subscriptions-NotTo c d f _ (ground (arith, eq_iff d c))
    | inl e ↦ ground (arith, eq_iff d c, Absent-lookup c dest s.subscriptions_map h)
  ]

  close_connections-NotTo :
      (c : String) (cs : GoMap (Unit {0})) → All {A = Call H} (NotTo c) (close_connections cs)
  unfolding close_connections
  close_connections-NotTo c [] = tt
  close_connections-NotTo c ((d, u) ∷ cs) = (tt, close_connections-NotTo c cs)

  run-NotTo :
      (c : String) (is : List (Input H)) (s : StompServer)
      → All (NotSubscribing c) is
      → Absent c s.subscriptions_map
      → All {A = Call H} (NotTo c) (run is s).1
  unfolding run
  run-NotTo c [] s n h = tt
  run-NotTo c (api_event close_server ∷ is) s n h =
      (tt, close_connections-NotTo c s.connections_map)
  run-NotTo c (api_event (send_message dest f) ∷ is) s n h =
      All-append {A = Call H} (NotTo c) (send_frame dest f s) (run is s).1
        (send_frame-NotTo c dest f s h) (run-NotTo c is s n.1 h)
  run-NotTo c (api_event (send_private_message d dest f) ∷ is) s n h =
      All-append {A = Call H} (NotTo c) (send_frame_to_client d dest f s) (run is s).1
        (send_frame_to_client-NotTo c d dest f s h) (run-NotTo c is s n.1 h)
  run-NotTo c (connection_event e ∷ is) s n h =
      All-append {A = Call H} (NotTo c) (handle_connection_event e s).1
        (run is (handle_connection_event e s).0).1 (handle_connection_event-NotTo c e s)
        (run-NotTo c is (handle_connection_event e s).0 n.1 (Absent-step c e s n.0 h))

  -- Once the server has taken the closed event of a connection, no message, to a destination or
  -- to a client, is sent to it in any later history in which it does not subscribe again.
  pub run-closed_silent :
      (c : String) (is : List (Input H)) (s : StompServer)
      → All (NotSubscribing c) is
      → All {A = Call H} (NotTo c) (run (connection_event (closed c) ∷ is) s).1
  unfolding run handle_connection_event handle_branch
  run-closed_silent c is s n =
      All-append {A = Call H} (NotTo c) (handle_connection_event (closed c) s).1
        (run is (handle_connection_event {H = H} (closed c) s).0).1
        (handle_connection_event-NotTo c (closed c) s)
        (run-NotTo c is (handle_connection_event {H = H} (closed c) s).0 n
          (Absent-remove_connection c s.subscriptions_map))

  -- A private message goes to no other client than the one it names.
  send_frame_to_client-private :
      (c d dest : String) (f : Frame H) (s : StompServer)
      → d ≢ c
      → All {A = Call H} (NotTo c) (send_frame_to_client d dest f s)
  unfolding send_frame_to_client
  send_frame_to_client-private c d dest f s n = send_to_subscriptions-NotTo c d f _ n
