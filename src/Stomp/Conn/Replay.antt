-- ===== src/Stomp/Conn/Replay.antt =====
-- The subscriptions of a connection, as its events tell them.
use transport_go.Prelude.{
  String, ◌≡◌, refl, ◌∙◌, ap, sym, subst, Bool, some, List, [], ◌∷◌, ◌++◌, arith, inl, inr,
  Option-cases, eq_iff,
}
use transport_go.Prelude.GoMap.{GoMap, lookup, insert, delete, lookup-insert, lookup-delete}
use transport_go.Stomp.Config.{StompConfig}
use transport_go.Stomp.Frame.{FrameLib, Frame, HeaderName}
use transport_go.Stomp.Conn.Loop.{Keeps, run-keeps}
use transport_go.Stomp.Conn.{
  Subscription, StompConn, Output, raises, subscribe_to_topic, unsubscribe_from_topic, close,
  handle_connect, accept_connect,
}
use transport_go.Stomp.Conn.Handlers.{
  handle_disconnect, handle_send, handle_subscribe, handle_unsubscribe, send_receipt_response,
  populate_message_id_header,
}
use transport_go.Stomp.Conn.Running.{Input, run}

-- Each subscription stands under its own id.
abbrev pub IsKeyed : GoMap Subscription → Type 0
IsKeyed m = (k : String) (sub : Subscription) → lookup k m ≡ some sub → sub.id ≡ k

module _ {H : Type 0} where
  -- What the events say of the subscriptions: a subscribe event adds one, an unsubscribe event
  -- takes it out.
  abbrev pub replay_one : Output H → GoMap Subscription → GoMap Subscription
  replay_one (raises (subscribe_to_topic dest sub f)) m = insert sub.id sub m
  replay_one (raises (unsubscribe_from_topic dest sub)) m = delete sub.id m
  replay_one _ m = m

  abbrev pub replay : List (Output H) → GoMap Subscription → GoMap Subscription
  replay [] m = m
  replay (o ∷ os) m = replay os (replay_one o m)

  replay_one-IsKeyed :
      (o : Output H) (m : GoMap Subscription) → IsKeyed m → IsKeyed (replay_one o m)
  replay_one-IsKeyed (raises (subscribe_to_topic dest sub f)) m v k t e =
      ground (arith, lookup-insert sub.id k sub m, eq_iff sub.id k, v k t)
  replay_one-IsKeyed (raises (unsubscribe_from_topic dest sub)) m v k t e =
      ground (arith, lookup-delete sub.id k m, v k t)
  replay_one-IsKeyed _ m v k t e = v k t e

  replay-IsKeyed :
      (os : List (Output H)) (m : GoMap Subscription) → IsKeyed m → IsKeyed (replay os m)
  replay-IsKeyed [] m v = v
  replay-IsKeyed (o ∷ os) m v = replay-IsKeyed os (replay_one o m) (replay_one-IsKeyed o m v)

  replay-append :
      (os ps : List (Output H)) (m : GoMap Subscription)
      → replay (os ++ ps) m ≡ replay ps (replay os m)
  replay-append [] ps m = refl
  replay-append (o ∷ os) ps m = replay-append os ps (replay_one o m)

module _ (L : FrameLib) (cfg : StompConfig) where
  replay-connect :
      (w : Bool) (f : Frame L.Header) (c : StompConn)
      → let r = handle_connect L cfg w f c in r.0.subscriptions ≡ replay r.1 c.subscriptions
  unfolding handle_connect accept_connect
  replay-connect w f c = ground arith

  replay-receipt :
      (w : Bool) (f : Frame L.Header) (m : GoMap Subscription)
      → replay (send_receipt_response L w f).1 m ≡ m
  unfolding send_receipt_response
  replay-receipt w f m = ground arith

  replay-unsubscribe :
      (w : Bool) (f : Frame L.Header) (c : StompConn)
      → IsKeyed c.subscriptions
      → let r = handle_unsubscribe L w f c in r.0.subscriptions ≡ replay r.1 c.subscriptions
  unfolding handle_unsubscribe send_receipt_response
  replay-unsubscribe w f c v = elim (Option-cases (L.contains f.header HeaderName.id)) [
    | inl e ↦ ground arith
    | inr (k, e) ↦ elim (Option-cases (lookup k c.subscriptions)) [
      | inl g ↦ ground arith
      | inr (sub, g) ↦ ground (arith, v k sub g)
    ]
  ]

  replay-subscribe :
      (f : Frame L.Header) (c : StompConn)
      → let r = handle_subscribe L f c in r.0.subscriptions ≡ replay r.1 c.subscriptions
  unfolding handle_subscribe
  replay-subscribe f c = ground arith

  replay-send :
      (w : Bool) (f : Frame L.Header) (c : StompConn)
      → let r = handle_send L cfg w f c in r.0.subscriptions ≡ replay r.1 c.subscriptions
  unfolding handle_send send_receipt_response
  replay-send w f c = ground arith

  replay-disconnect :
      (w : Bool) (f : Frame L.Header) (c : StompConn)
      → let r = handle_disconnect L w f c in r.0.subscriptions ≡ replay r.1 c.subscriptions
  unfolding handle_disconnect send_receipt_response close
  replay-disconnect w f c = ground arith

  replay-Keeps :
      Keeps L cfg (λ a b os. IsKeyed a.subscriptions → b.subscriptions ≡ replay os a.subscriptions)
  unfolding populate_message_id_header close
  replay-Keeps = record {
    nil = λ c v. refl;
    trans = λ a b c os ps h k v.
        k (subst IsKeyed (sym (h v)) (replay-IsKeyed os a.subscriptions v))
        ∙ ap (replay ps) (h v)
        ∙ sym (replay-append os ps a.subscriptions);
    on_connect = λ w f c o v. replay-connect w f c;
    on_disconnect = λ w f c o v. replay-disconnect w f c;
    on_send = λ w f c o v. replay-send w f c;
    on_subscribe = λ f c o v. replay-subscribe f c;
    on_unsubscribe = λ w f c o v. replay-unsubscribe w f c v;
    on_error = λ e c v. refl;
    on_heart_beat = λ c v. refl;
    on_frame = λ f c v. ground arith;
    on_close = λ c v. ground arith;
  }

  -- Over every history of a connection, from a state whose subscriptions stand under their ids,
  -- the subscriptions at the end are those at the start as changed by the subscribe and
  -- unsubscribe events that were raised, in order: whoever follows the events knows them.
  pub run-replay :
      (is : List (Bool × Input L)) (c : StompConn)
      → IsKeyed c.subscriptions
      → let r = run L cfg is c in r.0.subscriptions ≡ replay r.1 c.subscriptions
  run-replay is c v = run-keeps L cfg _ replay-Keeps is c v
