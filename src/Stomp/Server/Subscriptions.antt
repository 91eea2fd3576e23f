-- ===== src/Stomp/Server/Subscriptions.antt =====
-- The table of subscriptions against what it means: which subscription a client has under an id
-- at a destination.
use transport_go.Prelude.{
  String, ◌≡◌, refl, ◌&&◌, Option, none, some, [], ◌∷◌, arith, str_eq, eq_iff, if◌then◌else◌,
}
use transport_go.Prelude.GoMap.{lookup, insert, delete, lookup-insert, lookup-delete}
use transport_go.Stomp.Conn.{Subscription}
use transport_go.Stomp.Server.{
  ConnEvent, starting, established, closed, subscribed, unsubscribed, message, Subscriptions,
  StompServer, or_empty, add_subscription, remove_subscription, remove_connection,
  handle_connection_event,
}

-- The subscription with this id that a connection has at a destination.
unfoldable pub find_sub : String → String → String → Subscriptions → Option Subscription
find_sub d c i m = lookup i (or_empty (lookup c (or_empty (lookup d m))))

find_sub-add :
    (d c i conn dest : String) (sub : Subscription) (m : Subscriptions)
    → find_sub d c i (add_subscription conn dest sub m)
      ≡ (if str_eq dest d && str_eq conn c && str_eq sub.id i then some sub else find_sub d c i m)
unfolding find_sub add_subscription
find_sub-add d c i conn dest sub m =
    let conns = or_empty (lookup dest m) in
    let subs = or_empty (lookup conn conns) in
    ground (
      arith,
      eq_iff dest d,
      eq_iff conn c,
      lookup-insert dest d (insert conn (insert sub.id sub subs) conns) m,
      lookup-insert conn c (insert sub.id sub subs) conns,
      lookup-insert sub.id i sub subs,
    )

find_sub-remove :
    (d c i conn dest : String) (sub : Subscription) (m : Subscriptions)
    → find_sub d c i (remove_subscription conn dest sub m).0
      ≡ (if str_eq dest d && str_eq conn c && str_eq sub.id i then none else find_sub d c i m)
unfolding find_sub remove_subscription lookup
find_sub-remove d c i conn dest sub m =
    let conns = or_empty (lookup dest m) in
    let subs = or_empty (lookup conn conns) in
    ground (
      arith,
      eq_iff dest d,
      eq_iff conn c,
      eq_iff sub.id i,
      lookup-insert dest d (insert conn (delete sub.id subs) conns) m,
      lookup-insert conn c (delete sub.id subs) conns,
      lookup-delete sub.id i subs,
    )

lookup-remove_connection :
    (d c conn : String) (m : Subscriptions)
    → lookup c (or_empty (lookup d (remove_connection conn m).0))
      ≡ (if str_eq conn c then none else lookup c (or_empty (lookup d m)))
unfolding lookup remove_connection
lookup-remove_connection d c conn [] = ground arith
lookup-remove_connection d c conn ((dest, conns) ∷ m) = ground (
  arith,
  eq_iff dest d,
  eq_iff conn c,
  lookup-delete conn c conns,
  lookup-remove_connection d c conn m,
)

find_sub-remove_connection :
    (d c i conn : String) (m : Subscriptions)
    → find_sub d c i (remove_connection conn m).0
      ≡ (if str_eq conn c then none else find_sub d c i m)
unfolding find_sub lookup
find_sub-remove_connection d c i conn m = ground (arith, lookup-remove_connection d c conn m)

module _ {H : Type 0} where
  -- What an event means for the table: a client has the subscription it made last under an id,
  -- until it gives it up or is closed.
  unfoldable pub after_event :
      ConnEvent H → String → String → String → Option Subscription → Option Subscription
  after_event (closed conn) d c i old = if str_eq conn c then none else old
  after_event (subscribed conn dest sub f) d c i old =
      if str_eq dest d && str_eq conn c && str_eq sub.id i then some sub else old
  after_event (unsubscribed conn dest sub) d c i old =
      if str_eq dest d && str_eq conn c && str_eq sub.id i then none else old
  after_event _ d c i old = old

  -- Each connection event changes the table of subscriptions exactly as its meaning says: it
  -- sets the one subscription it makes, deletes the one it gives up, deletes all those of a
  -- closed connection at every destination, and leaves every other as it was.
  pub handle_connection_event-find_sub :
      (e : ConnEvent H) (s : StompServer) (d c i : String)
      → find_sub d c i (handle_connection_event e s).0.subscriptions_map
        ≡ after_event e d c i (find_sub d c i s.subscriptions_map)
  unfolding handle_connection_event after_event
  handle_connection_event-find_sub (starting conn) s d c i = refl
  handle_connection_event-find_sub (established conn) s d c i = refl
  handle_connection_event-find_sub (message conn dest f) s d c i = refl
  handle_connection_event-find_sub (subscribed conn dest sub f) s d c i =
      find_sub-add d c i conn dest sub s.subscriptions_map
  handle_connection_event-find_sub (unsubscribed conn dest sub) s d c i =
      find_sub-remove d c i conn dest sub s.subscriptions_map
  handle_connection_event-find_sub (closed conn) s d c i =
      find_sub-remove_connection d c i conn s.subscriptions_map
