-- ===== src/Stomp/Server/Absent.antt =====
-- Tables of subscriptions without any of one connection.
use transport_go.Prelude.{String, ◌≡◌, ◌≢◌, refl, none, [], ◌∷◌, arith, eq_iff}
use transport_go.Prelude.GoMap.{GoMap, lookup, insert, delete, lookup-insert, lookup-delete}
use transport_go.Stomp.Conn.{Subscription}
use transport_go.Stomp.Server.{
  Subscriptions, or_empty, add_subscription, remove_subscription, remove_connection,
}

-- A connection has no entry at any destination.
abbrev pub Absent : String → Subscriptions → Type 0
Absent c [] = Unit
Absent c ((d, conns) ∷ m) = (lookup c conns ≡ none) × Absent c m

pub Absent-lookup :
    (c d : String) (m : Subscriptions) → Absent c m → lookup c (or_empty (lookup d m)) ≡ none
unfolding lookup
Absent-lookup c d [] h = refl
Absent-lookup c d ((e, conns) ∷ m) h = ground (arith, Absent-lookup c d m)

Absent-insert :
    (c d : String) (conns : GoMap (GoMap Subscription)) (m : Subscriptions)
    → Absent c m
    → lookup c conns ≡ none
    → Absent c (insert d conns m)
unfolding insert
Absent-insert c d conns [] h k = (k, tt)
Absent-insert c d conns ((e, old) ∷ m) h k = ground (arith, Absent-insert c d conns m)

pub Absent-remove_connection : (c : String) (m : Subscriptions) → Absent c (remove_connection c m).0
unfolding remove_connection
Absent-remove_connection c [] = tt
Absent-remove_connection c ((d, conns) ∷ m) =
    ground (arith, eq_iff c c, lookup-delete c c conns, Absent-remove_connection c m)

pub Absent-remove_other :
    (c d : String) (m : Subscriptions) → Absent c m → Absent c (remove_connection d m).0
unfolding remove_connection
Absent-remove_other c d [] h = tt
Absent-remove_other c d ((e, conns) ∷ m) h =
    ground (arith, lookup-delete d c conns, Absent-remove_other c d m)

pub Absent-add :
    (c conn dest : String) (sub : Subscription) (m : Subscriptions)
    → conn ≢ c
    → Absent c m
    → Absent c (add_subscription conn dest sub m)
unfolding add_subscription
Absent-add c conn dest sub m n h =
    let conns = or_empty (lookup dest m) in
    let subs = insert sub.id sub (or_empty (lookup conn conns)) in
    Absent-insert c dest (insert conn subs conns) m h
      (ground (arith, eq_iff conn c, lookup-insert conn c subs conns, Absent-lookup c dest m h))

pub Absent-remove :
    (c conn dest : String) (sub : Subscription) (m : Subscriptions)
    → Absent c m
    → Absent c (remove_subscription conn dest sub m).0
unfolding remove_subscription
Absent-remove c conn dest sub m h =
    let conns = or_empty (lookup dest m) in
    let subs = delete sub.id (or_empty (lookup conn conns)) in
    ground (
      arith,
      eq_iff conn c,
      Absent-lookup c dest m h,
      lookup-insert conn c subs conns,
      Absent-insert c dest (insert conn subs conns) m h,
    )
