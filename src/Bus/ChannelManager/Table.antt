-- ===== src/Bus/ChannelManager/Table.antt =====
-- Which channels there are after each operation.
use transport_go.Prelude.{
  ℕ, String, ◌≡◌, Bool, true, false, arith, str_eq, eq_iff, if◌then◌else◌, Option-cases, inl, inr,
}
use transport_go.Prelude.GoMap.{lookup, contains, lookup-insert, lookup-delete}
use transport_go.Bus.Channel.{
  ChannelEventHandler, new_channel, subscribe_handler, unsubscribe_handler,
}
use transport_go.Bus.ChannelManager.{
  Channels, create_channel, destroy_channel, subscribe_channel_handler, unsubscribe_channel_handler,
}

pub contains-create_channel :
    (made name : String) (m : Channels)
    → contains name (create_channel made m).0 ≡ (if str_eq made name then true else contains name m)
unfolding create_channel
contains-create_channel made name m =
    ground (arith, eq_iff made name, lookup-insert made name (new_channel made) m)

pub contains-destroy_channel :
    (gone name : String) (m : Channels)
    → contains name (destroy_channel gone m).0
      ≡ (if str_eq gone name then false else contains name m)
unfolding destroy_channel
contains-destroy_channel gone name m = ground (arith, eq_iff gone name, lookup-delete gone name m)

pub contains-subscribe_channel_handler :
    (at name : String) (id : ℕ) (run_once : Bool) (m : Channels)
    → contains name (subscribe_channel_handler at id run_once m).0.0 ≡ contains name m
unfolding subscribe_channel_handler
contains-subscribe_channel_handler at name id run_once m = elim (Option-cases (lookup at m)) [
  | inl e ↦ ground (arith, e)
  | inr (ch, e) ↦
      let h : ChannelEventHandler = record { uuid = id; run_once = run_once; run_count = 0 } in
      ground (arith, e, eq_iff at name, lookup-insert at name (subscribe_handler h ch) m)
]

pub contains-unsubscribe_channel_handler :
    (at name : String) (id : ℕ) (m : Channels)
    → contains name (unsubscribe_channel_handler at id m).0.0 ≡ contains name m
unfolding unsubscribe_channel_handler
contains-unsubscribe_channel_handler at name id m = elim (Option-cases (lookup at m)) [
  | inl e ↦ ground (arith, e)
  | inr (ch, e) ↦
      ground (arith, e, eq_iff at name, lookup-insert at name (unsubscribe_handler id ch).0 m)
]
