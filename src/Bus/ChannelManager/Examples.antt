-- ===== src/Bus/ChannelManager/Examples.antt =====
-- A table with one channel, and broker subscriptions.
use transport_go.Prelude.{
  ℕ, String, ◌≡◌, refl, true, false, str_eq, if◌then◌else◌, none, some, [], ◌∷◌,
}
use transport_go.Prelude.GoMap.{lookup, insert}
use transport_go.Bus.Channel.{
  ConnectionSub, new_channel, add_broker_subscription, Channel, Subscription,
}
use transport_go.Bus.ChannelManager.{
  Channels, create_channel, mark_channel_as_local, mark_channel_as_galactic, broker_unsubscribed,
  notify,
}
use transport_go.Bus.ChannelManager.Broker.{
  mark_channel_as_local_panics, mark_channel_as_local-mark_channel_as_galactic,
}

abbrev sub : ℕ → Subscription
sub n = record { id = n; destination = "/topic/a" }

abbrev of_sub : ℕ → ConnectionSub
of_sub n = record { c = 1; s = sub n }

abbrev busy : Channel
busy = add_broker_subscription 1 (sub 12) (add_broker_subscription 1 (sub 11) (new_channel "a"))

abbrev table : Channels
table = insert "a" busy (create_channel "b" []).0

mark_channel_as_local_panics_example : mark_channel_as_local (λ _. true) "a" table ≡ none
unfolding insert create_channel new_channel lookup add_broker_subscription
mark_channel_as_local_panics_example =
    mark_channel_as_local_panics (λ _. true) "a" table busy [] (of_sub 11) (of_sub 12) refl refl
      refl tt

mark_channel_as_local-mark_channel_as_galactic_example :
    (back : Channels) × (mark_channel_as_local
        (λ _. true)
        "b"
        (mark_channel_as_galactic "b" "/topic/b" (some 1) (some (sub 3)) table).0.0
      ≡ some ((back, broker_unsubscribed "b" "/topic/a" ∷ []), none))
    × ((j : String)
        → lookup j back ≡ (
            if str_eq "b" j
            then some (record (new_channel "b") {
              broker_mapped_event =
                  notify false (notify true (new_channel "b").broker_mapped_event);
            })
            else lookup j table))
unfolding insert create_channel new_channel lookup add_broker_subscription
mark_channel_as_local-mark_channel_as_galactic_example =
    mark_channel_as_local-mark_channel_as_galactic (λ _. true) "b" "/topic/b" 1 (sub 3) table
      (new_channel "b") refl refl refl refl refl refl
