-- ===== src/Bus/Channel/Examples.antt =====
-- Channels with concrete handlers and broker subscriptions.
use transport_go.Prelude.{◌≡◌, true, false, ℕ}
use transport_go.Bus.Channel.{Channel, ChannelEventHandler, new_channel, send, subscribe_handler}
use transport_go.Bus.Channel.Handlers.{is_live, send_starts_live}
use transport_go.Prelude.GoSlice.{select}

abbrev live : ℕ → ChannelEventHandler
live n = record { uuid = n; run_once = false; run_count = 5 }

abbrev spent : ℕ → ChannelEventHandler
spent n = record { uuid = n; run_once = true; run_count = 1 }

abbrev one_spent : Channel
one_spent =
    subscribe_handler (live 3)
      (subscribe_handler (spent 2) (subscribe_handler (live 1) (new_channel "a")))

send_starts_live_example : (send one_spent).1 ≡ select is_live one_spent.event_handlers
send_starts_live_example = send_starts_live one_spent
