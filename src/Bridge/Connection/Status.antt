-- ===== src/Bridge/Connection/Status.antt =====
-- What a destination is to a connection.
use transport_go.Prelude.{ℕ, Bool, true, false}

-- A destination was never subscribed, is live under an id, or is closed for good.
pub data Status : Type 0 where
  fresh over : Status
  live : ℕ → Status

abbrev pub is_known : Status → Bool
is_known fresh = false
is_known _ = true
