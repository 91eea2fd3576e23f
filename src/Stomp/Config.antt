-- ===== src/Stomp/Config.antt =====
-- stompserver/config.go.
use transport_go.Prelude.{
  ℕ, String, ◌≡◌, ◌⊎◌, ◌&&◌, ◌||◌, not, Bool, true, false, List, [], ◌∷◌, arith, str_eq, eq_iff,
  if◌then◌else◌,
}
use transport_go.Prelude.GoSlice.{All}
use transport_go.Stomp.Text.{has_prefix, ends_with_slash, add_slash, add_slash-ends_with_slash}

-- `heartbeat` is an int64, as a bit pattern.
pub record StompConfig : Type 0 where
  pub heartbeat : ℕ
  pub app_dest_prefix : List String

unfoldable pub close_prefix : String → String
close_prefix p = if not (str_eq p "") && not (ends_with_slash p) then add_slash p else p

-- The loop of `NewStompConfig`.
unfoldable pub close_prefixes : List String → List String
unfolding close_prefix
close_prefixes [] = []
close_prefixes (p ∷ ps) = close_prefix p ∷ close_prefixes ps

unfoldable pub new_stomp_config : ℕ → List String → StompConfig
unfolding close_prefixes
new_stomp_config heart_beat_ms prefixes = record {
  heartbeat = heart_beat_ms;
  app_dest_prefix = close_prefixes prefixes;
}

-- The loop of `IsAppRequestDestination`.
unfoldable pub matches_prefix : String → List String → Bool
matches_prefix destination [] = false
matches_prefix destination (p ∷ ps) =
    (not (str_eq p "") && has_prefix destination p) || matches_prefix destination ps

unfoldable pub is_app_request_destination : StompConfig → String → Bool
unfolding matches_prefix
is_app_request_destination c destination = matches_prefix destination c.app_dest_prefix

-- Every prefix of a new configuration is empty or ends in a slash.
new_stomp_config_closed :
    (heart_beat_ms : ℕ) (prefixes : List String)
    → All
        (λ p. (p ≡ "") ⊎ (ends_with_slash p ≡ true))
        (new_stomp_config heart_beat_ms prefixes).app_dest_prefix
unfolding new_stomp_config
new_stomp_config_closed heart_beat_ms [] = tt
new_stomp_config_closed heart_beat_ms (p ∷ ps) = (
  ground (arith, eq_iff p "", add_slash-ends_with_slash p),
  new_stomp_config_closed heart_beat_ms ps,
)
