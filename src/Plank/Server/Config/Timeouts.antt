-- ===== src/Plank/Server/Config/Timeouts.antt =====
-- The time-outs of a configuration.
use Prim.Native.String.{String}
use transport_go.Prelude.{
  ◌≡◌, arith, ℕ, zero, suc, ◌*◌, ◌<◌, ◌≤◌, true, false, Option, none, some, ◌⊎◌, inl, inr,
  if◌then◌else◌, Option-cases, Bool-cases, ap, ◌∙◌,
}
use transport_go.Prelude.Int64.{mul64, signed_lt}
use transport_go.Plank.Utils.Paths.{is_empty}
use transport_go.Plank.Server.Config.{
  PlatformServerConfig, Flags, tls_of, minute, in_minutes, set_timeouts,
  generate_platform_server_config,
}

-- Whether a number of minutes is not positive, or no more than fit a duration.
abbrev pub IsFit : ℕ → Type 0
IsFit given = (signed_lt 0 given ≡ false) ⊎ (given ≤ 153722867)

mul64-minute :
    (m : ℕ)
    → 0 < m
    → m ≤ 153722867
    → (mul64 m minute ≡ m * minute) × (signed_lt 0 (m * minute) ≡ true)
mul64-minute m positive small = (omega arith, ground arith)

is_positive : (given : ℕ) → signed_lt 0 given ≡ true → 0 < given
is_positive zero e = absurd (ground (arith, e))
is_positive (suc n) e = omega arith

-- The number of minutes that is used.
abbrev pub used : ℕ → ℕ → ℕ
used default given = if signed_lt 0 given then given else default

IsFit-used :
    (default given : ℕ)
    → default ≤ 5
    → 0 < default
    → IsFit given
    → (0 < used default given) × (used default given ≤ 153722867)
IsFit-used default given small positive fits = elim (Bool-cases (signed_lt 0 given)) [
  | inr n ↦ ground (arith, n)
  | inl y ↦ ground (arith, y, fits, is_positive given y)
]

in_minutes-exact :
    (default given : ℕ)
    → default ≤ 5
    → 0 < default
    → IsFit given
    → (in_minutes default given ≡ used default given * minute)
      × (signed_lt 0 (in_minutes default given) ≡ true)
unfolding in_minutes
in_minutes-exact default given small positive fits =
    let (above, below) = IsFit-used default given small positive fits in
    let (exact, sign) = mul64-minute (used default given) above below in
    (exact, ap (λ v. signed_lt 0 v) exact ∙ sign)

module _ {G : Type 0} (compile : String → Option G) (absolute : String → Option String)
    (read_config : String → Option (PlatformServerConfig G)) where
  -- The minutes that the flags give, or the file that they name: for the shutdown, and for a bridge.
  unfoldable pub given_minutes : Flags → Option (ℕ × ℕ)
  given_minutes f =
      if is_empty f.config_file
      then some (f.shutdown_timeout, f.rest_bridge_timeout)
      else (elim (read_config f.config_file) [
        | none ↦ none
        | some config ↦ some (config.shutdown_timeout, config.rest_bridge_timeout)
      ])

  generate-in_minutes :
      (f : Flags) (config : PlatformServerConfig G) (shutdown bridge : ℕ)
      → generate_platform_server_config compile absolute read_config f ≡ some config
      → given_minutes f ≡ some (shutdown, bridge)
      → (config.shutdown_timeout ≡ in_minutes 5 shutdown)
        × (config.rest_bridge_timeout ≡ in_minutes 1 bridge)
  unfolding generate_platform_server_config set_timeouts given_minutes
  generate-in_minutes f config shutdown bridge e g = elim (Bool-cases (is_empty f.config_file)) [
    | inl y ↦ elim (Option-cases (tls_of compile absolute read_config f)) [
      | inl n ↦ absurd (ground (arith, y, n, e))
      | inr (tls, q) ↦ ground (arith, y, q, e, g)
    ]
    | inr n ↦ elim (Option-cases (read_config f.config_file)) [
      | inl q ↦ absurd (ground (arith, n, q, e))
      | inr (given, q) ↦ ground (arith, n, q, e, g)
    ]
  ]

  -- If the minutes given by the flags or the file are not positive or fit a duration, both time-outs
  -- of the configuration are positive durations: exactly the minutes given, or by default 5 minutes
  -- for the shutdown and 1 for a bridge.
  pub generate_platform_server_config-minutes :
      (f : Flags) (config : PlatformServerConfig G) (shutdown bridge : ℕ)
      → generate_platform_server_config compile absolute read_config f ≡ some config
      → given_minutes f ≡ some (shutdown, bridge)
      → IsFit shutdown
      → IsFit bridge
      → (config.shutdown_timeout ≡ used 5 shutdown * minute)
        × (signed_lt 0 config.shutdown_timeout ≡ true)
        × (config.rest_bridge_timeout ≡ used 1 bridge * minute)
        × (signed_lt 0 config.rest_bridge_timeout ≡ true)
  unfolding generate_platform_server_config set_timeouts given_minutes
  generate_platform_server_config-minutes f config shutdown bridge e g s b =
      let (se, sp) = in_minutes-exact 5 shutdown (omega arith) (omega arith) s in
      let (be, bp) = in_minutes-exact 1 bridge (omega arith) (omega arith) b in
      let (first, second) = generate-in_minutes f config shutdown bridge e g in
      (
        first ∙ se,
        ap (λ v. signed_lt 0 v) first ∙ sp,
        second ∙ be,
        ap (λ v. signed_lt 0 v) second ∙ bp,
      )
