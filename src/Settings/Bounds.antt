-- ===== src/Settings/Bounds.antt =====
-- What holds of the settings that can be made (pipelines/scoring/config.py).
use fraudstream.Prelude.{◌≡◌, true, false, some, arith}
use fraudstream.Prelude.Int.{pos, ◌≤ℤ◌}
use fraudstream.Prelude.Results.{ok}
use fraudstream.Settings.{
  Environ, Library, ScoringConfig, env_or, parse_int, parse_float, post_init, scoring_config,
}

module _ {F : Type 0} (lib : Library F) where
  -- The checks of the breaker's numbers hold; a NaN is not at most 0 either.
  abbrev pub InRange : ScoringConfig F → Type 0
  InRange c =
      (pos 1 ≤ℤ c.cb_error_threshold)
      × (lib.le c.cb_open_seconds (lib.whole 0) ≡ false)
      × (lib.le (lib.whole 1) c.cb_probe_timeout_ms ≡ true)
      × (lib.le c.cb_probe_timeout_ms (lib.whole 50) ≡ true)
      × (pos 1 ≤ℤ c.cb_error_window_seconds)

  -- The numbers are those of the environment or of the defaults.
  abbrev pub ReadsFrom : Environ → ScoringConfig F → Type 0
  ReadsFrom env c =
      (lib.int_of (env_or env "PG_POOL_SIZE" "2") ≡ some c.pg_pool_size)
      × (lib.int_of (env_or env "CB_ERROR_THRESHOLD" "3") ≡ some c.cb_error_threshold)
      × (lib.float_of (env_or env "CB_OPEN_SECONDS" "30.0") ≡ some c.cb_open_seconds)
      × (lib.float_of (env_or env "CB_PROBE_TIMEOUT_MS" "5.0") ≡ some c.cb_probe_timeout_ms)
      × (lib.int_of (env_or env "CB_ERROR_WINDOW_SECONDS" "10") ≡ some c.cb_error_window_seconds)

  post_init-InRange : (c d : ScoringConfig F) → post_init lib c ≡ ok d → (c ≡ d) × InRange c
  unfolding post_init
  post_init-InRange c d h = ground arith

  -- Settings that can be made of an environment pass the checks, and are read from the environment's
  -- variables or, where one is missing, from the defaults.
  pub scoring_config-InRange :
      (env : Environ) (c : ScoringConfig F)
      → scoring_config lib env ≡ ok c
      → InRange c × ReadsFrom env c
  unfolding scoring_config parse_int parse_float post_init
  scoring_config-InRange env c h = ground arith
