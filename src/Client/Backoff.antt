-- ===== src/Client/Backoff.antt =====
-- client/connection.go: the ceilings of the delays between the attempts of `reconnect`.
use diam_gw.Prelude.{ℕ, zero, suc, not, ◌||◌, if◌then◌else◌}
use diam_gw.Prelude.Int.{ℤ, pos, ltb_int}

-- Durations are in nanoseconds.
pub record BackoffConfig : Type 0 where
  pub reconnect_interval : ℤ
  pub max_reconnect_delay : ℤ

abbrev pub second : ℤ
second = pos 1000000000

unfoldable pub initial_of : BackoffConfig → ℤ
initial_of cfg = if ltb_int (pos 0) cfg.reconnect_interval then cfg.reconnect_interval else second

unfoldable pub max_delay_of : BackoffConfig → ℤ
unfolding initial_of
max_delay_of cfg =
    if ltb_int (pos 0) cfg.max_reconnect_delay then cfg.max_reconnect_delay else initial_of cfg

-- `scaled` is the product with the backoff factor, a float64, as a Duration: whatever the conversion gives.
module _ (scaled : ℤ → ℤ) (cfg : BackoffConfig) where
  unfoldable pub next_ceiling : ℤ → ℤ
  unfolding max_delay_of
  next_ceiling ceiling =
      let next = scaled ceiling in
      if ltb_int (max_delay_of cfg) next || not (ltb_int (pos 0) next)
      then max_delay_of cfg
      else next

  -- The ceiling after a number of failed attempts in a row.
  unfoldable pub ceiling_after : ℕ → ℤ
  unfolding initial_of next_ceiling
  ceiling_after zero = initial_of cfg
  ceiling_after (suc failures) = next_ceiling (ceiling_after failures)
