-- ===== src/Resolution/Windows.antt =====
-- contracts/predict-iq/src/modules/resolution.rs: the dispute windows and their bounds.
use predict_iq.Types.Error.{invalid_amount}
use predict_iq.Admin.{require_admin}
use predict_iq.Env.{Host, M, gets, ◌>>=◌, ◌>>◌, fail_if, modify, pure}
use predict_iq.Prelude.{ℕ, Option, some, get_or, ltb, ◌||◌, ◌==◌}

abbrev pub default_dispute_window_seconds : ℕ
default_dispute_window_seconds = 259200

abbrev pub min_dispute_window_seconds : ℕ
min_dispute_window_seconds = 3600

abbrev pub max_dispute_window_seconds : ℕ
max_dispute_window_seconds = 2592000

module _ {host : Host} where
  unfoldable pub get_default_dispute_window : M host ℕ
  get_default_dispute_window =
      gets λ e. get_or e.windows.default_dispute_window default_dispute_window_seconds

  unfoldable pub get_dispute_window_bounds : M host (ℕ × ℕ)
  get_dispute_window_bounds = gets λ e. (
    get_or e.windows.min_dispute_window min_dispute_window_seconds,
    get_or e.windows.max_dispute_window max_dispute_window_seconds,
  )

  unfoldable pub validate_dispute_window : ℕ → M host (Unit {0})
  unfolding get_dispute_window_bounds
  validate_dispute_window seconds = do
    bounds ← get_dispute_window_bounds
    fail_if (ltb seconds bounds.0 || ltb bounds.1 seconds) invalid_amount

  unfoldable pub set_dispute_window : ℕ → M host (Unit {0})
  unfolding require_admin validate_dispute_window
  set_dispute_window seconds = do
    require_admin
    validate_dispute_window seconds
    modify λ e. record e { windows = record e.windows { default_dispute_window = some seconds } }

  unfoldable pub set_dispute_window_bounds : ℕ → ℕ → M host (Unit {0})
  unfolding require_admin get_default_dispute_window
  set_dispute_window_bounds min_seconds max_seconds = do
    require_admin
    fail_if (min_seconds == 0 || ltb max_seconds min_seconds) invalid_amount
    default_window ← get_default_dispute_window
    fail_if (ltb default_window min_seconds || ltb max_seconds default_window) invalid_amount
    modify λ e. record e { windows = record e.windows { min_dispute_window = some min_seconds } }
    modify λ e. record e { windows = record e.windows { max_dispute_window = some max_seconds } }

  unfoldable pub resolve_market_dispute_window : Option ℕ → M host ℕ
  unfolding get_default_dispute_window validate_dispute_window
  resolve_market_dispute_window dispute_window_seconds = do
    default_window ← get_default_dispute_window
    let window = get_or dispute_window_seconds default_window
    validate_dispute_window window
    pure window

  -- modules/markets.rs.
  unfoldable pub get_market_dispute_window : ℕ → M host ℕ
  unfolding get_default_dispute_window
  get_market_dispute_window market_id = do
    stored ← gets (λ e. e.markets.market_dispute_window market_id)
    default_window ← get_default_dispute_window
    pure (get_or stored default_window)
